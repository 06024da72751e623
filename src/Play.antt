-- ===== src/Play.antt =====
-- What a player's action does to the game and to the player's wallet: the processors of
-- `player_action_fold`, `player_action_call_check`, `player_action_raise_bet` and
-- `player_action_all_in` of pokerapp/pokerbotmodel.py, `_is_betting_round_over`, and
-- `RoundRateModel`, except `finish_rate`. Each processor is given the game and the seat of the
-- player, and the purse that the player's wallet reads; for a player without a wallet, which only a
-- table manager without a wallet store loads, `call_without_wallet` and `raise_without_wallet` are
-- the branches. Messages are left out.
pub mod Turn
pub mod Money
pub mod Unpaid
pub mod Blinds
pub mod Rounds
use poker_telegram_bot.Prelude.{
  ℕ, zero, suc, ◌+◌, ◌-◌, ◌*◌, ◌%◌, Bool, true, false, not, ◌&&◌, ◌||◌, Option, none, some, List,
  [], ◌∷◌, ◌++◌, length, get_elem?, set, keep, all, drop, leb, ltb, ◌==◌, if◌then◌else◌, ℤ, pos,
  negsuc, minus_one,
}
use poker_telegram_bot.Entities.{
  PlayerState, active, fold, all_in, ActionEntry, folded, checked, called, bet, raised, went_all_in,
  paid_blind, Player, Game, players, seated_count, is_state, active_players, get_player_by_seat,
  map_seats, next_occupied_seat,
}
use poker_telegram_bot.WalletManager.{Purse, funds, opened, authorize, Debit, debited, insufficient}

abbrev pub small_blind : ℕ
small_blind = 5

-- `_append_last_action`: the last five entries are kept.
unfoldable pub append_last_action : ℕ → ActionEntry → Game → Game
append_last_action u e g =
    let actions = g.last_actions ++ ((u, e) ∷ []) in
    record g { last_actions = drop (length actions - 5) actions }

-- The player's object at seat `i` is written.
abbrev pub put_player : ℕ → Player → Game → Game
put_player i p g = record g { seats = set g.seats i (some p) }

-- The loop of `raise_bet` and `all_in` over the other active players.
abbrev pub reopen : ℕ → Player → Player
reopen u p =
    if is_state p.state active && not (p.user_id == u) then record p { has_acted = false } else p

abbrev pub reopen_betting : ℕ → Game → Game
reopen_betting u g = record g { seats = map_seats (reopen u) g.seats }

pub data Refusal : Type 0 where
  invalid_raise no_chips wallet_error : Refusal

pub data Processed : Type 0 where
  accepted : Game → Purse → Processed
  rejected : Refusal → Purse → Processed

-- A player who put `a` more chips in.
abbrev pub wager : ℕ → Player → Player
wager a p = record p { round_rate = p.round_rate + a; total_bet = p.total_bet + a }

abbrev pub add_to_pot : ℕ → Game → Game
add_to_pot a g = record g { pot = g.pot + a }

-- After `wallet.authorize`: on, or out with the exception's message.
abbrev pub when_debited : Debit → (Purse → Processed) → Processed
when_debited (debited q) next = next q
when_debited (insufficient q) next = rejected wallet_error q

-- `_fold_processor`
unfoldable pub fold_processor : Game → ℕ → Player → Purse → Processed
unfolding append_last_action
fold_processor g i p w =
    accepted
      (append_last_action p.user_id folded
        (put_player i (record p { state = fold; has_acted = true }) g))
      w

-- `_call_processor`
unfoldable pub call_processor : Game → ℕ → Player → Purse → Processed
unfolding append_last_action authorize
call_processor g i p w =
    let call_amount = g.max_round_rate - p.round_rate in
    if ltb 0 call_amount
    then when_debited (authorize g.id call_amount w) (λ q.
      accepted
        (append_last_action p.user_id (called call_amount) (
          add_to_pot call_amount
            (put_player i (record (wager call_amount p) { has_acted = true }) g)))
        q)
    else accepted
        (append_last_action p.user_id checked (put_player i (record p { has_acted = true }) g)) w

-- `_call_processor` where the player has no wallet: nothing is debited.
unfoldable pub call_without_wallet : Game → ℕ → Player → Game
unfolding append_last_action
call_without_wallet g i p =
    let call_amount = g.max_round_rate - p.round_rate in
    if ltb 0 call_amount
    then append_last_action p.user_id (called call_amount) (
        add_to_pot call_amount (put_player i (record (wager call_amount p) { has_acted = true }) g))
    else append_last_action p.user_id checked (put_player i (record p { has_acted = true }) g)

-- `_raise_processor`; an amount that is missing or negative is refused like 0.
unfoldable pub raise_processor : ℕ → Game → ℕ → Player → Purse → Processed
unfolding append_last_action authorize
raise_processor a g i p w =
    let call_amount = g.max_round_rate - p.round_rate in
    let total = call_amount + a in
    if a == 0
    then rejected invalid_raise w
    else when_debited (authorize g.id total w) (λ q.
      accepted
        (append_last_action p.user_id (if call_amount == 0 then bet total else raised total) (
          reopen_betting p.user_id
            (record (add_to_pot total
              (put_player i (record (wager total p) { has_acted = true }) g)) {
                max_round_rate = p.round_rate + total;
                trading_end_user_id = some p.user_id;
              })))
        q)

-- `_raise_processor` where the player has no wallet; `none` is the refusal of the amount.
unfoldable pub raise_without_wallet : ℕ → Game → ℕ → Player → Option Game
unfolding append_last_action
raise_without_wallet a g i p =
    let call_amount = g.max_round_rate - p.round_rate in
    let total = call_amount + a in
    if a == 0
    then none
    else some (
        append_last_action p.user_id (if call_amount == 0 then bet total else raised total) (
          reopen_betting p.user_id
            (record (add_to_pot total
              (put_player i (record (wager total p) { has_acted = true }) g)) {
                max_round_rate = p.round_rate + total;
                trading_end_user_id = some p.user_id;
              })))

-- The branch of `_all_in_processor` for a bet above the round's highest.
abbrev pub lead_betting : Player → ℕ → Game → Game
lead_betting p rate g =
    if ltb g.max_round_rate rate
    then reopen_betting p.user_id
        (record g { max_round_rate = rate; trading_end_user_id = some p.user_id })
    else g

-- `_all_in_processor`; `wallet.value` opens a purse that has no balance.
unfoldable pub all_in_processor : Game → ℕ → Player → Purse → Processed
unfolding append_last_action authorize
all_in_processor g i p w =
    let amount = funds w in
    if amount == 0
    then rejected no_chips (opened w)
    else when_debited (authorize g.id amount (opened w)) (λ q.
      accepted
        (append_last_action p.user_id (went_all_in amount) (
          lead_betting p (p.round_rate + amount) (
            add_to_pot amount
              (put_player i (record (wager amount p) { state = all_in; has_acted = true }) g))))
        q)

-- `_is_betting_round_over`
unfoldable pub is_betting_round_over : Game → Bool
is_betting_round_over g = elim (active_players g) [
  | [] ↦ true
  | p ∷ ps ↦ all (λ q. q.has_acted) (p ∷ ps) && all (λ q. q.round_rate == p.round_rate) (p ∷ ps)
]

-- The loop of `_find_next_active_player_index`: `k` rounds are left, and the next one looks at
-- player `i` of the list.
scan_active : List Player → ℕ → ℕ → ℤ
scan_active ps i zero = minus_one
scan_active ps i (suc k) = elim (get_elem? ps (i % length ps)) [
  | none ↦ scan_active ps (suc i) k
  | some p ↦
      let rest = scan_active ps (suc i) k in
      if is_state p.state active then pos (i % length ps) else rest
]

-- `start + 1`, or a number with the same remainder where that is negative.
abbrev pub index_after : ℤ → ℕ → ℕ
index_after (pos s) n = suc s
index_after (negsuc m) n = n - m % n

-- `RoundRateModel._find_next_active_player_index`
unfoldable pub find_next_active_player_index : Game → ℤ → ℤ
unfolding scan_active
find_next_active_player_index g start =
    scan_active (players g) (index_after start (seated_count g)) (seated_count g)

-- `RoundRateModel._get_first_player_index`
unfoldable pub get_first_player_index : Game → ℤ
unfolding find_next_active_player_index
get_first_player_index g = find_next_active_player_index g g.dealer_index

-- `RoundRateModel.collect_bets_for_pot`
unfoldable pub collect_bets_for_pot : Game → Game
collect_bets_for_pot g = record g {
  seats = map_seats (λ p. record p { round_rate = 0 }) g.seats;
  max_round_rate = 0;
}
