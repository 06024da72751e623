-- ===== src/Play/Blinds.antt =====
-- The blinds: `RoundRateModel.set_blinds` and `_set_player_blind` of pokerapp/pokerbotmodel.py, and
-- `_refund_players` of pokerapp/game_engine.py. The wallets are the purses of the users. A
-- game's id and a chat's id as text are numbers here.
use poker_telegram_bot.Prelude.{
  ℕ, ◌+◌, ◌*◌, ◌≤◌, ◌≡◌, ◌≢◌, refl, inl, inr, Option, none, some, List, [], ◌∷◌, ltb, leb, ◌==◌,
  if◌then◌else◌, ℤ, pos, negsuc, arith,
}
use poker_telegram_bot.Entities.{
  Player, Game, all_in, paid_blind, seated_count, get_player_by_seat, next_occupied_seat,
}
use poker_telegram_bot.WalletManager.{
  Purse, funds, opened, authorized_money, authorize, cancel, Debit, debited, insufficient,
}
use poker_telegram_bot.WalletManager.Laws.{authorize_lem, SetAside, cancel_lem}
use poker_telegram_bot.Play.{small_blind, append_last_action, put_player, wager, add_to_pot}

-- The wallets, by user id.
abbrev pub Purses : Type 0
Purses = ℕ → Purse

abbrev pub write_purse : ℕ → Purse → Purses → Purses
write_purse u w ws v = if u == v then w else ws v

-- The player's object at the seat that an index names.
abbrev pub put_player_at : ℤ → Player → Game → Game
put_player_at (pos i) p g = put_player i p g
put_player_at (negsuc _) p g = g

-- The second `authorize` of `_set_player_blind` asks for what the purse holds, so it succeeds.
abbrev pub purse_after : Debit → Purse
purse_after (debited q) = q
purse_after (insufficient q) = q

-- `_set_player_blind`: the blind, or all that the player has; the key is the chat's id.
unfoldable pub set_player_blind : ℕ → ℕ → ℤ → Player → Game → Purses → Game × Purses
unfolding authorize append_last_action
set_player_blind chat amount i p g ws = elim (authorize chat amount (ws p.user_id)) [
  | debited q ↦ (
    append_last_action p.user_id (paid_blind amount)
        (add_to_pot amount (put_player_at i (wager amount p) g)),
    write_purse p.user_id q ws,
  )
  | insufficient q ↦ (
    add_to_pot (funds q) (put_player_at i (record (wager (funds q) p) { state = all_in }) g),
    write_purse p.user_id (purse_after (authorize chat (funds q) q)) ws,
  )
]

-- Where the blinds and the first action sit.
abbrev pub blind_seats : Game → ℤ × ℤ × ℤ
blind_seats g =
    if seated_count g == 2
    then (g.dealer_index, next_occupied_seat g g.dealer_index, g.dealer_index)
    else let small = next_occupied_seat g g.dealer_index in
      let big = next_occupied_seat g small in (small, big, next_occupied_seat g big)

-- The second payment; the big blind's player is read again, as the object that the first one may
-- have changed.
abbrev pub pay_big_blind : ℕ → ℤ → Game × Purses → Game × Purses
pay_big_blind chat big (g, ws) = elim (get_player_by_seat g big) [
  | none ↦ (g, ws)
  | some b ↦ set_player_blind chat (small_blind * 2) big b g ws
]

-- The two payments, in order.
abbrev pub pay_blinds : ℕ → ℤ → ℤ → ℤ → Game → Purses → Option Player × Game × Purses
pay_blinds chat small big first g ws = elim (get_player_by_seat g small) [
  | none ↦ (none, g, ws)
  | some s ↦ elim (get_player_by_seat g big) [
    | none ↦ (none, g, ws)
    | some b ↦
        let (g', ws') = pay_big_blind chat big (set_player_blind chat small_blind small s g ws) in
        let ready = record g' {
          max_round_rate = small_blind * 2;
          current_player_index = first;
          trading_end_user_id = some b.user_id;
        } in
        (get_player_by_seat ready first, ready, ws')
  ]
]

-- `set_blinds`
unfoldable pub set_blinds : ℕ → Game → Purses → Option Player × Game × Purses
unfolding set_player_blind next_occupied_seat
set_blinds chat g ws =
    if ltb (seated_count g) 2
    then (none, g, ws)
    else let (small, big, first) = blind_seats g in
      pay_blinds chat small big first
        (record g { small_blind_index = small; big_blind_index = big }) ws

-- `_refund_players`: every player's `wallet.cancel` of the game.
unfoldable pub refund_players : ℕ → List Player → Purses → Purses
unfolding cancel
refund_players game_id [] ws = ws
refund_players game_id (p ∷ ps) ws =
    refund_players game_id ps (write_purse p.user_id (cancel game_id (ws p.user_id)) ws)

pub write_purse_self : (u : ℕ) (w : Purse) (ws : Purses) → write_purse u w ws u ≡ w
write_purse_self u w ws = ground arith

-- What a blind of `b` chips did to the pot and to the payer's wallet.
pub record BlindPaid (chat b : ℕ) (p : Player) (g : Game) (ws : Purses) (r : Game × Purses)
    : Type 0 where
  pub into_pot : r.0.pot ≡ g.pot + b
  pub out_of_funds : funds (r.1 p.user_id) + b ≡ funds (ws p.user_id)
  pub held : authorized_money chat (r.1 p.user_id) ≡ authorized_money chat (ws p.user_id) + b
  pub elsewhere :
      (k : ℕ) → chat ≢ k → authorized_money k (r.1 p.user_id) ≡ authorized_money k (ws p.user_id)
  pub balance_kept : (r.1 p.user_id).balance ≡ some (funds (r.1 p.user_id))
  pub others : (u : ℕ) → p.user_id ≢ u → r.1 u ≡ ws u

pot-put_player_at : (i : ℤ) (p : Player) (g : Game) → (put_player_at i p g).pot ≡ g.pot
pot-put_player_at (pos i) p g = refl
pot-put_player_at (negsuc n) p g = refl

blind_paid :
    (chat b : ℕ) (p : Player) (g g' : Game) (ws : Purses) (q : Purse)
    → g'.pot ≡ g.pot + b
    → SetAside chat b (ws p.user_id) q
    → BlindPaid chat b p g ws (g', write_purse p.user_id q ws)
blind_paid chat b p g g' ws q pot s =
    let self = write_purse_self p.user_id q ws in
    record {
      into_pot = pot;
      out_of_funds = rw self s.paid;
      held = rw self s.kept_aside;
      elsewhere = λ k n. rw self (s.other_games k n);
      balance_kept = rw self s.balance_kept;
      others = λ u n. ground arith;
    }

-- Posting a blind takes the blind, or all that the player has where that is less, from the
-- player's funds; the pot and the money set aside under the chat's id grow by as much, what is
-- set aside under any other id stays, and so does every other user's wallet.
pub set_player_blind_lem :
    (chat amount : ℕ) (i : ℤ) (p : Player) (g : Game) (ws : Purses)
    → (b : ℕ) × (b ≡ (if leb amount (funds (ws p.user_id)) then amount else funds (ws p.user_id)))
      × BlindPaid chat b p g ws (set_player_blind chat amount i p g ws)
unfolding set_player_blind append_last_action
set_player_blind_lem chat amount i p g ws =
    let w = ws p.user_id in
    elim (authorize_lem chat amount w) [
      | inl (q, enough, e, s) ↦
          let pot = pot-put_player_at i (wager amount p) g in
          (
            amount,
            ground arith,
            rw (set_player_blind, e) (blind_paid chat amount p g _ ws q (omega (arith, pot)) s),
          )
      | inr (short, e, same) ↦ elim (authorize_lem chat (funds w) (opened w)) [
        | inl (q, _, f, s) ↦
            let pot = pot-put_player_at i (record (wager (funds w) p) { state = all_in }) g in
            let all_of_it : SetAside chat (funds w) w q = record {
              paid = s.paid;
              kept_aside = s.kept_aside;
              balance_kept = s.balance_kept;
              other_games = s.other_games;
            } in
            (
              funds w,
              ground arith,
              rw (set_player_blind, e, f)
                  (blind_paid chat (funds w) p g _ ws q (omega (arith, pot)) all_of_it),
            )
        | inr (never, _, _) ↦ absurd (omega arith)
      ]
    ]

-- Cancelling a hand gives the money back that is set aside under the game's id, and a blind is set
-- aside under the chat's id: where the two ids differ, a player who posted a blind gets back what
-- was set aside for the game before, and the blind stays gone.
pub blind_not_refunded :
    (chat amount : ℕ) (i : ℤ) (p : Player) (g : Game) (ws : Purses)
    → chat ≢ g.id
    → amount ≤ funds (ws p.user_id)
    → funds (refund_players g.id (p ∷ []) (set_player_blind chat amount i p g ws).1 p.user_id)
        + amount
      ≡ funds (ws p.user_id) + authorized_money g.id (ws p.user_id)
unfolding refund_players
blind_not_refunded chat amount i p g ws differ enough =
    let (b, size, paid) = set_player_blind_lem chat amount i p g ws in
    let after = (set_player_blind chat amount i p g ws).1 in
    let back = (cancel_lem g.id (funds (after p.user_id)) (after p.user_id) paid.balance_kept).0 in
    let self = write_purse_self p.user_id (cancel g.id (after p.user_id)) after in
    rw self (ground (arith, back, size, paid.out_of_funds, paid.elsewhere g.id differ))
