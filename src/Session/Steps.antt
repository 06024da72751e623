-- ===== src/Session/Steps.antt =====
-- Which users and which bets a step of a hand leaves behind.
pub mod Balance
use mathlib.Core.Path.{subst}
use poker_telegram_bot.Prelude.{
  Distinct, ℕ, ◌+◌, ◌-◌, ◌≡◌, refl, sym, ◌∙◌, true, ◌||◌, Option, none, some, List, [], ◌∷◌, map,
  get_elem?, set, sum_by, ltb, leb, ◌==◌, arith, Bool-cases, Option-cases, inl, inr, ap, ℤ, pos,
  negsuc, length,
}
use poker_telegram_bot.Entities.{
  Game, Player, paid_blind, occupied, players, contenders, all_in, fold,
}
use poker_telegram_bot.WalletManager.{Purse, funds, opened, authorize, Debit, debited, insufficient}
use poker_telegram_bot.Play.{
  Refusal, Processed, accepted, rejected, when_debited, wager, add_to_pot, put_player, lead_betting,
  fold_processor, call_processor, raise_processor, all_in_processor, append_last_action,
  is_betting_round_over, find_next_active_player_index,
}
use poker_telegram_bot.Play.Money.{
  PlayerAction, to_fold, to_call, to_raise, to_all_in, process, stakes, sum-set, Accounted,
  process-Accounted,
}
use poker_telegram_bot.Play.Turn.{next_turn, give_turn}
use poker_telegram_bot.Play.Blinds.{Purses, write_purse, set_player_blind, set_player_blind_lem}
use poker_telegram_bot.Stages.{progress_stage}
use poker_telegram_bot.Stages.Progress.{Dealt}
use poker_telegram_bot.Stages.Streets.{money_of, bets}
use poker_telegram_bot.Stages.Streets.Loop.{progress_stage-Progressed}
use poker_telegram_bot.Session.{
  Hand, Step, blind_posted, action_accepted, action_refused, turn_passed, street_begun,
}
use poker_telegram_bot.Session.Users.{
  users, bank, contains-users, users-set, users-reopen, bank-others, bank-write,
}

-- The same users sit at the table; the pot has grown by as much as the bets; and the wallets and
-- the pot hold together what they held before.
pub record Kept (g : Game) (ws : Purses) (g' : Game) (ws' : Purses) : Type 0 where
  pub same_users : users g'.seats ≡ users g.seats
  pub balanced : g'.pot + stakes g ≡ g.pot + stakes g'
  pub total : bank (users g.seats) ws' + g'.pot ≡ bank (users g.seats) ws + g.pot

abbrev UsersKept : Game → Processed → Type 0
UsersKept g (accepted g' _) = users g'.seats ≡ users g.seats
UsersKept g (rejected _ _) = Unit

when_debited-UsersKept :
    (g : Game) (d : Debit) (next : Purse → Game)
    → ((q : Purse) → users (next q).seats ≡ users g.seats)
    → UsersKept g (when_debited d (λ q. accepted (next q) q))
when_debited-UsersKept g (debited q) next h = h q
when_debited-UsersKept g (insufficient q) next h = tt

lead_betting-users :
    (p : Player) (rate : ℕ) (g : Game) → users (lead_betting p rate g).seats ≡ users g.seats
lead_betting-users p rate g = elim (Bool-cases (ltb g.max_round_rate rate)) [
  | inl leads ↦ rw leads (users-reopen p.user_id g.seats)
  | inr follows ↦ rw follows refl
]

pub process-UsersKept :
    (a : PlayerAction) (g : Game) (i : ℕ) (p : Player) (w : Purse)
    → get_elem? g.seats i ≡ some (some p)
    → UsersKept g (process a g i p w)
unfolding fold_processor call_processor raise_processor all_in_processor append_last_action
process-UsersKept to_fold g i p w e =
    users-set g.seats i p (record p { state = fold; has_acted = true }) e refl
process-UsersKept to_call g i p w e =
    let a = g.max_round_rate - p.round_rate in
    elim (Bool-cases (ltb 0 a)) [
      | inl more ↦ rw more (
          when_debited-UsersKept g (authorize g.id a w) _
            (λ q. users-set g.seats i p (record (wager a p) { has_acted = true }) e refl))
      | inr level ↦ rw level (users-set g.seats i p (record p { has_acted = true }) e refl)
    ]
process-UsersKept (to_raise a) g i p w e =
    let total = g.max_round_rate - p.round_rate + a in
    let now = record (wager total p) { has_acted = true } in
    elim (Bool-cases (a == 0)) [
      | inl nothing ↦ rw nothing tt
      | inr chips ↦ rw chips (
          when_debited-UsersKept g (authorize g.id total w) _ (λ q.
            users-reopen p.user_id (set g.seats i (some now)) ∙ users-set g.seats i p now e refl))
    ]
process-UsersKept to_all_in g i p w e =
    let a = funds w in
    let now = record (wager a p) { state = all_in; has_acted = true } in
    elim (Bool-cases (a == 0)) [
      | inl nothing ↦ rw nothing tt
      | inr chips ↦ rw chips (
          when_debited-UsersKept g (authorize g.id a (opened w)) _ (λ q.
            lead_betting-users p (p.round_rate + a) (add_to_pot a (put_player i now g))
            ∙ users-set g.seats i p now e refl))
    ]

-- What a blind does to the seats: the same users, and as much more in the bets as in the pot.
abbrev Posted : Game → Game → Type 0
Posted g g' = (users g'.seats ≡ users g.seats) × (g'.pot + stakes g ≡ g.pot + stakes g')

wager-Posted :
    (g g' : Game) (i b : ℕ) (p q : Player)
    → get_elem? g.seats i ≡ some (some p)
    → q.user_id ≡ p.user_id
    → q.total_bet ≡ p.total_bet + b
    → g'.seats ≡ set g.seats i (some q)
    → g'.pot ≡ g.pot + b
    → Posted g g'
wager-Posted g g' i b p q e same more seats pot =
    let bet = sum-set (λ r. r.total_bet) g.seats i p q e in
    let all_bets = ap (λ ps. sum_by (λ r. r.total_bet) (occupied ps)) seats in
    (ap users seats ∙ users-set g.seats i p q e same, omega (arith, bet, all_bets, more, pot))

pub set_player_blind-Posted :
    (chat amount i : ℕ) (p : Player) (g : Game) (ws : Purses)
    → get_elem? g.seats i ≡ some (some p)
    → Posted g (set_player_blind chat amount (pos i) p g ws).0
unfolding set_player_blind append_last_action
set_player_blind-Posted chat amount i p g ws e =
    by_debit (authorize chat amount (ws p.user_id)) refl
  where
    by_debit :
        (d : Debit)
        → authorize chat amount (ws p.user_id) ≡ d
        → Posted g (set_player_blind chat amount (pos i) p g ws).0
    by_debit (debited q) h =
        rw (set_player_blind, h)
          (wager-Posted g
            (append_last_action p.user_id (paid_blind amount)
              (add_to_pot amount (put_player i (wager amount p) g)))
            i amount p (wager amount p) e refl refl refl refl)
    by_debit (insufficient q) h =
        let now = record (wager (funds q) p) { state = all_in } in
        rw (set_player_blind, h)
          (wager-Posted g (add_to_pot (funds q) (put_player i now g)) i (funds q) p now e refl refl
            refl refl)
