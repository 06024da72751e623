-- ===== src/Play/Money.antt =====
-- Where the chips of a player's action go, over the processors of pokerapp/pokerbotmodel.py.
use poker_telegram_bot.Prelude.{
  ℕ, zero, suc, ◌+◌, ◌-◌, ◌≡◌, refl, ◌∙◌, inl, inr, true, not, ◌&&◌, Option, none, some, List, [],
  ◌∷◌, get_elem?, set, sum_by, ltb, ◌==◌, arith, Bool-cases,
}
use poker_telegram_bot.Entities.{
  Player, Game, occupied, players, map_seats, is_state, active, all_in, fold, ActionEntry,
}
use poker_telegram_bot.WalletManager.{Purse, funds, opened, authorized_money, authorize}
use poker_telegram_bot.WalletManager.Laws.{authorize_lem}
use poker_telegram_bot.Play.{
  append_last_action, put_player, reopen, Processed, accepted, rejected, wager, add_to_pot,
  when_debited, fold_processor, call_processor, raise_processor, all_in_processor, lead_betting,
}

-- The four actions of a turn.
pub data PlayerAction : Type 0 where
  to_fold to_call to_all_in : PlayerAction
  to_raise : ℕ → PlayerAction

abbrev pub process : PlayerAction → Game → ℕ → Player → Purse → Processed
process to_fold = fold_processor
process to_call = call_processor
process to_all_in = all_in_processor
process (to_raise a) = raise_processor a

-- All that the seated players have bet in this hand.
abbrev pub stakes : Game → ℕ
stakes g = sum_by (λ p. p.total_bet) (players g)

-- The chips of an action that went through: they left the user's funds, and are in the pot, in
-- the players' bets and in what the wallet has set aside for this game.
pub record Moved (g : Game) (w : Purse) (g' : Game) (w' : Purse) : Type 0 where
  pub amount : ℕ
  pub into_pot : g'.pot ≡ g.pot + amount
  pub into_stakes : stakes g' ≡ stakes g + amount
  pub out_of_funds : funds w' + amount ≡ funds w
  pub set_aside_for_game : authorized_money g.id w' ≡ authorized_money g.id w + amount

abbrev pub Accounted : Game → Purse → Processed → Type 0
Accounted g w (accepted g' w') = Moved g w g' w'
Accounted g w (rejected _ w') =
    (funds w' ≡ funds w) × (authorized_money g.id w' ≡ authorized_money g.id w)

pub sum-set :
    (f : Player → ℕ) (ps : List (Option Player)) (i : ℕ) (p q : Player)
    → get_elem? ps i ≡ some (some p)
    → sum_by f (occupied (set ps i (some q))) + f p ≡ sum_by f (occupied ps) + f q
sum-set f [] i p q e = absurd (cc)
sum-set f (none ∷ ps) zero p q e = absurd (cc)
sum-set f (some r ∷ ps) zero p q e = ground (arith, e)
sum-set f (none ∷ ps) (suc i) p q e = sum-set f ps i p q e
sum-set f (some r ∷ ps) (suc i) p q e = omega (arith, sum-set f ps i p q e)

sum-reopen :
    (u : ℕ) (ps : List (Option Player))
    → sum_by (λ p. p.total_bet) (occupied (map_seats (reopen u) ps))
      ≡ sum_by (λ p. p.total_bet) (occupied ps)
sum-reopen u [] = refl
sum-reopen u (none ∷ ps) = sum-reopen u ps
sum-reopen u (some p ∷ ps) = elim (Bool-cases (is_state p.state active && not (p.user_id == u))) [
  | inl e ↦ rw (e, sum-reopen u ps)
  | inr e ↦ rw (e, sum-reopen u ps)
]

stakes-append_last_action :
    (u : ℕ) (e : ActionEntry) (g : Game)
    → (stakes (append_last_action u e g) ≡ stakes g) × ((append_last_action u e g).pot ≡ g.pot)
unfolding append_last_action
stakes-append_last_action u e g = (refl, refl)

-- After `authorize`, what follows is accounted for if it puts the amount in the pot and the bets.
when_debited-Accounted :
    (g : Game) (w v : Purse) (a : ℕ) (next : Purse → Game)
    → funds v ≡ funds w
    → authorized_money g.id v ≡ authorized_money g.id w
    → ((q : Purse) → ((next q).pot ≡ g.pot + a) × (stakes (next q) ≡ stakes g + a))
    → Accounted g w (when_debited (authorize g.id a v) (λ q. accepted (next q) q))
when_debited-Accounted g w v a next same held moved = elim (authorize_lem g.id a v) [
  | inl (q, _, e, s) ↦ rw e (record {
    amount = a;
    into_pot = (moved q).0;
    into_stakes = (moved q).1;
    out_of_funds = s.paid ∙ same;
    set_aside_for_game = omega (arith, s.kept_aside, held);
  })
  | inr (_, e, f) ↦ rw e (f ∙ same, held)
]

nothing-Moved : (g g' : Game) (w : Purse) → g'.pot ≡ g.pot → stakes g' ≡ stakes g → Moved g w g' w
nothing-Moved g g' w e f = record {
  amount = 0;
  into_pot = omega (arith, e);
  into_stakes = omega (arith, f);
  out_of_funds = omega arith;
  set_aside_for_game = omega arith;
}

all_in_moved :
    (g : Game) (i : ℕ) (p : Player) (a : ℕ)
    → get_elem? g.seats i ≡ some (some p)
    → let g' =
        lead_betting p (p.round_rate + a) (
          add_to_pot a
            (put_player i (record (wager a p) { state = all_in; has_acted = true }) g)) in
      (g'.pot ≡ g.pot + a) × (stakes g' ≡ stakes g + a)
all_in_moved g i p a e =
    let now = record (wager a p) { state = all_in; has_acted = true } in
    let bets = sum-set (λ r. r.total_bet) g.seats i p now e in
    elim (Bool-cases (ltb g.max_round_rate (p.round_rate + a))) [
      | inl leads ↦
          rw leads (refl, omega (arith, sum-reopen p.user_id (set g.seats i (some now)), bets))
      | inr follows ↦ rw follows (refl, omega (arith, bets))
    ]

-- Every action of the player at a seat moves its chips once: what the user's funds lose is what
-- the pot, the bets and the money set aside for the game gain. A refused action leaves the funds
-- and the money set aside as they were.
pub process-Accounted :
    (a : PlayerAction) (g : Game) (i : ℕ) (p : Player) (w : Purse)
    → get_elem? g.seats i ≡ some (some p)
    → Accounted g w (process a g i p w)
unfolding fold_processor call_processor raise_processor all_in_processor append_last_action
process-Accounted to_fold g i p w e = nothing-Moved g _ w refl (
    omega (
      arith,
      sum-set (λ q. q.total_bet) g.seats i p (record p { state = fold; has_acted = true }) e,
    ))
process-Accounted to_call g i p w e =
    let a = g.max_round_rate - p.round_rate in
    elim (Bool-cases (ltb 0 a)) [
      | inl more ↦ rw more (
          when_debited-Accounted g w w a _ refl refl (λ q. (
            refl,
            omega (
              arith,
              sum-set (λ r. r.total_bet) g.seats i p (record (wager a p) { has_acted = true }) e,
            ),
          )))
      | inr level ↦ rw level (
          nothing-Moved g _ w refl (
            omega
              (arith, sum-set (λ r. r.total_bet) g.seats i p (record p { has_acted = true }) e)))
    ]
process-Accounted (to_raise a) g i p w e =
    let total = g.max_round_rate - p.round_rate + a in
    elim (Bool-cases (a == 0)) [
      | inl nothing ↦ rw nothing (refl, refl)
      | inr some_chips ↦ rw some_chips (
          when_debited-Accounted g w w total _ refl refl (λ q. (
            refl,
            omega (
              arith,
              sum-reopen p.user_id
                  (set g.seats i (some (record (wager total p) { has_acted = true }))),
              sum-set (λ r. r.total_bet) g.seats i p (record (wager total p) { has_acted = true })
                  e,
            ),
          )))
    ]
process-Accounted to_all_in g i p w e = elim (Bool-cases (funds w == 0)) [
  | inl nothing ↦ rw nothing (refl, refl)
  | inr some_chips ↦ rw some_chips (
      when_debited-Accounted g w (opened w) (funds w) _ refl refl
        (λ q. all_in_moved g i p (funds w) e))
]
