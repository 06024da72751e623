-- ===== src/Pots/Settlement.antt =====
-- From the end of a hand to the wallets, in pokerapp/game_engine.py: `_determine_winners` and
-- `_distribute_payouts` together.
use poker_telegram_bot.Prelude.{
  ℕ, ◌+◌, ◌*◌, ◌≤◌, ◌<◌, ◌≡◌, ◌≢◌, refl, ◌∙◌, ap, inl, inr, ◌||◌, max, Option, none, some, List, [],
  ◌∷◌, length, All, keep, sum_by, ◌==◌, if◌then◌else◌, arith, Bool-cases,
}
use poker_telegram_bot.Entities.{
  Game, Player, active, is_state, in_hand, occupied, players, contenders,
}
use poker_telegram_bot.Entities.Seats.{Absent, OnePerUser}
use poker_telegram_bot.Pots.Conserve.{amounts, pots_total}
use poker_telegram_bot.Pots.Layers.{bets_total}
use poker_telegram_bot.Pots.Shares.{payouts_total, determine_pot_winners-WonBy, pay_pots_lem}
use poker_telegram_bot.Pots.{
  Detail, evaluate_contender_hands, determine_pot_winners, Payouts, payout, add_payout,
  process_fold_win, showdown, determine_winners, distribute_payouts, settle,
}

-- How many of the players have this user id.
abbrev pub seats_of : ℕ → List Player → ℕ
seats_of u [] = 0
seats_of u (p ∷ ps) = (if p.user_id == u then 1 else 0) + seats_of u ps

-- What the payouts come to when each player draws the entry of his user id.
abbrev pub drawn : List Player → Payouts → ℕ
drawn ps payouts = sum_by (λ p. payout p.user_id payouts) ps

payout-add :
    (v u a : ℕ) (ps : Payouts)
    → payout v (add_payout u a ps) ≡ payout v ps + (if u == v then a else 0)
payout-add v u a [] = ground arith
payout-add v u a ((w, b) ∷ ps) = ground (arith, payout-add v u a ps)

drawn-add :
    (players_ : List Player) (u a : ℕ) (ps : Payouts)
    → drawn players_ (add_payout u a ps) ≡ drawn players_ ps + a * seats_of u players_
drawn-add [] u a ps = omega arith
drawn-add (p ∷ qs) u a ps = elim (Bool-cases (p.user_id == u)) [
  | inl here ↦
      rw here (
        ground
          (arith, drawn-add qs u a ps, payout-add p.user_id u a ps, one_more a (seats_of u qs)))
  | inr there ↦ rw there (ground (arith, drawn-add qs u a ps, payout-add p.user_id u a ps))
]
  where
    one_more : (x n : ℕ) → x * (1 + n) ≡ x + x * n
    one_more x n = grind arith

distribute_payouts-total :
    (ps : List Player) (payouts : Payouts)
    → payouts_total (distribute_payouts ps payouts) ≡ drawn ps payouts
unfolding distribute_payouts
distribute_payouts-total [] payouts = refl
distribute_payouts-total (p ∷ ps) payouts = ground (arith, distribute_payouts-total ps payouts)

drawn-nil : (ps : List Player) → drawn ps [] ≡ 0
drawn-nil [] = refl
drawn-nil (p ∷ ps) = omega (arith, drawn-nil ps)

Absent-seats_of : (u : ℕ) (ss : List (Option Player)) → Absent u ss → seats_of u (occupied ss) ≡ 0
Absent-seats_of u [] h = refl
Absent-seats_of u (none ∷ ss) h = Absent-seats_of u ss h
Absent-seats_of u (some p ∷ ss) h = ground (arith, Absent-seats_of u ss h.1, h.0)

-- Every player of a well-formed table counts once.
abbrev pub SitsOnce : List Player → Player → Type 0
SitsOnce ps p = seats_of p.user_id ps ≡ 1

All-map :
    {A : Type 0} (P Q : A → Type 0) (xs : List A) → ((x : A) → P x → Q x) → All P xs → All Q xs
All-map P Q [] f h = tt
All-map P Q (x ∷ xs) f h = (f x h.0, All-map P Q xs f h.1)

Absent-differ :
    (u : ℕ) (ss : List (Option Player))
    → Absent u ss
    → All (λ (q : Player). q.user_id ≢ u) (occupied ss)
Absent-differ u [] h = tt
Absent-differ u (none ∷ ss) h = Absent-differ u ss h
Absent-differ u (some p ∷ ss) h = (h.0, Absent-differ u ss h.1)

widen :
    (p : Player) (ps qs : List Player)
    → All (λ (q : Player). q.user_id ≢ p.user_id) qs
    → All (SitsOnce ps) qs
    → All (SitsOnce (p ∷ ps)) qs
widen p ps [] h k = tt
widen p ps (q ∷ qs) h k = (ground (arith, h.0, k.0), widen p ps qs h.1 k.1)

all_sit_once :
    (ss : List (Option Player)) → OnePerUser ss → All (SitsOnce (occupied ss)) (occupied ss)
all_sit_once [] h = tt
all_sit_once (none ∷ ss) h = all_sit_once ss h
all_sit_once (some p ∷ ss) h = (
  ground (arith, Absent-seats_of p.user_id ss h.0),
  widen p (occupied ss) (occupied ss) (Absent-differ p.user_id ss h.0) (all_sit_once ss h.1),
)

details-meet :
    (g : Game) (P : Player → Type 0) (ps : List Player)
    → All P ps
    → All (λ (d : Detail). P d.player) (evaluate_contender_hands g (keep in_hand ps))
details-meet g P [] h = tt
details-meet g P (p ∷ ps) h = elim (Bool-cases (in_hand p)) [
  | inl plays ↦ rw plays (h.0, details-meet g P ps h.1)
  | inr out ↦ rw out (details-meet g P ps h.1)
]

-- What the contenders have bet.
abbrev pub stakes : List Player → ℕ
stakes ps = sum_by (λ p. p.total_bet) ps

stakes-details :
    (g : Game) (ps : List Player) → bets_total (evaluate_contender_hands g ps) ≡ stakes ps
stakes-details g [] = refl
stakes-details g (p ∷ ps) = ap (λ n. p.total_bet + n) (stakes-details g ps)

no_contender :
    (ps : List Player)
    → length (keep in_hand ps) ≡ 0
    → keep (λ (p : Player). is_state p.state active) ps ≡ []
no_contender [] h = refl
no_contender (p ∷ ps) h = ground (arith, no_contender ps)

nothing_staked : (ps : List Player) → length ps ≡ 0 → stakes ps ≡ 0
nothing_staked [] h = refl
nothing_staked (p ∷ ps) h = absurd (omega arith)

-- `_determine_winners` calls `_process_fold_win` only where nobody is in the hand any more, and
-- that function then pays nothing: the sole player whom it looks for would be in the hand.
fold_win_unreached :
    (g : Game) → length (contenders g) ≡ 0 → (process_fold_win g ≡ []) × (determine_winners g ≡ [])
unfolding determine_winners process_fold_win
fold_win_unreached g h = let nobody = no_contender (players g) h in (rw nobody, rw h (rw nobody))

showdown-total :
    (g : Game)
    → OnePerUser g.seats
    → drawn (players g) (showdown g (contenders g))
      ≡ amounts (determine_pot_winners g (evaluate_contender_hands g (contenders g)))
showdown-total g once =
    let ds = evaluate_contender_hands g (contenders g) in
    pay_pots_lem (λ u. seats_of u (players g) ≡ 1) (drawn (players g))
      (λ u a ps one. drawn-add (players g) u a ps ∙ rw one (omega arith))
      (determine_pot_winners g ds) []
      (determine_pot_winners-WonBy (λ d. SitsOnce (players g) d.player) g ds
        (details-meet g (SitsOnce (players g)) (players g) (all_sit_once g.seats once)))
    ∙ rw (drawn-nil (players g)) (omega arith)

-- What is credited to the wallets after a hand, at a table where each user sits once: the whole
-- pot, if at least as much lies in it as the contenders have bet, and otherwise what they have
-- bet; nothing if the pot is empty or no contender has bet.
settle-total :
    (g : Game)
    → OnePerUser g.seats
    → payouts_total (settle g)
      ≡ (if g.pot == 0 || stakes (contenders g) == 0 then 0 else max g.pot (stakes (contenders g)))
unfolding settle determine_winners process_fold_win
settle-total g once =
    distribute_payouts-total (players g) (determine_winners g)
    ∙ elim (Bool-cases (length (contenders g) == 0)) [
      | inl nobody ↦
          let zero_left : length (contenders g) ≡ 0 = ground arith in
          rw (fold_win_unreached g zero_left).1
            (drawn-nil (players g) ∙ ground (arith, nothing_staked (contenders g) zero_left))
      | inr somebody ↦ rw somebody (
          showdown-total g once
          ∙ pots_total g (evaluate_contender_hands g (contenders g))
          ∙ rw (stakes-details g (contenders g)))
    ]

contenders_stake_less : (ps : List Player) → stakes (keep in_hand ps) ≤ stakes ps
contenders_stake_less [] = omega arith
contenders_stake_less (p ∷ ps) = ground (arith, contenders_stake_less ps)

-- Where the pot is what all players together have bet, and some contender has bet something, the
-- wallets receive exactly the pot: no chip is lost and none is made.
pub settle-conserves :
    (g : Game)
    → OnePerUser g.seats
    → g.pot ≡ stakes (players g)
    → 0 < stakes (contenders g)
    → payouts_total (settle g) ≡ g.pot
settle-conserves g once whole some_bet =
    settle-total g once ∙ ground (arith, contenders_stake_less (players g), whole)
