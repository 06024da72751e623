-- ===== src/Pots/Shares.antt =====
-- `_process_showdown_results` of pokerapp/game_engine.py pays out each pot in full.
use mathlib.Core.Path.{subst}
use poker_telegram_bot.Prelude.{
  ℕ, zero, suc, ◌+◌, ◌-◌, ◌*◌, ◌/◌, ◌%◌, ◌<◌, ◌≡◌, sym, ◌∙◌, inl, inr, Bool, true, min, List, [],
  ◌∷◌, length, All, keep, sum_by, ltb, leb, ◌==◌, if◌then◌else◌, arith, Bool-cases,
}
use poker_telegram_bot.Entities.{Game}
use poker_telegram_bot.Pots.Conserve.{amounts, determine_pot_winners_lem}
use poker_telegram_bot.Pots.Layers.{bets_total}
use poker_telegram_bot.Pots.{
  Detail, Pot, bet_tiers, eligible, pots_from, add_discrepancy, determine_pot_winners, pot_winners,
  best_score, Payouts, add_payout, pay_winners, pay_pot, pay_pots,
}

abbrev pub payouts_total : Payouts → ℕ
payouts_total ps = sum_by (λ e. e.1) ps

-- Every pot has a winner, and its winners meet `P`.
abbrev pub WonBy : (Detail → Type 0) → List Pot → Type 0
WonBy P [] = Unit
WonBy P (p ∷ ps) = (0 < length p.winners) × All P p.winners × WonBy P ps

All-keep :
    (P : Detail → Type 0) (f : Detail → Bool) (ds : List Detail) → All P ds → All P (keep f ds)
All-keep P f [] h = tt
All-keep P f (d ∷ ds) h = elim (Bool-cases (f d)) [
  | inl yes_ ↦ rw yes_ (h.0, All-keep P f ds h.1)
  | inr no_ ↦ rw no_ (All-keep P f ds h.1)
]

-- The best score is somebody's.
kept_at : (s : ℕ) (ds : List Detail) → ℕ
kept_at s ds = length (keep (λ d. d.score == s) ds)

kept_at-first : (s : ℕ) (d : Detail) (ds : List Detail) → d.score ≡ s → 0 < kept_at s (d ∷ ds)
unfolding kept_at
kept_at-first s d ds e = ground arith

kept_at-later : (s : ℕ) (d : Detail) (ds : List Detail) → 0 < kept_at s ds → 0 < kept_at s (d ∷ ds)
unfolding kept_at
kept_at-later s d ds h = ground arith

best_attained : (ds : List Detail) → 0 < length ds → 0 < kept_at (best_score ds) ds
best_attained [] h = absurd (omega arith)
best_attained (d ∷ []) h = kept_at-first (best_score (d ∷ [])) d [] (ground arith)
best_attained (d ∷ e ∷ ds) h = elim (Bool-cases (ltb (best_score (e ∷ ds)) d.score)) [
  | inl more ↦ kept_at-first (best_score (d ∷ e ∷ ds)) d (e ∷ ds) (rw more)
  | inr less ↦
      let same : best_score (d ∷ e ∷ ds) ≡ best_score (e ∷ ds) = rw less in
      subst (λ s. 0 < kept_at s (d ∷ e ∷ ds)) (sym same)
        (kept_at-later (best_score (e ∷ ds)) d (e ∷ ds) (best_attained (e ∷ ds) (omega arith)))
]

pot_winners-pos : (ds : List Detail) → 0 < length ds → 0 < length (pot_winners ds)
pot_winners-pos ds h = unfold kept_at in best_attained ds h

pots_from-WonBy :
    (P : Detail → Type 0) (ds : List Detail) (last : ℕ) (ts : List ℕ)
    → All P ds
    → WonBy P (pots_from ds last ts).0
unfolding pots_from
pots_from-WonBy P ds last [] h = tt
pots_from-WonBy P ds last (t ∷ ts) h =
    let in_pot = eligible t ds in
    elim (Bool-cases (ltb 0 ((t - last) * length in_pot))) [
      | inl some_bets ↦ rw some_bets (
        pot_winners-pos in_pot (positive (t - last) (length in_pot) (ground arith)),
        All-keep P (λ d. d.score == best_score in_pot) in_pot
            (All-keep P (λ d. leb t d.total_bet) ds h),
        pots_from-WonBy P ds t ts h,
      )
      | inr no_bets ↦ rw no_bets (pots_from-WonBy P ds t ts h)
    ]
  where
    positive : (a n : ℕ) → 0 < a * n → 0 < n
    positive a zero k = absurd (omega arith)
    positive a (suc n) k = omega arith

WonBy-add_discrepancy :
    (P : Detail → Type 0) (extra : ℕ) (ps : List Pot)
    → WonBy P ps
    → WonBy P (add_discrepancy extra ps)
WonBy-add_discrepancy P extra [] h = tt
WonBy-add_discrepancy P extra (p ∷ ps) h = h

pub determine_pot_winners-WonBy :
    (P : Detail → Type 0) (g : Game) (ds : List Detail)
    → All P ds
    → WonBy P (determine_pot_winners g ds)
determine_pot_winners-WonBy P g ds h =
    rw determine_pot_winners_lem (elim (Bool-cases (g.pot == 0)) [
      | inl empty ↦ rw empty tt
      | inr full ↦ rw full (
          WonBy-add_discrepancy P (g.pot - bets_total ds) (pots_from ds 0 (bet_tiers ds)).0
            (pots_from-WonBy P ds 0 (bet_tiers ds) h))
    ])

-- A reckoning of payouts that every payment to a user of `Counts` raises by its amount.
module _ (Counts : ℕ → Type 0) (reckon : Payouts → ℕ)
    (reckon-add : (u a : ℕ) (ps : Payouts)
      → Counts u
      → reckon (add_payout u a ps) ≡ reckon ps + a) where
  abbrev pub CountsWinner : Detail → Type 0
  CountsWinner d = Counts d.player.user_id

  pay_winners_lem :
      (share remainder i : ℕ) (ds : List Detail) (ps : Payouts)
      → All CountsWinner ds
      → reckon (pay_winners share remainder i ds ps)
        ≡ reckon ps + share * length ds + min (remainder - i) (length ds)
  unfolding pay_winners
  pay_winners_lem share remainder i [] ps h = omega arith
  pay_winners_lem share remainder i (d ∷ ds) ps h =
      let win = share + (if ltb i remainder then 1 else 0) in
      let next = if ltb 0 win then add_payout d.player.user_id win ps else ps in
      let paid : reckon next ≡ reckon ps + win =
        ground (arith, reckon-add d.player.user_id win ps h.0) in
      let rest = pay_winners_lem share remainder (suc i) ds next h.1 in ground (arith, paid, rest)

  pay_pot_lem :
      (pot : Pot) (ps : Payouts)
      → 0 < length pot.winners
      → All CountsWinner pot.winners
      → reckon (pay_pot pot ps) ≡ reckon ps + pot.amount
  unfolding pay_pot
  pay_pot_lem pot ps n h = elim (Bool-cases (ltb 0 pot.amount)) [
    | inl money ↦
        let won : ltb 0 (length pot.winners) ≡ true = ground arith in
        rw (money, won)
          (pay_winners_lem (pot.amount / length pot.winners) (pot.amount % length pot.winners) 0
              pot.winners ps h
            ∙ whole (pot.amount) (length pot.winners) (reckon ps) n)
    | inr empty ↦ rw empty (ground arith)
  ]
    where
      whole : (a n' r : ℕ) → 0 < n' → r + a / n' * n' + min (a % n' - 0) n' ≡ r + a
      whole a n' r k = grind arith

  pub pay_pots_lem :
      (pots : List Pot) (ps : Payouts)
      → WonBy CountsWinner pots
      → reckon (pay_pots pots ps) ≡ reckon ps + amounts pots
  unfolding pay_pots
  pay_pots_lem [] ps h = omega arith
  pay_pots_lem (pot ∷ pots) ps h =
      pay_pots_lem pots (pay_pot pot ps) h.2 ∙ omega (arith, pay_pot_lem pot ps h.0 h.1)
