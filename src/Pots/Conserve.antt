-- ===== src/Pots/Conserve.antt =====
-- The pots of `_determine_pot_winners` (pokerapp/game_engine.py) together.
use poker_telegram_bot.Prelude.{
  ℕ, ◌+◌, ◌-◌, ◌≤◌, ◌<◌, ◌≡◌, refl, ◌∙◌, ap, inl, inr, ◌||◌, max, List, [], ◌∷◌, length, sum_by,
  ◌==◌, if◌then◌else◌, arith, Bool-cases,
}
use poker_telegram_bot.Entities.{Game}
use poker_telegram_bot.Pots.Layers.{bets_total, calculated-eq-bets}
use poker_telegram_bot.Pots.{
  Detail, Pot, bet_tiers, pots_from, add_discrepancy, merge_single_tier, determine_pot_winners,
}

abbrev pub amounts : List Pot → ℕ
amounts ps = sum_by (λ p. p.amount) ps

amounts-pots_from :
    (ds : List Detail) (last : ℕ) (ts : List ℕ)
    → amounts (pots_from ds last ts).0 ≡ (pots_from ds last ts).1
unfolding pots_from
amounts-pots_from ds last [] = refl
amounts-pots_from ds last (t ∷ ts) = ground (arith, amounts-pots_from ds t ts)

length-pots_from :
    (ds : List Detail) (last : ℕ) (ts : List ℕ) → length (pots_from ds last ts).0 ≤ length ts
unfolding pots_from
length-pots_from ds last [] = omega arith
length-pots_from ds last (t ∷ ts) = ground (arith, length-pots_from ds t ts)

amounts-add_discrepancy :
    (extra : ℕ) (ps : List Pot)
    → 0 < amounts ps
    → amounts (add_discrepancy extra ps) ≡ extra + amounts ps
amounts-add_discrepancy extra [] h = absurd (omega arith)
amounts-add_discrepancy extra (p ∷ ps) h = omega arith

length-add_discrepancy : (extra : ℕ) (ps : List Pot) → length (add_discrepancy extra ps) ≡ length ps
length-add_discrepancy extra [] = refl
length-add_discrepancy extra (p ∷ ps) = refl

merge_single_tier_lem :
    (pot : ℕ) (ts : List ℕ) (ps : List Pot)
    → length ps ≤ length ts
    → merge_single_tier pot ts ps ≡ ps
merge_single_tier_lem pot [] ps h = refl
merge_single_tier_lem pot (t ∷ []) [] h = refl
merge_single_tier_lem pot (t ∷ []) (p ∷ []) h = refl
merge_single_tier_lem pot (t ∷ []) (p ∷ q ∷ ps) h = absurd (omega arith)
merge_single_tier_lem pot (t ∷ u ∷ ts) ps h = refl

-- The final merge of `_determine_pot_winners` never applies: its answer is the layers, with what
-- the pot holds beyond the bets added to the first of them, or nothing for an empty pot.
pub determine_pot_winners_lem :
    (g : Game) (ds : List Detail)
    → determine_pot_winners g ds ≡ (
        if g.pot == 0
        then []
        else add_discrepancy (g.pot - bets_total ds) (pots_from ds 0 (bet_tiers ds)).0)
unfolding determine_pot_winners pots_from
determine_pot_winners_lem g [] = ground arith
determine_pot_winners_lem g (d ∷ ds) =
    let tiers = bet_tiers (d ∷ ds) in
    let pots = (pots_from (d ∷ ds) 0 tiers).0 in
    let calculated = (pots_from (d ∷ ds) 0 tiers).1 in
    let few : length (add_discrepancy (g.pot - calculated) pots) ≤ length tiers = omega (
      arith,
      length-add_discrepancy (g.pot - calculated) pots,
      length-pots_from (d ∷ ds) 0 tiers,
    ) in
    ap (λ ps. if g.pot == 0 then [] else ps)
      (merge_single_tier_lem g.pot tiers (add_discrepancy (g.pot - calculated) pots) few
        ∙ ap (λ b. add_discrepancy (g.pot - b) pots) (calculated-eq-bets (d ∷ ds)))

no_bets : (ds : List Detail) → bets_total ds ≡ 0 → bet_tiers ds ≡ []
no_bets [] h = refl
no_bets (d ∷ ds) h = ground (arith, no_bets ds)

-- The pots that are won add up to the pot, if at least as much lies in it as the contenders have
-- bet; if less lies in it, to what they have bet. Nothing is won of an empty pot, nor where no
-- contender has bet anything.
pub pots_total :
    (g : Game) (ds : List Detail)
    → amounts (determine_pot_winners g ds)
      ≡ (if g.pot == 0 || bets_total ds == 0 then 0 else max g.pot (bets_total ds))
pots_total g ds = rw determine_pot_winners_lem (elim (Bool-cases (g.pot == 0)) [
  | inl empty ↦ rw empty
  | inr full ↦ elim (Bool-cases (bets_total ds == 0)) [
    | inl nobody ↦
        let none_bet : bets_total ds ≡ 0 = ground arith in
        rw (full, nobody) (rw (no_bets ds none_bet) (no_pots (g.pot - bets_total ds)))
    | inr bets ↦
        let sums = amounts-pots_from ds 0 (bet_tiers ds) ∙ calculated-eq-bets ds in
        rw (full, bets)
          (amounts-add_discrepancy (g.pot - bets_total ds) (pots_from ds 0 (bet_tiers ds)).0
              (ground (arith, sums))
            ∙ omega (arith, sums))
  ]
])
  where
    no_pots : (extra : ℕ) → amounts (add_discrepancy extra (pots_from ds 0 []).0) ≡ 0
    no_pots extra = unfold pots_from in refl
