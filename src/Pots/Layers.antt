-- ===== src/Pots/Layers.antt =====
-- The side pots of `_determine_pot_winners` (pokerapp/game_engine.py) are layers of the bets.
use mathlib.Core.Path.{subst}
use poker_telegram_bot.Prelude.{
  ℕ, suc, ◌+◌, ◌-◌, ◌*◌, ◌≤◌, ◌<◌, ◌≡◌, refl, sym, ◌∙◌, inl, inr, ◌⊎◌, true, false, ◌||◌, List, [],
  ◌∷◌, length, All, sum_by, contains, ltb, leb, ◌==◌, arith, Bool-cases,
}
use poker_telegram_bot.Pots.{Detail, insert_tier, bet_tiers, eligible, pots_from}

-- The tiers ascend from above `last`.
abbrev pub Ascends : ℕ → List ℕ → Type 0
Ascends last [] = Unit
Ascends last (t ∷ ts) = (last < t) × Ascends t ts

-- What a bet puts above `last`, and what the contenders have bet.
abbrev pub excess : ℕ → Detail → ℕ
excess last d = d.total_bet - last

abbrev pub bets_total : List Detail → ℕ
bets_total ds = sum_by (λ d. d.total_bet) ds

-- Every bet above `last` is one of the tiers.
abbrev pub Covered : ℕ → List ℕ → List Detail → Type 0
Covered last tiers ds =
    All (λ (d : Detail). (d.total_bet ≤ last) ⊎ (contains tiers d.total_bet ≡ true)) ds

Ascends-insert :
    (x last : ℕ) (ts : List ℕ) → last < x → Ascends last ts → Ascends last (insert_tier x ts)
Ascends-insert x last [] h k = (h, tt)
Ascends-insert x last (t ∷ ts) h k = elim (Bool-cases (ltb x t)) [
  | inl below ↦ rw below (h, (ground arith, k.1))
  | inr above ↦ elim (Bool-cases (x == t)) [
    | inl same ↦ rw (above, same) k
    | inr other ↦ rw (above, other) (k.0, Ascends-insert x t ts (ground arith) k.1)
  ]
]

bet_tiers-Ascends : (ds : List Detail) → Ascends 0 (bet_tiers ds)
bet_tiers-Ascends [] = tt
bet_tiers-Ascends (d ∷ ds) = elim (Bool-cases (ltb 0 d.total_bet)) [
  | inl bets ↦
      rw bets (Ascends-insert d.total_bet 0 (bet_tiers ds) (ground arith) (bet_tiers-Ascends ds))
  | inr checks ↦ rw checks (bet_tiers-Ascends ds)
]

contains-insert_tier :
    (x y : ℕ) (ts : List ℕ) → contains (insert_tier x ts) y ≡ (x == y || contains ts y)
contains-insert_tier x y [] = refl
contains-insert_tier x y (t ∷ ts) = ground (arith, contains-insert_tier x y ts)

Covered-insert :
    (x : ℕ) (ts : List ℕ) (ds : List Detail) → Covered 0 ts ds → Covered 0 (insert_tier x ts) ds
Covered-insert x ts [] h = tt
Covered-insert x ts (d ∷ ds) h = (
  elim h.0 [
    | inl low ↦ inl low
    | inr found ↦ inr (ground (arith, contains-insert_tier x d.total_bet ts))
  ],
  Covered-insert x ts ds h.1,
)

bet_tiers-Covered : (ds : List Detail) → Covered 0 (bet_tiers ds) ds
bet_tiers-Covered [] = tt
bet_tiers-Covered (d ∷ ds) = elim (Bool-cases (ltb 0 d.total_bet)) [
  | inl bets ↦
      let e : bet_tiers (d ∷ ds) ≡ insert_tier d.total_bet (bet_tiers ds) = rw bets in
      subst (λ ts. Covered 0 ts (d ∷ ds)) (sym e)
        (
          inr (ground (arith, contains-insert_tier d.total_bet d.total_bet (bet_tiers ds))),
          Covered-insert d.total_bet (bet_tiers ds) ds (bet_tiers-Covered ds),
        )
  | inr checks ↦
      let e : bet_tiers (d ∷ ds) ≡ bet_tiers ds = rw checks in
      subst (λ ts. Covered 0 ts (d ∷ ds)) (sym e) (inl (ground arith), bet_tiers-Covered ds)
]

above_all : (last x : ℕ) (ts : List ℕ) → Ascends last ts → contains ts x ≡ true → last < x
above_all last x [] h k = cc
above_all last x (t ∷ ts) h k = elim (Bool-cases (t == x)) [
  | inl same ↦ ground arith
  | inr other ↦ omega (arith, h.0, above_all t x ts h.1 (ground arith))
]

-- Each bet is at most the layer's lower end, or reaches its upper end.
split_layer :
    (last t : ℕ) (ts : List ℕ) (ds : List Detail)
    → Ascends last (t ∷ ts)
    → Covered last (t ∷ ts) ds
    → Covered t ts ds
      × (sum_by (excess last) ds ≡ (t - last) * length (eligible t ds) + sum_by (excess t) ds)
split_layer last t ts [] h k = (tt, omega arith)
split_layer last t ts (d ∷ ds) h k =
    let (covered, total) = split_layer last t ts ds h k.1 in
    elim (Bool-cases (leb t d.total_bet)) [
      | inl reaches ↦ rw reaches (
        (
          elim k.0 [
            | inl low ↦ absurd (ground (arith, h.0))
            | inr found ↦ elim (Bool-cases (t == d.total_bet)) [
              | inl same ↦ inl (ground arith)
              | inr other ↦ inr (ground arith)
            ]
          ],
          covered,
        ),
        layer (t - last) (length (eligible t ds)) (ground (arith, h.0)) total,
      )
      | inr short ↦
          rw short ((inl (ground arith), covered), ground (arith, low_bet short k.0, total))
    ]
  where
    low_bet :
        leb t d.total_bet ≡ false
        → (d.total_bet ≤ last) ⊎ (contains (t ∷ ts) d.total_bet ≡ true)
        → d.total_bet ≤ last
    low_bet e (inl low) = low
    low_bet e (inr found) = elim (Bool-cases (t == d.total_bet)) [
      | inl same ↦ absurd (ground arith)
      | inr other ↦ absurd (ground (arith, above_all t d.total_bet ts h.1))
    ]

    layer :
        (w n : ℕ)
        → excess last d ≡ w + excess t d
        → sum_by (excess last) ds ≡ w * n + sum_by (excess t) ds
        → excess last d + sum_by (excess last) ds ≡ w * suc n + (excess t d + sum_by (excess t) ds)
    layer w n e f = grind arith

all_below : (last : ℕ) (ds : List Detail) → Covered last [] ds → sum_by (excess last) ds ≡ 0
all_below last [] h = refl
all_below last (d ∷ ds) h = elim h.0 [
  | inl low ↦ omega (arith, all_below last ds h.1)
  | inr found ↦ absurd (cc)
]

layers_total :
    (ds : List Detail) (last : ℕ) (ts : List ℕ)
    → Ascends last ts
    → Covered last ts ds
    → (pots_from ds last ts).1 ≡ sum_by (excess last) ds
unfolding pots_from
layers_total ds last [] h k = sym (all_below last ds k)
layers_total ds last (t ∷ ts) h k =
    let (covered, total) = split_layer last t ts ds h k in
    omega (arith, total, layers_total ds t ts h.1 covered)

bets_total_lem : (ds : List Detail) → sum_by (excess 0) ds ≡ bets_total ds
bets_total_lem [] = refl
bets_total_lem (d ∷ ds) = omega (arith, bets_total_lem ds)

-- What `_determine_pot_winners` reckons up over its tiers is what the contenders have bet.
pub calculated-eq-bets : (ds : List Detail) → (pots_from ds 0 (bet_tiers ds)).1 ≡ bets_total ds
calculated-eq-bets ds =
    layers_total ds 0 (bet_tiers ds) (bet_tiers-Ascends ds) (bet_tiers-Covered ds)
    ∙ bets_total_lem ds
