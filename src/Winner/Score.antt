-- ===== src/Winner/Score.antt =====
-- The score of a hand, `_calculate_score_value` of pokerapp/winnerdetermination.py, is a number
-- of base 15: six digits, the hand type first.
use native.Mathlib.Nat.{pow-suc}
use poker_telegram_bot.Prelude.{
  ℕ, suc, ◌+◌, ◌*◌, ◌^◌, ◌≤◌, ◌<◌, ◌≡◌, refl, ◌∙◌, ap, inl, inr, Bool, false, ◌&&◌, ◌||◌, List, [],
  ◌∷◌, length, All, ltb, ◌==◌, arith, Bool-cases,
}
use poker_telegram_bot.Winner.{place_values}

-- Digits of base 15.
abbrev pub Digits : List ℕ → Type 0
Digits = All (λ v. v < 15)

-- Is the list `vs` below `ws`, by the first place where they differ?
abbrev pub lex_less : List ℕ → List ℕ → Bool
lex_less [] _ = false
lex_less (v ∷ vs) [] = false
lex_less (v ∷ vs) (w ∷ ws) = ltb v w || (v == w && lex_less vs ws)

pub place_values-lt : (vs : List ℕ) → Digits vs → place_values vs < 15 ^ length vs
unfolding place_values
place_values-lt [] h = omega arith
place_values-lt (v ∷ vs) h =
    rw pow-suc (grind (arith, place_values-lt vs h.1, h.0, mul_bound v (15 ^ length vs) h.0))
  where
    mul_bound : (a b : ℕ) → a < 15 → a * b ≤ 14 * b
    mul_bound a b l = grind arith

-- A lower first digit decides, whatever follows it.
lower_digit : (v w p a b : ℕ) → a < p → v < w → v * p + a < w * p + b
lower_digit v w p a b ha h = grind (arith, step (suc v) w p h)
  where
    step : (x y q : ℕ) → x ≤ y → x * q ≤ y * q
    step x y q l = grind arith

compare_digits :
    (v w p a b : ℕ) → a < p → b < p → ltb (v * p + a) (w * p + b) ≡ (ltb v w || (v == w && ltb a b))
compare_digits v w p a b ha hb = elim (Bool-cases (ltb v w)) [
  | inl less ↦ rw less (ground (arith, lower_digit v w p a b ha (ground arith)))
  | inr not_less ↦ elim (Bool-cases (v == w)) [
    | inl same ↦ let e : v ≡ w = ground arith in rw (not_less, same) (rw e (ground arith))
    | inr differ ↦ rw (not_less, differ) (ground (arith, lower_digit w v p b a hb (ground arith)))
  ]
]

-- Two lists of digits of the same length: the sums of place values compare as the lists do, by
-- the first place where they differ.
pub place_values_lex :
    (vs ws : List ℕ)
    → length vs ≡ length ws
    → Digits vs
    → Digits ws
    → ltb (place_values vs) (place_values ws) ≡ lex_less vs ws
unfolding place_values
place_values_lex [] [] e h k = refl
place_values_lex [] (w ∷ ws) e h k = absurd (omega arith)
place_values_lex (v ∷ vs) [] e h k = absurd (omega arith)
place_values_lex (v ∷ vs) (w ∷ ws) e h k =
    let same : length vs ≡ length ws = omega arith in
    rw same (
      compare_digits v w (15 ^ length ws) (place_values vs) (place_values ws)
        (rw same at (place_values-lt vs h.1)) (place_values-lt ws k.1)
      ∙ ap (λ b. ltb v w || (v == w && b)) (place_values_lex vs ws same h.1 k.1))
