-- ===== src/Prelude/Members.antt =====
-- Membership in a list of numbers, and the Boolean laws that it rests on.
use Prim.Native.Nat.{ℕ}
use mathlib.Core.Path.{◌≡◌, refl}
use mathlib.Core.Logic.{◌≢◌, ◌⊎◌, inl, inr}
use mathlib.Core.Bool.{Bool, true, false, ◌&&◌, ◌||◌}
use mathlib.Core.List.{List, [], ◌∷◌, ◌++◌}
use native.Mathlib.Omega.{arith}
use poker_telegram_bot.Prelude.Tests.{if◌then◌else◌, ◌==◌, Bool-cases, tests}

-- `n in xs`
abbrev pub contains : List ℕ → ℕ → Bool
contains [] n = false
contains (x ∷ xs) n = x == n || contains xs n

-- No number twice.
abbrev pub Distinct : List ℕ → Type 0
Distinct [] = Unit
Distinct (x ∷ xs) = (contains xs x ≡ false) × Distinct xs

pub or_false : (b : Bool) → (b || false) ≡ b
or_false true = refl
or_false false = refl

pub and_false : (b : Bool) → (b && false) ≡ false
and_false true = refl
and_false false = refl

pub contains-append_one :
    (xs : List ℕ) (a b : ℕ) → contains (xs ++ a ∷ []) b ≡ (if a == b then true else contains xs b)
contains-append_one [] a b = ground arith
contains-append_one (x ∷ xs) a b = ground (arith, contains-append_one xs a b)

pub contains-append_cases :
    (xs : List ℕ) (y r : ℕ) → contains (xs ++ y ∷ []) r ≡ true → (contains xs r ≡ true) ⊎ (r ≡ y)
contains-append_cases [] y r h = inr (grind tests)
contains-append_cases (x ∷ xs) y r h = elim (Bool-cases (x == r)) [
  | inl e ↦ inl (rw e refl)
  | inr e ↦ elim (contains-append_cases xs y r (rw e at h)) [ inl i ↦ inl (rw e i) | inr i ↦ inr i ]
]

pub contains-append_one_ne :
    (xs : List ℕ) (y r : ℕ) → contains xs r ≡ false → r ≢ y → contains (xs ++ y ∷ []) r ≡ false
contains-append_one_ne [] y r h n = ground (arith)
contains-append_one_ne (x ∷ xs) y r h n =
    ground (arith, contains-append_one_ne xs y r (ground (arith)) n)

pub contains-append_left :
    (w : ℕ) (xs ys : List ℕ) → contains xs w ≡ true → contains (xs ++ ys) w ≡ true
contains-append_left w [] ys h = absurd (ground (arith))
contains-append_left w (x ∷ xs) ys h = elim (Bool-cases (x == w)) [
  | inl e ↦ ground (arith, e)
  | inr e ↦ ground (arith, e, contains-append_left w xs ys (ground (arith, e)))
]

pub contains-append_right :
    (w : ℕ) (xs ys : List ℕ) → contains ys w ≡ true → contains (xs ++ ys) w ≡ true
contains-append_right w [] ys h = h
contains-append_right w (x ∷ xs) ys h = ground (arith, contains-append_right w xs ys h)

pub Distinct-append_one :
    (xs : List ℕ) (a : ℕ) → Distinct xs → contains xs a ≡ false → Distinct (xs ++ a ∷ [])
Distinct-append_one [] a d n = (refl, tt)
Distinct-append_one (x ∷ xs) a d n =
    (ground (arith, contains-append_one xs a x), Distinct-append_one xs a d.1 (ground arith))
