-- ===== src/Locks/Batches/Sorting.antt =====
-- The order in which `acquire_batch` of pokerapp/lock_manager.py takes its keys.
use Prim.Native.String.{String}
use text.Mathlib.Text.{◌==◌ as str_eq}
use text.Mathlib.TextEquality.{eq_iff}
use poker_telegram_bot.Prelude.{
  ℕ, ◌+◌, ◌≡◌, refl, ap, ◌∙◌, inl, inr, false, List, [], ◌∷◌, if◌then◌else◌, All, Bool-cases, ℤ,
  arith,
}
use poker_telegram_bot.Locks.Levels.{below}
use poker_telegram_bot.Locks.Batches.{
  Settings, listed, unique_keys, insert_key, sort_by_level, level_in,
}

-- How often a list has a key.
abbrev pub times : String → List String → ℕ
times key [] = 0
times key (k ∷ ks) = (if str_eq k key then 1 else 0) + times key ks

module _ (level : String → ℤ) where
  -- No key stands after one of a higher level.
  abbrev pub Ascending : List String → Type 0
  Ascending [] = Unit
  Ascending (k ∷ ks) = All (λ x. below (level x) (level k) ≡ false) ks × Ascending ks

  times-insert_key :
      (key k : String) (ks : List String) → times key (insert_key level k ks) ≡ times key (k ∷ ks)
  times-insert_key key k [] = refl
  times-insert_key key k (x ∷ xs) = elim (Bool-cases (below (level x) (level k))) [
    | inl e ↦ rw e (omega (arith, times-insert_key key k xs))
    | inr e ↦ rw e refl
  ]

  pub times-sort_by_level :
      (key : String) (ks : List String) → times key (sort_by_level level ks) ≡ times key ks
  times-sort_by_level key [] = refl
  times-sort_by_level key (k ∷ ks) =
      omega (arith, times-insert_key key k (sort_by_level level ks), times-sort_by_level key ks)

  insert_key-All :
      (P : String → Type 0) (k : String) (ks : List String)
      → P k
      → All P ks
      → All P (insert_key level k ks)
  insert_key-All P k [] p a = (p, tt)
  insert_key-All P k (x ∷ xs) p a = elim (Bool-cases (below (level x) (level k))) [
    | inl e ↦ rw e (a.0, insert_key-All P k xs p a.1)
    | inr e ↦ rw e (p, a)
  ]

  above_all :
      (k x : String) (ks : List String)
      → below (level x) (level k) ≡ false
      → All (λ y. below (level y) (level x) ≡ false) ks
      → All (λ y. below (level y) (level k) ≡ false) ks
  above_all k x [] h a = tt
  above_all k x (y ∷ ys) h a = (ground (arith, h, a.0), above_all k x ys h a.1)

  insert_key-Ascending :
      (k : String) (ks : List String) → Ascending ks → Ascending (insert_key level k ks)
  insert_key-Ascending k [] a = (tt, tt)
  insert_key-Ascending k (x ∷ xs) a = elim (Bool-cases (below (level x) (level k))) [
    | inl e ↦ rw e (
      insert_key-All (λ y. below (level y) (level x) ≡ false) k xs (ground (arith, e)) a.0,
      insert_key-Ascending k xs a.1,
    )
    | inr e ↦ rw e ((e, above_all k x xs e a.0), a)
  ]

  pub sort_by_level-Ascending : (ks : List String) → Ascending (sort_by_level level ks)
  sort_by_level-Ascending [] = tt
  sort_by_level-Ascending (k ∷ ks) =
      insert_key-Ascending k (sort_by_level level ks) (sort_by_level-Ascending ks)

times-unique_keys :
    (key : String) (seen ks : List String)
    → times key (unique_keys seen ks)
      ≡ (if listed seen key then 0 else if listed ks key then 1 else 0)
times-unique_keys key seen [] = elim (Bool-cases (listed seen key)) [
  | inl e ↦ rw e refl
  | inr e ↦ rw e refl
]
times-unique_keys key seen (k ∷ ks) =
    let rest = times-unique_keys key (k ∷ seen) ks in
    elim (Bool-cases (str_eq k key)) [
      | inl e ↦
          let same : listed seen k ≡ listed seen key =
            ap (λ x. listed seen x) ((eq_iff k key).0 e) in
          elim (Bool-cases (listed seen key)) [
            | inl s ↦ ground (arith, rest, e, same, s)
            | inr s ↦ ground (arith, rest, e, same, s)
          ]
      | inr e ↦ elim (Bool-cases (listed seen k)) [
        | inl s ↦ ground (arith, rest, e, s)
        | inr s ↦ ground (arith, rest, e, s)
      ]
    ]

-- `acquire_batch` takes its keys in ascending order of their levels, every key that was asked for
-- once, however often it was, and no other.
pub batch_order :
    (st : Settings) (keys : List String)
    → Ascending (level_in st) (sort_by_level (level_in st) (unique_keys [] keys))
      × ((key : String)
          → times key (sort_by_level (level_in st) (unique_keys [] keys))
            ≡ (if listed keys key then 1 else 0))
batch_order st keys = (
  sort_by_level-Ascending (level_in st) (unique_keys [] keys),
  λ key.
      times-sort_by_level (level_in st) key (unique_keys [] keys) ∙ times-unique_keys key [] keys,
)
