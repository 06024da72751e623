-- ===== src/Entities/Callbacks.antt =====
-- `Game.mark_callback_processed` of pokerapp/entities.py: which button presses have been handled.
-- The set and the deque of the source are lists without repetition, the deque's oldest entry
-- first; callback ids are only compared, so numbers stand for the strings.
pub mod History
use poker_telegram_bot.Prelude.{
  Distinct, contains-append_one, Distinct-append_one, ℕ, suc, ◌≤◌, ◌<◌, ◌≡◌, ◌≢◌, refl, ◌∙◌, inl,
  inr, Bool, true, false, Option, none, some, List, [], ◌∷◌, ◌++◌, length, All, contains, ltb, ◌==◌,
  if◌then◌else◌, arith, Bool-cases, drop,
}
use poker_telegram_bot.Entities.{Game, callback_history_limit, remove_id}

-- `deque.append` with `maxlen`: a full deque loses its oldest entry first.
abbrev pub deque_append : List ℕ → ℕ → List ℕ
deque_append xs x =
    if length xs == callback_history_limit then drop 1 xs ++ x ∷ [] else xs ++ x ∷ []

-- The `while` loop; `none` is the `IndexError` of `popleft` on an empty deque.
pub trim : List ℕ → List ℕ → Option (List ℕ × List ℕ)
trim seen [] = if ltb callback_history_limit (length seen) then none else some (seen, [])
trim seen (o ∷ os) =
    let rest = trim (remove_id o seen) os in
    if ltb callback_history_limit (length seen) then rest else some (seen, o ∷ os)

-- The set and the deque after a call that saw a new id.
pub record_callback : List ℕ → List ℕ → ℕ → Option (List ℕ × List ℕ)
unfolding trim
record_callback seen order a = trim (seen ++ a ∷ []) (deque_append order a)

pub mark_callback_processed : Game → ℕ → Option (Bool × Game)
unfolding record_callback
mark_callback_processed g a =
    if contains g.processed_callbacks a
    then some (false, g)
    else elim (record_callback g.processed_callbacks g.processed_callback_order a) [
      | none ↦ none
      | some (seen, order) ↦
          some (true, record g { processed_callbacks = seen; processed_callback_order = order })
    ]

abbrev pub Subset : List ℕ → List ℕ → Type 0
Subset xs ys = All (λ x. contains ys x ≡ true) xs

-- What holds of the two collections of a game that began empty.
pub record IsTracked (seen order : List ℕ) : Type 0 where
  pub bounded : length seen ≤ callback_history_limit
  pub order_le_seen : length order ≤ length seen
  pub seen_le_order : length seen ≤ suc (length order)
  pub seen_distinct : Distinct seen
  pub order_distinct : Distinct order
  pub within : Subset order seen

pub length-append_one : (xs : List ℕ) (a : ℕ) → length (xs ++ a ∷ []) ≡ suc (length xs)
length-append_one [] a = refl
length-append_one (x ∷ xs) a = omega (arith, length-append_one xs a)

pub contains-remove_ne :
    (xs : List ℕ) (o b : ℕ) → o ≢ b → contains (remove_id o xs) b ≡ contains xs b
contains-remove_ne [] o b h = refl
contains-remove_ne (x ∷ xs) o b h = ground (arith, contains-remove_ne xs o b h)

pub length-remove_id :
    (xs : List ℕ) (o : ℕ) → contains xs o ≡ true → suc (length (remove_id o xs)) ≡ length xs
length-remove_id [] o h = cc
length-remove_id (x ∷ xs) o h = ground (arith, length-remove_id xs o)

contains-remove_absent :
    (xs : List ℕ) (o b : ℕ) → contains xs b ≡ false → contains (remove_id o xs) b ≡ false
contains-remove_absent [] o b h = refl
contains-remove_absent (x ∷ xs) o b h = ground (arith, contains-remove_absent xs o b)

pub Distinct-remove_id : (xs : List ℕ) (o : ℕ) → Distinct xs → Distinct (remove_id o xs)
Distinct-remove_id [] o d = tt
Distinct-remove_id (x ∷ xs) o d =
    ground (arith, Distinct-remove_id xs o d.1, contains-remove_absent xs o x)

pub Subset-append_one : (xs ys : List ℕ) (a : ℕ) → Subset xs ys → Subset xs (ys ++ a ∷ [])
Subset-append_one [] ys a s = tt
Subset-append_one (x ∷ xs) ys a s =
    (ground (arith, contains-append_one ys a x), Subset-append_one xs ys a s.1)

pub Subset-snoc :
    (xs ys : List ℕ) (a : ℕ) → Subset xs ys → contains ys a ≡ true → Subset (xs ++ a ∷ []) ys
Subset-snoc [] ys a s h = (h, tt)
Subset-snoc (x ∷ xs) ys a s h = (s.0, Subset-snoc xs ys a s.1 h)

pub Subset-remove_id :
    (xs ys : List ℕ) (o : ℕ) → contains xs o ≡ false → Subset xs ys → Subset xs (remove_id o ys)
Subset-remove_id [] ys o n s = tt
Subset-remove_id (x ∷ xs) ys o n s =
    (ground (arith, contains-remove_ne ys o x), Subset-remove_id xs ys o (ground arith) s.1)

pub contains-Subset :
    (xs ys : List ℕ) (a : ℕ) → Subset xs ys → contains xs a ≡ true → contains ys a ≡ true
contains-Subset [] ys a s h = cc
contains-Subset (x ∷ xs) ys a s h = ground (arith, contains-Subset xs ys a s.1)

pub not_contains-Subset :
    (xs ys : List ℕ) (a : ℕ) → Subset xs ys → contains ys a ≡ false → contains xs a ≡ false
not_contains-Subset xs ys a s h = elim (Bool-cases (contains xs a)) [
  | inl found ↦ absurd (ground (arith, contains-Subset xs ys a s found))
  | inr absent ↦ absent
]
