-- ===== src/Locks/ActionStore/Entries.antt =====
-- The dictionary of `_InMemoryActionLockBackend`, pokerapp/lock_manager.py: no key twice, and what
-- finding, writing, deleting and purging do to it.
use poker_telegram_bot.Prelude.{
  ℕ, ◌≡◌, ◌≤◌, refl, inl, inr, Bool, Option, none, some, List, [], ◌∷◌, ltb, ◌==◌, ==→eq,
  if◌then◌else◌, length, keep, Bool-cases, arith,
}
use poker_telegram_bot.Locks.ActionStore.{Entry, find_entry, put_entry, pop_entry}

-- The token that an entry stands for at a time.
abbrev pub live_token : ℕ → Option Entry → Option ℕ
live_token now none = none
live_token now (some e) = if ltb now e.expiry then some e.token else none

-- No key twice.
abbrev pub Absent : ℕ → List Entry → Type 0
Absent k es = find_entry k es ≡ none

abbrev pub Distinct : List Entry → Type 0
Distinct [] = Unit
Distinct (e ∷ es) = Absent e.key es × Distinct es

module _ (now : ℕ) where
  abbrev pub live : Entry → Bool
  live e = ltb now e.expiry

  find-keep-Absent : (k : ℕ) (es : List Entry) → Absent k es → Absent k (keep live es)
  unfolding find_entry
  find-keep-Absent k [] a = refl
  find-keep-Absent k (e ∷ es) a = ground (arith, find-keep-Absent k es)

  pub keep-Distinct : (es : List Entry) → Distinct es → Distinct (keep live es)
  keep-Distinct [] d = tt
  keep-Distinct (e ∷ es) d = elim (Bool-cases (live e)) [
    | inl l ↦ rw (keep, l) (find-keep-Absent e.key es d.0, keep-Distinct es d.1)
    | inr l ↦ rw (keep, l) (keep-Distinct es d.1)
  ]

  -- Purging forgets only who does not hold a key any more.
  pub find-keep :
      (later k : ℕ) (es : List Entry)
      → now ≤ later
      → Distinct es
      → live_token later (find_entry k (keep live es)) ≡ live_token later (find_entry k es)
  unfolding find_entry
  find-keep later k [] h d = refl
  find-keep later k (e ∷ es) h d =
      ground (arith, find-keep later k es h d.1, find-keep-Absent e.key es d.0, ==→eq e.key k)

-- Finding after a write, and after a deletion.
pub find-put :
    (k : ℕ) (e : Entry) (es : List Entry)
    → find_entry k (put_entry e es) ≡ (if e.key == k then some e else find_entry k es)
unfolding find_entry put_entry
find-put k e [] = refl
find-put k e (x ∷ xs) = ground (arith, find-put k e xs)

pub find-pop :
    (k j : ℕ) (es : List Entry)
    → Distinct es
    → find_entry j (pop_entry k es) ≡ (if k == j then none else find_entry j es)
unfolding find_entry pop_entry
find-pop k j [] d = ground (arith)
find-pop k j (x ∷ xs) d = ground (arith, find-pop k j xs d.1, d.0, ==→eq x.key j)

pub put-Distinct : (e : Entry) (es : List Entry) → Distinct es → Distinct (put_entry e es)
unfolding put_entry find_entry
put-Distinct e [] d = (refl, tt)
put-Distinct e (x ∷ xs) d = elim (Bool-cases (x.key == e.key)) [
  | inl same ↦ rw (put_entry, same) (ground (arith, d.0, ==→eq x.key e.key), d.1)
  | inr other ↦
      rw (put_entry, other) (ground (arith, find-put x.key e xs, d.0), put-Distinct e xs d.1)
]

pop-Absent : (k j : ℕ) (es : List Entry) → Absent j es → Absent j (pop_entry k es)
unfolding pop_entry find_entry
pop-Absent k j [] a = refl
pop-Absent k j (x ∷ xs) a = ground (arith, pop-Absent k j xs)

pub pop-Distinct : (k : ℕ) (es : List Entry) → Distinct es → Distinct (pop_entry k es)
unfolding pop_entry find_entry
pop-Distinct k [] d = tt
pop-Distinct k (x ∷ xs) d = elim (Bool-cases (x.key == k)) [
  | inl same ↦ rw (pop_entry, same) d.1
  | inr other ↦ rw (pop_entry, other) (pop-Absent k x.key xs d.0, pop-Distinct k xs d.1)
]

pub length-pop-le : (k : ℕ) (es : List Entry) → length (pop_entry k es) ≤ length es
unfolding pop_entry
length-pop-le k [] = omega arith
length-pop-le k (x ∷ xs) = ground (arith, length-pop-le k xs)
