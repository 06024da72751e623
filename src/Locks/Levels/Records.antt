-- ===== src/Locks/Levels/Records.antt =====
-- The records of what a task holds, and the check of the lock hierarchy, pokerapp/lock_manager.py.
use Prim.Native.String.{String}
use text.Mathlib.Text.{◌==◌ as str_eq}
use text.Mathlib.TextEquality.{eq_iff}
use text.Mathlib.TextPositions.{eq_refl}
use poker_telegram_bot.Prelude.{
  ◌+◌, ◌≡◌, ◌<◌, refl, inl, inr, ap, true, some, List, [], ◌∷◌, All, Bool-cases, ℤ, arith,
}
use poker_telegram_bot.Locks.Levels.{
  LockAcquisition, record_acquired, remove_acquisition_record, find_lock_record,
  resolve_lock_category, in_hierarchy, any_in_hierarchy, passes, name_error,
  validate_lock_hierarchy,
}

-- Every record counts at least one acquisition.
abbrev pub Counted : List LockAcquisition → Type 0
Counted held = All (λ (a : LockAcquisition). 0 < a.count) held

record-Counted :
    (held : List LockAcquisition) (key : String) (level : ℤ)
    → Counted held
    → Counted (record_acquired held key level)
unfolding record_acquired
record-Counted [] key level c = (omega arith, tt)
record-Counted (a ∷ rest) key level c = elim (Bool-cases (str_eq a.key key)) [
  | inl e ↦ rw e (omega (arith, c.0), c.1)
  | inr e ↦ rw e (omega arith, c)
]

-- A lock that is acquired and released leaves the task's records as they were, the counts of a lock
-- that was held before included; in between it is found.
remove-record :
    (held : List LockAcquisition) (key : String) (level : ℤ)
    → Counted held
    → (remove_acquisition_record (record_acquired held key level) key ≡ held)
      × ((a : LockAcquisition) × (find_lock_record (record_acquired held key level) key ≡ some a)
          × (a.key ≡ key))
unfolding record_acquired remove_acquisition_record find_lock_record
remove-record [] key level c = (
  ground (arith, eq_refl key),
  (record { key = key; level = level; count = 1 }, ground (arith, eq_refl key), refl),
)
remove-record (a ∷ rest) key level c = elim (Bool-cases (str_eq a.key key)) [
  | inl e ↦ (
    ground (arith, c.0),
    (record a { count = a.count + 1 }, ground (arith), (eq_iff a.key key).0 e),
  )
  | inr e ↦ (
    ground (arith, eq_refl key),
    (record { key = key; level = level; count = 1 }, ground (arith, eq_refl key), refl),
  )
]

record-any :
    (held : List LockAcquisition) (key : String) (level : ℤ)
    → in_hierarchy (resolve_lock_category key) ≡ true
    → any_in_hierarchy (record_acquired held key level) ≡ true
unfolding record_acquired
record-any [] key level h = ground (arith)
record-any (a ∷ rest) key level h = elim (Bool-cases (str_eq a.key key)) [
  | inl e ↦
      let same = ap (λ k. in_hierarchy (resolve_lock_category k)) ((eq_iff a.key key).0 e) in
      ground (arith, same)
  | inr e ↦ ground (arith)
]

-- No two locks of the hierarchy are taken by one task where it is enforced: after one is recorded
-- as acquired, the check for every other one, a higher level or the same lock again included, ends
-- in a `NameError`; and before any is held, the check passes.
pub second_lock_fails :
    (held : List LockAcquisition) (key key' : String) (level : ℤ)
    → in_hierarchy (resolve_lock_category key) ≡ true
    → in_hierarchy (resolve_lock_category key') ≡ true
    → (validate_lock_hierarchy (record_acquired held key level) key' ≡ name_error)
      × (validate_lock_hierarchy [] key ≡ passes)
unfolding validate_lock_hierarchy
second_lock_fails held key key' level h h' =
    let any = record-any held key level h in (ground (arith), ground (arith))
