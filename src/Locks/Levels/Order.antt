-- ===== src/Locks/Levels/Order.antt =====
-- What `_validate_lock_order` of pokerapp/lock_manager.py lets through.
use Prim.Native.String.{String}
use poker_telegram_bot.Prelude.{
  ◌≡◌, refl, ◌↔◌, ◌⊎◌, inl, inr, true, false, none, List, [], ◌∷◌, Bool-cases, Option-cases, All, ℤ,
  arith,
}
use poker_telegram_bot.Locks.Levels.{
  below, resolve_lock_category, LockAcquisition, is_descend_allowed, max_held_level,
  violating_holder, in_order, validate_lock_order,
}

-- A held lock that allows a new one of a lower level: its own level is not higher, or its category
-- may be followed by the other.
abbrev pub Allows : String → ℤ → LockAcquisition → Type 0
Allows key level a =
    (below level a.level ≡ false)
    ⊎ (is_descend_allowed (resolve_lock_category a.key) (resolve_lock_category key) ≡ true)

no_violation :
    (held : List LockAcquisition) (key : String) (level : ℤ)
    → violating_holder held key level ≡ none
    → All (Allows key level) held
unfolding violating_holder
no_violation [] key level h = tt
no_violation (a ∷ rest) key level h = (ground (arith), no_violation rest key level (ground (arith)))

allowed_by_all :
    (held : List LockAcquisition) (key : String) (level : ℤ)
    → All (Allows key level) held
    → violating_holder held key level ≡ none
unfolding violating_holder
allowed_by_all [] key level h = refl
allowed_by_all (a ∷ rest) key level h = ground (arith, h.0, allowed_by_all rest key level h.1)

-- Below no held level, a lock is below none of them.
not_below_max :
    (a : LockAcquisition) (rest : List LockAcquisition) (key : String) (level : ℤ)
    → below level (max_held_level a rest) ≡ false
    → All (Allows key level) (a ∷ rest)
not_below_max a [] key level h = (inl h, tt)
not_below_max a (b ∷ rest) key level h =
    (inl (ground (arith)), not_below_max b rest key level (ground (arith)))

-- Who holds a lock gets another one exactly when it is not above all the held ones, and every held
-- one of a higher level has leave to be followed by it. So the levels never rise.
pub validate_lock_order_lem :
    (a : LockAcquisition) (rest : List LockAcquisition) (key : String) (level : ℤ)
    → (validate_lock_order (a ∷ rest) key level ≡ in_order)
      ↔ ((below (max_held_level a rest) level ≡ false) × All (Allows key level) (a ∷ rest))
unfolding validate_lock_order
validate_lock_order_lem a rest key level = elim (Bool-cases (below level (max_held_level a rest))) [
  | inl lower ↦ (
    λ h. (ground (arith), no_violation (a ∷ rest) key level (none_violates lower h)),
    λ h. let free = allowed_by_all (a ∷ rest) key level h.1 in rw (lower, free) refl,
  )
  | inr higher ↦ (
    λ h. (ground (arith), not_below_max a rest key level higher),
    λ h. let top = h.0 in rw (higher, top) refl,
  )
]
  where
    none_violates :
        below level (max_held_level a rest) ≡ true
        → validate_lock_order (a ∷ rest) key level ≡ in_order
        → violating_holder (a ∷ rest) key level ≡ none
    none_violates lower h = elim (Option-cases (violating_holder (a ∷ rest) key level)) [
      | inl e ↦ e
      | inr (x, e) ↦ absurd (ground (arith))
    ]
