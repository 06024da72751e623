-- ===== src/Locks/Batches/Reentry.antt =====
-- Taking a lock again and giving it back: `acquire` and `release` of pokerapp/lock_manager.py on the
-- records of a task and on the exit stacks that it has registered, one name for each. Closing a
-- stack is what lets go of the lock. The task owns the locks that it releases, and none of them was
-- bypassed.
use Prim.Native.String.{String}
use text.Mathlib.Text.{◌==◌ as str_eq}
use text.Mathlib.TextEquality.{eq_iff}
use poker_telegram_bot.Prelude.{
  ◌-◌, ◌≡◌, refl, inl, inr, Bool, true, false, not, ◌&&◌, ◌||◌, Bool-cases, Option, none, some,
  List, [], ◌∷◌, ltb, if◌then◌else◌, ℤ, arith,
}
use poker_telegram_bot.Locks.Levels.{
  LockAcquisition, validate_lock_hierarchy, in_hierarchy, resolve_lock_category, find_lock_record,
}
use poker_telegram_bot.Locks.Batches.{
  Settings, Meets, LockReply, got, timed_out, interrupted, Acquired, answers, refusal, slow_path,
  acquire, level_in, hierarchy_error,
}

pub record Holding : Type 0 where
  pub held : List LockAcquisition
  pub stacks : List String

abbrev is_none : Option LockAcquisition → Bool
is_none none = true
is_none (some _) = false

abbrev allowed : Settings → List LockAcquisition → String → Bool
allowed st held key = elim (refusal st held key (level_in st key)) [ none ↦ true | some _ ↦ false ]

abbrev gets_lock : LockReply → Bool
gets_lock got = true
gets_lock timed_out = false
gets_lock interrupted = false

-- Whether `acquire` enters the lock and registers a stack: on the fast path and after a wait, and
-- not where it finds a record of the key.
unfoldable pub registers : Settings → Meets → List LockAcquisition → String → Bool
registers st m held key =
    not m.shutting_down
    && not m.circuit_broken
    && allowed st held key
    && (m.free_at_once || is_none (find_lock_record held key) && gets_lock m.reply)

-- `acquire`, with `_register_lock_stack`.
unfoldable pub acquire_lock : Settings → Meets → Holding → String → Acquired × Holding
acquire_lock st m h key =
    let (a, held) = acquire st m h.held key in
    (
      a,
      record {
        held = held;
        stacks = if registers st m h.held key then key ∷ h.stacks else h.stacks;
      },
    )

-- `_release_lock_stack`: the stacks without the newest of the key.
unfoldable pub release_lock_stack : List String → String → Option (List String)
release_lock_stack [] key = none
release_lock_stack (k ∷ ks) key =
    let rest = release_lock_stack ks key in
    if str_eq k key then some ks else (elim rest [ none ↦ none | some ks' ↦ some (k ∷ ks') ])

-- The oldest record of the key with one count less, or without it; the newest record comes first.
abbrev pub count_down : LockAcquisition → List LockAcquisition → List LockAcquisition
count_down a rest = if ltb 1 a.count then record a { count = a.count - 1 } ∷ rest else rest

abbrev pub release_record : List LockAcquisition → String → List LockAcquisition
release_record [] key = []
release_record (a ∷ rest) key = elim (find_lock_record rest key) [
  | some _ ↦ a ∷ release_record rest key
  | none ↦ if str_eq a.key key then count_down a rest else a ∷ rest
]

-- Whether the oldest record of the key counts more than one acquisition.
abbrev pub counts_more : List LockAcquisition → String → Bool
counts_more [] key = false
counts_more (a ∷ rest) key = elim (find_lock_record rest key) [
  | some _ ↦ counts_more rest key
  | none ↦ str_eq a.key key && ltb 1 a.count
]

pub data Released : Type 0 where
  released runtime_error : Holding → Released

-- `release`. A record that counts more than one is counted down before the stack is looked for.
unfoldable pub release : Holding → String → Released
unfolding release_lock_stack
release h key = elim (release_lock_stack h.stacks key) [
  | some ks ↦ released (record { held = release_record h.held key; stacks = ks })
  | none ↦
      if counts_more h.held key
      then runtime_error (record h { held = release_record h.held key })
      else runtime_error h
]

abbrev pub once : String → ℤ → LockAcquisition
once key level = record { key = key; level = level; count = 1 }

abbrev pub twice : String → ℤ → LockAcquisition
twice key level = record { key = key; level = level; count = 2 }

self_eq : (key : String) → str_eq key key ≡ true
self_eq key = (eq_iff key key).1 refl

module _ (st : Settings) (m : Meets) (key : String) (level : ℤ) where
  refused_again :
      st.enforce_hierarchy ≡ true
      → in_hierarchy (resolve_lock_category key) ≡ true
      → refusal st (once key level ∷ []) key (level_in st key) ≡ some hierarchy_error
  unfolding refusal validate_lock_hierarchy
  refused_again e i = ground (arith, e, i)

  found_again : find_lock_record (once key level ∷ []) key ≡ some (once key level)
  unfolding find_lock_record
  found_again = ground (arith, self_eq key)

  counted_again :
      slow_path st m (once key level ∷ []) key (level_in st key)
      ≡ (answers true, twice key level ∷ [])
  unfolding slow_path find_lock_record
  counted_again = ground (arith, self_eq key, found_again)

  answered_again :
      st.enforce_hierarchy ≡ true
      → in_hierarchy (resolve_lock_category key) ≡ true
      → m.shutting_down ≡ false
      → m.circuit_broken ≡ false
      → acquire st m (once key level ∷ []) key ≡ (answers true, twice key level ∷ [])
  unfolding acquire
  answered_again e i up closed = elim (Bool-cases m.free_at_once) [
    | inl free ↦ rw (acquire, up, closed, free, refused_again e i) counted_again
    | inr busy ↦ rw (acquire, up, closed, busy) counted_again
  ]

  not_registered :
      st.enforce_hierarchy ≡ true
      → in_hierarchy (resolve_lock_category key) ≡ true
      → m.shutting_down ≡ false
      → m.circuit_broken ≡ false
      → registers st m (once key level ∷ []) key ≡ false
  unfolding registers
  not_registered e i up closed = ground (arith, up, closed, refused_again e i)

  -- Where the hierarchy is enforced, a task that takes a lock of the hierarchy a second time is told
  -- that it has it, and no second stack is registered. The first release then closes the only stack,
  -- with the record still there, and the second one raises an error.
  pub reentry_lost :
      st.enforce_hierarchy ≡ true
      → in_hierarchy (resolve_lock_category key) ≡ true
      → m.shutting_down ≡ false
      → m.circuit_broken ≡ false
      → (acquire_lock st m (record { held = once key level ∷ []; stacks = key ∷ [] }) key
          ≡ (answers true, record { held = twice key level ∷ []; stacks = key ∷ [] }))
        × (release (record { held = twice key level ∷ []; stacks = key ∷ [] }) key
            ≡ released (record { held = once key level ∷ []; stacks = [] }))
        × (release (record { held = once key level ∷ []; stacks = [] }) key
            ≡ runtime_error (record { held = once key level ∷ []; stacks = [] }))
  unfolding acquire_lock release find_lock_record
  reentry_lost e i up closed = (
    ground (arith, answered_again e i up closed, not_registered e i up closed),
    ground (arith, self_eq key),
    ground (arith, self_eq key),
  )
