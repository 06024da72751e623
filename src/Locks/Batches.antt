-- ===== src/Locks/Batches.antt =====
-- `acquire` and `acquire_batch` of pokerapp/lock_manager.py, on the records of what the calling task
-- holds. What the call meets, such as who gets the lock and when, is an argument. Timeouts, metrics,
-- contexts and the release of what a batch got are left out.
pub mod Sorting
pub mod Levels
pub mod OneLevel
pub mod Reentry
use Prim.Native.String.{String}
use text.Mathlib.Text.{◌==◌ as str_eq}
use poker_telegram_bot.Prelude.{
  ℕ, suc, ◌+◌, Bool, true, false, not, ◌&&◌, ◌||◌, Option, none, some, List, [], ◌∷◌, if◌then◌else◌,
  ℤ,
}
use poker_telegram_bot.Locks.Levels.{
  LockAcquisition, below, resolve_level, validate_lock_order, in_order, lock_order_error,
  validate_lock_hierarchy, passes, name_error, record_acquired, find_lock_record,
}

pub record Settings : Type 0 where
  pub enforce_hierarchy : Bool
  pub default_level : ℤ

pub data LockReply : Type 0 where
  got timed_out interrupted : LockReply

-- What a call of `acquire` meets: the manager shutting down, a broken circuit of the key, the lock
-- free at once, and how the wait for it ends where it is not.
pub record Meets : Type 0 where
  pub shutting_down : Bool
  pub circuit_broken : Bool
  pub free_at_once : Bool
  pub reply : LockReply

pub data AcquireError : Type 0 where
  order_error hierarchy_error other_error : AcquireError

pub data Acquired : Type 0 where
  answers : Bool → Acquired
  raises : AcquireError → Acquired

abbrev pub order_refusal : List LockAcquisition → String → ℤ → Option AcquireError
order_refusal held key level = elim (validate_lock_order held key level) [
  | in_order ↦ none
  | lock_order_error ↦ some order_error
]

-- The two validations of a lock that is new to the task.
unfoldable pub refusal : Settings → List LockAcquisition → String → ℤ → Option AcquireError
refusal st held key level =
    if st.enforce_hierarchy
    then (elim (validate_lock_hierarchy held key) [
      | passes ↦ order_refusal held key level
      | name_error ↦ some hierarchy_error
    ])
    else order_refusal held key level

-- `existing.count += 1`, for the oldest record of the key; the newest record comes first.
abbrev pub count_again : List LockAcquisition → String → List LockAcquisition
count_again [] key = []
count_again (a ∷ rest) key = elim (find_lock_record rest key) [
  | some _ ↦ a ∷ count_again rest key
  | none ↦ if str_eq a.key key then record a { count = suc a.count } ∷ rest else a ∷ rest
]

-- The wait of the slow path.
abbrev pub wait_for :
    LockReply → List LockAcquisition → String → ℤ → Acquired × List LockAcquisition
wait_for got held key level = (answers true, record_acquired held key level)
wait_for timed_out held key level = (answers false, held)
wait_for interrupted held key level = (raises other_error, held)

unfoldable pub slow_path :
    Settings → Meets → List LockAcquisition → String → ℤ → Acquired × List LockAcquisition
unfolding refusal
slow_path st m held key level = elim (find_lock_record held key) [
  | some _ ↦ (answers true, count_again held key)
  | none ↦ elim (refusal st held key level) [
    | some e ↦ (raises e, held)
    | none ↦ wait_for m.reply held key level
  ]
]

-- `acquire`, with the level of the key's category. An error of the fast path leads to the slow one.
unfoldable pub acquire :
    Settings → Meets → List LockAcquisition → String → Acquired × List LockAcquisition
unfolding slow_path
acquire st m held key =
    let level = resolve_level st.default_level key none in
    if m.shutting_down
    then (answers false, held)
    else if m.circuit_broken
    then (answers true, held)
    else if m.free_at_once
    then (elim (refusal st held key level) [
      | none ↦ (answers true, record_acquired held key level)
      | some _ ↦ slow_path st m held key level
    ])
    else slow_path st m held key level

-- `key in keys`
abbrev pub listed : List String → String → Bool
listed [] key = false
listed (k ∷ ks) key = str_eq k key || listed ks key

-- `list(dict.fromkeys(keys))`: `seen` are the keys before.
abbrev pub unique_keys : List String → List String → List String
unique_keys seen [] = []
unique_keys seen (k ∷ ks) =
    let rest = unique_keys (k ∷ seen) ks in if listed seen k then rest else k ∷ rest

abbrev pub insert_key : (String → ℤ) → String → List String → List String
insert_key level k [] = k ∷ []
insert_key level k (x ∷ xs) =
    let rest = insert_key level k xs in if below (level x) (level k) then x ∷ rest else k ∷ x ∷ xs

-- `sorted(key_levels, key=lambda x: x[1])`, which is stable.
abbrev pub sort_by_level : (String → ℤ) → List String → List String
sort_by_level level [] = []
sort_by_level level (k ∷ ks) = insert_key level k (sort_by_level level ks)

pub data BatchEnd : Type 0 where
  yields : BatchEnd
  raises_out : AcquireError → BatchEnd

-- How a batch went: what it yields or raises, the keys that it got, in order, and what the task
-- holds then. The keys are released in the reverse order.
pub record Batch : Type 0 where
  pub ended : BatchEnd
  pub acquired : List String
  pub held : List LockAcquisition

abbrev pub with_key : String → Batch → Batch
with_key k b = record b { acquired = k ∷ b.acquired }

-- What is left to do after a key's answer.
abbrev pub after_key : String → Acquired × List LockAcquisition → Batch → Batch
after_key k (answers true, held) rest = with_key k rest
after_key k (answers false, held) rest = record { ended = yields; acquired = []; held = held }
after_key k (raises e, held) rest = record { ended = raises_out e; acquired = []; held = held }

-- The loop over the sorted keys, which stops at the first failure.
unfoldable pub acquire_keys :
    Settings → (String → Meets) → List LockAcquisition → List String → Batch
acquire_keys st meets held [] = record { ended = yields; acquired = []; held = held }
acquire_keys st meets held (k ∷ ks) =
    let answer = acquire st (meets k) held k in
    let rest = acquire_keys st meets answer.1 ks in after_key k answer rest

abbrev pub level_in : Settings → String → ℤ
level_in st key = resolve_level st.default_level key none

-- `acquire_batch`, up to the `yield`.
unfoldable pub acquire_batch :
    Settings → (String → Meets) → List LockAcquisition → List String → Batch
unfolding acquire_keys
acquire_batch st meets held keys =
    acquire_keys st meets held (sort_by_level (level_in st) (unique_keys [] keys))
