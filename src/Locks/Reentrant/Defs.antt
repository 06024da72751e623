-- ===== src/Locks/Reentrant/Defs.antt =====
-- The state and the operations of `ReentrantAsyncLock`, pokerapp/utils/locks.py.
use poker_telegram_bot.Prelude.{
  ℕ, ◌+◌, ◌-◌, Bool, true, false, Option, none, some, ltb, leb, ◌==◌, ◌&&◌, not, if◌then◌else◌,
}

pub record ReentrantLock : Type 0 where
  pub locked : Bool
  pub owner_id : Option ℕ
  pub count : ℕ

abbrev pub new_lock : ReentrantLock
new_lock = record { locked = false; owner_id = none; count = 0 }

abbrev pub is_owner : Option ℕ → ℕ → Bool
is_owner none task = false
is_owner (some o) task = o == task

-- `acquire` returns, waits for the inner lock, or raises outside a task.
pub data Acquired : Type 0 where
  acquired : ReentrantLock → Acquired
  waits no_task : Acquired

-- `acquire`
unfoldable pub acquire : Option ℕ → ReentrantLock → Acquired
acquire none l = no_task
acquire (some task) l =
    if is_owner l.owner_id task && ltb 0 l.count
    then acquired (record l { count = l.count + 1 })
    else if l.locked
    then waits
    else acquired (record { locked = true; owner_id = some task; count = 1 })

pub data Released : Type 0 where
  released : ReentrantLock → Released
  ownership_error not_acquired : Released

-- `_decrement_depth_and_maybe_release`
unfoldable pub decrement_depth : ReentrantLock → ReentrantLock
decrement_depth l =
    if leb (l.count - 1) 0
    then record { locked = false; owner_id = none; count = 0 }
    else record l { count = l.count - 1 }

-- `release`
unfoldable pub release : Option ℕ → ReentrantLock → Released
unfolding decrement_depth
release none l = ownership_error
release (some task) l =
    if not (is_owner l.owner_id task)
    then ownership_error
    else if leb l.count 0
    then not_acquired
    else released (decrement_depth l)
