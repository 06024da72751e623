-- ===== src/Locks/ReadWrite/Tasks.antt =====
-- The steps of tasks that use a table's readers-writer lock, pokerapp/lock_manager.py.
use poker_telegram_bot.Prelude.{
  ℕ, ◌+◌, ◌-◌, ◌≡◌, ◌<◌, Bool, true, false, not, ◌&&◌, ◌||◌, ltb, ◌==◌,
}

-- `_RWLockState`; the inner `write_lock` is locked or not.
pub record TableLock : Type 0 where
  pub write_locked : Bool
  pub reader_count : ℕ
  pub writer_waiting : ℕ
  pub has_active_writer : Bool
  pub no_writer_event : Bool

-- The test of `table_read_lock`; `writer_priority` is a setting.
unfoldable pub should_wait : Bool → TableLock → Bool
should_wait writer_priority l =
    (l.write_locked || l.has_active_writer) || (writer_priority && ltb 0 l.writer_waiting)

-- A reader that need not wait.
unfoldable pub enter_read : TableLock → TableLock
enter_read l = record l {
  reader_count = l.reader_count + 1;
  no_writer_event = l.no_writer_event || (l.writer_waiting == 0 && not l.write_locked);
}

-- The end of `table_read_lock`.
unfoldable pub exit_read : TableLock → TableLock
exit_read l = record l {
  reader_count = l.reader_count - 1;
  no_writer_event =
      l.no_writer_event || (l.writer_waiting == 0 && not l.write_locked && not l.has_active_writer);
}

-- `_mark_writer_waiting`
unfoldable pub mark_writer_waiting : TableLock → TableLock
mark_writer_waiting l = record l { writer_waiting = l.writer_waiting + 1; no_writer_event = false }

-- `_unmark_writer_waiting`
unfoldable pub unmark_writer_waiting : TableLock → TableLock
unmark_writer_waiting l = record l {
  writer_waiting = l.writer_waiting - 1;
  no_writer_event =
      l.no_writer_event
      || (l.writer_waiting - 1 == 0 && not l.write_locked && not l.has_active_writer);
}

-- The body of `table_write_lock` begins, and ends.
unfoldable pub start_write : TableLock → TableLock
start_write l = record l { has_active_writer = true }

unfoldable pub end_write : TableLock → TableLock
end_write l = record l {
  has_active_writer = false;
  no_writer_event = l.no_writer_event || (l.writer_waiting == 0 && not l.write_locked);
}

-- The lock with how many tasks are at which point. Readers: counted and not yet in the body, in the
-- body, or left by an exception between the two. Writers: marked, holding `write_lock` and waiting
-- for readers, past that loop, in the body, past the body, past `write_lock`.
pub record Table : Type 0 where
  pub lock : TableLock
  pub entering : ℕ
  pub reading : ℕ
  pub lost : ℕ
  pub marked : ℕ
  pub draining : ℕ
  pub drained : ℕ
  pub writing : ℕ
  pub leaving : ℕ
  pub left : ℕ

abbrev pub new_table : Table
new_table = record {
  lock = record {
    write_locked = false;
    reader_count = 0;
    writer_waiting = 0;
    has_active_writer = false;
    no_writer_event = true;
  };
  entering = 0;
  reading = 0;
  lost = 0;
  marked = 0;
  draining = 0;
  drained = 0;
  writing = 0;
  leaving = 0;
  left = 0;
}

-- What a task does between two waits. A writer may be cancelled while it waits.
pub data Step (priority : Bool) (t : Table) : Table → Type 0 where
  reader_counts :
      should_wait priority t.lock ≡ false
      → Step priority t (record t { lock = enter_read t.lock; entering = t.entering + 1 })
  reader_starts :
      0 < t.entering
      → Step priority t (record t { entering = t.entering - 1; reading = t.reading + 1 })
  -- The smart retry fails, or a check of the lock's level raises: this is before the `try`.
  reader_raises :
      0 < t.entering → Step priority t (record t { entering = t.entering - 1; lost = t.lost + 1 })
  reader_ends :
      0 < t.reading
      → Step priority t (record t { lock = exit_read t.lock; reading = t.reading - 1 })
  writer_marks :
      Step priority t (record t { lock = mark_writer_waiting t.lock; marked = t.marked + 1 })
  writer_locks :
      0 < t.marked
      → t.lock.write_locked ≡ false
      → Step priority t (record t {
        lock = record t.lock { write_locked = true };
        marked = t.marked - 1;
        draining = t.draining + 1;
      })
  writer_sees_no_reader :
      0 < t.draining
      → t.lock.reader_count ≡ 0
      → Step priority t (record t { draining = t.draining - 1; drained = t.drained + 1 })
  writer_starts :
      0 < t.drained
      → Step priority t
          (record t { lock = start_write t.lock; drained = t.drained - 1; writing = t.writing + 1 })
  writer_ends :
      0 < t.writing
      → Step priority t
          (record t { lock = end_write t.lock; writing = t.writing - 1; leaving = t.leaving + 1 })
  writer_unlocks :
      0 < t.leaving
      → Step priority t (record t {
        lock = record t.lock { write_locked = false };
        leaving = t.leaving - 1;
        left = t.left + 1;
      })
  waiting_writer_cancelled :
      0 < t.marked → Step priority t (record t { marked = t.marked - 1; left = t.left + 1 })
  draining_writer_cancelled :
      0 < t.draining
      → Step priority t (record t { draining = t.draining - 1; leaving = t.leaving + 1 })
  writer_unmarks :
      0 < t.left
      → Step priority t (record t { lock = unmark_writer_waiting t.lock; left = t.left - 1 })

pub data Steps (priority : Bool) (s : Table) : Table → Type 0 where
  no_steps : Steps priority s s
  then_step : {t u : Table} → Steps priority s t → Step priority t u → Steps priority s u
