-- ===== src/Tests/Locking.antt =====
-- Runs of the locks.
use poker_telegram_bot.Prelude.{ℕ, ◌≡◌, ◌<◌, ◌≤◌, refl, inl, true, false, some, [], ◌∷◌, arith}
use poker_telegram_bot.Locks.Reentrant.{
  ReentrantLock, acquire, Calls, start, acquires, Promise, reentrant_lock-Promise, bump,
}
use poker_telegram_bot.Locks.ReadWrite.{
  Table, new_table, Steps, no_steps, then_step, reader_counts, reader_raises, writer_marks,
  writer_locks, should_wait, enter_read, mark_writer_waiting, table_lock_excludes,
  lost_reader_blocks_writers, waiting_writer_starts, writers,
}
use poker_telegram_bot.Locks.ActionStore.{
  Store, new_store, set_value, eval_release, find_entry, put_entry, purge_expired,
}
use poker_telegram_bot.Locks.ActionStore.Holders.{holder, IsSound}
use poker_telegram_bot.Locks.ActionStore.Exclusion.{Since, then_call, sets, acquired_excludes}

abbrev held_twice : ReentrantLock
held_twice = record { locked = true; owner_id = some 7; count = 2 }

abbrev depths : ℕ → ℕ
depths = bump 7 (bump 7 (λ _. 0))

twice : Calls held_twice depths
unfolding acquire
twice = acquires 7 (acquires 7 start refl) refl

reentrant_lock-Promise_example : Promise held_twice depths
reentrant_lock-Promise_example = reentrant_lock-Promise twice

-- A reader is counted, and a writer waits for it.
abbrev reader_in : Table
reader_in = record new_table { lock = record new_table.lock { reader_count = 1 }; entering = 1 }

abbrev writer_waits : Table
writer_waits = record reader_in {
  lock = record {
    write_locked = true;
    reader_count = 1;
    writer_waiting = 1;
    has_active_writer = false;
    no_writer_event = false;
  };
  draining = 1;
}

entered : Steps true new_table reader_in
unfolding should_wait enter_read
entered = then_step no_steps (reader_counts refl)

waits_for_reader : Steps true new_table writer_waits
unfolding mark_writer_waiting
waits_for_reader = then_step (then_step entered writer_marks) (writer_locks (omega arith) refl)

table_lock_excludes_example :
    (writer_waits.writing ≤ 1)
    × (0 < writer_waits.writing → writer_waits.reading ≡ 0)
    × (writers writer_waits ≡ 0
        → (should_wait true writer_waits.lock ≡ false) × (writer_waits.lock.no_writer_event ≡ true))
table_lock_excludes_example = table_lock_excludes true writer_waits waits_for_reader

waiting_writer_starts_example : (u : Table) × Steps true writer_waits u × (u.writing ≡ 1)
waiting_writer_starts_example =
    waiting_writer_starts true writer_waits waits_for_reader (omega arith) refl

abbrev reader_lost : Table
reader_lost = record reader_in { entering = 0; lost = 1 }

raised : Steps true new_table reader_lost
raised = then_step entered (reader_raises (omega arith))

lost_reader_blocks_writers_example : reader_lost.writing ≡ 0
lost_reader_blocks_writers_example =
    lost_reader_blocks_writers true reader_lost reader_lost raised (omega arith) no_steps

-- A token takes key 4 at time 10 for 30, and another one tries at time 20.
abbrev taken_store : Store
taken_store = record {
  values = record { key = 4; token = 1; expiry = 40 } ∷ [];
  purge_count = 1;
  peak_size = 1;
  current_size = 1;
}

abbrev tried_store : Store
tried_store = record taken_store { purge_count = 2 }

new_store-IsSound : IsSound new_store
new_store-IsSound = record { distinct = tt; size = refl; peak = omega arith }

taken : set_value 10 4 1 true (some 30) new_store ≡ some (true, taken_store)
unfolding set_value find_entry put_entry purge_expired
taken = refl

tried : Since 4 1 10 taken_store 20 tried_store
unfolding set_value find_entry put_entry purge_expired
tried = then_call Since.acquired (omega arith) (sets 4 2 30 true false (inl refl) refl)

acquired_excludes_example :
    (holder 20 4 tried_store ≡ some 1)
    × ((tok ex' : ℕ)
        → (t' : Store) × (set_value 20 4 tok true (some ex') tried_store ≡ some (false, t')))
    × ((eval_release 20 (4 ∷ []) (some 1) tried_store).0 ≡ true)
acquired_excludes_example =
    acquired_excludes 10 4 1 30 20 new_store taken_store tried_store new_store-IsSound taken tried
      (omega arith)
