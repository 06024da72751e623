-- ===== src/Locks/ReadWrite/Safety.antt =====
-- Readers and writers of a table exclude each other, pokerapp/lock_manager.py.
use native.Mathlib.Decide.{dec_lt}
use poker_telegram_bot.Prelude.{
  ℕ, zero, suc, ◌+◌, ◌-◌, ◌≡◌, ◌<◌, ◌≤◌, refl, Bool, true, false, if◌then◌else◌, arith,
}
use poker_telegram_bot.Locks.ReadWrite.Tasks.{
  Table, new_table, Step, Steps, no_steps, then_step, should_wait, enter_read, exit_read,
  mark_writer_waiting, unmark_writer_waiting, start_write, end_write, reader_counts, reader_starts,
  reader_raises, reader_ends, writer_marks, writer_locks, writer_sees_no_reader, writer_starts,
  writer_ends, writer_unlocks, waiting_writer_cancelled, draining_writer_cancelled, writer_unmarks,
}

abbrev one_if : Bool → ℕ
one_if b = if b then 1 else 0

-- The counters of the lock are what its tasks make them.
pub record Inv (t : Table) : Type 0 where
  pub readers : t.lock.reader_count ≡ t.entering + t.reading + t.lost
  pub owner : t.draining + t.drained + t.writing + t.leaving ≡ one_if t.lock.write_locked
  pub active : t.writing ≡ one_if t.lock.has_active_writer
  pub alone : 0 < t.drained + t.writing → t.lock.reader_count ≡ 0
  pub waiting :
      t.lock.writer_waiting ≡ t.marked + t.draining + t.drained + t.writing + t.leaving + t.left
  pub woken : t.lock.writer_waiting ≡ 0 → t.lock.no_writer_event ≡ true

Inv-new : Inv new_table
Inv-new = record {
  readers = refl;
  owner = refl;
  active = refl;
  alone = λ h. absurd (omega arith);
  waiting = refl;
  woken = λ h. refl;
}

Step-Inv : (priority : Bool) {s t : Table} → Step priority s t → Inv s → Inv t
unfolding should_wait enter_read exit_read mark_writer_waiting unmark_writer_waiting start_write
    end_write
Step-Inv priority (reader_counts g) i = ground (arith)
Step-Inv priority (reader_starts g) i = ground (arith)
Step-Inv priority (reader_raises g) i = ground (arith)
Step-Inv priority (reader_ends g) i = ground (arith)
Step-Inv priority writer_marks i = ground (arith)
Step-Inv priority (writer_locks g h) i = ground (arith)
Step-Inv priority (writer_sees_no_reader g h) i = ground (arith)
Step-Inv priority (writer_starts g) i = ground (arith)
Step-Inv priority (writer_ends g) i = ground (arith)
Step-Inv priority (writer_unlocks g) i = ground (arith)
Step-Inv priority (waiting_writer_cancelled g) i = ground (arith)
Step-Inv priority (draining_writer_cancelled g) i = ground (arith)
Step-Inv priority (writer_unmarks g) i = ground (arith)

Steps-Inv : (priority : Bool) {s t : Table} → Steps priority s t → Inv s → Inv t
Steps-Inv priority no_steps i = i
Steps-Inv priority (then_step before step) i = Step-Inv priority step (Steps-Inv priority before i)

-- The tasks that have asked for the write lock and are not through.
abbrev pub writers : Table → ℕ
writers t = t.marked + t.draining + t.drained + t.writing + t.leaving + t.left

-- However the readers and writers of a table take turns, cancelled writers and failing readers
-- included: at most one writer is in its body, and then no reader is in its own; and where no
-- writer has asked for the lock, a reader need not wait and the event that wakes readers is set.
pub table_lock_excludes :
    (priority : Bool) (t : Table)
    → Steps priority new_table t
    → (t.writing ≤ 1)
      × (0 < t.writing → t.reading ≡ 0)
      × (writers t ≡ 0 → (should_wait priority t.lock ≡ false) × (t.lock.no_writer_event ≡ true))
unfolding should_wait
table_lock_excludes priority t steps = (one i, none_reads i, awake i)
  where
    i : Inv t
    i = Steps-Inv priority steps Inv-new

    one : Inv t → t.writing ≤ 1
    one i = ground (arith)

    none_reads : Inv t → 0 < t.writing → t.reading ≡ 0
    none_reads i h = ground (arith)

    awake :
        Inv t
        → writers t ≡ 0
        → (should_wait priority t.lock ≡ false) × (t.lock.no_writer_event ≡ true)
    awake i h = ground (arith)

Step-lost : (priority : Bool) {s t : Table} → Step priority s t → 0 < s.lost → 0 < t.lost
Step-lost priority (reader_raises g) h = omega arith
Step-lost priority (reader_counts g) h = h
Step-lost priority (reader_starts g) h = h
Step-lost priority (reader_ends g) h = h
Step-lost priority writer_marks h = h
Step-lost priority (writer_locks g k) h = h
Step-lost priority (writer_sees_no_reader g k) h = h
Step-lost priority (writer_starts g) h = h
Step-lost priority (writer_ends g) h = h
Step-lost priority (writer_unlocks g) h = h
Step-lost priority (waiting_writer_cancelled g) h = h
Step-lost priority (draining_writer_cancelled g) h = h
Step-lost priority (writer_unmarks g) h = h

Steps-lost : (priority : Bool) {s t : Table} → Steps priority s t → 0 < s.lost → 0 < t.lost
Steps-lost priority no_steps h = h
Steps-lost priority (then_step before step) h =
    Step-lost priority step (Steps-lost priority before h)

-- A reader that was counted and then left by an exception, before the `try` that takes it off the
-- count, keeps every writer out from then on, whatever anyone does.
pub lost_reader_blocks_writers :
    (priority : Bool) (s t : Table)
    → Steps priority new_table s
    → 0 < s.lost
    → Steps priority s t
    → t.writing ≡ 0
lost_reader_blocks_writers priority s t before lost after =
    none_writes (Steps-Inv priority after (Steps-Inv priority before Inv-new))
      (Steps-lost priority after lost)
  where
    none_writes : Inv t → 0 < t.lost → t.writing ≡ 0
    none_writes i h = ground (arith)

Steps-prepend :
    {priority : Bool} {s t u : Table} → Step priority s t → Steps priority t u → Steps priority s u
Steps-prepend step no_steps = then_step no_steps step
Steps-prepend step (then_step more last) = then_step (Steps-prepend step more) last

abbrev Writes : Bool → Table → Type 0
Writes priority t = (u : Table) × Steps priority t u × (u.writing ≡ 1)

Writes-prepend :
    {priority : Bool} {s t : Table} → Step priority s t → Writes priority t → Writes priority s
Writes-prepend step (u, steps, e) = (u, Steps-prepend step steps, e)

-- The readers that a writer waits for can all finish, and then it starts.
drain :
    (priority : Bool) (n : ℕ) (t : Table)
    → t.entering + t.entering + t.reading ≡ n
    → Inv t
    → 0 < t.draining
    → t.lost ≡ 0
    → Writes priority t
drain priority zero t e i d l =
    (_, then_step (then_step no_steps sees) (writer_starts (omega arith)), ground (arith, i.owner))
  where
    sees : Step priority t (record t { draining = t.draining - 1; drained = t.drained + 1 })
    sees = writer_sees_no_reader d (omega (arith, i.readers))
drain priority (suc n) t e i d l =
    let starts =
      drain priority n (record t { entering = t.entering - 1; reading = t.reading + 1 }) in
    let ends = drain priority n (record t { lock = exit_read t.lock; reading = t.reading - 1 }) in
    elim (dec_lt 0 t.entering) [
      | yes enters ↦
          let step : Step priority t _ = reader_starts enters in
          Writes-prepend step (starts (omega arith) (Step-Inv priority step i) d l)
      | no none_enters ↦
          let step : Step priority t _ = reader_ends (omega arith) in
          Writes-prepend step (ends (omega arith) (Step-Inv priority step i) d l)
    ]

-- No writer waits in vain: while no reader was lost, from every point at which a writer holds the
-- inner lock and waits, the readers that are in can finish one after the other, and then the
-- writer starts.
pub waiting_writer_starts :
    (priority : Bool) (t : Table)
    → Steps priority new_table t
    → 0 < t.draining
    → t.lost ≡ 0
    → (u : Table) × Steps priority t u × (u.writing ≡ 1)
waiting_writer_starts priority t steps waits none_lost =
    drain priority (t.entering + t.entering + t.reading) t refl (Steps-Inv priority steps Inv-new)
      waits none_lost
