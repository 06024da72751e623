-- ===== src/CountdownQueue.antt =====
-- `CountdownMessageQueue` of pokerapp/services/countdown_queue.py. A message is an object that the
-- queue, the table of active countdowns and the worker share: it has an index here, and what may
-- change of it stands in the store `messages`. Its text, time and callbacks are left out. The
-- anchor key is the text that `anchor_value` has. No body of the tracking lock waits, so a method is
-- one step, but `dequeue` is two: the worker may be suspended when it has its message.
pub mod Entries
pub mod Tracked
pub mod Queueing
pub mod Draining
pub mod Runs
use Prim.Native.String.{String}
use text.Mathlib.Text.{◌==◌ as str_eq}
use poker_telegram_bot.Prelude.{
  ℕ, zero, suc, ◌+◌, Bool, true, false, not, ◌&&◌, Option, none, some, List, [], ◌∷◌, ◌++◌, length,
  get_elem?, leb, ltb, ◌==◌, if◌then◌else◌, keep, map,
}

pub record CountdownMessage : Type 0 where
  pub chat_id : ℕ
  pub message_id : ℕ
  pub anchor_key : String
  pub cancelled : Bool

-- `maxsize` and the count of unfinished items are the asyncio queue's.
pub record CountdownQueue : Type 0 where
  pub maxsize : ℕ
  pub messages : List CountdownMessage
  pub waiting : List ℕ
  pub unfinished : ℕ
  pub active_countdowns : List ((ℕ × ℕ) × ℕ)

abbrev pub same_key : ℕ × ℕ → ℕ × ℕ → Bool
same_key (c, m) (c', m') = (c == c') && (m == m')

-- `self._active_countdowns.get(key)`
abbrev pub tracked : ℕ × ℕ → List ((ℕ × ℕ) × ℕ) → Option ℕ
tracked key [] = none
tracked key ((k, r) ∷ es) = if same_key k key then some r else tracked key es

abbrev pub untrack : ℕ × ℕ → List ((ℕ × ℕ) × ℕ) → List ((ℕ × ℕ) × ℕ)
untrack key [] = []
untrack key ((k, r) ∷ es) = if same_key k key then es else (k, r) ∷ untrack key es

-- `self._active_countdowns[key] = msg`
abbrev pub track : ℕ × ℕ → ℕ → List ((ℕ × ℕ) × ℕ) → List ((ℕ × ℕ) × ℕ)
track key i [] = (key, i) ∷ []
track key i ((k, r) ∷ es) = if same_key k key then (k, i) ∷ es else (k, r) ∷ track key i es

-- `msg.cancelled = True`
abbrev pub cancel_at : ℕ → List CountdownMessage → List CountdownMessage
cancel_at r [] = []
cancel_at zero (m ∷ ms) = record m { cancelled = true } ∷ ms
cancel_at (suc r) (m ∷ ms) = m ∷ cancel_at r ms

abbrev pub cancel_entries : List ((ℕ × ℕ) × ℕ) → List CountdownMessage → List CountdownMessage
cancel_entries [] ms = ms
cancel_entries ((k, r) ∷ es) ms = cancel_entries es (cancel_at r ms)

abbrev pub new_queue : ℕ → CountdownQueue
new_queue n = record {
  maxsize = n;
  messages = [];
  waiting = [];
  unfinished = 0;
  active_countdowns = [];
}

abbrev pub is_full : CountdownQueue → Bool
is_full q = ltb 0 q.maxsize && leb q.maxsize (length q.waiting)

abbrev pub cancel_tracked : Option ℕ → List CountdownMessage → List CountdownMessage
cancel_tracked none ms = ms
cancel_tracked (some r) ms = cancel_at r ms

-- `enqueue`: `none` is `QueueFull`.
unfoldable pub enqueue : ℕ → ℕ → String → CountdownQueue → Option (ℕ × CountdownQueue)
enqueue c m anchor q =
    if is_full q
    then none
    else some (
      length q.messages,
      record q {
        messages =
            cancel_tracked (tracked (c, m) q.active_countdowns) q.messages
            ++ record { chat_id = c; message_id = m; anchor_key = anchor; cancelled = false } ∷ [];
        waiting = q.waiting ++ length q.messages ∷ [];
        unfinished = suc q.unfinished;
        active_countdowns = track (c, m) (length q.messages) q.active_countdowns;
      },
    )

-- The first half of `dequeue`, `self._queue.get()`.
unfoldable pub get : CountdownQueue → Option (ℕ × CountdownQueue)
get q = elim q.waiting [ [] ↦ none | r ∷ rs ↦ some (r, record q { waiting = rs }) ]

abbrev untrack_if : Bool → ℕ × ℕ → CountdownQueue → CountdownQueue
untrack_if false key q = q
untrack_if true key q = record q { active_countdowns = untrack key q.active_countdowns }

abbrev is_tracked : ℕ → Option ℕ → Bool
is_tracked r none = false
is_tracked r (some i) = i == r

abbrev pub key_of : CountdownMessage → ℕ × ℕ
key_of m = (m.chat_id, m.message_id)

-- The second half of `dequeue`, for a message that was got.
unfoldable pub forget : ℕ → CountdownQueue → CountdownQueue
forget r q = elim (get_elem? q.messages r) [
  | none ↦ q
  | some m ↦ untrack_if (is_tracked r (tracked (key_of m) q.active_countdowns)) (key_of m) q
]

abbrev pub has_anchor : String → List CountdownMessage → (ℕ × ℕ) × ℕ → Bool
has_anchor anchor ms (k, r) = elim (get_elem? ms r) [
  | none ↦ false
  | some m ↦ str_eq m.anchor_key anchor
]

-- `remove_anchor`
unfoldable pub remove_anchor : String → CountdownQueue → CountdownQueue
remove_anchor anchor q = record q {
  messages = cancel_entries (keep (has_anchor anchor q.messages) q.active_countdowns) q.messages;
  active_countdowns = keep (λ e. not (has_anchor anchor q.messages e)) q.active_countdowns;
}

abbrev pub in_chat : ℕ → (ℕ × ℕ) × ℕ → Bool
in_chat c e = e.0.0 == c

-- `cancel_countdown_for_chat`
unfoldable pub cancel_countdown_for_chat : ℕ → CountdownQueue → ℕ × CountdownQueue
cancel_countdown_for_chat c q = (
  length (keep (in_chat c) q.active_countdowns),
  record q { messages = cancel_entries (keep (in_chat c) q.active_countdowns) q.messages },
)

-- `cancel_countdown`
unfoldable pub cancel_countdown : ℕ → ℕ → CountdownQueue → Bool × CountdownQueue
cancel_countdown c m q = elim (tracked (c, m) q.active_countdowns) [
  | none ↦ (false, q)
  | some r ↦ (true, record q { messages = cancel_at r q.messages })
]

-- The loop of `clear_all`, with the count of unfinished items: what is left of both, and how many
-- items were taken out. It ends early where `task_done` raises.
abbrev pub drain : List ℕ → ℕ → (List ℕ × ℕ) × ℕ
drain [] n = (([], n), 0)
drain (r ∷ rs) zero = ((rs, 0), 1)
drain (r ∷ rs) (suc n) = let rest = drain rs n in (rest.0, suc rest.1)

-- `clear_all`
unfoldable pub clear_all : CountdownQueue → ℕ × CountdownQueue
clear_all q =
    let drained = drain q.waiting q.unfinished in
    (
      length q.active_countdowns + drained.1,
      record q {
        messages = cancel_entries q.active_countdowns q.messages;
        waiting = drained.0.0;
        unfinished = drained.0.1;
        active_countdowns = [];
      },
    )
