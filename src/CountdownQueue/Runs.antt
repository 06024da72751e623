-- ===== src/CountdownQueue/Runs.antt =====
-- Any run of the queue of pokerapp/services/countdown_queue.py: the calls of its methods, in any
-- order, with other calls between the two halves of `dequeue`.
use poker_telegram_bot.Prelude.{
  ℕ, ◌≤◌, ◌<◌, ◌≡◌, refl, sym, ap, ◌∙◌, true, ◌==◌, get_elem?, some, List, [], ◌∷◌, length,
  contains, inl, inr, Bool-cases, Option-cases, arith,
}
use Prim.Native.String.{String}
use poker_telegram_bot.CountdownQueue.{
  CountdownMessage, CountdownQueue, key_of, tracked, is_full, enqueue, get, forget, remove_anchor,
  cancel_countdown_for_chat, cancel_countdown, clear_all, new_queue,
}
use poker_telegram_bot.CountdownQueue.Tracked.{
  Pending, IsTracked, cancel_countdown_for_chat-IsTracked, cancel_countdown-IsTracked,
  remove_anchor-IsTracked,
}
use poker_telegram_bot.CountdownQueue.Queueing.{message, enqueue-IsTracked, enqueue-Pending}
use poker_telegram_bot.CountdownQueue.Draining.{
  get-IsTracked, forget-IsTracked, clear_all-IsTracked,
}

-- One call, or half of a `dequeue`; `got` are the messages that were taken out so far.
pub data Call : CountdownQueue → List ℕ → CountdownQueue → List ℕ → Type 0 where
  enqueues :
      {q q' : CountdownQueue} {got : List ℕ} (c m : ℕ) (anchor : String) (r : ℕ)
      → enqueue c m anchor q ≡ some (r, q')
      → Call q got q' got
  gets :
      {q q' : CountdownQueue} {got : List ℕ} (r : ℕ)
      → get q ≡ some (r, q')
      → Call q got q' (r ∷ got)
  forgets :
      {q : CountdownQueue} {got : List ℕ} (r : ℕ)
      → contains got r ≡ true
      → Call q got (forget r q) got
  removes_anchor :
      {q : CountdownQueue} {got : List ℕ} (anchor : String)
      → Call q got (remove_anchor anchor q) got
  cancels_chat :
      {q : CountdownQueue} {got : List ℕ} (c : ℕ) → Call q got (cancel_countdown_for_chat c q).1 got
  cancels :
      {q : CountdownQueue} {got : List ℕ} (c m : ℕ) → Call q got (cancel_countdown c m q).1 got
  clears : {q : CountdownQueue} {got : List ℕ} → Call q got (clear_all q).1 got

-- What a new queue of size `n` can become.
pub data Reached (n : ℕ) : CountdownQueue → List ℕ → Type 0 where
  made : Reached n (new_queue n) []
  after :
      {q q' : CountdownQueue} {got got' : List ℕ}
      → Reached n q got
      → Call q got q' got'
      → Reached n q' got'

Call-IsTracked :
    {q q' : CountdownQueue} {got got' : List ℕ}
    → Call q got q' got'
    → IsTracked q got
    → IsTracked q' got'
Call-IsTracked (enqueues c m anchor r e) t = enqueue-IsTracked c m anchor _ _ r _ e t
Call-IsTracked (gets r e) t = get-IsTracked _ _ r _ e t
Call-IsTracked (forgets r e) t = forget-IsTracked r _ _ e t
Call-IsTracked (removes_anchor anchor) t = remove_anchor-IsTracked anchor _ _ t
Call-IsTracked (cancels_chat c) t = cancel_countdown_for_chat-IsTracked c _ _ t
Call-IsTracked (cancels c m) t = cancel_countdown-IsTracked c m _ _ t
Call-IsTracked clears t = clear_all-IsTracked _ _ t

new_queue-IsTracked : (n : ℕ) → IsTracked (new_queue n) []
new_queue-IsTracked n = record {
  live = λ r m l. absurd (ground (arith, l.waits));
  known = λ r h. absurd (ground (arith));
  taken = λ r h. absurd (ground (arith));
  apart = λ r h. refl;
  once = tt;
  within = λ h. omega arith;
  counted = omega arith;
}

Reached-IsTracked : (n : ℕ) {q : CountdownQueue} {got : List ℕ} → Reached n q got → IsTracked q got
Reached-IsTracked n made = new_queue-IsTracked n
Reached-IsTracked n (after run call) = Call-IsTracked call (Reached-IsTracked n run)

-- Whatever calls were made, in any order, at most one message that waits to be sent for a chat's
-- message is not cancelled, and it is the one that the table of active countdowns names.
pub one_live_countdown :
    (n : ℕ) (q : CountdownQueue) (got : List ℕ) (r r' : ℕ) (m m' : CountdownMessage)
    → Reached n q got
    → Pending q r m
    → Pending q r' m'
    → key_of m ≡ key_of m'
    → (r ≡ r') × (tracked (key_of m) q.active_countdowns ≡ some r)
one_live_countdown n q got r r' m m' run l l' same =
    let t = Reached-IsTracked n run in
    let e = t.live r m l in
    let e' = t.live r' m' l' in
    let found = sym e ∙ ap (λ k. tracked k q.active_countdowns) same ∙ e' in
    (ground (arith, found), e)

get-maxsize : (q q' : CountdownQueue) (r : ℕ) → get q ≡ some (r, q') → q'.maxsize ≡ q.maxsize
unfolding get
get-maxsize q q' r h = by_waiting q.waiting refl
  where
    by_waiting : (rs : List ℕ) → q.waiting ≡ rs → q'.maxsize ≡ q.maxsize
    by_waiting [] e = absurd (ground (arith, e))
    by_waiting (i ∷ rs) e = ground (arith, e)

forget-maxsize : (r : ℕ) (q : CountdownQueue) → (forget r q).maxsize ≡ q.maxsize
unfolding forget
forget-maxsize r q = elim (Option-cases (get_elem? q.messages r)) [
  | inl e ↦ ground (arith, e)
  | inr (m, e) ↦ elim (Option-cases (tracked (key_of m) q.active_countdowns)) [
    | inl e' ↦ ground (arith, e, e')
    | inr (i, e') ↦ elim (Bool-cases (i == r)) [
      | inl same ↦ ground (arith, e, e', same)
      | inr other ↦ ground (arith, e, e', other)
    ]
  ]
]

Call-maxsize :
    {q q' : CountdownQueue} {got got' : List ℕ} → Call q got q' got' → q'.maxsize ≡ q.maxsize
unfolding enqueue get forget remove_anchor cancel_countdown_for_chat cancel_countdown clear_all
Call-maxsize {q = q} (enqueues c m anchor r e) = elim (Bool-cases (is_full q)) [
  | inl full ↦ absurd (ground (arith, full))
  | inr room ↦ ground (arith, room)
]
Call-maxsize {q = q} (gets r e) = get-maxsize q _ r e
Call-maxsize {q = q} (forgets r e) = forget-maxsize r q
Call-maxsize (removes_anchor anchor) = refl
Call-maxsize (cancels_chat c) = refl
Call-maxsize {q = q} (cancels c m) = elim (Option-cases (tracked (c, m) q.active_countdowns)) [
  | inl e ↦ ground (arith, e)
  | inr (r, e) ↦ ground (arith, e)
]
Call-maxsize clears = refl

Reached-maxsize : (n : ℕ) {q : CountdownQueue} {got : List ℕ} → Reached n q got → q.maxsize ≡ n
Reached-maxsize n made = refl
Reached-maxsize n (after run call) = Call-maxsize call ∙ Reached-maxsize n run

-- A queue of a size other than 0 never holds more messages than its size, whatever calls were made.
pub waiting_bounded :
    (n : ℕ) (q : CountdownQueue) (got : List ℕ) → Reached n q got → 0 < n → length q.waiting ≤ n
waiting_bounded n q got run h =
    let e = Reached-maxsize n run in
    omega (arith, e, (Reached-IsTracked n run).within (omega (arith, e)))

-- After `enqueue`, the new message waits and is not cancelled, and it is the only one of its key
-- that is so.
pub newest_countdown_live :
    (n c m : ℕ) (anchor : String) (q q' : CountdownQueue) (got : List ℕ) (r : ℕ)
    → Reached n q got
    → enqueue c m anchor q ≡ some (r, q')
    → Pending q' r (message c m anchor)
      × ((j : ℕ) (k : CountdownMessage) → Pending q' j k → key_of k ≡ (c, m) → j ≡ r)
newest_countdown_live n c m anchor q q' got r run e =
    let l = enqueue-Pending c m anchor q q' r got e (Reached-IsTracked n run) in
    (
      l,
      λ j k lk key.
          (one_live_countdown n q' got j r k (message c m anchor)
            (after run (enqueues c m anchor r e)) lk l key).0,
    )
