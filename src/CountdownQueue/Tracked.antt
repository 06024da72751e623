-- ===== src/CountdownQueue/Tracked.antt =====
-- What holds of `CountdownMessageQueue` of pokerapp/services/countdown_queue.py at all times.
use poker_telegram_bot.Prelude.{
  Distinct, ℕ, ◌≤◌, ◌<◌, ◌≡◌, inl, inr, refl, ap, ◌∙◌, true, false, not, Option, none, some, List,
  [], ◌∷◌, length, get_elem?, keep, contains, Bool-cases,
}
use Prim.Native.String.{String}
use poker_telegram_bot.CountdownQueue.{
  CountdownMessage, CountdownQueue, tracked, cancel_entries, key_of, has_anchor, remove_anchor,
  in_chat, cancel_countdown_for_chat, cancel_countdown,
}
use poker_telegram_bot.CountdownQueue.Entries.{
  refs, cancel_entries-Was, length-cancel_entries, tracked-keep,
}

-- A message that waits to be sent and is not cancelled.
pub record Pending (q : CountdownQueue) (r : ℕ) (m : CountdownMessage) : Type 0 where
  pub waits : contains q.waiting r ≡ true
  pub at : get_elem? q.messages r ≡ some m
  pub alive : m.cancelled ≡ false

-- `got` are the messages that the worker has taken out so far.
pub record IsTracked (q : CountdownQueue) (got : List ℕ) : Type 0 where
  pub live :
      (r : ℕ) (m : CountdownMessage)
      → Pending q r m
      → tracked (key_of m) q.active_countdowns ≡ some r
  pub known : (r : ℕ) → contains q.waiting r ≡ true → r < length q.messages
  pub taken : (r : ℕ) → contains got r ≡ true → r < length q.messages
  pub apart : (r : ℕ) → contains got r ≡ true → contains q.waiting r ≡ false
  pub once : Distinct q.waiting
  pub within : 0 < q.maxsize → length q.waiting ≤ q.maxsize
  pub counted : length q.waiting ≤ q.unfinished

-- Cancelling messages keeps what holds, where the lookups of those that stay alive find the same.
pub cancelled-IsTracked :
    (q : CountdownQueue) (got : List ℕ) (es kept : List ((ℕ × ℕ) × ℕ))
    → ((r : ℕ) (m : CountdownMessage)
        → get_elem? q.messages r ≡ some m
        → contains (refs es) r ≡ false
        → tracked (key_of m) q.active_countdowns ≡ some r
        → tracked (key_of m) kept ≡ some r)
    → IsTracked q got
    → IsTracked (record q { messages = cancel_entries es q.messages; active_countdowns = kept }) got
cancelled-IsTracked q got es kept stay t = record {
  live = λ r m l.
      let was = cancel_entries-Was es r q.messages m l.at in
      let (alive, out) = was.alive l.alive in
      let before = t.live r was.old (record { waits = l.waits; at = was.at; alive = alive }) in
      let after = stay r was.old was.at out before in ap (λ k. tracked k kept) was.key ∙ after;
  known = λ r h. rw (length-cancel_entries es q.messages) (t.known r h);
  taken = λ r h. rw (length-cancel_entries es q.messages) (t.taken r h);
  apart = t.apart;
  once = t.once;
  within = t.within;
  counted = t.counted;
}

pub cancel_countdown_for_chat-IsTracked :
    (c : ℕ) (q : CountdownQueue) (got : List ℕ)
    → IsTracked q got
    → IsTracked (cancel_countdown_for_chat c q).1 got
unfolding cancel_countdown_for_chat
cancel_countdown_for_chat-IsTracked c q got t =
    cancelled-IsTracked q got (keep (in_chat c) q.active_countdowns) q.active_countdowns
      (λ r m at out found. found) t

pub cancel_countdown-IsTracked :
    (c m : ℕ) (q : CountdownQueue) (got : List ℕ)
    → IsTracked q got
    → IsTracked (cancel_countdown c m q).1 got
unfolding cancel_countdown
cancel_countdown-IsTracked c m q got t = by_entry (tracked (c, m) q.active_countdowns) refl
  where
    by_entry :
        (o : Option ℕ)
        → tracked (c, m) q.active_countdowns ≡ o
        → IsTracked (cancel_countdown c m q).1 got
    by_entry none e = rw (cancel_countdown, e) t
    by_entry (some r) e =
        rw (cancel_countdown, e)
          (cancelled-IsTracked q got (((c, m), r) ∷ []) q.active_countdowns
            (λ i k at out found. found) t)

pub remove_anchor-IsTracked :
    (anchor : String) (q : CountdownQueue) (got : List ℕ)
    → IsTracked q got
    → IsTracked (remove_anchor anchor q) got
unfolding remove_anchor
remove_anchor-IsTracked anchor q got t =
    cancelled-IsTracked q got (keep (has_anchor anchor q.messages) q.active_countdowns)
      (keep (λ e. not (has_anchor anchor q.messages e)) q.active_countdowns)
      (λ r m at out found. stays r m out found) t
  where
    stays :
        (r : ℕ) (m : CountdownMessage)
        → contains (refs (keep (has_anchor anchor q.messages) q.active_countdowns)) r ≡ false
        → tracked (key_of m) q.active_countdowns ≡ some r
        → tracked (key_of m) (keep (λ e. not (has_anchor anchor q.messages e)) q.active_countdowns)
          ≡ some r
    stays r m out found = elim (Bool-cases (has_anchor anchor q.messages (key_of m, r))) [
      | inl removed ↦
          let (_, among) =
            tracked-keep (has_anchor anchor q.messages) (key_of m) r q.active_countdowns found
              removed in
          absurd (cc)
      | inr other ↦
          (tracked-keep (λ e. not (has_anchor anchor q.messages e)) (key_of m) r q.active_countdowns
            found (rw other refl)).0
    ]
