-- ===== src/CountdownQueue/Queueing.antt =====
-- Putting messages into the queue of pokerapp/services/countdown_queue.py.
use mathlib.Core.Path.{subst}
use poker_telegram_bot.Prelude.{
  contains-append_cases, contains-append_one_ne, Distinct-append_one, ℕ, suc, ◌≡◌, inl, inr, refl,
  sym, ap, ◌∙◌, true, false, Option, none, some, List, [], ◌∷◌, ◌++◌, length, get_elem?, contains,
  Bool-cases, length-append, get_elem?-append_lt, get_elem?-append_end, arith,
}
use Prim.Native.String.{String}
use poker_telegram_bot.CountdownQueue.{
  CountdownMessage, CountdownQueue, same_key, tracked, track, cancel_entries, key_of, is_full,
  enqueue, cancel_tracked,
}
use poker_telegram_bot.CountdownQueue.Entries.{
  refs, cancel_entries-Was, length-cancel_entries, same_key→eq, tracked-track_self,
  tracked-track_ne,
}
use poker_telegram_bot.CountdownQueue.Tracked.{Pending, IsTracked}

abbrev entries : Option ℕ → List ((ℕ × ℕ) × ℕ)
entries none = []
entries (some r) = ((0, 0), r) ∷ []

cancel_tracked_lem :
    (o : Option ℕ) (ms : List CountdownMessage)
    → cancel_tracked o ms ≡ cancel_entries (entries o) ms
cancel_tracked_lem none ms = refl
cancel_tracked_lem (some r) ms = refl

abbrev pub message : ℕ → ℕ → String → CountdownMessage
message c m anchor = record { chat_id = c; message_id = m; anchor_key = anchor; cancelled = false }

-- The queue after a message was put into it.
abbrev put : ℕ → ℕ → String → CountdownQueue → CountdownQueue
put c m anchor q = record q {
  messages =
      cancel_tracked (tracked (c, m) q.active_countdowns) q.messages ++ message c m anchor ∷ [];
  waiting = q.waiting ++ length q.messages ∷ [];
  unfinished = suc q.unfinished;
  active_countdowns = track (c, m) (length q.messages) q.active_countdowns;
}

module _ (c m : ℕ) (anchor : String) (q : CountdownQueue) (got : List ℕ) (t : IsTracked q got) where
  as_long :
      length (cancel_tracked (tracked (c, m) q.active_countdowns) q.messages) ≡ length q.messages
  as_long =
      rw (cancel_tracked_lem (tracked (c, m) q.active_countdowns) q.messages)
        (length-cancel_entries (entries (tracked (c, m) q.active_countdowns)) q.messages)

  longer : length (put c m anchor q).messages ≡ suc (length q.messages)
  longer = ground (
    arith,
    as_long,
    length-append (cancel_tracked (tracked (c, m) q.active_countdowns) q.messages)
        (message c m anchor ∷ []),
  )

  -- A message that waited before and is alive still is the one of its key.
  older :
      (r : ℕ) (k : CountdownMessage)
      → contains q.waiting r ≡ true
      → get_elem? (put c m anchor q).messages r ≡ some k
      → k.cancelled ≡ false
      → tracked (key_of k) (put c m anchor q).active_countdowns ≡ some r
  older r k w at alive =
      let o = tracked (c, m) q.active_countdowns in
      let there : get_elem? (cancel_entries (entries o) q.messages) r ≡ some k =
        ap (λ x. get_elem? x r) (sym (cancel_tracked_lem o q.messages))
        ∙ sym (get_elem?-append_lt (cancel_tracked o q.messages) _ r (rw as_long (t.known r w)))
        ∙ at in
      let was = cancel_entries-Was (entries o) r q.messages k there in
      let (before, out) = was.alive alive in
      let found = t.live r was.old (record { waits = w; at = was.at; alive = before }) in
      let same : tracked (key_of k) q.active_countdowns ≡ some r =
        ap (λ x. tracked x q.active_countdowns) was.key ∙ found in
      elim (Bool-cases (same_key (c, m) (key_of k))) [
        | inl e ↦
            let here : tracked (c, m) q.active_countdowns ≡ some r =
              ap (λ x. tracked x q.active_countdowns) (same_key→eq (c, m) (key_of k) e) ∙ same in
            absurd (ground (arith, ap (λ x. contains (refs (entries x)) r) (sym here) ∙ out))
        | inr e ↦
            tracked-track_ne (c, m) (key_of k) (length q.messages) q.active_countdowns e ∙ same
      ]

  stored_last :
      get_elem? (put c m anchor q).messages (length q.messages) ≡ some (message c m anchor)
  stored_last =
      ap (λ i. get_elem? (put c m anchor q).messages i) (sym as_long)
      ∙ get_elem?-append_end (cancel_tracked (tracked (c, m) q.active_countdowns) q.messages)
          (message c m anchor)

  newest :
      (k : CountdownMessage)
      → get_elem? (put c m anchor q).messages (length q.messages) ≡ some k
      → key_of k ≡ (c, m)
  newest k at = let e = stored_last in cc

  unused : contains q.waiting (length q.messages) ≡ false
  unused = elim (Bool-cases (contains q.waiting (length q.messages))) [
    | inl h ↦ absurd (omega (arith, t.known (length q.messages) h))
    | inr h ↦ h
  ]

  put-IsTracked : is_full q ≡ false → IsTracked (put c m anchor q) got
  put-IsTracked room = record {
    live = λ r k l. elim (contains-append_cases q.waiting (length q.messages) r l.waits) [
      | inl w ↦ older r k w l.at l.alive
      | inr e ↦
          let key = newest k (ap (λ i. get_elem? (put c m anchor q).messages i) (sym e) ∙ l.at) in
          ap (λ x. tracked x (put c m anchor q).active_countdowns) key
          ∙ tracked-track_self (c, m) (length q.messages) q.active_countdowns
          ∙ ap some (sym e)
    ];
    known = λ r h. elim (contains-append_cases q.waiting (length q.messages) r h) [
      | inl w ↦ omega (arith, longer, t.known r w)
      | inr e ↦ omega (arith, longer, e)
    ];
    taken = λ r h. omega (arith, longer, t.taken r h);
    apart = λ r h.
        contains-append_one_ne q.waiting (length q.messages) r (t.apart r h)
          (λ e. omega (arith, e, t.taken r h));
    once = Distinct-append_one q.waiting (length q.messages) t.once unused;
    within = λ h. ground (arith, length-append q.waiting (length q.messages ∷ []), room);
    counted = omega (arith, t.counted, length-append q.waiting (length q.messages ∷ []));
  }

pub enqueue-IsTracked :
    (c m : ℕ) (anchor : String) (q q' : CountdownQueue) (r : ℕ) (got : List ℕ)
    → enqueue c m anchor q ≡ some (r, q')
    → IsTracked q got
    → IsTracked q' got
unfolding enqueue
enqueue-IsTracked c m anchor q q' r got h t = elim (Bool-cases (is_full q)) [
  | inl full ↦ absurd (ground (arith, full))
  | inr room ↦
      let same : put c m anchor q ≡ q' = ground (arith, room) in
      subst (λ x. IsTracked x got) same (put-IsTracked c m anchor q got t room)
]

contains_end : (xs : List ℕ) (y : ℕ) → contains (xs ++ y ∷ []) y ≡ true
contains_end [] y = ground (arith)
contains_end (x ∷ xs) y = ground (arith, contains_end xs y)

pub enqueue-Pending :
    (c m : ℕ) (anchor : String) (q q' : CountdownQueue) (r : ℕ) (got : List ℕ)
    → enqueue c m anchor q ≡ some (r, q')
    → IsTracked q got
    → Pending q' r (message c m anchor)
unfolding enqueue
enqueue-Pending c m anchor q q' r got h t = elim (Bool-cases (is_full q)) [
  | inl full ↦ absurd (ground (arith, full))
  | inr room ↦
      let same : put c m anchor q ≡ q' = ground (arith, room) in
      let here : length q.messages ≡ r = ground (arith, room) in
      subst (λ x. Pending x r (message c m anchor)) same
        (subst (λ i. Pending (put c m anchor q) i (message c m anchor)) here
          (record {
            waits = contains_end q.waiting (length q.messages);
            at = stored_last c m anchor q got t;
            alive = refl;
          }))
]
