-- ===== src/CountdownQueue/Draining.antt =====
-- Getting messages out of the queue of pokerapp/services/countdown_queue.py, and emptying it.
use mathlib.Core.Path.{subst}
use poker_telegram_bot.Prelude.{
  Distinct, ℕ, zero, suc, ◌+◌, ◌-◌, ◌≤◌, ◌≡◌, inl, inr, refl, sym, ap, ◌∙◌, true, Option, none,
  some, List, [], ◌∷◌, length, get_elem?, ◌==◌, contains, Bool-cases, arith,
}
use poker_telegram_bot.CountdownQueue.{
  CountdownMessage, CountdownQueue, same_key, tracked, untrack, cancel_entries, key_of, get, forget,
  drain, clear_all,
}
use poker_telegram_bot.CountdownQueue.Entries.{
  length-cancel_entries, same_key→eq, tracked-untrack_ne,
}
use poker_telegram_bot.CountdownQueue.Tracked.{IsTracked}

pub get-IsTracked :
    (q q' : CountdownQueue) (r : ℕ) (got : List ℕ)
    → get q ≡ some (r, q')
    → IsTracked q got
    → IsTracked q' (r ∷ got)
unfolding get
get-IsTracked q q' r got h t = by_waiting q.waiting refl
  where
    by_waiting : (rs : List ℕ) → q.waiting ≡ rs → IsTracked q' (r ∷ got)
    by_waiting [] e = absurd (ground (arith, e))
    by_waiting (i ∷ rs) e =
        let first : i ≡ r = ground (arith, e) in
        let same : record q { waiting = rs } ≡ q' = ground (arith, e) in
        let each : Distinct (i ∷ rs) = rw e at t.once in
        let inside : (j : ℕ) → contains rs j ≡ true → contains q.waiting j ≡ true =
          λ j k. ground (arith, e) in
        subst (λ x. IsTracked x (r ∷ got)) same
          (record {
            live = λ j m l.
                t.live j m (record { waits = inside j l.waits; at = l.at; alive = l.alive });
            known = λ j k. t.known j (inside j k);
            taken = λ j k. elim (Bool-cases (r == j)) [
              | inl e' ↦ t.known j (ground (arith, e, first, e'))
              | inr e' ↦ t.taken j (ground (arith, e', k))
            ];
            apart = λ j k. elim (Bool-cases (r == j)) [
              | inl e' ↦
                  let here : i ≡ j = ground (arith, first, e') in
                  ap (λ x. contains rs x) (sym here) ∙ each.0
              | inr e' ↦ let away = t.apart j (ground (arith, e', k)) in ground (arith, e, away)
            ];
            once = each.1;
            within = λ k. omega (arith, t.within k, ap (λ x. length x) e);
            counted = omega (arith, t.counted, ap (λ x. length x) e);
          })

untracked-IsTracked :
    (r : ℕ) (m : CountdownMessage) (q : CountdownQueue) (got : List ℕ)
    → contains got r ≡ true
    → tracked (key_of m) q.active_countdowns ≡ some r
    → IsTracked q got
    → IsTracked (record q { active_countdowns = untrack (key_of m) q.active_countdowns }) got
untracked-IsTracked r m q got h e t = record {
  live = λ j k l.
      let found = t.live j k (record { waits = l.waits; at = l.at; alive = l.alive }) in
      elim (Bool-cases (same_key (key_of m) (key_of k))) [
        | inl s ↦
            let key = same_key→eq (key_of m) (key_of k) s in
            let again = ap (λ x. tracked x q.active_countdowns) key ∙ found in
            let here : r ≡ j = ground (arith, sym e ∙ again) in
            absurd (ground (arith, t.apart r h, here, l.waits))
        | inr n ↦ tracked-untrack_ne (key_of m) (key_of k) q.active_countdowns n ∙ found
      ];
  known = t.known;
  taken = t.taken;
  apart = t.apart;
  once = t.once;
  within = t.within;
  counted = t.counted;
}

pub forget-IsTracked :
    (r : ℕ) (q : CountdownQueue) (got : List ℕ)
    → contains got r ≡ true
    → IsTracked q got
    → IsTracked (forget r q) got
unfolding forget
forget-IsTracked r q got h t = by_message (get_elem? q.messages r) refl
  where
    by_message :
        (o : Option CountdownMessage) → get_elem? q.messages r ≡ o → IsTracked (forget r q) got
    by_message none e = rw (forget, e) t
    by_message (some m) e = by_entry (tracked (key_of m) q.active_countdowns) refl
      where
        by_entry :
            (o : Option ℕ) → tracked (key_of m) q.active_countdowns ≡ o → IsTracked (forget r q) got
        by_entry none e' = rw (forget, e, e') t
        by_entry (some i) e' = elim (Bool-cases (i == r)) [
          | inr other ↦ rw (forget, e, e', other) t
          | inl same ↦
              rw (forget, e, e', same)
                (untracked-IsTracked r m q got h (ground (arith, e', same)) t)
        ]

drain_lem : (rs : List ℕ) (n : ℕ) → length rs ≤ n → drain rs n ≡ (([], n - length rs), length rs)
drain_lem [] n h = ground (arith)
drain_lem (r ∷ rs) zero h = absurd (omega arith)
drain_lem (r ∷ rs) (suc n) h = ground (arith, drain_lem rs n (omega arith))

-- `clear_all` leaves nothing waiting and nothing tracked.
pub cleared :
    (q : CountdownQueue) (got : List ℕ)
    → IsTracked q got
    → clear_all q ≡ (
      length q.active_countdowns + length q.waiting,
      record q {
        messages = cancel_entries q.active_countdowns q.messages;
        waiting = [];
        unfinished = q.unfinished - length q.waiting;
        active_countdowns = [];
      },
    )
unfolding clear_all
cleared q got t = rw (drain_lem q.waiting q.unfinished t.counted) refl

pub clear_all-IsTracked :
    (q : CountdownQueue) (got : List ℕ) → IsTracked q got → IsTracked (clear_all q).1 got
clear_all-IsTracked q got t = rw (cleared q got t) (record {
  live = λ r m l. absurd (ground (arith, l.waits));
  known = λ r h. absurd (ground (arith));
  taken = λ r h. rw (length-cancel_entries q.active_countdowns q.messages) (t.taken r h);
  apart = λ r h. refl;
  once = tt;
  within = λ h. omega arith;
  counted = omega arith;
})
