-- ===== src/CountdownQueue/Entries.antt =====
-- The table of active countdowns and the store of messages of
-- pokerapp/services/countdown_queue.py: what a lookup finds after a change.
use poker_telegram_bot.Prelude.{
  ℕ, zero, suc, ◌≡◌, inl, inr, refl, ap, ◌∙◌, Bool, true, false, some, List, [], ◌∷◌, length,
  get_elem?, keep, map, contains, Bool-cases, arith,
}
use poker_telegram_bot.CountdownQueue.{
  CountdownMessage, same_key, tracked, untrack, track, cancel_at, cancel_entries, key_of,
}

-- A message of the store, before the messages `rs` were cancelled.
pub record Was (i : ℕ) (rs : List ℕ) (ms : List CountdownMessage) (m' : CountdownMessage)
    : Type 0 where
  pub old : CountdownMessage
  pub at : get_elem? ms i ≡ some old
  pub key : key_of m' ≡ key_of old
  pub alive : m'.cancelled ≡ false → (old.cancelled ≡ false) × (contains rs i ≡ false)

abbrev pub refs : List ((ℕ × ℕ) × ℕ) → List ℕ
refs es = map (λ e. e.1) es

cancel_at-Was :
    (r i : ℕ) (ms : List CountdownMessage) (m' : CountdownMessage)
    → get_elem? (cancel_at r ms) i ≡ some m'
    → Was i (r ∷ []) ms m'
cancel_at-Was r i [] m' h = absurd (ground (arith))
cancel_at-Was zero zero (m ∷ ms) m' h = record {
  old = m;
  at = refl;
  key = cc;
  alive = λ k. absurd (cc);
}
cancel_at-Was zero (suc i) (m ∷ ms) m' h = record {
  old = m';
  at = h;
  key = refl;
  alive = λ k. (k, ground (arith));
}
cancel_at-Was (suc r) zero (m ∷ ms) m' h = record {
  old = m;
  at = refl;
  key = cc;
  alive = λ k. (cc, ground (arith));
}
cancel_at-Was (suc r) (suc i) (m ∷ ms) m' h =
    let was = cancel_at-Was r i ms m' h in
    record {
      old = was.old;
      at = was.at;
      key = was.key;
      alive = λ k. ((was.alive k).0, ground (arith, (was.alive k).1));
    }

pub cancel_entries-Was :
    (es : List ((ℕ × ℕ) × ℕ)) (i : ℕ) (ms : List CountdownMessage) (m' : CountdownMessage)
    → get_elem? (cancel_entries es ms) i ≡ some m'
    → Was i (refs es) ms m'
cancel_entries-Was [] i ms m' h = record { old = m'; at = h; key = refl; alive = λ k. (k, refl) }
cancel_entries-Was ((k, r) ∷ es) i ms m' h =
    let later = cancel_entries-Was es i (cancel_at r ms) m' h in
    let first = cancel_at-Was r i ms later.old later.at in
    record {
      old = first.old;
      at = first.at;
      key = later.key ∙ first.key;
      alive = λ l.
          let (l', out) = later.alive l in
          let (l'', out') = first.alive l' in (l'', ground (arith, out, out'));
    }

pub length-cancel_at : (r : ℕ) (ms : List CountdownMessage) → length (cancel_at r ms) ≡ length ms
length-cancel_at r [] = refl
length-cancel_at zero (m ∷ ms) = refl
length-cancel_at (suc r) (m ∷ ms) = ap suc (length-cancel_at r ms)

pub length-cancel_entries :
    (es : List ((ℕ × ℕ) × ℕ)) (ms : List CountdownMessage)
    → length (cancel_entries es ms) ≡ length ms
length-cancel_entries [] ms = refl
length-cancel_entries ((k, r) ∷ es) ms =
    length-cancel_entries es (cancel_at r ms) ∙ length-cancel_at r ms

pub same_key_self : (k : ℕ × ℕ) → same_key k k ≡ true
same_key_self (c, m) = ground (arith)

pub same_key→eq : (k k' : ℕ × ℕ) → same_key k k' ≡ true → k ≡ k'
same_key→eq (c, m) (c', m') h =
    let e : c ≡ c' = ground (arith) in let e' : m ≡ m' = ground (arith) in cc

pub tracked-track_self :
    (key : ℕ × ℕ) (i : ℕ) (es : List ((ℕ × ℕ) × ℕ)) → tracked key (track key i es) ≡ some i
tracked-track_self key i [] = rw (same_key_self key) refl
tracked-track_self key i ((k, r) ∷ es) = elim (Bool-cases (same_key k key)) [
  | inl e ↦ rw (e, e) refl
  | inr e ↦ rw (e, e) (tracked-track_self key i es)
]

pub tracked-track_ne :
    (key other : ℕ × ℕ) (i : ℕ) (es : List ((ℕ × ℕ) × ℕ))
    → same_key key other ≡ false
    → tracked other (track key i es) ≡ tracked other es
tracked-track_ne key other i [] h = rw h refl
tracked-track_ne key other i ((k, r) ∷ es) h = elim (Bool-cases (same_key k key)) [
  | inl e ↦
      let away : same_key k other ≡ false = ap (λ x. same_key x other) (same_key→eq k key e) ∙ h in
      ground (arith, e, away)
  | inr e ↦ ground (arith, e, tracked-track_ne key other i es h)
]

pub tracked-untrack_ne :
    (key other : ℕ × ℕ) (es : List ((ℕ × ℕ) × ℕ))
    → same_key key other ≡ false
    → tracked other (untrack key es) ≡ tracked other es
tracked-untrack_ne key other [] h = refl
tracked-untrack_ne key other ((k, r) ∷ es) h = elim (Bool-cases (same_key k key)) [
  | inl e ↦
      let away : same_key k other ≡ false = ap (λ x. same_key x other) (same_key→eq k key e) ∙ h in
      ground (arith, e, away)
  | inr e ↦ ground (arith, e, tracked-untrack_ne key other es h)
]

-- An entry that a lookup finds and that passes a test stands among those that pass it, first.
pub tracked-keep :
    (f : (ℕ × ℕ) × ℕ → Bool) (key : ℕ × ℕ) (r : ℕ) (es : List ((ℕ × ℕ) × ℕ))
    → tracked key es ≡ some r
    → f (key, r) ≡ true
    → (tracked key (keep f es) ≡ some r) × (contains (refs (keep f es)) r ≡ true)
tracked-keep f key r [] h t = absurd (cc)
tracked-keep f key r ((k, i) ∷ es) h t = elim (Bool-cases (same_key k key)) [
  | inl e ↦
      let same : i ≡ r = ground (arith, e) in
      let here : k ≡ key = same_key→eq k key e in
      let passes : f (k, i) ≡ true = cc in rw passes (ground (arith, e, same), ground (arith, same))
  | inr e ↦
      let (found, among) = tracked-keep f key r es (rw e at h) t in
      elim (Bool-cases (f (k, i))) [
        | inl passes ↦ rw passes (ground (arith, e, found), ground (arith, among))
        | inr fails ↦ rw fails (found, among)
      ]
]
