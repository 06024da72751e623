-- ===== src/Entities/Callbacks/History.antt =====
-- Which ids `Game.mark_callback_processed` of pokerapp/entities.py remembers and which it lets go.
use mathlib.Core.Path.{subst}
use poker_telegram_bot.Prelude.{
  sym, Distinct, contains-append_one, Distinct-append_one, ℕ, ◌≤◌, ◌<◌, ◌≡◌, ◌≢◌, refl, ◌∙◌, ◌⊎◌,
  inl, inr, ◌||◌, Bool, true, false, some, List, [], ◌∷◌, ◌++◌, length, contains, ltb, ◌==◌,
  if◌then◌else◌, arith, Bool-cases,
}
use poker_telegram_bot.Entities.{Game, callback_history_limit, remove_id}
use poker_telegram_bot.Entities.Callbacks.{
  deque_append, trim, record_callback, mark_callback_processed, Subset, IsTracked,
  length-append_one, contains-remove_ne, length-remove_id, Distinct-remove_id, Subset-append_one,
  Subset-snoc, Subset-remove_id, contains-Subset, not_contains-Subset,
}

trim_stop :
    (seen os : List ℕ) → length seen ≤ callback_history_limit → trim seen os ≡ some (seen, os)
unfolding trim
trim_stop seen [] h = ground arith
trim_stop seen (o ∷ os) h = ground arith

trim_once :
    (seen : List ℕ) (o : ℕ) (os : List ℕ)
    → length seen ≡ 101
    → contains seen o ≡ true
    → trim seen (o ∷ os) ≡ some (remove_id o seen, os)
unfolding trim
trim_once seen o os h c = ground (
  arith,
  length-remove_id seen o c,
  trim_stop (remove_id o seen) os (omega (arith, length-remove_id seen o c)),
)

-- What is remembered after a new id: every id of before and the new one, or, where as many ids are
-- remembered as may be, all of them but one that goes.
abbrev pub Remembered : List ℕ → ℕ → List ℕ → Type 0
Remembered seen a seen' =
    ((length seen < callback_history_limit)
      × ((b : ℕ) → contains seen' b ≡ contains seen b || (b == a)))
    ⊎ (length seen ≡ callback_history_limit)
      × ((o : ℕ) × (contains seen o ≡ true)
          × (contains seen' o ≡ false)
          × ((b : ℕ) → o ≢ b → contains seen' b ≡ contains seen b || (b == a)))

-- One pass of the loop, from a full set, drops the oldest entry of the deque.
evict :
    (seen : List ℕ) (o : ℕ) (os : List ℕ) (a : ℕ)
    → length seen ≡ 101
    → length os ≡ 99
    → Distinct seen
    → Distinct (o ∷ os)
    → Subset (o ∷ os) seen
    → contains os a ≡ true
    → contains seen a ≡ true
    → (r : List ℕ × List ℕ) × (trim seen (o ∷ os) ≡ some r)
      × IsTracked r.0 r.1
      × (contains r.0 a ≡ true)
      × (r.0 ≡ remove_id o seen)
evict seen o os a h k ds do_ sub ca cs =
    let shorter = length-remove_id seen o sub.0 in
    (
      (remove_id o seen, os),
      trim_once seen o os h sub.0,
      record {
        bounded = omega (arith, shorter);
        order_le_seen = omega (arith, shorter);
        seen_le_order = omega (arith, shorter);
        seen_distinct = Distinct-remove_id seen o ds;
        order_distinct = do_.1;
        within = Subset-remove_id os seen o do_.0 sub.1;
      },
      contains-Subset os (remove_id o seen) a (Subset-remove_id os seen o do_.0 sub.1) ca,
      refl,
    )

-- The deque behind an append, once the set is full: its oldest entry and 99 more.
full_order :
    (order : List ℕ) (seen : List ℕ) (a : ℕ)
    → length order ≤ 100
    → 99 ≤ length order
    → Distinct order
    → Subset order seen
    → contains seen a ≡ true
    → contains order a ≡ false
    → (o : ℕ) × (os : List ℕ) × (deque_append order a ≡ o ∷ os)
      × (length os ≡ 99)
      × Distinct (o ∷ os)
      × Subset (o ∷ os) seen
      × (contains os a ≡ true)
full_order [] seen a h k d s c n = absurd (omega arith)
full_order (x ∷ []) seen a h k d s c n = absurd (omega arith)
full_order (x ∷ y ∷ xs) seen a h k d s c n = elim (Bool-cases (length (x ∷ y ∷ xs) == 100)) [
  | inl full ↦ (
    y,
    xs ++ a ∷ [],
    rw full,
    ground (arith, length-append_one xs a),
    Distinct-append_one (y ∷ xs) a d.1 (ground arith),
    Subset-snoc (y ∷ xs) seen a s.1 c,
    ground (arith, contains-append_one xs a a),
  )
  | inr more ↦ (
    x,
    y ∷ xs ++ a ∷ [],
    rw more,
    ground (arith, length-append_one xs a),
    Distinct-append_one (x ∷ y ∷ xs) a d n,
    Subset-snoc (x ∷ y ∷ xs) seen a s c,
    ground (arith, contains-append_one xs a a),
  )
]

room_order :
    (order seen : List ℕ) (a : ℕ)
    → IsTracked seen order
    → length seen < callback_history_limit
    → contains seen a ≡ false
    → IsTracked (seen ++ a ∷ []) (order ++ a ∷ [])
room_order order seen a t h n = record {
  bounded = omega (arith, length-append_one seen a);
  order_le_seen =
      omega (arith, length-append_one seen a, length-append_one order a, t.order_le_seen);
  seen_le_order =
      omega (arith, length-append_one seen a, length-append_one order a, t.seen_le_order);
  seen_distinct = Distinct-append_one seen a t.seen_distinct n;
  order_distinct =
      Distinct-append_one order a t.order_distinct (not_contains-Subset order seen a t.within n);
  within =
      Subset-snoc order (seen ++ a ∷ []) a (Subset-append_one order seen a t.within)
        (ground (arith, contains-append_one seen a a));
}

contains-remove_self : (xs : List ℕ) (o : ℕ) → Distinct xs → contains (remove_id o xs) o ≡ false
contains-remove_self [] o d = refl
contains-remove_self (x ∷ xs) o d = ground (arith, contains-remove_self xs o d.1)

appended : (seen : List ℕ) (a b : ℕ) → contains (seen ++ a ∷ []) b ≡ contains seen b || (b == a)
appended seen a b = ground (arith, contains-append_one seen a b)

other_than : (os : List ℕ) (o a : ℕ) → contains os o ≡ false → contains os a ≡ true → o ≢ a
other_than os o a h k e =
    let found : contains os o ≡ true = subst (λ x. contains os x ≡ true) (sym e) k in absurd (cc)

evicted :
    (seen : List ℕ) (a o : ℕ) (seen' : List ℕ)
    → length seen ≡ callback_history_limit
    → seen' ≡ remove_id o (seen ++ a ∷ [])
    → Distinct (seen ++ a ∷ [])
    → contains (seen ++ a ∷ []) o ≡ true
    → o ≢ a
    → Remembered seen a seen'
evicted seen a o seen' full e d there other =
    let before : contains seen o ≡ true = ground (arith, appended seen a o) in
    let gone : contains seen' o ≡ false =
      subst (λ x. contains x o ≡ false) (sym e) (contains-remove_self (seen ++ a ∷ []) o d) in
    inr (
      full,
      (
        o,
        before,
        gone,
        λ b n.
            subst (λ x. contains x b ≡ contains seen b || (b == a)) (sym e)
              (contains-remove_ne (seen ++ a ∷ []) o b n ∙ appended seen a b),
      ),
    )

-- Recording an unseen id never fails, keeps the bookkeeping and its bound, and the id is
-- remembered afterwards.
record_callback-IsTracked :
    (seen order : List ℕ) (a : ℕ)
    → IsTracked seen order
    → contains seen a ≡ false
    → (r : List ℕ × List ℕ) × (record_callback seen order a ≡ some r)
      × IsTracked r.0 r.1
      × (contains r.0 a ≡ true)
      × Remembered seen a r.0
unfolding record_callback
record_callback-IsTracked seen order a t n =
    elim (Bool-cases (ltb (length seen) callback_history_limit)) [
      | inl room ↦ (
        (seen ++ a ∷ [], order ++ a ∷ []),
        (rw (ap_append order a (ground (arith, t.order_le_seen))) (
            trim_stop (seen ++ a ∷ []) (order ++ a ∷ [])
              (ground (arith, length-append_one seen a)))),
        room_order order seen a t (ground arith) n,
        ground (arith, contains-append_one seen a a),
        inl (ground arith, λ b. appended seen a b),
      )
      | inr full ↦
          let cs : contains (seen ++ a ∷ []) a ≡ true =
            ground (arith, contains-append_one seen a a) in
          let (o, os, e, k, d, s, ca) =
            full_order order (seen ++ a ∷ []) a (omega (arith, t.order_le_seen, t.bounded))
              (ground (arith, t.seen_le_order, t.bounded)) t.order_distinct
              (Subset-append_one order seen a t.within) cs
              (not_contains-Subset order seen a t.within n) in
          let (pair, step, tracked, mine, gone) =
            evict (seen ++ a ∷ []) o os a (ground (arith, length-append_one seen a, t.bounded)) k
              (Distinct-append_one seen a t.seen_distinct n) d s ca cs in
          (
            pair,
            rw e step,
            tracked,
            mine,
            evicted seen a o pair.0 (ground (arith, t.bounded)) gone
                (Distinct-append_one seen a t.seen_distinct n) s.0 (other_than os o a d.0 ca),
          )
    ]
  where
    ap_append :
        (xs : List ℕ) (b : ℕ)
        → length xs < callback_history_limit
        → deque_append xs b ≡ xs ++ b ∷ []
    ap_append xs b h = ground arith

abbrev pub GameTracked : Game → Type 0
GameTracked g = IsTracked g.processed_callbacks g.processed_callback_order

-- On a game whose bookkeeping is in order, `mark_callback_processed` never raises, keeps it in
-- order and leaves the pot and the seats alone. For an id that is remembered it answers `false` and
-- changes nothing; for another one it answers `true`, and remembers the id and all ids of before,
-- except that one of them is forgotten where a hundred were remembered. The same id, when it comes
-- again at once, is answered with `false` and no change.
pub mark_callback_once :
    (g : Game) (a : ℕ)
    → GameTracked g
    → (b : Bool) × (g' : Game) × (mark_callback_processed g a ≡ some (b, g'))
      × (b ≡ (if contains g.processed_callbacks a then false else true))
      × GameTracked g'
      × (((b ≡ false) × (g'.processed_callbacks ≡ g.processed_callbacks))
          ⊎ (b ≡ true) × Remembered g.processed_callbacks a g'.processed_callbacks)
      × (g'.pot ≡ g.pot)
      × (g'.seats ≡ g.seats)
      × (mark_callback_processed g' a ≡ some (false, g'))
unfolding mark_callback_processed
mark_callback_once g a t = elim (Bool-cases (contains g.processed_callbacks a)) [
  | inl known ↦ (false, g, rw known, rw known, t, inl (refl, refl), refl, refl, rw known)
  | inr fresh ↦
      let ((seen, order), e, t', c, kept) =
        record_callback-IsTracked g.processed_callbacks g.processed_callback_order a t fresh in
      (
        true,
        record g { processed_callbacks = seen; processed_callback_order = order },
        rw fresh (rw e),
        rw fresh,
        t',
        inr (refl, kept),
        refl,
        refl,
        rw c,
      )
]

-- When set and deque are both full, the id that goes is not the oldest one, which the bounded
-- deque has already dropped by itself, but the second oldest; the oldest stays in the set and is
-- in the deque no more.
pub record_callback_leak :
    (seen rest : List ℕ) (oldest second a : ℕ)
    → IsTracked seen (oldest ∷ second ∷ rest)
    → length rest ≡ 98
    → contains seen a ≡ false
    → (r : List ℕ × List ℕ) × (record_callback seen (oldest ∷ second ∷ rest) a ≡ some r)
      × (contains r.0 oldest ≡ true)
      × (contains r.1 oldest ≡ false)
      × (contains r.0 second ≡ false)
unfolding record_callback
record_callback_leak seen rest oldest second a t k n =
    let seen' = seen ++ a ∷ [] in
    let sub = Subset-append_one (oldest ∷ second ∷ rest) seen a t.within in
    (
      (remove_id second seen', rest ++ a ∷ []),
      rw full (
          trim_once seen' second (rest ++ a ∷ [])
            (omega (arith, length-append_one seen a, t.bounded, t.order_le_seen)) sub.1.0),
      contains-remove_ne seen' second oldest differ ∙ sub.0,
      ground (arith, contains-append_one rest a oldest, t.order_distinct.0, t.within.0),
      contains-remove_self seen' second (Distinct-append_one seen a t.seen_distinct n),
    )
  where
    full : (length (oldest ∷ second ∷ rest) == 100) ≡ true
    full = ground arith

    differ : second ≢ oldest
    differ = ground (arith, t.order_distinct.0)
