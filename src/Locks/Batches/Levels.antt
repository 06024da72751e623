-- ===== src/Locks/Batches/Levels.antt =====
-- The levels of what `acquire_batch` of pokerapp/lock_manager.py holds.
use mathlib.Core.Path.{subst}
use Prim.Native.String.{String}
use text.Mathlib.Text.{◌==◌ as str_eq}
use text.Mathlib.TextEquality.{eq_iff}
use poker_telegram_bot.Prelude.{
  ◌≡◌, ◌≢◌, refl, sym, ap, ◌∙◌, inl, inr, ◌⊎◌, true, false, none, some, List, [], ◌∷◌, All,
  Bool-cases, Option-cases, ℤ, pos, negsuc, arith,
}
use poker_telegram_bot.Locks.Levels.{
  LockAcquisition, below, max_held_level, max_level, validate_lock_order, in_order,
  lock_order_error, OrderVerdict, validate_lock_hierarchy, HierarchyVerdict, passes, name_error,
  record_acquired, find_lock_record,
}
use poker_telegram_bot.Locks.Levels.Order.{validate_lock_order_lem}
use poker_telegram_bot.Locks.Batches.{
  Settings, Meets, LockReply, got, timed_out, interrupted, answers, raises, refusal, count_again,
  wait_for, slow_path, acquire, level_in,
}

below_antisym : (a b : ℤ) → below a b ≡ false → below b a ≡ false → a ≡ b
below_antisym (pos a) (pos b) h k = ap pos (ground (arith))
below_antisym (pos a) (negsuc b) h k = absurd (ground (arith))
below_antisym (negsuc a) (pos b) h k = absurd (ground (arith))
below_antisym (negsuc a) (negsuc b) h k = ap negsuc (ground (arith))

max_level_self : (a : ℤ) → max_level a a ≡ a
max_level_self a = elim (Bool-cases (below a a)) [ inl e ↦ rw e refl | inr e ↦ rw e refl ]

record_acquired_ne :
    (held : List LockAcquisition) (key : String) (l : ℤ) → record_acquired held key l ≢ []
unfolding record_acquired
record_acquired_ne [] key l h = cc
record_acquired_ne (a ∷ rest) key l h = elim (Bool-cases (str_eq a.key key)) [
  | inl k ↦ absurd (ground (arith, k))
  | inr k ↦ absurd (ground (arith, k))
]

count_again_ne :
    (a : LockAcquisition) (rest : List LockAcquisition) (key : String)
    → count_again (a ∷ rest) key ≢ []
count_again_ne a rest key h = elim (Option-cases (find_lock_record rest key)) [
  | inr (b, e) ↦ absurd (ground (arith, e))
  | inl e ↦ elim (Bool-cases (str_eq a.key key)) [
    | inl k ↦ absurd (ground (arith, e, k))
    | inr k ↦ absurd (ground (arith, e, k))
  ]
]

found_ne :
    (held : List LockAcquisition) (key : String) (b : LockAcquisition)
    → find_lock_record held key ≡ some b
    → count_again held key ≢ []
unfolding find_lock_record
found_ne [] key b e = absurd (cc)
found_ne (a ∷ rest) key b e = count_again_ne a rest key

module _ (st : Settings) (level : ℤ) where
  -- All that is held has this level, which is the one of its key.
  abbrev pub Flat : List LockAcquisition → Type 0
  Flat held = All (λ a. (a.level ≡ level_in st a.key) × (a.level ≡ level)) held

  Flat-max :
      (a : LockAcquisition) (rest : List LockAcquisition)
      → Flat (a ∷ rest)
      → max_held_level a rest ≡ level
  Flat-max a [] f = f.0.1
  Flat-max a (b ∷ rest) f =
      let later = Flat-max b rest f.1 in
      ap (λ x. max_level x (max_held_level b rest)) f.0.1
      ∙ ap (λ x. max_level level x) later
      ∙ max_level_self level

  Flat-in_order :
      (held : List LockAcquisition) (key : String)
      → Flat held
      → below (level_in st key) level ≡ false
      → validate_lock_order held key (level_in st key) ≡ in_order
      → (held ≡ []) ⊎ (level_in st key ≡ level)
  Flat-in_order [] key f h o = inl refl
  Flat-in_order (a ∷ rest) key f h o =
      let not_above = ((validate_lock_order_lem a rest key (level_in st key)).0 o).0 in
      let top = Flat-max a rest f in
      inr (
        below_antisym (level_in st key) level h
          (ap (λ l. below l (level_in st key)) (sym top) ∙ not_above))

  Flat-record_acquired :
      (held : List LockAcquisition) (key : String)
      → level_in st key ≡ level
      → Flat held
      → Flat (record_acquired held key (level_in st key))
  unfolding record_acquired
  Flat-record_acquired [] key e f = ((refl, e), tt)
  Flat-record_acquired (a ∷ rest) key e f = elim (Bool-cases (str_eq a.key key)) [
    | inl k ↦ rw k (f.0, f.1)
    | inr k ↦ rw k ((refl, e), f)
  ]

  Flat-count_again :
      (held : List LockAcquisition) (key : String) → Flat held → Flat (count_again held key)
  Flat-count_again [] key f = tt
  Flat-count_again (a ∷ rest) key f = elim (Option-cases (find_lock_record rest key)) [
    | inr (b, e) ↦ rw (count_again, e) (f.0, Flat-count_again rest key f.1)
    | inl e ↦ elim (Bool-cases (str_eq a.key key)) [
      | inl k ↦ rw (count_again, e, k) f
      | inr k ↦ rw (count_again, e, k) f
    ]
  ]

  Flat-found :
      (held : List LockAcquisition) (key : String) (b : LockAcquisition)
      → Flat held
      → find_lock_record held key ≡ some b
      → level_in st key ≡ level
  unfolding find_lock_record
  Flat-found [] key b f h = absurd (cc)
  Flat-found (a ∷ rest) key b f h = elim (Bool-cases (str_eq a.key key)) [
    | inr k ↦ Flat-found rest key b f.1 (rw k at h)
    | inl k ↦ ap (λ x. level_in st x) (sym ((eq_iff a.key key).0 k)) ∙ sym f.0.0 ∙ f.0.1
  ]

  -- What a call that answers `True` adds to what is held.
  pub record Added (key : String) (held' : List LockAcquisition) : Type 0 where
    pub of_level : level_in st key ≡ level
    pub flat : Flat held'
    pub some_held : held' ≢ []

  refusal-none :
      (held : List LockAcquisition) (key : String)
      → refusal st held key (level_in st key) ≡ none
      → validate_lock_order held key (level_in st key) ≡ in_order
  unfolding refusal
  refusal-none held key h = by_order (validate_lock_order held key (level_in st key)) refl
    where
      by_order :
          (o : OrderVerdict)
          → validate_lock_order held key (level_in st key) ≡ o
          → validate_lock_order held key (level_in st key) ≡ in_order
      by_order in_order e = e
      by_order lock_order_error e = by_hierarchy (validate_lock_hierarchy held key) refl
        where
          by_hierarchy :
              (v : HierarchyVerdict)
              → validate_lock_hierarchy held key ≡ v
              → validate_lock_order held key (level_in st key) ≡ in_order
          by_hierarchy passes e' = absurd (ground (arith, e, e'))
          by_hierarchy name_error e' = absurd (ground (arith, e, e'))

  module _ (held : List LockAcquisition) (key : String) (f : Flat held)
      (up : below (level_in st key) level ≡ false)
      (start : held ≡ [] → level_in st key ≡ level) where
    new-Added :
        refusal st held key (level_in st key) ≡ none
        → Added key (record_acquired held key (level_in st key))
    new-Added r =
        let e : level_in st key ≡ level =
          elim (Flat-in_order held key f up (refusal-none held key r)) [
            | inl z ↦ start z
            | inr e ↦ e
          ] in
        record {
          of_level = e;
          flat = Flat-record_acquired held key e f;
          some_held = record_acquired_ne held key (level_in st key);
        }

    slow_path-Added :
        (m : Meets)
        → (slow_path st m held key (level_in st key)).0 ≡ answers true
        → Added key (slow_path st m held key (level_in st key)).1
    unfolding slow_path
    slow_path-Added m h = elim (Option-cases (find_lock_record held key)) [
      | inr (b, e) ↦
          let same : slow_path st m held key (level_in st key)
              ≡ (answers true, count_again held key) =
            rw (slow_path, e) refl in
          subst (λ x. Added key x.1) (sym same)
            (record {
              of_level = Flat-found held key b f e;
              flat = Flat-count_again held key f;
              some_held = found_ne held key b e;
            })
      | inl e ↦ elim (Option-cases (refusal st held key (level_in st key))) [
        | inr (x, r) ↦
            let same : slow_path st m held key (level_in st key) ≡ (raises x, held) =
              rw (slow_path, e, r) refl in
            absurd (cc)
        | inl r ↦
            let same : slow_path st m held key (level_in st key)
                ≡ wait_for m.reply held key (level_in st key) =
              rw (slow_path, e, r) refl in
            subst (λ x. Added key x.1) (sym same)
              (by_reply m.reply r (ap (λ x. x.0) (sym same) ∙ h))
      ]
    ]
      where
        by_reply :
            (l : LockReply)
            → refusal st held key (level_in st key) ≡ none
            → (wait_for l held key (level_in st key)).0 ≡ answers true
            → Added key (wait_for l held key (level_in st key)).1
        by_reply got r h = new-Added r
        by_reply timed_out r h = absurd (cc)
        by_reply interrupted r h = absurd (cc)

    pub acquire-Added :
        (m : Meets)
        → m.circuit_broken ≡ false
        → (acquire st m held key).0 ≡ answers true
        → Added key (acquire st m held key).1
    unfolding acquire
    acquire-Added m closed h = elim (Bool-cases m.shutting_down) [
      | inl down ↦ absurd (ground (arith, down))
      | inr up ↦ elim (Bool-cases m.free_at_once) [
        | inr busy ↦
            let same : acquire st m held key ≡ slow_path st m held key (level_in st key) =
              rw (acquire, up, closed, busy) refl in
            subst (λ x. Added key x.1) (sym same) (slow_path-Added m (ap (λ x. x.0) (sym same) ∙ h))
        | inl free ↦ elim (Option-cases (refusal st held key (level_in st key))) [
          | inl r ↦
              let same : acquire st m held key
                  ≡ (answers true, record_acquired held key (level_in st key)) =
                rw (acquire, up, closed, free, r) refl in
              subst (λ x. Added key x.1) (sym same) (new-Added r)
          | inr (e, r) ↦
              let same : acquire st m held key ≡ slow_path st m held key (level_in st key) =
                rw (acquire, up, closed, free, r) refl in
              subst (λ x. Added key x.1) (sym same)
                (slow_path-Added m (ap (λ x. x.0) (sym same) ∙ h))
        ]
      ]
    ]
