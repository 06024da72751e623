-- ===== src/Locks/Batches/OneLevel.antt =====
-- `acquire_batch` of pokerapp/lock_manager.py never gets locks of two levels.
use mathlib.Core.Path.{subst}
use Prim.Native.String.{String}
use text.Mathlib.Text.{◌==◌ as str_eq}
use text.Mathlib.TextEquality.{eq_iff}
use poker_telegram_bot.Prelude.{
  ◌≡◌, ◌≢◌, refl, sym, ap, ◌∙◌, inl, inr, true, false, List, [], ◌∷◌, All, Bool-cases, Option-cases,
  ℤ, pos, negsuc, arith,
}
use poker_telegram_bot.Locks.Levels.{LockAcquisition, below, find_lock_record}
use poker_telegram_bot.Locks.Batches.{
  Settings, Meets, got, Acquired, answers, raises, AcquireError, refusal, slow_path, acquire,
  listed, unique_keys, sort_by_level, level_in, BatchEnd, yields, raises_out, after_key,
  acquire_keys, acquire_batch,
}
use poker_telegram_bot.Locks.Batches.Sorting.{Ascending, times, batch_order}
use poker_telegram_bot.Locks.Batches.Levels.{Flat, Added, acquire-Added}

below_self : (a : ℤ) → below a a ≡ false
below_self (pos n) = ground (arith)
below_self (negsuc n) = ground (arith)

module _ (st : Settings) (meets : String → Meets)
    (closed : (k : String) → (meets k).circuit_broken ≡ false) where
  -- From locks of one level on, the keys got are of that level too.
  later_keys :
      (level : ℤ) (held : List LockAcquisition) (ks : List String)
      → Flat st level held
      → All (λ k. below (level_in st k) level ≡ false) ks
      → held ≢ []
      → All (λ k. level_in st k ≡ level) (acquire_keys st meets held ks).acquired
  unfolding acquire_keys
  later_keys level held [] f a n = tt
  later_keys level held (k ∷ ks) f a n =
      by_answer (acquire st (meets k) held k)
        (acquire-Added st level held k f a.0 (λ z. absurd (n z)) (meets k) (closed k))
        (λ held' f' n'. later_keys level held' ks f' a.1 n')
    where
      by_answer :
          (x : Acquired × List LockAcquisition)
          → (x.0 ≡ answers true → Added st level k x.1)
          → ((held' : List LockAcquisition)
              → Flat st level held'
              → held' ≢ []
              → All (λ j. level_in st j ≡ level) (acquire_keys st meets held' ks).acquired)
          → All (λ j. level_in st j ≡ level) (after_key k x (acquire_keys st meets x.1 ks)).acquired
      by_answer (answers true, held') h ih =
          let added = h refl in (added.of_level, ih held' added.flat added.some_held)
      by_answer (answers false, held') h ih = tt
      by_answer (raises x, held') h ih = tt

  all_keys :
      (ks : List String)
      → Ascending (level_in st) ks
      → (level : ℤ) × All (λ k. level_in st k ≡ level) (acquire_keys st meets [] ks).acquired
  unfolding acquire_keys
  all_keys [] up = (st.default_level, tt)
  all_keys (k ∷ ks) up = (
    level_in st k,
    by_answer (acquire st (meets k) [] k) (
        acquire-Added st (level_in st k) [] k tt (below_self (level_in st k)) (λ z. refl) (meets k)
          (closed k)),
  )
    where
      by_answer :
          (x : Acquired × List LockAcquisition)
          → (x.0 ≡ answers true → Added st (level_in st k) k x.1)
          → All
              (λ j. level_in st j ≡ level_in st k)
              (after_key k x (acquire_keys st meets x.1 ks)).acquired
      by_answer (answers true, held') h =
          let added = h refl in
          (refl, later_keys (level_in st k) held' ks added.flat up.0 added.some_held)
      by_answer (answers false, held') h = tt
      by_answer (raises x, held') h = tt

-- Starting with no lock and no broken circuit, all the locks that a batch gets have one level,
-- whatever the batch meets and however it ends.
pub batch_one_level :
    (st : Settings) (meets : String → Meets) (keys : List String)
    → ((k : String) → (meets k).circuit_broken ≡ false)
    → (level : ℤ) × All (λ k. level_in st k ≡ level) (acquire_batch st meets [] keys).acquired
unfolding acquire_batch
batch_one_level st meets keys closed =
    all_keys st meets closed (sort_by_level (level_in st) (unique_keys [] keys))
      (batch_order st keys).0

-- What a call meets where the lock is free, and nothing is amiss.
pub record Free (m : Meets) : Type 0 where
  pub running : m.shutting_down ≡ false
  pub closed : m.circuit_broken ≡ false
  pub gets : m.reply ≡ got

slow_not_refused :
    (st : Settings) (m : Meets) (held : List LockAcquisition) (key : String)
    → m.reply ≡ got
    → (slow_path st m held key (level_in st key)).0 ≢ answers false
unfolding slow_path
slow_not_refused st m held key g h = elim (Option-cases (find_lock_record held key)) [
  | inr (b, e) ↦
      let same : (slow_path st m held key (level_in st key)).0 ≡ answers true =
        rw (slow_path, e) refl in
      absurd (cc)
  | inl e ↦ elim (Option-cases (refusal st held key (level_in st key))) [
    | inr (x, r) ↦
        let same : (slow_path st m held key (level_in st key)).0 ≡ raises x =
          rw (slow_path, e, r) refl in
        absurd (cc)
    | inl r ↦
        let same : (slow_path st m held key (level_in st key)).0 ≡ answers true =
          rw (slow_path, e, r, g) refl in
        absurd (cc)
  ]
]

not_refused :
    (st : Settings) (m : Meets) (held : List LockAcquisition) (key : String)
    → Free m
    → (acquire st m held key).0 ≢ answers false
unfolding acquire
not_refused st m held key f h = elim (Bool-cases m.free_at_once) [
  | inr busy ↦
      let same : acquire st m held key ≡ slow_path st m held key (level_in st key) =
        rw (acquire, f.running, f.closed, busy) refl in
      slow_not_refused st m held key f.gets (ap (λ x. x.0) (sym same) ∙ h)
  | inl free ↦ elim (Option-cases (refusal st held key (level_in st key))) [
    | inl r ↦
        let same : (acquire st m held key).0 ≡ answers true =
          rw (acquire, f.running, f.closed, free, r) refl in
        absurd (cc)
    | inr (e, r) ↦
        let same : acquire st m held key ≡ slow_path st m held key (level_in st key) =
          rw (acquire, f.running, f.closed, free, r) refl in
        slow_not_refused st m held key f.gets (ap (λ x. x.0) (sym same) ∙ h)
  ]
]

all_got :
    (st : Settings) (meets : String → Meets) (held : List LockAcquisition) (ks : List String)
    → ((k : String) → Free (meets k))
    → (acquire_keys st meets held ks).ended ≡ yields
    → (acquire_keys st meets held ks).acquired ≡ ks
unfolding acquire_keys
all_got st meets held [] f h = refl
all_got st meets held (k ∷ ks) f h =
    by_answer (acquire st (meets k) held k) (not_refused st (meets k) held k (f k)) h
      (λ held' h'. all_got st meets held' ks f h')
  where
    by_answer :
        (x : Acquired × List LockAcquisition)
        → x.0 ≢ answers false
        → (after_key k x (acquire_keys st meets x.1 ks)).ended ≡ yields
        → ((held' : List LockAcquisition)
            → (acquire_keys st meets held' ks).ended ≡ yields
            → (acquire_keys st meets held' ks).acquired ≡ ks)
        → (after_key k x (acquire_keys st meets x.1 ks)).acquired ≡ k ∷ ks
    by_answer (answers true, held') n h ih = ap (λ xs. k ∷ xs) (ih held' h)
    by_answer (answers false, held') n h ih = absurd (n refl)
    by_answer (raises x, held') n h ih = absurd (cc)

among :
    (P : String → Type 0) (key : String) (ks : List String) → times key ks ≡ 1 → All P ks → P key
among P key [] h a = absurd (omega (arith, h))
among P key (k ∷ ks) h a = elim (Bool-cases (str_eq k key)) [
  | inl e ↦ subst P ((eq_iff k key).0 e) a.0
  | inr e ↦ among P key ks (ground (arith, h, e)) a.1
]

-- Even where every lock is free, a batch that is asked for keys of two levels does not get them:
-- it raises an error.
pub two_levels_raise :
    (st : Settings) (meets : String → Meets) (keys : List String) (k k' : String)
    → ((j : String) → Free (meets j))
    → listed keys k ≡ true
    → listed keys k' ≡ true
    → level_in st k ≢ level_in st k'
    → (e : AcquireError) × ((acquire_batch st meets [] keys).ended ≡ raises_out e)
unfolding acquire_batch
two_levels_raise st meets keys k k' free h h' differ =
    by_end (acquire_batch st meets [] keys).ended refl
  where
    sorted : List String
    sorted = sort_by_level (level_in st) (unique_keys [] keys)

    level_of_key :
        (acquire_batch st meets [] keys).ended ≡ yields
        → (key : String) → listed keys key ≡ true
        → level_in st key ≡ (batch_one_level st meets keys (λ j. (free j).closed)).0
    level_of_key y key l =
        let (level, flat) = batch_one_level st meets keys (λ j. (free j).closed) in
        let whole : All (λ j. level_in st j ≡ level) sorted =
          subst (λ ks. All (λ j. level_in st j ≡ level) ks) (all_got st meets [] sorted free y)
            flat in
        among (λ j. level_in st j ≡ level) key sorted
          (ground (arith, (batch_order st keys).1 key, l)) whole

    by_end :
        (b : BatchEnd)
        → (acquire_batch st meets [] keys).ended ≡ b
        → (e : AcquireError) × ((acquire_batch st meets [] keys).ended ≡ raises_out e)
    by_end (raises_out e) same = (e, same)
    by_end yields y = absurd (differ (level_of_key y k h ∙ sym (level_of_key y k' h')))
