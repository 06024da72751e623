-- ===== src/Tables/Versions.antt =====
-- Optimistic locking in pokerapp/table_manager.py.
use mathlib.Core.Path.{subst}
use poker_telegram_bot.Prelude.{
  ℕ, suc, ◌+◌, ◌≡◌, ◌<◌, refl, sym, ap, ◌∙◌, inl, inr, Bool, true, false, none, some, List,
  Bool-cases, arith, ◌==◌, ==→eq,
}
use poker_telegram_bot.Cards.{Card}
use poker_telegram_bot.Validator.{Snapshot, IsValid}
use poker_telegram_bot.Tables.{
  pickled, number, Redis, Transaction, undisturbed, watch_error, redis_error, saved, conflict,
  version_number, load_game, find_version, reset_version, get_game_version, load_game_with_version,
  save_game_with_version_check, save_game, incr,
}
use poker_telegram_bot.Tables.Loading.{load_game_found, load-version}

-- A save at the current version that nothing disturbs.
save-undisturbed :
    (g : Snapshot) (n : ℕ) (r : Redis)
    → version_number r.version ≡ n
    → save_game_with_version_check undisturbed g n r
      ≡ (saved, record { game = some (pickled g); version = some (number (n + 1)) })
unfolding save_game_with_version_check
save-undisturbed g n r e = ground (arith)

version-read :
    (later : Redis → Redis) (r : Redis) (n : ℕ)
    → r.version ≡ some (number n)
    → get_game_version later r ≡ (n, r)
unfolding get_game_version find_version
version-read later r n e = ground (arith)

-- What `load_game_with_version` returns for a valid game.
load_version-found :
    (validate : Bool) (id : ℕ) (deck : List Card) (reaches : Bool) (others later : Redis → Redis)
    (r : Redis) (s : Snapshot) (n : ℕ)
    → r.game ≡ some (pickled s)
    → IsValid s
    → (others r).version ≡ some (number n)
    → load_game_with_version validate id deck reaches others later r ≡ ((some s, n), others r)
unfolding load_game_with_version
load_version-found validate id deck reaches others later r s n e valid v =
    let found = load_game_found validate id deck reaches r s e valid in
    let read = version-read later (others r) n v in
    let same_game = found.0 in let same_redis = found.1 in cc

-- The readers that are about to reset the version, once one more has looked for it.
abbrev pub about_to_reset : Redis → ℕ → ℕ
about_to_reset r k = elim (find_version r) [ some n ↦ k | none ↦ suc k ]

-- What anyone does to the chat's keys, other than deleting them, with the number of readers that
-- are about to reset the version, before and after.
pub data Touch : ℕ → Redis → ℕ → Redis → Type 0 where
  versioned :
      {k : ℕ} {r r' : Redis} (t : Transaction) (g : Snapshot) (n : ℕ)
      → (save_game_with_version_check t g n r).1 ≡ r'
      → Touch k r k r'
  plain :
      {k : ℕ} {r r' : Redis} (increment set_reaches incr_reaches : Bool) (g : Snapshot)
      → save_game increment set_reaches incr_reaches g r ≡ r'
      → Touch k r k r'
  load :
      {k : ℕ} {r r' : Redis} (validate : Bool) (id : ℕ) (deck : List Card) (reaches : Bool)
      → (load_game validate id deck reaches r).1 ≡ r'
      → Touch k r k r'
  looked : {k m : ℕ} {r : Redis} → about_to_reset r k ≡ m → Touch k r m r
  reset : {k : ℕ} {r r' : Redis} → reset_version r ≡ r' → Touch (suc k) r k r'

pub data Touches : ℕ → Redis → ℕ → Redis → Type 0 where
  untouched : {k : ℕ} {r : Redis} → Touches k r k r
  then_touched : {k l m : ℕ} {r s t : Redis} → Touches k r l s → Touch l s m t → Touches k r m t

-- The key holds a version that is past `n`.
abbrev Past : ℕ → Redis → Type 0
Past n r = (m : ℕ) × (r.version ≡ some (number m)) × (n < m)

save-Past :
    (n : ℕ) (t : Transaction) (g : Snapshot) (k : ℕ) (r : Redis)
    → Past n r
    → Past n (save_game_with_version_check t g k r).1
unfolding save_game_with_version_check
save-Past n t g k r (m, e, l) = elim (Bool-cases (version_number r.version == k)) [
  | inr other ↦ (m, ground (arith), l)
  | inl same ↦ by_end t same (ap version_number (sym e) ∙ ==→eq _ k same)
]
  where
    by_end :
        (t : Transaction)
        → (version_number r.version == k) ≡ true
        → m ≡ k
        → Past n (save_game_with_version_check t g k r).1
    by_end undisturbed same q = (k + 1, ground (arith), omega arith)
    by_end watch_error same q = (m, ground (arith), l)
    by_end (redis_error true) same q = (k + 1, ground (arith), omega arith)
    by_end (redis_error false) same q = (m, ground (arith), l)

plain-Past :
    (n : ℕ) (increment set_reaches incr_reaches : Bool) (g : Snapshot) (r : Redis)
    → Past n r
    → Past n (save_game increment set_reaches incr_reaches g r)
unfolding save_game
plain-Past n increment false b g r (m, e, l) = (m, e, l)
plain-Past n false true b g r (m, e, l) = (m, e, l)
plain-Past n true true false g r (m, e, l) = (m, e, l)
plain-Past n true true true g r (m, e, l) = (m + 1, ap incr e, omega arith)

-- Nobody is about to reset the version, and it is past `n`.
abbrev Kept : ℕ → ℕ → Redis → Type 0
Kept n k r = (k ≡ 0) × Past n r

look-Kept : (n k : ℕ) (r : Redis) → Kept n k r → Kept n (about_to_reset r k) r
unfolding find_version
look-Kept n k r (none_yet, (m, is, l)) = (ground (arith), (m, is, l))

Touch-Kept : (n : ℕ) {k m : ℕ} {r s : Redis} → Touch k r m s → Kept n k r → Kept n m s
Touch-Kept n {k} {m} {r} (versioned t g v e) (z, p) = (z, subst (Past n) e (save-Past n t g v r p))
Touch-Kept n {k} {m} {r} (plain i a b g e) (z, p) = (z, subst (Past n) e (plain-Past n i a b g r p))
Touch-Kept n {k} {m} {r} (load v id deck w e) (z, (i, is, l)) =
    (z, subst (Past n) e (i, load-version v id deck w r ∙ is, l))
Touch-Kept n {k} {m} {r} (looked e) h = subst (λ x. Kept n x r) e (look-Kept n k r h)
Touch-Kept n (reset e) (z, p) = absurd (omega arith)

Touches-Kept : (n : ℕ) {k m : ℕ} {r s : Redis} → Touches k r m s → Kept n k r → Kept n m s
Touches-Kept n untouched p = p
Touches-Kept n (then_touched more t) p = Touch-Kept n t (Touches-Kept n more p)

saved-Past :
    (t : Transaction) (g : Snapshot) (n : ℕ) (r : Redis)
    → (save_game_with_version_check t g n r).0 ≡ saved
    → Past n (save_game_with_version_check t g n r).1
unfolding save_game_with_version_check
saved-Past t g n r h = elim (Bool-cases (version_number r.version == n)) [
  | inr other ↦ absurd (ground (arith))
  | inl same ↦ by_end t same h
]
  where
    by_end :
        (t : Transaction)
        → (version_number r.version == n) ≡ true
        → (save_game_with_version_check t g n r).0 ≡ saved
        → Past n (save_game_with_version_check t g n r).1
    by_end undisturbed same h = (n + 1, ground (arith), omega arith)
    by_end watch_error same h = absurd (ground (arith))
    by_end (redis_error b) same h = absurd (ground (arith))

Past-conflict :
    (t : Transaction) (g : Snapshot) (n : ℕ) (r : Redis)
    → Past n r
    → save_game_with_version_check t g n r ≡ (conflict, r)
unfolding save_game_with_version_check
Past-conflict t g n r (m, e, l) = ground (arith)

-- Of all the saves that expect one version at most one succeeds: once it has, at a moment when no
-- reader that found no version is about to reset it, every later one is a conflict and writes
-- nothing, whatever loads, looks at the version, resets and saves of either kind come between, their
-- errors included. (Deleting the game starts the versions again.)
pub save_once :
    (t t' : Transaction) (g g' : Snapshot) (n k : ℕ) (r s : Redis)
    → (save_game_with_version_check t g n r).0 ≡ saved
    → Touches 0 (save_game_with_version_check t g n r).1 k s
    → save_game_with_version_check t' g' n s ≡ (conflict, s)
save_once t t' g g' n k r s done touches =
    Past-conflict t' g' n s (Touches-Kept n touches (refl, saved-Past t g n r done)).1

-- A reader that finds no version resets it after its second await: where a first save comes between,
-- the reader's version is 0 again, and a second save that expects the same version as the first is
-- accepted and overwrites it. For all games.
pub late_reset_overwrites :
    (theirs mine : Snapshot) (r : Redis)
    → r.version ≡ none
    → let others : Redis → Redis = λ x. (save_game_with_version_check undisturbed theirs 0 x).1 in
      let read = get_game_version others r in
      ((save_game_with_version_check undisturbed theirs 0 r).0 ≡ saved)
      × (read.0 ≡ 0)
      × (read.1 ≡ record { game = some (pickled theirs); version = some (number 0) })
      × (save_game_with_version_check undisturbed mine 0 read.1
          ≡ (saved, record { game = some (pickled mine); version = some (number 1) }))
unfolding get_game_version find_version reset_version save_game_with_version_check
late_reset_overwrites theirs mine r e =
    (ground (arith), ground (arith), ground (arith), ground (arith))

-- A save between the two reads of a load is lost: the load returns the game from before it with
-- the version from after it, so that the loader's own save, whatever game it made of the old one,
-- is accepted and overwrites the other. For every valid stored game, every other writer's game and
-- every version.
pub stale_load_overwrites :
    (validate : Bool) (id : ℕ) (deck : List Card) (reaches : Bool) (old theirs mine : Snapshot)
    (n : ℕ) (later : Redis → Redis)
    → IsValid old
    → let r : Redis = record { game = some (pickled old); version = some (number n) } in
      let others : Redis → Redis = λ x. (save_game_with_version_check undisturbed theirs n x).1 in
      let read = load_game_with_version validate id deck reaches others later r in
      ((save_game_with_version_check undisturbed theirs n r).0 ≡ saved)
      × (read.0 ≡ (some old, n + 1))
      × (save_game_with_version_check undisturbed mine (n + 1) read.1
          ≡ (saved, record { game = some (pickled mine); version = some (number (n + 2)) }))
stale_load_overwrites validate id deck reaches old theirs mine n later valid = (
  ap (λ x. x.0) theirs_saved,
  ap (λ x. x.0) loaded,
  ap (λ x. save_game_with_version_check undisturbed mine (n + 1) x.1) loaded
      ∙ save-undisturbed mine (n + 1) (others r) (ap (λ x. version_number x.1.version) theirs_saved)
      ∙ ground (arith),
)
  where
    r : Redis
    r = record { game = some (pickled old); version = some (number n) }

    others : Redis → Redis
    others x = (save_game_with_version_check undisturbed theirs n x).1

    theirs_saved :
        save_game_with_version_check undisturbed theirs n r
        ≡ (saved, record { game = some (pickled theirs); version = some (number (n + 1)) })
    theirs_saved = save-undisturbed theirs n r refl

    loaded :
        load_game_with_version validate id deck reaches others later r
        ≡ ((some old, n + 1), others r)
    loaded =
        load_version-found validate id deck reaches others later r old (n + 1) refl valid
          (ap (λ x. x.1.version) theirs_saved)
