-- ===== src/Tables.antt =====
-- pokerapp/table_manager.py: a chat's game and its version in Redis. Pickling, which is Python's
-- own, gives back the fields that the model keeps: `Game.__getstate__` copies all of them, and
-- that of `Player` leaves only the wallet out, which the model does not keep in a player. A stored
-- text that cannot be unpickled is `garbage`. Reading from Redis is taken to succeed, as is the
-- watch of a transaction; what a write meets is an argument.
pub mod Loading
pub mod Versions
use poker_telegram_bot.Prelude.{
  ℕ, suc, ◌+◌, Bool, true, false, not, Option, none, some, List, [], ◌∷◌, ◌==◌, if◌then◌else◌,
}
use poker_telegram_bot.Cards.{Card}
use poker_telegram_bot.Validator.{
  Snapshot, ValidationResult, corrupted_json, delete_and_recreate, validate_game, recover_game,
}

pub data Blob : Type 0 where
  pickled : Snapshot → Blob
  garbage : Blob

pub data VersionText : Type 0 where
  number : ℕ → VersionText
  unreadable : VersionText

-- The two keys of a chat.
pub record Redis : Type 0 where
  pub game : Option Blob
  pub version : Option VersionText

-- The pair that `load_game` returns.
pub record Loaded : Type 0 where
  pub found : Option Snapshot
  pub validation : Option ValidationResult

abbrev corrupted : ValidationResult
corrupted = record {
  is_valid = false;
  issues = corrupted_json ∷ [];
  recoverable = false;
  recovery_action = some delete_and_recreate;
}

-- A write to the game's key, if it reaches Redis.
abbrev write_game : Bool → Option Blob → Redis → Redis
write_game reaches b r = if reaches then record r { game = b } else r

-- What `load_game` does with the result of the validation, and the game that recovery would give.
after_validation : Bool → Snapshot → ValidationResult → Snapshot → Redis → Loaded × Redis
after_validation reaches s v recovered r =
    if v.is_valid
    then (record { found = some s; validation = some v }, r)
    else if not v.recoverable
    then (record { found = none; validation = some v }, write_game reaches none r)
    else (
      record { found = some recovered; validation = some v },
      write_game reaches (some (pickled recovered)) r,
    )

-- `load_game` once the game is unpickled. `id` and `deck` are what a new game draws; `reaches` says
-- whether the write reaches Redis: an exception of it is logged.
check_loaded : Bool → ℕ → List Card → Bool → Snapshot → Redis → Loaded × Redis
unfolding after_validation
check_loaded validate id deck reaches s r =
    let v = validate_game s in
    if validate
    then after_validation reaches s v (recover_game id deck s v) r
    else (record { found = some s; validation = none }, r)

-- `load_game`
unfoldable pub load_game : Bool → ℕ → List Card → Bool → Redis → Loaded × Redis
unfolding check_loaded
load_game validate id deck reaches r = elim (r.game) [
  | none ↦ (record { found = none; validation = none }, r)
  | some garbage ↦ (record { found = none; validation = some corrupted }, write_game reaches none r)
  | some (pickled s) ↦ check_loaded validate id deck reaches s r
]

-- The first await of `get_game_version`: the version, if there is a readable one.
unfoldable pub find_version : Redis → Option ℕ
find_version r = elim (r.version) [ some (number n) ↦ some n | _ ↦ none ]

-- Its second await, where there is none.
unfoldable pub reset_version : Redis → Redis
reset_version r = record r { version = some (number 0) }

-- `get_game_version`; `others` is what happens between the awaits.
unfoldable pub get_game_version : (Redis → Redis) → Redis → ℕ × Redis
unfolding find_version reset_version
get_game_version others r = elim (find_version r) [
  | some n ↦ (n, r)
  | none ↦ (0, reset_version (others r))
]

-- `load_game_with_version`; `others` is what happens between its two reads, and `later` what does
-- between the second one and the reset.
unfoldable pub load_game_with_version :
    Bool
    → ℕ
    → List Card
    → Bool
    → (Redis → Redis)
    → (Redis → Redis)
    → Redis
    → (Option Snapshot × ℕ) × Redis
unfolding load_game get_game_version
load_game_with_version validate id deck reaches others later r =
    let (loaded, r') = load_game validate id deck reaches r in
    let (version, r'') = get_game_version later (others r') in ((loaded.found, version), r'')

-- The end of the transaction: the watched version was left alone; it was written by somebody; or
-- Redis failed, before or after the transaction took place.
pub data Transaction : Type 0 where
  undisturbed watch_error : Transaction
  redis_error : Bool → Transaction

pub data SaveReply : Type 0 where
  saved conflict raised : SaveReply

abbrev pub version_number : Option VersionText → ℕ
version_number (some (number n)) = n
version_number _ = 0

-- `save_game_with_version_check`
unfoldable pub save_game_with_version_check : Transaction → Snapshot → ℕ → Redis → SaveReply × Redis
save_game_with_version_check transaction game expected r =
    let r' : Redis = record {
      game = some (pickled game);
      version = some (number (expected + 1));
    } in
    if not (version_number r.version == expected) then (conflict, r) else (elim transaction [
      | undisturbed ↦ (saved, r')
      | watch_error ↦ (conflict, r)
      | redis_error done ↦ (raised, if done then r' else r)
    ])

-- The increment of the version in Redis, which fails on a text that is no number.
abbrev incr : Option VersionText → Option VersionText
incr none = some (number 1)
incr (some (number n)) = some (number (n + 1))
incr (some unreadable) = some unreadable

-- `save_game`: the write of the game, and then that of the version; an exception of the second is
-- logged. The flags say which of them reach Redis.
unfoldable pub save_game : Bool → Bool → Bool → Snapshot → Redis → Redis
save_game increment_version set_reaches incr_reaches game r =
    if not set_reaches
    then r
    else if not increment_version
    then record r { game = some (pickled game) }
    else if not incr_reaches
    then record r { game = some (pickled game) }
    else record { game = some (pickled game); version = incr r.version }

-- `delete_game`: both keys, each if its deletion reaches Redis.
unfoldable pub delete_game : Bool → Bool → Redis → Redis
delete_game game_reaches version_reaches r = record {
  game = if game_reaches then none else r.game;
  version = if version_reaches then none else r.version;
}
