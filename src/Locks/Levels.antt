-- ===== src/Locks/Levels.antt =====
-- The order on locks of pokerapp/lock_manager.py: levels and categories, `_validate_lock_order`, and
-- the records of what a task holds. A list of records has the newest first; the source appends at
-- the end. Contexts and log lines are left out.
pub mod Order
pub mod Records
use Prim.Native.String.{String}
use text.Mathlib.Text.{◌==◌ as str_eq, starts_with}
use poker_telegram_bot.Prelude.{
  ℕ, suc, ◌+◌, ◌-◌, Bool, true, false, not, ◌&&◌, ◌||◌, Option, none, some, List, [], ◌∷◌, map, ltb,
  leb, ◌==◌, if◌then◌else◌, ℤ, pos, negsuc, minus_one, pos_part, neg_part,
}

-- `a < b` on levels.
abbrev pub below : ℤ → ℤ → Bool
below a b = ltb (pos_part a + neg_part b) (pos_part b + neg_part a)

abbrev pub max_level : ℤ → ℤ → ℤ
max_level a b = if below a b then b else a

pub data LockCategory : Type 0 where
  engine_stage table_write deck betting pot player table_read player_report wallet chat :
      LockCategory

-- `LOCK_LEVELS`
abbrev pub level_of : LockCategory → ℤ
level_of engine_stage = pos 3
level_of table_write = pos 3
level_of deck = pos 2
level_of betting = pos 2
level_of pot = pos 1
level_of player = pos 0
level_of table_read = minus_one
level_of player_report = pos 2
level_of wallet = pos 3
level_of chat = pos 4

-- `_is_descend_allowed`, with `_ALLOWED_DESCENDING_CATEGORIES`.
unfoldable pub is_descend_allowed : Option LockCategory → Option LockCategory → Bool
is_descend_allowed (some engine_stage) (some player_report) = true
is_descend_allowed (some wallet) (some table_write) = true
is_descend_allowed (some wallet) (some player) = true
is_descend_allowed held new = false

-- `_LOCK_PREFIX_LEVELS`
abbrev lock_prefixes : List (String × LockCategory)
lock_prefixes =
    ("player:", player)
    ∷ ("pot:", pot)
    ∷ ("deck:", deck)
    ∷ ("betting:", betting)
    ∷ ("table_read:", table_read)
    ∷ ("table_write:", table_write)
    ∷ ("stage:", engine_stage)
    ∷ ("engine_stage:", engine_stage)
    ∷ ("chat:", chat)
    ∷ ("pokerbot:player_report", player_report)
    ∷ ("player_report:", player_report)
    ∷ ("wallet:", wallet)
    ∷ ("player_wallet:", wallet)
    ∷ ("pokerbot:wallet:", wallet)
    ∷ []

-- `_resolve_lock_category`: the first prefix that fits.
unfoldable pub first_prefix : List (String × LockCategory) → String → Option LockCategory
first_prefix [] key = none
first_prefix ((p, c) ∷ rest) key = if starts_with key p then some c else first_prefix rest key

unfoldable pub resolve_lock_category : String → Option LockCategory
unfolding first_prefix
resolve_lock_category key = first_prefix lock_prefixes key

-- A record of what a task holds.
pub record LockAcquisition : Type 0 where
  pub key : String
  pub level : ℤ
  pub count : ℕ

-- `_resolve_level`, by the override, the category or the default.
unfoldable pub resolve_level : ℤ → String → Option ℤ → ℤ
resolve_level default_level key (some level) = level
resolve_level default_level key none = elim (resolve_lock_category key) [
  | none ↦ default_level
  | some c ↦ level_of c
]

-- `max(held_levels)`
abbrev pub max_held_level : LockAcquisition → List LockAcquisition → ℤ
max_held_level a [] = a.level
max_held_level a (b ∷ rest) = max_level a.level (max_held_level b rest)

-- The loop for a violating holder: a higher level than the new one, and no leave to descend.
unfoldable pub violating_holder : List LockAcquisition → String → ℤ → Option LockAcquisition
violating_holder [] key level = none
violating_holder (a ∷ rest) key level =
    let next = violating_holder rest key level in
    if not (below level a.level)
    then next
    else if is_descend_allowed (resolve_lock_category a.key) (resolve_lock_category key)
    then next
    else some a

pub data OrderVerdict : Type 0 where
  in_order lock_order_error : OrderVerdict

-- `_validate_lock_order`
unfoldable pub validate_lock_order : List LockAcquisition → String → ℤ → OrderVerdict
validate_lock_order [] key level = in_order
validate_lock_order (a ∷ rest) key level =
    let highest = max_held_level a rest in
    if below level highest
    then (elim (violating_holder (a ∷ rest) key level) [
      | none ↦ in_order
      | some _ ↦ lock_order_error
    ])
    else if below highest level
    then lock_order_error
    else in_order

-- `_record_acquired`
unfoldable pub record_acquired : List LockAcquisition → String → ℤ → List LockAcquisition
record_acquired [] key level = record { key = key; level = level; count = 1 } ∷ []
record_acquired (a ∷ rest) key level =
    if str_eq a.key key
    then record a { count = a.count + 1 } ∷ rest
    else record { key = key; level = level; count = 1 } ∷ a ∷ rest

-- `_remove_acquisition_record`: the newest record of the key.
unfoldable pub remove_acquisition_record : List LockAcquisition → String → List LockAcquisition
remove_acquisition_record [] key = []
remove_acquisition_record (a ∷ rest) key =
    let others = remove_acquisition_record rest key in
    if not (str_eq a.key key)
    then a ∷ others
    else if ltb 1 a.count
    then record a { count = a.count - 1 } ∷ rest
    else rest

-- `_find_lock_record`, without the index.
unfoldable pub find_lock_record : List LockAcquisition → String → Option LockAcquisition
find_lock_record [] key = none
find_lock_record (a ∷ rest) key = if str_eq a.key key then some a else find_lock_record rest key

-- The table of `_validate_lock_hierarchy`.
abbrev pub in_hierarchy : Option LockCategory → Bool
in_hierarchy (some table_read) = true
in_hierarchy (some player) = true
in_hierarchy (some pot) = true
in_hierarchy (some deck) = true
in_hierarchy (some table_write) = true
in_hierarchy _ = false

abbrev any_in_hierarchy : List LockAcquisition → Bool
any_in_hierarchy [] = false
any_in_hierarchy (a ∷ rest) = in_hierarchy (resolve_lock_category a.key) || any_in_hierarchy rest

pub data HierarchyVerdict : Type 0 where
  passes name_error : HierarchyVerdict

-- `_validate_lock_hierarchy`, which returns before it reads two names that are not defined there,
-- or raises `NameError` where it reads them; what stands below that line is not reached.
unfoldable pub validate_lock_hierarchy : List LockAcquisition → String → HierarchyVerdict
validate_lock_hierarchy held key =
    if not (in_hierarchy (resolve_lock_category key))
    then passes
    else if not (any_in_hierarchy held)
    then passes
    else name_error
