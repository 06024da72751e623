-- ===== src/Locks/ActionStore.antt =====
-- `_InMemoryActionLockBackend` of pokerapp/lock_manager.py, the store of action locks where there is
-- no Redis. Keys and tokens are numbers that are only compared; the clock is an argument, in units
-- of the expiry. The calls are atomic, under the store's own lock.
pub mod Entries
pub mod Holders
pub mod Exclusion
use poker_telegram_bot.Prelude.{
  ℕ, suc, ◌+◌, max, Bool, true, false, not, ◌&&◌, Option, none, some, List, [], ◌∷◌, map, ltb, ◌==◌,
  if◌then◌else◌, length, keep,
}

pub record Entry : Type 0 where
  pub key : ℕ
  pub token : ℕ
  pub expiry : ℕ

pub record Store : Type 0 where
  pub values : List Entry
  pub purge_count : ℕ
  pub peak_size : ℕ
  pub current_size : ℕ

abbrev pub new_store : Store
new_store = record { values = []; purge_count = 0; peak_size = 0; current_size = 0 }

-- `self._values.get(key)`, and `key in self._values`
unfoldable pub find_entry : ℕ → List Entry → Option Entry
find_entry k [] = none
find_entry k (e ∷ es) = if e.key == k then some e else find_entry k es

abbrev pub present : ℕ → List Entry → Bool
present k es = elim (find_entry k es) [ none ↦ false | some _ ↦ true ]

-- `self._values[key] = …`: a key that is there keeps its place.
unfoldable pub put_entry : Entry → List Entry → List Entry
put_entry e [] = e ∷ []
put_entry e (x ∷ xs) = if x.key == e.key then e ∷ xs else x ∷ put_entry e xs

-- `self._values.pop(key, None)`
unfoldable pub pop_entry : ℕ → List Entry → List Entry
pop_entry k [] = []
pop_entry k (x ∷ xs) = if x.key == k then xs else x ∷ pop_entry k xs

-- `_purge_expired`
unfoldable pub purge_expired : ℕ → Store → Store
purge_expired now s =
    let live = keep (λ (e : Entry). ltb now e.expiry) s.values in
    record {
      values = live;
      purge_count = s.purge_count + 1;
      peak_size = max s.peak_size (length s.values);
      current_size = length live;
    }

-- `set`; `none` is the `ValueError` of a missing expiration.
unfoldable pub set_value : ℕ → ℕ → ℕ → Bool → Option ℕ → Store → Option (Bool × Store)
set_value now key token nx none s = none
set_value now key token nx (some ex) s =
    let p = purge_expired now s in
    let values = put_entry (record { key = key; token = token; expiry = now + ex }) p.values in
    if nx && present key p.values
    then some (false, p)
    else some (
      true,
      record p {
        values = values;
        current_size = length values;
        peak_size = max p.peak_size (length values);
      },
    )

-- `eval`, for every script: the first key is deleted if it holds the first argument; without a key
-- nothing happens at all.
unfoldable pub eval_release : ℕ → List ℕ → Option ℕ → Store → Bool × Store
eval_release now [] expected s = (false, s)
eval_release now (key ∷ keys) expected s =
    let p = purge_expired now s in
    elim (find_entry key p.values) [
      | none ↦ (false, p)
      | some e ↦
          let holds : Bool = elim expected [ none ↦ false | some t ↦ e.token == t ] in
          if not holds then (false, p) else (
            true,
            record p {
              values = pop_entry key p.values;
              current_size = length (pop_entry key p.values);
            },
          )
    ]

-- `get`
unfoldable pub get_value : ℕ → ℕ → Store → Option ℕ × Store
get_value now key s =
    let p = purge_expired now s in
    (elim (find_entry key p.values) [ none ↦ none | some e ↦ some e.token ], p)

-- `delete`
unfoldable pub delete_key : ℕ → ℕ → Store → Bool × Store
delete_key now key s =
    let p = purge_expired now s in
    if present key p.values
    then (
      true,
      record p { values = pop_entry key p.values; current_size = length (pop_entry key p.values) },
    )
    else (false, p)

-- `keys`; the test of the pattern on a key is an argument.
unfoldable pub matching_keys : ℕ → (ℕ → Bool) → Store → List ℕ × Store
matching_keys now matches s =
    let p = purge_expired now s in
    (map (λ (e : Entry). e.key) (keep (λ (e : Entry). matches e.key) p.values), p)
