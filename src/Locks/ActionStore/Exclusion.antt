-- ===== src/Locks/ActionStore/Exclusion.antt =====
-- An action lock that is acquired, and what anyone does to the store afterwards
-- (`_InMemoryActionLockBackend`, pokerapp/lock_manager.py).
use mathlib.Core.Path.{subst}
use poker_telegram_bot.Prelude.{
  and_false, ℕ, ◌+◌, ◌≡◌, ◌<◌, ◌≤◌, refl, sym, ap, ◌∙◌, ◌⊎◌, inl, inr, Bool, true, false, not, ◌&&◌,
  Option, some, List, [], ◌∷◌, ◌==◌, ==_self, ==→eq, Bool-cases, arith,
}
use poker_telegram_bot.Locks.ActionStore.{
  Store, set_value, eval_release, get_value, delete_key, matching_keys, purge_expired,
}
use poker_telegram_bot.Locks.ActionStore.Holders.{
  holder, IsSound, Left, is_some, holds_token, set_value_lem, eval_release_lem, get_value_lem,
  delete_key_lem, purge-IsSound, holder-purge,
}

-- A call of the store that does not take the key away from the token by its own right: it sets only
-- free keys or others than `key`, it releases with another token or another key, and it deletes
-- only other keys.
pub data Call (key token now : ℕ) (s : Store) : Store → Type 0 where
  sets :
      {s' : Store} (k tok ex : ℕ) (nx done : Bool)
      → (nx ≡ true) ⊎ ((k == key) ≡ false)
      → set_value now k tok nx (some ex) s ≡ some (done, s')
      → Call key token now s s'
  releases :
      {s' : Store} (k tok : ℕ) (keys : List ℕ) (done : Bool)
      → ((tok == token) ≡ false) ⊎ ((k == key) ≡ false)
      → eval_release now (k ∷ keys) (some tok) s ≡ (done, s')
      → Call key token now s s'
  gets : {s' : Store} (k : ℕ) → (get_value now k s).1 ≡ s' → Call key token now s s'
  deletes :
      {s' : Store} (k : ℕ)
      → (k == key) ≡ false
      → (delete_key now k s).1 ≡ s'
      → Call key token now s s'
  lists :
      {s' : Store} (matches : ℕ → Bool)
      → (matching_keys now matches s).1 ≡ s'
      → Call key token now s s'

-- Any number of such calls, by a clock that does not go back.
pub data Since (key token start : ℕ) (s : Store) : ℕ → Store → Type 0 where
  acquired : Since key token start s start s
  then_call :
      {t u : ℕ} {x y : Store}
      → Since key token start s t x
      → t ≤ u
      → Call key token u x y
      → Since key token start s u y

pair_snd :
    {b c : Bool} {x y : Store} → ◌≡◌ {A = Option (Bool × Store)} (some (b, x)) (some (c, y)) → x ≡ y
pair_snd e = cc

pair_fst :
    {b c : Bool} {x y : Store} → ◌≡◌ {A = Option (Bool × Store)} (some (b, x)) (some (c, y)) → b ≡ c
pair_fst e = cc

module _ (key token expiry : ℕ) where
  -- The token holds the key from `now` to the expiry.
  record Held (now : ℕ) (s : Store) : Type 0 where
    sound : IsSound s
    holds : (later : ℕ) → now ≤ later → later < expiry → holder later key s ≡ some token

  later-Held : (t u : ℕ) (s : Store) → t ≤ u → Held t s → Held u s
  later-Held t u s h held = record {
    sound = held.sound;
    holds = λ later a b. held.holds later (omega arith) b;
  }

  purge-Held : (now : ℕ) (s : Store) → Held now s → Held now (purge_expired now s)
  purge-Held now s held = record {
    sound = purge-IsSound now s held.sound;
    holds = λ later a b. holder-purge now s held.sound later key a ∙ held.holds later a b;
  }

  -- A call that leaves the key's holder alone, where it takes effect at all.
  kept-Held :
      (now k : ℕ) (new : ℕ → Option ℕ) (done : Bool) (s s' : Store)
      → (now < expiry → done && (k == key) ≡ false)
      → Left now k new done s s'
      → Held now s
      → Held now s'
  kept-Held now k new done s s' other left held = record {
    sound = left.sound;
    holds = λ later a b. left.holders later key a ∙ rw (other (omega arith)) (held.holds later a b);
  }

  -- Who holds the key if `k` is that key.
  holds_now :
      (now k : ℕ) (s : Store)
      → Held now s
      → now < expiry
      → (k == key) ≡ true
      → holder now k s ≡ some token
  holds_now now k s held h e =
      ap (λ j. holder now j s) (==→eq k key e) ∙ held.holds now (omega arith) h

  set_spares :
      (now k : ℕ) (nx : Bool) (s : Store)
      → Held now s
      → (nx ≡ true) ⊎ ((k == key) ≡ false)
      → now < expiry
      → not (nx && is_some (holder now k s)) && (k == key) ≡ false
  set_spares now k nx s held which h = elim (Bool-cases (k == key)) [
    | inr other ↦ ground (arith)
    | inl same ↦ let mine = ap is_some (holds_now now k s held h same) in ground (arith, mine)
  ]

  release_spares :
      (now k tok : ℕ) (s : Store)
      → Held now s
      → ((tok == token) ≡ false) ⊎ ((k == key) ≡ false)
      → now < expiry
      → holds_token (holder now k s) tok && (k == key) ≡ false
  release_spares now k tok s held which h = elim (Bool-cases (k == key)) [
    | inr other ↦ ground (arith)
    | inl same ↦
        let mine = ap (λ o. holds_token o tok) (holds_now now k s held h same) in
        ground (arith, mine)
  ]

  Call-Held : (now : ℕ) (s s' : Store) → Call key token now s s' → Held now s → Held now s'
  unfolding matching_keys purge_expired
  Call-Held now s s' (sets k tok ex nx done which e) held =
      let (t, r, left) = set_value_lem now k s held.sound tok nx ex in
      subst (Held now) (pair_snd (sym r ∙ e))
        (kept-Held now k _ _ s t (set_spares now k nx s held which) left held)
  Call-Held now s s' (releases k tok keys done which e) held =
      let (t, r, left) = eval_release_lem now k s held.sound keys tok in
      subst (Held now) (ap (λ x. x.1) (sym r ∙ e))
        (kept-Held now k _ _ s t (release_spares now k tok s held which) left held)
  Call-Held now s s' (gets k e) held =
      let (t, r, left) = get_value_lem now k s held.sound in
      subst (Held now) (sym (ap (λ x. x.1) r) ∙ e) (kept-Held now k _ _ s t (λ h. refl) left held)
  Call-Held now s s' (deletes k other e) held =
      let (t, r, left) = delete_key_lem now k s held.sound in
      subst (Held now) (sym (ap (λ x. x.1) r) ∙ e)
        (kept-Held now k _ _ s t (λ h. rw other (and_false _)) left held)
  Call-Held now s s' (lists matches e) held = subst (Held now) e (purge-Held now s held)

  Since-Held :
      (start : ℕ) (s : Store) (t : ℕ) (s' : Store)
      → Since key token start s t s'
      → Held start s
      → Held t s'
  Since-Held start s t s' acquired held = held
  Since-Held start s u s' (then_call {t} {x = x} before h call) held =
      Call-Held u x s' call (later-Held t u x h (Since-Held start s t x before held))

set-Held :
    (start key token ex : ℕ) (s s' : Store)
    → IsSound s
    → set_value start key token true (some ex) s ≡ some (true, s')
    → Held key token (start + ex) start s'
set-Held start key token ex s s' sound e =
    let (t, r, left) = set_value_lem start key s sound token true ex in
    let same = pair_snd (sym r ∙ e) in
    let done = pair_fst (sym r ∙ e) in
    subst (Held key token (start + ex) start) same (record {
      sound = left.sound;
      holds = λ later a b. left.holders later key a ∙ rw (done, ==_self key) (ground (arith));
    })

-- An action lock excludes: once `set` with `nx` has taken a key for a token, then at any time before
-- the expiry, whatever others have done in between, except a release of the key with this very
-- token, a deletion of the key and a `set` of the key without `nx`, the token still holds the key,
-- every further `set` with `nx` on the key fails, and the token's own release succeeds.
pub acquired_excludes :
    (start key token ex now : ℕ) (s s' t : Store)
    → IsSound s
    → set_value start key token true (some ex) s ≡ some (true, s')
    → Since key token start s' now t
    → now < start + ex
    → (holder now key t ≡ some token)
      × ((tok ex' : ℕ)
          → (t' : Store) × (set_value now key tok true (some ex') t ≡ some (false, t')))
      × ((eval_release now (key ∷ []) (some token) t).0 ≡ true)
acquired_excludes start key token ex now s s' t sound e since h =
    let held =
      Since-Held key token (start + ex) start s' now t since
        (set-Held start key token ex s s' sound e) in
    let mine = held.holds now (omega arith) h in
    (
      mine,
      λ tok ex'.
          let (t', r, left) = set_value_lem now key t held.sound tok true ex' in
          (t', r ∙ ap (λ o. some (not (is_some o), t')) mine),
      let (t', r, left) = eval_release_lem now key t held.sound [] token in
          ap (λ x. x.0) r ∙ ap (λ o. holds_token o token) mine ∙ ==_self token,
    )
