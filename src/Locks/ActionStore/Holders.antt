-- ===== src/Locks/ActionStore/Holders.antt =====
-- Who holds a key of `_InMemoryActionLockBackend`, pokerapp/lock_manager.py.
use mathlib.Core.Path.{subst}
use poker_telegram_bot.Prelude.{
  ℕ, ◌+◌, max, ◌≡◌, ◌≤◌, refl, sym, ap, ◌∙◌, ◌⊎◌, inl, inr, Bool, true, false, not, ◌&&◌, Option,
  none, some, List, [], ◌∷◌, ltb, ◌==◌, if◌then◌else◌, length, keep, length-keep-le, Bool-cases,
  Option-cases, arith,
}
use poker_telegram_bot.Locks.ActionStore.{
  Entry, Store, find_entry, present, put_entry, pop_entry, purge_expired, set_value, eval_release,
  get_value, delete_key,
}
use poker_telegram_bot.Locks.ActionStore.Entries.{
  live_token, Distinct, find-keep, find-put, find-pop, put-Distinct, pop-Distinct, keep-Distinct,
  length-pop-le,
}

-- Who holds the key at a time.
abbrev pub holder : ℕ → ℕ → Store → Option ℕ
holder now k s = live_token now (find_entry k s.values)

-- What holds of the store between calls.
pub record IsSound (s : Store) : Type 0 where
  pub distinct : Distinct s.values
  pub size : s.current_size ≡ length s.values
  pub peak : length s.values ≤ s.peak_size

module _ (now : ℕ) (s : Store) (sound : IsSound s) where
  pub purge-IsSound : IsSound (purge_expired now s)
  unfolding purge_expired
  purge-IsSound = record {
    distinct = keep-Distinct now s.values sound.distinct;
    size = refl;
    peak = ground (arith, length-keep-le (λ (e : Entry). ltb now e.expiry) s.values);
  }

  pub holder-purge :
      (later k : ℕ) → now ≤ later → holder later k (purge_expired now s) ≡ holder later k s
  unfolding purge_expired
  holder-purge later k h = find-keep now later k s.values h sound.distinct

find-live :
    (now k : ℕ) (es : List Entry) (e : Entry)
    → find_entry k (keep (λ (x : Entry). ltb now x.expiry) es) ≡ some e
    → ltb now e.expiry ≡ true
unfolding find_entry
find-live now k [] e h = cc
find-live now k (x ∷ xs) e h = ground (arith, find-live now k xs e)

-- In a purged store a key is present exactly when somebody holds it.
pub found_in_purged :
    (now k : ℕ) (s : Store)
    → ((find_entry k (purge_expired now s).values ≡ none)
        × (holder now k (purge_expired now s) ≡ none))
      ⊎ ((e : Entry) × (find_entry k (purge_expired now s).values ≡ some e)
          × (holder now k (purge_expired now s) ≡ some e.token))
unfolding purge_expired
found_in_purged now k s =
    elim (Option-cases (find_entry k (keep (λ (x : Entry). ltb now x.expiry) s.values))) [
      | inl e ↦ inl (e, ground (arith))
      | inr (x, e) ↦ inr (x, e, ground (arith, find-live now k s.values x e))
    ]

abbrev pub is_some {ℓ} : {A : Type ℓ} → Option A → Bool
is_some none = false
is_some (some a) = true

abbrev pub holds_token : Option ℕ → ℕ → Bool
holds_token none t = false
holds_token (some u) t = u == t

-- Who holds a key after it is set.
abbrev pub held_until : ℕ → ℕ → ℕ → Option ℕ
held_until expiry token later = if ltb later expiry then some token else none

-- What a call leaves: a sound store in which only the key `k` may have another holder than before.
pub record Left (now k : ℕ) (new : ℕ → Option ℕ) (done : Bool) (s s' : Store) : Type 0 where
  pub sound : IsSound s'
  pub holders :
      (later j : ℕ)
      → now ≤ later
      → holder later j s' ≡ (if done && (k == j) then new later else holder later j s)

module _ (now k : ℕ) (s : Store) (sound : IsSound s) where
  untouched-Left : (new : ℕ → Option ℕ) → Left now k new false s (purge_expired now s)
  untouched-Left new = record {
    sound = purge-IsSound now s sound;
    holders = λ later j h. holder-purge now s sound later j h;
  }

  holder_in_purged : holder now k (purge_expired now s) ≡ holder now k s
  holder_in_purged = holder-purge now s sound now k (omega arith)

  present-holder : present k (purge_expired now s).values ≡ is_some (holder now k s)
  present-holder = elim (found_in_purged now k s) [
    | inl (e, h) ↦
        ap (λ (o : Option Entry). elim o [ none ↦ false | some _ ↦ true ]) e
        ∙ ap is_some (sym h ∙ holder_in_purged)
    | inr (x, e, h) ↦
        ap (λ (o : Option Entry). elim o [ none ↦ false | some _ ↦ true ]) e
        ∙ ap is_some (sym h ∙ holder_in_purged)
  ]

  -- The store after a write, and after a deletion, of a purged store.
  written : ℕ → ℕ → Store
  written token ex =
      let p = purge_expired now s in
      let values = put_entry (record { key = k; token = token; expiry = now + ex }) p.values in
      record p {
        values = values;
        current_size = length values;
        peak_size = max p.peak_size (length values);
      }

  written-Left : (token ex : ℕ) → Left now k (held_until (now + ex) token) true s (written token ex)
  unfolding written
  written-Left token ex = record {
    sound = record {
      distinct = put-Distinct _ (purge_expired now s).values (purge-IsSound now s sound).distinct;
      size = refl;
      peak = omega arith;
    };
    holders = λ later j h.
        let other = holder-purge now s sound later j h in
        let found =
          find-put j (record { key = k; token = token; expiry = now + ex })
            (purge_expired now s).values in
        ground (arith, other, found);
  }

  popped : Store
  popped =
      let p = purge_expired now s in
      record p { values = pop_entry k p.values; current_size = length (pop_entry k p.values) }

  popped-Left : Left now k (λ later. none) true s popped
  unfolding popped
  popped-Left = record {
    sound = record {
      distinct = pop-Distinct k (purge_expired now s).values (purge-IsSound now s sound).distinct;
      size = refl;
      peak =
          omega
            (arith, length-pop-le k (purge_expired now s).values, (purge-IsSound now s sound).peak);
    };
    holders = λ later j h.
        let other = holder-purge now s sound later j h in
        let found =
          find-pop k j (purge_expired now s).values (purge-IsSound now s sound).distinct in
        ground (arith, other, found);
  }

  -- `set` with `nx` succeeds exactly when nobody holds the key; then the token is its holder until
  -- the expiry. Without `nx` it always succeeds. A failure changes no holder.
  pub set_value_lem :
      (token : ℕ) (nx : Bool) (ex : ℕ)
      → (s' : Store) × (set_value now k token nx (some ex) s
          ≡ some (not (nx && is_some (holder now k s)), s'))
        × Left now k (held_until (now + ex) token) (not (nx && is_some (holder now k s))) s s'
  unfolding set_value written
  set_value_lem token nx ex = elim (Bool-cases (nx && is_some (holder now k s))) [
    | inl e ↦ (
      purge_expired now s,
      ground (arith, present-holder),
      subst (λ b. Left now k (held_until (now + ex) token) (not b) s (purge_expired now s)) (sym e)
          (untouched-Left _),
    )
    | inr e ↦ (
      written token ex,
      ground (arith, present-holder),
      subst (λ b. Left now k (held_until (now + ex) token) (not b) s (written token ex)) (sym e)
          (written-Left token ex),
    )
  ]

  -- `eval` deletes the key exactly when the token holds it.
  pub eval_release_lem :
      (keys : List ℕ) (token : ℕ)
      → (s' : Store) × (eval_release now (k ∷ keys) (some token) s
          ≡ (holds_token (holder now k s) token, s'))
        × Left now k (λ later. none) (holds_token (holder now k s) token) s s'
  unfolding eval_release popped
  eval_release_lem keys token = elim (Bool-cases (holds_token (holder now k s) token)) [
    | inl e ↦
        (popped, by_found e, subst (λ b. Left now k (λ later. none) b s popped) (sym e) popped-Left)
    | inr e ↦ (
      purge_expired now s,
      by_other e,
      subst (λ b. Left now k (λ later. none) b s (purge_expired now s)) (sym e) (untouched-Left _),
    )
  ]
    where
      by_found :
          holds_token (holder now k s) token ≡ true
          → eval_release now (k ∷ keys) (some token) s
            ≡ (holds_token (holder now k s) token, popped)
      by_found e = elim (found_in_purged now k s) [
        | inl (absent, h) ↦ absurd (ground (arith, holder_in_purged))
        | inr (x, there, h) ↦ ground (arith, holder_in_purged)
      ]

      by_other :
          holds_token (holder now k s) token ≡ false
          → eval_release now (k ∷ keys) (some token) s
            ≡ (holds_token (holder now k s) token, purge_expired now s)
      by_other e = elim (found_in_purged now k s) [
        | inl (absent, h) ↦ ground (arith, holder_in_purged)
        | inr (x, there, h) ↦ ground (arith, holder_in_purged)
      ]

  -- `get` tells who holds the key.
  pub get_value_lem :
      (s' : Store) × (get_value now k s ≡ (holder now k s, s'))
      × Left now k (λ later. none) false s s'
  unfolding get_value
  get_value_lem = (purge_expired now s, by_found, untouched-Left (λ later. none))
    where
      by_found : get_value now k s ≡ (holder now k s, purge_expired now s)
      by_found = elim (found_in_purged now k s) [
        | inl (absent, h) ↦ ground (arith, holder_in_purged)
        | inr (x, there, h) ↦ ground (arith, holder_in_purged)
      ]

  -- `delete` deletes a key that is held.
  pub delete_key_lem :
      (s' : Store) × (delete_key now k s ≡ (is_some (holder now k s), s'))
      × Left now k (λ later. none) (is_some (holder now k s)) s s'
  unfolding delete_key popped
  delete_key_lem = elim (Bool-cases (is_some (holder now k s))) [
    | inl e ↦ (
      popped,
      ground (arith, present-holder),
      subst (λ b. Left now k (λ later. none) b s popped) (sym e) popped-Left,
    )
    | inr e ↦ (
      purge_expired now s,
      ground (arith, present-holder),
      subst (λ b. Left now k (λ later. none) b s (purge_expired now s)) (sym e)
          (untouched-Left (λ later. none)),
    )
  ]
