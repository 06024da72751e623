-- ===== src/Tables/Loading.antt =====
-- `load_game` of pokerapp/table_manager.py with the validator behind it.
use mathlib.Core.Path.{subst}
use poker_telegram_bot.Prelude.{
  ℕ, ◌≡◌, refl, sym, ap, ◌∙◌, inl, inr, Bool, true, false, Option, none, some, List, length,
  Bool-cases, arith,
}
use poker_telegram_bot.Cards.{Card}
use poker_telegram_bot.Validator.{
  Snapshot, ValidationResult, deck_size, validate_game, IsValid, recover_game-IsValid,
}
use poker_telegram_bot.Tables.{
  Blob, pickled, garbage, Redis, Loaded, corrupted, write_game, after_validation, check_loaded,
  load_game,
}

-- What a key holds is a valid game, or nothing.
abbrev pub HoldsValid : Option Blob → Type 0
HoldsValid none = Unit
HoldsValid (some garbage) = ⊥
HoldsValid (some (pickled s)) = IsValid s

abbrev pub FoundValid : Option Snapshot → Type 0
FoundValid none = Unit
FoundValid (some s) = IsValid s

after_validation-valid :
    (reaches : Bool) (s : Snapshot) (v : ValidationResult) (t : Snapshot) (r : Redis)
    → (v.is_valid ≡ true → IsValid s)
    → IsValid t
    → r.game ≡ some (pickled s)
    → FoundValid (after_validation reaches s v t r).0.found
      × (reaches ≡ true → HoldsValid (after_validation reaches s v t r).1.game)
unfolding after_validation
after_validation-valid false s v t r valid ok here = elim (Bool-cases v.is_valid) [
  | inl e ↦ rw e (valid e, λ f. cc)
  | inr e ↦ elim (Bool-cases v.recoverable) [
    | inl k ↦ rw (e, k) (ok, λ f. cc)
    | inr k ↦ rw (e, k) (tt, λ f. cc)
  ]
]
after_validation-valid true s v t r valid ok here = elim (Bool-cases v.is_valid) [
  | inl e ↦ rw e (valid e, λ _. subst HoldsValid (sym here) (valid e))
  | inr e ↦ elim (Bool-cases v.recoverable) [
    | inl k ↦ rw (e, k) (ok, λ _. ok)
    | inr k ↦ rw (e, k) (tt, λ _. tt)
  ]
]

-- `load_game` by what the key holds.
module _ (validate : Bool) (id : ℕ) (deck : List Card) (reaches : Bool) (r : Redis) where
  load_game-none :
      r.game ≡ none
      → load_game validate id deck reaches r ≡ (record { found = none; validation = none }, r)
  unfolding load_game
  load_game-none e = ground (arith)

  load_game-garbage :
      r.game ≡ some garbage
      → load_game validate id deck reaches r
        ≡ (record { found = none; validation = some corrupted }, write_game reaches none r)
  unfolding load_game
  load_game-garbage e = ground (arith)

  load_game-pickled :
      (s : Snapshot)
      → r.game ≡ some (pickled s)
      → load_game validate id deck reaches r ≡ check_loaded validate id deck reaches s r
  unfolding load_game
  load_game-pickled s e = ground (arith)

-- A valid game is loaded as it is.
pub load_game_found :
    (validate : Bool) (id : ℕ) (deck : List Card) (reaches : Bool) (r : Redis) (s : Snapshot)
    → r.game ≡ some (pickled s)
    → IsValid s
    → ((load_game validate id deck reaches r).0.found ≡ some s)
      × ((load_game validate id deck reaches r).1 ≡ r)
unfolding check_loaded after_validation
load_game_found validate id deck reaches r s e valid =
    let l = load_game-pickled validate id deck reaches r s e in
    (ap (λ x. x.0.found) l ∙ found validate, ap (λ x. x.1) l ∙ kept validate)
  where
    found : (b : Bool) → (check_loaded b id deck reaches s r).0.found ≡ some s
    found true = rw valid refl
    found false = refl

    kept : (b : Bool) → (check_loaded b id deck reaches s r).1 ≡ r
    kept true = rw valid refl
    kept false = refl

module _ (id : ℕ) (deck : List Card) (full : length deck ≡ deck_size) (reaches : Bool)
    (r : Redis) where
  abbrev Sound : Loaded × Redis → Type 0
  Sound x = FoundValid x.0.found × (reaches ≡ true → HoldsValid x.1.game)

  -- Whatever Redis holds, a validating load answers with no game or with a valid one; and if its
  -- write reaches Redis, no game or a valid one is left there.
  pub load_game_valid : Sound (load_game true id deck reaches r)
  unfolding check_loaded
  load_game_valid = by_blob r.game refl
    where
      by_blob : (b : Option Blob) → r.game ≡ b → Sound (load_game true id deck reaches r)
      by_blob none e =
          subst Sound (sym (load_game-none true id deck reaches r e))
            (tt, λ _. subst HoldsValid (sym e) tt)
      by_blob (some garbage) e =
          subst Sound (sym (load_game-garbage true id deck reaches r e)) (tt, λ w. rw w tt)
      by_blob (some (pickled s)) e =
          subst Sound (sym (load_game-pickled true id deck reaches r s e)) (
            after_validation-valid reaches s (validate_game s) _ r (λ v. v)
              (recover_game-IsValid id deck full s).0 e)

-- Loading never writes the version.
pub load-version :
    (validate : Bool) (id : ℕ) (deck : List Card) (reaches : Bool) (r : Redis)
    → (load_game validate id deck reaches r).1.version ≡ r.version
unfolding load_game check_loaded after_validation
load-version validate id deck reaches r = by_blob r.game refl
  where
    by_blob :
        (b : Option Blob)
        → r.game ≡ b
        → (load_game validate id deck reaches r).1.version ≡ r.version
    by_blob none e = ap (λ x. x.1.version) (load_game-none validate id deck reaches r e)
    by_blob (some garbage) e = ground (arith)
    by_blob (some (pickled s)) e =
        ap (λ x. x.1.version) (load_game-pickled validate id deck reaches r s e) ∙ ground (arith)
