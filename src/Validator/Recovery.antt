-- ===== src/Validator/Recovery.antt =====
-- What `recover_game` of pokerapp/state_validator.py makes of any game that was read back.
use mathlib.Core.Path.{subst}
use poker_telegram_bot.Prelude.{
  ℕ, ◌≡◌, refl, sym, ap, inl, inr, true, false, Option, none, some, List, [], ◌∷◌, length,
  Bool-cases, arith,
}
use poker_telegram_bot.Cards.{Card}
use poker_telegram_bot.Entities.{initial, Player, Game, map_seats}
use poker_telegram_bot.Validator.Defs.{
  ValidationResult, Snapshot, snapshot, deck_size, is_empty, validate_game, new_game, reset_player,
  reset_game, recover_game,
}

-- Who sits where.
abbrev pub seat_users : List (Option Player) → List (Option ℕ)
seat_users [] = []
seat_users (none ∷ ps) = none ∷ seat_users ps
seat_users (some p ∷ ps) = some p.user_id ∷ seat_users ps

seat_users-reset :
    (ps : List (Option Player)) → seat_users (map_seats reset_player ps) ≡ seat_users ps
seat_users-reset [] = refl
seat_users-reset (none ∷ ps) = ap (λ l. none ∷ l) (seat_users-reset ps)
seat_users-reset (some p ∷ ps) = ap (λ l. some p.user_id ∷ l) (seat_users-reset ps)

abbrev pub IsValid : Snapshot → Type 0
IsValid s = (validate_game s).is_valid ≡ true

-- A waiting table with a full deck has nothing to report.
waiting-IsValid :
    (g : Game) → g.state ≡ initial → length g.remain_cards ≡ deck_size → IsValid (snapshot g)
unfolding validate_game
waiting-IsValid g w full = ground (arith)

no_issues :
    (s : Snapshot) → (validate_game s).is_valid ≡ false → is_empty (validate_game s).issues ≡ false
unfolding validate_game
no_issues s e = e

module _ (id : ℕ) (deck : List Card) (s : Snapshot) (v : ValidationResult) where
  recover-valid : v.is_valid ≡ true → recover_game id deck s v ≡ s
  unfolding recover_game
  recover-valid e = rw e refl

  recover-reset :
      v.is_valid ≡ false
      → is_empty v.issues ≡ false
      → v.recoverable ≡ true
      → recover_game id deck s v ≡ snapshot (reset_game deck s.game)
  unfolding recover_game
  recover-reset e n r = rw (e, n, r) refl

  recover-new :
      v.is_valid ≡ false
      → is_empty v.issues ≡ false
      → v.recoverable ≡ false
      → recover_game id deck s v ≡ snapshot (new_game id deck)
  unfolding recover_game
  recover-new e n r = rw (e, n, r) refl

-- A valid game is returned as it is; of another one the players keep their seats, and the chips of
-- the pot and the bets are gone; a game whose state cannot be read becomes an empty table.
pub data Recovered (id : ℕ) (deck : List Card) (s r : Snapshot) : Type 0 where
  untouched : IsValid s → r ≡ s → Recovered id deck s r
  reset :
      ((validate_game s).recoverable ≡ true)
      → (r ≡ snapshot (reset_game deck s.game))
      → (seat_users r.game.seats ≡ seat_users s.game.seats)
      → (r.game.pot ≡ 0)
      → Recovered id deck s r
  recreated :
      ((validate_game s).recoverable ≡ false)
      → r ≡ snapshot (new_game id deck)
      → Recovered id deck s r

module _ (id : ℕ) (deck : List Card) (full : length deck ≡ deck_size) (s : Snapshot) where
  -- Whatever was read back, the game that recovery returns is valid, if the shuffled deck is whole;
  -- and it is the game itself where that is valid, the waiting table with the same players in the
  -- same seats and no pot where it is recoverable, and a new table otherwise.
  pub recover_game-IsValid :
      IsValid (recover_game id deck s (validate_game s))
      × Recovered id deck s (recover_game id deck s (validate_game s))
  unfolding reset_game
  recover_game-IsValid = elim (Bool-cases (validate_game s).is_valid) [
    | inl e ↦ by_result s (sym (recover-valid id deck s _ e)) e (untouched e refl)
    | inr e ↦ elim (Bool-cases (validate_game s).recoverable) [
      | inl r ↦
          by_result (snapshot (reset_game deck s.game))
            (sym (recover-reset id deck s _ e (no_issues s e) r))
            (waiting-IsValid (reset_game deck s.game) refl full)
            (reset r refl (seat_users-reset s.game.seats) refl)
      | inr r ↦
          by_result (snapshot (new_game id deck))
            (sym (recover-new id deck s _ e (no_issues s e) r))
            (waiting-IsValid (new_game id deck) refl full) (recreated r refl)
    ]
  ]
    where
      by_result :
          (t : Snapshot)
          → t ≡ recover_game id deck s (validate_game s)
          → IsValid t
          → Recovered id deck s t
          → IsValid (recover_game id deck s (validate_game s))
            × Recovered id deck s (recover_game id deck s (validate_game s))
      by_result t e v r = (subst IsValid e v, subst (λ x. Recovered id deck s x) e r)
