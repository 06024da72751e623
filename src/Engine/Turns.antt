-- ===== src/Engine/Turns.antt =====
-- `GameEngine._advance_to_next_player` of pokerapp/game_engine.py.
use mathlib.Core.Path.{subst}
use native.Mathlib.Decide.{dec_lt}
use poker_telegram_bot.Prelude.{
  ℕ, zero, suc, ◌+◌, ◌%◌, ◌≡◌, ◌<◌, ◌≤◌, refl, ◌⊎◌, inl, inr, true, false, Option, none, some, List,
  [], ◌∷◌, length, get_elem?, Bool-cases, arith,
}
use poker_telegram_bot.Engine.{
  TablePlayer, TableState, is_folded, next_unfolded, advance_to_next_player,
}

-- The player `m` places after `current` has folded.
abbrev pub FoldedAt : List TablePlayer → ℕ → ℕ → Type 0
FoldedAt ps current m =
    (q : TablePlayer) × (get_elem? ps ((current + m) % length ps) ≡ some q)
    × (is_folded q.status ≡ true)

-- The first player in play from `offset` on, `j` places after `current`.
pub record InPlayAt (ps : List TablePlayer) (current offset j : ℕ) : Type 0 where
  pub later : offset ≤ j
  pub player : TablePlayer
  pub there : get_elem? ps ((current + j) % length ps) ≡ some player
  pub in_play : is_folded player.status ≡ false
  pub nearest : (m : ℕ) → offset ≤ m → m < j → FoldedAt ps current m

abbrev Scanned : List TablePlayer → ℕ → ℕ → ℕ → Option ℕ → Type 0
Scanned ps current rounds offset r =
    ((j : ℕ) × (j < offset + rounds)
      × InPlayAt ps current offset j
      × (r ≡ some ((current + j) % length ps)))
    ⊎ (((m : ℕ) → offset ≤ m → m < offset + rounds → FoldedAt ps current m) × (r ≡ none))

get_elem?-below :
    {A : Type 0} (xs : List A) (i : ℕ) → i < length xs → (a : A) × (get_elem? xs i ≡ some a)
get_elem?-below [] i h = absurd (omega arith)
get_elem?-below (x ∷ xs) zero h = (x, refl)
get_elem?-below (x ∷ xs) (suc i) h = get_elem?-below xs i (omega arith)

mod-below : (k n : ℕ) → 0 < n → k % n < n
mod-below k n h = grind arith

module _ (ps : List TablePlayer) (current : ℕ) (some_player : 0 < length ps) where
  at : (offset : ℕ) → (q : TablePlayer) × (get_elem? ps ((current + offset) % length ps) ≡ some q)
  at offset = get_elem?-below ps _ (mod-below (current + offset) (length ps) some_player)

  run_from :
      (offset k : ℕ)
      → FoldedAt ps current offset
      → ((m : ℕ) → offset + 1 ≤ m → m < k → FoldedAt ps current m)
      → (m : ℕ) → offset ≤ m
      → m < k
      → FoldedAt ps current m
  run_from offset k first others m a b = elim (dec_lt offset m) [
    | yes l ↦ others m (omega arith) b
    | no l ↦ let e : offset ≡ m = omega arith in subst (FoldedAt ps current) e first
  ]

  after_folded :
      (n offset : ℕ)
      → is_folded (at offset).0.status ≡ true
      → Scanned ps current n (offset + 1) (next_unfolded ps current n (offset + 1))
      → Scanned ps current (suc n) offset (next_unfolded ps current (suc n) offset)
  unfolding next_unfolded
  after_folded n offset e (inl (j, l, at_j, r)) = inl (
    j,
    omega arith,
    record {
      later = omega (arith, at_j.later);
      player = at_j.player;
      there = at_j.there;
      in_play = at_j.in_play;
      nearest = run_from offset j first at_j.nearest;
    },
    ground (arith, (at offset).1),
  )
    where
      first : FoldedAt ps current offset
      first = ((at offset).0, (at offset).1, e)
  after_folded n offset e (inr (all_folded, r)) = inr (
    λ m a b.
        run_from offset (offset + suc n) ((at offset).0, (at offset).1, e)
          (λ k c d. all_folded k c (omega arith)) m a b,
    ground (arith, (at offset).1),
  )

  next_unfolded_lem :
      (rounds offset : ℕ)
      → Scanned ps current rounds offset (next_unfolded ps current rounds offset)
  unfolding next_unfolded
  next_unfolded_lem zero offset = inr (λ m a b. absurd (omega arith), refl)
  next_unfolded_lem (suc n) offset = elim (Bool-cases (is_folded (at offset).0.status)) [
    | inr e ↦ inl (
      offset,
      omega arith,
      record {
        later = omega arith;
        player = (at offset).0;
        there = (at offset).1;
        in_play = e;
        nearest = λ m a b. absurd (omega arith);
      },
      ground (arith, (at offset).1),
    )
    | inl e ↦ after_folded n offset e (next_unfolded_lem n (offset + 1))
  ]

-- With players at the table, the turn goes to the nearest player after the one on turn who has not
-- folded, all in between having folded, the player on turn being looked at last; if all have
-- folded, nothing changes.
pub advance_to_next_player_nearest :
    (t : TableState)
    → 0 < length t.players
    → ((j : ℕ) × (j ≤ length t.players)
        × InPlayAt t.players t.current_player_index 1 j
        × (advance_to_next_player t
            ≡ record t { current_player_index = (t.current_player_index + j) % length t.players }))
      ⊎ (((m : ℕ) → 1 ≤ m → m ≤ length t.players → FoldedAt t.players t.current_player_index m)
          × (advance_to_next_player t ≡ t))
unfolding advance_to_next_player
advance_to_next_player_nearest t h =
    elim (next_unfolded_lem t.players t.current_player_index h (length t.players) 1) [
      | inl (j, l, found, e) ↦ inl (j, omega arith, found, ground (arith))
      | inr (all_folded, e) ↦ inr (λ m a b. all_folded m a (omega arith), ground (arith))
    ]
