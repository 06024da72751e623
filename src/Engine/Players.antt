-- ===== src/Engine/Players.antt =====
-- The players' list of pokerapp/game_engine.py: finding, writing and clearing entries.
use poker_telegram_bot.Prelude.{
  ℕ, ◌+◌, ◌≡◌, refl, ap, some, List, [], ◌∷◌, map, sum_by, ◌==◌, false, arith,
}
use poker_telegram_bot.Engine.{TablePlayer, clear_bet, find_player, write_player}

-- The chips in the stacks and in front of them.
abbrev pub chips_of : List TablePlayer → ℕ
chips_of ps = sum_by (λ (p : TablePlayer). p.chips + p.bet) ps

abbrev pub users : List TablePlayer → List ℕ
users ps = map (λ (p : TablePlayer). p.user_id) ps

pub find-user :
    (ps : List TablePlayer) (u : ℕ) (p : TablePlayer) → find_player ps u ≡ some p → p.user_id ≡ u
unfolding find_player
find-user [] u p h = cc
find-user (x ∷ ps) u p h = ground (arith, find-user ps u p)

module _ (u : ℕ) (q : TablePlayer) where
  pub find-write_self :
      (ps : List TablePlayer) (p : TablePlayer)
      → find_player ps u ≡ some p
      → q.user_id ≡ u
      → find_player (write_player ps u q) u ≡ some q
  unfolding find_player write_player
  find-write_self [] p h e = cc
  find-write_self (x ∷ ps) p h e = ground (arith, find-write_self ps p)

  pub find-write_ne :
      (ps : List TablePlayer) (v : ℕ)
      → q.user_id ≡ u
      → (u == v) ≡ false
      → find_player (write_player ps u q) v ≡ find_player ps v
  unfolding find_player write_player
  find-write_ne [] v e n = refl
  find-write_ne (x ∷ ps) v e n = ground (arith, find-write_ne ps v)

  pub chips-write :
      (ps : List TablePlayer) (p : TablePlayer)
      → find_player ps u ≡ some p
      → q.chips + q.bet ≡ p.chips + p.bet
      → chips_of (write_player ps u q) ≡ chips_of ps
  unfolding find_player write_player
  chips-write [] p h e = cc
  chips-write (x ∷ ps) p h e = ground (arith, chips-write ps p)

  pub users-write : (ps : List TablePlayer) → q.user_id ≡ u → users (write_player ps u q) ≡ users ps
  unfolding write_player
  users-write [] e = refl
  users-write (x ∷ ps) e = ground (arith, users-write ps)

pub chips-clear :
    (ps : List TablePlayer) → chips_of (map clear_bet ps) + sum_by (λ p. p.bet) ps ≡ chips_of ps
chips-clear [] = refl
chips-clear (x ∷ ps) = omega (arith, chips-clear ps)

pub bets-clear : (ps : List TablePlayer) → sum_by (λ p. p.bet) (map clear_bet ps) ≡ 0
bets-clear [] = refl
bets-clear (x ∷ ps) = omega (arith, bets-clear ps)

pub users-clear : (ps : List TablePlayer) → users (map clear_bet ps) ≡ users ps
users-clear [] = refl
users-clear (x ∷ ps) = ap (λ l. x.user_id ∷ l) (users-clear ps)

pub find-clear :
    (ps : List TablePlayer) (u : ℕ) (p : TablePlayer)
    → find_player ps u ≡ some p
    → find_player (map clear_bet ps) u ≡ some (clear_bet p)
unfolding find_player
find-clear [] u p h = cc
find-clear (x ∷ ps) u p h = ground (arith, find-clear ps u p)
