-- ===== src/Play/Rounds/Seats.antt =====
-- Places in the list of players against seats at the table, over pokerapp/pokerbotmodel.py.
use mathlib.Core.Path.{subst}
use poker_telegram_bot.Prelude.{
  ℕ, zero, suc, ◌≡◌, refl, sym, ◌∙◌, inl, inr, false, ◌||◌, Option, none, some, List, [], ◌∷◌,
  get_elem?, length, leb, arith, Bool-cases, Option-cases, pos, ap,
}
use poker_telegram_bot.Entities.{
  Player, Game, occupied, players, contenders, player_at, get_player_by_seat,
}
use poker_telegram_bot.WalletManager.{Purse}
use poker_telegram_bot.Play.{Processed, is_betting_round_over, find_next_active_player_index}
use poker_telegram_bot.Play.Turn.{
  give_turn, next_turn, act_on, TurnCalls, game_loaded, handle_locked_player_action, LockReply,
  lock_held, lock_busy, lock_error,
}

-- The seats up to `k` are taken.
abbrev pub TakenTo : List (Option Player) → ℕ → Type 0
TakenTo [] k = Unit
TakenTo (none ∷ ps) k = ⊥
TakenTo (some p ∷ ps) zero = Unit
TakenTo (some p ∷ ps) (suc k) = TakenTo ps k

seat_of_list :
    (ps : List (Option Player)) (k : ℕ) → TakenTo ps k → get_elem? (occupied ps) k ≡ player_at ps k
seat_of_list [] k h = refl
seat_of_list (none ∷ ps) k h = absurd h
seat_of_list (some p ∷ ps) zero h = refl
seat_of_list (some p ∷ ps) (suc k) h = seat_of_list ps k h

-- Where no seat up to the new turn's index is empty, the player whom `_process_playing` names is
-- the one that the next action is checked against.
turn_reaches_player :
    (g g' : Game) (p : Player) (k : ℕ)
    → next_turn g ≡ some (p, g')
    → find_next_active_player_index g g.current_player_index ≡ pos k
    → TakenTo g.seats k
    → (g'.current_player_index ≡ pos k) × (get_player_by_seat g' g'.current_player_index ≡ some p)
unfolding next_turn
turn_reaches_player g g' p k e f taken =
    elim (Bool-cases (leb (length (contenders g)) 1 || is_betting_round_over g)) [
      | inl over ↦
          let step : next_turn g ≡ none = rw (next_turn, over) refl in
          absurd (ground (arith, step, e))
      | inr more ↦ elim (Option-cases (get_elem? (players g) k)) [
        | inl nobody ↦
            let step : next_turn g ≡ none = rw (next_turn, more, f, give_turn, nobody) refl in
            absurd (ground (arith, step, e))
        | inr (q, there) ↦
            let step : next_turn g ≡ some (q, record g { current_player_index = pos k }) =
              rw (next_turn, more, f, give_turn, there) refl in
            let sits : player_at g.seats k ≡ some q = sym (seat_of_list g.seats k taken) ∙ there in
            given q g' p k (sym step ∙ e) sits
      ]
    ]
  where
    given :
        (q : Player) (g' : Game) (p : Player) (k : ℕ)
        → ◌≡◌ {A = Option (Player × Game)}
            (some (q, record g { current_player_index = pos k }))
            (some (p, g'))
        → player_at g.seats k ≡ some q
        → (g'.current_player_index ≡ pos k)
          × (get_player_by_seat g' g'.current_player_index ≡ some p)
    given q g' p k same sits =
        let h : record g { current_player_index = pos k } ≡ g' = cc in
        let r : q ≡ p = cc in
        subst
          (λ x.
            (x.current_player_index ≡ pos k)
            × (get_player_by_seat x x.current_player_index ≡ some p))
          h (refl, sits ∙ ap some r)

-- The turn's index counts players, and the check of the next action counts seats. Where the first
-- seat is empty and the turn goes to the first player, no action of anybody is accepted any more:
-- whatever the locks, the store and the processor do, it fails, and the wallet is as it was.
pub turn_at_empty_seat :
    (g : Game) (ps : List (Option Player)) (p : Player)
    → g.seats ≡ none ∷ ps
    → get_elem? (players g) 0 ≡ some p
    → (leb (length (contenders g)) 1 || is_betting_round_over g) ≡ false
    → find_next_active_player_index g g.current_player_index ≡ pos 0
    → (next_turn g ≡ some (p, record g { current_player_index = pos 0 }))
      × ((c : TurnCalls) (user : ℕ) (processor : Game → ℕ → Player → Purse → Processed) (w : Purse)
          → c.load ≡ game_loaded (record g { current_player_index = pos 0 })
          → ((handle_locked_player_action c user processor w).success ≡ false)
            × ((handle_locked_player_action c user processor w).wallet ≡ w))
unfolding next_turn handle_locked_player_action act_on
turn_at_empty_seat g ps p e first more next = (
  rw (next_turn, more, next, give_turn, first) refl,
  λ c user processor w load. by_lock c user processor w load c.lock refl,
)
  where
    by_lock :
        (c : TurnCalls) (user : ℕ) (processor : Game → ℕ → Player → Purse → Processed) (w : Purse)
        → c.load ≡ game_loaded (record g { current_player_index = pos 0 })
        → (l : LockReply) → c.lock ≡ l
        → ((handle_locked_player_action c user processor w).success ≡ false)
          × ((handle_locked_player_action c user processor w).wallet ≡ w)
    by_lock c user processor w load lock_error held =
        rw (handle_locked_player_action, held) (refl, refl)
    by_lock c user processor w load lock_busy held =
        rw (handle_locked_player_action, held) (refl, refl)
    by_lock c user processor w load lock_held held =
        rw (handle_locked_player_action, held, load, act_on, e) (refl, refl)
