-- ===== src/Tests/Table.antt =====
-- Runs over seats, the dealer, turns and streets.
use poker_telegram_bot.Prelude.{
  ℕ, ◌≡◌, ◌≤◌, ◌<◌, refl, ◌⊎◌, false, ◌||◌, none, some, [], ◌∷◌, length, leb, arith, pos, minus_one,
}
use poker_telegram_bot.Entities.{Game, Player, contenders, round_pre_flop}
use poker_telegram_bot.Entities.Seats.{IsSeated}
use poker_telegram_bot.Play.{Processed, find_next_active_player_index, is_betting_round_over}
use poker_telegram_bot.WalletManager.{Purse}
use poker_telegram_bot.Play.Turn.{next_turn, TurnCalls, game_loaded, handle_locked_player_action}
use poker_telegram_bot.Play.Rounds.Seats.{turn_at_empty_seat}
use poker_telegram_bot.Stages.{progress_stage, nobody_on_turn}
use poker_telegram_bot.Stages.Progress.{Dealt}
use poker_telegram_bot.Stages.Streets.{Progressed}
use poker_telegram_bot.Stages.Streets.Loop.{progress_stage-Progressed}
use poker_telegram_bot.Tests.Data.{game_with, caller, raiser, opening_game, gap_game}

abbrev seated_caller : Player
seated_caller = record caller { seat_index = some 1 }

abbrev one_seated : Game
one_seated =
    game_with round_pre_flop 0 0
      (none ∷ some seated_caller ∷ none ∷ none ∷ none ∷ none ∷ none ∷ none ∷ []) [] [] minus_one

one_seated-IsSeated : IsSeated one_seated
one_seated-IsSeated = record { eight = refl; indexed = (refl, tt); one_each = (tt, tt) }

next_after_caller : find_next_active_player_index opening_game (pos 0) ≡ pos 1
unfolding find_next_active_player_index
next_after_caller = refl

turn_to_raiser :
    next_turn opening_game ≡ some (raiser, record opening_game { current_player_index = pos 1 })
unfolding next_turn
turn_to_raiser = refl

first_in_list : find_next_active_player_index gap_game (pos 1) ≡ pos 0
unfolding find_next_active_player_index
first_in_list = refl

gap_game_goes_on : (leb (length (contenders gap_game)) 1 || is_betting_round_over gap_game) ≡ false
unfolding is_betting_round_over
gap_game_goes_on = refl

turn_at_empty_seat_example :
    (next_turn gap_game ≡ some (caller, record gap_game { current_player_index = pos 0 }))
    × ((c : TurnCalls) (user : ℕ) (processor : Game → ℕ → Player → Purse → Processed) (w : Purse)
        → c.load ≡ game_loaded (record gap_game { current_player_index = pos 0 })
        → ((handle_locked_player_action c user processor w).success ≡ false)
          × ((handle_locked_player_action c user processor w).wallet ≡ w))
turn_at_empty_seat_example =
    turn_at_empty_seat gap_game (some caller ∷ some raiser ∷ none ∷ none ∷ none ∷ none ∷ none ∷ [])
      caller refl refl gap_game_goes_on first_in_list

opening_game-Dealt : Dealt opening_game
opening_game-Dealt = record { in_play = λ e. absurd (cc); board = refl; deck = omega arith }

progress_stage-Progressed_example :
    ((2 ≤ 1) × (progress_stage (λ g. g) opening_game ≡ some (false, nobody_on_turn opening_game)))
    ⊎ ((1 < 2) × Progressed (λ g. g) opening_game (progress_stage (λ g. g) opening_game))
progress_stage-Progressed_example =
    progress_stage-Progressed (λ g. g) opening_game opening_game-Dealt
