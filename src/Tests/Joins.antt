-- ===== src/Tests/Joins.antt =====
-- Runs of joining and leaving a table.
use poker_telegram_bot.Prelude.{
  ◌≡◌, ◌<◌, ◌↔◌, refl, true, false, none, some, List, [], ◌∷◌, length, minus_one,
}
use poker_telegram_bot.Cards.{get_cards}
use poker_telegram_bot.Entities.{Player, active, initial, add_player}
use poker_telegram_bot.Entities.Seats.{Absent-seat_of_from}
use poker_telegram_bot.Validator.{Snapshot, snapshot, new_game, validate_game}
use poker_telegram_bot.Tables.{
  Redis, pickled, number, undisturbed, watch_error, load_game_with_version,
  save_game_with_version_check,
}
use poker_telegram_bot.Joining.{
  Attempt, raises, decide_join, decide_leave, process_once, returned, join_game, leave_game,
}
use poker_telegram_bot.Joining.Seats.{Joined, join_game_seats, full_table_raises}
use poker_telegram_bot.Joining.Leaving.{Gone, leave_game_frees}
use poker_telegram_bot.Tests.Data.{game_with, player_with}

abbrev newcomer : Player
newcomer = player_with 9 active [] 0 0

abbrev kept_table : Redis
kept_table = record {
  game = some (pickled (snapshot (new_game 6 get_cards)));
  version = some (number 3);
}

-- The first attempt loses its save to another process, the second succeeds.
abbrev two_attempts : List Attempt
two_attempts =
    record {
      load_raises = false;
      new_id = 5;
      new_deck = get_cards;
      load_reaches = true;
      earlier = λ r. r;
      others = λ r. r;
      later = λ r. r;
      meanwhile = λ r. r;
      transaction = watch_error;
    }
    ∷ record {
      load_raises = false;
      new_id = 5;
      new_deck = get_cards;
      load_reaches = true;
      earlier = λ r. r;
      others = λ r. r;
      later = λ r. r;
      meanwhile = λ r. r;
      transaction = undisturbed;
    }
    ∷ []

joins : (join_game 8 newcomer two_attempts kept_table).0 ≡ returned true
unfolding join_game process_once decide_join load_game_with_version validate_game add_player
    save_game_with_version_check
joins = refl

join_game_seats_example :
    Joined 8 newcomer two_attempts kept_table (join_game 8 newcomer two_attempts kept_table).1
join_game_seats_example = join_game_seats 8 newcomer two_attempts kept_table joins

abbrev two_seated : Redis
two_seated = record {
  game = some (
      pickled (
        snapshot (
          game_with initial 0 0
            (some (player_with 9 active [] 0 0)
              ∷ some (player_with 2 active [] 0 0)
              ∷ none
              ∷ none
              ∷ none
              ∷ none
              ∷ none
              ∷ none
              ∷ [])
            [] get_cards minus_one)));
  version = some (number 3);
}

leaves : (leave_game 9 two_attempts two_seated).0 ≡ returned true
unfolding leave_game process_once decide_leave load_game_with_version validate_game
    save_game_with_version_check
leaves = refl

leave_game_frees_example : Gone 9 two_attempts two_seated (leave_game 9 two_attempts two_seated).1
leave_game_frees_example = leave_game_frees 9 two_attempts two_seated leaves

abbrev full_table : Snapshot
full_table = snapshot (
    game_with initial 0 0
      (some (player_with 1 active [] 0 0)
        ∷ some (player_with 2 active [] 0 0)
        ∷ some (player_with 3 active [] 0 0)
        ∷ some (player_with 4 active [] 0 0)
        ∷ some (player_with 5 active [] 0 0)
        ∷ some (player_with 6 active [] 0 0)
        ∷ some (player_with 7 active [] 0 0)
        ∷ some (player_with 8 active [] 0 0)
        ∷ [])
      [] get_cards minus_one)

full_table_raises_example :
    (decide_join 9 newcomer full_table ≡ raises) ↔ (length full_table.game.seats < 9)
full_table_raises_example =
    full_table_raises 9 newcomer full_table refl
      (Absent-seat_of_from 9 0 full_table.game.seats refl) refl
