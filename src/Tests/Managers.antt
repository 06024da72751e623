-- ===== src/Tests/Managers.antt =====
-- Runs of the lock order, the circuit breaker and the player manager.
use poker_telegram_bot.Prelude.{ℕ, ◌≡◌, refl, true, [], length, sum_by, pos}
use poker_telegram_bot.Entities.{Player, players}
use poker_telegram_bot.Entities.Seats.{Indexed}
use poker_telegram_bot.Locks.Levels.{
  LockAcquisition, record_acquired, validate_lock_hierarchy, name_error, passes,
  resolve_lock_category, in_hierarchy,
}
use poker_telegram_bot.Locks.Levels.Records.{second_lock_fails}
use poker_telegram_bot.PlayerManager.{reseat_players}
use poker_telegram_bot.PlayerManager.Reseating.{Seatless, reseat_players_keeps}
use poker_telegram_bot.Tests.Data.{gap_game}

abbrev held_wallet : LockAcquisition
held_wallet = record { key = "wallet:7"; level = pos 3; count = 1 }

pot_in : in_hierarchy (resolve_lock_category "pot:1") ≡ true
unfolding resolve_lock_category
pot_in = refl

table_in : in_hierarchy (resolve_lock_category "table_write:1") ≡ true
unfolding resolve_lock_category
table_in = refl

second_lock_fails_example :
    (validate_lock_hierarchy (record_acquired [] "pot:1" (pos 1)) "table_write:1" ≡ name_error)
    × (validate_lock_hierarchy [] "pot:1" ≡ passes)
second_lock_fails_example = second_lock_fails [] "pot:1" "table_write:1" (pos 1) pot_in table_in

reseat_players_keeps_example :
    Indexed 0 (reseat_players gap_game).seats
    × (length (reseat_players gap_game).seats ≡ 8)
    × ((f : Player → ℕ)
        → Seatless f
        → sum_by f (players (reseat_players gap_game)) ≡ sum_by f (players gap_game))
reseat_players_keeps_example = reseat_players_keeps gap_game
