-- ===== src/Tests/Batches.antt =====
-- A batch of locks of two levels: the locks that an action takes with the player's report.
use Prim.Native.String.{String}
use poker_telegram_bot.Prelude.{◌≡◌, ◌≢◌, refl, true, false, List, [], ◌∷◌, pos}
use poker_telegram_bot.Locks.Levels.{resolve_level, resolve_lock_category, in_hierarchy}
use poker_telegram_bot.Locks.Batches.{
  Settings, Meets, got, answers, AcquireError, raises_out, level_in, acquire_batch,
}
use poker_telegram_bot.Locks.Batches.Reentry.{
  acquire_lock, release, released, runtime_error, once, twice, reentry_lost,
}
use poker_telegram_bot.Locks.Batches.OneLevel.{two_levels_raise}

abbrev settings : Settings
settings = record { enforce_hierarchy = true; default_level = pos 0 }

abbrev free_lock : Meets
free_lock = record {
  shutting_down = false;
  circuit_broken = false;
  free_at_once = true;
  reply = got;
}

abbrev action_keys : List String
action_keys = "stage:5" ∷ "wallet:7" ∷ "player_report:7" ∷ "stage:5" ∷ []

stage_level : level_in settings "stage:5" ≡ pos 3
unfolding resolve_level resolve_lock_category
stage_level = refl

report_level : level_in settings "player_report:7" ≡ pos 2
unfolding resolve_level resolve_lock_category
report_level = refl

differ : level_in settings "stage:5" ≢ level_in settings "player_report:7"
differ e = cc (stage_level, report_level, e)

two_levels_raise_example :
    (e : AcquireError) × ((acquire_batch settings (λ k. free_lock) [] action_keys).ended
      ≡ raises_out e)
two_levels_raise_example =
    two_levels_raise settings (λ k. free_lock) action_keys "stage:5" "player_report:7"
      (λ k. record { running = refl; closed = refl; gets = refl }) refl refl differ

pot_in_hierarchy : in_hierarchy (resolve_lock_category "pot:5") ≡ true
unfolding resolve_lock_category
pot_in_hierarchy = refl

reentry_lost_example :
    (acquire_lock settings free_lock
        (record { held = once "pot:5" (pos 1) ∷ []; stacks = "pot:5" ∷ [] })
        "pot:5"
      ≡ (answers true, record { held = twice "pot:5" (pos 1) ∷ []; stacks = "pot:5" ∷ [] }))
    × (release (record { held = twice "pot:5" (pos 1) ∷ []; stacks = "pot:5" ∷ [] }) "pot:5"
        ≡ released (record { held = once "pot:5" (pos 1) ∷ []; stacks = [] }))
    × (release (record { held = once "pot:5" (pos 1) ∷ []; stacks = [] }) "pot:5"
        ≡ runtime_error (record { held = once "pot:5" (pos 1) ∷ []; stacks = [] }))
reentry_lost_example =
    reentry_lost settings free_lock "pot:5" (pos 1) refl pot_in_hierarchy refl refl
