-- ===== src/Tests/Deadlocks.antt =====
-- A run of the search for deadlocks: two tasks that wait for each other, and one for both.
use Prim.Native.String.{String}
use poker_telegram_bot.Prelude.{ℕ, ◌≡◌, ◌↔◌, refl, none, List, [], ◌∷◌, All, pos}
use poker_telegram_bot.Locks.Levels.{LockAcquisition}
use poker_telegram_bot.Locks.Deadlock.{detect_deadlock, look}
use poker_telegram_bot.Locks.Deadlock.Reported.{Edge, IsCycle}
use poker_telegram_bot.Locks.Deadlock.Found.{Chain}
use poker_telegram_bot.Locks.Deadlock.Waiting.{
  waits_graph, Blocked, deadlock_reported, deadlock_found,
}

abbrev held : String → List LockAcquisition
held key = record { key = key; level = pos 2; count = 1 } ∷ []

abbrev states : List (ℕ × List LockAcquisition)
states = (1, held "deck:7") ∷ (2, held "betting:7") ∷ (3, held "wallet:9") ∷ []

abbrev waiting : List (ℕ × String)
waiting = (3, "deck:7") ∷ (1, "betting:7") ∷ (2, "deck:7") ∷ []

two_wait : detect_deadlock states waiting (λ key. none) ≡ (1 ∷ 2 ∷ 1 ∷ []) ∷ []
unfolding detect_deadlock look
two_wait = refl

deadlock_reported_example :
    All
      (IsCycle (waits_graph states waiting (λ key. none)))
      (detect_deadlock states waiting (λ key. none))
    × ((t w : ℕ)
        → Edge (waits_graph states waiting (λ key. none)) t w
          ↔ Blocked states waiting (λ key. none) t w)
deadlock_reported_example = deadlock_reported states waiting (λ key. none)

deadlock_found_example :
    (detect_deadlock states waiting (λ key. none) ≡ [])
    ↔ ((t : ℕ) → ¬ Chain (Blocked states waiting (λ key. none)) t t)
deadlock_found_example = deadlock_found states waiting (λ key. none)
