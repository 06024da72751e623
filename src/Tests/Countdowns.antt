-- ===== src/Tests/Countdowns.antt =====
-- A run of the countdown queue: a countdown, its replacement, and a queue that is full.
use poker_telegram_bot.Prelude.{ℕ, ◌≤◌, ◌≡◌, refl, true, some, [], ◌∷◌, length, arith}
use poker_telegram_bot.CountdownQueue.{CountdownQueue, key_of, tracked, enqueue, new_queue}
use poker_telegram_bot.CountdownQueue.Tracked.{Pending}
use poker_telegram_bot.CountdownQueue.Queueing.{message}
use poker_telegram_bot.CountdownQueue.Runs.{
  Reached, made, after, enqueues, one_live_countdown, waiting_bounded,
}

abbrev one_countdown : CountdownQueue
one_countdown = record {
  maxsize = 2;
  messages = message 4 5 "4:5" ∷ [];
  waiting = 0 ∷ [];
  unfinished = 1;
  active_countdowns = ((4, 5), 0) ∷ [];
}

abbrev replaced : CountdownQueue
replaced = record {
  maxsize = 2;
  messages =
      record { chat_id = 4; message_id = 5; anchor_key = "4:5"; cancelled = true }
      ∷ message 4 5 "4:5"
      ∷ [];
  waiting = 0 ∷ 1 ∷ [];
  unfinished = 2;
  active_countdowns = ((4, 5), 1) ∷ [];
}

first_enqueued : enqueue 4 5 "4:5" (new_queue 2) ≡ some (0, one_countdown)
unfolding enqueue
first_enqueued = refl

then_enqueued : enqueue 4 5 "4:5" one_countdown ≡ some (1, replaced)
unfolding enqueue
then_enqueued = refl

one_run : Reached 2 one_countdown []
one_run = after made (enqueues 4 5 "4:5" 0 first_enqueued)

two_run : Reached 2 replaced []
two_run = after one_run (enqueues 4 5 "4:5" 1 then_enqueued)

second_live : Pending replaced 1 (message 4 5 "4:5")
second_live = record { waits = refl; at = refl; alive = refl }

one_live_countdown_example :
    (◌≡◌ {A = ℕ} 1 1) × (tracked (key_of (message 4 5 "4:5")) replaced.active_countdowns ≡ some 1)
one_live_countdown_example =
    one_live_countdown 2 replaced [] 1 1 (message 4 5 "4:5") (message 4 5 "4:5") two_run second_live
      second_live refl

waiting_bounded_example : length replaced.waiting ≤ 2
waiting_bounded_example = waiting_bounded 2 replaced [] two_run (omega arith)
