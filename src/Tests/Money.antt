-- ===== src/Tests/Money.antt =====
-- Runs over reservations and betting actions, with a ledger for the wallet repository.
use poker_telegram_bot.Prelude.{
  ℕ, zero, suc, ◌≡◌, refl, ◌⊎◌, true, false, none, some, [], ◌∷◌, arith, pos,
}
use poker_telegram_bot.Wallet.{
  World, Reservation, pending, rolled_back, reserve_chips, rollback_reservation, done,
}
use poker_telegram_bot.Wallet.Faultless.{Settles, Succeeded, Refused, reserve_chips_atomic}
use poker_telegram_bot.Wallet.Refunds.{
  Clean, Cancelled, PaidBack, rollback_reservation_cancels, rollback_again_pays_again,
}
use poker_telegram_bot.Betting.{raise, BetState, Loaded, loaded, valid, validate_action}
use poker_telegram_bot.Betting.Retry.{RetryPolicy, Timeout}
use poker_telegram_bot.Betting.Handler.{
  CommitCalls, Round, Saved, conflict, acquired, lock_timeout, Table, handle_betting_action,
}
use poker_telegram_bot.Betting.Commit.{AllOrNothing, Orderly}
use poker_telegram_bot.Betting.Atomicity.{handle_betting_action_atomic}
use poker_telegram_bot.Tests.Data.{ledger, full_store, world_with, reservation, all_done, undo_done}

all_done-Settles : Settles all_done
all_done-Settles = record {
  debit_settles = λ e. absurd (cc);
  create_settles = λ e. absurd (cc);
  conflict_settles = λ e. absurd (cc);
  compensates = refl;
}

undo_done-Clean : Clean undo_done
undo_done-Clean = record { script_done = refl; load_done = refl; credit_done = refl }

reserve_chips_atomic_example :
    Succeeded ledger 4 1 2 30
      (world_with [])
      (reserve_chips ledger all_done 4 1 2 (pos 30) (world_with []))
    ⊎ Refused ledger (world_with []) (reserve_chips ledger all_done 4 1 2 (pos 30) (world_with []))
reserve_chips_atomic_example =
    reserve_chips_atomic ledger all_done 4 1 2 29 (world_with []) all_done-Settles

abbrev world_of : Reservation → World (ℕ → ℕ → ℕ)
world_of r = world_with ((4, r) ∷ [])

rollback_reservation_cancels_example :
    Cancelled ledger 4
      (reservation pending)
      (world_of (reservation pending))
      (rollback_reservation ledger undo_done 4 false (world_of (reservation pending)))
rollback_reservation_cancels_example =
    rollback_reservation_cancels ledger undo_done 4 false (reservation pending)
      (world_of (reservation pending)) undo_done-Clean refl tt

rollback_again_pays_again_example :
    let (w', success, _) =
      rollback_reservation ledger undo_done 4 false (world_of (reservation rolled_back)) in
    (success ≡ true)
    × PaidBack ledger (reservation rolled_back) full_store w'.store
    × (w'.reservations ≡ (world_of (reservation rolled_back)).reservations)
rollback_again_pays_again_example =
    rollback_again_pays_again ledger undo_done 4 false (reservation rolled_back)
      (world_of (reservation rolled_back)) undo_done-Clean refl refl

-- A table where user 1 has bet 10 of the current 20 and is to act.
abbrev bet_state : BetState
bet_state = record {
  players = record { user_id = 1; folded = false; current_bet = 10; chips = 100 } ∷ [];
  current_bet = 20;
  current_player_id = some 1;
  version = 3;
}

raise_to_40 : validate_action (loaded bet_state) 1 raise (some (pos 40)) ≡ valid 30
unfolding validate_action
raise_to_40 = refl

abbrev policy : RetryPolicy
policy = record {
  max_attempts = 2;
  backoff_delays = 1 ∷ 2 ∷ [];
  queue_depth_threshold = 5;
  estimated_wait_threshold = 25;
  grace_buffer = 30;
}

abbrev congestion : Timeout
congestion = record { queue_depth = 8; estimated_wait = 10; reservation_age = 3 }

abbrev round_with : Loaded → Saved → CommitCalls
round_with l s = record {
  load_call = l;
  commit_call = done;
  apply = λ st u a n. some st;
  save_call = s;
  rollback_calls = undo_done;
}

abbrev table_before : Table (ℕ → ℕ → ℕ)
table_before = record { wallet = world_with []; state = some bet_state }

-- The lock is taken at the second attempt, and the save meets a conflict.
abbrev congested : ℕ → Round
congested zero = record { watchdog = none; lock = lock_timeout congestion undo_done }
congested (suc i) = record {
  watchdog = none;
  lock = acquired (round_with (loaded bet_state) conflict);
}

congested-Orderly : (i : ℕ) → Orderly (congested i)
congested-Orderly zero = (refl, undo_done-Clean)
congested-Orderly (suc i) = (refl, (refl, undo_done-Clean, λ e. absurd (cc)))

handle_betting_action_atomic_example : AllOrNothing ledger 1 2 30 table_before (
    handle_betting_action ledger policy true 300
      (loaded bet_state)
      all_done
      congested
      4
      1
      2
      raise
      (some (pos 40))
      table_before)
handle_betting_action_atomic_example =
    handle_betting_action_atomic ledger policy true 300 (loaded bet_state) all_done congested 4 1 2
      29 raise (some (pos 40)) table_before raise_to_40 all_done-Settles congested-Orderly

reserved_30 :
    Succeeded ledger 4 1 2 30
      (world_with [])
      (reserve_chips ledger all_done 4 1 2 (pos 30) (world_with []))
unfolding reserve_chips
reserved_30 = (
  refl,
  refl,
  record { paid = refl; others = λ v d h. ground arith; held = refl; guarded = refl },
)
