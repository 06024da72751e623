-- ===== src/Betting/Handler.antt =====
-- The two-phase commit of pokerapp/betting_handler.py: `_rollback`, `_commit_and_save`,
-- `_commit_with_retry` and `handle_betting_action`. Sleeping, metrics and log lines are left out, but
-- the reservation's watchdog may wake while a lock is waited for.
use poker_telegram_bot.Prelude.{
  ℕ, zero, suc, ◌-◌, Bool, true, false, Option, none, some, if◌then◌else◌, ℤ, pos,
}
use poker_telegram_bot.Wallet.{
  WalletRepository, World, Outcome, ReserveCalls, RollbackCalls, Reply, reserve_chips,
  commit_reservation, rollback_reservation, auto_rollback,
}
use poker_telegram_bot.Betting.{
  BettingAction, BetState, Loaded, loaded, not_found, load_raised, BetError, valid, invalid,
  validation_raised, validate_action, is_players_turn,
}
use poker_telegram_bot.Betting.Retry.{
  RetryPolicy, Timeout, AbortMessage, should_retry, classify_abort_reason, format_abort_message,
}

-- What `save_game_state_with_version` answers.
pub data Saved : Type 0 where
  saved conflict save_raised : Saved

-- What the calls of one `_commit_and_save` answer; `apply` is `apply_betting_action`, and answers
-- nothing where it raises or returns no mapping.
pub record CommitCalls : Type 0 where
  pub load_call : Loaded
  pub commit_call : Outcome
  pub apply : BetState → ℕ → BettingAction → ℕ → Option BetState
  pub save_call : Saved
  pub rollback_calls : RollbackCalls

-- One round for the table lock: the lock is taken, or it times out, or taking it fails otherwise.
pub data Attempt : Type 0 where
  acquired : CommitCalls → Attempt
  lock_timeout : Timeout → RollbackCalls → Attempt
  lock_error : RollbackCalls → Attempt

-- A round, with the calls of the watchdog if it wakes in it, before the lock's answer.
pub record Round : Type 0 where
  pub watchdog : Option RollbackCalls
  pub lock : Attempt

pub data Message : Type 0 where
  validation_error : BetError → Message
  reserve_error : Reply → Message
  commit_failed : Reply → Message
  aborted : AbortMessage → Message
  game_not_found not_your_turn state_conflict unexpected_error busy action_failed : Message
  successful : BetState → Message

-- The handler's view of the world: the wallet service's, and the table's saved state.
pub record Table (S : Type 0) : Type 0 where
  pub wallet : World S
  pub state : Option BetState

-- `BettingResult` and the `committed` flag.
pub record Outcome2 (S : Type 0) : Type 0 where
  pub table : Table S
  pub success : Bool
  pub message : Message
  pub committed : Bool

-- What `_commit_with_retry` does: it returns, or an exception leaves it.
pub data Tried (S : Type 0) : Type 0 where
  returned : Outcome2 S → Tried S
  raised_out : RollbackCalls → Table S → Tried S

module _ (repository : WalletRepository) where
  open repository use {Store}

  -- `_rollback`; a reservation that is not there is nothing to roll back.
  unfoldable pub rollback : RollbackCalls → Option ℕ → Bool → Table Store → Table Store
  rollback calls none allow t = t
  rollback calls (some k) allow t = record t {
    wallet = (rollback_reservation repository calls k allow t.wallet).0;
  }

  -- The watchdog of a reservation wakes.
  unfoldable pub watchdog_woken : Option RollbackCalls → Option ℕ → Table Store → Table Store
  watchdog_woken (some calls) (some k) t = record t {
    wallet = auto_rollback repository calls k t.wallet;
  }
  watchdog_woken _ _ t = t

  abbrev pub failed : Message → Bool → Table Store → Outcome2 Store
  failed message flag t = record { table = t; success = false; message = message; committed = flag }

  -- Steps 4 and 5, once the wallet has committed (`flag`), or had nothing to commit.
  unfoldable pub apply_and_save :
      CommitCalls
      → ℕ
      → BettingAction
      → ℕ
      → Option ℕ
      → Bool
      → BetState
      → Table Store
      → Outcome2 Store
  apply_and_save calls u action required id flag st t =
      let undone = if flag then rollback calls.rollback_calls id true t else t in
      elim (calls.apply st u action required) [
        | none ↦ failed unexpected_error flag undone
        | some updated ↦ elim calls.save_call [
          | saved ↦ record {
            table = record t { state = some updated };
            success = true;
            message = successful updated;
            committed = flag;
          }
          | conflict ↦ failed state_conflict flag (rollback calls.rollback_calls id flag t)
          | save_raised ↦ failed unexpected_error flag undone
        ]
      ]

  -- Step 3: the wallet's commit.
  unfoldable pub commit_then_apply :
      CommitCalls → ℕ → BettingAction → ℕ → Option ℕ → BetState → Table Store → Outcome2 Store
  commit_then_apply calls u action required none st t =
      apply_and_save calls u action required none false st t
  commit_then_apply calls u action required (some k) st t =
      let (w, success, reply) = commit_reservation repository calls.commit_call k t.wallet in
      let t' = record t { wallet = w } in
      if success
      then apply_and_save calls u action required (some k) true st t'
      else failed (commit_failed reply) false (rollback calls.rollback_calls (some k) true t')

  -- `_commit_and_save`
  unfoldable pub commit_and_save :
      CommitCalls → ℕ → BettingAction → ℕ → Option ℕ → Table Store → Outcome2 Store
  commit_and_save calls u action required id t = elim calls.load_call [
    | load_raised ↦ failed unexpected_error false t
    | not_found ↦ failed game_not_found false (rollback calls.rollback_calls id false t)
    | loaded st ↦
        if is_players_turn st u
        then commit_then_apply calls u action required id st t
        else failed not_your_turn false (rollback calls.rollback_calls id false t)
  ]

  -- `_get_reservation_age` against the time to live of a reservation.
  abbrev pub time_until_expiry : ℕ → Option ℕ → Timeout → Option ℕ
  time_until_expiry ttl none t = none
  time_until_expiry ttl (some _) t = some (ttl - t.reservation_age)

  -- The loop of `_commit_with_retry`: `left` retries are left after this attempt.
  unfoldable pub attempts :
      RetryPolicy
      → ℕ
      → (ℕ → Round)
      → ℕ
      → BettingAction
      → ℕ
      → Option ℕ
      → ℕ
      → ℕ
      → Table Store
      → Tried Store
  attempts policy ttl calls u action required id zero attempt t =
      let t' = watchdog_woken (calls attempt).watchdog id t in
      elim ((calls attempt).lock) [
        | acquired c ↦ returned (commit_and_save c u action required id t')
        | lock_error r ↦ raised_out r t'
        | lock_timeout timeout r ↦ returned (failed busy false (rollback r id false t'))
      ]
  attempts policy ttl calls u action required id (suc left) attempt t =
      let t' = watchdog_woken (calls attempt).watchdog id t in
      let rest = attempts policy ttl calls u action required id left (suc attempt) t' in
      elim ((calls attempt).lock) [
        | acquired c ↦ returned (commit_and_save c u action required id t')
        | lock_error r ↦ raised_out r t'
        | lock_timeout timeout r ↦
            let expiry = time_until_expiry ttl id timeout in
            if should_retry policy timeout expiry
            then rest
            else returned (
                failed
                  (aborted (
                    format_abort_message (classify_abort_reason policy timeout expiry)
                      timeout.queue_depth))
                  false (rollback r id false t'))
      ]

  -- `_commit_with_retry`: without smart retry, or with no retry allowed, there is one attempt.
  unfoldable pub commit_with_retry :
      RetryPolicy
      → Bool
      → ℕ
      → (ℕ → Round)
      → ℕ
      → BettingAction
      → ℕ
      → Option ℕ
      → Table Store
      → Tried Store
  commit_with_retry policy smart ttl calls u action required id t =
      attempts policy ttl calls u action required id (if smart then policy.max_attempts else 0) 0 t

  -- The `except` clause of `handle_betting_action`.
  abbrev pub caught : Option ℕ → Tried Store → Outcome2 Store
  caught id (returned o) = o
  caught id (raised_out r t) = failed action_failed false (rollback r id false t)

  -- `handle_betting_action`; `k` is the id that a reservation would get.
  unfoldable pub handle_betting_action :
      RetryPolicy
      → Bool
      → ℕ
      → Loaded
      → ReserveCalls
      → (ℕ → Round)
      → ℕ
      → ℕ
      → ℕ
      → BettingAction
      → Option ℤ
      → Table Store
      → Outcome2 Store
  handle_betting_action policy smart ttl load reserve calls k u c action amount t =
      elim (validate_action load u action amount) [
        | validation_raised ↦ failed action_failed false t
        | invalid e ↦ failed (validation_error e) false t
        | valid zero ↦ caught none (commit_with_retry policy smart ttl calls u action 0 none t)
        | valid (suc n) ↦
            let (w, success, id, reply) =
              reserve_chips repository reserve k u c (pos (suc n)) t.wallet in
            let t' = record t { wallet = w } in
            if success
            then caught id (commit_with_retry policy smart ttl calls u action (suc n) id t')
            else failed (reserve_error reply) false t'
      ]
