-- ===== src/Betting/Atomicity.antt =====
-- A betting action of pokerapp/betting_handler.py happens in the wallet and at the table, or in
-- neither.
use poker_telegram_bot.Prelude.{
  ℕ, zero, suc, ◌≡◌, refl, ◌⊎◌, inl, inr, Bool, true, false, Option, none, some, if◌then◌else◌, ℤ,
  pos,
}
use poker_telegram_bot.Wallet.{
  pending, WalletRepository, World, ReserveCalls, RollbackCalls, Reply, reserve_chips,
}
use poker_telegram_bot.Wallet.Faultless.{
  Settles, Reserved, Refused, Succeeded, reserve_chips_atomic,
}
use poker_telegram_bot.Wallet.Refunds.{Clean}
use poker_telegram_bot.Betting.{BettingAction, Loaded, valid, validate_action}
use poker_telegram_bot.Betting.Retry.{
  RetryPolicy, should_retry, classify_abort_reason, format_abort_message,
}
use poker_telegram_bot.Betting.Handler.{
  Attempt, Round, watchdog_woken, acquired, lock_timeout, lock_error, Message, Table, Tried,
  returned, raised_out, rollback, commit_and_save, attempts, commit_with_retry, caught,
  handle_betting_action, time_until_expiry, failed,
}
use poker_telegram_bot.Betting.Commit.{
  Reliable, Orderly, AllOrNothing, rollback_undoes, commit-AllOrNothing,
}

module _ (repository : WalletRepository) where
  open repository use {Store, get_balance}

  -- What becomes of a try once `handle_betting_action` has caught what leaves it.
  abbrev CaughtAllOrNothing : ℕ → ℕ → ℕ → ℕ → Table Store → Tried Store → Type 0
  CaughtAllOrNothing k u c a before tried =
      AllOrNothing repository u c a before (caught repository (some k) tried)

  undo_pending :
      (calls : RollbackCalls) (k u c a : ℕ) (message : Message) (before : Table Store)
      (w : World Store)
      → Clean calls
      → Reserved repository k u c a before.wallet w
      → AllOrNothing repository u c a before (
          failed repository message false
            (rollback repository calls (some k) false (record before { wallet = w })))
  undo_pending calls k u c a message before w clean r = inr (
      rollback_undoes repository calls k u c a false pending message false before w
        (record before { wallet = w }) clean r refl refl r.held tt)

  attempts_all_or_nothing :
      (policy : RetryPolicy) (ttl : ℕ) (calls : ℕ → Round) (k u c a : ℕ) (action : BettingAction)
      (left attempt : ℕ) (before : Table Store) (w : World Store)
      → ((n : ℕ) → Orderly (calls n))
      → Reserved repository k u c a before.wallet w
      → CaughtAllOrNothing k u c a before (
          attempts repository policy ttl calls u action a
            (some k)
            left
            attempt
            (record before { wallet = w }))
  unfolding attempts watchdog_woken
  attempts_all_or_nothing policy ttl calls k u c a action zero attempt before w reliable r =
      last (calls attempt).watchdog (reliable attempt).0 (calls attempt).lock (reliable attempt).1
    where
      last :
          (d : Option RollbackCalls)
          → d ≡ none
          → (x : Attempt) → Reliable x
          → CaughtAllOrNothing k u c a before (elim x [
            | acquired y ↦ returned (
                commit_and_save repository y u action a
                  (some k)
                  (watchdog_woken repository d (some k) (record before { wallet = w })))
            | lock_error y ↦
                raised_out y (watchdog_woken repository d (some k) (record before { wallet = w }))
            | lock_timeout timeout y ↦ returned (
                failed repository Message.busy false (
                  rollback repository y
                    (some k)
                    false
                    (watchdog_woken repository d (some k) (record before { wallet = w }))))
          ])
      last none _ (acquired y) h = commit-AllOrNothing repository y k u c a action before w h r
      last none _ (lock_error y) h = undo_pending y k u c a Message.action_failed before w h r
      last none _ (lock_timeout timeout y) h = undo_pending y k u c a Message.busy before w h r
      last (some _) e x h = absurd (cc)
  attempts_all_or_nothing policy ttl calls k u c a action (suc left) attempt before w reliable r =
      round (calls attempt).watchdog (reliable attempt).0 (calls attempt).lock (reliable attempt).1
        (attempts_all_or_nothing policy ttl calls k u c a action left (suc attempt) before w
          reliable r)
    where
      again : Option RollbackCalls → Tried Store
      again d =
          attempts repository policy ttl calls u action a (some k) left (suc attempt)
            (watchdog_woken repository d (some k) (record before { wallet = w }))

      round :
          (d : Option RollbackCalls)
          → d ≡ none
          → (x : Attempt) → Reliable x
          → CaughtAllOrNothing k u c a before (again none)
          → CaughtAllOrNothing k u c a before (elim x [
            | acquired y ↦ returned (
                commit_and_save repository y u action a
                  (some k)
                  (watchdog_woken repository d (some k) (record before { wallet = w })))
            | lock_error y ↦
                raised_out y (watchdog_woken repository d (some k) (record before { wallet = w }))
            | lock_timeout timeout y ↦
                let expiry = time_until_expiry repository ttl (some k) timeout in
                if should_retry policy timeout expiry
                then again d
                else returned (
                    failed repository
                      (Message.aborted (
                        format_abort_message
                          (classify_abort_reason policy timeout expiry)
                          timeout.queue_depth))
                      false
                      (rollback repository y
                        (some k)
                        false
                        (watchdog_woken repository d (some k) (record before { wallet = w }))))
          ])
      round (some _) e x h rest = absurd (cc)
      round none _ (acquired y) h rest =
          commit-AllOrNothing repository y k u c a action before w h r
      round none _ (lock_error y) h rest = undo_pending y k u c a Message.action_failed before w h r
      round none _ (lock_timeout timeout y) h rest =
          choose (should_retry policy timeout (time_until_expiry repository ttl (some k) timeout))
            (again none) _ rest (undo_pending y k u c a _ before w h r)
        where
          choose :
              (b : Bool) (x z : Tried Store)
              → CaughtAllOrNothing k u c a before x
              → CaughtAllOrNothing k u c a before z
              → CaughtAllOrNothing k u c a before (if b then x else z)
          choose true x z hx hz = hx
          choose false x z hx hz = hz

  -- A betting action that needs chips, where no call of the reservation times out after its effect
  -- and its compensating credit is made, the remote calls after the reservation are reliable, and
  -- the reservation's watchdog does not wake during the attempts: either it takes place, the chips
  -- leave the account once, no other balance changes, and the table has the new state that is
  -- reported; or it fails, and every balance and the table's state are what they were. This holds
  -- for every retry policy, whatever lock attempts time out or fail, and whether the save succeeds,
  -- meets a conflict or raises.
  pub handle_betting_action_atomic :
      (policy : RetryPolicy) (smart : Bool) (ttl : ℕ) (load : Loaded) (reserve : ReserveCalls)
      (calls : ℕ → Round) (k u c n : ℕ) (action : BettingAction) (amount : Option ℤ)
      (before : Table Store)
      → validate_action load u action amount ≡ valid (suc n)
      → Settles reserve
      → ((i : ℕ) → Orderly (calls i))
      → AllOrNothing repository u c (suc n) before (
          handle_betting_action repository policy smart ttl load reserve calls k u c action amount
            before)
  unfolding handle_betting_action commit_with_retry
  handle_betting_action_atomic policy smart ttl load reserve calls k u c n action amount before v s
        reliable =
      rw (v, handle_betting_action)
        (by_reservation (reserve_chips repository reserve k u c (pos (suc n)) before.wallet)
          (reserve_chips_atomic repository reserve k u c n before.wallet s))
    where
      by_reservation :
          (x : World Store × Bool × Option ℕ × Reply)
          → Succeeded repository k u c (suc n) before.wallet x ⊎ Refused repository before.wallet x
          → AllOrNothing repository u c (suc n) before (
              if x.1
              then caught repository x.2 (
                  commit_with_retry repository policy smart ttl calls u action
                    (suc n)
                    x.2
                    (record before { wallet = x.0 }))
              else failed repository
                  (Message.reserve_error x.3)
                  false
                  (record before { wallet = x.0 }))
      by_reservation (w, success, id, reply) (inl (yes_, is, r)) =
          rw (yes_, is)
            (attempts_all_or_nothing policy ttl calls k u c (suc n) action
              (if smart then policy.max_attempts else 0) 0 before w reliable r)
      by_reservation (w, success, id, reply) (inr (no_, none_, same, kept)) =
          rw no_ (inr (record { failure = refl; same_balances = same; same_state = refl }))
