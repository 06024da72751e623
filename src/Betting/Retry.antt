-- ===== src/Betting/Retry.antt =====
-- The lock retry policy of pokerapp/betting_handler.py: `_should_retry`, `_classify_abort_reason`,
-- `_format_abort_message` and `_select_backoff_delay`.
use poker_telegram_bot.Prelude.{
  ℕ, ◌+◌, ◌-◌, ◌≤◌, ◌≡◌, ◌≢◌, Bool, true, false, Option, none, some, List, length, get_elem?, ltb,
  min, if◌then◌else◌, arith,
}

pub record RetryPolicy : Type 0 where
  pub max_attempts : ℕ
  pub backoff_delays : List ℕ
  pub queue_depth_threshold : ℕ
  pub estimated_wait_threshold : ℕ
  pub grace_buffer : ℕ

-- What is known when an attempt to take the lock has timed out. No time until expiry stands for
-- infinity: there is no reservation.
pub record Timeout : Type 0 where
  pub queue_depth : ℕ
  pub estimated_wait : ℕ
  pub reservation_age : ℕ

pub data AbortReason : Type 0 where
  queue_congested reservation_expired reservation_expiring wait_too_long insufficient_grace
        abandoned :
      AbortReason

-- `t < x` where no time stands for infinity.
abbrev pub expires_before : Option ℕ → ℕ → Bool
expires_before none x = false
expires_before (some t) x = ltb t x

unfoldable pub should_retry : RetryPolicy → Timeout → Option ℕ → Bool
should_retry policy t expiry =
    if ltb policy.queue_depth_threshold t.queue_depth
    then false
    else if expires_before expiry t.estimated_wait
    then false
    else if ltb policy.estimated_wait_threshold t.estimated_wait
    then false
    else if expires_before expiry (t.estimated_wait + policy.grace_buffer)
    then false
    else true

unfoldable pub classify_abort_reason : RetryPolicy → Timeout → Option ℕ → AbortReason
classify_abort_reason policy t expiry =
    if ltb policy.queue_depth_threshold t.queue_depth
    then queue_congested
    else if expires_before expiry 1
    then reservation_expired
    else if expires_before expiry t.estimated_wait
    then reservation_expiring
    else if ltb policy.estimated_wait_threshold t.estimated_wait
    then wait_too_long
    else if expires_before expiry (t.estimated_wait + policy.grace_buffer)
    then insufficient_grace
    else abandoned

pub data AbortMessage : Type 0 where
  table_very_busy : ℕ → AbortMessage
  reservation_gone table_busy : AbortMessage

-- `_format_abort_message`
abbrev pub format_abort_message : AbortReason → ℕ → AbortMessage
format_abort_message queue_congested depth = table_very_busy depth
format_abort_message reservation_expired depth = reservation_gone
format_abort_message reservation_expiring depth = reservation_gone
format_abort_message _ depth = table_busy

-- `_select_backoff_delay`
unfoldable pub select_backoff_delay : RetryPolicy → ℕ → ℕ
select_backoff_delay policy attempt =
    elim (get_elem? policy.backoff_delays (min attempt (length policy.backoff_delays - 1))) [
      | none ↦ 0
      | some delay ↦ delay
    ]

-- The reason `abandoned` is never given: whenever the handler does not retry, one of the tests
-- names a reason. Where it does retry, the lock queue is within its threshold, the estimated wait
-- too, and the reservation outlives the wait by the grace buffer.
retry_or_reason :
    (policy : RetryPolicy) (t : Timeout) (expiry : Option ℕ)
    → (should_retry policy t expiry ≡ false → classify_abort_reason policy t expiry ≢ abandoned)
      × (should_retry policy t expiry ≡ true
          → (t.queue_depth ≤ policy.queue_depth_threshold)
            × (t.estimated_wait ≤ policy.estimated_wait_threshold)
            × ((left : ℕ) → expiry ≡ some left → t.estimated_wait + policy.grace_buffer ≤ left))
unfolding should_retry classify_abort_reason
retry_or_reason policy t none =
    (λ h e. ground arith, λ h. (ground arith, ground arith, λ left e. absurd (cc)))
retry_or_reason policy t (some n) =
    (λ h e. ground arith, λ h. (ground arith, ground arith, λ left e. ground arith))
