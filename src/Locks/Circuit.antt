-- ===== src/Locks/Circuit.antt =====
-- The circuit breaker of pokerapp/lock_manager.py, for one lock: `_record_timeout`,
-- `_is_circuit_broken` and `_reset_circuit_state`. The threshold, the interval and the clock are
-- arguments. Log lines are left out.
use poker_telegram_bot.Prelude.{
  ℕ, zero, suc, ◌+◌, ◌≡◌, ◌<◌, refl, Bool, true, false, Option, none, some, List, [], ◌∷◌, ltb, leb,
  if◌then◌else◌, length, get_elem?, get_elem?-lt, arith,
}

-- The entries of `_timeout_count`, `_circuit_reset_time` and `_bypassed_locks`.
pub record Circuit : Type 0 where
  pub timeout_count : ℕ
  pub reset_time : Option ℕ
  pub bypassed : Bool

abbrev pub closed : Circuit
closed = record { timeout_count = 0; reset_time = none; bypassed = false }

-- `_reset_circuit_state`
unfoldable pub reset_circuit_state : Circuit → Circuit
reset_circuit_state c = closed

-- `_record_timeout`
unfoldable pub record_timeout : ℕ → ℕ → Circuit → Circuit
record_timeout threshold now c =
    let opened : Option ℕ = elim (c.reset_time) [ none ↦ some now | some t ↦ some t ] in
    record c {
      timeout_count = c.timeout_count + 1;
      reset_time = if leb threshold (c.timeout_count + 1) then opened else c.reset_time;
    }

-- `_is_circuit_broken`
unfoldable pub is_circuit_broken : ℕ → ℕ → ℕ → Circuit → Bool × Circuit
unfolding reset_circuit_state
is_circuit_broken threshold interval now c =
    if ltb c.timeout_count threshold then (false, c) else (elim (c.reset_time) [
      | none ↦ (true, c)
      | some t ↦ if leb (t + interval) now then (false, reset_circuit_state c) else (true, c)
    ])

-- Timeouts at the given times.
abbrev pub record_timeouts : ℕ → List ℕ → Circuit → Circuit
record_timeouts threshold [] c = c
record_timeouts threshold (t ∷ ts) c = record_timeouts threshold ts (record_timeout threshold t c)

module _ (threshold : ℕ) where
  count-timeouts :
      (ts : List ℕ) (c : Circuit)
      → (record_timeouts threshold ts c).timeout_count ≡ c.timeout_count + length ts
  unfolding record_timeout
  count-timeouts [] c = omega arith
  count-timeouts (t ∷ ts) c = omega (arith, count-timeouts ts (record_timeout threshold t c))

  stays_open :
      (ts : List ℕ) (c : Circuit) (t : ℕ)
      → c.reset_time ≡ some t
      → (record_timeouts threshold ts c).reset_time ≡ some t
  unfolding record_timeout
  stays_open [] c t e = e
  stays_open (u ∷ ts) c t e = stays_open ts (record_timeout threshold u c) t (ground (arith))

  opens :
      (ts : List ℕ) (k : ℕ) (c : Circuit) (t : ℕ)
      → c.reset_time ≡ none
      → c.timeout_count + suc k ≡ threshold
      → get_elem? ts k ≡ some t
      → (record_timeouts threshold ts c).reset_time ≡ some t
  unfolding record_timeout
  opens [] k c t closed_yet e h = cc
  opens (u ∷ ts) zero c t closed_yet e h =
      stays_open ts (record_timeout threshold u c) t (ground (arith))
  opens (u ∷ ts) (suc k) c t closed_yet e h =
      opens ts k (record_timeout threshold u c) t (ground (arith)) (omega arith) h

-- After timeouts on a closed circuit: with fewer than the threshold it is not broken; otherwise it
-- is broken exactly until the interval has passed since the timeout that reached the threshold,
-- however many more there were, and the first check after that closes it.
pub circuit_lem :
    (threshold' interval now : ℕ) (ts : List ℕ)
    → let threshold = suc threshold' in
      let c = record_timeouts threshold ts closed in
      (length ts < threshold → is_circuit_broken threshold interval now c ≡ (false, c))
      × ((t : ℕ)
          → get_elem? ts threshold' ≡ some t
          → is_circuit_broken threshold interval now c
            ≡ (if ltb now (t + interval) then (true, c) else (false, closed)))
unfolding is_circuit_broken
circuit_lem k interval now ts = (
  λ few. ground (arith, count-timeouts (suc k) ts closed),
  λ t h.
      let open_at = opens (suc k) ts k closed t refl (omega arith) h in
      let enough = get_elem?-lt ts k h in ground (arith, count-timeouts (suc k) ts closed),
)
