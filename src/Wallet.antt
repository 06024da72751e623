-- ===== src/Wallet.antt =====
-- pokerapp/wallet_service.py: chips are reserved before the table lock is taken, and committed or
-- rolled back afterwards. The three Lua scripts of that file are functions on the reservations.
-- The balances belong to a `WalletRepository`, which the source only declares as a protocol: it is
-- a parameter with the laws of a ledger. A remote call is done, or it raises, or its effect
-- happens and the caller sees a timeout; which of these is an argument. Metrics, log lines and a
-- reservation's metadata are left out. The expiry of a Redis key is the function `expire`.
pub mod Reservations
pub mod Faultless
pub mod Refunds
use poker_telegram_bot.Prelude.{
  ℕ, zero, suc, ◌+◌, ◌≤◌, ◌≡◌, ◌≢◌, ◌⊎◌, Bool, true, false, not, ◌||◌, Option, none, some, List, [],
  ◌∷◌, ◌++◌, contains, ltb, ◌==◌, if◌then◌else◌, ℤ, pos, negsuc,
}

pub data ReservationStatus : Type 0 where
  pending committed rolled_back : ReservationStatus

-- `ReservationRecord`, without its metadata.
pub record Reservation : Type 0 where
  pub user_id : ℕ
  pub chat_id : ℕ
  pub amount : ℕ
  pub status : ReservationStatus

-- The reservations in Redis, by reservation id.
abbrev pub Reservations : Type 0
Reservations = List (ℕ × Reservation)

abbrev pub find : ℕ → Reservations → Option Reservation
find k [] = none
find k ((j, r) ∷ rs) = if j == k then some r else find k rs

abbrev pub put : ℕ → Reservation → Reservations → Reservations
put k r [] = (k, r) ∷ []
put k r ((j, q) ∷ rs) = if j == k then (k, r) ∷ rs else (j, q) ∷ put k r rs

abbrev pub expire : ℕ → Reservations → Reservations
expire k [] = []
expire k ((j, q) ∷ rs) = if j == k then rs else (j, q) ∷ expire k rs

-- What the scripts answer.
pub data ScriptReply : Type 0 where
  missing ok already_committed was_rolled_back compensated : ScriptReply

-- `_CREATE_RESERVATION_SCRIPT`: does it answer 1?
unfoldable pub create_reservation : ℕ → Reservation → Reservations → Bool × Reservations
create_reservation k r rs = elim (find k rs) [ some _ ↦ (false, rs) | none ↦ (true, put k r rs) ]

abbrev pub with_status : ReservationStatus → Reservation → Reservation
with_status s r = record r { status = s }

abbrev pub commit_found :
    ℕ → Reservation → ReservationStatus → Reservations → ScriptReply × Reservations
commit_found k r committed rs = (already_committed, rs)
commit_found k r rolled_back rs = (was_rolled_back, rs)
commit_found k r pending rs = (ok, put k (with_status committed r) rs)

-- `_COMMIT_RESERVATION_SCRIPT`
unfoldable pub commit_script : ℕ → Reservations → ScriptReply × Reservations
commit_script k rs = elim (find k rs) [
  | none ↦ (missing, rs)
  | some r ↦ commit_found k r r.status rs
]

abbrev pub rollback_found :
    ℕ → Bool → Reservation → ReservationStatus → Reservations → ScriptReply × Reservations
rollback_found k allow r rolled_back rs = (was_rolled_back, rs)
rollback_found k true r committed rs = (compensated, put k (with_status rolled_back r) rs)
rollback_found k false r committed rs = (already_committed, rs)
rollback_found k allow r pending rs = (was_rolled_back, put k (with_status rolled_back r) rs)

-- `_ROLLBACK_RESERVATION_SCRIPT`. It answers `rolled_back` both when it has just rolled the
-- reservation back and when it had been rolled back before.
unfoldable pub rollback_script : ℕ → Bool → Reservations → ScriptReply × Reservations
rollback_script k allow rs = elim (find k rs) [
  | none ↦ (missing, rs)
  | some r ↦ rollback_found k allow r r.status rs
]

-- The persistence boundary for balances: what each operation does to the account that it names,
-- and that it leaves the others alone.
pub record WalletRepository : Type 1 where
  pub Store : Type 0
  pub get_balance : Store → ℕ → ℕ → ℕ
  pub debit : Store → ℕ → ℕ → ℕ → Store
  pub credit : Store → ℕ → ℕ → ℕ → Store
  pub get_balance-debit :
      (s : Store) (u c a : ℕ)
      → a ≤ get_balance s u c
      → get_balance (debit s u c a) u c + a ≡ get_balance s u c
  pub get_balance-credit :
      (s : Store) (u c a : ℕ) → get_balance (credit s u c a) u c ≡ get_balance s u c + a
  pub get_balance-debit_ne :
      (s : Store) (u c a v d : ℕ)
      → (u ≢ v) ⊎ (c ≢ d)
      → get_balance (debit s u c a) v d ≡ get_balance s v d
  pub get_balance-credit_ne :
      (s : Store) (u c a v d : ℕ)
      → (u ≢ v) ⊎ (c ≢ d)
      → get_balance (credit s u c a) v d ≡ get_balance s v d

-- How a remote call ends: done; an exception and no effect; an effect and then a timeout.
pub data Outcome : Type 0 where
  done raised timed_out : Outcome

abbrev pub succeeds : Outcome → Bool
succeeds done = true
succeeds raised = false
succeeds timed_out = false

-- The state after a call whose effect would be `after`.
abbrev pub effect : {A : Type 0} → Outcome → A → A → A
effect raised before after = before
effect done before after = after
effect timed_out before after = after

-- The texts that the methods return, as far as they differ.
pub data Reply : Type 0 where
  no_chips_reserved unable_to_access_wallet insufficient_chips unable_to_create : Reply
  reservation_successful reservation_error reservation_not_found : Reply
  commit_done commit_repeated commit_refused commit_error : Reply
  rollback_refused rollback_done rollback_compensated rollback_unexpected rollback_error : Reply

pub record World (S : Type 0) : Type 0 where
  pub store : S
  pub reservations : Reservations
  pub watchdogs : List ℕ
  pub dead_letters : List (ℕ × Reservation)

-- `self._watchdogs`
abbrev pub schedule_watchdog : ℕ → List ℕ → List ℕ
schedule_watchdog k ws = if contains ws k then ws else k ∷ ws

abbrev pub cancel_watchdog : ℕ → List ℕ → List ℕ
cancel_watchdog k [] = []
cancel_watchdog k (w ∷ ws) = if w == k then ws else w ∷ cancel_watchdog k ws

-- How the remote calls of one method call end, in the order of the source.
pub record ReserveCalls : Type 0 where
  pub balance_call : Outcome
  pub debit_call : Outcome
  pub create_call : Outcome
  pub conflict_credit_call : Outcome
  pub failure_credit_call : Outcome

pub record RollbackCalls : Type 0 where
  pub script_call : Outcome
  pub load_call : Outcome
  pub credit_call : Outcome
  pub has_dead_letters : Bool
  pub push_call : Outcome

module _ (repository : WalletRepository) where
  open repository use {Store, get_balance, debit, credit}

  -- The handler of `reserve_chips` for an exception after the debit.
  abbrev pub compensate :
      ReserveCalls → ℕ → ℕ → ℕ → World Store → World Store × Bool × Option ℕ × Reply
  compensate calls u c a w = (
    record w { store = effect calls.failure_credit_call w.store (credit w.store u c a) },
    false,
    none,
    reservation_error,
  )

  -- From the script that creates the reservation on; `w` has been debited.
  abbrev pub create_after_debit :
      ReserveCalls → ℕ → ℕ → ℕ → ℕ → World Store → World Store × Bool × Option ℕ × Reply
  create_after_debit calls k u c a w =
      let (created, rs) =
        create_reservation k (record { user_id = u; chat_id = c; amount = a; status = pending })
          w.reservations in
      let w' = record w { reservations = effect calls.create_call w.reservations rs } in
      let refunded = record w' {
        store = effect calls.conflict_credit_call w'.store (credit w'.store u c a);
      } in
      if not (succeeds calls.create_call)
      then compensate calls u c a w'
      else if created
      then (
        record w' { watchdogs = schedule_watchdog k w'.watchdogs },
        true,
        some k,
        reservation_successful,
      )
      else if succeeds calls.conflict_credit_call
      then (refunded, false, none, unable_to_create)
      else compensate calls u c a refunded

  -- `reserve_chips`; `k` is the id that `uuid4` drew.
  unfoldable pub reserve_chips :
      ReserveCalls → ℕ → ℕ → ℕ → ℤ → World Store → World Store × Bool × Option ℕ × Reply
  unfolding create_reservation
  reserve_chips calls k u c (negsuc _) w = (w, true, some k, no_chips_reserved)
  reserve_chips calls k u c (pos zero) w = (w, true, some k, no_chips_reserved)
  reserve_chips calls k u c (pos (suc n)) w =
      let a : ℕ = suc n in
      let debited = record w { store = effect calls.debit_call w.store (debit w.store u c a) } in
      if not (succeeds calls.balance_call)
      then (w, false, none, unable_to_access_wallet)
      else if ltb (get_balance w.store u c) a
      then (w, false, none, insufficient_chips)
      else if succeeds calls.debit_call
      then create_after_debit calls k u c a debited
      else (debited, false, none, reservation_error)

  abbrev pub commit_reply : ℕ → ScriptReply → World Store → World Store × Bool × Reply
  commit_reply k missing w = (w, false, reservation_not_found)
  commit_reply k already_committed w =
      (record w { watchdogs = cancel_watchdog k w.watchdogs }, true, commit_repeated)
  commit_reply k ok w = (record w { watchdogs = cancel_watchdog k w.watchdogs }, true, commit_done)
  commit_reply k _ w = (w, false, commit_refused)

  -- `commit_reservation`
  unfoldable pub commit_reservation : Outcome → ℕ → World Store → World Store × Bool × Reply
  unfolding commit_script
  commit_reservation call k w =
      let (reply, rs) = commit_script k w.reservations in
      let w' = record w { reservations = effect call w.reservations rs } in
      if succeeds call then commit_reply k reply w' else (w', false, commit_error)

  -- `_credit_reservation_amount` and `_handle_refund_failure`, on what `_load_reservation` found.
  abbrev pub credit_reservation_amount :
      RollbackCalls → ℕ → Option Reservation → World Store → World Store
  credit_reservation_amount calls k none w = w
  credit_reservation_amount calls k (some r) w =
      let w' = record w {
        store = effect calls.credit_call w.store (credit w.store r.user_id r.chat_id r.amount);
      } in
      if succeeds calls.credit_call || not calls.has_dead_letters then w' else record w' {
        dead_letters = effect calls.push_call w'.dead_letters ((k, r) ∷ w'.dead_letters);
      }

  abbrev pub loaded : RollbackCalls → ℕ → World Store → Option Reservation
  loaded calls k w = if succeeds calls.load_call then find k w.reservations else none

  abbrev pub refund : RollbackCalls → ℕ → World Store → World Store
  refund calls k w =
      let w' = credit_reservation_amount calls k (loaded calls k w) w in
      record w' { watchdogs = cancel_watchdog k w'.watchdogs }

  -- The ladder of `rollback_reservation` over the script's answer. Its second test for
  -- `rolled_back` stands behind the first one and is never reached.
  abbrev pub rollback_reply :
      RollbackCalls → ℕ → Bool → ScriptReply → World Store → World Store × Bool × Reply
  rollback_reply calls k allow missing w = (w, false, reservation_not_found)
  rollback_reply calls k allow already_committed w =
      if not allow then (w, false, rollback_refused) else (w, false, rollback_unexpected)
  rollback_reply calls k allow was_rolled_back w = (refund calls k w, true, rollback_done)
  rollback_reply calls k allow compensated w = (refund calls k w, true, rollback_compensated)
  rollback_reply calls k allow ok w = (w, false, rollback_unexpected)

  -- `rollback_reservation`
  unfoldable pub rollback_reservation :
      RollbackCalls → ℕ → Bool → World Store → World Store × Bool × Reply
  unfolding rollback_script
  rollback_reservation calls k allow w =
      let (reply, rs) = rollback_script k allow w.reservations in
      let w' = record w { reservations = effect calls.script_call w.reservations rs } in
      if succeeds calls.script_call
      then rollback_reply calls k allow reply w'
      else (w', false, rollback_error)

  -- `_auto_rollback`, when the watchdog of `k` wakes: it runs only if it has not been cancelled.
  unfoldable pub auto_rollback : RollbackCalls → ℕ → World Store → World Store
  unfolding rollback_reservation
  auto_rollback calls k w =
      if contains w.watchdogs k then (rollback_reservation calls k false w).0 else w
