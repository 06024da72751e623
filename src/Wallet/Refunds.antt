-- ===== src/Wallet/Refunds.antt =====
-- What `commit_reservation`, `rollback_reservation` and the watchdog of
-- pokerapp/wallet_service.py do to a reservation and to the balance behind it.
use poker_telegram_bot.Prelude.{ℕ, ◌+◌, ◌≡◌, ◌≢◌, refl, ◌⊎◌, Bool, true, false, some, arith}
use poker_telegram_bot.Wallet.Reservations.{find-put}
use poker_telegram_bot.Wallet.{
  ReservationStatus, pending, committed, rolled_back, Reservation, Reservations, find, put,
  commit_script, rollback_script, WalletRepository, done, Reply, World, RollbackCalls, refund,
  commit_reservation, rollback_reservation, auto_rollback, cancel_watchdog, commit_done,
  commit_refused, rollback_done, rollback_compensated, rollback_refused, with_status, ScriptReply,
  ok, already_committed, was_rolled_back, compensated, rollback_reply,
}

-- The script, the load and the credit of a rollback are done.
pub record Clean (calls : RollbackCalls) : Type 0 where
  pub script_done : calls.script_call ≡ done
  pub load_done : calls.load_call ≡ done
  pub credit_done : calls.credit_call ≡ done

-- Which reservations a rollback may still cancel.
abbrev pub Cancellable : ReservationStatus → Bool → Type 0
Cancellable pending allow = Unit
Cancellable committed allow = allow ≡ true
Cancellable rolled_back allow = ⊥

stored : (k : ℕ) (r : Reservation) (rs : Reservations) → find k (put k r rs) ≡ some r
stored k r rs = ground (arith, find-put k k r rs)

script_pending :
    (k : ℕ) (allow : Bool) (r : Reservation) (rs : Reservations)
    → find k rs ≡ some r
    → r.status ≡ pending
    → rollback_script k allow rs ≡ (was_rolled_back, put k (with_status rolled_back r) rs)
unfolding rollback_script
script_pending k allow r rs e same = ground (arith, e, same)

script_committed :
    (k : ℕ) (allow : Bool) (r : Reservation) (rs : Reservations)
    → find k rs ≡ some r
    → r.status ≡ committed
    → allow ≡ true
    → rollback_script k allow rs ≡ (compensated, put k (with_status rolled_back r) rs)
unfolding rollback_script
script_committed k allow r rs e same permitted = ground (arith, e, same, permitted)

script_again :
    (k : ℕ) (allow : Bool) (r : Reservation) (rs : Reservations)
    → find k rs ≡ some r
    → r.status ≡ rolled_back
    → rollback_script k allow rs ≡ (was_rolled_back, rs)
unfolding rollback_script
script_again k allow r rs e same = ground (arith, e, same)

script_kept :
    (k : ℕ) (r : Reservation) (rs : Reservations)
    → find k rs ≡ some r
    → r.status ≡ committed
    → rollback_script k false rs ≡ (already_committed, rs)
unfolding rollback_script
script_kept k r rs e same = ground (arith, e, same)

commit_pending :
    (k : ℕ) (r : Reservation) (rs : Reservations)
    → find k rs ≡ some r
    → r.status ≡ pending
    → commit_script k rs ≡ (ok, put k (with_status committed r) rs)
unfolding commit_script
commit_pending k r rs e same = ground (arith, e, same)

commit_again :
    (k : ℕ) (r : Reservation) (rs : Reservations)
    → find k rs ≡ some r
    → r.status ≡ committed
    → commit_script k rs ≡ (already_committed, rs)
unfolding commit_script
commit_again k r rs e same = ground (arith, e, same)

module _ (repository : WalletRepository) where
  open repository use {Store, get_balance, debit, credit, get_balance-credit, get_balance-credit_ne}

  -- The account of `r` has grown by its amount, and no other account has changed.
  pub record PaidBack (r : Reservation) (s t : Store) : Type 0 where
    pub paid : get_balance t r.user_id r.chat_id ≡ get_balance s r.user_id r.chat_id + r.amount
    pub others :
        (v d : ℕ) → (r.user_id ≢ v) ⊎ (r.chat_id ≢ d) → get_balance t v d ≡ get_balance s v d

  paid_by_credit :
      (r : Reservation) (s : Store) → PaidBack r s (credit s r.user_id r.chat_id r.amount)
  paid_by_credit r s = record {
    paid = get_balance-credit s r.user_id r.chat_id r.amount;
    others = get_balance-credit_ne s r.user_id r.chat_id r.amount;
  }

  refund_lem :
      (calls : RollbackCalls) (k : ℕ) (r : Reservation) (w : World Store)
      → Clean calls
      → find k w.reservations ≡ some r
      → ((refund repository calls k w).store ≡ credit w.store r.user_id r.chat_id r.amount)
        × ((refund repository calls k w).reservations ≡ w.reservations)
  refund_lem calls k r w c e =
      (ground (arith, c.load_done, c.credit_done), ground (arith, c.load_done, c.credit_done))

  -- What a rollback has done that succeeds.
  pub record Cancelled (k : ℕ) (r : Reservation) (w : World Store)
      (result : World Store × Bool × Reply) : Type 0 where
    pub success : result.1 ≡ true
    pub paid_back : PaidBack r w.store result.0.store
    pub marked : find k result.0.reservations ≡ some (with_status rolled_back r)

  -- A script that has marked the reservation, and then the refund.
  marked_then_refunded :
      (calls : RollbackCalls) (k : ℕ) (r : Reservation) (w : World Store) (reply : Reply)
      → Clean calls
      → Cancelled k r w (
        refund repository calls k
            (record w { reservations = put k (with_status rolled_back r) w.reservations }),
        true,
        reply,
      )
  marked_then_refunded calls k r w reply c =
      let q = with_status rolled_back r in
      let w' = record w { reservations = put k q w.reservations } in
      let (s, rs) = refund_lem calls k q w' c (stored k q w.reservations) in
      record {
        success = refl;
        paid_back = rw s (paid_by_credit r w.store);
        marked = rw rs (stored k q w.reservations);
      }

  -- The method once its script is done: the ladder over the answer.
  after_script :
      (calls : RollbackCalls) (k : ℕ) (allow : Bool) (w : World Store) (reply : ScriptReply)
      (rs : Reservations)
      → calls.script_call ≡ done
      → rollback_script k allow w.reservations ≡ (reply, rs)
      → rollback_reservation repository calls k allow w
        ≡ rollback_reply repository calls k allow reply (record w { reservations = rs })
  unfolding rollback_reservation
  after_script calls k allow w reply rs d e = ground (arith, d, e)

  subst_result :
      (k : ℕ) (r : Reservation) (w : World Store) (x y : World Store × Bool × Reply)
      → x ≡ y
      → Cancelled k r w y
      → Cancelled k r w x
  subst_result k r w x y e h = rw e h

  -- A rollback whose calls are done cancels a pending reservation, and a committed one if it is
  -- permitted to: it reports success, the amount is back in the account, no other balance has
  -- changed, and the reservation is marked.
  pub rollback_reservation_cancels :
      (calls : RollbackCalls) (k : ℕ) (allow : Bool) (r : Reservation) (w : World Store)
      → Clean calls
      → find k w.reservations ≡ some r
      → Cancellable r.status allow
      → Cancelled k r w (rollback_reservation repository calls k allow w)
  rollback_reservation_cancels calls k allow r w c e can = cases r.status refl
    where
      cases :
          (status : ReservationStatus)
          → r.status ≡ status
          → Cancelled k r w (rollback_reservation repository calls k allow w)
      cases pending same =
          subst_result k r w _ _
            (after_script calls k allow w was_rolled_back
              (put k (with_status rolled_back r) w.reservations) c.script_done
              (script_pending k allow r w.reservations e same))
            (marked_then_refunded calls k r w rollback_done c)
      cases committed same =
          let permitted : allow ≡ true = rw same at can in
          subst_result k r w _ _
            (after_script calls k allow w compensated
              (put k (with_status rolled_back r) w.reservations) c.script_done
              (script_committed k allow r w.reservations e same permitted))
            (marked_then_refunded calls k r w rollback_compensated c)
      cases rolled_back same = absurd (rw same at can)

  -- Rolling back a reservation that has been rolled back before pays its amount out once more: the
  -- call reports success, the account grows by the amount, and the reservation stays as it is.
  pub rollback_again_pays_again :
      (calls : RollbackCalls) (k : ℕ) (allow : Bool) (r : Reservation) (w : World Store)
      → Clean calls
      → find k w.reservations ≡ some r
      → r.status ≡ rolled_back
      → let (w', success, _) = rollback_reservation repository calls k allow w in
        (success ≡ true) × PaidBack r w.store w'.store × (w'.reservations ≡ w.reservations)
  rollback_again_pays_again calls k allow r w c e same =
      let run =
        after_script calls k allow w was_rolled_back w.reservations c.script_done
          (script_again k allow r w.reservations e same) in
      let (s, rs) = refund_lem calls k r w c e in rw run (refl, rw s (paid_by_credit r w.store), rs)

  -- An unpermitted rollback of a committed reservation, such as the watchdog's, changes nothing.
  rollback_committed_refused :
      (calls : RollbackCalls) (k : ℕ) (r : Reservation) (w : World Store)
      → calls.script_call ≡ done
      → find k w.reservations ≡ some r
      → r.status ≡ committed
      → (rollback_reservation repository calls k false w ≡ (w, false, rollback_refused))
        × (auto_rollback repository calls k w ≡ w)
  unfolding auto_rollback
  rollback_committed_refused calls k r w d e same =
      let run =
        after_script calls k false w already_committed w.reservations d
          (script_kept k r w.reservations e same) in
      (run, ground (arith, run))

  -- The world after the commit of a pending reservation.
  abbrev pub after_commit : ℕ → Reservation → World Store → World Store
  after_commit k r w = record w {
    reservations = put k (with_status committed r) w.reservations;
    watchdogs = cancel_watchdog k w.watchdogs;
  }

  pub commit_reservation_pending :
      (k : ℕ) (r : Reservation) (w : World Store)
      → find k w.reservations ≡ some r
      → r.status ≡ pending
      → commit_reservation repository done k w ≡ (after_commit k r w, true, commit_done)
  unfolding commit_reservation
  commit_reservation_pending k r w e same = rw (commit_pending k r w.reservations e same)

  pub find-after_commit :
      (k : ℕ) (r : Reservation) (w : World Store)
      → find k (after_commit k r w).reservations ≡ some (with_status committed r)
  find-after_commit k r w = stored k (with_status committed r) w.reservations

  -- Committing a pending reservation succeeds and moves no money; a second commit succeeds too
  -- and changes no reservation, and a watchdog that wakes afterwards finds nothing to give back.
  pub commit_reservation_final :
      (calls : RollbackCalls) (k : ℕ) (r : Reservation) (w : World Store)
      → calls.script_call ≡ done
      → find k w.reservations ≡ some r
      → r.status ≡ pending
      → let (w', success, _) = commit_reservation repository done k w in
        let (w'', again, _) = commit_reservation repository done k w' in
        (success ≡ true)
        × (w'.store ≡ w.store)
        × (find k w'.reservations ≡ some (with_status committed r))
        × (again ≡ true)
        × (w''.store ≡ w.store)
        × (w''.reservations ≡ w'.reservations)
        × (auto_rollback repository calls k w' ≡ w')
  unfolding commit_reservation
  commit_reservation_final calls k r w d e same =
      let q = with_status committed r in
      let rs = put k q w.reservations in
      let w' = record w { reservations = rs; watchdogs = cancel_watchdog k w.watchdogs } in
      let first = commit_pending k r w.reservations e same in
      let there = stored k q w.reservations in
      let second = commit_again k q rs there refl in
      rw first (
        refl,
        refl,
        there,
        rw second,
        rw second,
        rw second,
        (rollback_committed_refused calls k q w' d there refl).1,
      )

  -- After a rollback a commit is refused and changes nothing.
  commit_rolled_back_refused :
      (k : ℕ) (r : Reservation) (w : World Store)
      → find k w.reservations ≡ some r
      → r.status ≡ rolled_back
      → commit_reservation repository done k w ≡ (w, false, commit_refused)
  unfolding commit_reservation commit_script
  commit_rolled_back_refused k r w e same = ground (arith, e, same)
