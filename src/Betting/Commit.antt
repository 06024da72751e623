-- ===== src/Betting/Commit.antt =====
-- `_rollback` and `_commit_and_save` of pokerapp/betting_handler.py leave no half-done action
-- behind.
use mathlib.Core.Path.{subst}
use poker_telegram_bot.Prelude.{
  ℕ, ◌+◌, ◌≡◌, ◌≢◌, refl, sym, ◌∙◌, ◌⊎◌, inl, inr, Bool, true, false, none, some, ◌==◌,
  if◌then◌else◌, arith, Bool-cases, Option-cases,
}
use poker_telegram_bot.Wallet.{
  ReservationStatus, pending, committed, Reservation, find, WalletRepository, World, done,
  RollbackCalls, commit_reservation, rollback_reservation, commit_done,
}
use poker_telegram_bot.Wallet.Faultless.{SameBalances, Reserved, fresh}
use poker_telegram_bot.Wallet.Refunds.{
  Clean, Cancellable, PaidBack, rollback_reservation_cancels, after_commit,
  commit_reservation_pending, find-after_commit,
}
use poker_telegram_bot.Betting.{
  BettingAction, BetState, Loaded, loaded, not_found, load_raised, is_players_turn,
}
use poker_telegram_bot.Betting.Handler.{
  Saved, saved, conflict, save_raised, CommitCalls, Attempt, Round, acquired, lock_timeout,
  lock_error, Message, Table, Outcome2, rollback, apply_and_save, commit_then_apply,
  commit_and_save, successful, failed,
}

-- The remote calls of a round do what they are asked to: the wallet commits and rolls back, and
-- the state can be loaded under the lock. The save may meet a conflict or raise.
abbrev pub Reliable : Attempt → Type 0
Reliable (acquired c) =
    (c.commit_call ≡ done) × Clean c.rollback_calls × (c.load_call ≢ load_raised)
Reliable (lock_timeout _ r) = Clean r
Reliable (lock_error r) = Clean r

-- The same of a round, in which the watchdog does not wake.
abbrev pub Orderly : Round → Type 0
Orderly x = (x.watchdog ≡ none) × Reliable x.lock

abbrev pub held : ℕ → ℕ → ℕ → ReservationStatus → Reservation
held u c a s = record { user_id = u; chat_id = c; amount = a; status = s }

module _ (repository : WalletRepository) where
  open repository use {Store, get_balance}

  -- The action took place: the chips are gone from the account, and the table has a new state.
  pub record TookPlace (u c a : ℕ) (before : Table Store) (o : Outcome2 Store) : Type 0 where
    pub success : o.success ≡ true
    pub paid : get_balance o.table.wallet.store u c + a ≡ get_balance before.wallet.store u c
    pub others :
        (v d : ℕ)
        → (u ≢ v) ⊎ (c ≢ d)
        → get_balance o.table.wallet.store v d ≡ get_balance before.wallet.store v d
    pub new_state : (st : BetState) × (o.table.state ≡ some st) × (o.message ≡ successful st)

  -- It did not: every balance and the table's state are what they were.
  pub record DidNot (before : Table Store) (o : Outcome2 Store) : Type 0 where
    pub failure : o.success ≡ false
    pub same_balances : SameBalances repository before.wallet.store o.table.wallet.store
    pub same_state : o.table.state ≡ before.state

  abbrev pub AllOrNothing : ℕ → ℕ → ℕ → Table Store → Outcome2 Store → Type 0
  AllOrNothing u c a before o = TookPlace u c a before o ⊎ DidNot before o

  -- Paying back what a reservation took.
  pay_back :
      (k u c a : ℕ) (s : ReservationStatus) (w w' : World Store) (t : Store)
      → Reserved repository k u c a w w'
      → PaidBack repository (held u c a s) w'.store t
      → SameBalances repository w.store t
  pay_back k u c a s w w' t r b v d = elim (Bool-cases (u == v)) [
    | inr other ↦ b.others v d (inl (ground arith)) ∙ r.others v d (inl (ground arith))
    | inl user ↦ elim (Bool-cases (c == d)) [
      | inr other ↦ b.others v d (inr (ground arith)) ∙ r.others v d (inr (ground arith))
      | inl chat ↦
          let eu : u ≡ v = ground arith in
          let ec : c ≡ d = ground arith in rw (← eu, ← ec) (b.paid ∙ r.paid)
    ]
  ]

  -- A rollback after the reservation, and perhaps after the commit, leaves no trace in the balances.
  pub rollback_undoes :
      (calls : RollbackCalls) (k u c a : ℕ) (allow : Bool) (s : ReservationStatus)
      (message : Message) (flag : Bool) (before : Table Store) (w : World Store) (t : Table Store)
      → Clean calls
      → Reserved repository k u c a before.wallet w
      → t.wallet.store ≡ w.store
      → t.state ≡ before.state
      → find k t.wallet.reservations ≡ some (held u c a s)
      → Cancellable s allow
      → DidNot before (failed repository message flag (rollback repository calls (some k) allow t))
  unfolding rollback
  rollback_undoes calls k u c a allow s message flag before w t clean r same_store same_state e
        can =
      let cancelled =
        rollback_reservation_cancels repository calls k allow (held u c a s) t.wallet clean e can in
      record {
        failure = refl;
        same_balances = pay_back k u c a s before.wallet w _ r (
            subst
              (λ x.
                PaidBack repository (held u c a s) x
                  (rollback_reservation repository calls k allow t.wallet).0.store)
              same_store cancelled.paid_back);
        same_state = same_state;
      }

  -- The wallet has committed; the state is applied and saved, or the commit is undone.
  apply-AllOrNothing :
      (calls : CommitCalls) (k u c a : ℕ) (action : BettingAction) (st : BetState)
      (before : Table Store) (w : World Store) (t : Table Store)
      → Clean calls.rollback_calls
      → Reserved repository k u c a before.wallet w
      → t.wallet.store ≡ w.store
      → t.state ≡ before.state
      → find k t.wallet.reservations ≡ some (held u c a committed)
      → AllOrNothing u c a before (apply_and_save repository calls u action a (some k) true st t)
  unfolding apply_and_save
  apply-AllOrNothing calls k u c a action st before w t clean r same_store same_state e =
      let undone = λ (m : Message).
        rollback_undoes calls.rollback_calls k u c a true committed m true before w t clean r
          same_store same_state e refl in
      elim (Option-cases (calls.apply st u action a)) [
        | inl no_mapping ↦ rw (no_mapping, apply_and_save) (inr (undone Message.unexpected_error))
        | inr (updated, applied) ↦
            rw (applied, apply_and_save) (by_save updated calls.save_call undone)
      ]
    where
      by_save :
          (updated : BetState) (answer : Saved)
          → ((m : Message)
              → DidNot before (
                  failed repository m true
                    (rollback repository calls.rollback_calls (some k) true t)))
          → AllOrNothing u c a before (elim answer [
            | saved ↦ record {
              table = record t { state = some updated };
              success = true;
              message = successful updated;
              committed = true;
            }
            | conflict ↦
                failed repository Message.state_conflict true
                  (rollback repository calls.rollback_calls (some k) true t)
            | save_raised ↦
                failed repository Message.unexpected_error true
                  (rollback repository calls.rollback_calls (some k) true t)
          ])
      by_save updated conflict undone = inr (undone Message.state_conflict)
      by_save updated save_raised undone = inr (undone Message.unexpected_error)
      by_save updated saved undone = inl (record {
        success = refl;
        paid = rw same_store r.paid;
        others = rw same_store r.others;
        new_state = (updated, refl, refl);
      })

  missing_step :
      (calls : CommitCalls) (k u a : ℕ) (action : BettingAction) (t : Table Store)
      → calls.load_call ≡ not_found
      → commit_and_save repository calls u action a (some k) t
        ≡ failed repository Message.game_not_found false
            (rollback repository calls.rollback_calls (some k) false t)
  unfolding commit_and_save
  missing_step calls k u a action t e = rw e

  turn_step :
      (calls : CommitCalls) (k u a : ℕ) (action : BettingAction) (st : BetState) (t : Table Store)
      → calls.load_call ≡ loaded st
      → commit_and_save repository calls u action a (some k) t ≡ (
          if is_players_turn st u
          then commit_then_apply repository calls u action a (some k) st t
          else failed repository Message.not_your_turn false
              (rollback repository calls.rollback_calls (some k) false t))
  unfolding commit_and_save
  turn_step calls k u a action st t e = ground (arith, e)

  commit_step :
      (calls : CommitCalls) (k u a : ℕ) (action : BettingAction) (st : BetState) (t : Table Store)
      (w : World Store)
      → calls.commit_call ≡ done
      → commit_reservation repository done k t.wallet ≡ (w, true, commit_done)
      → commit_then_apply repository calls u action a (some k) st t
        ≡ apply_and_save repository calls u action a (some k) true st (record t { wallet = w })
  unfolding commit_then_apply
  commit_step calls k u a action st t w d e = ground (arith, d, e)

  pub commit-AllOrNothing :
      (calls : CommitCalls) (k u c a : ℕ) (action : BettingAction) (before : Table Store)
      (w : World Store)
      → Reliable (acquired calls)
      → Reserved repository k u c a before.wallet w
      → AllOrNothing u c a before
          (commit_and_save repository calls u action a (some k) (record before { wallet = w }))
  commit-AllOrNothing calls k u c a action before w (commits, clean, loads) r =
      by_load calls.load_call refl
    where
      t : Table Store
      t = record before { wallet = w }

      by_load :
          (answer : Loaded)
          → calls.load_call ≡ answer
          → AllOrNothing u c a before (commit_and_save repository calls u action a (some k) t)
      by_load load_raised e = absurd (loads e)
      by_load not_found e =
          subst (AllOrNothing u c a before) (sym (missing_step calls k u a action t e)) (
            inr (
              rollback_undoes calls.rollback_calls k u c a false pending Message.game_not_found
                false before w t clean r refl refl r.held tt))
      by_load (loaded st) e = elim (Bool-cases (is_players_turn st u)) [
        | inr not_theirs ↦
            subst (AllOrNothing u c a before)
              (sym (turn_step calls k u a action st t e ∙ (rw not_theirs)))
              (inr (
                rollback_undoes calls.rollback_calls k u c a false pending Message.not_your_turn
                  false before w t clean r refl refl r.held tt))
        | inl theirs ↦
            let final = commit_reservation_pending repository k (fresh u c a) w r.held refl in
            subst (AllOrNothing u c a before)
              (sym (
                turn_step calls k u a action st t e
                ∙ (rw theirs)
                ∙ commit_step calls k u a action st t (after_commit repository k (fresh u c a) w)
                    commits final))
              (apply-AllOrNothing calls k u c a action st before w
                (record before { wallet = after_commit repository k (fresh u c a) w }) clean r refl
                refl (find-after_commit repository k (fresh u c a) w))
      ]
