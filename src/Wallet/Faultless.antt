-- ===== src/Wallet/Faultless.antt =====
-- Reserving, committing and rolling back, `reserve_chips`, `commit_reservation` and
-- `rollback_reservation` of pokerapp/wallet_service.py.
use mathlib.Core.Path.{subst}
use poker_telegram_bot.Prelude.{
  ℕ, suc, ◌+◌, ◌≤◌, ◌≡◌, ◌≢◌, refl, sym, ◌∙◌, ◌⊎◌, inl, inr, Bool, true, false, Option, none, some,
  ◌==◌, ltb, contains, if◌then◌else◌, arith, pos, Bool-cases, Option-cases,
}
use poker_telegram_bot.Wallet.Reservations.{find-put}
use poker_telegram_bot.Wallet.{
  pending, Reservation, find, create_reservation, WalletRepository, Outcome, done, raised,
  timed_out, succeeds, effect, Reply, World, ReserveCalls, reserve_chips, create_after_debit,
}

-- No call of `reserve_chips` times out after its effect, and the compensating credit is made.
pub record Settles (calls : ReserveCalls) : Type 0 where
  pub debit_settles : calls.debit_call ≢ timed_out
  pub create_settles : calls.create_call ≢ timed_out
  pub conflict_settles : calls.conflict_credit_call ≢ timed_out
  pub compensates : calls.failure_credit_call ≡ done

abbrev compensated_calls : Outcome → Outcome → Outcome → Outcome → ReserveCalls
compensated_calls b d cr cf = record {
  balance_call = b;
  debit_call = d;
  create_call = cr;
  conflict_credit_call = cf;
  failure_credit_call = done;
}

abbrev pub fresh : ℕ → ℕ → ℕ → Reservation
fresh u c a = record { user_id = u; chat_id = c; amount = a; status = pending }

module _ (repository : WalletRepository) where
  open repository use {
    Store, get_balance, debit, credit, get_balance-debit, get_balance-credit, get_balance-debit_ne,
    get_balance-credit_ne,
  }

  -- No account's balance differs.
  abbrev pub SameBalances : Store → Store → Type 0
  SameBalances s t = (v d : ℕ) → get_balance t v d ≡ get_balance s v d

  -- A debit of what is there, and a credit of as much, leave every balance as it was.
  debit_credit :
      (s : Store) (u c a : ℕ)
      → a ≤ get_balance s u c
      → SameBalances s (credit (debit s u c a) u c a)
  debit_credit s u c a h v d = elim (Bool-cases (u == v)) [
    | inr other ↦
        get_balance-credit_ne (debit s u c a) u c a v d (inl (ground arith))
        ∙ get_balance-debit_ne s u c a v d (inl (ground arith))
    | inl user ↦ elim (Bool-cases (c == d)) [
      | inr other ↦
          get_balance-credit_ne (debit s u c a) u c a v d (inr (ground arith))
          ∙ get_balance-debit_ne s u c a v d (inr (ground arith))
      | inl chat ↦
          let eu : u ≡ v = ground arith in
          let ec : c ≡ d = ground arith in
          rw (← eu, ← ec) (get_balance-credit (debit s u c a) u c a ∙ get_balance-debit s u c a h)
    ]
  ]

  -- What a successful reservation has done: the amount has left the account and nothing else has
  -- moved, and a pending reservation over it stands under the id, guarded by a watchdog.
  pub record Reserved (k u c a : ℕ) (w w' : World Store) : Type 0 where
    pub paid : get_balance w'.store u c + a ≡ get_balance w.store u c
    pub others : (v d : ℕ) → (u ≢ v) ⊎ (c ≢ d) → get_balance w'.store v d ≡ get_balance w.store v d
    pub held : find k w'.reservations ≡ some (fresh u c a)
    pub guarded : contains w'.watchdogs k ≡ true

  abbrev pub Refused : World Store → World Store × Bool × Option ℕ × Reply → Type 0
  Refused w (w', success, id, _) =
      (success ≡ false)
      × (id ≡ none)
      × SameBalances w.store w'.store
      × (w'.reservations ≡ w.reservations)

  abbrev pub Succeeded :
      ℕ → ℕ → ℕ → ℕ → World Store → World Store × Bool × Option ℕ × Reply → Type 0
  Succeeded k u c a w (w', success, id, _) =
      (success ≡ true) × (id ≡ some k) × Reserved k u c a w w'

  debited_world : World Store → ℕ → ℕ → ℕ → World Store
  debited_world w u c a = record w { store = debit w.store u c a }

  -- From the debit on, by how the script and the refund of a conflict end.
  create_cases :
      (b d cr cf : Outcome) (k u c a : ℕ) (w : World Store)
      → cr ≢ timed_out
      → cf ≢ timed_out
      → a ≤ get_balance w.store u c
      → let calls = compensated_calls b d cr cf in
        let result = create_after_debit repository calls k u c a (debited_world w u c a) in
        Succeeded k u c a w result ⊎ Refused w result
  unfolding create_reservation debited_world
  create_cases b d timed_out cf k u c a w h l enough = absurd (h refl)
  create_cases b d raised cf k u c a w h l enough =
      inr (refl, refl, debit_credit w.store u c a enough, refl)
  create_cases b d done cf k u c a w h l enough = elim (Option-cases (find k w.reservations)) [
    | inl unused ↦
        rw (unused, create_reservation)
          (inl (
            refl,
            refl,
            record {
              paid = get_balance-debit w.store u c a enough;
              others = get_balance-debit_ne w.store u c a;
              held = ground (arith, find-put k k (fresh u c a) w.reservations);
              guarded = ground arith;
            },
          ))
    | inr (r, used) ↦ rw (used, create_reservation) (inr (conflict cf l))
  ]
    where
      conflict :
          (o : Outcome)
          → o ≢ timed_out
          → Refused w (
              if succeeds o
              then (
                record w {
                  store = effect o (debit w.store u c a) (credit (debit w.store u c a) u c a);
                },
                false,
                none,
                Reply.unable_to_create,
              )
              else (
                record w {
                  store =
                      credit
                        (effect o (debit w.store u c a) (credit (debit w.store u c a) u c a))
                        u
                        c
                        a;
                },
                false,
                none,
                Reply.reservation_error,
              ))
      conflict timed_out n = absurd (n refl)
      conflict done n = (refl, refl, debit_credit w.store u c a enough, refl)
      conflict raised n = (refl, refl, debit_credit w.store u c a enough, refl)

  reserve_cases :
      (b d cr cf : Outcome) (k u c a : ℕ) (w : World Store)
      → d ≢ timed_out
      → cr ≢ timed_out
      → cf ≢ timed_out
      → let calls = compensated_calls b d cr cf in
        let result = reserve_chips repository calls k u c (pos (suc a)) w in
        Succeeded k u c (suc a) w result ⊎ Refused w result
  unfolding reserve_chips debited_world
  reserve_cases raised d cr cf k u c a w hd hc hf = inr (refl, refl, λ v e. refl, refl)
  reserve_cases timed_out d cr cf k u c a w hd hc hf = inr (refl, refl, λ v e. refl, refl)
  reserve_cases done d cr cf k u c a w hd hc hf =
      elim (Bool-cases (ltb (get_balance w.store u c) (suc a))) [
        | inl short ↦ rw short (inr (refl, refl, λ v e. refl, refl))
        | inr enough ↦ rw enough (debit_cases d hd (ground arith))
      ]
    where
      debit_cases :
          (o : Outcome)
          → o ≢ timed_out
          → suc a ≤ get_balance w.store u c
          → let calls = compensated_calls done o cr cf in
            let debited = record w { store = effect o w.store (debit w.store u c (suc a)) } in
            let result =
              if succeeds o
              then create_after_debit repository calls k u c (suc a) debited
              else (debited, false, none, Reply.reservation_error) in
            Succeeded k u c (suc a) w result ⊎ Refused w result
      debit_cases timed_out n h = absurd (n refl)
      debit_cases raised n h = inr (refl, refl, λ v e. refl, refl)
      debit_cases done n h = create_cases done done cr cf k u c (suc a) w hc hf h

  -- `reserve_chips` of a positive amount, in which no call times out after its effect and the
  -- compensating credit is made: it succeeds, and then exactly the amount has left the account for
  -- a pending reservation under the id that is returned, with a watchdog, and no other account has
  -- changed; or it fails, and then no balance and no reservation has changed.
  pub reserve_chips_atomic :
      (calls : ReserveCalls) (k u c a : ℕ) (w : World Store)
      → Settles calls
      → Succeeded k u c (suc a) w (reserve_chips repository calls k u c (pos (suc a)) w)
        ⊎ Refused w (reserve_chips repository calls k u c (pos (suc a)) w)
  reserve_chips_atomic calls k u c a w s =
      let e : calls
          ≡ compensated_calls calls.balance_call calls.debit_call calls.create_call
              calls.conflict_credit_call =
        ground (arith, s.compensates) in
      subst
        (λ x.
          Succeeded k u c (suc a) w (reserve_chips repository x k u c (pos (suc a)) w)
          ⊎ Refused w (reserve_chips repository x k u c (pos (suc a)) w))
        (sym e)
        (reserve_cases calls.balance_call calls.debit_call calls.create_call
          calls.conflict_credit_call k u c a w s.debit_settles s.create_settles s.conflict_settles)
