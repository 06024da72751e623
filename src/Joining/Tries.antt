-- ===== src/Joining/Tries.antt =====
-- The loop of `join_game` and `leave_game` of pokerapp/game_engine.py over its attempts.
use mathlib.Core.Path.{subst}
use poker_telegram_bot.Prelude.{
  ℕ, ◌+◌, ◌≡◌, refl, sym, ap, ◌∙◌, inl, inr, true, false, Option, some, List, [], ◌∷◌, Bool-cases,
  arith,
}
use poker_telegram_bot.Validator.{Snapshot}
use poker_telegram_bot.Tables.{
  Redis, pickled, number, Transaction, undisturbed, watch_error, redis_error,
  save_game_with_version_check,
}
use poker_telegram_bot.Joining.{
  Attempt, Decision, turned_down, raises, changes, Once, finished, again, raised_out, read_table,
  save_once_more, carry_out, process_once, returned, left_by_exception, retry_loop,
}

-- The attempts that the loop makes, each with the Redis that it starts from: the next one is made
-- where the one before asked for it.
pub data Reaches (decide : Attempt → Option Snapshot → Decision)
    : List Attempt → Redis → Attempt → Redis → Type 0 where
  first : {a : Attempt} {rest : List Attempt} {r : Redis} → Reaches decide (a ∷ rest) r a r
  retried :
      {a b : Attempt} {rest : List Attempt} {r r' s : Redis}
      → process_once (decide a) a r ≡ (again, r')
      → Reaches decide rest r' b s
      → Reaches decide (a ∷ rest) r b s

-- What a loop that returns `True` has done: an attempt that it made loaded a game, decided on
-- `decided`, and left it in Redis with the version after the one that it had loaded.
pub record Done (decide : Attempt → Option Snapshot → Decision) (attempts : List Attempt)
    (r r' : Redis) : Type 0 where
  pub attempt : Attempt
  pub before : Redis
  pub reached : Reaches decide attempts r attempt before
  pub decided : Snapshot
  pub decision : decide attempt (read_table attempt before).0.0 ≡ changes decided
  pub stored : r'.game ≡ some (pickled decided)
  pub version : r'.version ≡ some (number ((read_table attempt before).0.1 + 1))

save_lem :
    (a : Attempt) (s : Snapshot) (v : ℕ) (r : Redis)
    → (save_once_more a s v r).0 ≡ finished true
    → (save_once_more a s v r).1
      ≡ record { game = some (pickled s); version = some (number (v + 1)) }
unfolding save_once_more save_game_with_version_check
save_lem a s v r h = by_end a.transaction refl
  where
    by_end :
        (t : Transaction)
        → a.transaction ≡ t
        → (save_once_more a s v r).1
          ≡ record { game = some (pickled s); version = some (number (v + 1)) }
    by_end undisturbed e = ground (arith)
    by_end watch_error e = ground (arith)
    by_end (redis_error b) e = ground (arith)

returned_ne : returned false ≡ returned true → ⊥
returned_ne h = cc

left_ne : left_by_exception ≡ returned true → ⊥
left_ne h = cc

module _ (decide : Attempt → Option Snapshot → Decision) (attempts : List Attempt)
    (first_r : Redis) where
  carried :
      (a : Attempt) (before r : Redis) (d : Decision)
      → Reaches decide attempts first_r a before
      → decide a (read_table a before).0.0 ≡ d
      → (carry_out a d (read_table a before).0.1 r).0 ≡ finished true
      → Done decide attempts first_r (carry_out a d (read_table a before).0.1 r).1
  unfolding carry_out
  carried a before r turned_down reached e h = absurd (cc)
  carried a before r raises reached e h = absurd (cc)
  carried a before r (changes s) reached e h = record {
    attempt = a;
    before = before;
    reached = reached;
    decided = s;
    decision = e;
    stored = ap (λ x. x.game) (save_lem a s (read_table a before).0.1 r h);
    version = ap (λ x. x.version) (save_lem a s (read_table a before).0.1 r h);
  }

  once_Done :
      (a : Attempt) (r : Redis)
      → Reaches decide attempts first_r a r
      → (process_once (decide a) a r).0 ≡ finished true
      → Done decide attempts first_r (process_once (decide a) a r).1
  unfolding process_once
  once_Done a r reached h = elim (Bool-cases a.load_raises) [
    | inl e ↦ absurd (ground (arith))
    | inr e ↦
        subst (λ x. Done decide attempts first_r x.1) (sym (tried e))
          (carried a r (a.meanwhile (read_table a r).1) _ reached refl
            (ap (λ x. x.0) (sym (tried e)) ∙ h))
  ]
    where
      tried :
          a.load_raises ≡ false
          → process_once (decide a) a r
            ≡ carry_out a
                (decide a (read_table a r).0.0)
                (read_table a r).0.1
                (a.meanwhile (read_table a r).1)
      tried e = rw e refl

  loop_from :
      (rest : List Attempt) (r : Redis)
      → ((a : Attempt) (s : Redis)
          → Reaches decide rest r a s
          → Reaches decide attempts first_r a s)
      → (retry_loop decide rest r).0 ≡ returned true
      → Done decide attempts first_r (retry_loop decide rest r).1
  unfolding retry_loop
  loop_from [] r reach h = absurd (cc)
  loop_from (a ∷ rest) r reach h =
      by_once (process_once (decide a) a r) refl (λ r' f k. loop_from rest r' f k)
    where
      by_once :
          (o : Once × Redis)
          → process_once (decide a) a r ≡ o
          → ((r' : Redis)
              → ((b : Attempt) (s : Redis)
                  → Reaches decide rest r' b s
                  → Reaches decide attempts first_r b s)
              → (retry_loop decide rest r').0 ≡ returned true
              → Done decide attempts first_r (retry_loop decide rest r').1)
          → Done decide attempts first_r (retry_loop decide (a ∷ rest) r).1
      by_once (again, r') e ih =
          let next : retry_loop decide (a ∷ rest) r ≡ retry_loop decide rest r' = cc in
          subst (λ x. Done decide attempts first_r x.1) (sym next)
            (ih r' (λ b s f. reach b s (retried e f)) (ap (λ x. x.0) (sym next) ∙ h))
      by_once (finished true, r') e ih =
          let last : retry_loop decide (a ∷ rest) r ≡ (returned true, r') = cc in
          subst (λ x. Done decide attempts first_r x.1) (sym last)
            (subst (λ x. Done decide attempts first_r x.1) e
              (once_Done a r (reach a r first) (ap (λ x. x.0) e)))
      by_once (finished false, r') e ih = absurd (cc)
      by_once (raised_out, r') e ih = absurd (cc)

  pub loop-Done :
      (retry_loop decide attempts first_r).0 ≡ returned true
      → Done decide attempts first_r (retry_loop decide attempts first_r).1
  loop-Done h = loop_from attempts first_r (λ a s f. f) h
