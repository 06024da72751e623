-- ===== src/Engine/Repeats.antt =====
-- Sequences of requests to `GameEngine.handle_player_action` of pokerapp/game_engine.py.
use mathlib.Core.Path.{subst}
use poker_telegram_bot.Prelude.{
  ℕ, ◌≡◌, refl, sym, ap, ◌∙◌, inl, inr, Bool, true, false, Option, some, Bool-cases, ==→eq, ◌==◌, ℤ,
}
use poker_telegram_bot.Engine.{
  TableState, TableAction, Calls, answered, Message, Reply, refused, handle_player_action,
}
use poker_telegram_bot.Engine.Acting.{HasActed}
use poker_telegram_bot.Engine.Storing.{version_of, Saved, Handled, handle_player_action-Handled}

-- A table that was read with the version that the hash now holds is the one that the hash holds.
abbrev pub Fresh : Calls → Option TableState → Type 0
Fresh calls stored =
    (l : TableState)
    → calls.second_load ≡ answered (some l)
    → version_of stored ≡ l.version
    → stored ≡ some l

-- The hash after any requests of any users.
pub data Requests (s : Option TableState) : Option TableState → Type 0 where
  no_more : Requests s s
  request :
      {t u : Option TableState} (known : TableAction → Bool) (calls : Calls) (user : ℕ)
      (a : TableAction) (amount : ℤ)
      → Requests s t
      → Fresh calls t
      → (handle_player_action known calls t user a amount).1 ≡ u
      → Requests s u

abbrev Present : ℕ → Option TableState → Type 0
Present user r = (s : TableState) × (r ≡ some s) × HasActed user true s

HasActed_one : (user : ℕ) (s : TableState) → HasActed user true s → HasActed user false s → ⊥
HasActed_one user s p q = cc

some_inj : {s t : TableState} → some s ≡ some t → s ≡ t
some_inj e = cc

module _ (calls : Calls) (user : ℕ) (a : TableAction) (amount : ℤ) where
  saved-Present :
      (v : ℕ) (stored : Option TableState) (r : Reply × Option TableState)
      → Fresh calls stored
      → Present user stored
      → Saved calls stored v a amount r
      → Present user r.1
  saved-Present v stored r fresh (s, is, acted) saved = (saved.table, saved.in_hash, after)
    where
      open saved use {loaded}

      same : s ≡ loaded
      same = some_inj (sym is ∙ fresh loaded saved.read saved.unchanged)

      before : HasActed user true loaded
      before = subst (HasActed user true) same acted

      after : HasActed user true saved.table
      after = elim (Bool-cases (v == user)) [
        | inl e ↦ subst (λ k. HasActed k true saved.table) (==→eq v user e) saved.acted.done
        | inr e ↦ saved.acted.others user true e before
      ]

  Handled-Present :
      (v : ℕ) (stored : Option TableState) (r : Reply × Option TableState)
      → Fresh calls stored
      → Present user stored
      → Handled calls stored v a amount r
      → Present user r.1
  Handled-Present v stored r fresh (s, is, acted) (inl (m, e)) = (s, ap (λ x. x.1) e ∙ is, acted)
  Handled-Present v stored r fresh here (inr saved) = saved-Present v stored r fresh here saved

  Handled-refused :
      (stored : Option TableState) (r : Reply × Option TableState)
      → Fresh calls stored
      → Present user stored
      → Handled calls stored user a amount r
      → (m : Message) × (r ≡ (refused m, stored))
  Handled-refused stored r fresh here (inl turned) = turned
  Handled-refused stored r fresh (s, is, acted) (inr saved) = absurd (
      HasActed_one user saved.loaded (subst (HasActed user true) same acted) saved.acted.first_time)
    where
      same : s ≡ saved.loaded
      same = some_inj (sym is ∙ fresh saved.loaded saved.read saved.unchanged)

Requests-Present :
    (user : ℕ) (s r : Option TableState) → Requests s r → Present user s → Present user r
Requests-Present user s r no_more here = here
Requests-Present user s r (request {t} known calls v a amount before fresh e) here =
    subst (Present user) e (
      Handled-Present calls user a amount v t _ fresh (Requests-Present user s t before here)
        (handle_player_action-Handled calls t v a amount known))

-- Nobody acts twice: once a user has acted, every later request of the user is refused and leaves
-- the hash as it is, whatever requests of anyone came between. (A table that is read with the
-- version of the hash has to be the one in the hash.)
pub acts_once :
    (user : ℕ) (s : TableState) (r : Option TableState)
    → HasActed user true s
    → Requests (some s) r
    → (known : TableAction → Bool) (calls : Calls) (a : TableAction) (amount : ℤ) → Fresh calls r
    → (m : Message) × (handle_player_action known calls r user a amount ≡ (refused m, r))
acts_once user s r acted requests known calls a amount fresh =
    Handled-refused calls user a amount r _ fresh
      (Requests-Present user (some s) r requests (s, refl, acted))
      (handle_player_action-Handled calls r user a amount known)
