-- ===== src/Engine/Storing.antt =====
-- What one request of `GameEngine.handle_player_action` leaves in Redis.
use mathlib.Core.Path.{subst}
use poker_telegram_bot.Prelude.{
  ℕ, ◌+◌, ◌<◌, ◌≡◌, length, refl, ap, ◌∙◌, ◌⊎◌, inl, inr, Bool, true, false, Option, none, some,
  if◌then◌else◌, Bool-cases, arith, ℤ,
}
use poker_telegram_bot.Engine.{
  TableState, TableAction, Calls, Answer, answered, timed_out, broken, Reply, refused, succeeded,
  Message, busy, internal_error, state_conflict, Change, turned_down, changed,
  advance_to_next_player, save_game_state, save_table, persist, prepare, handle_player_action,
}
use poker_telegram_bot.Engine.Acting.{Acted, moved-Acted, advance-version}
use poker_telegram_bot.Engine.Deeds.{Turned, Deed, turned, some_players}
use poker_telegram_bot.Engine.Preparing.{Prepared, prepare-Prepared}

-- The version that the save script finds in the table's hash.
abbrev pub version_of : Option TableState → ℕ
version_of none = 0
version_of (some s) = s.version

-- The table was saved: the hash held the version that the request had read, and now holds the
-- next one. If the save's answer was lost, the reply does not say so.
pub record Saved (calls : Calls) (stored : Option TableState) (user : ℕ) (a : TableAction)
    (amount : ℤ) (r : Reply × Option TableState) : Type 0 where
  pub loaded : TableState
  pub table : TableState
  pub read : calls.second_load ≡ answered (some loaded)
  pub unchanged : version_of stored ≡ loaded.version
  pub next_version : table.version ≡ loaded.version + 1
  pub acted : Acted user loaded table
  pub deed : Deed a amount user loaded table
  pub in_hash : r.1 ≡ some table
  pub reply :
      (r.0 ≡ succeeded table)
      ⊎ ((calls.save_landed ≡ true) × ((r.0 ≡ refused busy) ⊎ (r.0 ≡ refused internal_error)))

abbrev pub Handled :
    Calls → Option TableState → ℕ → TableAction → ℤ → Reply × Option TableState → Type 0
Handled calls stored user a amount r =
    ((m : Message) × (r ≡ (refused m, stored))) ⊎ Saved calls stored user a amount r

save_script_lem :
    (stored : Option TableState) (t : TableState) (n : ℕ)
    → t.version ≡ n + 1
    → ((version_of stored ≡ n) × (save_game_state stored t ≡ (some t, true)))
      ⊎ (save_game_state stored t ≡ (stored, false))
unfolding save_game_state
save_script_lem none t n h = ground (arith)
save_script_lem (some s) t n h = ground (arith)

module _ (calls : Calls) (stored : Option TableState) (user : ℕ) (a : TableAction)
    (amount : ℤ) where
  save-Handled :
      (s : TableState)
      → calls.second_load ≡ answered (some s)
      → (t : TableState) → t.version ≡ s.version + 1
      → Acted user s t
      → Deed a amount user s t
      → Handled calls stored user a amount (save_table calls stored t)
  unfolding save_table
  save-Handled s read t e acted deed = elim (save_script_lem stored t s.version e) [
    | inl (v, done) ↦ by_answer calls.save_call refl v done
    | inr done ↦ conflict calls.save_call refl done
  ]
    where
      saved_as :
          (r : Reply)
          → version_of stored ≡ s.version
          → (r ≡ succeeded t)
            ⊎ ((calls.save_landed ≡ true) × ((r ≡ refused busy) ⊎ (r ≡ refused internal_error)))
          → Handled calls stored user a amount (r, some t)
      saved_as r v reply = inr (record {
        loaded = s;
        table = t;
        read = read;
        unchanged = v;
        next_version = e;
        acted = acted;
        deed = deed;
        in_hash = refl;
        reply = reply;
      })

      lost :
          (m : Message)
          → (m ≡ busy) ⊎ (m ≡ internal_error)
          → version_of stored ≡ s.version
          → Handled calls stored user a amount
              (refused m, if calls.save_landed then some t else stored)
      lost m which v = elim (Bool-cases calls.save_landed) [
        | inl l ↦
            subst (λ r. Handled calls stored user a amount r) (ground (arith))
              (saved_as (refused m) v (inr (l, ground (arith))))
        | inr l ↦ inl (m, ground (arith))
      ]

      by_answer :
          (o : Answer (Unit {0}))
          → calls.save_call ≡ o
          → version_of stored ≡ s.version
          → save_game_state stored t ≡ (some t, true)
          → Handled calls stored user a amount (save_table calls stored t)
      by_answer (answered u) h v done =
          subst (λ r. Handled calls stored user a amount r) (ground (arith))
            (saved_as (succeeded t) v (inl refl))
      by_answer timed_out h v done =
          subst (λ r. Handled calls stored user a amount r) (ground (arith))
            (lost busy (inl refl) v)
      by_answer broken h v done =
          subst (λ r. Handled calls stored user a amount r) (ground (arith))
            (lost internal_error (inr refl) v)

      conflict :
          (o : Answer (Unit {0}))
          → calls.save_call ≡ o
          → save_game_state stored t ≡ (stored, false)
          → Handled calls stored user a amount (save_table calls stored t)
      conflict (answered u) h done = inl (state_conflict, ground (arith))
      conflict timed_out h done = inl (busy, ground (arith))
      conflict broken h done = inl (internal_error, ground (arith))

  persist-Handled :
      (s : TableState)
      → Prepared calls user a amount s
      → Handled calls stored user a amount (persist calls stored s)
  unfolding persist
  persist-Handled s p = by_lock calls.write_lock refl
    where
      n : ℕ
      n = (advance_to_next_player s).version + 1

      t : TableState
      t = record (advance_to_next_player s) { version = n }

      e : n ≡ p.loaded.version + 1
      e = ap (λ k. k + 1) (advance-version s ∙ p.version)

      some_left : 0 < length s.players
      some_left = some_players p.loaded s user p.written.player p.written.found p.acted.same_users

      deed : Deed a amount user p.loaded t
      deed = record {
        wrote = p.wrote;
        written = p.written;
        settled = s;
        bets = p.bets;
        turn = subst (λ k. Turned k s t) e (turned n s some_left);
      }

      by_lock :
          (o : Answer (Unit {0}))
          → calls.write_lock ≡ o
          → Handled calls stored user a amount (persist calls stored s)
      by_lock (answered u) h =
          subst (λ r. Handled calls stored user a amount r) (ground (arith))
            (save-Handled p.loaded p.read t e (moved-Acted user n p.loaded s p.acted) deed)
      by_lock timed_out h = inl (busy, ground (arith))
      by_lock broken h = inl (internal_error, ground (arith))

  -- A request is refused and leaves the table's hash as it is, or it has saved its table, which is
  -- the one that was read after exactly one action of the user: the user had not acted; the user's
  -- entry has paid the action's price (none for a check or a fold, which folds), and the bet to be
  -- matched is the new one; where that completes the betting round, all bets go into the pot; and
  -- the turn goes to the nearest player after the one on turn who has not folded. Nothing else is
  -- changed, so everyone else has acted as before, the table has the same users, and the chips of
  -- pot, stacks and bets are the same. The hash held the version that was read and holds the next.
  -- Only a save whose answer is lost is not reported as a success.
  pub handle_player_action-Handled :
      (known : TableAction → Bool)
      → Handled calls stored user a amount (handle_player_action known calls stored user a amount)
  unfolding handle_player_action
  handle_player_action-Handled known = by_change (prepare known calls user a amount) refl
    where
      by_change :
          (o : Answer Change)
          → prepare known calls user a amount ≡ o
          → Handled calls stored user a amount
              (handle_player_action known calls stored user a amount)
      by_change (answered (changed s)) h =
          subst (λ r. Handled calls stored user a amount r) (ground (arith))
            (persist-Handled s (prepare-Prepared known calls user a amount s h))
      by_change (answered (turned_down m)) h = inl (m, ground (arith))
      by_change timed_out h = inl (busy, ground (arith))
      by_change broken h = inl (internal_error, ground (arith))
