-- ===== src/Engine/Preparing.antt =====
-- The table that a request of `GameEngine.handle_player_action` (pokerapp/game_engine.py) is about to
-- save.
use mathlib.Core.Path.{subst}
use poker_telegram_bot.Prelude.{
  ℕ, ◌≡◌, refl, ◌∙◌, inl, inr, Bool, true, Option, none, some, Bool-cases, arith, ℤ,
}
use poker_telegram_bot.Engine.{
  TablePlayer, TableState, TableAction, Calls, Answer, answered, timed_out, broken, Change,
  turned_down, changed, find_player, act, update_player, needs_pot_update, update_pot_from_bets,
  settle_bets, prepare,
}
use poker_telegram_bot.Engine.Acting.{Acted, act-Acted, settled-Acted, settle-version}
use poker_telegram_bot.Engine.Deeds.{Written, Settled, act-Written, settled-Settled}

-- What step 2, the player's update, hands on.
pub record Updated (calls : Calls) (user : ℕ) (a : TableAction) (amount : ℤ) (s : TableState)
    : Type 0 where
  pub loaded : TableState
  pub read : calls.second_load ≡ answered (some loaded)
  pub version : s.version ≡ loaded.version
  pub written : Written a amount user loaded s
  pub acted : Acted user loaded s

-- What steps 1 to 3 hand to the save.
pub record Prepared (calls : Calls) (user : ℕ) (a : TableAction) (amount : ℤ) (s : TableState)
    : Type 0 where
  pub loaded : TableState
  pub read : calls.second_load ≡ answered (some loaded)
  pub version : s.version ≡ loaded.version
  pub wrote : TableState
  pub written : Written a amount user loaded wrote
  pub bets : Settled a wrote s
  pub acted : Acted user loaded s

act-version :
    (a : TableAction) (amount : ℤ) (user : ℕ) (t : TableState) (o : Option TablePlayer)
    (t' : TableState)
    → act a amount user t o ≡ changed t'
    → t'.version ≡ t.version
unfolding act
act-version a amount user t none t' h = cc
act-version a amount user t (some p) t' h = ground (arith)

update-Updated :
    (calls : Calls) (user : ℕ) (a : TableAction) (amount : ℤ) (s : TableState)
    → update_player calls user a amount ≡ answered (changed s)
    → Updated calls user a amount s
unfolding update_player
update-Updated calls user a amount s h = by_load calls.second_load refl
  where
    by_load :
        (o : Answer (Option TableState)) → calls.second_load ≡ o → Updated calls user a amount s
    by_load (answered (some t)) e =
        let did : act a amount user t (find_player t.players user) ≡ changed s = ground (arith) in
        record {
          loaded = t;
          read = e;
          version = act-version a amount user t _ s did;
          written = act-Written a amount user t s _ refl did;
          acted = act-Acted user t a amount _ s refl did;
        }
    by_load (answered none) e = absurd (ground (arith))
    by_load timed_out e = absurd (ground (arith))
    by_load broken e = absurd (ground (arith))

settle-Prepared :
    (calls : Calls) (user : ℕ) (a : TableAction) (amount : ℤ) (s s' : TableState)
    → Updated calls user a amount s
    → settle_bets calls a s ≡ answered s'
    → Prepared calls user a amount s'
unfolding settle_bets
settle-Prepared calls user a amount s s' p h = elim (Bool-cases (needs_pot_update a s)) [
  | inr e ↦
      subst (λ t. Prepared calls user a amount t) (ground (arith))
        (record {
          loaded = p.loaded;
          read = p.read;
          version = p.version;
          wrote = s;
          written = p.written;
          bets = inl (e, refl);
          acted = p.acted;
        })
  | inl e ↦ subst (λ t. Prepared calls user a amount t) (ground (arith)) (settled e)
]
  where
    settled : needs_pot_update a s ≡ true → Prepared calls user a amount (update_pot_from_bets s)
    settled e = record {
      loaded = p.loaded;
      read = p.read;
      version = settle-version s ∙ p.version;
      wrote = s;
      written = p.written;
      bets = settled-Settled a s e;
      acted = settled-Acted user p.loaded s p.acted;
    }

pub prepare-Prepared :
    (known : TableAction → Bool) (calls : Calls) (user : ℕ) (a : TableAction) (amount : ℤ)
    (s : TableState)
    → prepare known calls user a amount ≡ answered (changed s)
    → Prepared calls user a amount s
unfolding prepare
prepare-Prepared known calls user a amount s h = by_update (update_player calls user a amount) refl
  where
    by_update :
        (o : Answer Change) → update_player calls user a amount ≡ o → Prepared calls user a amount s
    by_update (answered (changed t)) e =
        settle-Prepared calls user a amount t s (update-Updated calls user a amount t e)
          (ground (arith))
    by_update (answered (turned_down m)) e = absurd (ground (arith))
    by_update timed_out e = absurd (ground (arith))
    by_update broken e = absurd (ground (arith))
