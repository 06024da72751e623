-- ===== src/Engine/Deeds.antt =====
-- One whole action on the table of pokerapp/game_engine.py: the player's entry, the bets and the
-- turn.
use mathlib.Core.Path.{subst}
use poker_telegram_bot.Prelude.{
  ℕ, ◌+◌, ◌%◌, ◌<◌, ◌≤◌, ◌≡◌, refl, sym, ap, ◌∙◌, ◌⊎◌, inl, inr, true, false, Option, none, some,
  List, [], ◌∷◌, length, map, sum_by, arith, ℤ,
}
use poker_telegram_bot.Engine.{
  TablePlayer, TableState, TableAction, Change, changed, find_player, write_player, act,
  needs_pot_update, update_pot_from_bets, clear_bet, advance_to_next_player,
}
use poker_telegram_bot.Engine.Players.{users, find-user}
use poker_telegram_bot.Engine.Rounds.{price, bet_after, entry_after, Decided, act_lem}
use poker_telegram_bot.Engine.Turns.{FoldedAt, InPlayAt, advance_to_next_player_nearest}

-- The user's entry has paid the action's price, and the bet to be matched is the new one; nothing
-- else on the table has changed.
pub record Written (a : TableAction) (amount : ℤ) (user : ℕ) (t s : TableState) : Type 0 where
  pub player : TablePlayer
  pub found : find_player t.players user ≡ some player
  pub affordable : price a amount t player ≤ player.chips
  pub result : s ≡ record t {
    players = write_player t.players user (entry_after a (price a amount t player) player);
    current_bet = bet_after a (price a amount t player) t player;
  }

-- Where the action completes the betting round, the bets go into the pot; otherwise they stay.
abbrev pub Settled : TableAction → TableState → TableState → Type 0
Settled a s u =
    ((needs_pot_update a s ≡ false) × (u ≡ s))
    ⊎ (needs_pot_update a s ≡ true)
      × (u ≡ record s {
        pot = s.pot + sum_by (λ p. p.bet) s.players;
        players = map clear_bet s.players;
      })

-- The turn goes to the nearest player after the one on turn who has not folded, if there is one,
-- and the version is `n`; nothing else changes.
abbrev pub Turned : ℕ → TableState → TableState → Type 0
Turned n u t' =
    ((j : ℕ) × (j ≤ length u.players)
      × InPlayAt u.players u.current_player_index 1 j
      × (t' ≡ record u {
        current_player_index = (u.current_player_index + j) % length u.players;
        version = n;
      }))
    ⊎ ((m : ℕ) → 1 ≤ m → m ≤ length u.players → FoldedAt u.players u.current_player_index m)
      × (t' ≡ record u { version = n })

-- The table after one whole action.
pub record Deed (a : TableAction) (amount : ℤ) (user : ℕ) (t t' : TableState) : Type 0 where
  pub wrote : TableState
  pub written : Written a amount user t wrote
  pub settled : TableState
  pub bets : Settled a wrote settled
  pub turn : Turned (t.version + 1) settled t'

changed_same : {x y : TableState} → ◌≡◌ {A = Change} (changed x) (changed y) → x ≡ y
changed_same e = cc

own_entry :
    (a : TableAction) (amount : ℤ) (t s : TableState) (p : TablePlayer)
    (found : find_player t.players p.user_id ≡ some p) (c : Change)
    → Decided amount t p found a c
    → c ≡ changed s
    → Written a amount p.user_id t s
own_entry a amount t s p found c (inl (acted, e)) h = absurd (cc)
own_entry a amount t s p found c (inr (inl (why, e))) h = absurd (cc)
own_entry a amount t s p found c (inr (inr (t', e, fresh, paid))) h = record {
  player = p;
  found = found;
  affordable = paid.affordable;
  result = changed_same (sym h ∙ e) ∙ paid.table;
}

pub act-Written :
    (a : TableAction) (amount : ℤ) (user : ℕ) (t s : TableState) (o : Option TablePlayer)
    → find_player t.players user ≡ o
    → act a amount user t o ≡ changed s
    → Written a amount user t s
unfolding act
act-Written a amount user t s none found h = cc
act-Written a amount user t s (some p) found h =
    let same = find-user t.players user p found in
    subst (λ u. Written a amount u t s) same
      (own_entry a amount t s p (subst (λ u. find_player t.players u ≡ some p) (sym same) found) _
        (act_lem amount t p (subst (λ u. find_player t.players u ≡ some p) (sym same) found) a)
        (subst (λ u. act a amount u t (some p) ≡ changed s) (sym same) h))

-- Moving the turn.
pub turned :
    (n : ℕ) (u : TableState)
    → 0 < length u.players
    → Turned n u (record (advance_to_next_player u) { version = n })
turned n u some_player = elim (advance_to_next_player_nearest u some_player) [
  | inl (j, l, near, e) ↦ inl (j, l, near, ap (λ (s : TableState). record s { version = n }) e)
  | inr (all_folded, e) ↦ inr (all_folded, ap (λ (s : TableState). record s { version = n }) e)
]

same_emptiness : (xs ys : List TablePlayer) → users xs ≡ users ys → 0 < length ys → 0 < length xs
same_emptiness xs [] e h = absurd (omega arith)
same_emptiness [] (y ∷ ys) e h = absurd (cc)
same_emptiness (x ∷ xs) (y ∷ ys) e h = omega arith

found_among :
    (ps : List TablePlayer) (u : ℕ) (p : TablePlayer) → find_player ps u ≡ some p → 0 < length ps
unfolding find_player
found_among [] u p h = absurd (cc)
found_among (x ∷ ps) u p h = omega arith

-- The table has players, where one was found before it changed.
pub some_players :
    (t s : TableState) (user : ℕ) (p : TablePlayer)
    → find_player t.players user ≡ some p
    → users s.players ≡ users t.players
    → 0 < length s.players
some_players t s user p found same =
    same_emptiness s.players t.players same (found_among t.players user p found)

pub settled-Settled :
    (a : TableAction) (s : TableState)
    → needs_pot_update a s ≡ true
    → Settled a s (update_pot_from_bets s)
unfolding update_pot_from_bets
settled-Settled a s e = inr (e, refl)
