-- ===== src/Engine/Acting.antt =====
-- What an action does to the table of pokerapp/game_engine.py before it is saved: the chips, the
-- entries and who has acted.
use mathlib.Core.Path.{subst}
use poker_telegram_bot.Prelude.{
  ℕ, ◌+◌, ◌≡◌, refl, sym, ap, ◌∙◌, ◌⊎◌, inl, inr, Bool, true, false, Option, none, some, sum_by,
  length, ltb, ◌==◌, Bool-cases, Option-cases, arith, ℤ, pos_part,
}
use poker_telegram_bot.Engine.{
  TablePlayer, TableState, TableAction, Change, changed, find_player, write_player,
  calculate_required_amount, apply_player_action, place_wager, act, update_pot_from_bets,
  advance_to_next_player, next_unfolded,
}
use poker_telegram_bot.Engine.Players.{
  chips_of, users, find-user, find-write_self, find-write_ne, chips-write, users-write, chips-clear,
  users-clear, find-clear, bets-clear,
}

-- All the chips on the table: the pot, the stacks and the bets.
abbrev pub table_chips : TableState → ℕ
table_chips t = t.pot + chips_of t.players

-- Somebody's entry, with what it says of `has_acted`.
abbrev pub HasActed : ℕ → Bool → TableState → Type 0
HasActed user b t = (p : TablePlayer) × (find_player t.players user ≡ some p) × (p.has_acted ≡ b)

-- The table after `user` has acted on `t`, before it is saved.
pub record Acted (user : ℕ) (t t' : TableState) : Type 0 where
  pub first_time : HasActed user false t
  pub done : HasActed user true t'
  pub others : (v : ℕ) (b : Bool) → (user == v) ≡ false → HasActed v b t → HasActed v b t'
  pub same_users : users t'.players ≡ users t.players
  pub same_chips : table_chips t' ≡ table_chips t
  pub bets_in_pot : (t'.pot ≡ t.pot) ⊎ (sum_by (λ p. p.bet) t'.players ≡ 0)

-- An entry that may take the place of `p` when its player acts.
record Played (p q : TablePlayer) : Type 0 where
  user : q.user_id ≡ p.user_id
  chips : q.chips + q.bet ≡ p.chips + p.bet
  acted : q.has_acted ≡ true

place_wager-Played :
    (a : TableAction) (n bet : ℕ) (p q : TablePlayer) (bet' : ℕ)
    → place_wager a n p bet ≡ some (q, bet')
    → Played p q
unfolding place_wager
place_wager-Played a n bet p q bet' h = elim (Bool-cases (ltb p.chips n)) [
  | inl e ↦ absurd (ground (arith))
  | inr e ↦ record { user = ground (arith); chips = ground (arith); acted = ground (arith) }
]

apply-Played :
    (a : TableAction) (n : ℤ) (p : TablePlayer) (bet : ℕ) (q : TablePlayer) (bet' : ℕ)
    → apply_player_action a n p bet ≡ some (q, bet')
    → Played p q
unfolding apply_player_action
apply-Played TableAction.fold n p bet q bet' h = record {
  user = ground (arith);
  chips = ground (arith);
  acted = ground (arith);
}
apply-Played TableAction.check n p bet q bet' h = record {
  user = ground (arith);
  chips = ground (arith);
  acted = ground (arith);
}
apply-Played (TableAction.other k) n p bet q bet' h = cc
apply-Played TableAction.call n p bet q bet' h =
    place_wager-Played TableAction.call (pos_part n) bet p q bet' h
apply-Played TableAction.raise n p bet q bet' h =
    place_wager-Played TableAction.raise (pos_part n) bet p q bet' h
apply-Played TableAction.all_in n p bet q bet' h =
    place_wager-Played TableAction.all_in (pos_part n) bet p q bet' h

changed_inj : {x y : TableState} → ◌≡◌ {A = Change} (changed x) (changed y) → x ≡ y
changed_inj e = cc

module _ (user : ℕ) (t : TableState) where
  -- The new table once the player's entry is written.
  written-Acted :
      (p q : TablePlayer) (bet : ℕ)
      → find_player t.players user ≡ some p
      → p.has_acted ≡ false
      → Played p q
      → Acted user t (record t { players = write_player t.players user q; current_bet = bet })
  written-Acted p q bet found fresh played = record {
    first_time = (p, found, fresh);
    done = (q, find-write_self user q t.players p found same, acted);
    others = λ v b n a. (a.0, find-write_ne user q t.players v same n ∙ a.1, a.2);
    same_users = users-write user q t.players same;
    same_chips = ap (λ n. t.pot + n) (chips-write user q t.players p found chips);
    bets_in_pot = inl refl;
  }
    where
      open played use {chips, acted}

      same : q.user_id ≡ user
      same = played.user ∙ find-user t.players user p found

  pub act-Acted :
      (a : TableAction) (amount : ℤ) (o : Option TablePlayer) (t' : TableState)
      → find_player t.players user ≡ o
      → act a amount user t o ≡ changed t'
      → Acted user t t'
  unfolding act
  act-Acted a amount none t' found h = cc
  act-Acted a amount (some p) t' found h = elim (Bool-cases p.has_acted) [
    | inl old ↦ cc
    | inr fresh ↦
        by_play
          (apply_player_action a (calculate_required_amount a t.current_bet p.bet p.chips amount) p
            t.current_bet)
          refl fresh
  ]
    where
      by_play :
          (r : Option (TablePlayer × ℕ))
          → apply_player_action a
              (calculate_required_amount a t.current_bet p.bet p.chips amount)
              p
              t.current_bet
            ≡ r
          → p.has_acted ≡ false
          → Acted user t t'
      by_play none e fresh = absurd (ground (arith))
      by_play (some (q, bet)) e fresh =
          subst (λ s. Acted user t s) (changed_inj (sym (rw (e, fresh) refl) ∙ h))
            (written-Acted p q bet found fresh (apply-Played a _ p t.current_bet q bet e))

-- Settling the bets and moving the turn leave the chips and the entries' users as they are.
pub settled-Acted :
    (user : ℕ) (t s : TableState) → Acted user t s → Acted user t (update_pot_from_bets s)
unfolding update_pot_from_bets
settled-Acted user t s a = record {
  first_time = a.first_time;
  done = let (q, found, acted) = a.done in (_, find-clear s.players user q found, acted);
  others = λ v b n h.
      let (q, found, acted) = a.others v b n h in (_, find-clear s.players v q found, acted);
  same_users = users-clear s.players ∙ a.same_users;
  same_chips = omega (arith, chips-clear s.players, a.same_chips);
  bets_in_pot = inr (bets-clear s.players);
}

-- Only the index moves.
advance-moves :
    (s : TableState) → (i : ℕ) × (advance_to_next_player s ≡ record s { current_player_index = i })
unfolding advance_to_next_player
advance-moves s =
    elim (Option-cases (next_unfolded s.players s.current_player_index (length s.players) 1)) [
      | inl e ↦ (s.current_player_index, ground (arith))
      | inr (i, e) ↦ (i, ground (arith))
    ]

pub moved-Acted :
    (user n : ℕ) (t s : TableState)
    → Acted user t s
    → Acted user t (record (advance_to_next_player s) { version = n })
moved-Acted user n t s a =
    let (i, e) = advance-moves s in
    subst (λ (m : TableState). Acted user t (record m { version = n })) (sym e)
      (record {
        first_time = a.first_time;
        done = a.done;
        others = a.others;
        same_users = a.same_users;
        same_chips = a.same_chips;
        bets_in_pot = a.bets_in_pot;
      })

pub advance-version : (s : TableState) → (advance_to_next_player s).version ≡ s.version
advance-version s = ap (λ m. m.version) (advance-moves s).1

pub settle-version : (s : TableState) → (update_pot_from_bets s).version ≡ s.version
unfolding update_pot_from_bets
settle-version s = refl
