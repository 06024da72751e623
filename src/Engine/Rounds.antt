-- ===== src/Engine/Rounds.antt =====
-- What an action costs, and who is next, in pokerapp/game_engine.py.
use poker_telegram_bot.Prelude.{
  ℕ, ◌+◌, ◌-◌, max, ◌≡◌, ◌<◌, ◌≤◌, refl, ◌⊎◌, inl, inr, true, false, some, ltb, ltb→lt, sym,
  Bool-cases, arith, ℤ, pos_part, neg_part,
}
use poker_telegram_bot.Engine.{
  TablePlayer, TableState, TableAction, folded, Change, turned_down, changed, cannot_act,
  action_failed, find_player, write_player, calculate_required_amount, place_wager,
  apply_player_action, act,
}
use poker_telegram_bot.Engine.Players.{find-write_self}

-- The chips that an action costs, by the rules: what is missing to the bet, and the raise on top;
-- a negative raise takes off.
abbrev pub price : TableAction → ℤ → TableState → TablePlayer → ℕ
price TableAction.call amount t p = t.current_bet - p.bet
price TableAction.raise amount t p = (t.current_bet + pos_part amount) - (p.bet + neg_part amount)
price TableAction.all_in amount t p = p.chips
price _ amount t p = 0

-- The bet that is to be matched after an action which costs `n`.
abbrev pub bet_after : TableAction → ℕ → TableState → TablePlayer → ℕ
bet_after TableAction.raise n t p = max t.current_bet (p.bet + n)
bet_after TableAction.all_in n t p = max t.current_bet (p.bet + n)
bet_after _ n t p = t.current_bet

abbrev pub entry_after : TableAction → ℕ → TablePlayer → TablePlayer
entry_after TableAction.fold n p = record p { status = folded; has_acted = true }
entry_after _ n p = record p { chips = p.chips - n; bet = p.bet + n; has_acted = true }

abbrev IsUnknown : TableAction → Type 0
IsUnknown a = (n : ℕ) × (a ≡ TableAction.other n)

-- The table once `p` has paid.
pub record Paid (a : TableAction) (amount : ℤ) (t t' : TableState) (p : TablePlayer) : Type 0 where
  pub table : t' ≡ record t {
    players = write_player t.players p.user_id (entry_after a (price a amount t p) p);
    current_bet = bet_after a (price a amount t p) t p;
  }
  pub affordable : price a amount t p ≤ p.chips
  pub entry : find_player t'.players p.user_id ≡ some (entry_after a (price a amount t p) p)
  pub to_match : t'.current_bet ≡ bet_after a (price a amount t p) t p
  pub same_pot : t'.pot ≡ t.pot

module _ (amount : ℤ) (t : TableState) (p : TablePlayer)
    (found : find_player t.players p.user_id ≡ some p) where
  abbrev pub Decided : TableAction → Change → Type 0
  Decided a c =
      ((p.has_acted ≡ true) × (c ≡ turned_down cannot_act))
      ⊎ (((IsUnknown a) ⊎ (p.chips < price a amount t p)) × (c ≡ turned_down action_failed))
      ⊎ ((t' : TableState) × (c ≡ changed t') × (p.has_acted ≡ false) × Paid a amount t t' p)

  changed_to :
      (a : TableAction)
      → p.has_acted ≡ false
      → price a amount t p ≤ p.chips
      → act a amount p.user_id t (some p)
        ≡ changed (record t {
          players = write_player t.players p.user_id (entry_after a (price a amount t p) p);
          current_bet = bet_after a (price a amount t p) t p;
        })
      → (p.user_id ≡ (entry_after a (price a amount t p) p).user_id)
      → Decided a (act a amount p.user_id t (some p))
  changed_to a fresh able e same = inr (
      inr (
        _,
        e,
        fresh,
        record {
          table = refl;
          affordable = able;
          entry =
              find-write_self p.user_id (entry_after a (price a amount t p) p) t.players p found
                (sym same);
          to_match = refl;
          same_pot = refl;
        },
      ))

  decided : (a : TableAction) → p.has_acted ≡ false → Decided a (act a amount p.user_id t (some p))
  unfolding act apply_player_action calculate_required_amount place_wager
  decided TableAction.fold fresh =
      changed_to TableAction.fold fresh (omega arith) (ground (arith)) refl
  decided TableAction.check fresh =
      changed_to TableAction.check fresh (omega arith) (ground (arith)) refl
  decided (TableAction.other n) fresh = inr (inl (inl (n, refl), ground (arith)))
  decided TableAction.call fresh =
      elim (Bool-cases (ltb p.chips (price TableAction.call amount t p))) [
        | inl e ↦ inr (inl (inr (ltb→lt _ _ e), ground (arith)))
        | inr e ↦ changed_to TableAction.call fresh (ground (arith)) (ground (arith)) refl
      ]
  decided TableAction.raise fresh =
      elim (Bool-cases (ltb p.chips (price TableAction.raise amount t p))) [
        | inl e ↦ inr (inl (inr (ltb→lt _ _ e), ground (arith)))
        | inr e ↦ changed_to TableAction.raise fresh (ground (arith)) (ground (arith)) refl
      ]
  decided TableAction.all_in fresh =
      changed_to TableAction.all_in fresh (omega arith) (ground (arith)) refl

  -- What an action does to the entry that was found. Who has acted cannot act; an action that is
  -- not known, or costs more than the player's chips, fails, so a call is refused to a player who
  -- has not enough for it; every other one takes its price from the chips into the bet (a fold
  -- folds), raises the bet to be matched where it is a raise or all in, and leaves the pot.
  pub act_lem : (a : TableAction) → Decided a (act a amount p.user_id t (some p))
  unfolding act
  act_lem a = elim (Bool-cases p.has_acted) [
    | inl old ↦ inl (old, ground (arith))
    | inr fresh ↦ decided a fresh
  ]
