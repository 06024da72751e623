-- ===== src/Betting/Validation.antt =====
-- What `_validate_action` of pokerapp/betting_handler.py lets through.
use poker_telegram_bot.Prelude.{
  ℕ, ◌+◌, ◌≤◌, ◌<◌, ◌≡◌, refl, inl, inr, false, Option, none, some, arith, ℤ, pos, negsuc,
  Option-cases, max, List, [], ◌∷◌,
}
use poker_telegram_bot.Betting.{
  BettingAction, fold, check, call, raise, all_in, unknown, BetPlayer, BetState, Loaded, loaded,
  not_found, load_raised, valid, find_player, required_amount, validate_action,
}

-- What an action may cost, in words of the table rather than of the code: after paying `n` a caller
-- has bet as much as anybody, and a raiser has bet what was announced, which is more.
abbrev pub Costs : BetState → BetPlayer → BettingAction → Option ℤ → ℕ → Type 0
Costs st p fold amount n = n ≡ 0
Costs st p check amount n = (n ≡ 0) × (st.current_bet ≤ p.current_bet)
Costs st p call amount n = p.current_bet + n ≡ max st.current_bet p.current_bet
Costs st p raise amount n =
    (a : ℕ) × (amount ≡ some (pos a))
    × (st.current_bet < a)
    × (p.current_bet + n ≡ max a p.current_bet)
Costs st p all_in amount n = n ≡ p.chips
Costs st p unknown amount n = ⊥

required_amount-Costs :
    (st : BetState) (p : BetPlayer) (action : BettingAction) (amount : Option ℤ) (n : ℕ)
    → required_amount st p action amount ≡ valid n
    → Costs st p action amount n
unfolding required_amount
required_amount-Costs st p fold amount n h = ground arith
required_amount-Costs st p check amount n h = ground arith
required_amount-Costs st p call amount n h = ground arith
required_amount-Costs st p raise none n h = absurd (cc)
required_amount-Costs st p raise (some (negsuc a)) n h = absurd (cc)
required_amount-Costs st p raise (some (pos a)) n h = (a, refl, ground arith, ground arith)
required_amount-Costs st p all_in amount n h = ground arith
required_amount-Costs st p unknown amount n h = absurd (cc)

find_player-id :
    (u : ℕ) (ps : List BetPlayer) (p : BetPlayer) → find_player u ps ≡ some p → p.user_id ≡ u
find_player-id u [] p h = absurd (cc)
find_player-id u (q ∷ ps) p h = ground (arith, find_player-id u ps p)

-- An action that passes was loaded with a table, its player sits there and has not folded, and
-- the chips that are to be reserved are what the action costs.
pub validate_action_sound :
    (load : Loaded) (u : ℕ) (action : BettingAction) (amount : Option ℤ) (n : ℕ)
    → validate_action load u action amount ≡ valid n
    → (st : BetState) × (p : BetPlayer) × (load ≡ loaded st)
      × (find_player u st.players ≡ some p)
      × (p.user_id ≡ u)
      × (p.folded ≡ false)
      × Costs st p action amount n
unfolding validate_action
validate_action_sound load_raised u action amount n h = absurd (cc)
validate_action_sound not_found u action amount n h = absurd (cc)
validate_action_sound (loaded st) u action amount n h =
    elim (Option-cases (find_player u st.players)) [
      | inl nobody ↦ absurd (ground (arith, nobody))
      | inr (p, found) ↦ (
        st,
        p,
        refl,
        found,
        find_player-id u st.players p found,
        ground (arith, found),
        required_amount-Costs st p action amount n (ground (arith, found)),
      )
    ]
