-- ===== src/Betting.antt =====
-- pokerapp/betting_handler.py: a betting action as a two-phase commit between the wallet service
-- and the game engine. This file has the data and the validation, Retry.antt the retry policy, and
-- Handler.antt the protocol. The engine is handed to the handler as an object of any type: what
-- its calls answer is an argument. Times are natural numbers of one unit.
pub mod Retry
pub mod Handler
pub mod Validation
pub mod Commit
pub mod Atomicity
use poker_telegram_bot.Prelude.{
  ℕ, zero, suc, ◌+◌, ◌-◌, Bool, true, false, not, ◌&&◌, Option, none, some, List, [], ◌∷◌, ltb, leb,
  ◌==◌, if◌then◌else◌, ℤ, pos, negsuc,
}

-- The actions that `_validate_action` tells apart, after `strip` and `lower`.
pub data BettingAction : Type 0 where
  fold check call raise all_in unknown : BettingAction

-- A player in the engine's state, as far as the handler reads it.
pub record BetPlayer : Type 0 where
  pub user_id : ℕ
  pub folded : Bool
  pub current_bet : ℕ
  pub chips : ℕ

pub record BetState : Type 0 where
  pub players : List BetPlayer
  pub current_bet : ℕ
  pub current_player_id : Option ℕ
  pub version : ℕ

-- What `load_game_state` answers.
pub data Loaded : Type 0 where
  loaded : BetState → Loaded
  not_found : Loaded
  load_raised : Loaded

pub data BetError : Type 0 where
  state_not_available not_seated already_folded cannot_check invalid_raise unknown_action : BetError

pub data Validated : Type 0 where
  valid : ℕ → Validated
  invalid : BetError → Validated
  validation_raised : Validated

abbrev pub find_player : ℕ → List BetPlayer → Option BetPlayer
find_player u [] = none
find_player u (p ∷ ps) = if p.user_id == u then some p else find_player u ps

-- `max(current_bet - player_bet, 0)`
abbrev pub to_call : BetState → BetPlayer → ℕ
to_call st p = st.current_bet - p.current_bet

abbrev pub required_raise : BetState → BetPlayer → Option ℤ → Validated
required_raise st p none = invalid invalid_raise
required_raise st p (some (negsuc _)) = invalid invalid_raise
required_raise st p (some (pos a)) =
    if leb a st.current_bet then invalid invalid_raise else valid (a - p.current_bet)

-- The ladder over the action.
unfoldable pub required_amount : BetState → BetPlayer → BettingAction → Option ℤ → Validated
required_amount st p fold amount = valid 0
required_amount st p check amount = if ltb 0 (to_call st p) then invalid cannot_check else valid 0
required_amount st p call amount = valid (to_call st p)
required_amount st p raise amount = required_raise st p amount
required_amount st p all_in amount = valid p.chips
required_amount st p unknown amount = invalid unknown_action

-- `_validate_action`
unfoldable pub validate_action : Loaded → ℕ → BettingAction → Option ℤ → Validated
unfolding required_amount
validate_action load_raised u action amount = validation_raised
validate_action not_found u action amount = invalid state_not_available
validate_action (loaded st) u action amount = elim (find_player u st.players) [
  | none ↦ invalid not_seated
  | some p ↦ if p.folded then invalid already_folded else required_amount st p action amount
]

-- `_is_players_turn`
abbrev pub is_players_turn : BetState → ℕ → Bool
is_players_turn st u = elim st.current_player_id [ none ↦ false | some v ↦ v == u ]
