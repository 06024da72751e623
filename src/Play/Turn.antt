-- ===== src/Play/Turn.antt =====
-- One player's action from the lock to the save: `_handle_locked_player_action` and
-- `_process_playing` of pokerapp/pokerbotmodel.py. The locks, the table manager and the game
-- service's `progress_stage` answer from a script. `progress_stage` may change the game object, which
-- it can share with the caller, and may store a game itself, as `_progress_stage_snapshot` of
-- pokerapp/game_engine.py does. Log lines and the turn's deadline are left out.
pub mod Outcomes
pub mod Handling
use mathlib.Core.Path.{subst}
use poker_telegram_bot.Prelude.{
  ℕ, zero, suc, ◌≡◌, refl, ◌⊎◌, inl, inr, Bool, true, false, ◌||◌, Option, none, some, List, [],
  ◌∷◌, get_elem?, length, leb, ◌==◌, if◌then◌else◌, arith, Bool-cases, Option-cases, ℤ, pos, negsuc,
  ap,
}
use poker_telegram_bot.Entities.{Player, Game, players, contenders, player_at, get_player_by_seat}
use poker_telegram_bot.WalletManager.{Purse, funds}
use poker_telegram_bot.Play.{
  Refusal, Processed, accepted, rejected, is_betting_round_over, find_next_active_player_index,
}
use poker_telegram_bot.Play.Money.{PlayerAction, process, Moved, Accounted, process-Accounted}

pub data LockReply : Type 0 where
  lock_error lock_busy lock_held : LockReply

pub data LoadReply : Type 0 where
  load_failed no_game : LoadReply
  game_loaded : Game → LoadReply

-- `save_failed` says whether the game had been written when the save raised.
pub data SaveReply : Type 0 where
  save_failed : Bool → SaveReply
  version_conflict game_saved : SaveReply

-- How a processor ends: by its answer, or by an exception of a Redis call, which comes before the
-- debit, between the debit and the setting aside of the money, or after both.
pub data Exit : Type 0 where
  answers raises_before raises_between raises_after : Exit

-- What `progress_stage` answers, the game object after it, and a game that it has stored.
pub data StageReply : Type 0 where
  should_continue hand_over stage_raised : Game → Option Game → StageReply

-- What `_process_playing` comes to; `unanswered` is a recursion that has not ended.
pub data Played : Type 0 where
  turn_of : Player → Game → Played
  no_turn flow_failed unanswered : Game → Played

-- The turn goes to the player that an index names.
abbrev pub give_turn : Game → ℤ → Option (Player × Game)
give_turn g (negsuc _) = none
give_turn g (pos k) = elim (get_elem? (players g) k) [
  | none ↦ none
  | some p ↦ some (p, record g { current_player_index = pos k })
]

-- The part of `_process_playing` before a call of `progress_stage`: somebody's turn, or nothing
-- where the stage has to be progressed.
unfoldable pub next_turn : Game → Option (Player × Game)
unfolding is_betting_round_over find_next_active_player_index
next_turn g =
    if leb (length (contenders g)) 1 || is_betting_round_over g
    then none
    else give_turn g (find_next_active_player_index g g.current_player_index)

-- What is stored after a step that may have stored a game.
abbrev pub kept_or_stored : Option Game → Option Game → Option Game
kept_or_stored (some g) stored = some g
kept_or_stored none stored = stored

-- `_process_playing`: each stage reply is the answer of one `progress_stage`; with the game that the
-- calls of it have stored last.
unfoldable pub process_playing : List StageReply → Option Game → Game → Played × Option Game
unfolding next_turn
process_playing [] stored g =
    (elim (next_turn g) [ none ↦ unanswered g | some (p, g') ↦ turn_of p g' ], stored)
process_playing (r ∷ rs) stored g = elim (next_turn g) [
  | some (p, g') ↦ (turn_of p g', stored)
  | none ↦ elim r [
    | should_continue g' s ↦ process_playing rs (kept_or_stored s stored) g'
    | hand_over g' s ↦ (no_turn g', kept_or_stored s stored)
    | stage_raised g' s ↦ (flow_failed g', kept_or_stored s stored)
  ]
]

pub record TurnCalls : Type 0 where
  pub lock : LockReply
  pub load : LoadReply
  pub exit : Exit
  pub stages : List StageReply
  pub save : SaveReply

-- `_ActionProcessingResult`, with the user's purse and the game that was stored last.
pub record ActionResult : Type 0 where
  pub success : Bool
  pub game : Option Game
  pub error_message : Option Refusal
  pub next_player : Option Player
  pub wallet : Purse
  pub stored : Option Game

abbrev pub failure : Option Game → Option Refusal → Purse → ActionResult
failure g e w = record {
  success = false;
  game = g;
  error_message = e;
  next_player = none;
  wallet = w;
  stored = none;
}

-- A failure after the processor.
abbrev pub late_failure : Game → Purse → Option Game → ActionResult
late_failure g w stored = record (failure (some g) none w) { stored = stored }

-- The save, and what is reported after it.
abbrev pub save_action : SaveReply → Game → Option Player → Purse → Option Game → ActionResult
save_action (save_failed true) g next w stored = late_failure g w (some g)
save_action (save_failed false) g next w stored = late_failure g w stored
save_action version_conflict g next w stored = late_failure g w stored
save_action game_saved g next w stored = record {
  success = true;
  game = some g;
  error_message = none;
  next_player = next;
  wallet = w;
  stored = some g;
}

abbrev pub after_flow : SaveReply → Played × Option Game → Purse → ActionResult
after_flow s (turn_of p g, stored) w = save_action s g (some p) w stored
after_flow s (no_turn g, stored) w = save_action s g none w stored
after_flow s (flow_failed g, stored) w = late_failure g w stored
after_flow s (unanswered g, stored) w = late_failure g w stored

abbrev pub purse_of : Processed → Purse
purse_of (accepted _ v) = v
purse_of (rejected _ v) = v

unfoldable pub after_processor : TurnCalls → Game → Processed → ActionResult
unfolding process_playing
after_processor c g (rejected e w) = failure (some g) (some e) w
after_processor c g (accepted g' w) = after_flow c.save (process_playing c.stages none g') w

-- The processor with its `except` clause; `x` is what it answers where nothing raises.
unfoldable pub run_processor : TurnCalls → Game → Processed → Purse → ActionResult
unfolding after_processor
run_processor c g x w = elim c.exit [
  | answers ↦ after_processor c g x
  | raises_before ↦ failure (some g) none w
  | raises_between ↦ failure (some g) none (record w { balance = (purse_of x).balance })
  | raises_after ↦ failure (some g) none (purse_of x)
]

-- The seat that the turn is at; a negative index is no turn.
abbrev pub seat_of_turn : Game → Option (ℕ × Player)
seat_of_turn g = elim g.current_player_index [
  | negsuc _ ↦ none
  | pos i ↦ elim (player_at g.seats i) [ none ↦ none | some p ↦ some (i, p) ]
]

unfoldable pub act_on :
    TurnCalls → ℕ → (Game → ℕ → Player → Purse → Processed) → Purse → Game → ActionResult
unfolding run_processor
act_on c user processor w g = elim (seat_of_turn g) [
  | none ↦ failure (some g) none w
  | some (i, p) ↦
      if p.user_id == user then run_processor c g (processor g i p w) w else failure (some g) none w
]

-- `_handle_locked_player_action`
unfoldable pub handle_locked_player_action :
    TurnCalls → ℕ → (Game → ℕ → Player → Purse → Processed) → Purse → ActionResult
unfolding act_on
handle_locked_player_action c user processor w = elim c.lock [
  | lock_error ↦ failure none none w
  | lock_busy ↦ failure none none w
  | lock_held ↦ elim c.load [
    | load_failed ↦ failure none none w
    | no_game ↦ failure none none w
    | game_loaded g ↦ act_on c user processor w g
  ]
]
