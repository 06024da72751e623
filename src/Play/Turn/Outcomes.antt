-- ===== src/Play/Turn/Outcomes.antt =====
-- How the handling of an action can end, over `_handle_locked_player_action` of
-- pokerapp/pokerbotmodel.py.
use poker_telegram_bot.Prelude.{ℕ, ◌≡◌, ◌≢◌, ◌⊎◌, true, false, none, some, pos}
use poker_telegram_bot.Entities.{Player, Game, get_player_by_seat}
use poker_telegram_bot.WalletManager.{Purse, funds}
use poker_telegram_bot.Play.{Refusal, accepted, rejected}
use poker_telegram_bot.Play.Money.{PlayerAction, process, Moved}
use poker_telegram_bot.Play.Turn.{
  process_playing, TurnCalls, ActionResult, purse_of, lock_error, lock_busy, lock_held, load_failed,
  no_game, game_loaded, answers, save_failed, game_saved, turn_of, no_turn, flow_failed, unanswered,
}

-- The lock is held, the game that was loaded has the turn at a seat, and the user sits there.
pub record OnTurn (c : TurnCalls) (user : ℕ) (before : Game) (seat : ℕ) (player : Player)
    : Type 0 where
  pub locked : c.lock ≡ lock_held
  pub was_loaded : c.load ≡ game_loaded before
  pub turn : before.current_player_index ≡ pos seat
  pub sits : get_player_by_seat before before.current_player_index ≡ some player
  pub own : player.user_id ≡ user

-- The action of the user on turn was accepted, and its chips have moved.
pub record Took (c : TurnCalls) (a : PlayerAction) (user : ℕ) (w v : Purse) : Type 0 where
  pub before : Game
  pub after : Game
  pub seat : ℕ
  pub player : Player
  pub on_turn : OnTurn c user before seat player
  pub answered : c.exit ≡ answers
  pub ran : process a before seat player w ≡ accepted after v
  pub chips : Moved before w after v

-- It was saved, with the turn handed on or nobody's turn.
pub record Completed (c : TurnCalls) (a : PlayerAction) (user : ℕ) (w : Purse) (r : ActionResult)
    : Type 0 where
  pub took : Took c a user w r.wallet
  pub final : Game
  pub went_on :
      ((p : Player) × ((process_playing c.stages none took.after).0 ≡ turn_of p final)
        × (r.next_player ≡ some p))
      ⊎ (((process_playing c.stages none took.after).0 ≡ no_turn final) × (r.next_player ≡ none))
  pub saves : c.save ≡ game_saved
  pub success : r.success ≡ true
  pub game : r.game ≡ some final
  pub stored : r.stored ≡ some final

-- It was accepted, and what came after it failed: `_process_playing` or the save.
pub record Lost (c : TurnCalls) (a : PlayerAction) (user : ℕ) (w : Purse) (r : ActionResult)
    : Type 0 where
  pub took : Took c a user w r.wallet
  pub final : Game
  pub failed :
      ((process_playing c.stages none took.after).0 ≡ flow_failed final)
      ⊎ ((process_playing c.stages none took.after).0 ≡ unanswered final)
      ⊎ (c.save ≢ game_saved)
  pub success : r.success ≡ false
  pub game : r.game ≡ some final
  pub stored :
      (r.stored ≡ (process_playing c.stages none took.after).1)
      ⊎ (c.save ≡ save_failed true) × (r.stored ≡ some final)

-- An exception left the processor of the user on turn: nothing is stored, and the funds are as they
-- were, or as the action would have left them.
pub record CutShort (c : TurnCalls) (a : PlayerAction) (user : ℕ) (w : Purse) (r : ActionResult)
    : Type 0 where
  pub before : Game
  pub seat : ℕ
  pub player : Player
  pub on_turn : OnTurn c user before seat player
  pub raised : c.exit ≢ answers
  pub paid :
      (funds r.wallet ≡ funds w)
      ⊎ (funds r.wallet ≡ funds (purse_of (process a before seat player w)))
  pub success : r.success ≡ false
  pub game : r.game ≡ some before
  pub stored : r.stored ≡ none

-- Why an action is not taken.
pub data Reason (c : TurnCalls) (a : PlayerAction) (user : ℕ) (w : Purse) : Type 0 where
  unlocked : (c.lock ≡ lock_error) ⊎ (c.lock ≡ lock_busy) → Reason c a user w
  unloaded : (c.load ≡ load_failed) ⊎ (c.load ≡ no_game) → Reason c a user w
  nobody :
      (g : Game)
      → c.load ≡ game_loaded g
      → get_player_by_seat g g.current_player_index ≡ none
      → Reason c a user w
  somebody_else :
      (g : Game) (p : Player)
      → c.load ≡ game_loaded g
      → get_player_by_seat g g.current_player_index ≡ some p
      → p.user_id ≢ user
      → Reason c a user w
  refused :
      (g : Game) (seat : ℕ) (p : Player) (e : Refusal) (v : Purse)
      → OnTurn c user g seat p
      → process a g seat p w ≡ rejected e v
      → Reason c a user w

pub record NotTaken (c : TurnCalls) (a : PlayerAction) (user : ℕ) (w : Purse) (r : ActionResult)
    : Type 0 where
  pub reason : Reason c a user w
  pub success : r.success ≡ false
  pub stored : r.stored ≡ none
  pub same_funds : funds r.wallet ≡ funds w

abbrev pub Handled : TurnCalls → PlayerAction → ℕ → Purse → ActionResult → Type 0
Handled c a user w r =
    Completed c a user w r ⊎ Lost c a user w r ⊎ CutShort c a user w r ⊎ NotTaken c a user w r
