-- ===== src/Session.antt =====
-- A hand as the steps that pokerapp/pokerbotmodel.py and pokerapp/matchmaking_service.py take on
-- the game and on the wallets: blinds, players' actions, the turn that goes on, and new streets.
pub mod Users
pub mod Steps
pub mod Conserve
pub mod Blinds
use poker_telegram_bot.Prelude.{
  ℕ, ◌+◌, ◌≡◌, Bool, true, Option, none, some, List, get_elem?, ℤ, pos,
}
use poker_telegram_bot.Entities.{Game, Player}
use poker_telegram_bot.WalletManager.{Purse}
use poker_telegram_bot.Play.{Refusal, accepted, rejected}
use poker_telegram_bot.Play.Money.{PlayerAction, process}
use poker_telegram_bot.Play.Turn.{next_turn}
use poker_telegram_bot.Play.Blinds.{Purses, write_purse, set_player_blind}
use poker_telegram_bot.Stages.{progress_stage}
use poker_telegram_bot.Stages.Progress.{Dealt}

-- The game, and everybody's wallet.
pub record Hand : Type 0 where
  pub game : Game
  pub purses : Purses

-- One step of a hand: a blind is posted; a player's action is accepted or refused; the turn goes
-- to the next player; a street begins.
pub data Step (h h' : Hand) : Type 0 where
  blind_posted :
      (chat amount i : ℕ) (p : Player)
      → get_elem? h.game.seats i ≡ some (some p)
      → h'.game ≡ (set_player_blind chat amount (pos i) p h.game h.purses).0
      → h'.purses ≡ (set_player_blind chat amount (pos i) p h.game h.purses).1
      → Step h h'
  action_accepted :
      (a : PlayerAction) (i : ℕ) (p : Player) (q : Purse)
      → get_elem? h.game.seats i ≡ some (some p)
      → process a h.game i p (h.purses p.user_id) ≡ accepted h'.game q
      → h'.purses ≡ write_purse p.user_id q h.purses
      → Step h h'
  action_refused :
      (a : PlayerAction) (i : ℕ) (p : Player) (e : Refusal) (q : Purse)
      → get_elem? h.game.seats i ≡ some (some p)
      → process a h.game i p (h.purses p.user_id) ≡ rejected e q
      → h'.game ≡ h.game
      → h'.purses ≡ write_purse p.user_id q h.purses
      → Step h h'
  turn_passed :
      (p : Player) → next_turn h.game ≡ some (p, h'.game) → h'.purses ≡ h.purses → Step h h'
  street_begun :
      (finalize_game : Game → Game)
      → Dealt h.game
      → progress_stage finalize_game h.game ≡ some (true, h'.game)
      → h'.purses ≡ h.purses
      → Step h h'

-- Any number of steps.
pub data Run : Hand → Hand → Type 0 where
  finished_run : {h : Hand} → Run h h
  then_step : {h h' h'' : Hand} → Step h h' → Run h' h'' → Run h h''
