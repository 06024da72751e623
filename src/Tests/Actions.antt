-- ===== src/Tests/Actions.antt =====
-- Runs over players' actions, blinds and the wallets that they are paid from.
use poker_telegram_bot.Prelude.{◌+◌, ◌≡◌, refl, false, some, [], ◌∷◌, arith, pos}
use poker_telegram_bot.WalletManager.{Purse, funds}
use poker_telegram_bot.Play.Money.{to_call, to_raise, process, Accounted, process-Accounted}
use poker_telegram_bot.Play.Turn.{
  TurnCalls, answers, lock_held, game_loaded, SaveReply, game_saved, handle_locked_player_action,
}
use poker_telegram_bot.Play.Turn.Outcomes.{Handled}
use poker_telegram_bot.Play.Turn.Handling.{handle_locked_player_action-Handled}
use poker_telegram_bot.Play.Blinds.{Purses, set_player_blind, refund_players, blind_not_refunded}
use poker_telegram_bot.Tests.Data.{opening_game, caller, raiser, purse}

abbrev purse_aside : Purse
purse_aside = record { balance = some 70; authorized = (7, 30) ∷ []; daily_bonus = false }

process-Accounted_example :
    Accounted opening_game purse (process (to_raise 5) opening_game 0 caller purse)
process-Accounted_example = process-Accounted (to_raise 5) opening_game 0 caller purse refl

abbrev calls_with : SaveReply → TurnCalls
calls_with s = record {
  lock = lock_held;
  load = game_loaded opening_game;
  exit = answers;
  stages = [];
  save = s;
}

handle_locked_player_action-Handled_example :
    Handled
      (calls_with game_saved)
      to_call
      1
      purse
      (handle_locked_player_action (calls_with game_saved) 1 (process to_call) purse)
handle_locked_player_action-Handled_example =
    handle_locked_player_action-Handled (calls_with game_saved) to_call 1 purse

abbrev purses : Purses
purses u = purse

blind_not_refunded_example :
    funds (
        refund_players 77
          (raiser ∷ [])
          (set_player_blind 5 10 (pos 1) raiser opening_game purses).1
          2)
      + 10
    ≡ 100
blind_not_refunded_example =
    blind_not_refunded 5 10 (pos 1) raiser opening_game purses (omega arith) (omega arith)
