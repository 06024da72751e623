-- ===== src/Play/Unpaid.antt =====
-- Calls and raises of players without a wallet, over the processors of pokerapp/pokerbotmodel.py.
use poker_telegram_bot.Prelude.{ℕ, Option, none, some}
use poker_telegram_bot.Entities.{Player, Game}
use poker_telegram_bot.Play.{call_without_wallet, raise_without_wallet}
use poker_telegram_bot.Play.Money.{PlayerAction, to_call, to_raise}

-- What a call, or a raise by an amount, makes of the game without a wallet.
abbrev pub process_without_wallet : Option ℕ → Game → ℕ → Player → Option Game
process_without_wallet none g i p = some (call_without_wallet g i p)
process_without_wallet (some a) g i p = raise_without_wallet a g i p

abbrev pub wager_action : Option ℕ → PlayerAction
wager_action none = to_call
wager_action (some a) = to_raise a
