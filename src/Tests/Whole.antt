-- ===== src/Tests/Whole.antt =====
-- A run over a whole hand: two blinds, and the settlement.
use poker_telegram_bot.Prelude.{◌+◌, ◌≡◌, ◌<◌, refl, none, some, [], ◌∷◌, arith, pos, minus_one}
use poker_telegram_bot.Entities.{Player, contenders, active, round_pre_flop}
use poker_telegram_bot.Play.Blinds.{set_player_blind}
use poker_telegram_bot.Pots.{settle}
use poker_telegram_bot.Pots.Shares.{payouts_total}
use poker_telegram_bot.Pots.Settlement.{stakes}
use poker_telegram_bot.Session.{Hand, Run, finished_run, then_step, blind_posted}
use poker_telegram_bot.Session.Users.{bank}
use poker_telegram_bot.Session.Conserve.{hand_conserves}
use poker_telegram_bot.Tests.Data.{player_with, game_with, aces, kings, flop_deck, purse}

abbrev small : Player
small = player_with 1 active aces 0 0

abbrev big : Player
big = player_with 2 active kings 0 0

abbrev new_hand : Hand
new_hand = record {
  game =
      game_with round_pre_flop 0 0
        (some small ∷ some big ∷ none ∷ none ∷ none ∷ none ∷ none ∷ none ∷ []) [] flop_deck
        minus_one;
  purses = λ u. purse;
}

abbrev after_small : Hand
after_small = record {
  game = (set_player_blind 9 5 (pos 0) small new_hand.game new_hand.purses).0;
  purses = (set_player_blind 9 5 (pos 0) small new_hand.game new_hand.purses).1;
}

abbrev after_big : Hand
after_big = record {
  game = (set_player_blind 9 10 (pos 1) big after_small.game after_small.purses).0;
  purses = (set_player_blind 9 10 (pos 1) big after_small.game after_small.purses).1;
}

blinds-Run : Run new_hand after_big
unfolding set_player_blind
blinds-Run =
    then_step (blind_posted 9 5 0 small refl refl refl)
      (then_step (blind_posted 9 10 1 big refl refl refl) finished_run)

blinds_bet : 0 < stakes (contenders after_big.game)
unfolding set_player_blind
blinds_bet = omega arith

hand_conserves_example :
    bank (1 ∷ 2 ∷ []) after_big.purses + payouts_total (settle after_big.game) ≡ 200
hand_conserves_example =
    hand_conserves new_hand after_big ((omega arith, tt), (tt, tt)) refl blinds-Run blinds_bet
