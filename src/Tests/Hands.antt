-- ===== src/Tests/Hands.antt =====
-- Runs over hand values and pots.
use poker_telegram_bot.Prelude.{
  ℕ, ◌≡◌, ◌≤◌, ◌<◌, refl, ◌⊎◌, some, List, [], ◌∷◌, length, All, ltb, arith,
}
use poker_telegram_bot.Cards.{
  Card, two, four, nine, jack, king, ace, hearts, clubs, diamonds, spades,
}
use poker_telegram_bot.Winner.{
  hand_rank, calculate_hand_score, get_hand_value, no_hand, combinations, high_card, pair,
}
use poker_telegram_bot.Winner.Score.{lex_less}
use poker_telegram_bot.Winner.Order.{
  hand_type_of, score_of, ranking, ranking_length, hand_type_decides, ranking_decides,
}
use poker_telegram_bot.Winner.Best.{Among, value_of, get_hand_value_best}
use poker_telegram_bot.Entities.{Game, all_in, fold}
use poker_telegram_bot.Entities.Seats.{OnePerUser}
use poker_telegram_bot.Pots.{Detail, pots_from, determine_pot_winners, settle}
use poker_telegram_bot.Pots.Layers.{calculated-eq-bets}
use poker_telegram_bot.Pots.Shares.{payouts_total}
use poker_telegram_bot.Pots.Settlement.{settle-conserves}
use poker_telegram_bot.Pots.DeadMoney.{short_stack_takes_dead_money}
use poker_telegram_bot.Tests.Data.{card, player_with, river_game, board}

-- Ace high, king high and a pair of twos, sorted as the code sorts them.
abbrev ace_high : List Card
ace_high =
    card ace hearts ∷ card jack clubs ∷ card nine spades ∷ card four diamonds ∷ card two clubs ∷ []

abbrev king_high : List Card
king_high =
    card king hearts ∷ card jack clubs ∷ card nine spades ∷ card four diamonds ∷ card two clubs ∷ []

abbrev twos : List Card
twos =
    card jack clubs ∷ card nine spades ∷ card four diamonds ∷ card two clubs ∷ card two hearts ∷ []

ace_high-type : hand_type_of ace_high ≡ high_card
unfolding calculate_hand_score
ace_high-type = refl

king_high-type : hand_type_of king_high ≡ high_card
unfolding calculate_hand_score
king_high-type = refl

pair_is_higher : hand_rank (hand_type_of ace_high) < hand_rank (hand_type_of twos)
unfolding calculate_hand_score
pair_is_higher = omega arith

same_type : hand_type_of king_high ≡ hand_type_of ace_high
unfolding calculate_hand_score
same_type = refl

hand_type_decides_example : score_of ace_high < score_of twos
hand_type_decides_example = hand_type_decides ace_high twos refl refl pair_is_higher

ranking_decides_example :
    (ltb (score_of king_high) (score_of ace_high) ≡ lex_less (ranking king_high) (ranking ace_high))
    × (length (ranking king_high) ≡ ranking_length (hand_type_of king_high))
    × (length (ranking ace_high) ≡ ranking_length (hand_type_of king_high))
ranking_decides_example = ranking_decides king_high ace_high refl refl same_type

get_hand_value_best_example :
    ((5 ≤ 6)
      × (h : List Card) × Among h (combinations (card ace hearts ∷ board) 5)
      × (get_hand_value (card ace hearts ∷ []) board ≡ value_of h)
      × (length (get_hand_value (card ace hearts ∷ []) board).cards ≡ 5)
      × All
          (λ c. (value_of c).score ≤ (get_hand_value (card ace hearts ∷ []) board).score)
          (combinations (card ace hearts ∷ board) 5))
    ⊎ ((6 < 5) × (get_hand_value (card ace hearts ∷ []) board ≡ no_hand))
get_hand_value_best_example = get_hand_value_best (card ace hearts ∷ []) board

river_game-OnePerUser : OnePerUser river_game.seats
river_game-OnePerUser = ((omega arith, (omega arith, tt)), ((omega arith, tt), (tt, tt)))

settle-conserves_example : payouts_total (settle river_game) ≡ 45
settle-conserves_example = settle-conserves river_game river_game-OnePerUser refl (omega arith)

-- A better hand that is all-in for 10, and a worse one that has bet 30.
abbrev detail_with : ℕ → ℕ → ℕ → Detail
detail_with u bet score = record {
  player = player_with u all_in [] 0 bet;
  total_bet = bet;
  score = score;
  hand_cards = [];
  hand_type = pair;
}

abbrev short_detail : Detail
short_detail = detail_with 1 10 9

abbrev deep_detail : Detail
deep_detail = detail_with 2 30 4

calculated-eq-bets_example : (pots_from (short_detail ∷ deep_detail ∷ []) 0 (10 ∷ 30 ∷ [])).1 ≡ 40
calculated-eq-bets_example = calculated-eq-bets (short_detail ∷ deep_detail ∷ [])

short_stack_takes_dead_money_example :
    determine_pot_winners river_game (short_detail ∷ deep_detail ∷ [])
    ≡ record { amount = 25; winners = short_detail ∷ [] }
      ∷ record { amount = 20; winners = deep_detail ∷ [] }
      ∷ []
short_stack_takes_dead_money_example =
    short_stack_takes_dead_money river_game short_detail deep_detail 5 (omega arith) (omega arith)
      (omega arith) refl

abbrev abandoned_game : Game
abandoned_game = record river_game { seats = some (player_with 3 fold [] 0 5) ∷ [] }
