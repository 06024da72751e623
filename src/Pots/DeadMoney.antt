-- ===== src/Pots/DeadMoney.antt =====
-- Where `_determine_pot_winners` (pokerapp/game_engine.py) puts the bets of players who folded.
use poker_telegram_bot.Prelude.{ℕ, ◌+◌, ◌-◌, ◌<◌, ◌≡◌, [], ◌∷◌, arith}
use poker_telegram_bot.Entities.{Game}
use poker_telegram_bot.Pots.{Detail, determine_pot_winners, pots_from}

-- Two contenders, the first of them with the better hand and the lower bet, and `folded` chips from
-- players who are out: the short stack wins twice its own bet and all that was folded, whatever that is;
-- the other contender gets back the part that nobody matched.
pub short_stack_takes_dead_money :
    (g : Game) (short deep : Detail) (folded : ℕ)
    → 0 < short.total_bet
    → short.total_bet < deep.total_bet
    → deep.score < short.score
    → g.pot ≡ short.total_bet + deep.total_bet + folded
    → determine_pot_winners g (short ∷ deep ∷ [])
      ≡ record { amount = short.total_bet + short.total_bet + folded; winners = short ∷ [] }
        ∷ record { amount = deep.total_bet - short.total_bet; winners = deep ∷ [] }
        ∷ []
unfolding determine_pot_winners pots_from
short_stack_takes_dead_money g short deep folded h k l e = ground arith
