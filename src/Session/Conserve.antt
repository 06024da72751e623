-- ===== src/Session/Conserve.antt =====
-- A whole hand, from the first blind to the wallets: pokerapp/pokerbotmodel.py,
-- pokerapp/matchmaking_service.py and pokerapp/game_engine.py together.
use mathlib.Core.Path.{subst}
use poker_telegram_bot.Prelude.{Distinct, ◌+◌, ◌≡◌, ◌<◌, refl, sym, ◌∙◌, arith}
use poker_telegram_bot.Entities.{Game, contenders}
use poker_telegram_bot.Entities.Seats.{OnePerUser}
use poker_telegram_bot.Play.Money.{stakes}
use poker_telegram_bot.Play.Blinds.{Purses}
use poker_telegram_bot.Pots.{settle}
use poker_telegram_bot.Pots.Shares.{payouts_total}
use poker_telegram_bot.Pots.Settlement
use poker_telegram_bot.Pots.Settlement.{settle-conserves}
use poker_telegram_bot.Session.{Hand, Run, finished_run, then_step}
use poker_telegram_bot.Session.Users.{users, bank, Distinct-users, OnePerUser-users}
use poker_telegram_bot.Session.Steps.{Kept}
use poker_telegram_bot.Session.Steps.Balance.{Step-Kept}

pub both-Kept :
    (g g1 g2 : Game) (ws ws1 ws2 : Purses)
    → Kept g ws g1 ws1
    → Kept g1 ws1 g2 ws2
    → Kept g ws g2 ws2
both-Kept g g1 g2 ws ws1 ws2 k l =
    let held = subst (λ us. bank us ws2 + g2.pot ≡ bank us ws1 + g1.pot) k.same_users l.total in
    record {
      same_users = l.same_users ∙ k.same_users;
      balanced = omega (arith, k.balanced, l.balanced);
      total = omega (arith, held, k.total);
    }

-- Through any number of blinds, actions, turns and streets the same users sit at the table, the
-- pot grows by exactly what the players bet, and the users' wallets and the pot hold together
-- what they held before.
Run-Kept :
    (h h' : Hand)
    → Distinct (users h.game.seats)
    → Run h h'
    → Kept h.game h.purses h'.game h'.purses
Run-Kept h h' d finished_run = record { same_users = refl; balanced = refl; total = refl }
Run-Kept h h' d (then_step {h' = next} s r) =
    let first = Step-Kept h next d s in
    let rest = Run-Kept next h' (subst (λ us. Distinct us) (sym first.same_users) d) r in
    both-Kept h.game next.game h'.game h.purses next.purses h'.purses first rest

-- A hand begins at a table where each user sits once and the pot is what is bet already, and goes
-- through any number of steps. If some contender has bet something when it is settled, what the
-- wallets then hold together with what is paid out of the pot is what wallets and pot held
-- together at the start: over the whole hand no chip is made and none is lost.
pub hand_conserves :
    (h h' : Hand)
    → OnePerUser h.game.seats
    → h.game.pot ≡ stakes h.game
    → Run h h'
    → 0 < Settlement.stakes (contenders h'.game)
    → bank (users h.game.seats) h'.purses + payouts_total (settle h'.game)
      ≡ bank (users h.game.seats) h.purses + h.game.pot
hand_conserves h h' one even r bet =
    let kept = Run-Kept h h' (Distinct-users h.game.seats one) r in
    let one' : OnePerUser h'.game.seats =
      OnePerUser-users h'.game.seats
        (subst (λ us. Distinct us) (sym kept.same_users) (Distinct-users h.game.seats one)) in
    let pot : h'.game.pot ≡ stakes h'.game = omega (arith, kept.balanced, even) in
    omega (arith, settle-conserves h'.game one' pot bet, kept.total)
