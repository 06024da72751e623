-- ===== src/Pots.antt =====
-- The end of a hand in pokerapp/game_engine.py: which contender wins which part of the pot
-- (`_determine_pot_winners`), what each is paid (`_process_showdown_results`,
-- `_process_fold_win`), and what is credited to the wallets (`_distribute_payouts`). Messages,
-- labels and logging are left out; a payout dictionary is a list of users and amounts.
pub mod Layers
pub mod Conserve
pub mod Shares
pub mod Settlement
pub mod DeadMoney
use poker_telegram_bot.Prelude.{
  ℕ, zero, suc, ◌+◌, ◌-◌, ◌*◌, ◌/◌, ◌%◌, Bool, true, false, ◌&&◌, ◌||◌, Option, none, some, List,
  [], ◌∷◌, map, length, keep, ltb, leb, ◌==◌, if◌then◌else◌,
}
use poker_telegram_bot.Cards.{Card}
use poker_telegram_bot.Entities.{Game, Player, players, contenders, active_players}
use poker_telegram_bot.Winner.{HandsOfPoker, HandValue, get_hand_value}

pub record Detail : Type 0 where
  pub player : Player
  pub total_bet : ℕ
  pub score : ℕ
  pub hand_cards : List Card
  pub hand_type : HandsOfPoker

-- `_evaluate_contender_hands`
abbrev pub detail_of : Game → Player → Detail
detail_of g p =
    let v = get_hand_value p.cards g.cards_table in
    record {
      player = p;
      total_bet = p.total_bet;
      score = v.score;
      hand_cards = v.cards;
      hand_type = v.hand_type;
    }

abbrev pub evaluate_contender_hands : Game → List Player → List Detail
evaluate_contender_hands g ps = map (detail_of g) ps

pub record Pot : Type 0 where
  pub amount : ℕ
  pub winners : List Detail

-- A bet into the ascending list of distinct bets, as `sorted(list(set(…)))` leaves it.
abbrev pub insert_tier : ℕ → List ℕ → List ℕ
insert_tier x [] = x ∷ []
insert_tier x (y ∷ ys) =
    if ltb x y then x ∷ y ∷ ys else if x == y then y ∷ ys else y ∷ insert_tier x ys

abbrev pub bet_tiers : List Detail → List ℕ
bet_tiers [] = []
bet_tiers (d ∷ ds) =
    let tiers = bet_tiers ds in if ltb 0 d.total_bet then insert_tier d.total_bet tiers else tiers

abbrev pub best_score : List Detail → ℕ
best_score [] = 0
best_score (d ∷ ds) = let m = best_score ds in if ltb m d.score then d.score else m

abbrev pub eligible : ℕ → List Detail → List Detail
eligible tier ds = keep (λ d. leb tier d.total_bet) ds

abbrev pub pot_winners : List Detail → List Detail
pot_winners ds = let top = best_score ds in keep (λ d. d.score == top) ds

abbrev pub add_pot : ℕ → List Detail → List Pot → List Pot
add_pot size ds pots =
    if ltb 0 size then record { amount = size; winners = pot_winners ds } ∷ pots else pots

-- The loop over the tiers: the pots, and `calculated_pot_total`.
unfoldable pub pots_from : List Detail → ℕ → List ℕ → List Pot × ℕ
pots_from ds last [] = ([], 0)
pots_from ds last (tier ∷ tiers) =
    let in_pot = eligible tier ds in
    let size = (tier - last) * length in_pot in
    let (pots, total) = pots_from ds tier tiers in (add_pot size in_pot pots, size + total)

-- What the pot holds beyond the tiers goes to the first pot. (Where it holds less the code logs
-- the mismatch and tells the administrator.)
abbrev pub add_discrepancy : ℕ → List Pot → List Pot
add_discrepancy extra [] = []
add_discrepancy extra (p ∷ ps) = record p { amount = p.amount + extra } ∷ ps

-- The last test of the function: one tier, and yet several pots.
abbrev pub merge_single_tier : ℕ → List ℕ → List Pot → List Pot
merge_single_tier pot (_ ∷ []) (p ∷ _ ∷ _) = record { amount = pot; winners = p.winners } ∷ []
merge_single_tier pot _ pots = pots

-- `_determine_pot_winners`
unfoldable pub determine_pot_winners : Game → List Detail → List Pot
unfolding pots_from
determine_pot_winners g [] = []
determine_pot_winners g (d ∷ ds) =
    let tiers = bet_tiers (d ∷ ds) in
    let (pots, calculated) = pots_from (d ∷ ds) 0 tiers in
    if g.pot == 0
    then []
    else merge_single_tier g.pot tiers (add_discrepancy (g.pot - calculated) pots)

abbrev pub Payouts : Type 0
Payouts = List (ℕ × ℕ)

-- `payouts.get(user, 0)`
abbrev pub payout : ℕ → Payouts → ℕ
payout u [] = 0
payout u ((v, a) ∷ ps) = if v == u then a else payout u ps

-- `payouts[user] += amount`, on a `defaultdict(int)`.
abbrev pub add_payout : ℕ → ℕ → Payouts → Payouts
add_payout u a [] = (u, a) ∷ []
add_payout u a ((v, b) ∷ ps) = if v == u then (v, b + a) ∷ ps else (v, b) ∷ add_payout u a ps

-- The loop over the winners of one pot, from `index` on.
unfoldable pub pay_winners : ℕ → ℕ → ℕ → List Detail → Payouts → Payouts
pay_winners share remainder index [] ps = ps
pay_winners share remainder index (d ∷ ds) ps =
    let win = share + (if ltb index remainder then 1 else 0) in
    pay_winners share remainder (suc index) ds
      (if ltb 0 win then add_payout d.player.user_id win ps else ps)

unfoldable pub pay_pot : Pot → Payouts → Payouts
unfolding pay_winners
pay_pot pot ps =
    if ltb 0 pot.amount && ltb 0 (length pot.winners)
    then pay_winners (pot.amount / length pot.winners) (pot.amount % length pot.winners) 0
        pot.winners ps
    else ps

-- `_process_showdown_results`, as far as the payouts go.
unfoldable pub pay_pots : List Pot → Payouts → Payouts
unfolding pay_pot
pay_pots [] ps = ps
pay_pots (pot ∷ pots) ps = pay_pots pots (pay_pot pot ps)

-- `_process_fold_win`, as far as the payouts go.
abbrev pub pay_single : List Player → ℕ → Payouts
pay_single (winner ∷ []) amount = if ltb 0 amount then (winner.user_id, amount) ∷ [] else []
pay_single _ amount = []

unfoldable pub process_fold_win : Game → Payouts
process_fold_win g = pay_single (active_players g) g.pot

abbrev pub showdown : Game → List Player → Payouts
showdown g ps = pay_pots (determine_pot_winners g (evaluate_contender_hands g ps)) []

-- `_determine_winners`
unfoldable pub determine_winners : Game → Payouts
unfolding process_fold_win
determine_winners g =
    if length (contenders g) == 0 then process_fold_win g else showdown g (contenders g)

-- `_distribute_payouts`: the calls of `wallet.inc`, in order.
unfoldable pub distribute_payouts : List Player → Payouts → Payouts
distribute_payouts [] payouts = []
distribute_payouts (p ∷ ps) payouts =
    let rest = distribute_payouts ps payouts in
    let amount = payout p.user_id payouts in
    if ltb 0 amount then (p.user_id, amount) ∷ rest else rest

-- `_execute_payouts` after `_determine_winners`: what is credited for a hand.
unfoldable pub settle : Game → Payouts
unfolding determine_winners distribute_payouts
settle g = distribute_payouts (players g) (determine_winners g)
