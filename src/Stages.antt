-- ===== src/Stages.antt =====
-- The streets of a hand: `progress_stage`, `collect_bets_for_pot`, `_add_cards_to_table`,
-- `_divide_cards` and `_ensure_dealer_position` of pokerapp/matchmaking_service.py. The callback
-- `finalize_game` is an argument, as in the source, and so are the shuffled decks that `get_cards`
-- returns. Messages and lock waiting are left out, and the debug dealer too: the setting that
-- allows it is off.
pub mod Progress
pub mod Streets
pub mod Dealing
use poker_telegram_bot.Prelude.{
  ℕ, zero, suc, ◌+◌, ◌-◌, Bool, true, false, Option, none, some, List, [], ◌∷◌, ◌++◌, length, leb,
  ltb, ◌==◌, if◌then◌else◌, ◌>>=◌, ℤ, pos, negsuc, minus_one,
}
use poker_telegram_bot.Cards.{Card}
use poker_telegram_bot.Entities.{
  GameState, initial, round_pre_flop, round_flop, round_turn, round_river, finished, Player, Game,
  players, contenders, active_players, map_seats, next_occupied_seat, advance_dealer,
}
use poker_telegram_bot.Play.{find_next_active_player_index}

-- `collect_bets_for_pot` of the matchmaking service: the players with a bet in this round.
unfoldable pub collect_round_bets : Game → Game
collect_round_bets g = record g {
  seats = map_seats (λ p. if ltb 0 p.round_rate then record p { round_rate = 0 } else p) g.seats;
  max_round_rate = 0;
}

abbrev pub clear_acted : Game → Game
clear_acted g = record g { seats = map_seats (λ p. record p { has_acted = false }) g.seats }

-- `stage_transitions`: the next street and how many cards it shows.
abbrev pub stage_transition : GameState → Option (GameState × ℕ)
stage_transition round_pre_flop = some (round_flop, 3)
stage_transition round_flop = some (round_turn, 1)
stage_transition round_turn = some (round_river, 1)
stage_transition _ = none

abbrev pub is_river : GameState → Bool
is_river round_river = true
is_river _ = false

-- `list.pop()`: the last card, and the rest.
abbrev pub pop : List Card → Option (Card × List Card)
pop [] = none
pop (c ∷ cs) = elim (pop cs) [ none ↦ some (c, []) | some (d, rest) ↦ some (d, c ∷ rest) ]

abbrev pub show_card : Game → Game
show_card g = elim (pop g.remain_cards) [
  | none ↦ g
  | some (c, rest) ↦ record g { cards_table = g.cards_table ++ (c ∷ []); remain_cards = rest }
]

-- `_add_cards_to_table`
unfoldable pub add_cards_to_table : ℕ → Game → Game
add_cards_to_table zero g = g
add_cards_to_table (suc n) g = add_cards_to_table n (show_card g)

abbrev pub nobody_on_turn : Game → Game
nobody_on_turn g = record g { current_player_index = minus_one }

-- What one round of the loop of `progress_stage` decides.
pub data Stage : Type 0 where
  settled : Bool → Game → Stage
  again : Game → Stage

abbrev pub close_or_continue : (Game → Game) → Game → Stage
close_or_continue finalize_game g =
    if is_river g.state then settled false (nobody_on_turn (finalize_game g)) else again g

-- The part of a round after the cards of the new street are shown.
unfoldable pub find_turn : (Game → Game) → Game → Stage
unfolding find_next_active_player_index
find_turn finalize_game g = elim (active_players g) [
  | [] ↦ close_or_continue finalize_game g
  | _ ∷ _ ↦ elim (find_next_active_player_index g g.dealer_index) [
    | pos k ↦ settled true (record g { current_player_index = pos k })
    | negsuc _ ↦ close_or_continue finalize_game (nobody_on_turn g)
  ]
]

unfoldable pub stage_round : (Game → Game) → Game → Stage
unfolding find_turn add_cards_to_table collect_round_bets
stage_round finalize_game g =
    let ready = clear_acted (collect_round_bets g) in
    elim (stage_transition ready.state) [
      | some (s, count) ↦ find_turn finalize_game (
          add_cards_to_table count
            (record ready { state = s; callback_version = ready.callback_version + 1 }))
      | none ↦
          if is_river ready.state
          then settled false (nobody_on_turn (finalize_game ready))
          else settled false (nobody_on_turn ready)
    ]

-- The loop of `progress_stage`, with at most `fuel` rounds.
unfoldable pub stage_loop : (Game → Game) → ℕ → Game → Option (Bool × Game)
unfolding stage_round
stage_loop finalize_game zero g = none
stage_loop finalize_game (suc fuel) g = elim (stage_round finalize_game g) [
  | settled b g' ↦ some (b, g')
  | again g' ↦ stage_loop finalize_game fuel g'
]

-- `progress_stage`; there are four streets, so four rounds are enough.
unfoldable pub progress_stage : (Game → Game) → Game → Option (Bool × Game)
unfolding stage_loop
progress_stage finalize_game g =
    if leb (length (contenders g)) 1
    then some (false, nobody_on_turn (finalize_game g))
    else stage_loop finalize_game 4 g

-- One player's two cards, from a deck that is replaced where it has fewer than two.
abbrev pub refilled : List Card → List Card → List Card
refilled fresh deck = if ltb (length deck) 2 then fresh else deck

abbrev pub deal_two : List Card → Option (List Card × List Card)
deal_two deck = do (a, deck') ← pop deck; (b, deck'') ← pop deck'; some (a ∷ b ∷ [], deck'')

-- The loop of `_divide_cards` over the seats; `none` is the `IndexError` of a pop on an empty deck.
-- Each refill takes the next of the shuffled decks.
abbrev pub divide_from :
    (ℕ → List Card)
    → ℕ
    → List (Option Player)
    → List Card
    → Option (List (Option Player) × List Card)
divide_from fresh k [] deck = some ([], deck)
divide_from fresh k (none ∷ ps) deck = do
  (ps', rest) ← divide_from fresh k ps deck
  some (none ∷ ps', rest)
divide_from fresh k (some p ∷ ps) deck = do
  (hand, deck') ← deal_two (refilled (fresh k) deck)
  (ps', rest) ← divide_from fresh (if ltb (length deck) 2 then suc k else k) ps deck'
  some (some (record p { cards = hand }) ∷ ps', rest)

-- `_divide_cards`
unfoldable pub divide_cards : (ℕ → List Card) → Game → Option Game
divide_cards fresh g = do
  (ps, rest) ← divide_from fresh 0 g.seats g.remain_cards
  some (record g { seats = ps; remain_cards = rest })

-- `_ensure_dealer_position`
unfoldable pub ensure_dealer_position : Game → Bool × Game
unfolding advance_dealer next_occupied_seat
ensure_dealer_position g =
    let (d, g') = advance_dealer g in
    elim d [
      | pos _ ↦ (true, g')
      | negsuc _ ↦
          let d' = next_occupied_seat g' minus_one in
          (elim d' [ pos _ ↦ true | negsuc _ ↦ false ], record g' { dealer_index = d' })
    ]
