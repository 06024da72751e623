-- ===== src/Stages/Streets.antt =====
-- One round of the loop of `progress_stage` of pokerapp/matchmaking_service.py.
pub mod Loop
use mathlib.Core.Path.{subst}
use poker_telegram_bot.Prelude.{
  map, ℕ, zero, suc, ◌+◌, ◌%◌, ◌≤◌, ◌<◌, ◌≡◌, refl, sym, ◌∙◌, ◌⊎◌, inl, inr, Bool, true, false,
  Option, none, some, List, [], ◌∷◌, length, length-append, reverse, length-reverse, get_elem?, All,
  leb, ltb, if◌then◌else◌, ℤ, pos, negsuc, minus_one, arith, Bool-cases, Option-cases, ap,
}
use poker_telegram_bot.Entities.{
  GameState, initial, round_pre_flop, round_flop, round_turn, round_river, finished, Player, Game,
  occupied, players, contenders, active_players, map_seats, is_state, active, seated_count,
}
use poker_telegram_bot.Play.{find_next_active_player_index, index_after}
use poker_telegram_bot.Play.Rounds.{find_next_active_player_index_lem}
use poker_telegram_bot.Stages.{
  collect_round_bets, clear_acted, stage_transition, is_river, add_cards_to_table, nobody_on_turn,
  Stage, settled, again, close_or_continue, find_turn, stage_round, stage_loop, progress_stage,
}
use poker_telegram_bot.Stages.Progress.{board_size, street, Dealt, Shown, add_cards_to_table_lem}

-- A player as a street begins: no bet in it, and not acted in it.
abbrev pub Fresh : Player → Type 0
Fresh p = (p.round_rate ≡ 0) × (p.has_acted ≡ false)

-- Who has bet how much in this hand.
abbrev pub bets : List Player → List (ℕ × ℕ)
bets ps = map (λ p. (p.user_id, p.total_bet)) ps

-- The pot, and the bets that it is made of.
abbrev pub money_of : Game → ℕ × List (ℕ × ℕ)
money_of g = (g.pot, bets (players g))

-- A hand whose street has just begun.
pub record Begun (money : ℕ × List (ℕ × ℕ)) (g : Game) : Type 0 where
  pub dealt : Dealt g
  pub fresh : All Fresh (players g)
  pub no_rate : g.max_round_rate ≡ 0
  pub same_money : money_of g ≡ money

-- Somebody who can act is on turn in a later street.
pub record OnTurn (g g' : Game) : Type 0 where
  pub begun : Begun (money_of g) g'
  pub later : street g.state < street g'.state
  pub index : ℕ
  pub player : Player
  pub turn : g'.current_player_index ≡ pos index
  pub there : get_elem? (players g') index ≡ some player
  pub can_act : is_state player.state active ≡ true

-- The hand was finalized with the five cards of the river on the table, and nobody is on turn.
pub record Closed (finalize_game : Game → Game) (g g' : Game) : Type 0 where
  pub hand : Game
  pub result : g' ≡ nobody_on_turn (finalize_game hand)
  pub river : hand.state ≡ round_river
  pub five : length hand.cards_table ≡ 5
  pub same_money : money_of hand ≡ money_of g

abbrev pub Progressed : (Game → Game) → Game → Option (Bool × Game) → Type 0
Progressed f g r =
    ((g' : Game) × (r ≡ some (true, g')) × OnTurn g g')
    ⊎ ((g' : Game) × (r ≡ some (false, g')) × Closed f g g')

fresh_seats :
    (ps : List (Option Player))
    → All Fresh (
        occupied (
          map_seats
            (λ p. record p { has_acted = false })
            (map_seats (λ p. if ltb 0 p.round_rate then record p { round_rate = 0 } else p) ps)))
fresh_seats [] = tt
fresh_seats (none ∷ ps) = fresh_seats ps
fresh_seats (some p ∷ ps) = ((ground arith, refl), fresh_seats ps)

pub money_eq :
    (g h : Game) → h.pot ≡ g.pot → bets (players h) ≡ bets (players g) → money_of h ≡ money_of g
money_eq g h e f = cc

pub bets_ready :
    (ps : List (Option Player))
    → bets (
        occupied (
          map_seats
            (λ p. record p { has_acted = false })
            (map_seats (λ p. if ltb 0 p.round_rate then record p { round_rate = 0 } else p) ps)))
      ≡ bets (occupied ps)
bets_ready [] = refl
bets_ready (none ∷ ps) = bets_ready ps
bets_ready (some p ∷ ps) = ground (arith, bets_ready ps)

pub transition_lem :
    (a s : GameState) (count : ℕ)
    → stage_transition a ≡ some (s, count)
    → (street s ≡ suc (street a))
      × (board_size s ≡ board_size a + count)
      × (board_size s ≤ 5)
      × (stage_transition s ≡ none → s ≡ round_river)
transition_lem round_pre_flop s count e = ground arith
transition_lem round_flop s count e = ground arith
transition_lem round_turn s count e = ground arith
transition_lem round_river s count e = absurd (cc)
transition_lem initial s count e = absurd (cc)
transition_lem finished s count e = absurd (cc)

-- What one round of the loop may decide, for a hand that has just been given its street's cards.
abbrev pub Decided : (Game → Game) → Game → Stage → Type 0
Decided f h (settled true g') =
    (k : ℕ) × (p : Player) × (g' ≡ record h { current_player_index = pos k })
    × (get_elem? (players h) k ≡ some p)
    × (is_state p.state active ≡ true)
Decided f h (settled false g') =
    (i : ℤ) × (g' ≡ nobody_on_turn (f (record h { current_player_index = i })))
    × (h.state ≡ round_river)
Decided f h (again g') =
    (i : ℤ) × (g' ≡ record h { current_player_index = i }) × (is_river h.state ≡ false)

pub street-le : (a : GameState) → street a ≤ 3
street-le a = ground arith

river_lem : (a : GameState) → is_river a ≡ true → a ≡ round_river
river_lem initial e = absurd (cc)
river_lem round_pre_flop e = absurd (cc)
river_lem round_flop e = absurd (cc)
river_lem round_turn e = absurd (cc)
river_lem round_river e = refl
river_lem finished e = absurd (cc)

close_or_continue_lem :
    (f : Game → Game) (h : Game) (i : ℤ)
    → Decided f h (close_or_continue f (record h { current_player_index = i }))
close_or_continue_lem f h i = elim (Bool-cases (is_river h.state)) [
  | inl e ↦ rw e (i, refl, river_lem h.state e)
  | inr e ↦ rw e (i, refl, e)
]

pub find_turn_lem : (f : Game → Game) (h : Game) → Decided f h (find_turn f h)
unfolding find_turn
find_turn_lem f h = by_players (active_players h) refl
  where
    by_index :
        (r : ℤ) (p : Player) (ps : List Player)
        → active_players h ≡ p ∷ ps
        → find_next_active_player_index h h.dealer_index ≡ r
        → Decided f h (find_turn f h)
    by_index (pos k) p ps e at = elim (find_next_active_player_index_lem h h.dealer_index) [
      | inr (never, _) ↦ absurd (ground (arith, never, at))
      | inl (j, _, n) ↦
          let here = (index_after h.dealer_index (seated_count h) + j) % length (players h) in
          let same : k ≡ here = ground (arith, n.index, at) in
          rw (find_turn, e, at) (k, n.player, refl, rw same n.there, n.can_act)
    ]
    by_index (negsuc m) p ps e at = rw (find_turn, e, at) (close_or_continue_lem f h minus_one)

    by_players : (ps : List Player) → active_players h ≡ ps → Decided f h (find_turn f h)
    by_players [] e = rw (find_turn, e) (close_or_continue_lem f h h.current_player_index)
    by_players (p ∷ ps) e = by_index (find_next_active_player_index h h.dealer_index) p ps e refl

-- The hand after the bets are collected and a street's cards are shown.
abbrev pub shown : Game → GameState → ℕ → Game
unfolding add_cards_to_table collect_round_bets
shown g s count =
    let ready = clear_acted (collect_round_bets g) in
    add_cards_to_table count
      (record ready { state = s; callback_version = ready.callback_version + 1 })

Dealt-after :
    (count : ℕ) (start h : Game)
    → Shown count start h
    → length start.cards_table + count ≡ board_size start.state
    → 5 ≤ length start.cards_table + length start.remain_cards
    → board_size start.state ≤ 5
    → (stage_transition start.state ≡ none → start.state ≡ round_river)
    → Dealt h
Dealt-after count start h cards board deck small playing =
    let table = ap (λ x. length x) cards.table in
    let rest = ap (λ x. length x) cards.deck in
    let more = length-append start.cards_table cards.new in
    let fewer = length-append h.remain_cards (reverse cards.new) in
    let back = length-reverse cards.new in
    let size = cards.size (omega (arith, board, deck, small)) in
    record {
      in_play =
          subst (λ a. stage_transition a ≡ none → a ≡ round_river) (sym cards.same_state) playing;
      board =
          subst (λ a. length h.cards_table ≡ board_size a) (sym cards.same_state)
            (omega (arith, table, more, size, board));
      deck = omega (arith, table, rest, more, fewer, back, deck);
    }

pub shown-Begun :
    (g : Game) (s : GameState) (count : ℕ)
    → Dealt g
    → stage_transition g.state ≡ some (s, count)
    → Begun (money_of g) (shown g s count) × ((shown g s count).state ≡ s)
unfolding shown collect_round_bets
shown-Begun g s count d e =
    let ready = clear_acted (collect_round_bets g) in
    let start = record ready { state = s; callback_version = ready.callback_version + 1 } in
    let (_, board, small, playing) = transition_lem g.state s count e in
    let cards = add_cards_to_table_lem count start in
    (
      record {
        dealt =
            Dealt-after count start (shown g s count) cards (omega (arith, d.board, board)) d.deck
              small playing;
        fresh = subst (λ ps. All Fresh (occupied ps)) (sym cards.same_seats) (fresh_seats g.seats);
        no_rate = cards.same_rate;
        same_money =
            money_eq g (shown g s count) cards.same_pot
              (ap (λ ps. bets (occupied ps)) cards.same_seats ∙ bets_ready g.seats);
      },
      cards.same_state,
    )
