-- ===== src/Entities.antt =====
-- The data of pokerapp/entities.py: `Player`, `Game` and their enumerations, with `Game`'s seat
-- and dealer helpers. A field that only carries Telegram message ids or labels is left out, and a
-- player's wallet is kept in a store of its own (WalletManager.antt). Money is a natural number:
-- every amount that reaches these records is the result of `max(0, …)` or of a checked debit. An
-- index that the source may set to -1 is an integer.
pub mod Seats
pub mod Dealer
pub mod Membership
pub mod Callbacks
use poker_telegram_bot.Prelude.{
  ℕ, zero, suc, ◌+◌, ◌%◌, Bool, true, false, not, ◌&&◌, ◌||◌, Option, none, some, List, [], ◌∷◌,
  ◌++◌, length, get_elem?, set, keep, replicate, drop, leb, ltb, ◌==◌, if◌then◌else◌, ℤ, pos,
  negsuc, minus_one,
}
use poker_telegram_bot.Cards.{Card}

pub data PlayerState : Type 0 where
  active fold all_in : PlayerState

pub data GameState : Type 0 where
  initial round_pre_flop round_flop round_turn round_river finished : GameState

-- What a line of `last_actions` reports; the source formats it as a sentence.
pub data ActionEntry : Type 0 where
  folded checked game_started : ActionEntry
  called bet raised went_all_in paid_blind : ℕ → ActionEntry

pub record Player : Type 0 where
  pub user_id : ℕ
  pub state : PlayerState
  pub cards : List Card
  pub round_rate : ℕ
  pub total_bet : ℕ
  pub has_acted : Bool
  pub seat_index : Option ℕ
  pub is_dealer : Bool

pub record Game : Type 0 where
  pub id : ℕ
  pub pot : ℕ
  pub max_round_rate : ℕ
  pub state : GameState
  pub seats : List (Option Player)
  pub cards_table : List Card
  pub remain_cards : List Card
  pub dealer_index : ℤ
  pub current_player_index : ℤ
  pub small_blind_index : ℤ
  pub big_blind_index : ℤ
  pub trading_end_user_id : Option ℕ
  pub last_actions : List (ℕ × ActionEntry)
  pub processed_callbacks : List ℕ
  pub processed_callback_order : List ℕ
  pub callback_version : ℕ

abbrev pub max_players : ℕ
max_players = 8

abbrev pub callback_history_limit : ℕ
callback_history_limit = 100

-- `Game.players`: the occupied seats, in seat order.
abbrev pub occupied : List (Option Player) → List Player
occupied [] = []
occupied (none ∷ ps) = occupied ps
occupied (some p ∷ ps) = p ∷ occupied ps

abbrev pub players : Game → List Player
players g = occupied g.seats

abbrev pub seated_count : Game → ℕ
seated_count g = length (players g)

abbrev pub is_state : PlayerState → PlayerState → Bool
is_state active active = true
is_state fold fold = true
is_state all_in all_in = true
is_state _ _ = false

-- `Player.is_active`: still in the hand.
abbrev pub in_hand : Player → Bool
in_hand p = is_state p.state active || is_state p.state all_in

-- `Game.players_by` at `(ACTIVE,)`, and at `(ACTIVE, ALL_IN)`.
abbrev pub active_players : Game → List Player
active_players g = keep (λ p. is_state p.state active) (players g)

abbrev pub contenders : Game → List Player
contenders g = keep in_hand (players g)

-- `Game.get_player_by_seat`
abbrev pub player_at : List (Option Player) → ℕ → Option Player
player_at [] i = none
player_at (s ∷ ps) zero = s
player_at (s ∷ ps) (suc i) = player_at ps i

abbrev pub get_player_by_seat : Game → ℤ → Option Player
get_player_by_seat g (pos i) = player_at g.seats i
get_player_by_seat g (negsuc _) = none

-- The seat of a user from `i` on, as the loops over `enumerate(self.seats)` find it.
abbrev pub seat_of_from : ℕ → ℕ → List (Option Player) → Option ℕ
seat_of_from u i [] = none
seat_of_from u i (none ∷ ps) = seat_of_from u (suc i) ps
seat_of_from u i (some p ∷ ps) = if p.user_id == u then some i else seat_of_from u (suc i) ps

-- `Game.seat_index_for_user`
abbrev pub seat_index_for_user : Game → ℕ → ℤ
seat_index_for_user g u = elim (seat_of_from u 0 g.seats) [ none ↦ minus_one | some i ↦ pos i ]

abbrev pub free_seat_from : ℕ → List (Option Player) → Option ℕ
free_seat_from i [] = none
free_seat_from i (none ∷ ps) = some i
free_seat_from i (some p ∷ ps) = free_seat_from (suc i) ps

-- `Game.assign_seat_for_user`: the seat that the user has, or the first free one, or -1.
unfoldable pub assign_seat_for_user : Game → ℕ → ℤ
assign_seat_for_user g u = elim (seat_of_from u 0 g.seats) [
  | some i ↦ pos i
  | none ↦ elim (free_seat_from 0 g.seats) [ some i ↦ pos i | none ↦ minus_one ]
]

pub data SeatError : Type 0 where
  occupied_seat index_error : SeatError

pub data Seating : Type 0 where
  seated : ℤ → Game → Seating
  refused : SeatError → Seating

-- Writing `self.seats[seat_index] = player` behind the test of `add_player`.
unfoldable pub place : Game → Player → ℕ → Seating
place g p i = elim (get_elem? g.seats i) [
  | none ↦ refused index_error
  | some (some _) ↦ refused occupied_seat
  | some none ↦
      seated (pos i) (record g { seats = set g.seats i (some (record p { seat_index = some i })) })
]

unfoldable pub place_at : Game → Player → ℤ → Seating
unfolding place
place_at g p (pos i) = place g p i
place_at g p (negsuc _) = seated minus_one g

-- `Game.add_player`
unfoldable pub add_player : Game → Player → Option ℕ → Seating
unfolding place place_at assign_seat_for_user
add_player g p (some i) = place g p i
add_player g p none = place_at g p (assign_seat_for_user g p.user_id)

abbrev pub vacate : ℕ → List (Option Player) → List (Option Player)
vacate u [] = []
vacate u (none ∷ ps) = none ∷ vacate u ps
vacate u (some p ∷ ps) = if p.user_id == u then none ∷ ps else some p ∷ vacate u ps

-- `Game.remove_player_by_user`
unfoldable pub remove_player_by_user : Game → ℕ → Bool × Game
remove_player_by_user g u = elim (seat_of_from u 0 g.seats) [
  | none ↦ (false, g)
  | some _ ↦ (true, record g { seats = vacate u g.seats })
]

-- The loop of `next_occupied_seat`: `k` rounds are left, and the next one looks at seat `i`.
scan_seats : List (Option Player) → ℕ → ℕ → ℤ
scan_seats ps i zero = minus_one
scan_seats ps i (suc k) = elim (player_at ps (i % max_players)) [
  | some _ ↦ pos (i % max_players)
  | none ↦ scan_seats ps (suc i) k
]

-- `start + 1` for the valid starts; every other start is treated as -1.
abbrev pub first_candidate : ℤ → ℕ
first_candidate (pos s) = if ltb s max_players then suc s else 0
first_candidate (negsuc _) = 0

-- `Game.next_occupied_seat`
unfoldable pub next_occupied_seat : Game → ℤ → ℤ
unfolding scan_seats
next_occupied_seat g start = elim (players g) [
  | [] ↦ minus_one
  | _ ∷ _ ↦ scan_seats g.seats (first_candidate start) max_players
]

-- `Game.advance_dealer`
unfoldable pub advance_dealer : Game → ℤ × Game
advance_dealer g =
    let next_seat = next_occupied_seat g g.dealer_index in
    (next_seat, record g { dealer_index = next_seat })

abbrev pub flag_dealer_from : ℕ → ℤ → List (Option Player) → List (Option Player)
flag_dealer_from i d [] = []
flag_dealer_from i d (none ∷ ps) = none ∷ flag_dealer_from (suc i) d ps
flag_dealer_from i d (some p ∷ ps) =
    some (record p { is_dealer = elim d [ pos k ↦ i == k | negsuc _ ↦ false ] })
    ∷ flag_dealer_from (suc i) d ps

-- `Game.rotate_dealer`
unfoldable pub rotate_dealer : Game → ℤ × Game
unfolding advance_dealer
rotate_dealer g =
    let (d, g') = advance_dealer g in (d, record g' { seats = flag_dealer_from 0 d g'.seats })

abbrev pub map_seats : (Player → Player) → List (Option Player) → List (Option Player)
map_seats f [] = []
map_seats f (none ∷ ps) = none ∷ map_seats f ps
map_seats f (some p ∷ ps) = some (f p) ∷ map_seats f ps

-- `Game.reset_bets`
unfoldable pub reset_bets : Game → Game
reset_bets g = record g {
  pot = 0;
  max_round_rate = 0;
  current_player_index = minus_one;
  small_blind_index = minus_one;
  big_blind_index = minus_one;
  seats =
      map_seats (λ p. record p { total_bet = 0; round_rate = 0; has_acted = false; state = active })
        g.seats;
}

abbrev pub max_total_bet : List Player → ℕ
max_total_bet [] = 0
max_total_bet (p ∷ ps) = let m = max_total_bet ps in if leb p.total_bet m then m else p.total_bet

-- `Game.all_in_players_are_covered`
unfoldable pub all_in_players_are_covered : Game → Bool
all_in_players_are_covered g =
    let bettors = active_players g in
    let top = max_total_bet bettors in
    let uncovered = keep (λ p. is_state p.state all_in && leb top p.total_bet) (players g) in
    if length bettors == 0
    then true
    else if length uncovered == 0
    then true
    else ltb (length bettors) 2

abbrev pub remove_id : ℕ → List ℕ → List ℕ
remove_id a [] = []
remove_id a (x ∷ xs) = if x == a then xs else x ∷ remove_id a xs
