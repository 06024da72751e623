-- ===== src/PlayerManager.antt =====
-- pokerapp/player_manager.py: `reseat_players`, `seat_player`, `remove_player` and
-- `assign_role_labels`. Saving the table, the wallet that a player gets and the role's translated
-- label are left out; a role is the key of its translation. User ids are numbers, so the test for
-- a missing one is left out too.
pub mod Reseating
pub mod Labels
use poker_telegram_bot.Prelude.{
  ℕ, zero, suc, ◌+◌, ◌-◌, Bool, true, false, ◌&&◌, ◌||◌, not, Option, none, some, List, [], ◌∷◌,
  length, get_elem?, set, replicate, ltb, leb, ◌==◌, if◌then◌else◌, ℤ, pos, negsuc, map,
}
use poker_telegram_bot.Entities.{
  Player, Game, players, occupied, Seating, add_player, remove_player_by_user,
}

-- `normalized_seats[i] is None`, for a seat of the table.
abbrev pub is_free : List (Option Player) → ℕ → Bool
is_free seats i = elim (get_elem? seats i) [ some none ↦ true | _ ↦ false ]

-- The player's own seat, if it is one of the table and nobody took it.
abbrev pub own_seat : List (Option Player) → Player → Option ℕ
own_seat seats p = elim (p.seat_index) [
  | none ↦ none
  | some i ↦ if is_free seats i then some i else none
]

-- The `while` loop over taken seats from `i` on; `fuel` is at least the seats that are left.
unfoldable pub next_free : ℕ → List (Option Player) → ℕ → ℕ
next_free zero seats i = i
next_free (suc fuel) seats i =
    let later = next_free fuel seats (suc i) in
    if ltb i (length seats) && not (is_free seats i) then later else i

abbrev pub take_seat : Player → ℕ → List (Option Player) → List (Option Player)
take_seat p i seats = set seats i (some (record p { seat_index = some i }))

-- The loop of `reseat_players`, from the next free index.
unfoldable pub reseat_loop : List Player → ℕ → List (Option Player) → List (Option Player)
reseat_loop [] next seats = seats
reseat_loop (p ∷ ps) next seats = elim (own_seat seats p) [
  | some i ↦ reseat_loop ps next (take_seat p i seats)
  | none ↦
      let i = next_free (length seats) seats next in
      let rest = reseat_loop ps (suc i) (take_seat p i seats) in
      if leb (length seats) i then seats else rest
]

-- `reseat_players`
unfoldable pub reseat_players : Game → Game
unfolding reseat_loop
reseat_players g = record g { seats = reseat_loop (players g) 0 (replicate (length g.seats) none) }

abbrev any_user : ℕ → List Player → Bool
any_user u [] = false
any_user u (p ∷ ps) = p.user_id == u || any_user u ps

-- `seat_player`; `none` is the answer -1 to a user who sits already.
unfoldable pub seat_player : Game → Player → Option ℕ → Option Seating
seat_player g p seat_index =
    if any_user p.user_id (players g) then none else some (add_player g p seat_index)

-- `remove_player`
unfoldable pub remove_player : Game → ℕ → Bool × Game
remove_player g u = remove_player_by_user g u

pub data Role : Type 0 where
  dealer small_blind big_blind player : Role

-- What `assign_role_labels` gives a player.
pub record Roles : Type 0 where
  pub user_id : ℕ
  pub is_dealer : Bool
  pub is_small_blind : Bool
  pub is_big_blind : Bool
  pub roles : List Role

-- `is_valid_seat and seat_index == …`
abbrev pub sits_at : Option ℕ → ℤ → Bool
sits_at (some i) (pos j) = i == j
sits_at _ _ = false

abbrev or_player : List Role → List Role
or_player [] = player ∷ []
or_player (r ∷ rs) = r ∷ rs

abbrev role_if : Bool → Role → List Role → List Role
role_if b r rs = if b then r ∷ rs else rs

unfoldable pub role_of : Game → Player → Roles
role_of g p = record {
  user_id = p.user_id;
  is_dealer = sits_at p.seat_index g.dealer_index;
  is_small_blind = sits_at p.seat_index g.small_blind_index;
  is_big_blind = sits_at p.seat_index g.big_blind_index;
  roles = or_player (
      role_if (sits_at p.seat_index g.dealer_index) dealer (
        role_if (sits_at p.seat_index g.small_blind_index) small_blind
          (role_if (sits_at p.seat_index g.big_blind_index) big_blind [])));
}

-- `assign_role_labels`
unfoldable pub assign_role_labels : Game → List Roles
unfolding role_of
assign_role_labels g = map (role_of g) (players g)
