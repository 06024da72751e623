-- ===== src/Joining.antt =====
-- `join_game` and `leave_game` of pokerapp/game_engine.py, over the table manager's versioned
-- loads and saves. Messages, countdowns and the ready users are left out, and so is the table's
-- write lock: what others do before an attempt's load, between its reads and before its save is an
-- argument of the attempt. The list of attempts is as long as the loop is watched.
pub mod Tries
pub mod Seats
pub mod Leaving
use poker_telegram_bot.Prelude.{
  ℕ, zero, suc, ◌+◌, ◌-◌, Bool, true, false, not, Option, none, some, List, [], ◌∷◌, ◌++◌, length,
  leb, if◌then◌else◌, ℤ, pos, negsuc,
}
use poker_telegram_bot.Cards.{Card}
use poker_telegram_bot.Entities.{
  Player, Game, Seating, seated, refused, seated_count, seat_index_for_user, add_player,
  remove_player_by_user,
}
use poker_telegram_bot.Validator.{Snapshot, snapshot, is_initial, new_game}
use poker_telegram_bot.Tables.{
  Redis, Transaction, SaveReply, saved, conflict, raised, load_game_with_version,
  save_game_with_version_check,
}

abbrev free_indices : ℕ → ℕ → List (Option Player) → List ℕ
free_indices i zero seats = []
free_indices i (suc n) [] = []
free_indices i (suc n) (none ∷ seats) = i ∷ free_indices (suc i) n seats
free_indices i (suc n) (some p ∷ seats) = free_indices (suc i) n seats

abbrev range_from : ℕ → ℕ → List ℕ
range_from i zero = []
range_from i (suc n) = i ∷ range_from (suc i) n

-- `_get_available_seats`, by the setting for the number of players: the free seats below it, and
-- the indices up to it that the table does not have.
unfoldable pub get_available_seats : ℕ → List (Option Player) → List ℕ
get_available_seats max_seats seats =
    free_indices 0 max_seats seats ++ range_from (length seats) (max_seats - length seats)

-- What a request makes of the game that it has loaded: a refusal, an exception that leaves the
-- request, or the game to be saved.
pub data Decision : Type 0 where
  turned_down raises : Decision
  changes : Snapshot → Decision

abbrev pub is_seated : ℤ → Bool
is_seated (pos _) = true
is_seated (negsuc _) = false

-- `current_game.add_player(player, seat_index)`
abbrev seat_at : Snapshot → Player → List ℕ → Decision
seat_at s p [] = turned_down
seat_at s p (i ∷ rest) = elim (add_player s.game p (some i)) [
  | seated _ g ↦ changes (record s { game = g })
  | refused _ ↦ raises
]

-- `join_game`'s tests on the loaded game, up to the save; `p` is the joining player.
unfoldable pub decide_join : ℕ → Player → Snapshot → Decision
unfolding get_available_seats
decide_join max_seats p s =
    if not (is_initial s.stage)
    then turned_down
    else if is_seated (seat_index_for_user s.game p.user_id)
    then turned_down
    else if leb max_seats (seated_count s.game)
    then turned_down
    else seat_at s p (get_available_seats max_seats s.game.seats)

-- `leave_game`'s.
unfoldable pub decide_leave : ℕ → Snapshot → Decision
decide_leave user s =
    if not (is_seated (seat_index_for_user s.game user))
    then turned_down
    else if not (is_initial s.stage)
    then turned_down
    else changes (record s { game = (remove_player_by_user s.game user).1 })

-- What one attempt meets.
pub record Attempt : Type 0 where
  pub load_raises : Bool
  pub new_id : ℕ
  pub new_deck : List Card
  pub load_reaches : Bool
  pub earlier : Redis → Redis
  pub others : Redis → Redis
  pub later : Redis → Redis
  pub meanwhile : Redis → Redis
  pub transaction : Transaction

pub data Once : Type 0 where
  finished : Bool → Once
  again raised_out : Once

abbrev pub read_table : Attempt → Redis → (Option Snapshot × ℕ) × Redis
read_table a r =
    load_game_with_version true a.new_id a.new_deck a.load_reaches a.others a.later (a.earlier r)

-- The save at the end of `_process_once`.
unfoldable pub save_once_more : Attempt → Snapshot → ℕ → Redis → Once × Redis
save_once_more a s version r =
    let (reply, r') = save_game_with_version_check a.transaction s version r in
    (elim reply [ saved ↦ finished true | conflict ↦ again | raised ↦ finished false ], r')

unfoldable pub carry_out : Attempt → Decision → ℕ → Redis → Once × Redis
unfolding save_once_more
carry_out a turned_down version r = (finished false, r)
carry_out a raises version r = (raised_out, r)
carry_out a (changes s) version r = save_once_more a s version r

-- `_process_once`, by what is decided on a loaded game.
unfoldable pub process_once : (Option Snapshot → Decision) → Attempt → Redis → Once × Redis
unfolding carry_out
process_once decide a r =
    let (loaded, r') = read_table a r in
    if a.load_raises
    then (finished false, a.earlier r)
    else carry_out a (decide loaded.0) loaded.1 (a.meanwhile r')

pub data Result : Type 0 where
  returned : Bool → Result
  left_by_exception still_trying : Result

-- The loop over `_process_once`.
unfoldable pub retry_loop :
    (Attempt → Option Snapshot → Decision) → List Attempt → Redis → Result × Redis
retry_loop decide [] r = (still_trying, r)
retry_loop decide (a ∷ rest) r =
    let (once, r') = process_once (decide a) a r in
    elim once [
      | again ↦ retry_loop decide rest r'
      | finished b ↦ (returned b, r')
      | raised_out ↦ (left_by_exception, r')
    ]

-- The game that `join_game` goes on with: a new one where none is stored.
abbrev pub table_of : Attempt → Option Snapshot → Snapshot
table_of a none = snapshot (new_game a.new_id a.new_deck)
table_of a (some s) = s

abbrev pub join_decision : ℕ → Player → Attempt → Option Snapshot → Decision
join_decision max_seats p a found = decide_join max_seats p (table_of a found)

-- `join_game`
unfoldable pub join_game : ℕ → Player → List Attempt → Redis → Result × Redis
unfolding retry_loop
join_game max_seats p attempts r = retry_loop (join_decision max_seats p) attempts r

-- `leave_game` goes on without a game where none is stored.
abbrev pub decide_left : ℕ → Option Snapshot → Decision
decide_left user none = turned_down
decide_left user (some s) = decide_leave user s

abbrev pub leave_decision : ℕ → Attempt → Option Snapshot → Decision
leave_decision user a found = decide_left user found

-- `leave_game`
unfoldable pub leave_game : ℕ → List Attempt → Redis → Result × Redis
unfolding retry_loop
leave_game user attempts r = retry_loop (leave_decision user) attempts r
