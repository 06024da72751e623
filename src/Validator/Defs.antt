-- ===== src/Validator/Defs.antt =====
-- `GameStateValidator` of pokerapp/state_validator.py.
use poker_telegram_bot.Prelude.{
  ℕ, ◌-◌, ◌*◌, Bool, true, false, not, ◌&&◌, Option, none, some, List, [], ◌∷◌, ◌++◌, replicate,
  length, ◌||◌, ◌==◌, if◌then◌else◌, ℤ, pos, negsuc, minus_one,
}
use poker_telegram_bot.Cards.{Card}
use poker_telegram_bot.Entities.{
  GameState, initial, Player, active, Game, players, player_at, map_seats, max_players,
}

pub data ValidationIssue : Type 0 where
  corrupted_json invalid_stage orphaned_players inconsistent_pot missing_dealer invalid_deck :
      ValidationIssue

pub data RecoveryAction : Type 0 where
  reset_to_waiting delete_and_recreate : RecoveryAction

pub record ValidationResult : Type 0 where
  pub is_valid : Bool
  pub issues : List ValidationIssue
  pub recoverable : Bool
  pub recovery_action : Option RecoveryAction

-- A game as it is read back from storage. Three attributes may hold something else than `Game`
-- keeps in them: a state that is no `GameState`, a pot that is `None` or negative, a dealer that is
-- no number (all `none` here but for the negative pot); the same attributes of `game` are not read.
pub record Snapshot : Type 0 where
  pub stage : Option GameState
  pub pot : Option ℤ
  pub dealer : Option ℤ
  pub game : Game

-- A game of this program, read back.
abbrev pub snapshot : Game → Snapshot
snapshot g = record {
  stage = some g.state;
  pot = some (pos g.pot);
  dealer = some g.dealer_index;
  game = g;
}

-- `state is GameState.INITIAL`
abbrev pub is_initial : Option GameState → Bool
is_initial (some initial) = true
is_initial _ = false

abbrev is_none {ℓ} : {A : Type ℓ} → Option A → Bool
is_none none = true
is_none (some _) = false

abbrev pub taken : Option Player → Bool
taken o = not (is_none o)

abbrev pub is_empty {ℓ} : {A : Type ℓ} → List A → Bool
is_empty [] = true
is_empty (x ∷ xs) = false

-- The dealer's seat is a seat with a player.
abbrev pub dealer_valid : Option ℤ → List (Option Player) → Bool
dealer_valid (some (pos i)) seats = taken (player_at seats i)
dealer_valid _ seats = false

abbrev pub pot_wrong : Option ℤ → Bool
pot_wrong none = true
pot_wrong (some (pos _)) = false
pot_wrong (some (negsuc _)) = true

abbrev pub deck_size : ℕ
deck_size = 52

-- The cards that should be left in the deck.
abbrev pub expected_remaining : Snapshot → ℕ
expected_remaining s =
    if is_initial s.stage
    then deck_size
    else deck_size - 2 * length (players s.game) - length s.game.cards_table

-- `issues.append(issue)` under a test.
abbrev pub report : Bool → ValidationIssue → List ValidationIssue
report wrong issue = if wrong then issue ∷ [] else []

abbrev pub find_issues : Snapshot → List ValidationIssue
find_issues s =
    report (is_none s.stage) invalid_stage
    ++ report (not (is_initial s.stage) && is_empty (players s.game)) orphaned_players
    ++ report (not (is_initial s.stage) && not (dealer_valid s.dealer s.game.seats)) missing_dealer
    ++ report (pot_wrong s.pot) inconsistent_pot
    ++ report (not (length s.game.remain_cards == expected_remaining s)) invalid_deck

-- `ValidationIssue.INVALID_STAGE in issues`
abbrev pub has_invalid_stage : List ValidationIssue → Bool
has_invalid_stage [] = false
has_invalid_stage (invalid_stage ∷ xs) = true
has_invalid_stage (_ ∷ xs) = has_invalid_stage xs

-- `validate_game`
unfoldable pub validate_game : Snapshot → ValidationResult
validate_game s =
    let issues = find_issues s in
    record {
      is_valid = is_empty issues;
      issues = issues;
      recoverable = not (has_invalid_stage issues);
      recovery_action =
          if has_invalid_stage issues
          then some delete_and_recreate
          else if is_empty issues
          then none
          else some reset_to_waiting;
    }

-- `Game()`, with the id and the shuffled deck that it draws.
abbrev pub new_game : ℕ → List Card → Game
new_game id deck = record {
  id = id;
  pot = 0;
  max_round_rate = 0;
  state = initial;
  seats = replicate max_players none;
  cards_table = [];
  remain_cards = deck;
  dealer_index = pos 0;
  current_player_index = minus_one;
  small_blind_index = minus_one;
  big_blind_index = minus_one;
  trading_end_user_id = none;
  last_actions = [];
  processed_callbacks = [];
  processed_callback_order = [];
  callback_version = 0;
}

-- What `_reset_to_waiting` does to each player; the blind flags are not kept in `Player`.
abbrev pub reset_player : Player → Player
reset_player p = record p {
  cards = [];
  round_rate = 0;
  total_bet = 0;
  has_acted = false;
  state = active;
  is_dealer = false;
}

-- `_reset_to_waiting`, with the shuffled deck that it draws.
unfoldable pub reset_game : List Card → Game → Game
reset_game deck g = record g {
  state = initial;
  pot = 0;
  max_round_rate = 0;
  cards_table = [];
  remain_cards = deck;
  current_player_index = minus_one;
  small_blind_index = minus_one;
  big_blind_index = minus_one;
  dealer_index = minus_one;
  last_actions = [];
  seats = map_seats reset_player g.seats;
}

-- `recover_game`
unfoldable pub recover_game : ℕ → List Card → Snapshot → ValidationResult → Snapshot
unfolding reset_game
recover_game id deck s v =
    if v.is_valid || is_empty v.issues
    then s
    else if not v.recoverable
    then snapshot (new_game id deck)
    else snapshot (reset_game deck s.game)
