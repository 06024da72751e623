-- ===== src/Tests/Data.antt =====
-- Players, tables, decks and a wallet repository for the concrete runs.
use poker_telegram_bot.Prelude.{
  ℕ, ◌+◌, ◌-◌, true, false, ◌&&◌, ◌≡◌, ◌≤◌, ◌≢◌, ◌⊎◌, Option, none, some, List, [], ◌∷◌, ◌==◌,
  if◌then◌else◌, ℤ, pos, minus_one, arith,
}
use poker_telegram_bot.Cards.{
  Card, Rank, Suit, two, four, seven, nine, jack, king, ace, hearts, diamonds, clubs, spades,
}
use poker_telegram_bot.Entities.{
  Player, PlayerState, active, fold, all_in, Game, GameState, round_pre_flop, round_river,
}
use poker_telegram_bot.Wallet.{
  WalletRepository, World, Reservation, Reservations, ReservationStatus, ReserveCalls,
  RollbackCalls, done,
}
use poker_telegram_bot.WalletManager.{Purse}

abbrev pub card : Rank → Suit → Card
card r s = record { rank = r; suit = s }

-- A player with the round's bet and the hand's.
abbrev pub player_with : ℕ → PlayerState → List Card → ℕ → ℕ → Player
player_with u s cs rate total = record {
  user_id = u;
  state = s;
  cards = cs;
  round_rate = rate;
  total_bet = total;
  has_acted = true;
  seat_index = none;
  is_dealer = false;
}

abbrev pub game_with : GameState → ℕ → ℕ → List (Option Player) → List Card → List Card → ℤ → Game
game_with s pot rate seats table deck turn = record {
  id = 77;
  pot = pot;
  max_round_rate = rate;
  state = s;
  seats = seats;
  cards_table = table;
  remain_cards = deck;
  dealer_index = pos 0;
  current_player_index = turn;
  small_blind_index = minus_one;
  big_blind_index = minus_one;
  trading_end_user_id = none;
  last_actions = [];
  processed_callbacks = [];
  processed_callback_order = [];
  callback_version = 0;
}

abbrev pub aces : List Card
aces = card ace hearts ∷ card ace spades ∷ []

abbrev pub kings : List Card
kings = card king hearts ∷ card king spades ∷ []

abbrev pub board : List Card
board =
    card two clubs
    ∷ card four diamonds
    ∷ card seven hearts
    ∷ card nine spades
    ∷ card jack clubs
    ∷ []

-- The aces are all-in for 10, the kings have bet 30, and the third player folded 5.
abbrev pub river_game : Game
river_game =
    game_with round_river 45 0
      (some (player_with 1 all_in aces 0 10)
        ∷ none
        ∷ some (player_with 2 active kings 0 30)
        ∷ some (player_with 3 fold [] 0 5)
        ∷ none
        ∷ none
        ∷ none
        ∷ none
        ∷ [])
      board [] minus_one

abbrev pub flop_deck : List Card
flop_deck = board

-- Two players before the flop, the first of them to call 10 more.
abbrev pub caller : Player
caller = player_with 1 active aces 10 10

abbrev pub raiser : Player
raiser = player_with 2 active kings 20 20

abbrev pub opening_game : Game
opening_game =
    game_with round_pre_flop 30 20
      (some caller ∷ some raiser ∷ none ∷ none ∷ none ∷ none ∷ none ∷ none ∷ []) [] flop_deck
      (pos 0)

-- The first seat is empty.
abbrev pub gap_game : Game
gap_game =
    game_with round_pre_flop 30 20
      (none ∷ some caller ∷ some raiser ∷ none ∷ none ∷ none ∷ none ∷ none ∷ []) [] flop_deck
      (pos 1)

abbrev pub purse : Purse
purse = record { balance = some 100; authorized = []; daily_bonus = false }

-- A ledger as a function.
abbrev pub spend : (ℕ → ℕ → ℕ) → ℕ → ℕ → ℕ → ℕ → ℕ → ℕ
spend s u c a v d = if (u == v) && (c == d) then s v d - a else s v d

abbrev pub earn : (ℕ → ℕ → ℕ) → ℕ → ℕ → ℕ → ℕ → ℕ → ℕ
earn s u c a v d = if (u == v) && (c == d) then s v d + a else s v d

pub spend_same : (s : ℕ → ℕ → ℕ) (u c a : ℕ) → a ≤ s u c → spend s u c a u c + a ≡ s u c
spend_same s u c a h = ground arith

pub earn_same : (s : ℕ → ℕ → ℕ) (u c a : ℕ) → earn s u c a u c ≡ s u c + a
earn_same s u c a = ground arith

pub spend_ne : (s : ℕ → ℕ → ℕ) (u c a v d : ℕ) → (u ≢ v) ⊎ (c ≢ d) → spend s u c a v d ≡ s v d
spend_ne s u c a v d h = ground arith

pub earn_ne : (s : ℕ → ℕ → ℕ) (u c a v d : ℕ) → (u ≢ v) ⊎ (c ≢ d) → earn s u c a v d ≡ s v d
earn_ne s u c a v d h = ground arith

abbrev pub ledger : WalletRepository
ledger = record {
  Store = ℕ → ℕ → ℕ;
  get_balance = λ s u c. s u c;
  debit = spend;
  credit = earn;
  get_balance-debit = spend_same;
  get_balance-credit = earn_same;
  get_balance-debit_ne = spend_ne;
  get_balance-credit_ne = earn_ne;
}

abbrev pub full_store : ℕ → ℕ → ℕ
full_store u c = 100

abbrev pub world_with : Reservations → World (ℕ → ℕ → ℕ)
world_with rs = record {
  store = full_store;
  reservations = rs;
  watchdogs = 9 ∷ [];
  dead_letters = [];
}

abbrev pub reservation : ReservationStatus → Reservation
reservation s = record { user_id = 1; chat_id = 2; amount = 30; status = s }

abbrev pub all_done : ReserveCalls
all_done = record {
  balance_call = done;
  debit_call = done;
  create_call = done;
  conflict_credit_call = done;
  failure_credit_call = done;
}

abbrev pub undo_done : RollbackCalls
undo_done = record {
  script_call = done;
  load_call = done;
  credit_call = done;
  has_dead_letters = true;
  push_call = done;
}
