-- ===== src/Cards.antt =====
-- pokerapp/cards.py. A card is a rank and a suit (the source keeps both in one string, whose last
-- character is the suit). The shuffle of `get_cards` is `random.SystemRandom`'s: a fresh deck is
-- an argument of the functions that draw one, and `get_cards` below is the list before the shuffle.
use poker_telegram_bot.Prelude.{ℕ, List, [], ◌∷◌, ◌++◌}

pub data Suit : Type 0 where
  hearts diamonds clubs spades : Suit

pub data Rank : Type 0 where
  two three four five six seven eight nine ten jack queen king ace : Rank

pub record Card : Type 0 where
  pub rank : Rank
  pub suit : Suit

-- The values that `Card.value` reads off the rank.
abbrev pub rank_value : Rank → ℕ
rank_value two = 2
rank_value three = 3
rank_value four = 4
rank_value five = 5
rank_value six = 6
rank_value seven = 7
rank_value eight = 8
rank_value nine = 9
rank_value ten = 10
rank_value jack = 11
rank_value queen = 12
rank_value king = 13
rank_value ace = 14

-- `Card.value`
abbrev pub value : Card → ℕ
value c = rank_value c.rank

-- Suits are only compared; the numbers stand for the four characters.
abbrev pub suit_code : Suit → ℕ
suit_code hearts = 0
suit_code diamonds = 1
suit_code clubs = 2
suit_code spades = 3

-- The thirteen cards of a suit, in the source's order.
abbrev pub suit_cards : Suit → List Card
suit_cards s =
    record { rank = two; suit = s }
    ∷ record { rank = three; suit = s }
    ∷ record { rank = four; suit = s }
    ∷ record { rank = five; suit = s }
    ∷ record { rank = six; suit = s }
    ∷ record { rank = seven; suit = s }
    ∷ record { rank = eight; suit = s }
    ∷ record { rank = nine; suit = s }
    ∷ record { rank = ten; suit = s }
    ∷ record { rank = jack; suit = s }
    ∷ record { rank = queen; suit = s }
    ∷ record { rank = king; suit = s }
    ∷ record { rank = ace; suit = s }
    ∷ []

-- `get_cards`, before the shuffle.
abbrev pub get_cards : List Card
get_cards = suit_cards hearts ++ suit_cards diamonds ++ suit_cards clubs ++ suit_cards spades
