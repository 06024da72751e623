-- ===== src/Winner.antt =====
-- pokerapp/winnerdetermination.py: the value of a poker hand. The label translations at the head
-- of that file only name the hand types and are not modelled.
pub mod Score
pub mod Order
pub mod Best
use poker_telegram_bot.Prelude.{
  ℕ, zero, suc, ◌+◌, ◌-◌, ◌*◌, ◌^◌, Bool, true, false, ◌&&◌, ◌||◌, Option, none, some, List, [],
  ◌∷◌, ◌++◌, map, length, contains, ltb, leb, ◌==◌, if◌then◌else◌,
}
use poker_telegram_bot.Cards.{Card, value, suit_code}

pub data HandsOfPoker : Type 0 where
  royal_flush straight_flush four_of_a_kind full_house flush straight three_of_a_kind two_pair pair
        high_card :
      HandsOfPoker

-- The enumeration's values.
abbrev pub hand_rank : HandsOfPoker → ℕ
hand_rank royal_flush = 10
hand_rank straight_flush = 9
hand_rank four_of_a_kind = 8
hand_rank full_house = 7
hand_rank flush = 6
hand_rank straight = 5
hand_rank three_of_a_kind = 4
hand_rank two_pair = 3
hand_rank pair = 2
hand_rank high_card = 1

abbrev pub hand_rank_multiplier : ℕ
hand_rank_multiplier = 15 ^ 5

-- The loop of `_calculate_score_value`: each value by the power of 15 of its place.
unfoldable pub place_values : List ℕ → ℕ
place_values [] = 0
place_values (v ∷ vs) = v * 15 ^ length vs + place_values vs

-- `_calculate_score_value`
unfoldable pub calculate_score_value : List ℕ → HandsOfPoker → ℕ
calculate_score_value vs t = hand_rank_multiplier * hand_rank t + place_values vs

-- `len(set(xs))`
abbrev pub count_distinct : List ℕ → ℕ
count_distinct [] = 0
count_distinct (x ∷ xs) = let n = count_distinct xs in if contains xs x then n else suc n

-- `dict_hand[i] = dict_hand.get(i, 0) + 1`, in the order of first insertion.
abbrev pub count_up : ℕ → List (ℕ × ℕ) → List (ℕ × ℕ)
count_up v [] = (v, 1) ∷ []
count_up v ((w, n) ∷ d) = if w == v then (w, suc n) ∷ d else (w, n) ∷ count_up v d

abbrev pub count_values : List (ℕ × ℕ) → List ℕ → List (ℕ × ℕ)
count_values d [] = d
count_values d (v ∷ vs) = count_values (count_up v d) vs

abbrev pub insert_ascending : ℕ → List ℕ → List ℕ
insert_ascending x [] = x ∷ []
insert_ascending x (y ∷ ys) = if leb x y then x ∷ y ∷ ys else y ∷ insert_ascending x ys

-- `sorted` on numbers.
abbrev pub sort_ascending : List ℕ → List ℕ
sort_ascending [] = []
sort_ascending (x ∷ xs) = insert_ascending x (sort_ascending xs)

-- Order by count, then by value: does the entry `e` stand before `f` in the descending order?
abbrev pub before : ℕ × ℕ → ℕ × ℕ → Bool
before (v, n) (w, m) = ltb m n || (m == n && leb w v)

abbrev pub insert_entry : ℕ × ℕ → List (ℕ × ℕ) → List (ℕ × ℕ)
insert_entry e [] = e ∷ []
insert_entry e (f ∷ fs) = if before e f then e ∷ f ∷ fs else f ∷ insert_entry e fs

-- `sorted(dict_hand.items(), key=lambda item: (item[1], item[0]), reverse=True)`
abbrev pub sort_entries : List (ℕ × ℕ) → List (ℕ × ℕ)
sort_entries [] = []
sort_entries (e ∷ es) = insert_entry e (sort_entries es)

-- `_group_hand_by_value`: the counts, ascending, and the values by their weight.
unfoldable pub group_hand_by_value : List ℕ → List ℕ × List ℕ
group_hand_by_value vs =
    let d = count_values [] vs in
    (sort_ascending (map (λ e. e.1) d), map (λ e. e.0) (sort_entries d))

abbrev pub same_list : List ℕ → List ℕ → Bool
same_list [] [] = true
same_list (x ∷ xs) (y ∷ ys) = x == y && same_list xs ys
same_list _ _ = false

-- Each value is one more than the next.
abbrev pub descends_by_one : List ℕ → Bool
descends_by_one [] = true
descends_by_one (v ∷ []) = true
descends_by_one (v ∷ w ∷ vs) = v == suc w && descends_by_one (w ∷ vs)

abbrev pub wheel : List ℕ
wheel = 14 ∷ 5 ∷ 4 ∷ 3 ∷ 2 ∷ []

abbrev pub wheel_values : List ℕ
wheel_values = 5 ∷ 4 ∷ 3 ∷ 2 ∷ 1 ∷ []

abbrev pub broadway : List ℕ
broadway = 14 ∷ 13 ∷ 12 ∷ 11 ∷ 10 ∷ []

-- The ladder of `_calculate_hand_score`: the hand type, from what was found of the hand.
unfoldable pub classify : List ℕ → List ℕ → Bool → Bool → HandsOfPoker
classify vs counts is_flush is_straight =
    if is_straight && is_flush
    then (if same_list vs broadway then royal_flush else straight_flush)
    else if same_list counts (1 ∷ 4 ∷ [])
    then four_of_a_kind
    else if same_list counts (2 ∷ 3 ∷ [])
    then full_house
    else if is_flush
    then flush
    else if is_straight
    then straight
    else if same_list counts (1 ∷ 1 ∷ 3 ∷ [])
    then three_of_a_kind
    else if same_list counts (1 ∷ 2 ∷ 2 ∷ [])
    then two_pair
    else if same_list counts (1 ∷ 1 ∷ 1 ∷ 2 ∷ [])
    then pair
    else high_card

-- Which list of values each branch scores: the grouped values where cards repeat.
abbrev pub scores_groups : HandsOfPoker → Bool
scores_groups four_of_a_kind = true
scores_groups full_house = true
scores_groups three_of_a_kind = true
scores_groups two_pair = true
scores_groups pair = true
scores_groups _ = false

abbrev pub flush_of : List Card → Bool
flush_of hand = count_distinct (map (λ c. suit_code c.suit) hand) == 1

abbrev pub straight_of : List ℕ → Bool
straight_of vs = descends_by_one vs || same_list vs wheel

-- `_calculate_hand_score`, on a hand sorted by value, highest first.
unfoldable pub calculate_hand_score : List Card → ℕ × HandsOfPoker
unfolding classify calculate_score_value group_hand_by_value
calculate_hand_score hand =
    let vs = map value hand in
    let originals = if same_list vs wheel then wheel_values else vs in
    let (counts, keys) = group_hand_by_value vs in
    let t = classify vs counts (flush_of hand) (straight_of vs) in
    (calculate_score_value (if scores_groups t then keys else originals) t, t)

-- `itertools.combinations(xs, k)`, in its order.
abbrev pub combinations {ℓ} : {A : Type ℓ} → List A → ℕ → List (List A)
combinations xs zero = [] ∷ []
combinations [] (suc k) = []
combinations (x ∷ xs) (suc k) = map (◌∷◌ x) (combinations xs k) ++ combinations xs (suc k)

-- `sorted(hand, key=lambda c: c.value, reverse=True)`, which keeps the order of equal cards.
abbrev pub insert_card : Card → List Card → List Card
insert_card c [] = c ∷ []
insert_card c (d ∷ ds) = if ltb (value c) (value d) then d ∷ insert_card c ds else c ∷ d ∷ ds

abbrev pub sort_cards : List Card → List Card
sort_cards [] = []
sort_cards (c ∷ cs) = insert_card c (sort_cards cs)

pub record HandValue : Type 0 where
  pub hand_type : HandsOfPoker
  pub score : ℕ
  pub cards : List Card

-- One round of the loop of `get_hand_value`.
unfoldable pub better : HandValue → List Card → HandValue
unfolding calculate_hand_score
better best hand =
    let sorted = sort_cards hand in
    let (current, t) = calculate_hand_score sorted in
    if ltb best.score current
    then record { hand_type = t; score = current; cards = sorted }
    else best

unfoldable pub best_of : HandValue → List (List Card) → HandValue
unfolding better
best_of best [] = best
best_of best (hand ∷ hands) = best_of (better best hand) hands

abbrev pub no_hand : HandValue
no_hand = record { hand_type = high_card; score = 0; cards = [] }

-- `get_hand_value`
unfoldable pub get_hand_value : List Card → List Card → HandValue
unfolding best_of
get_hand_value player_cards table_cards =
    let all_cards = player_cards ++ table_cards in
    if ltb (length all_cards) 5 then no_hand else best_of no_hand (combinations all_cards 5)
