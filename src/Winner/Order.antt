-- ===== src/Winner/Order.antt =====
-- The order that `_calculate_hand_score` of pokerapp/winnerdetermination.py puts on hands.
use poker_telegram_bot.Prelude.{
  ℕ, suc, ◌+◌, ◌*◌, ◌^◌, ◌≤◌, ◌<◌, ◌≡◌, refl, sym, ◌∙◌, ap, inl, inr, Bool, true, false, List, [],
  ◌∷◌, map, length, All, ltb, if◌then◌else◌, arith, Bool-cases,
}
use poker_telegram_bot.Cards.{Card, value, Rank, rank_value}
use poker_telegram_bot.Winner.Score.{Digits, lex_less, place_values-lt, place_values_lex}
use poker_telegram_bot.Winner.{
  HandsOfPoker, royal_flush, four_of_a_kind, full_house, three_of_a_kind, two_pair, pair, hand_rank,
  hand_rank_multiplier, place_values, calculate_score_value, count_up, count_values, insert_entry,
  sort_entries, insert_ascending, sort_ascending, group_hand_by_value, calculate_hand_score,
  classify, wheel, wheel_values, same_list, scores_groups, flush_of, straight_of,
}

abbrev pub hand_type_of : List Card → HandsOfPoker
hand_type_of hand = (calculate_hand_score hand).1

abbrev pub score_of : List Card → ℕ
score_of hand = (calculate_hand_score hand).0

-- The values that the score is made of, the weightiest first.
pub ranking : List Card → List ℕ
unfolding calculate_hand_score
ranking hand =
    if scores_groups (hand_type_of hand)
    then (group_hand_by_value (map value hand)).1
    else if same_list (map value hand) wheel
    then wheel_values
    else map value hand

-- How many values the score of a hand type is made of.
abbrev pub ranking_length : HandsOfPoker → ℕ
ranking_length four_of_a_kind = 2
ranking_length full_house = 2
ranking_length three_of_a_kind = 3
ranking_length two_pair = 3
ranking_length pair = 4
ranking_length _ = 5

same_list-length : (xs ys : List ℕ) → same_list xs ys ≡ true → length xs ≡ length ys
same_list-length [] [] h = refl
same_list-length [] (y ∷ ys) h = cc
same_list-length (x ∷ xs) [] h = cc
same_list-length (x ∷ xs) (y ∷ ys) h = ground (arith, same_list-length xs ys)

value-lt : (c : Card) → value c < 15
value-lt c = go c.rank
  where
    go : (r : Rank) → rank_value r < 15
    go = elim [
      | Rank.two ↦ omega arith
      | Rank.three ↦ omega arith
      | Rank.four ↦ omega arith
      | Rank.five ↦ omega arith
      | Rank.six ↦ omega arith
      | Rank.seven ↦ omega arith
      | Rank.eight ↦ omega arith
      | Rank.nine ↦ omega arith
      | Rank.ten ↦ omega arith
      | Rank.jack ↦ omega arith
      | Rank.queen ↦ omega arith
      | Rank.king ↦ omega arith
      | Rank.ace ↦ omega arith
    ]

values-Digits : (hand : List Card) → Digits (map value hand)
values-Digits [] = tt
values-Digits (c ∷ cs) = (value-lt c, values-Digits cs)

length-values : (hand : List Card) → length (map value hand) ≡ length hand
length-values [] = refl
length-values (c ∷ cs) = ap suc (length-values cs)

abbrev Entries : List (ℕ × ℕ) → Type 0
Entries = All (λ (e : ℕ × ℕ). e.0 < 15)

count_up-Entries : (v : ℕ) (d : List (ℕ × ℕ)) → v < 15 → Entries d → Entries (count_up v d)
count_up-Entries v [] h k = (h, tt)
count_up-Entries v ((w, n) ∷ d) h k = ground (arith, count_up-Entries v d h k.1)

count_values-Entries :
    (vs : List ℕ) (d : List (ℕ × ℕ)) → Digits vs → Entries d → Entries (count_values d vs)
count_values-Entries [] d h k = k
count_values-Entries (v ∷ vs) d h k =
    count_values-Entries vs (count_up v d) h.1 (count_up-Entries v d h.0 k)

insert_entry-Entries :
    (e : ℕ × ℕ) (d : List (ℕ × ℕ)) → e.0 < 15 → Entries d → Entries (insert_entry e d)
insert_entry-Entries e [] h k = (h, tt)
insert_entry-Entries e (f ∷ d) h k = ground (arith, insert_entry-Entries e d h k.1)

sort_entries-Entries : (d : List (ℕ × ℕ)) → Entries d → Entries (sort_entries d)
sort_entries-Entries [] k = tt
sort_entries-Entries (e ∷ d) k =
    insert_entry-Entries e (sort_entries d) k.0 (sort_entries-Entries d k.1)

keys-Digits : (d : List (ℕ × ℕ)) → Entries d → Digits (map (λ e. e.0) d)
keys-Digits [] k = tt
keys-Digits (e ∷ d) k = (k.0, keys-Digits d k.1)

length-insert_entry : (e : ℕ × ℕ) (d : List (ℕ × ℕ)) → length (insert_entry e d) ≡ suc (length d)
length-insert_entry e [] = refl
length-insert_entry e (f ∷ d) = ground (arith, length-insert_entry e d)

length-sort_entries : (d : List (ℕ × ℕ)) → length (sort_entries d) ≡ length d
length-sort_entries [] = refl
length-sort_entries (e ∷ d) =
    length-insert_entry e (sort_entries d) ∙ ap suc (length-sort_entries d)

length-insert_ascending : (x : ℕ) (xs : List ℕ) → length (insert_ascending x xs) ≡ suc (length xs)
length-insert_ascending x [] = refl
length-insert_ascending x (y ∷ ys) = ground (arith, length-insert_ascending x ys)

length-sort_ascending : (xs : List ℕ) → length (sort_ascending xs) ≡ length xs
length-sort_ascending [] = refl
length-sort_ascending (x ∷ xs) =
    length-insert_ascending x (sort_ascending xs) ∙ ap suc (length-sort_ascending xs)

length-keys : (d : List (ℕ × ℕ)) → length (map (λ (e : ℕ × ℕ). e.0) d) ≡ length d
length-keys [] = refl
length-keys (e ∷ d) = ap suc (length-keys d)

length-counts : (d : List (ℕ × ℕ)) → length (map (λ (e : ℕ × ℕ). e.1) d) ≡ length d
length-counts [] = refl
length-counts (e ∷ d) = ap suc (length-counts d)

-- There is one count for each distinct value.
group-length : (vs : List ℕ) → length (group_hand_by_value vs).1 ≡ length (group_hand_by_value vs).0
unfolding group_hand_by_value
group-length vs =
    let d = count_values [] vs in
    length-keys (sort_entries d)
    ∙ length-sort_entries d
    ∙ sym (length-sort_ascending (map (λ e. e.1) d) ∙ length-counts d)

group-Digits : (vs : List ℕ) → Digits vs → Digits (group_hand_by_value vs).1
unfolding group_hand_by_value
group-Digits vs h =
    let d = count_values [] vs in
    keys-Digits (sort_entries d) (sort_entries-Entries d (count_values-Entries vs [] h tt))

classify-length :
    (vs counts : List ℕ) (f s : Bool)
    → scores_groups (classify vs counts f s) ≡ true
    → length counts ≡ ranking_length (classify vs counts f s)
unfolding classify
classify-length vs counts f s h = ground (
  arith,
  same_list-length counts (1 ∷ 4 ∷ []),
  same_list-length counts (2 ∷ 3 ∷ []),
  same_list-length counts (1 ∷ 1 ∷ 3 ∷ []),
  same_list-length counts (1 ∷ 2 ∷ 2 ∷ []),
  same_list-length counts (1 ∷ 1 ∷ 1 ∷ 2 ∷ []),
)

plain_length : (t : HandsOfPoker) → scores_groups t ≡ false → ranking_length t ≡ 5
plain_length t h = ground arith

rank_room : (t : HandsOfPoker) → 15 ^ ranking_length t ≤ hand_rank_multiplier
rank_room royal_flush = omega arith
rank_room _ = omega arith

ranking-Digits : (hand : List Card) → Digits (ranking hand)
unfolding ranking
ranking-Digits hand = elim (Bool-cases (scores_groups (hand_type_of hand))) [
  | inl grouped ↦ rw grouped (group-Digits (map value hand) (values-Digits hand))
  | inr plain ↦ elim (Bool-cases (same_list (map value hand) wheel)) [
    | inl low ↦ rw (plain, low) (omega arith)
    | inr usual ↦ rw (plain, usual) (values-Digits hand)
  ]
]

grouped_length :
    (hand : List Card)
    → scores_groups (hand_type_of hand) ≡ true
    → length (group_hand_by_value (map value hand)).1 ≡ ranking_length (hand_type_of hand)
unfolding calculate_hand_score
grouped_length hand grouped =
    group-length (map value hand)
    ∙ classify-length (map value hand) (group_hand_by_value (map value hand)).0 (flush_of hand)
        (straight_of (map value hand)) grouped

chosen_length :
    (grouped low : Bool) (keys vs : List ℕ) (n : ℕ)
    → (grouped ≡ true → length keys ≡ n)
    → (grouped ≡ false → n ≡ 5)
    → length vs ≡ 5
    → length (if grouped then keys else if low then wheel_values else vs) ≡ n
chosen_length true low keys vs n k p five = k refl
chosen_length false true keys vs n k p five = sym (p refl)
chosen_length false false keys vs n k p five = five ∙ sym (p refl)

length-ranking :
    (hand : List Card)
    → length hand ≡ 5
    → length (ranking hand) ≡ ranking_length (hand_type_of hand)
unfolding ranking
length-ranking hand five =
    chosen_length (scores_groups (hand_type_of hand)) (same_list (map value hand) wheel)
      (group_hand_by_value (map value hand)).1 (map value hand) (ranking_length (hand_type_of hand))
      (grouped_length hand) (plain_length (hand_type_of hand)) (length-values hand ∙ five)

pub score_of_lem :
    (hand : List Card)
    → score_of hand
      ≡ hand_rank_multiplier * hand_rank (hand_type_of hand) + place_values (ranking hand)
unfolding ranking calculate_hand_score calculate_score_value
score_of_lem hand = refl

ranking_room :
    (hand : List Card) → length hand ≡ 5 → place_values (ranking hand) < hand_rank_multiplier
ranking_room hand five = omega (
  arith,
  rw (length-ranking hand five) at (place_values-lt (ranking hand) (ranking-Digits hand)),
  rank_room (hand_type_of hand),
)

-- Of two five-card hands the one of the higher type has the higher score, whatever their cards.
pub hand_type_decides :
    (h k : List Card)
    → length h ≡ 5
    → length k ≡ 5
    → hand_rank (hand_type_of h) < hand_rank (hand_type_of k)
    → score_of h < score_of k
hand_type_decides h k fh fk less =
    rw (score_of_lem h, score_of_lem k) (omega (arith, ranking_room h fh))

same_type : (t u : HandsOfPoker) → hand_rank t ≡ hand_rank u → t ≡ u
same_type t u e = ground arith

-- Of two five-card hands of one type, the scores compare as the ranking values do, by the first
-- place where these differ; both rankings have the length that belongs to the type.
pub ranking_decides :
    (h k : List Card)
    → length h ≡ 5
    → length k ≡ 5
    → hand_type_of h ≡ hand_type_of k
    → (ltb (score_of h) (score_of k) ≡ lex_less (ranking h) (ranking k))
      × (length (ranking h) ≡ ranking_length (hand_type_of h))
      × (length (ranking k) ≡ ranking_length (hand_type_of h))
ranking_decides h k fh fk e =
    let lh = length-ranking h fh in
    let lk = length-ranking k fk ∙ ap ranking_length (sym e) in
    (
      rw (score_of_lem h, score_of_lem k, e)
          (shift (hand_rank_multiplier * hand_rank (hand_type_of k)) (place_values (ranking h))
              (place_values (ranking k))
            ∙ place_values_lex (ranking h) (ranking k) (lh ∙ sym lk) (ranking-Digits h)
                (ranking-Digits k)),
      lh,
      lk,
    )
  where
    shift : (c a b : ℕ) → ltb (c + a) (c + b) ≡ ltb a b
    shift c a b = ground arith
