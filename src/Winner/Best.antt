-- ===== src/Winner/Best.antt =====
-- `get_hand_value` of pokerapp/winnerdetermination.py finds the best five cards.
use mathlib.Core.Path.{subst}
use poker_telegram_bot.Prelude.{
  ℕ, zero, suc, ◌≤◌, ◌<◌, ◌≡◌, refl, ◌∙◌, ap, inl, inr, ◌⊎◌, List, [], ◌∷◌, ◌++◌, map, length, All,
  ltb, if◌then◌else◌, arith, Bool-cases,
}
use poker_telegram_bot.Cards.{Card}
use poker_telegram_bot.Winner.Order.{hand_type_of, score_of, score_of_lem}
use poker_telegram_bot.Winner.{
  HandsOfPoker, hand_rank, combinations, insert_card, sort_cards, HandValue, better, best_of,
  no_hand, get_hand_value,
}

-- `x` stands in the list.
abbrev pub Among : {A : Type 0} → A → List A → Type 0
Among x [] = ⊥
Among x (y ∷ ys) = (y ≡ x) ⊎ Among x ys

-- The value that the code gives to five cards.
abbrev pub value_of : List Card → HandValue
value_of hand = record {
  hand_type = hand_type_of (sort_cards hand);
  score = score_of (sort_cards hand);
  cards = sort_cards hand;
}

hand_rank-pos : (t : HandsOfPoker) → 1 ≤ hand_rank t
hand_rank-pos HandsOfPoker.royal_flush = omega arith
hand_rank-pos _ = omega arith

score-pos : (hand : List Card) → 0 < score_of hand
score-pos hand = rw (score_of_lem hand) (omega (arith, hand_rank-pos (hand_type_of hand)))

better_lem :
    (best : HandValue) (hand : List Card)
    → better best hand ≡ (if ltb best.score (value_of hand).score then value_of hand else best)
unfolding better
better_lem best hand = refl

-- The loop keeps the highest score that it has met, and a hand that has it.
best_of_lem :
    (best : HandValue) (hands : List (List Card))
    → (best.score ≤ (best_of best hands).score)
      × All (λ h. (value_of h).score ≤ (best_of best hands).score) hands
      × ((best_of best hands ≡ best)
          ⊎ ((h : List Card) × Among h hands × (best_of best hands ≡ value_of h)))
unfolding best_of
best_of_lem best [] = (omega arith, tt, inl refl)
best_of_lem best (hand ∷ hands) =
    let (above, all_above, source) = best_of_lem (better best hand) hands in
    elim (Bool-cases (ltb best.score (value_of hand).score)) [
      | inl more ↦
          let e : better best hand ≡ value_of hand = better_lem best hand ∙ rw more in
          let gain : (value_of hand).score ≤ (best_of (better best hand) hands).score =
            rw (ap (λ v. v.score) e) at above in
          (
            ground (arith, gain),
            (gain, all_above),
            elim source [
              | inl kept ↦ inr (hand, inl refl, kept ∙ e)
              | inr (h, among, is) ↦ inr (h, inr among, is)
            ],
          )
      | inr less ↦
          let e : better best hand ≡ best = better_lem best hand ∙ rw less in
          let gain : best.score ≤ (best_of (better best hand) hands).score =
            rw (ap (λ v. v.score) e) at above in
          (
            gain,
            (ground (arith, gain), all_above),
            elim source [ inl kept ↦ inl (kept ∙ e) | inr (h, among, is) ↦ inr (h, inr among, is) ],
          )
    ]

Among-append_left : {A : Type 0} (x : A) (xs ys : List A) → Among x xs → Among x (xs ++ ys)
Among-append_left x [] ys h = absurd h
Among-append_left x (y ∷ xs) ys (inl e) = inl e
Among-append_left x (y ∷ xs) ys (inr h) = inr (Among-append_left x xs ys h)

Among-map :
    {A : Type 0} (x : A) (c : List A) (cs : List (List A))
    → Among c cs
    → Among (x ∷ c) (map (◌∷◌ x) cs)
Among-map x c [] m = absurd m
Among-map x c (d ∷ cs) (inl e) = inl (ap (◌∷◌ x) e)
Among-map x c (d ∷ cs) (inr m) = inr (Among-map x c cs m)

-- From `k` cards on there is a hand of `k`.
some_combination :
    {A : Type 0} (xs : List A) (k : ℕ) → k ≤ length xs → (h : List A) × Among h (combinations xs k)
some_combination xs zero h = ([], inl refl)
some_combination [] (suc k) h = absurd (omega arith)
some_combination (x ∷ xs) (suc k) h =
    let (c, among) = some_combination xs k (omega arith) in
    (
      x ∷ c,
      Among-append_left (x ∷ c) (map (◌∷◌ x) (combinations xs k)) (combinations xs (suc k))
          (Among-map x c (combinations xs k) among),
    )

All-append : {A : Type 0} (P : A → Type 0) (xs ys : List A) → All P xs → All P ys → All P (xs ++ ys)
All-append P [] ys h k = k
All-append P (x ∷ xs) ys h k = (h.0, All-append P xs ys h.1 k)

-- Every combination has `k` cards.
abbrev HasLength : {A : Type 0} → ℕ → List A → Type 0
HasLength k xs = length xs ≡ k

All-cons_length :
    {A : Type 0} (x : A) (k : ℕ) (cs : List (List A))
    → All (HasLength k) cs
    → All (HasLength (suc k)) (map (◌∷◌ x) cs)
All-cons_length x k [] h = tt
All-cons_length x k (c ∷ cs) h = (ap suc h.0, All-cons_length x k cs h.1)

combinations-length : {A : Type 0} (xs : List A) (k : ℕ) → All (HasLength k) (combinations xs k)
combinations-length xs zero = (refl, tt)
combinations-length [] (suc k) = tt
combinations-length (x ∷ xs) (suc k) =
    All-append (HasLength (suc k)) (map (◌∷◌ x) (combinations xs k)) (combinations xs (suc k))
      (All-cons_length x k (combinations xs k) (combinations-length xs k))
      (combinations-length xs (suc k))

All-Among : {A : Type 0} (P : A → Type 0) (x : A) (xs : List A) → All P xs → Among x xs → P x
All-Among P x [] h m = absurd m
All-Among P x (y ∷ xs) h (inl e) = subst P e h.0
All-Among P x (y ∷ xs) h (inr m) = All-Among P x xs h.1 m

length-insert_card : (c : Card) (cs : List Card) → length (insert_card c cs) ≡ suc (length cs)
length-insert_card c [] = refl
length-insert_card c (d ∷ ds) = ground (arith, length-insert_card c ds)

length-sort_cards : (cs : List Card) → length (sort_cards cs) ≡ length cs
length-sort_cards [] = refl
length-sort_cards (c ∷ cs) = length-insert_card c (sort_cards cs) ∙ ap suc (length-sort_cards cs)

-- From five cards on, `get_hand_value` answers with the value of one of the five-card
-- combinations of the player's and the table's cards, no combination scores higher, and the
-- answer holds five cards. With fewer cards the answer is a high card of score 0 and no cards.
pub get_hand_value_best :
    (player_cards table_cards : List Card)
    → ((5 ≤ length (player_cards ++ table_cards))
        × (h : List Card) × Among h (combinations (player_cards ++ table_cards) 5)
        × (get_hand_value player_cards table_cards ≡ value_of h)
        × (length (get_hand_value player_cards table_cards).cards ≡ 5)
        × All
            (λ c. (value_of c).score ≤ (get_hand_value player_cards table_cards).score)
            (combinations (player_cards ++ table_cards) 5))
      ⊎ ((length (player_cards ++ table_cards) < 5)
          × (get_hand_value player_cards table_cards ≡ no_hand))
unfolding get_hand_value
get_hand_value_best player_cards table_cards =
    let xs = player_cards ++ table_cards in
    let hands = combinations xs 5 in
    elim (Bool-cases (ltb (length xs) 5)) [
      | inl short ↦ inr (ground arith, rw short)
      | inr enough ↦ rw enough (
          let five : 5 ≤ length xs = ground arith in
          let (_, all_below, source) = best_of_lem no_hand hands in
          let (c, among) = some_combination xs 5 five in
          elim source [
            | inl kept ↦ absurd (
                omega (
                  arith,
                  score-pos (sort_cards c),
                  All-Among (λ h. (value_of h).score ≤ (best_of no_hand hands).score) c hands
                      all_below among,
                  ap (λ (v : HandValue). v.score) kept,
                ))
            | inr (h, found, is) ↦ inl (
              five,
              h,
              found,
              is,
              ap (λ (v : HandValue). length v.cards) is
                  ∙ length-sort_cards h
                  ∙ All-Among (HasLength 5) h hands (combinations-length xs 5) found,
              all_below,
            )
          ])
    ]
