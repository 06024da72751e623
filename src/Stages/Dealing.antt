-- ===== src/Stages/Dealing.antt =====
-- Dealing the hole cards: `_divide_cards` of pokerapp/matchmaking_service.py.
use poker_telegram_bot.Prelude.{
  ℕ, suc, ◌*◌, ◌≤◌, ◌≡◌, refl, sym, ◌∙◌, inl, inr, Option, none, some, List, [], ◌∷◌, ◌++◌, length,
  length-append, reverse, length-reverse, reverse-append, append_assoc, append-nil, All, ltb,
  if◌then◌else◌, arith, ap,
}
use poker_telegram_bot.Cards.{Card}
use poker_telegram_bot.Entities.{Player, Game, occupied, players}
use poker_telegram_bot.Stages.{refilled, deal_two, divide_from, divide_cards}
use poker_telegram_bot.Stages.Progress.{pop-Popped}

-- The players' cards, in the order in which they were dealt.
abbrev pub hands : List Player → List Card
hands [] = []
hands (p ∷ ps) = p.cards ++ hands ps

-- Two cards off the end of a deck that has them.
pub record DealtTwo (deck : List Card) : Type 0 where
  pub hand : List Card
  pub rest : List Card
  pub result : deal_two deck ≡ some (hand, rest)
  pub two : length hand ≡ 2
  pub whole : deck ≡ rest ++ reverse hand

deal_two_lem : (deck : List Card) → 2 ≤ length deck → DealtTwo deck
deal_two_lem deck h = elim (pop-Popped deck) [
  | inl (_, empty) ↦ absurd (ground (arith, h, empty))
  | inr (c, rest, e, whole) ↦ elim (pop-Popped rest) [
    | inl (_, empty) ↦ absurd (ground (arith, h, ap (λ x. length x) whole, empty))
    | inr (d, rest', e', whole') ↦ record {
      hand = c ∷ d ∷ [];
      rest = rest';
      result = rw (deal_two, e, e') refl;
      two = refl;
      whole = whole ∙ ap (λ x. x ++ (c ∷ [])) whole' ∙ append_assoc rest' (d ∷ []) (c ∷ []);
    }
  ]
]

-- What dealing from a deck gives the seats.
pub record DealtOut (fresh : ℕ → List Card) (k : ℕ) (ps : List (Option Player)) (deck : List Card)
    : Type 0 where
  pub seats : List (Option Player)
  pub rest : List Card
  pub result : divide_from fresh k ps deck ≡ some (seats, rest)
  pub two_each : All (λ p. length p.cards ≡ 2) (occupied seats)
  pub enough :
      2 * length (occupied ps) ≤ length deck → deck ≡ rest ++ reverse (hands (occupied seats))

no_refill : (fresh deck : List Card) → 2 ≤ length deck → refilled fresh deck ≡ deck
no_refill fresh deck h = ground arith

deck_after :
    (deck used rest hand last tail : List Card) (n : ℕ)
    → (2 ≤ length deck → used ≡ deck)
    → used ≡ rest ++ reverse hand
    → length hand ≡ 2
    → (2 * n ≤ length rest → rest ≡ last ++ reverse tail)
    → 2 * suc n ≤ length deck
    → deck ≡ last ++ reverse (hand ++ tail)
deck_after deck used rest hand last tail n same whole two next h =
    let e = same (omega (arith, h)) in
    let size = ap (λ x. length x) (sym e ∙ whole) ∙ length-append rest (reverse hand) in
    let back = length-reverse hand in
    sym e
    ∙ whole
    ∙ ap (λ x. x ++ reverse hand) (next (omega (arith, size, back, two, h)))
    ∙ append_assoc last (reverse tail) (reverse hand)
    ∙ ap (λ x. last ++ x) (sym (reverse-append hand tail))

divide_from_lem :
    (fresh : ℕ → List Card) (k : ℕ) (ps : List (Option Player)) (deck : List Card)
    → ((j : ℕ) → 2 ≤ length (fresh j))
    → DealtOut fresh k ps deck
divide_from_lem fresh k [] deck full = record {
  seats = [];
  rest = deck;
  result = refl;
  two_each = tt;
  enough = λ h. sym (append-nil deck);
}
divide_from_lem fresh k (none ∷ ps) deck full =
    let d = divide_from_lem fresh k ps deck full in
    record {
      seats = none ∷ d.seats;
      rest = d.rest;
      result = rw (divide_from, d.result) refl;
      two_each = d.two_each;
      enough = d.enough;
    }
divide_from_lem fresh k (some p ∷ ps) deck full =
    let k' = if ltb (length deck) 2 then suc k else k in
    let two = deal_two_lem (refilled (fresh k) deck) (ground (arith, full k)) in
    let d = divide_from_lem fresh k' ps two.rest full in
    record {
      seats = some (record p { cards = two.hand }) ∷ d.seats;
      rest = d.rest;
      result = rw (divide_from, two.result, d.result) refl;
      two_each = (two.two, d.two_each);
      enough =
          deck_after deck (refilled (fresh k) deck) two.rest two.hand d.rest
            (hands (occupied d.seats)) (length (occupied ps)) (λ h. no_refill (fresh k) deck h)
            two.whole two.two d.enough;
    }

-- Dealing never fails where a shuffled deck has at least two cards: every seated player gets two
-- cards. Where the deck has two for each of them, those are the deck's last cards, no card twice
-- and none lost, and the rest stays in the deck.
pub divide_cards_lem :
    (fresh : ℕ → List Card) (g : Game)
    → ((k : ℕ) → 2 ≤ length (fresh k))
    → (g' : Game) × (divide_cards fresh g ≡ some g')
      × All (λ p. length p.cards ≡ 2) (players g')
      × (2 * length (players g) ≤ length g.remain_cards
          → g.remain_cards ≡ g'.remain_cards ++ reverse (hands (players g')))
unfolding divide_cards
divide_cards_lem fresh g full =
    let d = divide_from_lem fresh 0 g.seats g.remain_cards full in
    (
      record g { seats = d.seats; remain_cards = d.rest },
      rw (divide_cards, d.result) refl,
      d.two_each,
      d.enough,
    )
