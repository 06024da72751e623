-- ===== src/Stages/Progress.antt =====
-- What `progress_stage` of pokerapp/matchmaking_service.py does to a hand.
use poker_telegram_bot.Prelude.{
  ℕ, zero, suc, ◌+◌, ◌≤◌, ◌≡◌, refl, sym, ◌∙◌, ◌⊎◌, inl, inr, none, some, List, [], ◌∷◌, ◌++◌,
  length, length-append, reverse, append_assoc, append-nil, arith, ap,
}
use poker_telegram_bot.Cards.{Card}
use poker_telegram_bot.Entities.{GameState, round_flop, round_turn, round_river, Game}
use poker_telegram_bot.Stages.{stage_transition, pop, show_card, add_cards_to_table}

-- How many cards lie on the table in a street.
abbrev pub board_size : GameState → ℕ
board_size round_flop = 3
board_size round_turn = 4
board_size round_river = 5
board_size _ = 0

-- The streets in order.
abbrev pub street : GameState → ℕ
street round_flop = 1
street round_turn = 2
street round_river = 3
street _ = 0

-- A hand in play: its street, the cards on the table, and enough cards for the streets to come.
pub record Dealt (g : Game) : Type 0 where
  pub in_play : stage_transition g.state ≡ none → g.state ≡ round_river
  pub board : length g.cards_table ≡ board_size g.state
  pub deck : 5 ≤ length g.cards_table + length g.remain_cards

-- A deck is empty, or it is the rest and the card that `pop` takes.
abbrev pub Popped : List Card → Type 0
Popped deck =
    ((pop deck ≡ none) × (deck ≡ []))
    ⊎ ((c : Card) × (rest : List Card) × (pop deck ≡ some (c, rest)) × (deck ≡ rest ++ (c ∷ [])))

pub pop-Popped : (deck : List Card) → Popped deck
pop-Popped [] = inl (refl, refl)
pop-Popped (d ∷ deck) = elim (pop-Popped deck) [
  | inl (e, empty) ↦ inr (d, [], rw (pop, e) refl, ap (◌∷◌ d) empty)
  | inr (c, rest, e, whole) ↦ inr (c, d ∷ rest, rw (pop, e) refl, ap (◌∷◌ d) whole)
]

-- The cards that a street shows are the last ones of the deck.
pub record Shown (count : ℕ) (g g' : Game) : Type 0 where
  pub new : List Card
  pub table : g'.cards_table ≡ g.cards_table ++ new
  pub deck : g.remain_cards ≡ g'.remain_cards ++ reverse new
  pub size : (count ≤ length g.remain_cards → length new ≡ count)
  pub same_state : g'.state ≡ g.state
  pub same_seats : g'.seats ≡ g.seats
  pub same_pot : g'.pot ≡ g.pot
  pub same_rate : g'.max_round_rate ≡ g.max_round_rate

Shown-suc :
    (n : ℕ) (g g1 g' : Game) (c : Card) (rest : List Card)
    → g.remain_cards ≡ rest ++ (c ∷ [])
    → g1 ≡ record g { cards_table = g.cards_table ++ (c ∷ []); remain_cards = rest }
    → Shown n g1 g'
    → Shown (suc n) g g'
Shown-suc n g g1 g' c rest whole e s = record {
  new = c ∷ s.new;
  table = s.table ∙ ap (λ h. h.cards_table ++ s.new) e ∙ append_assoc g.cards_table (c ∷ []) s.new;
  deck =
      whole
      ∙ ap (λ x. x ++ (c ∷ [])) (sym (ap (λ h. h.remain_cards) e) ∙ s.deck)
      ∙ append_assoc g'.remain_cards (reverse s.new) (c ∷ []);
  size = λ h.
      let all_cards = ap (λ x. length x) whole in
      let others = ap (λ x. length x.remain_cards) e in
      ap suc (s.size (omega (arith, all_cards, others, length-append rest (c ∷ []))));
  same_state = s.same_state ∙ ap (λ h. h.state) e;
  same_seats = s.same_seats ∙ ap (λ h. h.seats) e;
  same_pot = s.same_pot ∙ ap (λ h. h.pot) e;
  same_rate = s.same_rate ∙ ap (λ h. h.max_round_rate) e;
}

pub add_cards_to_table_lem : (count : ℕ) (g : Game) → Shown count g (add_cards_to_table count g)
unfolding add_cards_to_table
add_cards_to_table_lem zero g = record {
  new = [];
  table = sym (append-nil g.cards_table);
  deck = sym (append-nil g.remain_cards);
  size = λ h. refl;
  same_state = refl;
  same_seats = refl;
  same_pot = refl;
  same_rate = refl;
}
add_cards_to_table_lem (suc n) g = elim (pop-Popped g.remain_cards) [
  | inr (c, rest, e, whole) ↦
      Shown-suc n g (show_card g) _ c rest whole (rw (show_card, e) refl)
        (add_cards_to_table_lem n (show_card g))
  | inl (e, empty) ↦
      let none_left : show_card g ≡ g = rw (show_card, e) refl in
      rw none_left (
        let s = add_cards_to_table_lem n g in
        record {
          new = s.new;
          table = s.table;
          deck = s.deck;
          size = λ h. absurd (ground (arith, empty, h));
          same_state = s.same_state;
          same_seats = s.same_seats;
          same_pot = s.same_pot;
          same_rate = s.same_rate;
        })
]
