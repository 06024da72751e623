-- ===== src/Validator/Hands.antt =====
-- Games in play against the checks of pokerapp/state_validator.py: the hole cards dealt by
-- `_divide_cards` and the streets shown by `_add_cards_to_table` of
-- pokerapp/matchmaking_service.py.
use poker_telegram_bot.Prelude.{
  ℕ, zero, suc, ◌+◌, ◌*◌, ◌≡◌, ◌≤◌, ◌<◌, refl, sym, ap, ◌∙◌, Bool, true, false, Option, none, some,
  List, [], ◌∷◌, ◌++◌, length, length-append, length-reverse, All, reverse, arith, ℤ, pos, negsuc,
  bind-some, ltb, if◌then◌else◌,
}
use poker_telegram_bot.Cards.{Card}
use poker_telegram_bot.Entities.{GameState, Player, Game, players, occupied, player_at, max_players}
use poker_telegram_bot.Stages.{
  divide_cards, divide_from, deal_two, refilled, add_cards_to_table, show_card,
}
use poker_telegram_bot.Stages.Dealing.{hands, divide_cards_lem}
use poker_telegram_bot.Stages.Progress.{Shown, add_cards_to_table_lem}
use poker_telegram_bot.Validator.Defs.{
  snapshot, is_initial, is_empty, dealer_valid, taken, deck_size, validate_game,
}
use poker_telegram_bot.Validator.Recovery.{seat_users, IsValid}

-- A hand in play: who deals sits at the table, and the deck, the table's cards and two cards for
-- each player are the 52 cards.
record Running (g : Game) : Type 0 where
  started : is_initial (some g.state) ≡ false
  dealer : dealer_valid (some g.dealer_index) g.seats ≡ true
  seated : is_empty (players g) ≡ false
  cards : length g.remain_cards + length g.cards_table + 2 * length (players g) ≡ deck_size

Running-IsValid : (g : Game) → Running g → IsValid (snapshot g)
unfolding validate_game
Running-IsValid g r = ground (arith, r.started, r.dealer, r.seated, r.cards)

-- Who sits where decides how many sit and whether a seat is taken.
abbrev sitting : List (Option ℕ) → ℕ
sitting [] = 0
sitting (none ∷ us) = sitting us
sitting (some u ∷ us) = suc (sitting us)

abbrev taken_at : List (Option ℕ) → ℕ → Bool
taken_at [] i = false
taken_at (none ∷ us) zero = false
taken_at (some u ∷ us) zero = true
taken_at (u ∷ us) (suc i) = taken_at us i

sitting-users : (ps : List (Option Player)) → sitting (seat_users ps) ≡ length (occupied ps)
sitting-users [] = refl
sitting-users (none ∷ ps) = sitting-users ps
sitting-users (some p ∷ ps) = ap suc (sitting-users ps)

taken_at-users :
    (ps : List (Option Player)) (i : ℕ) → taken_at (seat_users ps) i ≡ taken (player_at ps i)
taken_at-users [] i = refl
taken_at-users (none ∷ ps) zero = refl
taken_at-users (some p ∷ ps) zero = refl
taken_at-users (none ∷ ps) (suc i) = taken_at-users ps i
taken_at-users (some p ∷ ps) (suc i) = taken_at-users ps i

is_empty-length {ℓ} : {A : Type ℓ} (xs : List A) → is_empty xs ≡ false → 0 < length xs
is_empty-length [] h = cc
is_empty-length (x ∷ xs) h = omega arith

length-is_empty {ℓ} : {A : Type ℓ} (xs : List A) → 0 < length xs → is_empty xs ≡ false
length-is_empty [] h = elim h [ ]
length-is_empty (x ∷ xs) h = refl

some_inj {ℓ} : {A : Type ℓ} {x y : A} → some x ≡ some y → x ≡ y
some_inj e = cc

divide_from-users :
    (fresh : ℕ → List Card) (k : ℕ) (ps ps' : List (Option Player)) (deck rest : List Card)
    → divide_from fresh k ps deck ≡ some (ps', rest)
    → seat_users ps' ≡ seat_users ps
divide_from-users fresh k [] ps' deck rest h = ap seat_users (sym (ap (λ r. r.0) (some_inj h)))
divide_from-users fresh k (none ∷ ps) ps' deck rest h =
    let ((qs, left), e, f) = bind-some (divide_from fresh k ps deck) _ h in
    ap seat_users (sym (ap (λ r. r.0) (some_inj f)))
    ∙ ap (λ us. none ∷ us) (divide_from-users fresh k ps qs deck left e)
divide_from-users fresh k (some p ∷ ps) ps' deck rest h =
    let ((hand, deck'), two, g) = bind-some (deal_two (refilled (fresh k) deck)) _ h in
    let k' = if ltb (length deck) 2 then suc k else k in
    let ((qs, left), e, f) = bind-some (divide_from fresh k' ps deck') _ g in
    ap seat_users (sym (ap (λ r. r.0) (some_inj f)))
    ∙ ap (λ us. some p.user_id ∷ us) (divide_from-users fresh k' ps qs deck' left e)

divide_cards-keeps :
    (fresh : ℕ → List Card) (g g' : Game)
    → divide_cards fresh g ≡ some g'
    → (seat_users g'.seats ≡ seat_users g.seats)
      × (g'.cards_table ≡ g.cards_table)
      × (g'.dealer_index ≡ g.dealer_index)
unfolding divide_cards
divide_cards-keeps fresh g g' h =
    let ((qs, left), e, f) = bind-some (divide_from fresh 0 g.seats g.remain_cards) _ h in
    let same = some_inj f in
    (
      ap (λ (x : Game). seat_users x.seats) (sym same)
          ∙ divide_from-users fresh 0 g.seats qs g.remain_cards left e,
      ap (λ (x : Game). x.cards_table) (sym same),
      ap (λ (x : Game). x.dealer_index) (sym same),
    )

length-hands :
    (ps : List Player) → All (λ p. length p.cards ≡ 2) ps → length (hands ps) ≡ 2 * length ps
length-hands [] h = omega arith
length-hands (p ∷ ps) h = omega (arith, h.0, length-append p.cards (hands ps), length-hands ps h.1)

-- A table before the cards are dealt: a whole deck, a dealer with a seat, and no more players than
-- seats.
pub record Ready (g : Game) : Type 0 where
  pub whole : length g.remain_cards ≡ deck_size
  pub no_board : g.cards_table ≡ []
  pub dealer : dealer_valid (some g.dealer_index) g.seats ≡ true
  pub few : length (players g) ≤ max_players

dealer-same :
    (d : ℤ) (ps qs : List (Option Player))
    → seat_users ps ≡ seat_users qs
    → dealer_valid (some d) ps ≡ dealer_valid (some d) qs
dealer-same (negsuc n) ps qs e = refl
dealer-same (pos i) ps qs e =
    sym (taken_at-users ps i) ∙ ap (λ us. taken_at us i) e ∙ taken_at-users qs i

seated-taken :
    (ps : List (Option Player)) (i : ℕ) → taken (player_at ps i) ≡ true → 0 < length (occupied ps)
seated-taken [] i h = cc
seated-taken (none ∷ ps) zero h = cc
seated-taken (some p ∷ ps) zero h = omega arith
seated-taken (none ∷ ps) (suc i) h = seated-taken ps i h
seated-taken (some p ∷ ps) (suc i) h = omega arith

seated-dealer :
    (d : ℤ) (ps : List (Option Player))
    → dealer_valid (some d) ps ≡ true
    → is_empty (occupied ps) ≡ false
seated-dealer (negsuc n) ps h = cc
seated-dealer (pos i) ps h = length-is_empty (occupied ps) (seated-taken ps i h)

dealt-Running :
    (fresh : ℕ → List Card) (g g' : Game) (s : GameState)
    → is_initial (some s) ≡ false
    → Ready g
    → divide_cards fresh g ≡ some g'
    → All (λ p. length p.cards ≡ 2) (players g')
    → (2 * length (players g) ≤ length g.remain_cards
        → g.remain_cards ≡ g'.remain_cards ++ reverse (hands (players g')))
    → Running (record g' { state = s })
dealt-Running fresh g g' s started ready e two enough = record {
  started = started;
  dealer = dealer;
  seated = seated-dealer g'.dealer_index g'.seats dealer;
  cards = cards;
}
  where
    kept :
        (seat_users g'.seats ≡ seat_users g.seats)
        × (g'.cards_table ≡ g.cards_table)
        × (g'.dealer_index ≡ g.dealer_index)
    kept = divide_cards-keeps fresh g g' e

    dealer : dealer_valid (some g'.dealer_index) g'.seats ≡ true
    dealer =
        dealer-same g'.dealer_index g'.seats g.seats kept.0
        ∙ ap (λ d. dealer_valid (some d) g.seats) kept.2
        ∙ ready.dealer

    as_many : length (players g') ≡ length (players g)
    as_many = sym (sitting-users g'.seats) ∙ ap sitting kept.0 ∙ sitting-users g.seats

    cards : length g'.remain_cards + length g'.cards_table + 2 * length (players g') ≡ deck_size
    cards =
        let dealt = ap (λ x. length x) (enough (omega (arith, ready.whole, ready.few))) in
        let board = ap (λ x. length x) (kept.1 ∙ ready.no_board) in
        omega (
          arith,
          dealt,
          board,
          ready.whole,
          length-append g'.remain_cards (reverse (hands (players g'))),
          length-reverse (hands (players g')),
          length-hands (players g') two,
        )

-- A hand goes on: the next streets, each with the cards that it shows.
abbrev pub show_streets : List (GameState × ℕ) → Game → Game
show_streets [] g = g
show_streets ((s, count) ∷ rest) g =
    show_streets rest (add_cards_to_table count (record g { state = s }))

add_cards-dealer :
    (count : ℕ) (g : Game) → (add_cards_to_table count g).dealer_index ≡ g.dealer_index
unfolding add_cards_to_table
add_cards-dealer zero g = refl
add_cards-dealer (suc n) g = add_cards-dealer n (show_card g) ∙ show_card-dealer
  where
    show_card-dealer : (show_card g).dealer_index ≡ g.dealer_index
    show_card-dealer = ground (arith)

street-Running :
    (s : GameState) (count : ℕ) (g : Game)
    → is_initial (some s) ≡ false
    → Running g
    → Running (add_cards_to_table count (record g { state = s }))
street-Running s count g started r = record {
  started = rw shown.same_state started;
  dealer =
      ap (λ ps. dealer_valid (some g'.dealer_index) ps) shown.same_seats
      ∙ ap (λ d. dealer_valid (some d) g.seats) (add_cards-dealer count (record g { state = s }))
      ∙ r.dealer;
  seated = ap (λ ps. is_empty (occupied ps)) shown.same_seats ∙ r.seated;
  cards =
      let table = ap (λ x. length x) shown.table in
      let deck = ap (λ x. length x) shown.deck in
      let seats = ap (λ ps. length (occupied ps)) shown.same_seats in
      omega (
        arith,
        table,
        deck,
        seats,
        r.cards,
        length-append g.cards_table shown.new,
        length-append g'.remain_cards (reverse shown.new),
        length-reverse shown.new,
      );
}
  where
    g' : Game
    g' = add_cards_to_table count (record g { state = s })

    shown : Shown count (record g { state = s }) (add_cards_to_table count (record g { state = s }))
    shown = add_cards_to_table_lem count (record g { state = s })

streets-Running :
    (streets : List (GameState × ℕ)) (g : Game)
    → All (λ s. is_initial (some s.0) ≡ false) streets
    → Running g
    → Running (show_streets streets g)
streets-Running [] g h r = r
streets-Running ((s, count) ∷ rest) g h r =
    streets-Running rest _ h.1 (street-Running s count g h.0 r)

-- Dealing two cards to each of at most eight players from a whole deck, with a dealer at the table,
-- and then showing any number of cards in any streets, gives a game that the validator
-- finds valid.
pub hand_stays-IsValid :
    (fresh : ℕ → List Card) (g : Game) (s : GameState) (streets : List (GameState × ℕ))
    → ((k : ℕ) → 2 ≤ length (fresh k))
    → Ready g
    → is_initial (some s) ≡ false
    → All (λ t. is_initial (some t.0) ≡ false) streets
    → (g' : Game) × (divide_cards fresh g ≡ some g')
      × IsValid (snapshot (show_streets streets (record g' { state = s })))
hand_stays-IsValid fresh g s streets full ready started later =
    let (g', e, two, enough) = divide_cards_lem fresh g full in
    (
      g',
      e,
      Running-IsValid _ (
          streets-Running streets (record g' { state = s }) later
            (dealt-Running fresh g g' s started ready e two enough)),
    )
