-- ===== src/Entities/Dealer.antt =====
-- How `Game.next_occupied_seat` and `Game.advance_dealer` of pokerapp/entities.py walk round the
-- table.
use poker_telegram_bot.Prelude.{
  ℕ, zero, suc, ◌+◌, ◌-◌, ◌%◌, ◌<◌, ◌≡◌, refl, ◌⊎◌, inl, inr, Option, none, some, List, [], ◌∷◌,
  length, arith, ℤ, pos, minus_one, Option-cases,
}
use poker_telegram_bot.Entities.{
  Game, Player, occupied, players, player_at, max_players, scan_seats, first_candidate,
  next_occupied_seat, advance_dealer,
}

-- The seat that round `j` of a scan from `i` looks at.
abbrev pub seat_after : ℕ → ℕ → ℕ
seat_after i j = (i + j) % max_players

-- The first `k` seats from `i` on are empty.
abbrev pub EmptyRun : List (Option Player) → ℕ → ℕ → Type 0
EmptyRun ps i k = (m : ℕ) → m < k → player_at ps (seat_after i m) ≡ none

-- `r` is the first occupied seat from `i` on, `j` seats away.
pub record FoundAt (ps : List (Option Player)) (i j : ℕ) (r : ℤ) : Type 0 where
  pub seat : r ≡ pos (seat_after i j)
  pub player : Player
  pub sits : player_at ps (seat_after i j) ≡ some player
  pub nearest : EmptyRun ps i j

abbrev pub Scanned : List (Option Player) → ℕ → ℕ → ℤ → Type 0
Scanned ps i k r = ((j : ℕ) × (j < k) × FoundAt ps i j r) ⊎ ((r ≡ minus_one) × EmptyRun ps i k)

EmptyRun-suc :
    (ps : List (Option Player)) (i k : ℕ)
    → player_at ps (i % max_players) ≡ none
    → EmptyRun ps (suc i) k
    → EmptyRun ps i (suc k)
EmptyRun-suc ps i k e run zero h = subst_seat
  where
    subst_seat : player_at ps ((i + 0) % max_players) ≡ none
    subst_seat = let z : i + 0 ≡ i = omega arith in rw z e
EmptyRun-suc ps i k e run (suc m) h =
    let z : i + suc m ≡ suc i + m = omega arith in rw z (run m (omega arith))

scan_seats_lem : (ps : List (Option Player)) (i k : ℕ) → Scanned ps i k (scan_seats ps i k)
unfolding scan_seats
scan_seats_lem ps i zero = inr (refl, λ m h. absurd (omega arith))
scan_seats_lem ps i (suc k) = elim (Option-cases (player_at ps (i % max_players))) [
  | inr (p, e) ↦
      let z : i + 0 ≡ i = omega arith in
      rw (e, scan_seats)
        (inl (
          0,
          omega arith,
          record { seat = rw z; player = p; sits = rw z e; nearest = λ m h. absurd (omega arith) },
        ))
  | inl e ↦
      rw (e, scan_seats)
        (elim (scan_seats_lem ps (suc i) k) [
          | inl (j, h, f) ↦
              let z : i + suc j ≡ suc i + j = omega arith in
              inl (
                suc j,
                omega arith,
                record {
                  seat = rw z f.seat;
                  player = f.player;
                  sits = rw z f.sits;
                  nearest = EmptyRun-suc ps i j e f.nearest;
                },
              )
          | inr (r, run) ↦ inr (r, EmptyRun-suc ps i k e run)
        ])
]

-- A table with a player has a taken seat.
taken_seat :
    (ps : List (Option Player)) {p : Player} {rest : List Player}
    → occupied ps ≡ p ∷ rest
    → (q : ℕ) × (a : Player) × (q < length ps) × (player_at ps q ≡ some a)
taken_seat [] h = absurd (cc)
taken_seat (some a ∷ ps) h = (0, a, omega arith, refl)
taken_seat (none ∷ ps) h = let (q, a, l, e) = taken_seat ps h in (suc q, a, omega arith, e)

-- Eight rounds look at every seat.
offset_of : (i q : ℕ) → q < 8 → seat_after i ((q + 8 - i % 8) % 8) ≡ q
offset_of i q h = omega arith

-- Where somebody sits at a table of eight seats, `next_occupied_seat` answers with a taken seat,
-- and every seat that it passed on the way from the start, clockwise, is empty; the start seat
-- itself comes last. At an empty table it answers -1.
next_occupied_seat_nearest :
    (g : Game) (start : ℤ)
    → length g.seats ≡ max_players
    → (players g ≡ []) × (next_occupied_seat g start ≡ minus_one)
      ⊎ ((j : ℕ) × (j < max_players)
          × FoundAt g.seats (first_candidate start) j (next_occupied_seat g start))
unfolding next_occupied_seat
next_occupied_seat_nearest g start full = cases (players g) refl
  where
    hit :
        (p : Player) (rest : List Player)
        → players g ≡ p ∷ rest
        → (j : ℕ) × (j < max_players)
          × FoundAt g.seats
              (first_candidate start)
              j
              (scan_seats g.seats (first_candidate start) max_players)
    hit p rest e = elim (scan_seats_lem g.seats (first_candidate start) max_players) [
      | inl found ↦ found
      | inr (_, run) ↦
          let (q, a, l, sits) = taken_seat g.seats e in
          let at = offset_of (first_candidate start) q (omega arith) in
          absurd (
            ground
              (arith, rw at at (run ((q + 8 - first_candidate start % 8) % 8) (omega arith)), sits))
    ]

    cases :
        (l : List Player)
        → players g ≡ l
        → (players g ≡ []) × (next_occupied_seat g start ≡ minus_one)
          ⊎ ((j : ℕ) × (j < max_players)
              × FoundAt g.seats (first_candidate start) j (next_occupied_seat g start))
    cases [] e = inl (e, rw (e, next_occupied_seat))
    cases (p ∷ rest) e = inr (rw (e, next_occupied_seat) (hit p rest e))

-- The dealer button moves to a taken seat, the nearest one clockwise from where it stood, and
-- nothing else of the game changes.
advance_dealer_nearest :
    (g : Game) (p : Player) (rest : List Player)
    → length g.seats ≡ max_players
    → players g ≡ p ∷ rest
    → (j : ℕ) × (j < max_players)
      × FoundAt g.seats (first_candidate g.dealer_index) j (advance_dealer g).0
      × ((advance_dealer g).1.dealer_index ≡ (advance_dealer g).0)
      × ((advance_dealer g).1.seats ≡ g.seats)
      × ((advance_dealer g).1.pot ≡ g.pot)
unfolding advance_dealer
advance_dealer_nearest g p rest full e = elim (next_occupied_seat_nearest g g.dealer_index full) [
  | inl (empty, _) ↦ absurd (ground (arith, empty))
  | inr (j, h, f) ↦ (j, h, f, refl, refl, refl)
]
