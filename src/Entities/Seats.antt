-- ===== src/Entities/Seats.antt =====
-- Taking and leaving a seat: `add_player`, `assign_seat_for_user`, `seat_index_for_user` and
-- `remove_player_by_user` of pokerapp/entities.py.
use poker_telegram_bot.Prelude.{
  ℕ, zero, suc, ◌+◌, ◌≡◌, ◌≢◌, refl, inl, inr, Option, none, some, List, [], ◌∷◌, length, get_elem?,
  set, arith, Bool-cases, ◌==◌, ap,
}
use poker_telegram_bot.Entities.{
  Game, Player, occupied, seat_of_from, free_seat_from, max_players, vacate,
}

-- Every seated player knows the seat, from `i` on.
abbrev pub Indexed : ℕ → List (Option Player) → Type 0
Indexed i [] = Unit
Indexed i (none ∷ ps) = Indexed (suc i) ps
Indexed i (some p ∷ ps) = (p.seat_index ≡ some i) × Indexed (suc i) ps

-- Nobody with this user id sits at the table.
abbrev pub Absent : ℕ → List (Option Player) → Type 0
Absent u [] = Unit
Absent u (none ∷ ps) = Absent u ps
Absent u (some p ∷ ps) = (p.user_id ≢ u) × Absent u ps

abbrev pub OnePerUser : List (Option Player) → Type 0
OnePerUser [] = Unit
OnePerUser (none ∷ ps) = OnePerUser ps
OnePerUser (some p ∷ ps) = Absent p.user_id ps × OnePerUser ps

-- A table of eight seats, where each user sits once and each player knows the seat.
pub record IsSeated (g : Game) : Type 0 where
  pub eight : length g.seats ≡ max_players
  pub indexed : Indexed 0 g.seats
  pub one_each : OnePerUser g.seats

pub seat_of_from-Absent :
    (u i : ℕ) (ps : List (Option Player)) → Absent u ps → seat_of_from u i ps ≡ none
seat_of_from-Absent u i [] h = refl
seat_of_from-Absent u i (none ∷ ps) h = seat_of_from-Absent u (suc i) ps h
seat_of_from-Absent u i (some p ∷ ps) h = ground (arith, seat_of_from-Absent u (suc i) ps h.1, h.0)

pub Absent-seat_of_from :
    (u i : ℕ) (ps : List (Option Player)) → seat_of_from u i ps ≡ none → Absent u ps
Absent-seat_of_from u i [] h = tt
Absent-seat_of_from u i (none ∷ ps) h = Absent-seat_of_from u (suc i) ps h
Absent-seat_of_from u i (some p ∷ ps) h =
    (ground arith, Absent-seat_of_from u (suc i) ps (ground arith))

-- A taken seat's index is at least the index that the search began at.
pub seat_of_lem :
    (u i : ℕ) (ps : List (Option Player)) {k : ℕ}
    → seat_of_from u i ps ≡ some k
    → (d : ℕ) × (p : Player) × (k ≡ i + d) × (get_elem? ps d ≡ some (some p)) × (p.user_id ≡ u)
seat_of_lem u i [] h = absurd (cc)
seat_of_lem u i (none ∷ ps) h =
    let (d, p, e, at, same) = seat_of_lem u (suc i) ps h in (suc d, p, omega arith, at, same)
seat_of_lem u i (some p ∷ ps) h = elim (Bool-cases (p.user_id == u)) [
  | inl here ↦ (0, p, ground arith, refl, ground arith)
  | inr there ↦
      let (d, q, e, at, same) = seat_of_lem u (suc i) ps (rw there at h) in
      (suc d, q, omega arith, at, same)
]

pub free_seat_lem :
    (i : ℕ) (ps : List (Option Player)) {k : ℕ}
    → free_seat_from i ps ≡ some k
    → (d : ℕ) × (k ≡ i + d) × (get_elem? ps d ≡ some none)
free_seat_lem i [] h = absurd (cc)
free_seat_lem i (none ∷ ps) h = (0, ground arith, refl)
free_seat_lem i (some p ∷ ps) h =
    let (d, e, at) = free_seat_lem (suc i) ps h in (suc d, omega arith, at)

-- Where no seat is free, all are taken.
pub full_lem :
    (i : ℕ) (ps : List (Option Player))
    → free_seat_from i ps ≡ none
    → length (occupied ps) ≡ length ps
full_lem i [] h = refl
full_lem i (none ∷ ps) h = absurd (cc)
full_lem i (some p ∷ ps) h = ap suc (full_lem (suc i) ps h)

-- What a player sits down as, at seat `i`.
abbrev pub sit : Player → ℕ → Option Player
sit p i = some (record p { seat_index = some i })

pub Indexed-set :
    (p : Player) (i k : ℕ) (ps : List (Option Player))
    → Indexed i ps
    → get_elem? ps k ≡ some none
    → Indexed i (set ps k (sit p (i + k)))
Indexed-set p i k [] h e = absurd (cc)
Indexed-set p i zero (none ∷ ps) h e = (ap some (omega arith), h)
Indexed-set p i zero (some q ∷ ps) h e = absurd (cc)
Indexed-set p i (suc k) (none ∷ ps) h e =
    let z : i + suc k ≡ suc i + k = omega arith in rw z (Indexed-set p (suc i) k ps h e)
Indexed-set p i (suc k) (some q ∷ ps) h e =
    let z : i + suc k ≡ suc i + k = omega arith in (h.0, rw z (Indexed-set p (suc i) k ps h.1 e))

Absent-set :
    (u i k : ℕ) (p : Player) (ps : List (Option Player))
    → p.user_id ≢ u
    → Absent u ps
    → get_elem? ps k ≡ some none
    → Absent u (set ps k (sit p i))
Absent-set u i k p [] n h e = tt
Absent-set u i zero p (none ∷ ps) n h e = (n, h)
Absent-set u i zero p (some q ∷ ps) n h e = absurd (cc)
Absent-set u i (suc k) p (none ∷ ps) n h e = Absent-set u i k p ps n h e
Absent-set u i (suc k) p (some q ∷ ps) n h e = (h.0, Absent-set u i k p ps n h.1 e)

pub OnePerUser-set :
    (i k : ℕ) (p : Player) (ps : List (Option Player))
    → Absent p.user_id ps
    → OnePerUser ps
    → get_elem? ps k ≡ some none
    → OnePerUser (set ps k (sit p i))
OnePerUser-set i k p [] n h e = tt
OnePerUser-set i zero p (none ∷ ps) n h e = (n, h)
OnePerUser-set i zero p (some q ∷ ps) n h e = absurd (cc)
OnePerUser-set i (suc k) p (none ∷ ps) n h e = OnePerUser-set i k p ps n h e
OnePerUser-set i (suc k) p (some q ∷ ps) n h e = (
  Absent-set q.user_id i k p ps (λ same. n.0 (ground arith)) h.0 e,
  OnePerUser-set i k p ps n.1 h.1 e,
)

pub occupied-set :
    (i k : ℕ) (p : Player) (ps : List (Option Player))
    → get_elem? ps k ≡ some none
    → length (occupied (set ps k (sit p i))) ≡ suc (length (occupied ps))
occupied-set i k p [] e = absurd (cc)
occupied-set i zero p (none ∷ ps) e = refl
occupied-set i zero p (some q ∷ ps) e = absurd (cc)
occupied-set i (suc k) p (none ∷ ps) e = occupied-set i k p ps e
occupied-set i (suc k) p (some q ∷ ps) e = ap suc (occupied-set i k p ps e)

-- Leaving undoes taking the seat.
pub vacate-set :
    (i k : ℕ) (p : Player) (ps : List (Option Player))
    → Absent p.user_id ps
    → get_elem? ps k ≡ some none
    → vacate p.user_id (set ps k (sit p i)) ≡ ps
vacate-set i k p [] n e = absurd (cc)
vacate-set i zero p (none ∷ ps) n e = ground arith
vacate-set i zero p (some q ∷ ps) n e = absurd (cc)
vacate-set i (suc k) p (none ∷ ps) n e = ap (◌∷◌ none) (vacate-set i k p ps n e)
vacate-set i (suc k) p (some q ∷ ps) n e = ground (arith, vacate-set i k p ps n.1 e, n.0)

pub seat_of-set :
    (j i k : ℕ) (p : Player) (ps : List (Option Player))
    → Absent p.user_id ps
    → get_elem? ps k ≡ some none
    → seat_of_from p.user_id j (set ps k (sit p i)) ≡ some (j + k)
seat_of-set j i k p [] n e = absurd (cc)
seat_of-set j i zero p (none ∷ ps) n e = ground arith
seat_of-set j i zero p (some q ∷ ps) n e = absurd (cc)
seat_of-set j i (suc k) p (none ∷ ps) n e =
    let z : j + suc k ≡ suc j + k = omega arith in rw z (seat_of-set (suc j) i k p ps n e)
seat_of-set j i (suc k) p (some q ∷ ps) n e =
    let z : j + suc k ≡ suc j + k = omega arith in
    ground (arith, z, seat_of-set (suc j) i k p ps n.1 e, n.0)
