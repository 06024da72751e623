-- ===== src/Entities/Membership.antt =====
-- What taking a seat and leaving it do to a table, over pokerapp/entities.py's `add_player` and
-- `remove_player_by_user`.
use poker_telegram_bot.Prelude.{
  ℕ, suc, ◌+◌, ◌≡◌, refl, ◌∙◌, ◌⊎◌, inl, inr, true, false, Option, none, some, List, [], ◌∷◌,
  length, get_elem?, set, arith, pos, minus_one, Option-cases, Bool-cases, ◌==◌, length-set, ap,
}
use poker_telegram_bot.Entities.{
  Game, Player, occupied, seat_of_from, free_seat_from, max_players, seated_count,
  seat_index_for_user, assign_seat_for_user, occupied_seat, index_error, seated, refused, place,
  place_at, add_player, vacate, remove_player_by_user,
}
use poker_telegram_bot.Entities.Seats.{
  Indexed, Absent, OnePerUser, IsSeated, seat_of_from-Absent, Absent-seat_of_from, sit, seat_of_lem,
  free_seat_lem, full_lem, Indexed-set, OnePerUser-set, occupied-set, vacate-set, seat_of-set,
}

-- The table after `p` sat down at seat `k`.
abbrev pub after_sitting : Game → Player → ℕ → Game
after_sitting g p k = record g { seats = set g.seats k (sit p k) }

place-free :
    (g : Game) (p : Player) (k : ℕ)
    → get_elem? g.seats k ≡ some none
    → place g p k ≡ seated (pos k) (after_sitting g p k)
unfolding place
place-free g p k e = ground arith

pub IsSeated-set :
    (g : Game) (p : Player) (k : ℕ)
    → IsSeated g
    → Absent p.user_id g.seats
    → get_elem? g.seats k ≡ some none
    → IsSeated (after_sitting g p k)
IsSeated-set g p k s n e =
    let z : 0 + k ≡ k = omega arith in
    record {
      eight = length-set g.seats k (sit p k) ∙ s.eight;
      indexed = rw z at (Indexed-set p 0 k g.seats s.indexed e);
      one_each = OnePerUser-set k k p g.seats n s.one_each e;
    }

-- What `add_player` does for a user who takes the free seat `k`.
pub record SatDown (g : Game) (p : Player) (k : ℕ) : Type 0 where
  pub was_free : get_elem? g.seats k ≡ some none
  pub first_free : free_seat_from 0 g.seats ≡ some k
  pub result : add_player g p none ≡ seated (pos k) (after_sitting g p k)
  pub well_formed : IsSeated (after_sitting g p k)
  pub one_more : seated_count (after_sitting g p k) ≡ suc (seated_count g)
  pub known : seat_index_for_user (after_sitting g p k) p.user_id ≡ pos k
  pub undone : remove_player_by_user (after_sitting g p k) p.user_id ≡ (true, g)

-- A user who is not at a well-formed table gets the first free seat of it: the table stays
-- well-formed with one player more, the user is found at that seat, and removing the user gives
-- the table back. Where no seat is free the answer is -1, eight players sit, and nothing changes.
pub add_player_new :
    (g : Game) (p : Player)
    → IsSeated g
    → Absent p.user_id g.seats
    → ((k : ℕ) × SatDown g p k)
      ⊎ ((add_player g p none ≡ seated minus_one g) × (seated_count g ≡ max_players))
unfolding add_player place_at assign_seat_for_user remove_player_by_user
add_player_new g p s n =
    let unknown = seat_of_from-Absent p.user_id 0 g.seats n in
    elim (Option-cases (free_seat_from 0 g.seats)) [
      | inl full ↦ inr (ground (arith, unknown, full), full_lem 0 g.seats full ∙ s.eight)
      | inr (k, free) ↦
          let (d, same, e) = free_seat_lem 0 g.seats free in
          let e' : get_elem? g.seats k ≡ some none = ground (arith, same, e) in
          let found = seat_of-set 0 k k p g.seats n e' in
          inl (
            k,
            record {
              was_free = e';
              first_free = free;
              result = ground (arith, unknown, free, place-free g p k e');
              well_formed = IsSeated-set g p k s n e';
              one_more = occupied-set k k p g.seats e';
              known = ground (arith, found);
              undone = ground (arith, found, vacate-set k k p g.seats n e');
            },
          )
    ]

-- A user who already sits at the table is refused, and so is anybody at a seat that is taken or
-- that the table does not have.
add_player_refused :
    (g : Game) (p : Player) (k : ℕ)
    → ((i : ℕ)
        → seat_of_from p.user_id 0 g.seats ≡ some i
        → add_player g p none ≡ refused occupied_seat)
      × ((q : Player)
          → get_elem? g.seats k ≡ some (some q)
          → add_player g p (some k) ≡ refused occupied_seat)
      × (get_elem? g.seats k ≡ none → add_player g p (some k) ≡ refused index_error)
unfolding add_player place place_at assign_seat_for_user
add_player_refused g p k = (
  λ i known.
      let (d, q, same, e, _) = seat_of_lem p.user_id 0 g.seats known in
      let e' : get_elem? g.seats i ≡ some (some q) = ground (arith, same, e) in
      ground (arith, known, e'),
  λ q e. ground arith,
  λ e. ground arith,
)

length-vacate : (u : ℕ) (ps : List (Option Player)) → length (vacate u ps) ≡ length ps
length-vacate u [] = refl
length-vacate u (none ∷ ps) = ap suc (length-vacate u ps)
length-vacate u (some p ∷ ps) = ground (arith, length-vacate u ps)

Indexed-vacate : (u i : ℕ) (ps : List (Option Player)) → Indexed i ps → Indexed i (vacate u ps)
Indexed-vacate u i [] h = tt
Indexed-vacate u i (none ∷ ps) h = Indexed-vacate u (suc i) ps h
Indexed-vacate u i (some p ∷ ps) h = elim (Bool-cases (p.user_id == u)) [
  | inl here ↦ rw here h.1
  | inr there ↦ rw there (h.0, Indexed-vacate u (suc i) ps h.1)
]

Absent-vacate : (u v : ℕ) (ps : List (Option Player)) → Absent v ps → Absent v (vacate u ps)
Absent-vacate u v [] h = tt
Absent-vacate u v (none ∷ ps) h = Absent-vacate u v ps h
Absent-vacate u v (some p ∷ ps) h = elim (Bool-cases (p.user_id == u)) [
  | inl here ↦ rw here h.1
  | inr there ↦ rw there (h.0, Absent-vacate u v ps h.1)
]

OnePerUser-vacate : (u : ℕ) (ps : List (Option Player)) → OnePerUser ps → OnePerUser (vacate u ps)
OnePerUser-vacate u [] h = tt
OnePerUser-vacate u (none ∷ ps) h = OnePerUser-vacate u ps h
OnePerUser-vacate u (some p ∷ ps) h = elim (Bool-cases (p.user_id == u)) [
  | inl here ↦ rw here h.1
  | inr there ↦ rw there (Absent-vacate u p.user_id ps h.0, OnePerUser-vacate u ps h.1)
]

Absent-same : (u v : ℕ) (ps : List (Option Player)) → u ≡ v → Absent u ps → Absent v ps
Absent-same u v ps e h = rw e at h

Absent-vacate_self : (u : ℕ) (ps : List (Option Player)) → OnePerUser ps → Absent u (vacate u ps)
Absent-vacate_self u [] h = tt
Absent-vacate_self u (none ∷ ps) h = Absent-vacate_self u ps h
Absent-vacate_self u (some p ∷ ps) h = elim (Bool-cases (p.user_id == u)) [
  | inl here ↦ rw here (Absent-same p.user_id u ps (ground arith) h.0)
  | inr there ↦ rw there (ground arith, Absent-vacate_self u ps h.1)
]

occupied-vacate :
    (u i : ℕ) (ps : List (Option Player)) {k : ℕ}
    → seat_of_from u i ps ≡ some k
    → suc (length (occupied (vacate u ps))) ≡ length (occupied ps)
occupied-vacate u i [] h = absurd (cc)
occupied-vacate u i (none ∷ ps) h = occupied-vacate u (suc i) ps h
occupied-vacate u i (some p ∷ ps) h = elim (Bool-cases (p.user_id == u)) [
  | inl here ↦ rw here
  | inr there ↦ rw there (ap suc (occupied-vacate u (suc i) ps (rw there at h)))
]

-- After `remove_player_by_user` on a well-formed table the user is gone and the table is still
-- well-formed; with the answer `true` exactly one player left, with `false` nothing changed, and
-- that is the answer exactly when the user was not there.
pub remove_player_by_user_lem :
    (g : Game) (u : ℕ)
    → IsSeated g
    → IsSeated (remove_player_by_user g u).1
      × Absent u (remove_player_by_user g u).1.seats
      × (((remove_player_by_user g u).0 ≡ true)
            × (suc (seated_count (remove_player_by_user g u).1) ≡ seated_count g)
          ⊎ ((remove_player_by_user g u ≡ (false, g)) × Absent u g.seats))
unfolding remove_player_by_user
remove_player_by_user_lem g u s = elim (Option-cases (seat_of_from u 0 g.seats)) [
  | inl unknown ↦
      let gone = Absent-seat_of_from u 0 g.seats unknown in
      rw (unknown, remove_player_by_user) (s, gone, inr (refl, gone))
  | inr (k, known) ↦
      rw (known, remove_player_by_user)
        (
          record {
            eight = length-vacate u g.seats ∙ s.eight;
            indexed = Indexed-vacate u 0 g.seats s.indexed;
            one_each = OnePerUser-vacate u g.seats s.one_each;
          },
          Absent-vacate_self u g.seats s.one_each,
          inl (refl, occupied-vacate u 0 g.seats known),
        )
]
