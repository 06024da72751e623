-- ===== src/Joining/Seats.antt =====
-- Who sits at the table after `join_game` and `leave_game` of pokerapp/game_engine.py.
use poker_telegram_bot.Prelude.{
  ℕ, zero, suc, ◌+◌, ◌-◌, ◌≡◌, ◌<◌, refl, ap, ◌∙◌, inl, inr, ◌↔◌, true, false, Option, none, some,
  List, [], ◌∷◌, length, get_elem?, set, get_elem?-set_ne, ◌≢◌, leb, Bool-cases, Option-cases,
  arith, pos,
}
use poker_telegram_bot.Entities.{
  Player, Game, seated_count, seat_of_from, free_seat_from, seat_index_for_user, add_player,
}
use poker_telegram_bot.Entities.Seats.{
  Absent, IsSeated, sit, Absent-seat_of_from, seat_of_from-Absent, full_lem, occupied-set,
  seat_of-set,
}
use poker_telegram_bot.Entities.Membership.{after_sitting, IsSeated-set}
use poker_telegram_bot.Validator.{Snapshot, is_initial}
use poker_telegram_bot.Tables.{Redis, pickled, number}
use poker_telegram_bot.Joining.{
  Attempt, raises, changes, is_seated, decide_join, seat_at, free_indices, range_from,
  get_available_seats, read_table, returned, table_of, join_decision, join_game,
}
use poker_telegram_bot.Joining.Tries.{Reaches, loop-Done}

get_elem?-set_taken :
    (ps : List (Option Player)) (k : ℕ) (q : Option Player) {o : Option Player}
    → get_elem? ps k ≡ some o
    → get_elem? (set ps k q) k ≡ some q
get_elem?-set_taken [] k q e = absurd (cc)
get_elem?-set_taken (x ∷ ps) zero q e = refl
get_elem?-set_taken (x ∷ ps) (suc k) q e = get_elem?-set_taken ps k q e

-- What `join_game` decides on a game, when it lets the player in.
record LetIn (p : Player) (s s' : Snapshot) : Type 0 where
  waiting : is_initial s.stage ≡ true
  absent : Absent p.user_id s.game.seats
  seat : ℕ
  was_free : get_elem? s.game.seats seat ≡ some none
  result : s' ≡ record s { game = after_sitting s.game p seat }

seat_at-LetIn :
    (p : Player) (s s' : Snapshot) (k : ℕ) (rest : List ℕ)
    → is_initial s.stage ≡ true
    → Absent p.user_id s.game.seats
    → seat_at s p (k ∷ rest) ≡ changes s'
    → LetIn p s s'
unfolding add_player
seat_at-LetIn p s s' k rest waiting absent h = by_seat (get_elem? s.game.seats k) refl
  where
    by_seat : (o : Option (Option Player)) → get_elem? s.game.seats k ≡ o → LetIn p s s'
    by_seat none e = absurd (ground (arith))
    by_seat (some (some q)) e = absurd (ground (arith))
    by_seat (some none) e = record {
      waiting = waiting;
      absent = absent;
      seat = k;
      was_free = e;
      result = ground (arith);
    }

absent_lem : (g : Game) (u : ℕ) → is_seated (seat_index_for_user g u) ≡ false → Absent u g.seats
absent_lem g u h = elim (Option-cases (seat_of_from u 0 g.seats)) [
  | inl e ↦ Absent-seat_of_from u 0 g.seats e
  | inr (k, e) ↦ absurd (ground (arith, e))
]

seat_found-LetIn :
    (p : Player) (s s' : Snapshot) (ks : List ℕ)
    → is_initial s.stage ≡ true
    → Absent p.user_id s.game.seats
    → seat_at s p ks ≡ changes s'
    → LetIn p s s'
seat_found-LetIn p s s' [] waiting absent h = absurd (cc)
seat_found-LetIn p s s' (k ∷ ks) waiting absent h = seat_at-LetIn p s s' k ks waiting absent h

decide_join-LetIn :
    (max_seats : ℕ) (p : Player) (s s' : Snapshot)
    → decide_join max_seats p s ≡ changes s'
    → LetIn p s s'
unfolding decide_join
decide_join-LetIn max_seats p s s' h = elim (Bool-cases (is_initial s.stage)) [
  | inr e ↦ absurd (ground (arith, e))
  | inl waiting ↦ elim (Bool-cases (is_seated (seat_index_for_user s.game p.user_id))) [
    | inl e ↦ absurd (ground (arith, waiting, e))
    | inr unknown ↦ elim (Bool-cases (leb max_seats (seated_count s.game))) [
      | inl e ↦ absurd (ground (arith, waiting, unknown, e))
      | inr room ↦
          seat_found-LetIn p s s' (get_available_seats max_seats s.game.seats) waiting
            (absent_lem s.game p.user_id unknown) (rw (waiting, unknown, room) at h)
    ]
  ]
]

-- What a join that returns `True` has done to the table in Redis.
pub record Joined (max_seats : ℕ) (p : Player) (attempts : List Attempt) (r r' : Redis)
    : Type 0 where
  pub attempt : Attempt
  pub before : Redis
  pub reached : Reaches (join_decision max_seats p) attempts r attempt before
  pub loaded : Snapshot
  pub was_loaded : table_of attempt (read_table attempt before).0.0 ≡ loaded
  pub next_version : r'.version ≡ some (number ((read_table attempt before).0.1 + 1))
  pub seat : ℕ
  pub waiting : is_initial loaded.stage ≡ true
  pub absent : Absent p.user_id loaded.game.seats
  pub was_free : get_elem? loaded.game.seats seat ≡ some none
  pub stored : r'.game ≡ some (pickled (record loaded { game = after_sitting loaded.game p seat }))
  pub found : seat_index_for_user (after_sitting loaded.game p seat) p.user_id ≡ pos seat
  pub taken : get_elem? (after_sitting loaded.game p seat).seats seat ≡ some (sit p seat)
  pub others :
      (i : ℕ)
      → seat ≢ i
      → get_elem? (after_sitting loaded.game p seat).seats i ≡ get_elem? loaded.game.seats i
  pub one_more : seated_count (after_sitting loaded.game p seat) ≡ suc (seated_count loaded.game)
  pub well_formed : IsSeated loaded.game → IsSeated (after_sitting loaded.game p seat)

Joined-LetIn :
    (max_seats : ℕ) (attempts : List Attempt) (a : Attempt) (r before : Redis) (p : Player)
    (s' : Snapshot) (r' : Redis)
    → Reaches (join_decision max_seats p) attempts r a before
    → LetIn p (table_of a (read_table a before).0.0) s'
    → r'.game ≡ some (pickled s')
    → r'.version ≡ some (number ((read_table a before).0.1 + 1))
    → Joined max_seats p attempts r r'
Joined-LetIn max_seats attempts a r before p s' r' reached l e v =
    let s = table_of a (read_table a before).0.0 in
    let at = seat_of-set 0 l.seat l.seat p s.game.seats l.absent l.was_free in
    record {
      attempt = a;
      before = before;
      reached = reached;
      loaded = s;
      was_loaded = refl;
      next_version = v;
      seat = l.seat;
      waiting = l.waiting;
      absent = l.absent;
      was_free = l.was_free;
      stored = e ∙ ap (λ x. some (pickled x)) l.result;
      found = ground (arith, at);
      taken = get_elem?-set_taken s.game.seats l.seat (sit p l.seat) l.was_free;
      others = λ i n. get_elem?-set_ne s.game.seats l.seat i (sit p l.seat) n;
      one_more = occupied-set l.seat l.seat p s.game.seats l.was_free;
      well_formed = λ w. IsSeated-set s.game p l.seat w l.absent l.was_free;
    }

-- When `join_game` returns `True`, one of its attempts, which came after those that met a conflict,
-- loaded a game (or made a new one where none was stored) in its initial stage and without the
-- user. Redis then holds this game with the user at a seat that was free, under the version after
-- the one that was loaded: the user is found at that seat, every other seat and all else of the
-- game is as it was loaded, one more player is at the table, and the seats stay well formed if they
-- were.
pub join_game_seats :
    (max_seats : ℕ) (p : Player) (attempts : List Attempt) (r : Redis)
    → (join_game max_seats p attempts r).0 ≡ returned true
    → Joined max_seats p attempts r (join_game max_seats p attempts r).1
unfolding join_game
join_game_seats max_seats p attempts r h =
    let done = loop-Done (join_decision max_seats p) attempts r h in
    Joined-LetIn max_seats attempts done.attempt r done.before p done.decided _ done.reached
      (decide_join-LetIn max_seats p _ done.decided done.decision) done.stored done.version

no_free_indices :
    (i j n : ℕ) (seats : List (Option Player))
    → free_seat_from j seats ≡ none
    → free_indices i n seats ≡ []
no_free_indices i j zero seats h = refl
no_free_indices i j (suc n) [] h = refl
no_free_indices i j (suc n) (none ∷ seats) h = absurd (cc)
no_free_indices i j (suc n) (some p ∷ seats) h = no_free_indices (suc i) (suc j) n seats h

past_end : (seats : List (Option Player)) → get_elem? seats (length seats) ≡ none
past_end [] = refl
past_end (_ ∷ seats) = past_end seats

first_of_range : (i n : ℕ) → 0 < n → (m : ℕ) × (range_from i n ≡ i ∷ range_from (suc i) m)
first_of_range i zero h = absurd (omega arith)
first_of_range i (suc n) h = (n, refl)

past_table :
    (max_seats : ℕ) (p : Player) (s : Snapshot)
    → free_seat_from 0 s.game.seats ≡ none
    → length s.game.seats < max_seats
    → seat_at s p (get_available_seats max_seats s.game.seats) ≡ raises
unfolding get_available_seats add_player
past_table max_seats p s full more =
    let room : 0 < max_seats - length s.game.seats = omega arith in
    let (m, starts) = first_of_range (length s.game.seats) (max_seats - length s.game.seats) room in
    rw (no_free_indices 0 0 max_seats s.game.seats full, starts)
      (ground (arith, past_end s.game.seats))

-- At a table without a free seat, in its initial stage, a user who is not seated gets an exception
-- from `join_game`'s tests if and only if the setting allows more players than the table has seats.
pub full_table_raises :
    (max_seats : ℕ) (p : Player) (s : Snapshot)
    → is_initial s.stage ≡ true
    → Absent p.user_id s.game.seats
    → free_seat_from 0 s.game.seats ≡ none
    → (decide_join max_seats p s ≡ raises) ↔ (length s.game.seats < max_seats)
unfolding decide_join
full_table_raises max_seats p s waiting absent full =
    let e = seat_of_from-Absent p.user_id 0 s.game.seats absent in
    let unknown : is_seated (seat_index_for_user s.game p.user_id) ≡ false = ground (arith, e) in
    let count = full_lem 0 s.game.seats full in
    elim (Bool-cases (leb max_seats (length s.game.seats))) [
      | inl few ↦ (
        (λ h. absurd (ground (arith, waiting, unknown, count, few))),
        λ h. absurd (ground (arith)),
      )
      | inr e ↦
          let more : length s.game.seats < max_seats = ground (arith) in
          (
            (λ h. more),
            λ h. rw (waiting, unknown, seated_count, count, e) (past_table max_seats p s full more),
          )
    ]
