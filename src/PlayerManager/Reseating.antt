-- ===== src/PlayerManager/Reseating.antt =====
-- `reseat_players` of pokerapp/player_manager.py loses nobody.
use mathlib.Core.Path.{subst}
use native.Mathlib.Decide.{dec_lt}
use poker_telegram_bot.Prelude.{
  ℕ, zero, suc, ◌+◌, ◌≡◌, ◌<◌, ◌≤◌, refl, ap, ◌∙◌, inl, inr, true, false, not, Option, none, some,
  List, [], ◌∷◌, length, length-set, get_elem?, set, replicate, sum_by, ltb, leb, leb→le, ◌&&◌,
  Bool-cases, Option-cases, arith,
}
use poker_telegram_bot.Entities.{Player, Game, occupied, players}
use poker_telegram_bot.Entities.Seats.{Indexed, sit, Indexed-set, occupied-set}
use poker_telegram_bot.PlayerManager.{
  is_free, own_seat, next_free, take_seat, reseat_loop, reseat_players,
}

Free : List (Option Player) → ℕ → Type 0
Free seats i = get_elem? seats i ≡ some none

free_lem :
    (seats : List (Option Player)) (i : ℕ) → is_free seats i ≡ true → get_elem? seats i ≡ some none
free_lem seats i h = by_seat (get_elem? seats i) refl
  where
    by_seat : (o : Option (Option Player)) → get_elem? seats i ≡ o → get_elem? seats i ≡ some none
    by_seat none e = absurd (ground (arith))
    by_seat (some none) e = e
    by_seat (some (some p)) e = absurd (ground (arith))

own_seat_lem :
    (seats : List (Option Player)) (p : Player) (i : ℕ)
    → own_seat seats p ≡ some i
    → get_elem? seats i ≡ some none
own_seat_lem seats p i h = by_index p.seat_index refl
  where
    by_index : (o : Option ℕ) → p.seat_index ≡ o → get_elem? seats i ≡ some none
    by_index none e = absurd (ground (arith))
    by_index (some j) e = elim (Bool-cases (is_free seats j)) [
      | inl f ↦
          let same : j ≡ i = ground (arith) in
          subst (λ k. get_elem? seats k ≡ some none) same (free_lem seats j f)
      | inr f ↦ absurd (ground (arith))
    ]

-- Where no seat is free all are taken.
all_taken :
    (seats : List (Option Player))
    → ((i : ℕ) → i < length seats → is_free seats i ≡ false)
    → length (occupied seats) ≡ length seats
all_taken [] h = refl
all_taken (none ∷ seats) h = absurd (ground (arith, h 0))
all_taken (some p ∷ seats) h = ap suc (all_taken seats (λ i l. h (suc i) (omega arith)))

-- The loop stops at a free seat, or past the table; the seats that it passed are taken.
record Stopped (seats : List (Option Player)) (from r : ℕ) : Type 0 where
  past : from ≤ r
  free : r < length seats → is_free seats r ≡ true
  taken : (i : ℕ) → from ≤ i → i < r → is_free seats i ≡ false

next_free_lem :
    (fuel : ℕ) (seats : List (Option Player)) (i : ℕ)
    → length seats ≤ fuel + i
    → Stopped seats i (next_free fuel seats i)
unfolding next_free
next_free_lem zero seats i h = record {
  past = omega arith;
  free = λ l. absurd (omega arith);
  taken = λ j a b. absurd (omega arith);
}
next_free_lem (suc n) seats i h =
    elim (Bool-cases (ltb i (length seats) && not (is_free seats i))) [
      | inr e ↦
          rw (next_free, e)
            (record {
              past = omega arith;
              free = λ l. ground (arith);
              taken = λ j a b. absurd (omega arith);
            })
      | inl e ↦
          rw (next_free, e)
            (let s = next_free_lem n seats (suc i) (omega arith) in
              record {
                past = omega (arith, s.past);
                free = s.free;
                taken = λ j a b. elim (dec_lt i j) [
                  | yes l ↦ s.taken j (omega arith) b
                  | no l ↦
                      let same : i ≡ j = omega arith in
                      subst (λ k. is_free seats k ≡ false) same (ground (arith))
                ];
              })
    ]

-- A quantity of a player that does not depend on the seat.
abbrev pub Seatless : (Player → ℕ) → Type 0
Seatless f = (p : Player) (i : ℕ) → f (record p { seat_index = some i }) ≡ f p

sum-set :
    (f : Player → ℕ) (p : Player) (i k : ℕ) (seats : List (Option Player))
    → Seatless f
    → get_elem? seats k ≡ some none
    → sum_by f (occupied (set seats k (sit p i))) ≡ f p + sum_by f (occupied seats)
sum-set f p i k [] same e = cc
sum-set f p i zero (none ∷ seats) same e = omega (arith, same p i)
sum-set f p i zero (some q ∷ seats) same e = absurd (cc)
sum-set f p i (suc k) (none ∷ seats) same e = sum-set f p i k seats same e
sum-set f p i (suc k) (some q ∷ seats) same e = omega (arith, sum-set f p i k seats same e)

taken-set :
    (seats : List (Option Player)) (q : Player) (k j : ℕ)
    → is_free seats j ≡ false
    → is_free (set seats k (some q)) j ≡ false
taken-set [] q k j h = h
taken-set (s ∷ seats) q zero zero h = refl
taken-set (s ∷ seats) q zero (suc j) h = h
taken-set (s ∷ seats) q (suc k) zero h = h
taken-set (s ∷ seats) q (suc k) (suc j) h = taken-set seats q k j h

set-taken :
    (seats : List (Option Player)) (q : Player) (k : ℕ)
    → k < length seats
    → is_free (set seats k (some q)) k ≡ false
set-taken [] q k h = elim h [ ]
set-taken (s ∷ seats) q zero h = refl
set-taken (s ∷ seats) q (suc k) h = set-taken seats q k (omega arith)

-- How the loop stands: the players so far know their seats, there is room for those to come, and
-- no seat below the next index is free.
record Going (seats : List (Option Player)) (next : ℕ) (ps : List Player) : Type 0 where
  indexed : Indexed 0 seats
  room : length (occupied seats) + length ps ≤ length seats
  below : (i : ℕ) → i < next → is_free seats i ≡ false

-- Everybody sits in the end, and knows the seat.
record Seated (seats : List (Option Player)) (ps : List Player) (r : List (Option Player))
    : Type 0 where
  indexed : Indexed 0 r
  as_long : length r ≡ length seats
  all_there :
      (f : Player → ℕ)
      → Seatless f
      → sum_by f (occupied r) ≡ sum_by f (occupied seats) + sum_by f ps

take-Going :
    (p : Player) (ps : List Player) (seats : List (Option Player)) (next next' k : ℕ)
    → get_elem? seats k ≡ some none
    → Going seats next (p ∷ ps)
    → ((i : ℕ) → i < next' → is_free (take_seat p k seats) i ≡ false)
    → Going (take_seat p k seats) next' ps
take-Going p ps seats next next' k e g below =
    let z : 0 + k ≡ k = omega arith in
    record {
      indexed = rw z at (Indexed-set p 0 k seats g.indexed e);
      room = omega (arith, g.room, occupied-set k k p seats e, length-set seats k (sit p k));
      below = below;
    }

take-Seated :
    (p : Player) (ps : List Player) (seats : List (Option Player)) (k : ℕ)
    (r : List (Option Player))
    → get_elem? seats k ≡ some none
    → Seated (take_seat p k seats) ps r
    → Seated seats (p ∷ ps) r
take-Seated p ps seats k r e s = record {
  indexed = s.indexed;
  as_long = s.as_long ∙ length-set seats k (sit p k);
  all_there = λ f same. omega (arith, s.all_there f same, sum-set f p k k seats same e);
}

reseat_loop-Seated :
    (ps : List Player) (next : ℕ) (seats : List (Option Player))
    → Going seats next ps
    → Seated seats ps (reseat_loop ps next seats)
unfolding reseat_loop
reseat_loop-Seated [] next seats g = record {
  indexed = g.indexed;
  as_long = refl;
  all_there = λ f same. omega arith;
}
reseat_loop-Seated (p ∷ ps) next seats g = elim (Option-cases (own_seat seats p)) [
  | inr (i, e) ↦
      let there = own_seat_lem seats p i e in
      rw (reseat_loop, e)
        (take-Seated p ps seats i _ there (
          reseat_loop-Seated ps next (take_seat p i seats) (
            take-Going p ps seats next next i there g
              (λ j l. taken-set seats (record p { seat_index = some i }) i j (g.below j l)))))
  | inl e ↦
      rw (reseat_loop, e)
        (elim (Bool-cases (leb (length seats) i)) [
          | inl full ↦
              absurd
                (omega (arith, g.room, all_taken seats (none_free (leb→le (length seats) i full))))
          | inr room ↦ rw room (
              let free = free_lem seats i (stop.free (ground (arith))) in
              take-Seated p ps seats i _ free (
                reseat_loop-Seated ps (suc i) (take_seat p i seats)
                  (take-Going p ps seats next (suc i) i free g (passed (ground (arith))))))
        ])
]
  where
    i : ℕ
    i = next_free (length seats) seats next

    stop : Stopped seats next (next_free (length seats) seats next)
    stop = next_free_lem (length seats) seats next (omega arith)

    none_free :
        length seats ≤ next_free (length seats) seats next
        → (j : ℕ) → j < length seats
        → is_free seats j ≡ false
    none_free full j l = elim (dec_lt j next) [
      | yes b ↦ g.below j b
      | no b ↦ stop.taken j (omega arith) (omega arith)
    ]

    passed :
        next_free (length seats) seats next < length seats
        → (j : ℕ) → j < suc (next_free (length seats) seats next)
        → is_free (take_seat p (next_free (length seats) seats next) seats) j ≡ false
    passed room j l = elim (dec_lt j i) [
      | yes b ↦
          taken-set seats (record p { seat_index = some i }) i j
            (elim (dec_lt j next) [ yes c ↦ g.below j c | no c ↦ stop.taken j (omega arith) b ])
      | no b ↦
          let same : i ≡ j = omega arith in
          subst (λ k. is_free (take_seat p i seats) k ≡ false) same
            (set-taken seats (record p { seat_index = some i }) i room)
    ]

nobody : (n : ℕ) → occupied (replicate n none) ≡ []
nobody zero = refl
nobody (suc n) = nobody n

nobody-Indexed : (i n : ℕ) → Indexed i (replicate n none)
nobody-Indexed i zero = tt
nobody-Indexed i (suc n) = nobody-Indexed (suc i) n

length-replicate : (n : ℕ) → length (replicate {A = Option Player} n none) ≡ n
length-replicate zero = refl
length-replicate (suc n) = ap suc (length-replicate n)

occupied-le : (seats : List (Option Player)) → length (occupied seats) ≤ length seats
occupied-le [] = omega arith
occupied-le (none ∷ seats) = omega (arith, occupied-le seats)
occupied-le (some p ∷ seats) = omega (arith, occupied-le seats)

-- Reseating loses nobody, whatever seats the players thought were theirs: the table has as many
-- seats as before, every player's seat index is the seat, and every sum over the players of a
-- quantity that does not depend on the seat is the same, so that each player sits there as often
-- as before.
pub reseat_players_keeps :
    (g : Game)
    → Indexed 0 (reseat_players g).seats
      × (length (reseat_players g).seats ≡ length g.seats)
      × ((f : Player → ℕ)
          → Seatless f
          → sum_by f (players (reseat_players g)) ≡ sum_by f (players g))
unfolding reseat_players
reseat_players_keeps g = (
  s.indexed,
  s.as_long ∙ length-replicate (length g.seats),
  λ f same.
      s.all_there f same
      ∙ ap (λ l. sum_by f l + sum_by f (players g)) (nobody (length g.seats))
      ∙ zero_add _,
)
  where
    s :
        Seated
          (replicate (length g.seats) none)
          (players g)
          (reseat_loop (players g) 0 (replicate (length g.seats) none))
    s = reseat_loop-Seated (players g) 0 (replicate (length g.seats) none) (record {
      indexed = nobody-Indexed 0 (length g.seats);
      room = omega (
        arith,
        ap (λ l. length l) (nobody (length g.seats)),
        length-replicate (length g.seats),
        occupied-le g.seats,
      );
      below = λ i l. absurd (omega arith);
    })

    zero_add : (n : ℕ) → 0 + n ≡ n
    zero_add n = omega arith
