-- ===== src/Joining/Leaving.antt =====
-- Who sits at the table after `leave_game` of pokerapp/game_engine.py.
use poker_telegram_bot.Prelude.{
  ℕ, zero, suc, ◌+◌, ◌≡◌, ◌≢◌, ◌↔◌, refl, inl, inr, true, Option, none, some, List, [], ◌∷◌,
  get_elem?, ◌==◌, ==→eq, sym, ap, ◌∙◌, Bool-cases, Option-cases, arith,
}
use poker_telegram_bot.Entities.{
  Player, Game, seated_count, seat_of_from, vacate, seat_index_for_user, remove_player_by_user,
}
use poker_telegram_bot.Entities.Seats.{Absent, IsSeated, seat_of_from-Absent}
use poker_telegram_bot.Entities.Membership.{remove_player_by_user_lem}
use poker_telegram_bot.Validator.{Snapshot, is_initial}
use poker_telegram_bot.Tables.{Redis, pickled, number}
use poker_telegram_bot.Joining.{
  Attempt, changes, is_seated, decide_leave, decide_left, leave_decision, returned, leave_game,
  read_table,
}
use poker_telegram_bot.Joining.Tries.{Reaches, loop-Done}

-- What a leave that returns `True` has done to the table in Redis.
pub record Gone (u : ℕ) (attempts : List Attempt) (r r' : Redis) : Type 0 where
  pub attempt : Attempt
  pub before : Redis
  pub reached : Reaches (leave_decision u) attempts r attempt before
  pub loaded : Snapshot
  pub was_loaded : (read_table attempt before).0.0 ≡ some loaded
  pub next_version : r'.version ≡ some (number ((read_table attempt before).0.1 + 1))
  pub waiting : is_initial loaded.stage ≡ true
  pub was_seated : is_seated (seat_index_for_user loaded.game u) ≡ true
  pub stored :
      r'.game ≡ some (pickled (record loaded { game = (remove_player_by_user loaded.game u).1 }))
  pub others :
      (i : ℕ) (q : Player)
      → q.user_id ≢ u
      → (get_elem? (remove_player_by_user loaded.game u).1.seats i ≡ some (some q))
        ↔ (get_elem? loaded.game.seats i ≡ some (some q))
  pub left :
      IsSeated loaded.game
      → IsSeated (remove_player_by_user loaded.game u).1
        × Absent u (remove_player_by_user loaded.game u).1.seats
        × (suc (seated_count (remove_player_by_user loaded.game u).1) ≡ seated_count loaded.game)

one_less :
    (g : Game) (u : ℕ)
    → is_seated (seat_index_for_user g u) ≡ true
    → IsSeated g
    → IsSeated (remove_player_by_user g u).1
      × Absent u (remove_player_by_user g u).1.seats
      × (suc (seated_count (remove_player_by_user g u).1) ≡ seated_count g)
one_less g u h w =
    let (well, gone, count) = remove_player_by_user_lem g u w in
    elim count [
      | inl (_, fewer) ↦ (well, gone, fewer)
      | inr (_, absent) ↦ absurd (ground (arith, seat_of_from-Absent u 0 g.seats absent))
    ]

vacate-others :
    (u i : ℕ) (q : Player) (ps : List (Option Player))
    → q.user_id ≢ u
    → (get_elem? (vacate u ps) i ≡ some (some q)) ↔ (get_elem? ps i ≡ some (some q))
vacate-others u i q [] n = ((λ h. h), λ h. h)
vacate-others u zero q (none ∷ ps) n = ((λ h. h), λ h. h)
vacate-others u (suc i) q (none ∷ ps) n = vacate-others u i q ps n
vacate-others u i q (some p ∷ ps) n = elim (Bool-cases (p.user_id == u)) [
  | inl here ↦ rw here (first_free (==→eq p.user_id u here) i)
  | inr there ↦ rw there (same_first i (λ k. vacate-others u k q ps n))
]
  where
    taken_by : p.user_id ≡ u → some (some p) ≡ some (some q) → q.user_id ≡ u
    taken_by here h = let e : p ≡ q = cc in ap (λ (x : Player). x.user_id) (sym e) ∙ here

    first_free :
        p.user_id ≡ u
        → (i : ℕ)
        → (get_elem? (none ∷ ps) i ≡ some (some q)) ↔ (get_elem? (some p ∷ ps) i ≡ some (some q))
    first_free here zero = ((λ h. absurd (cc)), λ h. absurd (n (taken_by here h)))
    first_free here (suc i) = ((λ h. h), λ h. h)

    same_first :
        (i : ℕ)
        → ((k : ℕ) → (get_elem? (vacate u ps) k ≡ some (some q)) ↔ (get_elem? ps k ≡ some (some q)))
        → (get_elem? (some p ∷ vacate u ps) i ≡ some (some q))
          ↔ (get_elem? (some p ∷ ps) i ≡ some (some q))
    same_first zero rest = ((λ h. h), λ h. h)
    same_first (suc i) rest = rest i

removal-others :
    (g : Game) (u i : ℕ) (q : Player)
    → q.user_id ≢ u
    → (get_elem? (remove_player_by_user g u).1.seats i ≡ some (some q))
      ↔ (get_elem? g.seats i ≡ some (some q))
unfolding remove_player_by_user
removal-others g u i q n = elim (Option-cases (seat_of_from u 0 g.seats)) [
  | inl e ↦ rw (remove_player_by_user, e) ((λ h. h), λ h. h)
  | inr (k, e) ↦ rw (remove_player_by_user, e) (vacate-others u i q g.seats n)
]

decide_leave-Gone :
    (u : ℕ) (attempts : List Attempt) (r : Redis) (a : Attempt) (before : Redis)
    (found : Option Snapshot) (s' : Snapshot) (r' : Redis)
    → Reaches (leave_decision u) attempts r a before
    → (read_table a before).0.0 ≡ found
    → decide_left u found ≡ changes s'
    → r'.game ≡ some (pickled s')
    → r'.version ≡ some (number ((read_table a before).0.1 + 1))
    → Gone u attempts r r'
unfolding decide_leave
decide_leave-Gone u attempts r a before none s' r' reached read h e v = absurd (cc)
decide_leave-Gone u attempts r a before (some s) s' r' reached read h e v =
    elim (Bool-cases (is_seated (seat_index_for_user s.game u))) [
      | inr k ↦ absurd (ground (arith, k))
      | inl known ↦ elim (Bool-cases (is_initial s.stage)) [
        | inr k ↦ absurd (ground (arith, known, k))
        | inl waiting ↦
            let same : changes (record s { game = (remove_player_by_user s.game u).1 })
                ≡ changes s' =
              rw (known, waiting) at h in
            record {
              attempt = a;
              before = before;
              reached = reached;
              loaded = s;
              was_loaded = read;
              next_version = v;
              waiting = waiting;
              was_seated = known;
              stored = cc;
              others = removal-others s.game u;
              left = one_less s.game u known;
            }
      ]
    ]

-- When `leave_game` returns `True`, one of its attempts, which came after those that met a
-- conflict, loaded a game in its initial stage with the user at the table. Redis then holds this
-- game without the user, under the version after the one that was loaded: every other player sits
-- where that player sat, nobody else does, and all else of the game is as it was loaded; if the
-- seats were well formed they still are, the user has none, and there is exactly one player less.
pub leave_game_frees :
    (u : ℕ) (attempts : List Attempt) (r : Redis)
    → (leave_game u attempts r).0 ≡ returned true
    → Gone u attempts r (leave_game u attempts r).1
unfolding leave_game
leave_game_frees u attempts r h =
    let done = loop-Done (leave_decision u) attempts r h in
    decide_leave-Gone u attempts r done.attempt done.before _ done.decided _ done.reached refl
      done.decision done.stored done.version
