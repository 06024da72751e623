-- ===== src/Play/Rounds.antt =====
-- Whose turn comes next and when a betting round is over: `_find_next_active_player_index`,
-- `_is_betting_round_over` and `_process_playing` of pokerapp/pokerbotmodel.py.
pub mod Seats
use mathlib.Core.Path.{subst}
use poker_telegram_bot.Prelude.{
  ℕ, zero, suc, ◌+◌, ◌%◌, ◌<◌, ◌≡◌, refl, sym, ◌∙◌, ◌⊎◌, inl, inr, true, false, ◌||◌, Option, none,
  some, List, [], ◌∷◌, get_elem?, length, all, All, leb, ◌==◌, arith, Bool-cases, Option-cases, ℤ,
  pos, minus_one, ap,
}
use poker_telegram_bot.Entities.{
  Player, Game, occupied, players, contenders, active_players, player_at, get_player_by_seat,
  is_state, active, seated_count,
}
use poker_telegram_bot.WalletManager.{Purse}
use poker_telegram_bot.Play.{
  Processed, is_betting_round_over, scan_active, index_after, find_next_active_player_index,
}
use poker_telegram_bot.Play.Turn.{
  give_turn, next_turn, act_on, TurnCalls, game_loaded, handle_locked_player_action, LockReply,
  lock_held, lock_busy, lock_error,
}

-- The player that round `j` of a scan from `i` looks at.
abbrev pub player_after : List Player → ℕ → ℕ → Option Player
player_after ps i j = get_elem? ps ((i + j) % length ps)

-- A player who can act is not among the first `k` from `i` on.
abbrev pub NoneActive : List Player → ℕ → ℕ → Type 0
NoneActive ps i k =
    (m : ℕ) (p : Player) → m < k → player_after ps i m ≡ some p → is_state p.state active ≡ false

-- The scan's answer is a player who can act, and nobody before can.
pub record NextActive (ps : List Player) (i j : ℕ) (r : ℤ) : Type 0 where
  pub index : r ≡ pos ((i + j) % length ps)
  pub player : Player
  pub there : player_after ps i j ≡ some player
  pub can_act : is_state player.state active ≡ true
  pub nearest : NoneActive ps i j

abbrev pub ScannedActive : List Player → ℕ → ℕ → ℤ → Type 0
ScannedActive ps i k r =
    ((j : ℕ) × (j < k) × NextActive ps i j r) ⊎ ((r ≡ minus_one) × NoneActive ps i k)

NoneActive-suc :
    (ps : List Player) (i k : ℕ)
    → ((p : Player) → get_elem? ps (i % length ps) ≡ some p → is_state p.state active ≡ false)
    → NoneActive ps (suc i) k
    → NoneActive ps i (suc k)
NoneActive-suc ps i k first run zero p h e = let z : i + 0 ≡ i = omega arith in first p (rw z at e)
NoneActive-suc ps i k first run (suc m) p h e =
    let z : suc i + m ≡ i + suc m = omega arith in run m p (omega arith) (rw z e)

NextActive-suc :
    (ps : List Player) (i k : ℕ) (r : ℤ)
    → ((p : Player) → get_elem? ps (i % length ps) ≡ some p → is_state p.state active ≡ false)
    → ScannedActive ps (suc i) k r
    → ScannedActive ps i (suc k) r
NextActive-suc ps i k r first (inr (e, run)) = inr (e, NoneActive-suc ps i k first run)
NextActive-suc ps i k r first (inl (j, h, f)) =
    let z : i + suc j ≡ suc i + j = omega arith in
    inl (
      suc j,
      omega arith,
      record {
        index = rw z f.index;
        player = f.player;
        there = rw z f.there;
        can_act = f.can_act;
        nearest = NoneActive-suc ps i j first f.nearest;
      },
    )

scan_active_lem : (ps : List Player) (i k : ℕ) → ScannedActive ps i k (scan_active ps i k)
unfolding scan_active
scan_active_lem ps i zero = inr (refl, λ m p h. absurd (omega arith))
scan_active_lem ps i (suc k) = elim (Option-cases (get_elem? ps (i % length ps))) [
  | inl e ↦
      rw (scan_active, e)
        (NextActive-suc ps i k _ (λ p f. absurd (cc)) (scan_active_lem ps (suc i) k))
  | inr (p, e) ↦ elim (Bool-cases (is_state p.state active)) [
    | inl ready ↦
        let z : i + 0 ≡ i = omega arith in
        rw (scan_active, e, ready)
          (inl (
            0,
            omega arith,
            record {
              index = rw z;
              player = p;
              there = rw z e;
              can_act = ready;
              nearest = λ m q h. absurd (omega arith);
            },
          ))
    | inr idle ↦
        rw (scan_active, e, idle)
          (NextActive-suc ps i k _ (λ q f. ground (arith, e, f, idle))
            (scan_active_lem ps (suc i) k))
  ]
]

-- The next player to act: the answer is a player who can act, and of those that the list, read in a
-- circle from the place after the start, has before that player, none can; with -1 none of the
-- places looked at, as many as there are players, has one who can.
pub find_next_active_player_index_lem :
    (g : Game) (start : ℤ)
    → ScannedActive
        (players g)
        (index_after start (seated_count g))
        (seated_count g)
        (find_next_active_player_index g start)
unfolding find_next_active_player_index
find_next_active_player_index_lem g start =
    scan_active_lem (players g) (index_after start (seated_count g)) (seated_count g)

all-level :
    (rate : ℕ) (ps : List Player)
    → all (λ q. q.has_acted) ps ≡ true
    → all (λ q. q.round_rate == rate) ps ≡ true
    → All (λ q. (q.has_acted ≡ true) × (q.round_rate ≡ rate)) ps
all-level rate [] h e = tt
all-level rate (p ∷ ps) h e =
    ((ground arith, ground arith), all-level rate ps (ground arith) (ground arith))

level-all :
    (rate r : ℕ) (ps : List Player)
    → r ≡ rate
    → All (λ q. (q.has_acted ≡ true) × (q.round_rate ≡ rate)) ps
    → (all (λ q. q.has_acted) ps ≡ true) × (all (λ q. q.round_rate == r) ps ≡ true)
level-all rate r [] same h = (refl, refl)
level-all rate r (p ∷ ps) same h =
    let rest = level-all rate r ps same h.1 in
    (ground (arith, h.0, rest), ground (arith, h.0, rest))

-- A betting round is over exactly when every player who can still act has acted and all of them
-- have bet the same in it; where nobody can act, it is.
pub is_betting_round_over_lem :
    (g : Game)
    → (is_betting_round_over g ≡ true
        → (rate : ℕ) × All (λ q. (q.has_acted ≡ true) × (q.round_rate ≡ rate)) (active_players g))
      × ((rate : ℕ)
          → All (λ q. (q.has_acted ≡ true) × (q.round_rate ≡ rate)) (active_players g)
          → is_betting_round_over g ≡ true)
unfolding is_betting_round_over
is_betting_round_over_lem g = by_players (active_players g) refl
  where
    by_players :
        (ps : List Player)
        → active_players g ≡ ps
        → (is_betting_round_over g ≡ true
            → (rate : ℕ) × All
                (λ q. (q.has_acted ≡ true) × (q.round_rate ≡ rate))
                (active_players g))
          × ((rate : ℕ)
              → All (λ q. (q.has_acted ≡ true) × (q.round_rate ≡ rate)) (active_players g)
              → is_betting_round_over g ≡ true)
    by_players [] e = rw (is_betting_round_over, e) (λ h. (0, tt), λ rate h. refl)
    by_players (p ∷ ps) e =
        rw (is_betting_round_over, e)
          (
            λ h. (p.round_rate, all-level p.round_rate (p ∷ ps) (ground arith) (ground arith)),
            λ rate h.
                let both = level-all rate p.round_rate (p ∷ ps) h.0.1 h in ground (arith, both),
          )
