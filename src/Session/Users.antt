-- ===== src/Session/Users.antt =====
-- The users at a table, and what their wallets hold together.
use mathlib.Core.Path.{subst}
use poker_telegram_bot.Prelude.{
  Distinct, ℕ, zero, suc, ◌+◌, ◌≡◌, ◌≢◌, refl, true, false, Option, none, some, List, [], ◌∷◌, map,
  contains, get_elem?, set, sum_by, ◌==◌, arith, Bool-cases, inl, inr, ap, not, ◌&&◌,
}
use poker_telegram_bot.Entities.{Player, occupied, map_seats, is_state, active}
use poker_telegram_bot.Entities.Seats.{Absent, OnePerUser}
use poker_telegram_bot.WalletManager.{Purse, funds}
use poker_telegram_bot.Play.{reopen}
use poker_telegram_bot.Play.Blinds.{Purses, write_purse, write_purse_self}

abbrev pub users : List (Option Player) → List ℕ
users ps = map (λ p. p.user_id) (occupied ps)

-- What the wallets of these users hold.
abbrev pub bank : List ℕ → Purses → ℕ
bank us ws = sum_by (λ u. funds (ws u)) us

not_contains-Absent :
    (u : ℕ) (ps : List (Option Player)) → Absent u ps → contains (users ps) u ≡ false
not_contains-Absent u [] h = refl
not_contains-Absent u (none ∷ ps) h = not_contains-Absent u ps h
not_contains-Absent u (some p ∷ ps) h = ground (arith, not_contains-Absent u ps h.1, h.0)

Absent-not_contains :
    (u : ℕ) (ps : List (Option Player)) → contains (users ps) u ≡ false → Absent u ps
Absent-not_contains u [] h = tt
Absent-not_contains u (none ∷ ps) h = Absent-not_contains u ps h
Absent-not_contains u (some p ∷ ps) h = (ground arith, Absent-not_contains u ps (ground arith))

pub Distinct-users : (ps : List (Option Player)) → OnePerUser ps → Distinct (users ps)
Distinct-users [] h = tt
Distinct-users (none ∷ ps) h = Distinct-users ps h
Distinct-users (some p ∷ ps) h = (not_contains-Absent p.user_id ps h.0, Distinct-users ps h.1)

pub OnePerUser-users : (ps : List (Option Player)) → Distinct (users ps) → OnePerUser ps
OnePerUser-users [] h = tt
OnePerUser-users (none ∷ ps) h = OnePerUser-users ps h
OnePerUser-users (some p ∷ ps) h = (Absent-not_contains p.user_id ps h.0, OnePerUser-users ps h.1)

pub contains-users :
    (ps : List (Option Player)) (i : ℕ) {p : Player}
    → get_elem? ps i ≡ some (some p)
    → contains (users ps) p.user_id ≡ true
contains-users [] i e = absurd (cc)
contains-users (none ∷ ps) zero e = absurd (cc)
contains-users (some q ∷ ps) zero e = ground (arith, e)
contains-users (none ∷ ps) (suc i) e = contains-users ps i e
contains-users (some q ∷ ps) (suc i) e = ground (arith, contains-users ps i e)

pub users-set :
    (ps : List (Option Player)) (i : ℕ) (p q : Player)
    → get_elem? ps i ≡ some (some p)
    → q.user_id ≡ p.user_id
    → users (set ps i (some q)) ≡ users ps
users-set [] i p q e same = refl
users-set (none ∷ ps) zero p q e same = absurd (cc)
users-set (some r ∷ ps) zero p q e same =
    let u : q.user_id ≡ r.user_id = ground (arith, e, same) in ap (λ v. v ∷ users ps) u
users-set (none ∷ ps) (suc i) p q e same = users-set ps i p q e same
users-set (some r ∷ ps) (suc i) p q e same = ap (λ us. r.user_id ∷ us) (users-set ps i p q e same)

pub users-reopen : (u : ℕ) (ps : List (Option Player)) → users (map_seats (reopen u) ps) ≡ users ps
users-reopen u [] = refl
users-reopen u (none ∷ ps) = users-reopen u ps
users-reopen u (some p ∷ ps) = elim (Bool-cases (is_state p.state active && not (p.user_id == u))) [
  | inl e ↦ rw (e, users-reopen u ps)
  | inr e ↦ rw (e, users-reopen u ps)
]

bank-absent :
    (us : List ℕ) (u : ℕ) (ws ws' : Purses)
    → ((v : ℕ) → u ≢ v → ws' v ≡ ws v)
    → contains us u ≡ false
    → bank us ws' ≡ bank us ws
bank-absent [] u ws ws' o h = refl
bank-absent (v ∷ us) u ws ws' o h =
    let other : funds (ws' v) ≡ funds (ws v) = ap funds (o v (λ e. ground arith)) in
    omega (arith, other, bank-absent us u ws ws' o (ground arith))

-- Where only one user's wallet changes, what the users hold together changes by as much.
pub bank-others :
    (us : List ℕ) (u : ℕ) (ws ws' : Purses)
    → ((v : ℕ) → u ≢ v → ws' v ≡ ws v)
    → Distinct us
    → contains us u ≡ true
    → bank us ws' + funds (ws u) ≡ bank us ws + funds (ws' u)
bank-others [] u ws ws' o d h = absurd (cc)
bank-others (v ∷ us) u ws ws' o d h = elim (Bool-cases (v == u)) [
  | inl here ↦
      let e : v ≡ u = ground arith in
      let out : contains us u ≡ false = subst (λ x. contains us x ≡ false) e d.0 in
      let before : funds (ws v) ≡ funds (ws u) = ap (λ x. funds (ws x)) e in
      let after : funds (ws' v) ≡ funds (ws' u) = ap (λ x. funds (ws' x)) e in
      omega (arith, before, after, bank-absent us u ws ws' o out)
  | inr there ↦
      let other : funds (ws' v) ≡ funds (ws v) = ap funds (o v (λ e. ground arith)) in
      omega (arith, other, bank-others us u ws ws' o d.1 (ground (arith, h, there)))
]

write_purse_ne : (u : ℕ) (q : Purse) (ws : Purses) (v : ℕ) → u ≢ v → write_purse u q ws v ≡ ws v
write_purse_ne u q ws v n = ground arith

pub bank-write :
    (us : List ℕ) (u : ℕ) (q : Purse) (ws : Purses)
    → Distinct us
    → contains us u ≡ true
    → bank us (write_purse u q ws) + funds (ws u) ≡ bank us ws + funds q
bank-write us u q ws d h =
    let self = ap funds (write_purse_self u q ws) in
    omega (arith, self, bank-others us u ws (write_purse u q ws) (write_purse_ne u q ws) d h)
