-- ===== src/PlayerManager/Labels.antt =====
-- Who gets which role from `assign_role_labels` of pokerapp/player_manager.py.
use poker_telegram_bot.Prelude.{
  ℕ, zero, suc, ◌+◌, ◌≡◌, ◌<◌, refl, ap, ◌∙◌, Bool, Option, none, some, List, [], ◌∷◌, map,
  get_elem?, sum_by, if◌then◌else◌, ℤ, pos, negsuc, arith,
}
use poker_telegram_bot.Entities.{Player, Game, occupied, players}
use poker_telegram_bot.Entities.Seats.{Indexed}
use poker_telegram_bot.PlayerManager.{Roles, sits_at, role_of, assign_role_labels, reseat_players}
use poker_telegram_bot.PlayerManager.Reseating.{reseat_players_keeps}

abbrev one_if : Bool → ℕ
one_if b = if b then 1 else 0

-- How many players at the table sit at this index: one or none.
abbrev pub sitting_at : List (Option Player) → ℤ → ℕ
sitting_at seats (negsuc _) = 0
sitting_at seats (pos j) = elim (get_elem? seats j) [ some (some _) ↦ 1 | _ ↦ 0 ]

abbrev at_index : ℤ → List Player → ℕ
at_index d ps = sum_by (λ (p : Player). one_if (sits_at p.seat_index d)) ps

nobody_before :
    (i j : ℕ) (seats : List (Option Player))
    → Indexed i seats
    → j < i
    → at_index (pos j) (occupied seats) ≡ 0
nobody_before i j [] x h = refl
nobody_before i j (none ∷ seats) x h = nobody_before (suc i) j seats x (omega arith)
nobody_before i j (some p ∷ seats) x h =
    let later = nobody_before (suc i) j seats x.1 (omega arith) in ground (arith, x.0)

index_found :
    (i k j : ℕ) (seats : List (Option Player))
    → Indexed i seats
    → j ≡ i + k
    → at_index (pos j) (occupied seats) ≡ sitting_at seats (pos k)
index_found i k j [] x e = refl
index_found i zero j (none ∷ seats) x e = nobody_before (suc i) j seats x (omega arith)
index_found i (suc k) j (none ∷ seats) x e = index_found (suc i) k j seats x (omega arith)
index_found i zero j (some p ∷ seats) x e =
    let later = nobody_before (suc i) j seats x.1 (omega arith) in ground (arith, x.0)
index_found i (suc k) j (some p ∷ seats) x e =
    let later = index_found (suc i) k j seats x.1 (omega arith) in
    let here : one_if (sits_at p.seat_index (pos j)) ≡ 0 = ground (arith, x.0) in
    omega (arith, later, here)

nowhere : (n : ℕ) (ps : List Player) → at_index (negsuc n) ps ≡ 0
nowhere n [] = refl
nowhere n (p ∷ ps) = let rest = nowhere n ps in ground (arith)

index_lem :
    (d : ℤ) (seats : List (Option Player))
    → Indexed 0 seats
    → at_index d (occupied seats) ≡ sitting_at seats d
index_lem (negsuc n) seats x = nowhere n (occupied seats)
index_lem (pos j) seats x = index_found 0 j j seats x (omega arith)

-- Counting a flag of the roles.
abbrev pub flagged : (Roles → Bool) → List Roles → ℕ
flagged f rs = sum_by (λ (r : Roles). one_if (f r)) rs

flagged-map :
    (g : Game) (f : Roles → Bool) (h : Player → Bool)
    → ((p : Player) → f (role_of g p) ≡ h p)
    → (ps : List Player) → flagged f (map (role_of g) ps) ≡ sum_by (λ p. one_if (h p)) ps
flagged-map g f h same [] = refl
flagged-map g f h same (p ∷ ps) =
    let rest = flagged-map g f h same ps in
    let here = ap one_if (same p) in omega (arith, rest, here)

-- After the players were reseated, the labels mark one player as the dealer if somebody sits at the
-- dealer's index and nobody otherwise, and likewise for the two blinds.
pub assign_role_labels_lem :
    (g : Game)
    → (flagged (λ r. r.is_dealer) (assign_role_labels (reseat_players g))
        ≡ sitting_at (reseat_players g).seats g.dealer_index)
      × (flagged (λ r. r.is_small_blind) (assign_role_labels (reseat_players g))
          ≡ sitting_at (reseat_players g).seats g.small_blind_index)
      × (flagged (λ r. r.is_big_blind) (assign_role_labels (reseat_players g))
          ≡ sitting_at (reseat_players g).seats g.big_blind_index)
unfolding assign_role_labels reseat_players
assign_role_labels_lem g = (
  counted (λ r. r.is_dealer) g.dealer_index (λ p. refl),
  counted (λ r. r.is_small_blind) g.small_blind_index (λ p. refl),
  counted (λ r. r.is_big_blind) g.big_blind_index (λ p. refl),
)
  where
    counted :
        (f : Roles → Bool) (d : ℤ)
        → ((p : Player) → f (role_of (reseat_players g) p) ≡ sits_at p.seat_index d)
        → flagged f (map (role_of (reseat_players g)) (players (reseat_players g)))
          ≡ sitting_at (reseat_players g).seats d
    counted f d same =
        flagged-map (reseat_players g) f (λ p. sits_at p.seat_index d) same
          (players (reseat_players g))
        ∙ index_lem d (reseat_players g).seats (reseat_players_keeps g).0
