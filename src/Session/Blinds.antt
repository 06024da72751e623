-- ===== src/Session/Blinds.antt =====
-- Posting both blinds, by `set_blinds` of pokerapp/pokerbotmodel.py.
use poker_telegram_bot.Prelude.{
  Distinct, ℕ, ◌*◌, ◌≡◌, refl, sym, some, inl, inr, ltb, ℤ, pos, negsuc, Bool-cases, Option-cases,
}
use mathlib.Core.Path.{subst}
use poker_telegram_bot.Entities.{Game, Player, get_player_by_seat, seated_count}
use poker_telegram_bot.Entities.Seats.{OnePerUser}
use poker_telegram_bot.Play.{small_blind}
use poker_telegram_bot.Play.Turn.Handling.{player_at-get_elem?}
use poker_telegram_bot.Play.Blinds.{
  Purses, set_player_blind, pay_big_blind, pay_blinds, blind_seats, set_blinds,
}
use poker_telegram_bot.Session.Users.{users, Distinct-users}
use poker_telegram_bot.Session.Steps.{Kept}
use poker_telegram_bot.Session.Steps.Balance.{blind-Kept, same-Kept}
use poker_telegram_bot.Session.Conserve.{both-Kept}

set_player_blind-Kept :
    (chat amount : ℕ) (i : ℤ) (p : Player) (g : Game) (ws : Purses)
    → Distinct (users g.seats)
    → get_player_by_seat g i ≡ some p
    → Kept g ws (set_player_blind chat amount i p g ws).0 (set_player_blind chat amount i p g ws).1
set_player_blind-Kept chat amount (pos i) p g ws d e =
    blind-Kept chat amount i p g ws d (player_at-get_elem? g.seats i e)
set_player_blind-Kept chat amount (negsuc n) p g ws d e = absurd (cc)

pay_big_blind-Kept :
    (chat : ℕ) (big : ℤ) (g : Game) (ws : Purses)
    → Distinct (users g.seats)
    → Kept g ws (pay_big_blind chat big (g, ws)).0 (pay_big_blind chat big (g, ws)).1
pay_big_blind-Kept chat big g ws d = elim (Option-cases (get_player_by_seat g big)) [
  | inl nobody ↦ rw (pay_big_blind, nobody) (same-Kept g g ws ws refl refl)
  | inr (b, e) ↦ rw (pay_big_blind, e) (set_player_blind-Kept chat (small_blind * 2) big b g ws d e)
]

pay_blinds-Kept :
    (chat : ℕ) (small big first : ℤ) (g : Game) (ws : Purses)
    → Distinct (users g.seats)
    → Kept g ws (pay_blinds chat small big first g ws).1 (pay_blinds chat small big first g ws).2
pay_blinds-Kept chat small big first g ws d = elim (Option-cases (get_player_by_seat g small)) [
  | inl nobody ↦ rw (pay_blinds, nobody) (same-Kept g g ws ws refl refl)
  | inr (s, e) ↦ elim (Option-cases (get_player_by_seat g big)) [
    | inl nobody ↦ rw (pay_blinds, e, nobody) (same-Kept g g ws ws refl refl)
    | inr (b, f) ↦
        let one = set_player_blind chat small_blind small s g ws in
        let two = pay_big_blind chat big one in
        let paid = set_player_blind-Kept chat small_blind small s g ws d e in
        let d' = subst (λ us. Distinct us) (sym paid.same_users) d in
        let rest = pay_big_blind-Kept chat big one.0 one.1 d' in
        rw (pay_blinds, e, f)
          (both-Kept g two.0 _ ws two.1 two.1 (both-Kept g one.0 two.0 ws one.1 two.1 paid rest)
            (same-Kept two.0 _ two.1 two.1 refl refl))
  ]
]

-- The two indices that are recorded do not matter for the money.
recorded-Kept :
    (small big : ℤ) (g g' : Game) (ws ws' : Purses)
    → Kept (record g { small_blind_index = small; big_blind_index = big }) ws g' ws'
    → Kept g ws g' ws'
recorded-Kept small big g g' ws ws' k = record {
  same_users = k.same_users;
  balanced = k.balanced;
  total = k.total;
}

-- `set_blinds`, at a table where each user sits once, keeps the users at the table, puts as much
-- into the pot as into the players' bets, and leaves what wallets and pot hold together as it was:
-- also where a player cannot pay the blind in full, and where there is nobody to pay it.
set_blinds-Kept :
    (chat : ℕ) (g : Game) (ws : Purses)
    → OnePerUser g.seats
    → Kept g ws (set_blinds chat g ws).1 (set_blinds chat g ws).2
unfolding set_blinds
set_blinds-Kept chat g ws one = elim (Bool-cases (ltb (seated_count g) 2)) [
  | inl few ↦ rw (set_blinds, few) (same-Kept g g ws ws refl refl)
  | inr enough ↦
      let (small, big, first) = blind_seats g in
      let paid =
        pay_blinds-Kept chat small big first
          (record g { small_blind_index = small; big_blind_index = big }) ws
          (Distinct-users g.seats one) in
      rw (set_blinds, enough) (recorded-Kept small big g _ ws _ paid)
]
