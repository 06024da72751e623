-- ===== src/Session/Steps/Balance.antt =====
-- Each step of a hand keeps the users, the balance of pot and bets, and the sum of the chips.
use mathlib.Core.Path.{subst}
use poker_telegram_bot.Prelude.{
  Distinct, ℕ, ◌+◌, ◌≡◌, refl, sym, ◌∙◌, true, ◌||◌, Option, none, some, List, [], ◌∷◌, map,
  get_elem?, sum_by, leb, arith, Bool-cases, Option-cases, inl, inr, ap, ℤ, pos, negsuc, length,
}
use poker_telegram_bot.Entities.{Game, Player, occupied, players, contenders}
use poker_telegram_bot.WalletManager.{Purse}
use poker_telegram_bot.Play.{
  Refusal, accepted, rejected, is_betting_round_over, find_next_active_player_index,
}
use poker_telegram_bot.Play.Money.{PlayerAction, process, Accounted, process-Accounted}
use poker_telegram_bot.Play.Turn.{next_turn, give_turn}
use poker_telegram_bot.Play.Blinds.{Purses, write_purse, set_player_blind, set_player_blind_lem}
use poker_telegram_bot.Stages.{progress_stage}
use poker_telegram_bot.Stages.Progress.{Dealt}
use poker_telegram_bot.Stages.Streets.{money_of, bets}
use poker_telegram_bot.Stages.Streets.Loop.{progress_stage-Progressed}
use poker_telegram_bot.Session.{
  Hand, Step, blind_posted, action_accepted, action_refused, turn_passed, street_begun,
}
use poker_telegram_bot.Session.Users.{users, bank, contains-users, bank-others, bank-write}
use poker_telegram_bot.Session.Steps.{Kept, UsersKept, process-UsersKept, set_player_blind-Posted}

users-bets : (ps : List (Option Player)) → users ps ≡ map (λ x. x.0) (bets (occupied ps))
users-bets [] = refl
users-bets (none ∷ ps) = users-bets ps
users-bets (some p ∷ ps) = ap (λ us. p.user_id ∷ us) (users-bets ps)

stakes-bets :
    (ps : List (Option Player))
    → sum_by (λ p. p.total_bet) (occupied ps) ≡ sum_by (λ x. x.1) (bets (occupied ps))
stakes-bets [] = refl
stakes-bets (none ∷ ps) = stakes-bets ps
stakes-bets (some p ∷ ps) = ap (λ n. p.total_bet + n) (stakes-bets ps)

-- A game with the same pot and bets, and the same wallets.
pub same-Kept :
    (g g' : Game) (ws ws' : Purses) → money_of g' ≡ money_of g → ws' ≡ ws → Kept g ws g' ws'
same-Kept g g' ws ws' m e =
    let pot = ap (λ x. x.0) m in
    let all_bets = ap (λ x. sum_by (λ y. y.1) x.1) m in
    let held = ap (λ x. bank (users g.seats) x) e in
    record {
      same_users = users-bets g'.seats ∙ ap (λ x. map (λ y. y.0) x.1) m ∙ sym (users-bets g.seats);
      balanced = omega (arith, pot, all_bets, stakes-bets g.seats, stakes-bets g'.seats);
      total = omega (arith, pot, held);
    }

move-Kept :
    (g g1 g2 : Game) (ws ws1 ws2 : Purses)
    → g2 ≡ g1
    → ws2 ≡ ws1
    → Kept g ws g1 ws1
    → Kept g ws g2 ws2
move-Kept g g1 g2 ws ws1 ws2 e f k =
    subst (λ x. Kept g ws x ws2) (sym e) (subst (λ x. Kept g ws g1 x) (sym f) k)

money_of-turn :
    (g g' : Game) (p q : Player) (k : ℤ)
    → ◌≡◌ {A = Option (Player × Game)}
        (some (q, record g { current_player_index = k }))
        (some (p, g'))
    → money_of g' ≡ money_of g
money_of-turn g g' p q k e =
    let same : record g { current_player_index = k } ≡ g' = cc in
    subst (λ x. money_of x ≡ money_of g) same refl

money_of-give_turn :
    (g g' : Game) (p : Player) (r : ℤ) → give_turn g r ≡ some (p, g') → money_of g' ≡ money_of g
money_of-give_turn g g' p (negsuc m) e = absurd (cc)
money_of-give_turn g g' p (pos k) e = elim (Option-cases (get_elem? (players g) k)) [
  | inl nobody ↦
      let step : give_turn g (pos k) ≡ none = rw (give_turn, nobody) refl in
      absurd (ground (arith, step, e))
  | inr (q, there) ↦
      let step : give_turn g (pos k) ≡ some (q, record g { current_player_index = pos k }) =
        rw (give_turn, there) refl in
      money_of-turn g g' p q (pos k) (sym step ∙ e)
]

money_of-next_turn :
    (g g' : Game) (p : Player) → next_turn g ≡ some (p, g') → money_of g' ≡ money_of g
unfolding next_turn
money_of-next_turn g g' p e =
    elim (Bool-cases (leb (length (contenders g)) 1 || is_betting_round_over g)) [
      | inl over ↦
          let step : next_turn g ≡ none = rw (next_turn, over) refl in
          absurd (ground (arith, step, e))
      | inr more ↦
          let next = find_next_active_player_index g g.current_player_index in
          let step : next_turn g ≡ give_turn g next = rw (next_turn, more) refl in
          money_of-give_turn g g' p next (sym step ∙ e)
    ]

pub blind-Kept :
    (chat amount i : ℕ) (p : Player) (g : Game) (ws : Purses)
    → Distinct (users g.seats)
    → get_elem? g.seats i ≡ some (some p)
    → Kept g ws
        (set_player_blind chat amount (pos i) p g ws).0
        (set_player_blind chat amount (pos i) p g ws).1
blind-Kept chat amount i p g ws d e =
    let (b, _, paid) = set_player_blind_lem chat amount (pos i) p g ws in
    let (same, bet) = set_player_blind-Posted chat amount i p g ws e in
    let ws' = (set_player_blind chat amount (pos i) p g ws).1 in
    let held =
      bank-others (users g.seats) p.user_id ws ws' paid.others d (contains-users g.seats i e) in
    record {
      same_users = same;
      balanced = bet;
      total = omega (arith, held, paid.into_pot, paid.out_of_funds);
    }

accepted-Kept :
    (a : PlayerAction) (i : ℕ) (p : Player) (q : Purse) (g g' : Game) (ws : Purses)
    → Distinct (users g.seats)
    → get_elem? g.seats i ≡ some (some p)
    → process a g i p (ws p.user_id) ≡ accepted g' q
    → Kept g ws g' (write_purse p.user_id q ws)
accepted-Kept a i p q g g' ws d e f =
    let w = ws p.user_id in
    let moved : Accounted g w (accepted g' q) =
      subst (λ r. Accounted g w r) f (process-Accounted a g i p w e) in
    let held = bank-write (users g.seats) p.user_id q ws d (contains-users g.seats i e) in
    record {
      same_users = subst (λ r. UsersKept g r) f (process-UsersKept a g i p w e);
      balanced = omega (arith, moved.into_pot, moved.into_stakes);
      total = omega (arith, held, moved.into_pot, moved.out_of_funds);
    }

refused-Kept :
    (a : PlayerAction) (i : ℕ) (p : Player) (x : Refusal) (q : Purse) (g : Game) (ws : Purses)
    → Distinct (users g.seats)
    → get_elem? g.seats i ≡ some (some p)
    → process a g i p (ws p.user_id) ≡ rejected x q
    → Kept g ws g (write_purse p.user_id q ws)
refused-Kept a i p x q g ws d e f =
    let w = ws p.user_id in
    let kept : Accounted g w (rejected x q) =
      subst (λ r. Accounted g w r) f (process-Accounted a g i p w e) in
    let held = bank-write (users g.seats) p.user_id q ws d (contains-users g.seats i e) in
    record { same_users = refl; balanced = refl; total = omega (arith, held, kept.0) }

street-Kept :
    (f : Game → Game) (g g' : Game)
    → Dealt g
    → progress_stage f g ≡ some (true, g')
    → money_of g' ≡ money_of g
street-Kept f g g' dealt e = elim (progress_stage-Progressed f g dealt) [
  | inl (_, closed) ↦ absurd (ground (arith, closed, e))
  | inr (_, inl (h, begun, t)) ↦
      let same : h ≡ g' = ground (arith, begun, e) in
      subst (λ x. money_of x ≡ money_of g) same t.begun.same_money
  | inr (_, inr (h, closed, _)) ↦ absurd (ground (arith, closed, e))
]

pub Step-Kept :
    (h h' : Hand)
    → Distinct (users h.game.seats)
    → Step h h'
    → Kept h.game h.purses h'.game h'.purses
Step-Kept h h' d (blind_posted chat amount i p e f s) =
    move-Kept h.game _ h'.game h.purses _ h'.purses f s
      (blind-Kept chat amount i p h.game h.purses d e)
Step-Kept h h' d (action_accepted a i p q e f s) =
    move-Kept h.game h'.game h'.game h.purses _ h'.purses refl s
      (accepted-Kept a i p q h.game h'.game h.purses d e f)
Step-Kept h h' d (action_refused a i p x q e f same s) =
    move-Kept h.game h.game h'.game h.purses _ h'.purses same s
      (refused-Kept a i p x q h.game h.purses d e f)
Step-Kept h h' d (turn_passed p e s) =
    same-Kept h.game h'.game h.purses h'.purses (money_of-next_turn h.game h'.game p e) s
Step-Kept h h' d (street_begun f dealt e s) =
    same-Kept h.game h'.game h.purses h'.purses (street-Kept f h.game h'.game dealt e) s
