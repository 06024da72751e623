-- ===== src/Stages/Streets/Loop.antt =====
-- The loop of `progress_stage` of pokerapp/matchmaking_service.py, from its rounds to its end.
use mathlib.Core.Path.{subst}
use poker_telegram_bot.Prelude.{
  List, ℕ, zero, suc, ◌+◌, ◌≤◌, ◌<◌, ◌≡◌, refl, sym, ◌∙◌, ◌⊎◌, inl, inr, Bool, true, false, Option,
  none, some, length, leb, if◌then◌else◌, ℤ, pos, arith, Bool-cases, Option-cases, ap,
}
use poker_telegram_bot.Entities.{GameState, round_river, Game, contenders}
use poker_telegram_bot.Stages.{
  collect_round_bets, clear_acted, stage_transition, is_river, nobody_on_turn, Stage, settled,
  again, find_turn, stage_round, stage_loop, progress_stage,
}
use poker_telegram_bot.Stages.Progress.{board_size, street, Dealt}
use poker_telegram_bot.Stages.Streets.{
  money_of, money_eq, bets_ready, Begun, OnTurn, Progressed, transition_lem, Decided, street-le,
  find_turn_lem, shown, shown-Begun,
}

earlier-Progressed :
    (f : Game → Game) (g h : Game) (r : Option (Bool × Game))
    → street g.state < street h.state
    → money_of h ≡ money_of g
    → Progressed f h r
    → Progressed f g r
earlier-Progressed f g h r before pot (inl (g', e, t)) = inl (
  g',
  e,
  record {
    begun = record {
      dealt = t.begun.dealt;
      fresh = t.begun.fresh;
      no_rate = t.begun.no_rate;
      same_money = t.begun.same_money ∙ pot;
    };
    later = omega (arith, before, t.later);
    index = t.index;
    player = t.player;
    turn = t.turn;
    there = t.there;
    can_act = t.can_act;
  },
)
earlier-Progressed f g h r before pot (inr (g', e, c)) = inr (
  g',
  e,
  record {
    hand = c.hand;
    result = c.result;
    river = c.river;
    five = c.five;
    same_money = c.same_money ∙ pot;
  },
)

Begun-turn :
    (n : ℕ × List (ℕ × ℕ)) (h : Game) (i : ℤ)
    → Begun n h
    → Begun n (record h { current_player_index = i })
Begun-turn n h i b = record {
  dealt = record { in_play = b.dealt.in_play; board = b.dealt.board; deck = b.dealt.deck };
  fresh = b.fresh;
  no_rate = b.no_rate;
  same_money = b.same_money;
}

-- The loop goes on from what one round decided.
abbrev pub go_on : (Game → Game) → ℕ → Stage → Option (Bool × Game)
unfolding stage_loop
go_on f fuel (settled b g') = some (b, g')
go_on f fuel (again g') = stage_loop f fuel g'

Decided-Progressed :
    (f : Game → Game) (fuel : ℕ) (g h : Game) (d : Stage)
    → Begun (money_of g) h
    → street g.state < street h.state
    → Decided f h d
    → ((g' : Game)
        → Dealt g'
        → street g.state < street g'.state
        → is_river g'.state ≡ false
        → Progressed f g' (stage_loop f fuel g'))
    → Progressed f g (go_on f fuel d)
unfolding go_on stage_loop
Decided-Progressed f fuel g h (settled true g') b later (k, p, e, there, can) next = inl (
  g',
  refl,
  subst (λ x. OnTurn g x) (sym e)
      (record {
        begun = Begun-turn (money_of g) h (pos k) b;
        later = later;
        index = k;
        player = p;
        turn = refl;
        there = there;
        can_act = can;
      }),
)
Decided-Progressed f fuel g h (settled false g') b later (i, e, river) next = inr (
  g',
  refl,
  record {
    hand = record h { current_player_index = i };
    result = e;
    river = river;
    five = b.dealt.board ∙ ap board_size river;
    same_money = b.same_money;
  },
)
Decided-Progressed f fuel g h (again g') b later (i, e, not_river) next =
    let h' = record h { current_player_index = i } in
    let rest = next h' (Begun-turn (money_of g) h i b).dealt later not_river in
    subst (λ x. Progressed f g (stage_loop f fuel x)) (sym e)
      (earlier-Progressed f g h' (stage_loop f fuel h') later b.same_money rest)

-- What the loop makes of one round's decision.
loop_step :
    (f : Game → Game) (fuel : ℕ) (g : Game)
    → stage_loop f (suc fuel) g ≡ go_on f fuel (stage_round f g)
unfolding stage_loop go_on
loop_step f fuel g = by_decision (stage_round f g) refl
  where
    by_decision :
        (d : Stage)
        → stage_round f g ≡ d
        → stage_loop f (suc fuel) g ≡ go_on f fuel (stage_round f g)
    by_decision (settled b g') e = rw (e, stage_loop, go_on) refl
    by_decision (again g') e = rw (e, stage_loop, go_on) refl

round_at_river :
    (f : Game → Game) (g : Game)
    → g.state ≡ round_river
    → stage_round f g ≡ settled false (nobody_on_turn (f (clear_acted (collect_round_bets g))))
unfolding stage_round collect_round_bets
round_at_river f g e =
    let last : stage_transition g.state ≡ none = ap stage_transition e in
    let river : is_river g.state ≡ true = ap is_river e in
    let ready = clear_acted (collect_round_bets g) in
    let closing = settled false (nobody_on_turn (f ready)) in
    let waiting = settled false (nobody_on_turn ready) in
    let at_last : stage_round f g ≡ (if is_river g.state then closing else waiting) =
      rw (stage_round, last) refl in
    at_last ∙ ap (λ x. if x then closing else waiting) river

round_before_river :
    (f : Game → Game) (g : Game) (s : GameState) (count : ℕ)
    → stage_transition g.state ≡ some (s, count)
    → stage_round f g ≡ find_turn f (shown g s count)
unfolding stage_round collect_round_bets shown
round_before_river f g s count e = rw (stage_round, e) refl

stage_loop-Progressed :
    (f : Game → Game) (fuel : ℕ) (g : Game)
    → Dealt g
    → 4 ≤ fuel + street g.state
    → Progressed f g (stage_loop f fuel g)
unfolding go_on collect_round_bets
stage_loop-Progressed f zero g d h = absurd (omega (arith, street-le g.state))
stage_loop-Progressed f (suc fuel) g d h =
    subst (λ r. Progressed f g r) (sym (loop_step f fuel g))
      (elim (Option-cases (stage_transition g.state)) [
        | inl done ↦
            let river = d.in_play done in
            subst (λ x. Progressed f g (go_on f fuel x)) (sym (round_at_river f g river))
              (inr (
                _,
                refl,
                record {
                  hand = clear_acted (collect_round_bets g);
                  result = refl;
                  river = river;
                  five = d.board ∙ ap board_size river;
                  same_money =
                      money_eq g (clear_acted (collect_round_bets g)) refl (bets_ready g.seats);
                },
              ))
        | inr ((s, count), e) ↦
            let (b, at_s) = shown-Begun g s count d e in
            let later : street g.state < street (shown g s count).state =
              omega (arith, ap street at_s, (transition_lem g.state s count e).0) in
            subst (λ x. Progressed f g (go_on f fuel x)) (sym (round_before_river f g s count e))
              (Decided-Progressed f fuel g (shown g s count) (find_turn f (shown g s count)) b later
                (find_turn_lem f (shown g s count))
                (λ g' d' more _. stage_loop-Progressed f fuel g' d' (omega (arith, h, more))))
      ])

-- Progressing the stage of a dealt hand always comes to an end. With at most one player left in
-- the hand it is finalized as it is. Otherwise either a later street has begun, with the board
-- that it needs, all bets of the round and all `has_acted` flags reset, and a player on turn who
-- can act; or the board has been dealt out to its five cards, the hand is finalized and nobody is
-- on turn. The pot and everybody's bets are the same all along.
pub progress_stage-Progressed :
    (f : Game → Game) (g : Game)
    → Dealt g
    → ((length (contenders g) ≤ 1) × (progress_stage f g ≡ some (false, nobody_on_turn (f g))))
      ⊎ ((1 < length (contenders g)) × Progressed f g (progress_stage f g))
unfolding progress_stage
progress_stage-Progressed f g d = elim (Bool-cases (leb (length (contenders g)) 1)) [
  | inl alone ↦ inl (ground arith, rw (progress_stage, alone) refl)
  | inr more ↦
      inr (ground arith, rw (progress_stage, more) (stage_loop-Progressed f 4 g d (omega arith)))
]
