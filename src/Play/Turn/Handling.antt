-- ===== src/Play/Turn/Handling.antt =====
-- What becomes of the chips and the game of a handled action, over pokerapp/pokerbotmodel.py.
use mathlib.Core.Path.{subst}
use poker_telegram_bot.Prelude.{
  ℕ, zero, suc, ◌≡◌, ◌≢◌, refl, sym, ◌⊎◌, inl, inr, true, false, Option, none, some, List, [], ◌∷◌,
  get_elem?, ◌==◌, arith, Bool-cases, Option-cases, ℤ, pos, negsuc, ap,
}
use poker_telegram_bot.Entities.{Player, Game, player_at}
use poker_telegram_bot.WalletManager.{Purse, funds}
use poker_telegram_bot.Play.{Processed, accepted, rejected}
use poker_telegram_bot.Play.Money.{PlayerAction, process, Accounted, process-Accounted}
use poker_telegram_bot.Play.Turn.{
  LockReply, LoadReply, Exit, SaveReply, Played, process_playing, TurnCalls, failure, after_flow,
  save_action, after_processor, run_processor, purse_of, act_on, handle_locked_player_action,
  lock_error, lock_busy, lock_held, load_failed, no_game, game_loaded, answers, raises_before,
  raises_between, raises_after, save_failed, version_conflict, game_saved, turn_of, no_turn,
  flow_failed, unanswered,
}
use poker_telegram_bot.Play.Turn.Outcomes.{
  OnTurn, Took, CutShort, Reason, Handled, unlocked, unloaded, nobody, somebody_else, refused,
}

pub player_at-get_elem? :
    (ps : List (Option Player)) (i : ℕ) {p : Player}
    → player_at ps i ≡ some p
    → get_elem? ps i ≡ some (some p)
player_at-get_elem? [] i e = absurd (cc)
player_at-get_elem? (none ∷ ps) zero e = absurd (cc)
player_at-get_elem? (some q ∷ ps) zero e = ap some e
player_at-get_elem? (s ∷ ps) (suc i) e = player_at-get_elem? ps i e

module _ (c : TurnCalls) (a : PlayerAction) (user : ℕ) (w : Purse) where
  save-Handled :
      (v : Purse) (took : Took c a user w v) (final : Game) (next : Option Player)
      (stored : Option Game)
      → ((p : Player) × ((process_playing c.stages none took.after).0 ≡ turn_of p final)
          × (next ≡ some p))
        ⊎ (((process_playing c.stages none took.after).0 ≡ no_turn final) × (next ≡ none))
      → stored ≡ (process_playing c.stages none took.after).1
      → (s : SaveReply) → c.save ≡ s
      → Handled c a user w (save_action s final next v stored)
  save-Handled v took final next stored went kept game_saved e = inl (record {
    took = took;
    final = final;
    went_on = went;
    saves = e;
    success = refl;
    game = refl;
    stored = refl;
  })
  save-Handled v took final next stored went kept version_conflict e = inr (
      inl (record {
        took = took;
        final = final;
        failed = inr (inr (λ h. absurd (cc)));
        success = refl;
        game = refl;
        stored = inl kept;
      }))
  save-Handled v took final next stored went kept (save_failed false) e = inr (
      inl (record {
        took = took;
        final = final;
        failed = inr (inr (λ h. absurd (cc)));
        success = refl;
        game = refl;
        stored = inl kept;
      }))
  save-Handled v took final next stored went kept (save_failed true) e = inr (
      inl (record {
        took = took;
        final = final;
        failed = inr (inr (λ h. absurd (cc)));
        success = refl;
        game = refl;
        stored = inr (e, refl);
      }))

  flow-Handled :
      (v : Purse) (took : Took c a user w v) (f : Played) (stored : Option Game)
      → process_playing c.stages none took.after ≡ (f, stored)
      → Handled c a user w (after_flow c.save (f, stored) v)
  flow-Handled v took (turn_of p g) stored e =
      save-Handled v took g (some p) stored (inl (p, ap (λ x. x.0) e, refl)) (sym (ap (λ x. x.1) e))
        c.save refl
  flow-Handled v took (no_turn g) stored e =
      save-Handled v took g none stored (inr (ap (λ x. x.0) e, refl)) (sym (ap (λ x. x.1) e)) c.save
        refl
  flow-Handled v took (flow_failed g) stored e = inr (
      inl (record {
        took = took;
        final = g;
        failed = inl (ap (λ x. x.0) e);
        success = refl;
        game = refl;
        stored = inl (sym (ap (λ x. x.1) e));
      }))
  flow-Handled v took (unanswered g) stored e = inr (
      inl (record {
        took = took;
        final = g;
        failed = inr (inl (ap (λ x. x.0) e));
        success = refl;
        game = refl;
        stored = inl (sym (ap (λ x. x.1) e));
      }))

  answer-Handled :
      (g : Game) (i : ℕ) (p : Player)
      → OnTurn c user g i p
      → c.exit ≡ answers
      → (out : Processed) → process a g i p w ≡ out
      → Accounted g w out
      → Handled c a user w (after_processor c g out)
  unfolding after_processor
  answer-Handled g i p on answered (rejected x v) ran h = inr (
      inr (
        inr (record {
          reason = refused g i p x v on ran;
          success = refl;
          stored = refl;
          same_funds = h.0;
        })))
  answer-Handled g i p on answered (accepted g' v) ran h =
      flow-Handled v
        (record {
          before = g;
          after = g';
          seat = i;
          player = p;
          on_turn = on;
          answered = answered;
          ran = ran;
          chips = h;
        })
        (process_playing c.stages none g').0 (process_playing c.stages none g').1 refl

  run-Handled :
      (g : Game) (i : ℕ) (p : Player)
      → OnTurn c user g i p
      → player_at g.seats i ≡ some p
      → Handled c a user w (run_processor c g (process a g i p w) w)
  unfolding run_processor
  run-Handled g i p on sits = by_exit c.exit refl
    where
      answered_step :
          c.exit ≡ answers
          → run_processor c g (process a g i p w) w ≡ after_processor c g (process a g i p w)
      answered_step e = rw (run_processor, e) refl

      cut :
          (v : Purse)
          → c.exit ≢ answers
          → (funds v ≡ funds w) ⊎ (funds v ≡ funds (purse_of (process a g i p w)))
          → CutShort c a user w (failure (some g) none v)
      cut v raised paid = record {
        before = g;
        seat = i;
        player = p;
        on_turn = on;
        raised = raised;
        paid = paid;
        success = refl;
        game = refl;
        stored = refl;
      }

      cut_short :
          (v : Purse)
          → c.exit ≢ answers
          → (funds v ≡ funds w) ⊎ (funds v ≡ funds (purse_of (process a g i p w)))
          → run_processor c g (process a g i p w) w ≡ failure (some g) none v
          → Handled c a user w (run_processor c g (process a g i p w) w)
      cut_short v raised paid e =
          subst (λ r. Handled c a user w r) (sym e) (inr (inr (inl (cut v raised paid))))

      by_exit :
          (x : Exit) → c.exit ≡ x → Handled c a user w (run_processor c g (process a g i p w) w)
      by_exit answers e =
          subst (λ r. Handled c a user w r) (sym (answered_step e))
            (answer-Handled g i p on e (process a g i p w) refl
              (process-Accounted a g i p w (player_at-get_elem? g.seats i sits)))
      by_exit raises_before e =
          cut_short w (λ h. absurd (cc)) (inl refl) (rw (run_processor, e) refl)
      by_exit raises_between e =
          cut_short (record w { balance = (purse_of (process a g i p w)).balance })
            (λ h. absurd (cc)) (inr refl) (rw (run_processor, e) refl)
      by_exit raises_after e =
          cut_short (purse_of (process a g i p w)) (λ h. absurd (cc)) (inr refl)
            (rw (run_processor, e) refl)

  act_on-Handled :
      (g : Game) (turn : ℤ)
      → c.lock ≡ lock_held
      → c.load ≡ game_loaded g
      → g.current_player_index ≡ turn
      → Handled c a user w (act_on c user (process a) w g)
  unfolding act_on
  act_on-Handled g (negsuc n) held loads t =
      rw (act_on, t)
        (inr (
          inr (
            inr (record {
              reason = nobody g loads (rw t refl);
              success = refl;
              stored = refl;
              same_funds = refl;
            }))))
  act_on-Handled g (pos i) held loads t = elim (Option-cases (player_at g.seats i)) [
    | inl empty ↦
        rw (act_on, t, empty)
          (inr (
            inr (
              inr (record {
                reason = nobody g loads (rw t empty);
                success = refl;
                stored = refl;
                same_funds = refl;
              }))))
    | inr (p, e) ↦ elim (Bool-cases (p.user_id == user)) [
      | inl own ↦
          rw (act_on, t, e, own)
            (run-Handled g i p
              (record {
                locked = held;
                was_loaded = loads;
                turn = t;
                sits = rw t e;
                own = ground arith;
              })
              e)
      | inr other ↦
          rw (act_on, t, e, other)
            (inr (
              inr (
                inr (record {
                  reason = somebody_else g p loads (rw t e) (ground arith);
                  success = refl;
                  stored = refl;
                  same_funds = refl;
                }))))
    ]
  ]

  not_taken :
      Reason c a user w
      → handle_locked_player_action c user (process a) w ≡ failure none none w
      → Handled c a user w (handle_locked_player_action c user (process a) w)
  not_taken reason e = rw e (
      inr
        (inr (inr (record { reason = reason; success = refl; stored = refl; same_funds = refl }))))

-- How the handling of an action ends. It succeeds only for the user whose turn it is in the game
-- that was loaded under the lock, whose action was accepted with its chips moved once; then the
-- game that `_process_playing` made of it was saved. It fails after such an action, with the chips
-- moved, where `_process_playing` raised or did not end, or the save did not succeed; then stored
-- is what the calls of `progress_stage` stored last, if anything, or the game of a save that raised
-- after its effect. It fails where an exception left the processor of the user on turn, with
-- nothing stored, and with the funds as before or as after the action. Otherwise it fails because
-- the lock or the game was not had, it was not the user's turn, or the action was refused, with
-- nothing stored and the funds as they were.
pub handle_locked_player_action-Handled :
    (c : TurnCalls) (a : PlayerAction) (user : ℕ) (w : Purse)
    → Handled c a user w (handle_locked_player_action c user (process a) w)
unfolding handle_locked_player_action
handle_locked_player_action-Handled c a user w = by_lock c.lock refl
  where
    loaded_step :
        (g : Game)
        → c.lock ≡ lock_held
        → c.load ≡ game_loaded g
        → handle_locked_player_action c user (process a) w ≡ act_on c user (process a) w g
    loaded_step g e f = rw (e, f, handle_locked_player_action) refl

    by_load :
        (l : LoadReply)
        → c.lock ≡ lock_held
        → c.load ≡ l
        → Handled c a user w (handle_locked_player_action c user (process a) w)
    by_load load_failed e f = not_taken c a user w (unloaded (inl f)) (rw (e, f) refl)
    by_load no_game e f = not_taken c a user w (unloaded (inr f)) (rw (e, f) refl)
    by_load (game_loaded g) e f =
        subst (λ r. Handled c a user w r) (sym (loaded_step g e f))
          (act_on-Handled c a user w g g.current_player_index e f refl)

    by_lock :
        (l : LockReply)
        → c.lock ≡ l
        → Handled c a user w (handle_locked_player_action c user (process a) w)
    by_lock lock_error e = not_taken c a user w (unlocked (inl e)) (rw e refl)
    by_lock lock_busy e = not_taken c a user w (unlocked (inr e)) (rw e refl)
    by_lock lock_held e = by_load c.load e refl
