-- ===== src/Tests/Engine.antt =====
-- Runs of the engine's action handling.
use poker_telegram_bot.Prelude.{ℕ, ◌≡◌, refl, Bool, true, false, Option, some, [], ◌∷◌, pos}
use poker_telegram_bot.Engine.{
  TablePlayer, TableState, TableAction, in_play, folded, Calls, answered, Message, refused,
  find_player, handle_player_action,
}
use poker_telegram_bot.Engine.Acting.{HasActed}
use poker_telegram_bot.Engine.Storing.{Handled, handle_player_action-Handled}
use poker_telegram_bot.Engine.Repeats.{Requests, no_more, request, acts_once}

abbrev seated : ℕ → Bool → TablePlayer
seated u acted = record { user_id = u; status = in_play; chips = 100; bet = 10; has_acted = acted }

abbrev out : TablePlayer
out = record { user_id = 3; status = folded; chips = 50; bet = 0; has_acted = true }

-- The second player has 20 to call.
abbrev table : Bool → TableState
table acted = record {
  players = seated 1 acted ∷ out ∷ seated 2 false ∷ [];
  current_bet = 30;
  pot = 15;
  current_player_index = 0;
  version = 4;
}

abbrev any_action : TableAction → Bool
any_action a = true

abbrev calls : TableState → Calls
calls t = record {
  read_lock = answered tt;
  first_load = answered (some t);
  player_lock = answered tt;
  second_load = answered (some t);
  pot_lock = answered tt;
  write_lock = answered tt;
  save_call = answered tt;
  save_landed = false;
}

handle_player_action-Handled_example :
    Handled (calls (table false)) (some (table false)) 1 TableAction.call (pos 0) (
      handle_player_action any_action
        (calls (table false))
        (some (table false))
        1
        TableAction.call
        (pos 0))
handle_player_action-Handled_example =
    handle_player_action-Handled (calls (table false)) (some (table false)) 1 TableAction.call
      (pos 0) any_action

found_first : find_player (table false).players 1 ≡ some (seated 1 false)
unfolding find_player
found_first = refl

-- What the request reads is what the hash holds.
same :
    (l : TableState)
    → (calls (table true)).second_load ≡ answered (some l)
    → some (table true) ≡ some l
same l e = cc

-- The other player folds, after the first has acted.
after_fold :
    Requests
      (some (table true))
      (handle_player_action any_action
        (calls (table true))
        (some (table true))
        2
        TableAction.fold
        (pos 0)).1
after_fold =
    request any_action (calls (table true)) 2 TableAction.fold (pos 0) no_more (λ l e v. same l e)
      refl

acted_first : HasActed 1 true (table true)
unfolding find_player
acted_first = (seated 1 true, refl, refl)

abbrev after : Option TableState
after =
    (handle_player_action any_action (calls (table true)) (some (table true)) 2 TableAction.fold
      (pos 0)).1

abbrev calls_after : Calls
calls_after = record (calls (table true)) {
  first_load = answered after;
  second_load = answered after;
}

acts_once_example :
    (m : Message) × (handle_player_action any_action calls_after after 1 TableAction.call (pos 0)
      ≡ (refused m, after))
acts_once_example =
    acts_once 1 (table true) after acted_first after_fold any_action calls_after TableAction.call
      (pos 0) (λ l e v. cc)
