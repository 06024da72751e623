-- ===== src/Engine.antt =====
-- The engine's own action handling of pokerapp/game_engine.py: `handle_player_action` and what it
-- calls, over the table state as it is kept in Redis, a dictionary that is read as a record here.
-- A missing entry has the default that the source gives it.
pub mod Players
pub mod Acting
pub mod Deeds
pub mod Rounds
pub mod Turns
pub mod Preparing
pub mod Storing
pub mod Repeats
use poker_telegram_bot.Prelude.{
  ℕ, zero, suc, ◌+◌, ◌-◌, ◌%◌, max, Bool, true, false, not, ◌&&◌, ◌||◌, Option, none, some, List,
  [], ◌∷◌, map, ltb, leb, ◌==◌, if◌then◌else◌, length, get_elem?, keep, all, sum_by, ℤ, pos_part,
  neg_part, sub_ℕ,
}

-- What the entry "state" of a player may hold: the text "folded"; another text that reads "fold"
-- or "folded" in lower case; any other text.
pub data PlayerStatus : Type 0 where
  folded other_fold in_play : PlayerStatus

pub record TablePlayer : Type 0 where
  pub user_id : ℕ
  pub status : PlayerStatus
  pub chips : ℕ
  pub bet : ℕ
  pub has_acted : Bool

pub record TableState : Type 0 where
  pub players : List TablePlayer
  pub current_bet : ℕ
  pub pot : ℕ
  pub current_player_index : ℕ
  pub version : ℕ

-- An action in lower case and without spaces round it; `other` is any other text.
pub data TableAction : Type 0 where
  fold check call raise all_in : TableAction
  other : ℕ → TableAction

abbrev is_raise : TableAction → Bool
is_raise raise = true
is_raise _ = false

abbrev pub is_wager : TableAction → Bool
is_wager call = true
is_wager raise = true
is_wager all_in = true
is_wager _ = false

-- `state == "folded"`, and the test in lower case.
abbrev pub is_folded : PlayerStatus → Bool
is_folded folded = true
is_folded _ = false

abbrev reads_folded : PlayerStatus → Bool
reads_folded in_play = false
reads_folded _ = true

abbrev not_folded : TablePlayer → Bool
not_folded p = not (is_folded p.status)

-- `_is_valid_action`; the configuration says which actions there are.
unfoldable pub is_valid_action : (TableAction → Bool) → TablePlayer → TableAction → ℤ → Bool
is_valid_action known p action amount =
    if not (known action)
    then false
    else if reads_folded p.status
    then false
    else if is_raise action && leb (pos_part amount) 0
    then false
    else true

-- `_find_player`
unfoldable pub find_player : List TablePlayer → ℕ → Option TablePlayer
find_player [] user = none
find_player (p ∷ ps) user = if p.user_id == user then some p else find_player ps user

-- The player that `_find_player` finds is the entry of the list itself: writing to it is writing
-- to the list.
unfoldable pub write_player : List TablePlayer → ℕ → TablePlayer → List TablePlayer
write_player [] user q = []
write_player (p ∷ ps) user q = if p.user_id == user then q ∷ ps else p ∷ write_player ps user q

-- `_get_current_player`
unfoldable pub get_current_player : TableState → Option TablePlayer
get_current_player t = get_elem? t.players t.current_player_index

-- `_calculate_required_amount`
unfoldable pub calculate_required_amount : TableAction → ℕ → ℕ → ℕ → ℤ → ℤ
calculate_required_amount call current_bet player_bet chips amount = sub_ℕ current_bet player_bet
calculate_required_amount raise current_bet player_bet chips amount =
    sub_ℕ (current_bet + pos_part amount) (player_bet + neg_part amount)
calculate_required_amount all_in current_bet player_bet chips amount = ℤ.pos chips
calculate_required_amount _ current_bet player_bet chips amount = ℤ.pos 0

-- The player and the table's current bet after a wager of `contribution`.
place_wager : TableAction → ℕ → TablePlayer → ℕ → Option (TablePlayer × ℕ)
place_wager action contribution p current_bet =
    let q : TablePlayer = record p {
      chips = p.chips - contribution;
      bet = p.bet + contribution;
      has_acted = true;
    } in
    if ltb p.chips contribution
    then none
    else some (q, (elim action [ call ↦ current_bet | _ ↦ max current_bet (p.bet + contribution) ]))

-- `_apply_player_action`; `none` where it returns `False`.
unfoldable pub apply_player_action : TableAction → ℤ → TablePlayer → ℕ → Option (TablePlayer × ℕ)
unfolding place_wager
apply_player_action fold amount p current_bet =
    some (record p { status = folded; has_acted = true }, current_bet)
apply_player_action check amount p current_bet = some (record p { has_acted = true }, current_bet)
apply_player_action (other n) amount p current_bet = none
apply_player_action action amount p current_bet = place_wager action (pos_part amount) p current_bet

-- `_is_betting_round_complete`
unfoldable pub is_betting_round_complete : TableState → Bool
is_betting_round_complete t =
    let active = keep not_folded t.players in
    if leb (length active) 1
    then true
    else all (λ p. p.has_acted) active && all (λ p. p.bet == t.current_bet || p.chips == 0) active

-- `_needs_pot_update`
unfoldable pub needs_pot_update : TableAction → TableState → Bool
unfolding is_betting_round_complete
needs_pot_update action t = is_wager action && is_betting_round_complete t

abbrev pub clear_bet : TablePlayer → TablePlayer
clear_bet p = record p { bet = 0 }

-- `_update_pot_from_bets`
unfoldable pub update_pot_from_bets : TableState → TableState
update_pot_from_bets t = record t {
  pot = t.pot + sum_by (λ p. p.bet) t.players;
  players = map clear_bet t.players;
}

-- The loop of `_advance_to_next_player`, with `rounds` offsets left, the next being `offset`.
unfoldable pub next_unfolded : List TablePlayer → ℕ → ℕ → ℕ → Option ℕ
next_unfolded ps current zero offset = none
next_unfolded ps current (suc rounds) offset =
    elim (get_elem? ps ((current + offset) % length ps)) [
      | none ↦ none
      | some p ↦
          let later = next_unfolded ps current rounds (offset + 1) in
          if not_folded p then some ((current + offset) % length ps) else later
    ]

-- `_advance_to_next_player`
unfoldable pub advance_to_next_player : TableState → TableState
unfolding next_unfolded
advance_to_next_player t =
    elim (next_unfolded t.players t.current_player_index (length t.players) 1) [
      | none ↦ t
      | some i ↦ record t { current_player_index = i }
    ]

-- A call that waits: it answers, or leaves by `TimeoutError`, or by another exception.
pub data Answer {ℓ} (A : Type ℓ) : Type ℓ where
  answered : A → Answer A
  timed_out broken : Answer A

infixl 5 ◌>>=◌
abbrev ◌>>=◌ {ℓ κ} : {A : Type ℓ} {B : Type κ} → Answer A → (A → Answer B) → Answer B
answered a >>= f = f a
timed_out >>= f = timed_out
broken >>= f = broken

-- The messages of a reply.
pub data Message : Type 0 where
  game_not_found player_not_found invalid_action cannot_act action_failed : Message
  state_conflict busy internal_error : Message

pub data Reply : Type 0 where
  refused : Message → Reply
  succeeded : TableState → Reply

-- What the calls of one request meet: each lock, both loads and the save. Others may write the
-- table in between, so the loads need not agree with one another or with what the save finds.
pub record Calls : Type 0 where
  pub read_lock : Answer (Unit {0})
  pub first_load : Answer (Option TableState)
  pub player_lock : Answer (Unit {0})
  pub second_load : Answer (Option TableState)
  pub pot_lock : Answer (Unit {0})
  pub write_lock : Answer (Unit {0})
  -- A save that does not answer may have reached the hash all the same.
  pub save_call : Answer (Unit {0})
  pub save_landed : Bool

-- The script of `_save_state_to_redis`: the version in the hash must be the expected one, and a
-- missing hash counts as version 0.
unfoldable pub save_script : Option TableState → TableState → ℕ → Option TableState × Bool
save_script stored t expected =
    let found : ℕ = elim stored [ none ↦ 0 | some s ↦ s.version ] in
    if found == expected
    then (some (record t { version = expected + 1 }), true)
    else (stored, false)

-- `save_game_state`
unfoldable pub save_game_state : Option TableState → TableState → Option TableState × Bool
unfolding save_script
save_game_state stored t = save_script stored t (t.version - 1)

-- Step 1 of `handle_player_action`: the request is looked at under the table's read lock.
check_request : (TableAction → Bool) → Calls → ℕ → TableAction → ℤ → Answer (Option Message)
unfolding is_valid_action find_player
check_request known calls user action amount = do
  _ ← calls.read_lock
  loaded ← calls.first_load
  answered (elim loaded [
    | none ↦ some game_not_found
    | some t ↦ elim (find_player t.players user) [
      | none ↦ some player_not_found
      | some p ↦ if is_valid_action known p action amount then none else some invalid_action
    ]
  ])

-- What a request does to the table that it has loaded: nothing but a refusal, or the new table.
pub data Change : Type 0 where
  turned_down : Message → Change
  changed : TableState → Change

-- The player's part of step 2, on the table as it was loaded.
unfoldable pub act : TableAction → ℤ → ℕ → TableState → Option TablePlayer → Change
unfolding calculate_required_amount apply_player_action write_player
act action amount user t none = turned_down cannot_act
act action amount user t (some p) =
    let required = calculate_required_amount action t.current_bet p.bet p.chips amount in
    if p.has_acted
    then turned_down cannot_act
    else (elim (apply_player_action action required p t.current_bet) [
      | none ↦ turned_down action_failed
      | some (q, bet) ↦
          changed (record t { players = write_player t.players user q; current_bet = bet })
    ])

-- Step 2: the player's state, under the player's lock.
update_player : Calls → ℕ → TableAction → ℤ → Answer Change
unfolding act find_player
update_player calls user action amount = do
  _ ← calls.player_lock
  loaded ← calls.second_load
  answered (elim loaded [
    | none ↦ turned_down game_not_found
    | some t ↦ act action amount user t (find_player t.players user)
  ])

-- Step 3: the pot, under its lock, if the round is complete.
settle_bets : Calls → TableAction → TableState → Answer TableState
unfolding needs_pot_update update_pot_from_bets
settle_bets calls action t =
    let settled = calls.pot_lock >>= λ _. answered (update_pot_from_bets t) in
    if needs_pot_update action t then settled else answered t

-- The save of step 4, once the table's write lock is held.
save_table : Calls → Option TableState → TableState → Reply × Option TableState
unfolding save_game_state
save_table calls stored final_state =
    let (stored', done) = save_game_state stored final_state in
    elim calls.save_call [
      | answered _ ↦ (if done then succeeded final_state else refused state_conflict, stored')
      | timed_out ↦ (refused busy, if calls.save_landed then stored' else stored)
      | broken ↦ (refused internal_error, if calls.save_landed then stored' else stored)
    ]

-- Step 4: the turn and the save, under the table's write lock. Copying the player's snapshot onto
-- the player changes nothing: it is the same entry of the same list.
persist : Calls → Option TableState → TableState → Reply × Option TableState
unfolding advance_to_next_player save_table
persist calls stored t =
    let moved = advance_to_next_player t in
    elim calls.write_lock [
      | answered _ ↦ save_table calls stored (record moved { version = moved.version + 1 })
      | timed_out ↦ (refused busy, stored)
      | broken ↦ (refused internal_error, stored)
    ]

-- Steps 1 and 2 read only; their result is a refusal or the changed table after step 3.
pub prepare : (TableAction → Bool) → Calls → ℕ → TableAction → ℤ → Answer Change
unfolding check_request update_player settle_bets
prepare known calls user action amount = do
  verdict ← check_request known calls user action amount
  change ← elim verdict [
    | some m ↦ answered (turned_down m)
    | none ↦ update_player calls user action amount
  ]
  elim change [
    | turned_down m ↦ answered (turned_down m)
    | changed t ↦ settle_bets calls action t >>= λ settled. answered (changed settled)
  ]

-- `handle_player_action` with its two handlers of exceptions: the reply, and what the table's hash holds after it; `stored` is what it
-- holds before the save.
unfoldable pub handle_player_action :
    (TableAction → Bool)
    → Calls
    → Option TableState
    → ℕ
    → TableAction
    → ℤ
    → Reply × Option TableState
unfolding prepare persist
handle_player_action known calls stored user action amount =
    elim (prepare known calls user action amount) [
      | answered (turned_down m) ↦ (refused m, stored)
      | answered (changed t) ↦ persist calls stored t
      | timed_out ↦ (refused busy, stored)
      | broken ↦ (refused internal_error, stored)
    ]
