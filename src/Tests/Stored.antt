-- ===== src/Tests/Stored.antt =====
-- Runs of the validator and of the table manager.
use poker_telegram_bot.Prelude.{◌≡◌, refl, Bool, true, none, some, [], ◌∷◌, arith, minus_one}
use poker_telegram_bot.Cards.{get_cards}
use poker_telegram_bot.Entities.{Game, round_pre_flop, round_flop, round_turn, active}
use poker_telegram_bot.Stages.{divide_cards}
use poker_telegram_bot.Validator.{
  Snapshot, snapshot, validate_game, IsValid, new_game, Ready, show_streets, hand_stays-IsValid,
}
use poker_telegram_bot.Tables.{
  Redis, pickled, number, load_game, load_game_with_version, save_game_with_version_check,
  save_game, find_version, get_game_version, undisturbed, saved, conflict,
}
use poker_telegram_bot.Tables.Loading.{FoundValid, HoldsValid, load_game_valid}
use poker_telegram_bot.Tables.Versions.{
  Touches, untouched, then_touched, plain, looked, save_once, late_reset_overwrites,
  stale_load_overwrites,
}
use poker_telegram_bot.Tests.Data.{opening_game, game_with, player_with}

abbrev waiting_game : Game
waiting_game =
    game_with round_pre_flop 0 0
      (some (player_with 1 active [] 0 0)
        ∷ some (player_with 2 active [] 0 0)
        ∷ none
        ∷ none
        ∷ none
        ∷ none
        ∷ none
        ∷ none
        ∷ [])
      [] get_cards minus_one

ready : Ready waiting_game
ready = record { whole = refl; no_board = refl; dealer = refl; few = omega arith }

hand_stays-IsValid_example :
    (g' : Game) × (divide_cards (λ k. get_cards) waiting_game ≡ some g')
    × IsValid (
        snapshot (
          show_streets
            ((round_flop, 3) ∷ (round_turn, 1) ∷ [])
            (record g' { state = round_pre_flop })))
hand_stays-IsValid_example =
    hand_stays-IsValid (λ k. get_cards) waiting_game round_pre_flop
      ((round_flop, 3) ∷ (round_turn, 1) ∷ []) (λ k. omega arith) ready refl (refl, (refl, tt))

abbrev stored : Redis
stored = record { game = some (pickled (snapshot opening_game)); version = some (number 3) }

load_game_valid_example :
    FoundValid (load_game true 5 get_cards true stored).0.found
    × (◌≡◌ {A = Bool} true true → HoldsValid (load_game true 5 get_cards true stored).1.game)
load_game_valid_example = load_game_valid 5 get_cards refl true stored

abbrev empty_table : Snapshot
empty_table = snapshot (new_game 6 get_cards)

empty_table-IsValid : IsValid empty_table
unfolding validate_game
empty_table-IsValid = refl

abbrev after_save : Redis
after_save = (save_game_with_version_check undisturbed empty_table 3 stored).1

abbrev after_both : Redis
after_both = record { game = some (pickled (snapshot opening_game)); version = some (number 5) }

done : (save_game_with_version_check undisturbed empty_table 3 stored).0 ≡ saved
unfolding save_game_with_version_check
done = refl

both : Touches 0 after_save 0 after_both
unfolding save_game_with_version_check save_game find_version
both =
    then_touched (then_touched untouched (looked refl))
      (plain true true true (snapshot opening_game) refl)

save_once_example :
    save_game_with_version_check undisturbed empty_table 3 after_both ≡ (conflict, after_both)
save_once_example =
    save_once undisturbed undisturbed empty_table empty_table 3 0 stored after_both done both

stale_load_overwrites_example :
    let others : Redis → Redis =
      λ x. (save_game_with_version_check undisturbed (snapshot opening_game) 3 x).1 in
    let r : Redis = record { game = some (pickled empty_table); version = some (number 3) } in
    let read = load_game_with_version true 5 get_cards true others (λ x. x) r in
    ((save_game_with_version_check undisturbed (snapshot opening_game) 3 r).0 ≡ saved)
    × (read.0 ≡ (some empty_table, 4))
    × (save_game_with_version_check undisturbed empty_table 4 read.1
        ≡ (saved, record { game = some (pickled empty_table); version = some (number 5) }))
stale_load_overwrites_example =
    stale_load_overwrites true 5 get_cards true empty_table (snapshot opening_game) empty_table 3
      (λ x. x) empty_table-IsValid

abbrev no_keys : Redis
no_keys = record { game = none; version = none }

late_reset_overwrites_example :
    let others : Redis → Redis =
      λ x. (save_game_with_version_check undisturbed empty_table 0 x).1 in
    let read = get_game_version others no_keys in
    ((save_game_with_version_check undisturbed empty_table 0 no_keys).0 ≡ saved)
    × (read.0 ≡ 0)
    × (read.1 ≡ record { game = some (pickled empty_table); version = some (number 0) })
    × (save_game_with_version_check undisturbed (snapshot opening_game) 0 read.1 ≡ (
      saved,
      record { game = some (pickled (snapshot opening_game)); version = some (number 1) },
    ))
late_reset_overwrites_example =
    late_reset_overwrites empty_table (snapshot opening_game) no_keys refl
