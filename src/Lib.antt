-- ===== src/Lib.antt =====
-- Verification of a Telegram poker bot (pokerapp/, in Python): the chips, the cards and the turns
-- of a Texas Hold'em table, from a button press to the credited pot.
--
-- The program's parts and the files that model them:
--
--   Cards        pokerapp/cards.py: ranks, suits, values, the deck before the shuffle.
--   Entities     pokerapp/entities.py: `Player`, `Game` and the table's seats. Entities/Seats and
--                Entities/Membership: taking and leaving seats. Entities/Dealer: the dealer button.
--                Entities/Callbacks and its child: which button presses have been handled.
--   Winner       pokerapp/winnerdetermination.py: the value of a hand. Winner/Score, Winner/Order
--                and Winner/Best: the order on scores, on hands, and the best of seven cards.
--   Pots         pokerapp/game_engine.py, `_determine_winners`, `_determine_pot_winners`,
--                `_process_showdown_results`, `_process_fold_win`, `_distribute_payouts`.
--                Pots/Layers, Pots/Conserve, Pots/Shares, Pots/Settlement and Pots/DeadMoney: side
--                pots, their sum, their shares, and what reaches the wallets.
--   Wallet       pokerapp/wallet_service.py: reservations as a two-phase commit. Wallet/Faultless:
--                `reserve_chips`. Wallet/Refunds: `commit_reservation`, `rollback_reservation` and
--                the watchdog. Wallet/Reservations: lookups.
--   Betting      pokerapp/betting_handler.py: Betting/Retry, Betting/Handler, and the proofs in
--                Betting/Validation, Betting/Commit and Betting/Atomicity.
--   WalletManager  pokerapp/pokerbotmodel.py, `WalletManagerModel`: balances and the money that is
--                set aside for a game.
--   Play         pokerapp/pokerbotmodel.py: the action processors, `_is_betting_round_over` and
--                `RoundRateModel`. Play/Turn: `_handle_locked_player_action` and
--                `_process_playing`, whose endings are in Play/Turn/Outcomes. Play/Blinds: `set_blinds`, and `_refund_players` of
--                pokerapp/game_engine.py. Play/Unpaid: players without a wallet. Play/Money,
--                Play/Rounds and their like: the proofs.
--   Stages       pokerapp/matchmaking_service.py: `progress_stage`, showing and dealing cards.
--   Session      a hand as a relation of steps over the functions of Play and Stages: blinds,
--                actions, turns and streets. Session/Users, Session/Steps, Session/Blinds and
--                Session/Conserve: what the wallets and the pot hold together.
--   Engine       pokerapp/game_engine.py, `handle_player_action` and what it calls, over the tables that
--                the engine itself keeps in Redis, with the script that saves them. Engine/Rounds and
--                Engine/Turns: what an action costs and who is next. Engine/Acting, Engine/Deeds,
--                Engine/Preparing, Engine/Storing and Engine/Repeats: one request, and any sequence of requests.
--   Validator    pokerapp/state_validator.py: the checks of a game that was read back, and its
--                recovery (Validator/Recovery); hands in play (Validator/Hands).
--   Tables       pokerapp/table_manager.py: `load_game`, `load_game_with_version`,
--                `save_game_with_version_check`, `save_game`, `delete_game`. Tables/Loading and
--                Tables/Versions: validated loads, and optimistic locking.
--   Locks        Locks/Reentrant: pokerapp/utils/locks.py. Locks/ReadWrite: `table_read_lock` and
--                `table_write_lock` of pokerapp/lock_manager.py as steps of any tasks.
--                Locks/ActionStore: `_InMemoryActionLockBackend` of the same file. Locks/Levels:
--                `_validate_lock_order`, `_validate_lock_hierarchy` and the records of what a task
--                holds. Locks/Circuit: the circuit breaker. Locks/Deadlock: `detect_deadlock`
--                and `_detect_cycles`, a depth-first search. Locks/Batches: `acquire` and
--                `acquire_batch`, with `release` in Locks/Batches/Reentry.
--   PlayerManager  pokerapp/player_manager.py: `reseat_players`, `seat_player`, `remove_player` and
--                `assign_role_labels`.
--   Joining      pokerapp/game_engine.py, `join_game` and `leave_game` over the table manager.
--                Joining/Tries, Joining/Seats and Joining/Leaving: the attempts, and who sits at the
--                table afterwards.
--   CountdownQueue  pokerapp/services/countdown_queue.py: the queue of countdown updates over a store
--                of shared messages. CountdownQueue/Entries, CountdownQueue/Tracked,
--                CountdownQueue/Queueing and CountdownQueue/Draining: each method.
--                CountdownQueue/Runs: all sequences of calls.
--   Tests        concrete runs of the theorems. Prelude: shared names, lists, tests, integers.
--
-- How they interact: a player's action reaches `_handle_locked_player_action`, whose processor
-- debits the wallet (WalletManager) and changes the game (Entities); `_process_playing` hands the
-- turn on or calls the engine's `progress_stage`, which answers from a script; the streets (Stages)
-- are modelled in the matchmaking service, and a finished hand is evaluated (Winner) and paid out
-- (Pots). The betting handler is the second way to bet: it reserves chips with the wallet service,
-- takes the table lock, commits and saves, and rolls back where a step fails. The engine's
-- `handle_player_action` is the third: it acts on the engine's own tables and touches no wallet. The
-- table manager passes every game that it loads to the validator, which knows the game of Entities.
--
-- How the code is written down: a method is a function from the state before to the state after
-- and what is returned; an exception that the caller sees is a value. A remote call (Redis, the
-- wallet repository, the table manager, the locks) answers from an argument, which may be any
-- answer, an exception included, and for the wallet service also an effect followed by a timeout.
-- The wallet repository is declared in the source as a protocol only; it is a record of operations
-- with the laws of a ledger, and Tests/Data has one. Users, chats, games and reservation ids are
-- numbers that are only compared. Amounts are natural numbers; an index that may be -1 is an
-- integer. Concurrent users are modelled one call at a time where locks make a call's steps a unit;
-- the readers-writer lock itself is a relation of steps, one for each stretch between two waits, and
-- what others write between two reads of Redis is an argument. The loops of `join_game` and
-- `leave_game` are watched for as many attempts as the argument lists.
--
-- Bounds and fuel: the table has eight seats, and `next_occupied_seat` looks at eight. The loop of
-- `progress_stage` runs on fuel 4, one round for each street. The retry loop of the betting handler
-- is a recursion on the retries that are left. The depth of the search for deadlocks is fuel, one
-- for each name in the graph, which is enough: a call visits a task that no call has visited. Every
-- other loop is a recursion on the list or the number that it walks through.
--
-- Not modelled: Telegram messages and keyboards, statistics, metrics and logging, timers, the lock
-- manager's orphaned locks, retries, queues and tracing, the table manager's cache and player
-- index, pickling (a stored game is read back as it is), `finish_rate`,
-- `_progress_stage_snapshot`, `determine_best_hand`, the shuffle, and how long Redis keys live.
pub mod Prelude
pub mod Cards
pub mod Entities
pub mod Winner
pub mod Pots
pub mod Wallet
pub mod Betting
pub mod WalletManager
pub mod Play
pub mod Stages
pub mod Session
pub mod Tests
pub mod Engine
pub mod Validator
pub mod Tables
pub mod Locks
pub mod PlayerManager
pub mod Joining
pub mod CountdownQueue
