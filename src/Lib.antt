-- ===== src/Lib.antt =====
-- Cope chess runs tournaments of chess engines: a scheduler creates the games of each tournament and
-- advances it when games finish, workers play the games, and Duck chess is a variant with rules
-- of its own. This library models the parts that decide what is played and what a game comes to.
--
-- Parts and files:
--   * Tournament/Records, Store, Status, Queries: the tables of tournaments, games, matches and
--     openings as lists of rows in the record `Db`, with the queries and updates of
--     cope/db/repo.py that the scheduler makes. Records are those of cope/core/models.py and
--     cope/db/repo.py, without the columns that no modelled code reads.
--   * Tournament/Openings: the choice of openings from a random position of a suite. The random
--     numbers are a parameter of the database, `draws`.
--   * Scheduler: cope/runner/scheduler.py. RoundRobin (`_round_robin_pairings`, the circle method,
--     and `generate_round_robin_games`), Gauntlet, Swiss (Points, Pairing, Colours, Round,
--     Advance), Knockout (Bracket, Round, Resolve, Advance), Create (`_create_scheduled_game`),
--     Start (`start_tournament`, `prepare_tournament`, `materialize_tournament_schedule`,
--     `advance_tournament`) and LiveRoster (the games of an engine that joins later). A
--     function that writes to the database takes a `Db` and returns its result beside the new
--     one; one that raises returns a `Result`. A row that breaks a UNIQUE constraint is not
--     inserted and aborts the transaction; the function that creates games then raises, with the
--     database that it was called with.
--   * Assignments: the assignments of games to workers in cope/db/repo.py. Records has the tables;
--     Claim, Progress, Reset, Pause, Workers, Invalidate, Replay and Abort the calls that change
--     them, Safe an invariant of their state, Steps sequences of eighteen of the calls. Fencing,
--     Resume and Fresh are about a worker that lost its game, a game that was paused, and one
--     that is given back.
--   * Events: Odds is `advance_odds` of cope/events/duck_vs_fish.py; Hooks is the interface to the
--     other events and to the chat, whose tables are not modelled.
--   * Game: TimeControl and Clock are cope/tournament/time_control.py, State is
--     cope/tournament/game_state.py over the interface of a chess board in Boards.
--   * Forms: cope/domains/forms/definition.py. Definition has the records, Compile
--     `compile_definition`, WellFormed what a definition may contain; Emits, Tested, Meaning,
--     Sensible and Accepted lead from the one to the other. Permissions is
--     cope/domains/forms/permissions.py with the checks of cope/domains/forms/storage.py that it
--     makes, over the tables of forms, permissions, objects and tokens, and Uuid the texts of UUIDs.
--   * Execution: the cancelling of operations in cope/domains/execution/admission.py. Cancel has the
--     rows and `cancel_operation`, Shared is about jobs that several operations share, and Settling
--     and Complete about what becomes of an operation that is cancelled and of its jobs.
--   * Variants and Duck: cope/variants. Duck/Legal has `_piece_legal` and `is_legal`, Push has
--     `push`, Moves the list of legal moves, Key the repetition key, Outcome the end of a game,
--     Uci the texts of turns.
--   * Prelude and Exec are shared: lists and options over native numbers, stable sorting, loops.
--     Examples has concrete tournaments, clocks and boards.
--
-- Conventions: points are counted in half points. Times are whole numbers of nanoseconds, where the
-- source has floats of milliseconds. A dictionary is an association list, or a function where it
-- has a default. A call that raises has its transaction rolled back by the caller; the state that
-- comes back beside an error is the one before the call, or before the last step that was taken.
-- Squares are numbered from a1, rank by rank.
--
-- Fuel: the `while True` loop of `_advance_knockout` runs on fuel, and two rounds are enough; the
-- loops of the bracket run on the number of entrants, and `pair` of `_swiss_pairings` on the
-- number of players, since each call has fewer.
--
-- Not modelled: the web interface, the sockets and processes of workers and engines, the updater,
-- the installer and the command line, which are input and output; ratings and estimates, which are
-- floating-point statistics; the texts (FEN, SAN, PGN) of positions and games other than those of
-- Duck turns.
mod Prelude
pub mod Exec
pub mod Tournament
pub mod Scheduler
pub mod Assignments
pub mod Forms
pub mod Execution
pub mod Events
pub mod Game
pub mod Variants
pub mod Duck
mod Examples
