-- ===== src/Examples/Assignments.antt =====
-- A tournament with one game in play, one that waits, and two workers.
use cope_chess.Prelude.{ℕ, [], ◌∷◌, none, some, ◌≡◌, refl, All, any, true, false, ◌==◌, ◌&&◌}
use cope_chess.Tournament.Records.{GameRecord, GameStatus}
use cope_chess.Assignments.Records.{
  AssignmentRecord, AssignmentStatus, Pool, WorkerRow, WorkerStatus, get_game_assignment,
  update_games, with_game_status, update_assignments, update_where,
}
use cope_chess.Assignments.Claim.{assign_game_to_worker, breaks_constraint, claimable}
use cope_chess.Assignments.Pause.{pause_game_assignment, resume_paused_tournament_games}
use cope_chess.Assignments.Reset.{
  fail_game_assignment, fail_if_current, fail_found, given_up, reset_games_for_replay, reset_ids,
  reset_game, resettable_ids, is_resettable,
}
use cope_chess.Assignments.Workers.{disconnect_worker, held_active}
use cope_chess.Assignments.Safe.{IsSafe}
use cope_chess.Assignments.Steps.{start, then_step, assigning, failing, Steps-IsSafe}
use cope_chess.Assignments.Fencing.{IsFenced, assign_game_to_worker-IsFenced}
use cope_chess.Assignments.Fresh.{IsFresh, fail_game_assignment-IsFresh, disconnect_worker-leaves}
use cope_chess.Assignments.Resume.{IsClaimed, paused_game-returns}
use cope_chess.Examples.Data.{fresh_db, played_game}

abbrev waiting : GameRecord
waiting = record (played_game 100 4 5 none) { status = GameStatus.pending }

abbrev in_play : GameRecord
in_play = record (played_game 101 5 6 none) { status = GameStatus.live }

abbrev current : AssignmentRecord
current = record {
  id = 1;
  game_id = 101;
  assignment_key = 11;
  worker_id = some 7;
  status = AssignmentStatus.live;
  sent_at = some 4;
  acked_at = some 4;
  finished_at = none;
  last_error = none;
}

abbrev a_worker : ℕ → WorkerRow
a_worker id = record { id = id; status = WorkerStatus.busy; session_id = some 70; last_seen = none }

abbrev pool : Pool
pool = record {
  db = record fresh_db { games = waiting ∷ in_play ∷ [] };
  assignments = current ∷ [];
  moves = record { game_id = 101; ply = 1; uci = "e2e4" } ∷ [];
  checkpoints = [];
  replayed = [];
  workers = a_worker 7 ∷ a_worker 8 ∷ [];
  fixtures = [];
  next_assignment_id = 2;
  rated_game_ids = [];
  rating_commits = [];
  chat_events = [];
  chat_messages = [];
}

pool-IsSafe : IsSafe pool
pool-IsSafe = record {
  apart = ((refl, (refl, tt)), tt);
  one_each = (refl, tt);
  ids = (refl, tt);
  game_ids = (refl, (refl, tt));
  fresh = (refl, tt);
}

-- the game in play fails, and another worker claims it
abbrev failed : Pool
failed = fail_game_assignment 1 11 "engine crashed" pool

Steps-IsSafe_example : IsSafe (assign_game_to_worker 101 12 8 failed).1
Steps-IsSafe_example =
    Steps-IsSafe (λ t p. p) (λ t p s. s) pool (assign_game_to_worker 101 12 8 failed).1
      (then_step pool failed _
        (then_step pool pool failed (start pool) (failing 1 11 "engine crashed" pool))
        (assigning 101 12 8 failed))
      pool-IsSafe

fail_game_assignment-IsFresh_example : IsFresh 101 failed
unfolding get_game_assignment
fail_game_assignment-IsFresh_example =
    fail_game_assignment-IsFresh 1 11 "engine crashed" pool current pool-IsSafe refl refl refl refl

abbrev given_up_row : AssignmentRecord
given_up_row = record current {
  status = AssignmentStatus.abandoned;
  finished_at = some 5;
  last_error = some "engine crashed";
}

failed-IsSafe : IsSafe failed
failed-IsSafe =
    Steps-IsSafe (λ t p. p) (λ t p s. s) pool failed
      (then_step pool pool failed (start pool) (failing 1 11 "engine crashed" pool)) pool-IsSafe

assign_game_to_worker-IsFenced_example : IsFenced 1 11 (assign_game_to_worker 101 12 8 failed).1
unfolding fail_game_assignment fail_if_current fail_found get_game_assignment given_up
    reset_games_for_replay reset_ids update_games update_where reset_game breaks_constraint
    resettable_ids update_assignments
assign_game_to_worker-IsFenced_example =
    assign_game_to_worker-IsFenced 101 12 8 failed given_up_row failed-IsSafe refl refl refl refl
      refl

disconnect_worker-leaves_example :
    (any (held_active 7) (disconnect_worker 7 (some 70) "worker connection lost" pool).1.assignments
      ≡ false)
    × All
        (λ a.
          held_active 7 a ≡ true
          → any (λ g. g.id == a.game_id && is_resettable false g.status) pool.db.games ≡ true
          → IsFresh a.game_id (disconnect_worker 7 (some 70) "worker connection lost" pool).1)
        pool.assignments
disconnect_worker-leaves_example =
    disconnect_worker-leaves 7 (some 70) "worker connection lost" (a_worker 7) pool pool-IsSafe refl
      refl

paused_game-returns_example : IsClaimed 101 13 "{\"ply\":1}" pool (
    assign_game_to_worker 101 13 8
      (resume_paused_tournament_games 1 (pause_game_assignment 1 11 "{\"ply\":1}" pool).1).1)
unfolding get_game_assignment breaks_constraint
paused_game-returns_example =
    paused_game-returns 1 11 "{\"ply\":1}" 1 13 8 pool current pool-IsSafe refl refl refl refl refl

-- A tournament that is resumed while a game with an earlier checkpoint is still in play gives the game
-- away: it is claimed although its assignment is active.
resumed_in_play :
    any
      (claimable 101)
      (resume_paused_tournament_games 1 (record pool {
        checkpoints = record { game_id = 101; state = "{}"; paused_at = 2 } ∷ [];
      })).1.db.games
    ≡ true
unfolding resume_paused_tournament_games update_games update_where with_game_status
resumed_in_play = refl
