-- ===== src/Assignments/Steps.antt =====
-- Eighteen calls that give out, play, pause, take back, replay and delete games, of
-- cope/db/repo.py and cope/runner/local.py, in any order: each step is one call. Calls that
-- create rows or change the schedule, such as `create_game` and `unschedule_tournament`, are no
-- steps, and neither is `create_game_assignment`, which nothing in the repository calls.
use cope_chess.Prelude.{ℕ, Option, String, [], ◌∷◌, All}
use cope_chess.Tournament.Records.{GameResult, TournamentStatus}
use cope_chess.Assignments.Records.{Pool, MoveRecord}
use cope_chess.Assignments.Claim.{assign_game_to_worker}
use cope_chess.Assignments.Progress.{
  acknowledge_game_assignment, mark_worker_assignment_live, record_move, finish_game,
  finish_game_assignment,
}
use cope_chess.Assignments.Reset.{fail_game_assignment}
use cope_chess.Assignments.Pause.{
  pause_game_assignment, pause_unstarted_game_assignment, resume_paused_tournament_games,
}
use cope_chess.Assignments.Workers.{disconnect_worker, revoke_worker, delete_worker}
use cope_chess.Assignments.Invalidate.{
  invalidate_game_pair, invalidate_tournament_participant_games,
}
use cope_chess.Assignments.Replay.{replay_game, restore_tournament}
use cope_chess.Assignments.Abort.{set_tournament_status}
use cope_chess.Assignments.Safe.{IsSafe}
use cope_chess.Assignments.Safe.Claiming.{assign_game_to_worker-IsSafe}
use cope_chess.Assignments.Safe.Playing.{
  acknowledge_game_assignment-IsSafe, mark_worker_assignment_live-IsSafe, record_move-IsSafe,
  finish_game-IsSafe, finish_game_assignment-IsSafe, pause_game_assignment-IsSafe,
}
use cope_chess.Assignments.Safe.Resetting.{Released, fail_game_assignment-IsSafe}
use cope_chess.Assignments.Safe.Returning.{
  Settled, pause_unstarted_game_assignment-IsSafe, resume_paused_tournament_games-IsSafe,
  set_tournament_status-IsSafe,
}
use cope_chess.Assignments.Safe.Leaving.{
  disconnect_worker-IsSafe, revoke_worker-IsSafe, delete_worker-IsSafe, invalidate_game_pair-IsSafe,
  invalidate_tournament_participant_games-IsSafe,
}
use cope_chess.Assignments.Safe.Replaying.{replay_game-IsSafe, restore_tournament-IsSafe}

module _ (reconcile : ℕ → Pool → Pool) where
  -- A tournament is resumed when no game with a checkpoint is still being played, and a game is
  -- replayed when its assignment is no longer active.
  pub data Step : Pool → Pool → Type 0 where
    assigning :
        (game_id key worker_id : ℕ) (p : Pool)
        → Step p (assign_game_to_worker game_id key worker_id p).1
    acknowledging : (id key : ℕ) (p : Pool) → Step p (acknowledge_game_assignment id key p).1
    going_live : (id : ℕ) (p : Pool) → Step p (mark_worker_assignment_live id p).1
    moving : (id key : Option ℕ) (m : MoveRecord) (p : Pool) → Step p (record_move id key m p).1
    finishing_game :
        (game_id : ℕ) (result : GameResult) (p : Pool) → Step p (finish_game game_id result p)
    finishing : (id key : ℕ) (p : Pool) → Step p (finish_game_assignment id key p)
    failing :
        (id key : ℕ) (error : String) (p : Pool) → Step p (fail_game_assignment id key error p)
    pausing :
        (id key : ℕ) (state : String) (p : Pool) → Step p (pause_game_assignment id key state p).1
    pausing_unstarted : (id key : ℕ) (p : Pool) → Step p (pause_unstarted_game_assignment id key p)
    resuming :
        (tournament_id : ℕ) (p : Pool)
        → All (Settled p.checkpoints) p.assignments
        → Step p (resume_paused_tournament_games tournament_id p).1
    changing_status :
        (tournament_id : ℕ) (status : TournamentStatus) (p : Pool)
        → Step p (set_tournament_status reconcile tournament_id status p)
    disconnecting :
        (worker_id : ℕ) (session_id : Option ℕ) (reason : String) (p : Pool)
        → Step p (disconnect_worker worker_id session_id reason p).1
    revoking : (worker_id : ℕ) (p : Pool) → Step p (revoke_worker worker_id p)
    deleting_worker : (worker_id : ℕ) (p : Pool) → Step p (delete_worker worker_id p)
    invalidating_pair :
        (tournament_id game_id : ℕ) (p : Pool)
        → Step p (invalidate_game_pair tournament_id game_id p).1
    invalidating_games :
        (tournament_id engine_id : ℕ) (p : Pool)
        → Step p (invalidate_tournament_participant_games tournament_id engine_id p).1
    replaying :
        (tournament_id game_id : ℕ) (p : Pool)
        → All (Released (game_id ∷ [])) p.assignments
        → Step p (replay_game reconcile tournament_id game_id p).1
    restoring :
        (tournament_id : ℕ) (p : Pool) → Step p (restore_tournament reconcile tournament_id p).1

  pub data Steps : Pool → Pool → Type 0 where
    start : (p : Pool) → Steps p p
    then_step : (p q r : Pool) → Steps p q → Step q r → Steps p r

  module _
      (keeps : (tournament_id : ℕ) (p : Pool) → IsSafe p → IsSafe (reconcile tournament_id p)) where
    Step-IsSafe : (p q : Pool) → Step p q → IsSafe p → IsSafe q
    Step-IsSafe p _ (assigning g k w _) s = assign_game_to_worker-IsSafe g k w p s
    Step-IsSafe p _ (acknowledging i k _) s = acknowledge_game_assignment-IsSafe i k p s
    Step-IsSafe p _ (going_live i _) s = mark_worker_assignment_live-IsSafe i p s
    Step-IsSafe p _ (moving i k m _) s = record_move-IsSafe i k m p s
    Step-IsSafe p _ (finishing_game g result _) s = finish_game-IsSafe g result p s
    Step-IsSafe p _ (finishing i k _) s = finish_game_assignment-IsSafe i k p s
    Step-IsSafe p _ (failing i k error _) s = fail_game_assignment-IsSafe i k error p s
    Step-IsSafe p _ (pausing i k state _) s = pause_game_assignment-IsSafe i k state p s
    Step-IsSafe p _ (pausing_unstarted i k _) s = pause_unstarted_game_assignment-IsSafe i k p s
    Step-IsSafe p _ (resuming t _ settled) s = resume_paused_tournament_games-IsSafe t p settled s
    Step-IsSafe p _ (changing_status t status _) s =
        set_tournament_status-IsSafe reconcile keeps t status p s
    Step-IsSafe p _ (disconnecting w session reason _) s =
        disconnect_worker-IsSafe w session reason p s
    Step-IsSafe p _ (revoking w _) s = revoke_worker-IsSafe w p s
    Step-IsSafe p _ (deleting_worker w _) s = delete_worker-IsSafe w p s
    Step-IsSafe p _ (invalidating_pair t g _) s = invalidate_game_pair-IsSafe t g p s
    Step-IsSafe p _ (invalidating_games t e _) s =
        invalidate_tournament_participant_games-IsSafe t e p s
    Step-IsSafe p _ (replaying t g _ released) s =
        replay_game-IsSafe reconcile keeps t g p released s
    Step-IsSafe p _ (restoring t _) s = restore_tournament-IsSafe reconcile keeps t p s

    -- However the eighteen calls of `Step` follow each other, which give out, play, pause,
    -- take back, replay and delete games and assignments that exist, a safe database stays
    -- safe: no game that waits to be played or was abandoned gets an active assignment, and
    -- no game a second one. Creating rows is no step, and it is asked that the relay leaves
    -- the database safe, that no game with a checkpoint is in play when its tournament is
    -- resumed, and that a game is replayed when its assignment is no longer active.
    pub Steps-IsSafe : (p q : Pool) → Steps p q → IsSafe p → IsSafe q
    Steps-IsSafe p _ (start _) s = s
    Steps-IsSafe p r (then_step _ q _ steps step) s =
        Step-IsSafe q r step (Steps-IsSafe p q steps s)
