-- ===== src/Assignments/Pause.antt =====
-- `pause_game_assignment`, `pause_unstarted_game_assignment` and `resume_paused_tournament_games` of
-- cope/db/repo.py. The state of a checkpoint is the text of its JSON. An exception rolls the
-- transaction back: the database is as before.
use cope_chess.Prelude.{
  ℕ, List, [], ◌∷◌, ◌++◌, Option, none, some, Bool, ◌&&◌, ◌==◌, if◌then◌else◌, any, first, String,
}
use cope_chess.Exec.{Result, ok, err}
use cope_chess.Tournament.Records.{GameRecord, GameStatus}
use cope_chess.Assignments.Records.{
  AssignmentRecord, AssignmentStatus, AssignmentError, no_longer_active, Pool, CheckpointRecord,
  is_active, is_unstarted, is_live, is_assigned, update_games, update_assignments, update_where,
  with_game_status, row_count, get_game_assignment,
}
use cope_chess.Assignments.Progress.{held_by}

unfoldable pub get_game_pause_checkpoint : ℕ → Pool → Option CheckpointRecord
get_game_pause_checkpoint game_id p = first (λ c. c.game_id == game_id) p.checkpoints

unfoldable pub expired : ℕ → AssignmentRecord → AssignmentRecord
expired now a = record a {
  status = AssignmentStatus.expired;
  finished_at = some now;
  last_error = none;
  worker_id = none;
}

-- INSERT … ON CONFLICT(game_id) DO UPDATE
unfoldable pub save_checkpoint : ℕ → String → Pool → Pool
unfolding update_where
save_checkpoint game_id state p =
    if any (λ c. c.game_id == game_id) p.checkpoints
    then record p {
      checkpoints =
          update_where (λ c. c.game_id == game_id)
            (λ c. record c { state = state; paused_at = p.db.clock }) p.checkpoints;
    }
    else record p {
      checkpoints =
          p.checkpoints
          ++ (record { game_id = game_id; state = state; paused_at = p.db.clock } ∷ []);
    }

unfoldable pub pause_found :
    Option AssignmentRecord → ℕ → ℕ → String → Pool → Result AssignmentError Unit × Pool
unfolding update_assignments expired row_count save_checkpoint
pause_found none assignment_id assignment_key state p = (err no_longer_active, p)
pause_found (some a) assignment_id assignment_key state p =
    let paused =
      update_assignments (held_by is_active assignment_id assignment_key) (expired p.db.clock) p in
    if a.assignment_key == assignment_key
      && row_count (held_by is_active assignment_id assignment_key) p.assignments == 1
    then (ok tt, save_checkpoint a.game_id state paused)
    else (err no_longer_active, p)

unfoldable pub pause_game_assignment : ℕ → ℕ → String → Pool → Result AssignmentError Unit × Pool
unfolding pause_found get_game_assignment
pause_game_assignment assignment_id assignment_key state p =
    pause_found (get_game_assignment assignment_id p) assignment_id assignment_key state p

unfoldable pub pause_unstarted_found : Option AssignmentRecord → ℕ → ℕ → Pool → Pool
unfolding update_assignments expired row_count update_games with_game_status
pause_unstarted_found none assignment_id assignment_key p = p
pause_unstarted_found (some a) assignment_id assignment_key p =
    let paused =
      update_assignments (held_by is_unstarted assignment_id assignment_key) (expired p.db.clock)
        p in
    if a.assignment_key == assignment_key
    then if row_count (held_by is_unstarted assignment_id assignment_key) p.assignments == 1
      then update_games (λ g. g.id == a.game_id && is_assigned g.status)
          (with_game_status GameStatus.pending) paused
      else paused
    else p

unfoldable pub pause_unstarted_game_assignment : ℕ → ℕ → Pool → Pool
unfolding pause_unstarted_found get_game_assignment
pause_unstarted_game_assignment assignment_id assignment_key p =
    pause_unstarted_found (get_game_assignment assignment_id p) assignment_id assignment_key p

abbrev pub resumes : ℕ → List CheckpointRecord → GameRecord → Bool
resumes tournament_id checkpoints g =
    g.tournament_id == tournament_id
    && is_live g.status
    && any (λ (c : CheckpointRecord). c.game_id == g.id) checkpoints

unfoldable pub resume_paused_tournament_games : ℕ → Pool → ℕ × Pool
unfolding update_games with_game_status row_count
resume_paused_tournament_games tournament_id p = (
  row_count (resumes tournament_id p.checkpoints) p.db.games,
  update_games (resumes tournament_id p.checkpoints) (with_game_status GameStatus.pending) p,
)
