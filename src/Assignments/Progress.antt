-- ===== src/Assignments/Progress.antt =====
-- A game in play: `acknowledge_game_assignment`, `mark_game_assignment_live`, `record_move`,
-- `finish_game` and `finish_game_assignment` of cope/db/repo.py, `mark_worker_assignment_live`
-- of cope/runner/local.py. An exception rolls the
-- transaction back: the database is as before.
use cope_chess.Prelude.{
  ℕ, [], ◌∷◌, ◌++◌, Option, none, some, Bool, not, ◌&&◌, ◌||◌, ◌==◌, if◌then◌else◌, keep, any,
}
use cope_chess.Exec.{Result, ok, err}
use cope_chess.Tournament.Records.{GameRecord, GameStatus, GameResult}
use cope_chess.Assignments.Records.{
  AssignmentRecord, AssignmentStatus, AssignmentError, no_longer_active,
  no_longer_awaiting_readiness, unknown_assignment, id_without_key, constraint_violated, Pool,
  MoveRecord, coalesce, is_active, is_unstarted, update_games, update_assignments, with_game_status,
  row_count, get_game_assignment,
}

-- WHERE id = ? AND assignment_key = ? AND status IN (…)
abbrev pub held_by : (AssignmentStatus → Bool) → ℕ → ℕ → AssignmentRecord → Bool
held_by statuses assignment_id assignment_key a =
    a.id == assignment_id && a.assignment_key == assignment_key && statuses a.status

unfoldable pub acknowledged : ℕ → AssignmentRecord → AssignmentRecord
acknowledged now a = record a {
  status = AssignmentStatus.acked;
  acked_at = some (coalesce a.acked_at now);
}

unfoldable pub acknowledge_game_assignment : ℕ → ℕ → Pool → Result AssignmentError Unit × Pool
unfolding update_assignments acknowledged row_count
acknowledge_game_assignment assignment_id assignment_key p =
    if row_count (held_by is_unstarted assignment_id assignment_key) p.assignments == 1
    then (
      ok tt,
      update_assignments (held_by is_unstarted assignment_id assignment_key)
          (acknowledged p.db.clock) p,
    )
    else (err no_longer_awaiting_readiness, p)

unfoldable pub made_live : ℕ → AssignmentRecord → AssignmentRecord
made_live now a = record a {
  status = AssignmentStatus.live;
  acked_at = some (coalesce a.acked_at now);
}

unfoldable pub mark_game_assignment_live : ℕ → Pool → Pool
unfolding update_assignments made_live
mark_game_assignment_live assignment_id p =
    update_assignments (λ a. a.id == assignment_id && is_active a.status) (made_live p.db.clock) p

unfoldable pub mark_game_live : ℕ → Pool → Pool
unfolding update_games with_game_status
mark_game_live game_id = update_games (λ g. g.id == game_id) (with_game_status GameStatus.live)

unfoldable pub live_if_active : Option AssignmentRecord → Pool → Result AssignmentError Unit × Pool
unfolding mark_game_assignment_live mark_game_live
live_if_active none p = (err unknown_assignment, p)
live_if_active (some a) p =
    if is_active a.status
    then (ok tt, mark_game_live a.game_id (mark_game_assignment_live a.id p))
    else (err no_longer_active, p)

unfoldable pub mark_worker_assignment_live : ℕ → Pool → Result AssignmentError Unit × Pool
unfolding live_if_active get_game_assignment
mark_worker_assignment_live assignment_id p = live_if_active (get_game_assignment assignment_id p) p

-- (game_id, ply) is the key of `moves`, and `game_id` refers to a game
unfoldable pub insert_move : MoveRecord → Pool → Result AssignmentError MoveRecord × Pool
insert_move m p =
    if any (λ (n : MoveRecord). n.game_id == m.game_id && n.ply == m.ply) p.moves
      || not (any (λ g. g.id == m.game_id) p.db.games)
    then (err constraint_violated, p)
    else (ok m, record p { moves = p.moves ++ (m ∷ []) })

unfoldable pub record_move :
    Option ℕ → Option ℕ → MoveRecord → Pool → Result AssignmentError MoveRecord × Pool
unfolding insert_move
record_move none none m p = insert_move m p
record_move (some assignment_id) (some assignment_key) m p =
    if any (λ a. held_by is_active assignment_id assignment_key a && a.game_id == m.game_id)
      p.assignments
    then insert_move m p
    else (err no_longer_active, p)
record_move _ _ m p = (err id_without_key, p)

unfoldable pub game_finished : GameResult → GameRecord → GameRecord
game_finished result g = record g { status = GameStatus.finished; result = some result }

unfoldable pub finish_game : ℕ → GameResult → Pool → Pool
unfolding update_games game_finished
finish_game game_id result p =
    record (update_games (λ g. g.id == game_id) (game_finished result) p) {
      checkpoints = keep (λ c. not (c.game_id == game_id)) p.checkpoints;
    }

unfoldable pub assignment_finished : ℕ → AssignmentRecord → AssignmentRecord
assignment_finished now a = record a { status = AssignmentStatus.finished; finished_at = some now }

unfoldable pub finish_game_assignment : ℕ → ℕ → Pool → Pool
unfolding update_assignments assignment_finished
finish_game_assignment assignment_id assignment_key p =
    update_assignments (λ a. a.id == assignment_id && a.assignment_key == assignment_key)
      (assignment_finished p.db.clock) p
