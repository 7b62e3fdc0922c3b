-- ===== src/Assignments/Claim.antt =====
-- `assign_game_to_worker` and `create_game_assignment` of cope/db/repo.py. A row that breaks a
-- UNIQUE constraint or a reference aborts the transaction: the database is as before.
use cope_chess.Prelude.{
  ℕ, suc, [], ◌∷◌, ◌++◌, Option, none, some, Bool, not, ◌&&◌, ◌||◌, ◌==◌, if◌then◌else◌, any,
}
use cope_chess.Exec.{Result, ok, err}
use cope_chess.Tournament.Records.{GameRecord, GameStatus}
use cope_chess.Assignments.Records.{
  AssignmentRecord, AssignmentStatus, AssignmentError, constraint_violated, failed_to_assign, Pool,
  is_pending, update_games, update_assignments, with_game_status, get_game_assignment_for_game,
  WorkerRow,
}

-- `game_id` is UNIQUE and refers to a game, `assignment_key` is UNIQUE
unfoldable pub create_game_assignment : ℕ → ℕ → Pool → Result AssignmentError ℕ × Pool
create_game_assignment game_id assignment_key p =
    if any (λ a. a.game_id == game_id || a.assignment_key == assignment_key) p.assignments
      || not (any (λ g. g.id == game_id) p.db.games)
    then (err constraint_violated, p)
    else (
      ok p.next_assignment_id,
      record p {
        assignments =
            p.assignments
            ++ (record {
              id = p.next_assignment_id;
              game_id = game_id;
              assignment_key = assignment_key;
              worker_id = none;
              status = AssignmentStatus.assigned;
              sent_at = none;
              acked_at = none;
              finished_at = none;
              last_error = none;
            }
                ∷ []);
        next_assignment_id = suc p.next_assignment_id;
      },
    )

-- WHERE id = ? AND status = 'pending'
abbrev pub claimable : ℕ → GameRecord → Bool
claimable game_id g = g.id == game_id && is_pending g.status

unfoldable pub claimed : ℕ → ℕ → ℕ → AssignmentRecord → AssignmentRecord
claimed assignment_key worker_id now a = record a {
  assignment_key = assignment_key;
  worker_id = some worker_id;
  status = AssignmentStatus.assigned;
  sent_at = some now;
  acked_at = none;
  finished_at = none;
  last_error = none;
}

unfoldable pub new_assignment : ℕ → ℕ → ℕ → ℕ → ℕ → AssignmentRecord
new_assignment id game_id assignment_key worker_id now = record {
  id = id;
  game_id = game_id;
  assignment_key = assignment_key;
  worker_id = some worker_id;
  status = AssignmentStatus.assigned;
  sent_at = some now;
  acked_at = none;
  finished_at = none;
  last_error = none;
}

-- INSERT … ON CONFLICT(game_id) DO UPDATE
unfoldable pub upsert_assignment : ℕ → ℕ → ℕ → Pool → Pool
unfolding claimed new_assignment update_assignments
upsert_assignment game_id assignment_key worker_id p =
    if any (λ a. a.game_id == game_id) p.assignments
    then update_assignments (λ a. a.game_id == game_id)
        (claimed assignment_key worker_id p.db.clock) p
    else record p {
      assignments =
          p.assignments
          ++ (new_assignment p.next_assignment_id game_id assignment_key worker_id p.db.clock ∷ []);
      next_assignment_id = suc p.next_assignment_id;
    }

-- the key is one of another game, or there is no such worker
unfoldable pub breaks_constraint : ℕ → ℕ → ℕ → Pool → Bool
breaks_constraint game_id assignment_key worker_id p =
    any (λ a. not (a.game_id == game_id) && a.assignment_key == assignment_key) p.assignments
    || not (any (λ (w : WorkerRow). w.id == worker_id) p.workers)

unfoldable pub found_assignment :
    Option AssignmentRecord → Result AssignmentError (Option AssignmentRecord)
found_assignment none = err failed_to_assign
found_assignment (some a) = ok (some a)

unfoldable pub assign_game_to_worker :
    ℕ → ℕ → ℕ → Pool → Result AssignmentError (Option AssignmentRecord) × Pool
unfolding update_games with_game_status upsert_assignment breaks_constraint found_assignment
    get_game_assignment_for_game
assign_game_to_worker game_id assignment_key worker_id p =
    let q = update_games (claimable game_id) (with_game_status GameStatus.assigned) p in
    let r = upsert_assignment game_id assignment_key worker_id q in
    if not (any (claimable game_id) p.db.games)
    then (ok none, p)
    else if breaks_constraint game_id assignment_key worker_id p
    then (err constraint_violated, p)
    else (found_assignment (get_game_assignment_for_game game_id r), r)
