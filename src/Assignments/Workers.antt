-- ===== src/Assignments/Workers.antt =====
-- `disconnect_worker`, `revoke_worker`, `delete_worker`, `update_worker_status` and
-- `touch_worker_seen` of cope/db/repo.py: what a worker's state does to its assignments. Deleting
-- a worker's row sets its id to NULL in the assignments and deletes its event fixtures.
use cope_chess.Prelude.{
  ℕ, List, [], ◌∷◌, Option, none, some, Bool, true, false, not, ◌&&◌, ◌||◌, ◌==◌, if◌then◌else◌,
  keep, dropping, any, map, opt_is, first, ltb, prefix, String,
}
use cope_chess.Assignments.Records.{
  AssignmentRecord, AssignmentStatus, Pool, WorkerRow, WorkerStatus, is_active, is_live,
  is_assigned, update_assignments, update_where, row_count,
}
use cope_chess.Assignments.Reset.{reset_games_for_replay, given_up}

abbrev pub is_revoked : WorkerStatus → Bool
is_revoked WorkerStatus.revoked = true
is_revoked _ = false

-- status IN ('connected', 'downloading', 'ready', 'busy')
abbrev pub is_connected : WorkerStatus → Bool
is_connected WorkerStatus.connected = true
is_connected WorkerStatus.downloading = true
is_connected WorkerStatus.ready = true
is_connected WorkerStatus.busy = true
is_connected _ = false

-- CAST(? AS TEXT) IS NULL OR session_id = ?
abbrev pub same_session : Option ℕ → WorkerRow → Bool
same_session none w = true
same_session (some session_id) w = opt_is w.session_id session_id

-- the assignments of a worker that are in progress
abbrev pub held_active : ℕ → AssignmentRecord → Bool
held_active worker_id a = opt_is a.worker_id worker_id && is_active a.status

unfoldable pub active_worker_game_ids : ℕ → Pool → List ℕ
active_worker_game_ids worker_id p =
    map (λ a. a.game_id) (keep (held_active worker_id) p.assignments)

-- SELECT DISTINCT
unfoldable pub distinct : List ℕ → List ℕ
distinct [] = []
distinct (x ∷ xs) = x ∷ dropping x (distinct xs)

unfoldable pub active_worker_tournament_ids : ℕ → Pool → List ℕ
unfolding distinct
active_worker_tournament_ids worker_id p = distinct (
    map (λ g. g.tournament_id)
      (keep
        (λ g.
          (is_assigned g.status || is_live g.status)
          && any (λ a. held_active worker_id a && a.game_id == g.id) p.assignments)
        p.db.games))

unfoldable pub release_assignments : AssignmentStatus → ℕ → String → String → Pool → Pool
unfolding active_worker_game_ids update_assignments given_up reset_games_for_replay
release_assignments status worker_id error reason p =
    reset_games_for_replay false (active_worker_game_ids worker_id p) reason
      (update_assignments (held_active worker_id) (given_up status p.db.clock error) p)

unfoldable pub release_worker_active_assignments : ℕ → String → Pool → Pool
unfolding release_assignments
release_worker_active_assignments worker_id reason =
    release_assignments AssignmentStatus.abandoned worker_id (prefix 500 reason) reason

unfoldable pub without_worker : ℕ → AssignmentRecord → AssignmentRecord
without_worker worker_id a = record a { worker_id = none }

-- DELETE FROM workers WHERE id = ?
unfoldable pub delete_worker_row : ℕ → Pool → Pool
unfolding update_assignments without_worker
delete_worker_row worker_id p =
    record (update_assignments (λ a. opt_is a.worker_id worker_id) (without_worker worker_id) p) {
      workers = keep (λ w. not (w.id == worker_id)) p.workers;
      fixtures = keep (λ f. not (f.worker_id == worker_id)) p.fixtures;
    }

unfoldable pub revoke_worker : ℕ → Pool → Pool
unfolding release_worker_active_assignments delete_worker_row
revoke_worker worker_id p =
    delete_worker_row worker_id (release_worker_active_assignments worker_id "worker revoked" p)

unfoldable pub delete_worker : ℕ → Pool → Pool
unfolding release_assignments delete_worker_row
delete_worker worker_id p =
    delete_worker_row worker_id
      (release_assignments AssignmentStatus.expired worker_id "worker deleted" "worker deleted" p)

abbrev pub is_session : ℕ → Option ℕ → WorkerRow → Bool
is_session worker_id session_id w =
    w.id == worker_id && (not (is_revoked w.status) && same_session session_id w)

unfoldable pub with_status : WorkerStatus → ℕ → WorkerRow → WorkerRow
with_status status now w = record w { status = status; last_seen = some now }

unfoldable pub update_worker_status : ℕ → WorkerStatus → Option ℕ → Pool → Bool × Pool
unfolding with_status update_where row_count
update_worker_status worker_id status session_id p = (
  ltb 0 (row_count (is_session worker_id session_id) p.workers),
  record p {
    workers =
        update_where (is_session worker_id session_id) (with_status status p.db.clock) p.workers;
  },
)

abbrev pub is_seen : ℕ → Option ℕ → WorkerRow → Bool
is_seen worker_id session_id w =
    w.id == worker_id && (is_connected w.status && same_session session_id w)

unfoldable pub touch_worker_seen : ℕ → Option ℕ → Pool → Bool × Pool
unfolding update_where row_count
touch_worker_seen worker_id session_id p = (
  ltb 0 (row_count (is_seen worker_id session_id) p.workers),
  record p {
    workers =
        update_where (is_seen worker_id session_id) (λ w. record w { last_seen = some p.db.clock })
          p.workers;
  },
)

unfoldable pub disconnect_found : Option WorkerRow → ℕ → Option ℕ → String → Pool → List ℕ × Pool
unfolding active_worker_tournament_ids release_worker_active_assignments update_worker_status
disconnect_found none worker_id session_id reason p = ([], p)
disconnect_found (some w) worker_id session_id reason p =
    let released = release_worker_active_assignments worker_id reason p in
    let unclaimed = record released {
      fixtures = keep (λ f. not (f.worker_id == worker_id)) released.fixtures;
    } in
    if is_revoked w.status || not (same_session session_id w) then ([], p) else (
      active_worker_tournament_ids worker_id p,
      (update_worker_status worker_id WorkerStatus.offline session_id unclaimed).1,
    )

unfoldable pub disconnect_worker : ℕ → Option ℕ → String → Pool → List ℕ × Pool
unfolding disconnect_found
disconnect_worker worker_id session_id reason p =
    disconnect_found (first (λ w. w.id == worker_id) p.workers) worker_id session_id reason p
