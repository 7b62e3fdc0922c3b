-- ===== src/Assignments/Safe/Leaving.antt =====
-- Workers that leave and games that are deleted in cope/db/repo.py, and the invariant of games
-- and assignments.
use cope_chess.Prelude.{
  ℕ, List, Option, not, ◌||◌, ◌==◌, keep, elem, opt_is, inl, inr, refl, Bool-cases, Option-cases,
  first, prefix, String,
}
use cope_chess.Tournament.Records.{GameRecord}
use cope_chess.Assignments.Records.{AssignmentStatus, Pool, WorkerRow, update_assignments}
use cope_chess.Assignments.Workers.{
  release_assignments, release_worker_active_assignments, without_worker, delete_worker_row,
  revoke_worker, delete_worker, update_worker_status, disconnect_found, disconnect_worker,
  is_revoked, same_session,
}
use cope_chess.Assignments.Invalidate.{
  delete_games, delete_system_chat_events, invalidate_pair_of, invalidate_game_pair, pair_ids,
  are_committed, of_tournament, invalidate_tournament_participant_games, removal_of, plays_in,
  is_empty,
}
use cope_chess.Assignments.Safe.{IsSafe, Safe-assignments, Safe-keep}
use cope_chess.Assignments.Safe.Resetting.{release_assignments-IsSafe}

delete_worker_row-IsSafe :
    (worker_id : ℕ) (p : Pool) → IsSafe p → IsSafe (delete_worker_row worker_id p)
unfolding delete_worker_row update_assignments without_worker
delete_worker_row-IsSafe worker_id p s =
    Safe-assignments (λ a. opt_is a.worker_id worker_id) (without_worker worker_id) (λ a. refl)
      (λ a. refl) (λ a h o. o) p.assignments p.db.games p.next_assignment_id s

pub revoke_worker-IsSafe :
    (worker_id : ℕ) (p : Pool) → IsSafe p → IsSafe (revoke_worker worker_id p)
unfolding revoke_worker release_worker_active_assignments
revoke_worker-IsSafe worker_id p s =
    delete_worker_row-IsSafe worker_id
      (release_worker_active_assignments worker_id "worker revoked" p)
      (release_assignments-IsSafe AssignmentStatus.abandoned worker_id (prefix 500 "worker revoked")
        "worker revoked" p refl s)

pub delete_worker-IsSafe :
    (worker_id : ℕ) (p : Pool) → IsSafe p → IsSafe (delete_worker worker_id p)
unfolding delete_worker
delete_worker-IsSafe worker_id p s =
    delete_worker_row-IsSafe worker_id
      (release_assignments AssignmentStatus.expired worker_id "worker deleted" "worker deleted" p)
      (release_assignments-IsSafe AssignmentStatus.expired worker_id "worker deleted"
        "worker deleted" p refl s)

pub disconnect_worker-IsSafe :
    (worker_id : ℕ) (session_id : Option ℕ) (reason : String) (p : Pool)
    → IsSafe p
    → IsSafe (disconnect_worker worker_id session_id reason p).1
unfolding disconnect_worker disconnect_found update_worker_status release_worker_active_assignments
disconnect_worker-IsSafe worker_id session_id reason p s =
    elim (Option-cases (first (λ (w : WorkerRow). w.id == worker_id) p.workers)) [
      | inl e ↦ rw e s
      | inr (w, e) ↦
          rw e (elim (Bool-cases (is_revoked w.status || not (same_session session_id w))) [
            | inl h ↦ rw h s
            | inr h ↦ rw h (
                release_assignments-IsSafe AssignmentStatus.abandoned worker_id (prefix 500 reason)
                  reason p refl s)
          ])
    ]

delete_games-IsSafe : (ids : List ℕ) (p : Pool) → IsSafe p → IsSafe (delete_games ids p)
unfolding delete_games
delete_games-IsSafe ids p s =
    Safe-keep (λ a. not (elem a.game_id ids)) (λ g. not (elem g.id ids)) p.assignments p.db.games
      p.next_assignment_id s

pub invalidate_game_pair-IsSafe :
    (tournament_id game_id : ℕ) (p : Pool)
    → IsSafe p
    → IsSafe (invalidate_game_pair tournament_id game_id p).1
unfolding invalidate_game_pair invalidate_pair_of delete_system_chat_events
invalidate_game_pair-IsSafe tournament_id game_id p s =
    elim (Option-cases (first (of_tournament tournament_id game_id) p.db.games)) [
      | inl e ↦ rw e s
      | inr (g, e) ↦
          rw e (elim (Bool-cases (are_committed (pair_ids tournament_id g p.db.games) p)) [
            | inl h ↦ rw h s
            | inr h ↦ rw h (
                delete_games-IsSafe (pair_ids tournament_id g p.db.games)
                  (delete_system_chat_events tournament_id (pair_ids tournament_id g p.db.games) p)
                  s)
          ])
    ]

pub invalidate_tournament_participant_games-IsSafe :
    (tournament_id engine_id : ℕ) (p : Pool)
    → IsSafe p
    → IsSafe (invalidate_tournament_participant_games tournament_id engine_id p).1
unfolding invalidate_tournament_participant_games delete_system_chat_events
invalidate_tournament_participant_games-IsSafe tournament_id engine_id p s =
    elim (Bool-cases (is_empty games)) [
      | inl e ↦ rw e s
      | inr e ↦ rw e (elim (Bool-cases (are_committed ids p)) [
        | inl h ↦ rw h s
        | inr h ↦ rw h (delete_games-IsSafe ids (delete_system_chat_events tournament_id ids p) s)
      ])
    ]
  where
    games : List GameRecord
    games = keep (plays_in tournament_id engine_id) p.db.games

    ids : List ℕ
    ids = (removal_of games).game_ids
