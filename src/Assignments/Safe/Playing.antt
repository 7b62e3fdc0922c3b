-- ===== src/Assignments/Safe/Playing.antt =====
-- Playing and pausing a game in cope/db/repo.py and cope/runner/local.py, and the invariant of
-- games and assignments.
use cope_chess.Prelude.{
  ℕ, Option, some, none, true, false, not, ◌&&◌, ◌||◌, ◌==◌, any, ◌≡◌, inl, inr, refl, Bool-cases,
  All-all, arith, String, Option-cases,
}
use cope_chess.Tournament.Records.{GameRecord, GameStatus, GameResult}
use cope_chess.Assignments.Records.{
  AssignmentRecord, AssignmentStatus, Pool, MoveRecord, is_active, is_unstarted, update_games,
  update_assignments, with_game_status, row_count, get_game_assignment,
}
use cope_chess.Assignments.Progress.{
  held_by, acknowledged, acknowledge_game_assignment, made_live, mark_game_assignment_live,
  mark_game_live, live_if_active, mark_worker_assignment_live, insert_move, record_move,
  game_finished, finish_game, assignment_finished, finish_game_assignment,
}
use cope_chess.Assignments.Pause.{expired, save_checkpoint, pause_found, pause_game_assignment}
use cope_chess.Assignments.Safe.{IsSafe, is_open, Safe-assignments, Safe-games}

unstarted_active : (s : AssignmentStatus) → is_unstarted s ≡ true → is_active s ≡ true
unstarted_active AssignmentStatus.assigned h = refl
unstarted_active AssignmentStatus.acked h = refl
unstarted_active AssignmentStatus.live h = refl
unstarted_active AssignmentStatus.finished h = h
unstarted_active AssignmentStatus.abandoned h = h
unstarted_active AssignmentStatus.expired h = h

pub acknowledge_game_assignment-IsSafe :
    (assignment_id assignment_key : ℕ) (p : Pool)
    → IsSafe p
    → IsSafe (acknowledge_game_assignment assignment_id assignment_key p).1
unfolding acknowledge_game_assignment update_assignments acknowledged
acknowledge_game_assignment-IsSafe assignment_id assignment_key p s =
    elim (Bool-cases
      (row_count (held_by is_unstarted assignment_id assignment_key) p.assignments == 1)) [
        | inl e ↦ rw e (
            Safe-assignments _ (acknowledged p.db.clock) (λ a. refl) (λ a. refl)
              (λ a h o. unstarted_active a.status (ground (arith, h))) p.assignments p.db.games
              p.next_assignment_id s)
        | inr e ↦ rw e s
      ]

-- a status that no game to be played has
close_games :
    (game_id : ℕ) (set : GameRecord → GameRecord)
    → ((g : GameRecord) → (set g).id ≡ g.id)
    → ((g : GameRecord) → is_open (set g).status ≡ false)
    → (p : Pool) → IsSafe p
    → IsSafe (update_games (λ g. g.id == game_id) set p)
unfolding update_games
close_games game_id set same closed p s =
    Safe-games (λ _. Unit {0}) _ set same
      (λ a g _ c o. let no = closed g in absurd (ground (arith, o, no))) p.assignments p.db.games
      p.next_assignment_id (All-all _ p.assignments (λ a. tt)) s

mark_live-IsSafe :
    (a : AssignmentRecord) (p : Pool)
    → IsSafe p
    → IsSafe (mark_game_live a.game_id (mark_game_assignment_live a.id p))
unfolding mark_game_live mark_game_assignment_live update_assignments made_live with_game_status
mark_live-IsSafe a p s =
    close_games a.game_id (with_game_status GameStatus.live) (λ g. refl) (λ g. refl)
      (mark_game_assignment_live a.id p)
      (Safe-assignments _ (made_live p.db.clock) (λ a. refl) (λ a. refl)
        (λ b h o. ground (arith, h)) p.assignments p.db.games p.next_assignment_id s)

pub mark_worker_assignment_live-IsSafe :
    (assignment_id : ℕ) (p : Pool)
    → IsSafe p
    → IsSafe (mark_worker_assignment_live assignment_id p).1
unfolding mark_worker_assignment_live live_if_active
mark_worker_assignment_live-IsSafe assignment_id p s =
    elim (Option-cases (get_game_assignment assignment_id p)) [
      | inl e ↦ rw e s
      | inr (a, e) ↦ rw e (elim (Bool-cases (is_active a.status)) [
        | inl h ↦ rw h (mark_live-IsSafe a p s)
        | inr h ↦ rw h s
      ])
    ]

insert_move-IsSafe : (m : MoveRecord) (p : Pool) → IsSafe p → IsSafe (insert_move m p).1
unfolding insert_move
insert_move-IsSafe m p s =
    elim (Bool-cases (
      any (λ (n : MoveRecord). n.game_id == m.game_id && n.ply == m.ply) p.moves
      || not (any (λ g. g.id == m.game_id) p.db.games))) [ inl e ↦ rw e s | inr e ↦ rw e s ]

pub record_move-IsSafe :
    (assignment_id assignment_key : Option ℕ) (m : MoveRecord) (p : Pool)
    → IsSafe p
    → IsSafe (record_move assignment_id assignment_key m p).1
unfolding record_move
record_move-IsSafe none none m p s = insert_move-IsSafe m p s
record_move-IsSafe none (some k) m p s = s
record_move-IsSafe (some i) none m p s = s
record_move-IsSafe (some i) (some k) m p s =
    elim (Bool-cases (any (λ a. held_by is_active i k a && a.game_id == m.game_id) p.assignments)) [
      | inl e ↦ rw e (insert_move-IsSafe m p s)
      | inr e ↦ rw e s
    ]

pub finish_game-IsSafe :
    (game_id : ℕ) (result : GameResult) (p : Pool)
    → IsSafe p
    → IsSafe (finish_game game_id result p)
unfolding finish_game game_finished
finish_game-IsSafe game_id result p s =
    close_games game_id (game_finished result) (λ g. refl) (λ g. refl) p s

pub finish_game_assignment-IsSafe :
    (assignment_id assignment_key : ℕ) (p : Pool)
    → IsSafe p
    → IsSafe (finish_game_assignment assignment_id assignment_key p)
unfolding finish_game_assignment update_assignments assignment_finished
finish_game_assignment-IsSafe assignment_id assignment_key p s =
    Safe-assignments _ (assignment_finished p.db.clock) (λ a. refl) (λ a. refl)
      (λ a h o. absurd (ground (arith, o))) p.assignments p.db.games p.next_assignment_id s

save_checkpoint-IsSafe :
    (game_id : ℕ) (state : String) (p : Pool) → IsSafe p → IsSafe (save_checkpoint game_id state p)
unfolding save_checkpoint
save_checkpoint-IsSafe game_id state p s =
    elim (Bool-cases (any (λ c. c.game_id == game_id) p.checkpoints)) [
      | inl e ↦ rw e s
      | inr e ↦ rw e s
    ]

pub pause_game_assignment-IsSafe :
    (assignment_id assignment_key : ℕ) (state : String) (p : Pool)
    → IsSafe p
    → IsSafe (pause_game_assignment assignment_id assignment_key state p).1
unfolding pause_game_assignment pause_found update_assignments expired
pause_game_assignment-IsSafe assignment_id assignment_key state p s =
    elim (Option-cases (get_game_assignment assignment_id p)) [
      | inl e ↦ rw e s
      | inr (a, e) ↦
          rw e
            (elim (Bool-cases (
              a.assignment_key == assignment_key
              && row_count (held_by is_active assignment_id assignment_key) p.assignments == 1)) [
                | inl h ↦ rw h (
                    save_checkpoint-IsSafe a.game_id state
                      (update_assignments (held_by is_active assignment_id assignment_key)
                        (expired p.db.clock) p)
                      (Safe-assignments _ (expired p.db.clock) (λ a. refl) (λ a. refl)
                        (λ a h o. absurd (ground (arith, o))) p.assignments p.db.games
                        p.next_assignment_id s))
                | inr h ↦ rw h s
              ])
    ]
