-- ===== src/Assignments/Reset.antt =====
-- `fail_game_assignment` and `_reset_games_for_replay` of cope/db/repo.py: a failed attempt is written
-- down, and its game starts again from the beginning.
use cope_chess.Prelude.{
  ℕ, List, [], ◌∷◌, ◌++◌, Option, none, some, Bool, true, false, not, ◌&&◌, ◌==◌, if◌then◌else◌,
  keep, any, map, max, elem, prefix, String,
}
use cope_chess.Tournament.Records.{GameRecord, GameStatus}
use cope_chess.Assignments.Records.{
  AssignmentRecord, AssignmentStatus, Pool, ReplayedAttempt, MoveRecord, is_active, update_games,
  update_assignments, row_count, get_game_assignment,
}
use cope_chess.Assignments.Progress.{held_by}

abbrev pub is_resettable : Bool → GameStatus → Bool
is_resettable include_abandoned GameStatus.finished = false
is_resettable include_abandoned GameStatus.abandoned = include_abandoned
is_resettable include_abandoned _ = true

abbrev pub resets : Bool → List ℕ → GameRecord → Bool
resets include_abandoned game_ids g = elem g.id game_ids && is_resettable include_abandoned g.status

unfoldable pub resettable_ids : Bool → List ℕ → List GameRecord → List ℕ
resettable_ids include_abandoned game_ids games =
    map (λ g. g.id) (keep (resets include_abandoned game_ids) games)

-- MAX(ply), which is NULL of no rows
unfoldable pub last_ply : ℕ → List MoveRecord → Option ℕ
last_ply game_id [] = none
last_ply game_id (m ∷ moves) =
    let rest = last_ply game_id moves in
    if m.game_id == game_id
    then elim rest [ none ↦ some m.ply | some ply ↦ some (max m.ply ply) ]
    else rest

-- status IN ('assigned', 'acked', 'live', 'abandoned', 'expired')
abbrev pub was_attempted : AssignmentStatus → Bool
was_attempted AssignmentStatus.finished = false
was_attempted _ = true

abbrev pub attempt_of : AssignmentRecord → ReplayedAttempt → Bool
attempt_of a r = r.assignment_id == a.id && r.assignment_key == a.assignment_key

unfoldable pub newly_replayed : List ℕ → Pool → AssignmentRecord → Bool
newly_replayed ids p a =
    elem a.game_id ids && (was_attempted a.status && not (any (attempt_of a) p.replayed))

unfoldable pub replayed_attempt : String → Pool → AssignmentRecord → ReplayedAttempt
unfolding last_ply
replayed_attempt reason p a = record {
  assignment_id = a.id;
  assignment_key = a.assignment_key;
  game_id = a.game_id;
  detail = prefix 4000 reason;
  last_ply = last_ply a.game_id p.moves;
  occurred_at = p.db.clock;
}

unfoldable pub reset_game : GameRecord → GameRecord
reset_game g = record g { status = GameStatus.pending; result = none }

-- the writes, for the ids of the games that are reset
unfoldable pub reset_ids : Bool → List ℕ → String → Pool → Pool
unfolding newly_replayed replayed_attempt update_games reset_game
reset_ids include_abandoned ids reason p =
    record (update_games (resets include_abandoned ids) reset_game p) {
      replayed =
          p.replayed ++ map (replayed_attempt reason p) (keep (newly_replayed ids p) p.assignments);
      moves = keep (λ m. not (elem m.game_id ids)) p.moves;
      checkpoints = keep (λ c. not (elem c.game_id ids)) p.checkpoints;
    }

-- No ids, no writes: with none of them every write has an empty condition.
unfoldable pub reset_games_for_replay : Bool → List ℕ → String → Pool → Pool
unfolding reset_ids resettable_ids
reset_games_for_replay include_abandoned game_ids reason p =
    reset_ids include_abandoned (resettable_ids include_abandoned game_ids p.db.games) reason p

unfoldable pub given_up : AssignmentStatus → ℕ → String → AssignmentRecord → AssignmentRecord
given_up status now error a = record a {
  status = status;
  finished_at = some now;
  last_error = some error;
}

unfoldable pub fail_found : String → ℕ → ℕ → AssignmentRecord → Pool → Pool
unfolding update_assignments given_up row_count reset_games_for_replay
fail_found error assignment_id assignment_key a p =
    let abandoned =
      update_assignments (held_by is_active assignment_id assignment_key)
        (given_up AssignmentStatus.abandoned p.db.clock (prefix 500 error)) p in
    if row_count (held_by is_active assignment_id assignment_key) p.assignments == 1
    then reset_games_for_replay false (a.game_id ∷ []) error abandoned
    else abandoned

unfoldable pub fail_if_current : Option AssignmentRecord → ℕ → ℕ → String → Pool → Pool
unfolding fail_found
fail_if_current none assignment_id assignment_key error p = p
fail_if_current (some a) assignment_id assignment_key error p =
    if a.assignment_key == assignment_key
    then fail_found error assignment_id assignment_key a p
    else p

unfoldable pub fail_game_assignment : ℕ → ℕ → String → Pool → Pool
unfolding fail_if_current get_game_assignment
fail_game_assignment assignment_id assignment_key error p =
    fail_if_current (get_game_assignment assignment_id p) assignment_id assignment_key error p
