-- ===== src/Assignments/Records.antt =====
-- GameAssignmentRecord, MoveRecord and GamePauseCheckpointRecord of cope/db/repo.py and the tables
-- `game_assignments`, `moves`, `game_pause_checkpoints`, `game_assignment_progress`, `workers` and
-- `event_fixture_workers` of its schema, beside those of the tournaments. An assignment key
-- and a worker's session are random tokens, which are only compared: numbers stand for them.
use cope_chess.Prelude.{
  ℕ, List, Option, none, some, Bool, true, false, ◌==◌, if◌then◌else◌, first, keep, length, map,
  String,
}
use cope_chess.Tournament.Records.{GameRecord, GameStatus}
use cope_chess.Tournament.Store.{Db}

pub data AssignmentStatus : Type 0 where
  assigned acked live finished abandoned expired : AssignmentStatus

pub record AssignmentRecord : Type 0 where
  pub id : ℕ
  pub game_id : ℕ
  pub assignment_key : ℕ
  pub worker_id : Option ℕ
  pub status : AssignmentStatus
  pub sent_at : Option ℕ
  pub acked_at : Option ℕ
  pub finished_at : Option ℕ
  pub last_error : Option String

pub record MoveRecord : Type 0 where
  pub game_id : ℕ
  pub ply : ℕ
  pub uci : String

pub record CheckpointRecord : Type 0 where
  pub game_id : ℕ
  pub state : String
  pub paused_at : ℕ

-- a row with the substage `attempt_replayed`
pub record ReplayedAttempt : Type 0 where
  pub assignment_id : ℕ
  pub assignment_key : ℕ
  pub game_id : ℕ
  pub detail : String
  pub last_ply : Option ℕ
  pub occurred_at : ℕ

pub data WorkerStatus : Type 0 where
  minted connected downloading ready busy offline revoked : WorkerStatus

pub record WorkerRow : Type 0 where
  pub id : ℕ
  pub status : WorkerStatus
  pub session_id : Option ℕ
  pub last_seen : Option ℕ

pub record FixtureWorker : Type 0 where
  pub tournament_id : ℕ
  pub worker_id : ℕ

-- the rows of `tournament_rating_commits`
pub data CommitStatus : Type 0 where
  pending claimed applied failed : CommitStatus

pub record RatingCommit : Type 0 where
  pub tournament_id : ℕ
  pub status : CommitStatus

-- the event keys "game.<id>.finished", "tournament.finished" and the rest
pub data EventKey : Type 0 where
  game_finished_event : (game_id : ℕ) → EventKey
  tournament_finished_event : EventKey
  other_event : String → EventKey

pub record ChatEvent : Type 0 where
  pub tournament_id : ℕ
  pub event_key : EventKey
  pub message_id : ℕ

pub record Pool : Type 0 where
  pub db : Db
  pub assignments : List AssignmentRecord
  pub moves : List MoveRecord
  pub checkpoints : List CheckpointRecord
  pub replayed : List ReplayedAttempt
  pub workers : List WorkerRow
  pub fixtures : List FixtureWorker
  pub next_assignment_id : ℕ
  -- the game ids of `rating_list_history`
  pub rated_game_ids : List ℕ
  pub rating_commits : List RatingCommit
  pub chat_events : List ChatEvent
  -- the ids of `chat_messages`
  pub chat_messages : List ℕ

pub data AssignmentError : Type 0 where
  no_longer_active no_longer_awaiting_readiness unknown_assignment : AssignmentError
  id_without_key constraint_violated failed_to_assign : AssignmentError

-- COALESCE(value, now)
abbrev pub coalesce : Option ℕ → ℕ → ℕ
coalesce none now = now
coalesce (some t) now = t

-- status IN ('assigned', 'acked', 'live')
abbrev pub is_active : AssignmentStatus → Bool
is_active AssignmentStatus.assigned = true
is_active AssignmentStatus.acked = true
is_active AssignmentStatus.live = true
is_active _ = false

-- status IN ('assigned', 'acked')
abbrev pub is_unstarted : AssignmentStatus → Bool
is_unstarted AssignmentStatus.assigned = true
is_unstarted AssignmentStatus.acked = true
is_unstarted _ = false

abbrev pub is_pending : GameStatus → Bool
is_pending GameStatus.pending = true
is_pending _ = false

abbrev pub is_live : GameStatus → Bool
is_live GameStatus.live = true
is_live _ = false

abbrev pub is_assigned : GameStatus → Bool
is_assigned GameStatus.assigned = true
is_assigned _ = false

-- UPDATE … SET … WHERE …
unfoldable pub update_where {ℓ} : {A : Type ℓ} → (A → Bool) → (A → A) → List A → List A
update_where p set rows = map (λ row. if p row then set row else row) rows

-- the number of rows that a condition holds of: `cursor.rowcount`
unfoldable pub row_count {ℓ} : {A : Type ℓ} → (A → Bool) → List A → ℕ
row_count p rows = length (keep p rows)

-- `_get_game_assignment` by id, and by game
unfoldable pub get_game_assignment : ℕ → Pool → Option AssignmentRecord
get_game_assignment assignment_id p = first (λ a. a.id == assignment_id) p.assignments

unfoldable pub get_game_assignment_for_game : ℕ → Pool → Option AssignmentRecord
get_game_assignment_for_game game_id p = first (λ a. a.game_id == game_id) p.assignments

unfoldable pub with_game_status : GameStatus → GameRecord → GameRecord
with_game_status status g = record g { status = status }

-- UPDATE games SET … WHERE …
unfoldable pub update_games : (GameRecord → Bool) → (GameRecord → GameRecord) → Pool → Pool
unfolding update_where
update_games p set pool = record pool {
  db = record pool.db { games = update_where p set pool.db.games };
}

-- UPDATE game_assignments SET … WHERE …
unfoldable pub update_assignments :
    (AssignmentRecord → Bool) → (AssignmentRecord → AssignmentRecord) → Pool → Pool
unfolding update_where
update_assignments p set pool = record pool { assignments = update_where p set pool.assignments }
