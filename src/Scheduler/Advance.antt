-- ===== src/Scheduler/Advance.antt =====
-- `TournamentAdvance` of cope/runner/scheduler.py, and what its two `_advance_…` functions share.
use cope_chess.Prelude.{ℕ, List, Bool, true, false, map, max_of}
use cope_chess.Exec.{Result, ok, err}
use cope_chess.Tournament.Records.{MatchRecord}
use cope_chess.Tournament.Store.{Db}
use cope_chess.Scheduler.Errors.{ScheduleError}

pub record TournamentAdvance : Type 0 where
  pub created_games : ℕ
  pub complete : Bool

abbrev pub no_advance : TournamentAdvance
no_advance = record { created_games = 0; complete = false }

abbrev pub completed : TournamentAdvance
completed = record { created_games = 0; complete = true }

-- `TournamentAdvance(created_games=…)`
abbrev pub of_created : Result ScheduleError ℕ × Db → Result ScheduleError TournamentAdvance × Db
of_created (ok created, db) = (ok (record { created_games = created; complete = false }), db)
of_created (err e, db) = (err e, db)

-- `max(match.round for match in matches)`
abbrev pub current_round : List MatchRecord → ℕ
current_round matches = max_of 0 (map (λ (m : MatchRecord). m.round) matches)
