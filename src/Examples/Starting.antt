-- ===== src/Examples/Starting.antt =====
-- A knockout tournament, and the match at increasing odds.
use cope_chess.Prelude.{ℕ, [], ◌∷◌, some, none, true, ◌≡◌, refl}
use cope_chess.Exec.{Result}
use cope_chess.Tournament.Records.{TournamentRecord, TournamentStatus, knockout, knockout_options}
use cope_chess.Tournament.Store.{Db, get_tournament}
use cope_chess.Events.Odds.{advance_odds}
use cope_chess.Events.Odds.Step.{OddsStep, advance_odds-OddsStep}
use cope_chess.Scheduler.Errors.{ScheduleError}
use cope_chess.Scheduler.Knockout.Advance.{AdvanceResult, advance_knockout}
use cope_chess.Scheduler.Knockout.Advance.Terminates.{advance_knockout-returns}
use cope_chess.Examples.Data.{cup, fresh_db}

abbrev bracket : TournamentRecord
bracket = record cup {
  status = TournamentStatus.draft;
  started_at = none;
  config = record {
    format = knockout;
    format_options = knockout_options;
    participants = 4 ∷ 5 ∷ 6 ∷ [];
    opening_suite_id = none;
  };
}

abbrev bracket_db : Db
bracket_db = record fresh_db { tournaments = bracket ∷ [] }

advance_knockout-returns_example :
    (r : AdvanceResult) × (advance_knockout 2 bracket bracket_db ≡ some r)
advance_knockout-returns_example = advance_knockout-returns bracket bracket_db

advance_odds-OddsStep_example :
    (r : Result ScheduleError ℕ × Db) × (advance_odds (λ id db. true) 1 fresh_db ≡ some r)
    × OddsStep cup fresh_db r
unfolding get_tournament
advance_odds-OddsStep_example = advance_odds-OddsStep (λ id db. true) 1 cup fresh_db refl refl
