-- ===== src/Scheduler/Start.antt =====
-- The entry points of cope/runner/scheduler.py: `materialize_tournament_schedule`,
-- `advance_tournament`, `start_tournament`, `prepare_tournament` and `_start_tournament`.
use cope_chess.Prelude.{
  ℕ, ◌+◌, List, [], ◌∷◌, Option, none, some, Bool, true, false, not, ◌&&◌, ◌||◌, ltb, all, keep,
  length, if◌then◌else◌, is_none,
}
use cope_chess.Exec.{Result, ok, err}
use cope_chess.Tournament.Records.{
  TournamentFormat, round_robin, swiss, knockout, gauntlet, TournamentRecord, TournamentStatus,
  GameRecord, is_finished,
}
use cope_chess.Tournament.Store.{Db, get_tournament, list_games, list_tournament_matches}
use cope_chess.Tournament.Status.{set_tournament_status, is_unstarted}
use cope_chess.Events.Hooks.{Hooks}
use cope_chess.Events.Odds.{advance_odds}
use cope_chess.Scheduler.Errors.{ScheduleError, tournament_missing, not_startable}
use cope_chess.Scheduler.Advance.{TournamentAdvance}
use cope_chess.Scheduler.RoundRobin.{generate_round_robin_games}
use cope_chess.Scheduler.Gauntlet.{generate_gauntlet_games}
use cope_chess.Scheduler.Swiss.Round.{generate_swiss_round}
use cope_chess.Scheduler.Swiss.Advance.{advance_swiss}
use cope_chess.Scheduler.Knockout.Round.{generate_knockout_first_round}
use cope_chess.Scheduler.Knockout.Advance.{advance_knockout}

-- a row of `TournamentPreparation`; the name of the tournament goes with its id
pub record TournamentPreparation : Type 0 where
  pub tournament_id : ℕ
  pub created_games : ℕ
  pub skipped : Bool

-- the `if … elif …` over the formats
unfoldable pub first_games : TournamentFormat → TournamentRecord → Db → Result ScheduleError ℕ × Db
first_games round_robin tournament db = generate_round_robin_games tournament db
first_games swiss tournament db = generate_swiss_round tournament 1 db
first_games knockout tournament db = generate_knockout_first_round tournament db
first_games gauntlet tournament db = generate_gauntlet_games tournament db

abbrev is_empty_list {ℓ} : {A : Type ℓ} → List A → Bool
is_empty_list [] = true
is_empty_list (x ∷ xs) = false

first_schedule :
    TournamentRecord → Option (Result ScheduleError ℕ × Db) → Db → Result ScheduleError ℕ × Db
unfolding first_games
first_schedule tournament (some created) db = created
first_schedule tournament none db = first_games tournament.config.format tournament db

module _ (hooks : Hooks) where
  -- its `created_games`
  unfoldable pub materialize_tournament_schedule :
      TournamentRecord → Db → Result ScheduleError ℕ × Db
  unfolding first_schedule
  materialize_tournament_schedule tournament db =
      if is_empty_list (list_games tournament.id db)
        && is_empty_list (list_tournament_matches tournament.id db)
      then first_schedule tournament (advance_odds hooks.odds_event tournament.id db) db
      else (ok 0, db)

  all_games_finished : List GameRecord → TournamentAdvance
  all_games_finished games = record {
    created_games = 0;
    complete = not (is_empty_list games) && all (λ (g : GameRecord). is_finished g.status) games;
  }

  unfoldable pub advance_format :
      ℕ
      → TournamentFormat
      → TournamentRecord
      → Db
      → Option (Result ScheduleError TournamentAdvance × Db)
  unfolding all_games_finished
  advance_format fuel round_robin tournament db =
      some (ok (all_games_finished (list_games tournament.id db)), db)
  advance_format fuel gauntlet tournament db =
      some (ok (all_games_finished (list_games tournament.id db)), db)
  advance_format fuel swiss tournament db = some (advance_swiss tournament db)
  advance_format fuel knockout tournament db = advance_knockout fuel tournament db

  unfoldable pub advance_after :
      ℕ
      → TournamentRecord
      → Option TournamentAdvance × Db
      → Option (Result ScheduleError TournamentAdvance × Db)
  unfolding advance_format
  advance_after fuel tournament (some hand_brain, db) = some (ok hand_brain, db)
  advance_after fuel tournament (none, db) =
      advance_format fuel tournament.config.format tournament db

  -- `fuel` bounds the loop of `_advance_knockout`; `none` means that it ran out
  unfoldable pub advance_tournament :
      ℕ → TournamentRecord → Db → Option (Result ScheduleError TournamentAdvance × Db)
  unfolding advance_after
  advance_tournament fuel tournament db =
      advance_after fuel tournament (hooks.advance_hand_brain tournament db)

  announce_start : TournamentRecord → Db → Db
  announce_start running db =
      let record_games = keep (λ (g : GameRecord). g.record_eligible) (list_games running.id db) in
      if ltb 0 (length record_games)
      then hooks.announce_tournament_started running (length record_games) db
      else db

  unfoldable pub started_with :
      TournamentRecord
      → ℕ
      → Option (Result ScheduleError TournamentAdvance × Db)
      → Option (Result ScheduleError TournamentPreparation × Db)
  unfolding announce_start
  started_with running created none = none
  started_with running created (some (err e, db)) = some (err e, db)
  started_with running created (some (ok advance, db)) = some (
    ok (record {
      tournament_id = running.id;
      created_games = created + advance.created_games;
      skipped = false;
    }),
    announce_start running db,
  )

  -- after `set_tournament_status(…, "running")` and `_refresh_tournament`
  unfoldable pub run_tournament :
      ℕ
      → Option TournamentRecord
      → ℕ
      → Db
      → Option (Result ScheduleError TournamentPreparation × Db)
  unfolding started_with
  run_tournament fuel none created db = some (err tournament_missing, db)
  run_tournament fuel (some running) created db =
      started_with running created (advance_tournament fuel running db)

  unfoldable pub run_materialized :
      ℕ
      → TournamentRecord
      → Result ScheduleError ℕ × Db
      → Option (Result ScheduleError TournamentPreparation × Db)
  unfolding run_tournament
  run_materialized fuel tournament (err e, db) = some (err e, db)
  run_materialized fuel tournament (ok created, db) =
      let db' =
        set_tournament_status hooks.reconcile_engine_relay_events tournament.id
          TournamentStatus.running db in
      run_tournament fuel (get_tournament tournament.id db') created db'

  -- `_start_tournament`
  unfoldable pub start_locked :
      ℕ → TournamentRecord → Db → Option (Result ScheduleError TournamentPreparation × Db)
  unfolding run_materialized
  start_locked fuel tournament db =
      run_materialized fuel tournament (materialize_tournament_schedule tournament db)

  unfoldable pub start_found :
      ℕ → Option TournamentRecord → Db → Option (Result ScheduleError TournamentPreparation × Db)
  start_found fuel none db = some (err tournament_missing, db)
  start_found fuel (some tournament) db =
      if not (is_unstarted tournament.status) || not (is_none tournament.started_at)
      then some (err not_startable, db)
      else start_locked fuel tournament db

  unfoldable pub start_tournament :
      ℕ → ℕ → Db → Option (Result ScheduleError TournamentPreparation × Db)
  unfolding start_found
  start_tournament fuel tournament_id db = start_found fuel (get_tournament tournament_id db) db

  abbrev is_scheduled : TournamentStatus → Bool
  is_scheduled TournamentStatus.scheduled = true
  is_scheduled _ = false

  unfoldable pub prepare_found :
      ℕ
      → ℕ
      → Option TournamentRecord
      → Db
      → Option (Result ScheduleError TournamentPreparation × Db)
  prepare_found fuel tournament_id none db =
      some (ok (record { tournament_id = tournament_id; created_games = 0; skipped = true }), db)
  prepare_found fuel tournament_id (some current) db =
      if is_scheduled current.status
      then start_locked fuel current db
      else some
          (ok (record { tournament_id = tournament_id; created_games = 0; skipped = true }), db)

  unfoldable pub prepare_tournament :
      ℕ → TournamentRecord → Db → Option (Result ScheduleError TournamentPreparation × Db)
  unfolding prepare_found
  prepare_tournament fuel tournament db =
      prepare_found fuel tournament.id (get_tournament tournament.id db) db
