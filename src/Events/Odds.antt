-- ===== src/Events/Odds.antt =====
-- `advance_odds` of cope/events/duck_vs_fish.py: the next game of the match at increasing odds.
pub mod Step
use cope_chess.Prelude.{
  ℕ, suc, ◌+◌, ◌-◌, ◌%◌, List, [], ◌∷◌, Option, none, some, Bool, true, false, not, ◌&&◌, ◌||◌, ltb,
  leb, ◌==◌, if◌then◌else◌, any, keep, length, get_elem?, sort_by,
}
use cope_chess.Exec.{Result, ok, err}
use cope_chess.Tournament.Records.{
  TournamentRecord, TournamentStatus, GameRecord, GameResult, white_wins, black_wins, Opening,
  is_finished,
}
use cope_chess.Tournament.Store.{Db, GameRow, get_tournament, list_games, create_game}
use cope_chess.Tournament.Openings.{list_suite_openings}
use cope_chess.Tournament.Status.{is_unstarted, is_running}
use cope_chess.Scheduler.Create.{committed}
use cope_chess.Scheduler.Errors.{ScheduleError, odds_participants, odds_positions_missing}

-- `len(ODDS_STEPS)`
abbrev pub odds_steps : ℕ
odds_steps = 22

abbrev pub is_white_win : Option GameResult → Bool
is_white_win (some white_wins) = true
is_white_win _ = false

abbrev pub is_black_win : Option GameResult → Bool
is_black_win (some black_wins) = true
is_black_win _ = false

-- `game.result == ("1-0" if game.white_engine_id == wakwak else "0-1")`
unfoldable pub won_by : ℕ → GameRecord → Bool
won_by wakwak g =
    if g.white_engine_id == wakwak then is_white_win g.result else is_black_win g.result

abbrev pub suite_openings : Option ℕ → Db → List Opening
suite_openings none db = []
suite_openings (some suite_id) db = list_suite_openings suite_id db

unfoldable pub odds_row : TournamentRecord → ℕ → ℕ → ℕ → Opening → GameRow
odds_row tournament wakwak fish number opening = record {
  tournament_id = tournament.id;
  round = number;
  pair_index = 1;
  white_engine_id = if number % 2 == 0 then fish else wakwak;
  black_engine_id = if number % 2 == 0 then wakwak else fish;
  match_id = none;
  game_number = number;
  tiebreak_kind = none;
  opening_id = some opening.id;
}

unfoldable pub create_odds_game :
    TournamentRecord → ℕ → ℕ → ℕ → Option Opening → Db → Result ScheduleError ℕ × Db
unfolding odds_row committed
create_odds_game tournament wakwak fish number none db = (err odds_positions_missing, db)
create_odds_game tournament wakwak fish number (some opening) db =
    committed db (1, (create_game (odds_row tournament wakwak fish number opening) db).1)

unfoldable pub odds_game : TournamentRecord → List ℕ → Db → Result ScheduleError ℕ × Db
unfolding create_odds_game
odds_game tournament (wakwak ∷ fish ∷ []) db =
    let games = list_games tournament.id db in
    let openings = suite_openings tournament.config.opening_suite_id db in
    if any (λ g. not (won_by wakwak g)) games
    then (ok 0, db)
    else if leb odds_steps (length games)
    then (ok 0, db)
    else if not (length openings == odds_steps)
    then (err odds_positions_missing, db)
    else create_odds_game tournament wakwak fish (length games + 1)
        (get_elem? openings (length games)) db
odds_game tournament _ db = (err odds_participants, db)

unfoldable pub odds_of : TournamentRecord → Db → Result ScheduleError ℕ × Db
unfolding odds_game
odds_of tournament db =
    if not (is_unstarted tournament.status || is_running tournament.status)
    then (ok 0, db)
    else if any (λ (g : GameRecord). not (is_finished g.status)) (list_games tournament.id db)
    then (ok 0, db)
    else odds_game tournament tournament.config.participants db

unfoldable pub odds_with :
    Option TournamentRecord → Bool → Db → Option (Result ScheduleError ℕ × Db)
unfolding odds_of
odds_with none has_event db = none
odds_with (some tournament) false db = none
odds_with (some tournament) true db = some (odds_of tournament db)

-- `none` where the source returns None
unfoldable pub advance_odds : (ℕ → Db → Bool) → ℕ → Db → Option (Result ScheduleError ℕ × Db)
unfolding odds_with
advance_odds odds_event tournament_id db =
    odds_with (get_tournament tournament_id db) (odds_event tournament_id db) db
