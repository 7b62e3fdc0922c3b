-- ===== src/Examples/Data.antt =====
-- Small tournaments and a database for the examples.
use cope_chess.Prelude.{false, ℕ, [], ◌∷◌, Option, none, some, true}
use cope_chess.Tournament.Records.{
  TournamentRecord, TournamentStatus, GameRecord, GameStatus, GameResult, MatchRecord, bye,
  round_robin, gauntlet, round_robin_options, gauntlet_options,
}
use cope_chess.Tournament.Store.{Db}

abbrev pub cup : TournamentRecord
cup = record {
  id = 1;
  name = "cup";
  config = record {
    format = round_robin;
    format_options = round_robin_options 2;
    participants = 4 ∷ 5 ∷ 6 ∷ [];
    opening_suite_id = some 9;
  };
  status = TournamentStatus.running;
  started_at = some 3;
  finished_at = none;
}

abbrev pub challenge : TournamentRecord
challenge = record cup {
  config = record {
    format = gauntlet;
    format_options = gauntlet_options 5 1;
    participants = 4 ∷ 5 ∷ 6 ∷ [];
    opening_suite_id = some 9;
  };
}

abbrev pub fresh_db : Db
fresh_db = record {
  tournaments = cup ∷ [];
  games = [];
  matches = [];
  openings =
      record { id = 70; suite_id = 9; position = 1 }
      ∷ record { id = 71; suite_id = 9; position = 2 }
      ∷ [];
  next_game_id = 100;
  next_match_id = 200;
  is_aborted = false;
  draws = λ n. n;
  drawn = 0;
  clock = 5;
}

abbrev pub played_game : ℕ → ℕ → ℕ → Option GameResult → GameRecord
played_game game_id white black result = record {
  id = game_id;
  tournament_id = 1;
  round = 1;
  pair_index = 1;
  white_engine_id = white;
  black_engine_id = black;
  match_id = some 200;
  game_number = 1;
  tiebreak_kind = none;
  opening_id = none;
  status = GameStatus.finished;
  record_eligible = true;
  result = result;
}

abbrev pub bye_match : ℕ → MatchRecord
bye_match e = record {
  id = 201;
  tournament_id = 1;
  round = 1;
  match_index = 2;
  engine1_id = e;
  engine2_id = none;
  status = bye;
  winner_engine_id = some e;
}
