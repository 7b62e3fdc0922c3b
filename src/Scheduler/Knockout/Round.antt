-- ===== src/Scheduler/Knockout/Round.antt =====
-- `_create_knockout_round` and `generate_knockout_first_round` of cope/runner/scheduler.py.
use cope_chess.Prelude.{
  ℕ, ◌+◌, ◌-◌, ◌%◌, List, [], ◌∷◌, Option, none, some, ◌==◌, if◌then◌else◌, enumerate, length,
}
use cope_chess.Exec.{Result, err, for_each}
use cope_chess.Tournament.Records.{FormatOptions, knockout_options, TournamentRecord, MatchStatus}
use cope_chess.Tournament.Store.{Db, MatchRow, create_tournament_match}
use cope_chess.Tournament.Openings.{opening_ids}
use cope_chess.Scheduler.Errors.{ScheduleError, knockout_options_invalid, index_error}
use cope_chess.Scheduler.Create.{GameRequest, Tally, schedule, committed}
use cope_chess.Scheduler.Knockout.Bracket.{first_pairings}

abbrev pub Entrants : Type 0
Entrants = Option ℕ × Option ℕ

-- what a loop over the pairings carries: `pair_index`, `created_games` and the database
abbrev pub RoundState : Type 0
RoundState = ℕ × Tally

unfoldable pub bye_row : TournamentRecord → ℕ → ℕ → ℕ → MatchRow
bye_row tournament round_number match_index entrant = record {
  tournament_id = tournament.id;
  round = round_number;
  match_index = match_index;
  engine1_id = entrant;
  engine2_id = none;
  status = MatchStatus.bye;
  winner_engine_id = some entrant;
}

unfoldable pub match_row : TournamentRecord → ℕ → ℕ → ℕ → ℕ → MatchRow
match_row tournament round_number match_index a b = record {
  tournament_id = tournament.id;
  round = round_number;
  match_index = match_index;
  engine1_id = a;
  engine2_id = some b;
  status = MatchStatus.pending;
  winner_engine_id = none;
}

unfoldable pub knockout_request : ℕ → ℕ → ℕ → ℕ → ℕ → ℕ → ℕ → GameRequest
knockout_request round_number match_index match_id a b pair_index game_number = record {
  round_number = round_number;
  pair_index = pair_index;
  white_engine_id = if game_number % 2 == 0 then b else a;
  black_engine_id = if game_number % 2 == 0 then a else b;
  match_id = some match_id;
  game_number = game_number;
  tiebreak_kind = none;
  opening_offset = some (match_index - 1);
}

module _ (tournament : TournamentRecord) (ids : List ℕ) (round_number : ℕ) where
  -- the two games of a match
  unfoldable pub knockout_game : ℕ → ℕ → ℕ → ℕ → ℕ → RoundState → RoundState
  knockout_game match_index match_id a b game_number (pair_index, t) = (
    pair_index + 1,
    schedule tournament ids
        (knockout_request round_number match_index match_id a b pair_index game_number) t,
  )

  unfoldable pub enter_bye : ℕ → ℕ → RoundState → RoundState
  enter_bye match_index entrant (pair_index, (created, db)) = (
    pair_index,
    (created, (create_tournament_match (bye_row tournament round_number match_index entrant) db).1),
  )

  unfoldable pub enter_match : ℕ → ℕ → ℕ → RoundState → RoundState
  unfolding knockout_game
  enter_match match_index a b (pair_index, (created, db)) =
      let (match_id, db') =
        create_tournament_match (match_row tournament round_number match_index a b) db in
      for_each (1 ∷ 2 ∷ []) (knockout_game match_index match_id a b) (pair_index, (created, db'))

  -- one pairing: nothing, a bye, or a match with its games
  unfoldable pub enter_pairing : ℕ → Entrants → RoundState → RoundState
  unfolding enter_bye enter_match
  enter_pairing match_index (none, none) s = s
  enter_pairing match_index (some a, none) s = enter_bye match_index a s
  enter_pairing match_index (none, some b) s = enter_bye match_index b s
  enter_pairing match_index (some a, some b) s = enter_match match_index a b s

unfoldable pub knockout_round_with :
    TournamentRecord → FormatOptions → ℕ → List Entrants → Db → Result ScheduleError ℕ × Db
knockout_round_with tournament knockout_options round_number pairings db =
    let (ids, db') = opening_ids tournament (length pairings) db in
    let (pair_index, t) =
      for_each (enumerate 1 pairings) (λ p. enter_pairing tournament ids round_number p.0 p.1)
        (1, (0, db')) in
    committed db t
knockout_round_with tournament _ round_number pairings db = (err knockout_options_invalid, db)

unfoldable pub create_knockout_round :
    TournamentRecord → ℕ → List Entrants → Db → Result ScheduleError ℕ × Db
unfolding knockout_round_with
create_knockout_round tournament round_number pairings db =
    knockout_round_with tournament tournament.config.format_options round_number pairings db

first_round_with : TournamentRecord → FormatOptions → Db → Result ScheduleError ℕ × Db
first_round_with tournament knockout_options db =
    elim (first_pairings tournament.config.participants) [
      | none ↦ (err index_error, db)
      | some pairings ↦ create_knockout_round tournament 1 pairings db
    ]
first_round_with tournament _ db = (err knockout_options_invalid, db)

unfoldable pub generate_knockout_first_round : TournamentRecord → Db → Result ScheduleError ℕ × Db
unfolding first_round_with
generate_knockout_first_round tournament db =
    first_round_with tournament tournament.config.format_options db
