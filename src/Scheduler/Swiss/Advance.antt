-- ===== src/Scheduler/Swiss/Advance.antt =====
-- `_advance_swiss` of cope/runner/scheduler.py.
use cope_chess.Prelude.{
  ℕ, ◌+◌, List, [], ◌∷◌, Option, none, some, Bool, true, false, not, ◌==◌, ltb, leb, any, keep,
  if◌then◌else◌,
}
use cope_chess.Exec.{Result, ok}
use cope_chess.Tournament.Records.{
  FormatOptions, swiss_options, TournamentRecord, GameRecord, MatchRecord, is_bye, is_pending,
  is_finished,
}
use cope_chess.Tournament.Store.{Db, list_games, list_tournament_matches, finish_tournament_match}
use cope_chess.Scheduler.Errors.{ScheduleError}
use cope_chess.Scheduler.Results.{match_points, games_of_match}
use cope_chess.Scheduler.Swiss.Round.{generate_swiss_round}
use cope_chess.Scheduler.Advance.{
  TournamentAdvance, no_advance, completed, of_created, current_round,
}

unfoldable pub swiss_winner : MatchRecord → ℕ × ℕ → Option ℕ
swiss_winner m (first_points, second_points) =
    if ltb second_points first_points
    then some m.engine1_id
    else if ltb first_points second_points
    then m.engine2_id
    else none

-- the loop that finishes the pending matches; `false` is its early return
unfoldable pub finish_swiss_matches : List GameRecord → List MatchRecord → Db → Bool × Db
unfolding swiss_winner
finish_swiss_matches games [] db = (true, db)
finish_swiss_matches games (m ∷ matches) db =
    let match_games = games_of_match m.id games in
    elim (is_pending m.status) [
      | false ↦ finish_swiss_matches games matches db
      | true ↦ elim match_games [
        | [] ↦ (false, db)
        | g ∷ gs ↦
            finish_swiss_matches games matches
              (finish_tournament_match m.id (swiss_winner m (match_points m (g ∷ gs))) db)
      ]
    ]

-- some game of a match that is no bye is not finished
unfoldable pub swiss_waiting : List GameRecord → List MatchRecord → Bool
swiss_waiting games matches =
    any
      (λ (m : MatchRecord).
        any (λ (g : GameRecord). not (is_finished g.status)) (games_of_match m.id games))
      (keep (λ m. not (is_bye m.status)) matches)

after_swiss_round :
    TournamentRecord → ℕ → ℕ → Bool × Db → Result ScheduleError TournamentAdvance × Db
after_swiss_round tournament rounds round (false, db) = (ok no_advance, db)
after_swiss_round tournament rounds round (true, db) =
    if leb rounds round
    then (ok completed, db)
    else of_created (generate_swiss_round tournament (round + 1) db)

advance_swiss_matches :
    TournamentRecord → ℕ → List MatchRecord → Db → Result ScheduleError TournamentAdvance × Db
unfolding after_swiss_round
advance_swiss_matches tournament rounds [] db = of_created (generate_swiss_round tournament 1 db)
advance_swiss_matches tournament rounds (m ∷ ms) db =
    let round = current_round (m ∷ ms) in
    let round_matches = keep (λ (x : MatchRecord). x.round == round) (m ∷ ms) in
    let games = list_games tournament.id db in
    if swiss_waiting games round_matches
    then (ok no_advance, db)
    else after_swiss_round tournament rounds round (finish_swiss_matches games round_matches db)

advance_swiss_with :
    TournamentRecord → FormatOptions → Db → Result ScheduleError TournamentAdvance × Db
unfolding advance_swiss_matches
advance_swiss_with tournament (swiss_options rounds) db =
    advance_swiss_matches tournament rounds (list_tournament_matches tournament.id db) db
advance_swiss_with tournament _ db = (ok no_advance, db)

unfoldable pub advance_swiss : TournamentRecord → Db → Result ScheduleError TournamentAdvance × Db
unfolding advance_swiss_with
advance_swiss tournament db = advance_swiss_with tournament tournament.config.format_options db
