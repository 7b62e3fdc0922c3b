-- ===== src/Scheduler/Knockout/Advance.antt =====
-- `_advance_knockout` of cope/runner/scheduler.py.
pub mod Rounds
pub mod Created
pub mod Live
pub mod Ends
pub mod Terminates
use cope_chess.Prelude.{
  ℕ, zero, suc, ◌+◌, List, [], ◌∷◌, Option, none, some, Bool, true, false, not, ◌||◌, ◌==◌,
  if◌then◌else◌, any, keep, map, length, is_none,
}
use cope_chess.Exec.{Result, ok, err}
use cope_chess.Tournament.Records.{
  FormatOptions, knockout_options, TournamentRecord, GameRecord, MatchRecord, is_finished,
  is_pending,
}
use cope_chess.Tournament.Store.{
  Db, list_games, list_tournament_matches, list_round_matches, finish_tournament_match,
}
use cope_chess.Scheduler.Errors.{ScheduleError, index_error, constraint_violated}
use cope_chess.Scheduler.Advance.{TournamentAdvance, no_advance, of_created, current_round}
use cope_chess.Scheduler.Results.{games_of_match}
use cope_chess.Scheduler.Knockout.Bracket.{in_pairs}
use cope_chess.Scheduler.Knockout.Round.{create_knockout_round, generate_knockout_first_round}
use cope_chess.Scheduler.Knockout.Resolve.{resolve_knockout_match}

-- what the loop over the matches of a round carries
pub record Progress : Type 0 where
  pub waiting : Bool
  pub total_created : ℕ
  pub db : Db

-- a pending match whose games are all finished
unfoldable pub after_resolve : MatchRecord → Progress → (Option ℕ × ℕ) × Db → Progress
after_resolve m p ((none, created), db) = record {
  waiting = true;
  total_created = p.total_created + created;
  db = db;
}
after_resolve m p ((some winner, created), db) = record {
  waiting = p.waiting;
  total_created = p.total_created + created;
  db = finish_tournament_match m.id (some winner) db;
}

abbrev pub not_ready : List GameRecord → Bool
not_ready [] = true
not_ready (g ∷ gs) = any (λ (x : GameRecord). not (is_finished x.status)) (g ∷ gs)

unfoldable pub settle_match : TournamentRecord → List GameRecord → MatchRecord → Progress → Progress
unfolding after_resolve
settle_match tournament games m p =
    let match_games = games_of_match m.id games in
    if not (is_pending m.status)
    then p
    else if not_ready match_games
    then record p { waiting = true }
    else after_resolve m p (resolve_knockout_match tournament m match_games p.db)

unfoldable pub settle_matches :
    TournamentRecord → List GameRecord → List MatchRecord → Progress → Progress
unfolding settle_match
settle_matches tournament games [] p = p
settle_matches tournament games (m ∷ ms) p =
    settle_matches tournament games ms (settle_match tournament games m p)

abbrev pub AdvanceResult : Type 0
AdvanceResult = Result ScheduleError TournamentAdvance × Db

-- what one round of the `while True` loop does: it returns, or it goes on with more created games
pub data Turn : Type 0 where
  done : AdvanceResult → Turn
  again : ℕ → Db → Turn

abbrev advance_of : ℕ → Bool → TournamentAdvance
advance_of created complete = record { created_games = created; complete = complete }

unfoldable pub continue_with : ℕ → Result ScheduleError ℕ × Db → Turn
continue_with total (err e, db) = done (err e, db)
continue_with total (ok created, db) = again (total + created) db

unfoldable pub next_round :
    TournamentRecord → ℕ → ℕ → Option (List (Option ℕ × Option ℕ)) → Db → Turn
unfolding continue_with
next_round tournament round total none db = done (err index_error, db)
next_round tournament round total (some pairings) db =
    continue_with total (create_knockout_round tournament (round + 1) pairings db)

unfoldable pub after_matches : TournamentRecord → ℕ → Progress → Turn
unfolding next_round
after_matches tournament round p =
    let round_matches = list_round_matches tournament.id round p.db in
    let winners = map (λ (m : MatchRecord). m.winner_engine_id) round_matches in
    if p.waiting || any (λ (m : MatchRecord). is_pending m.status) round_matches
    then done (ok (advance_of p.total_created false), p.db)
    else if length round_matches == 1
    then done (ok (advance_of p.total_created true), p.db)
    else if any is_none winners
    then done (ok (advance_of p.total_created false), p.db)
    else next_round tournament round p.total_created (in_pairs winners) p.db

unfoldable pub turn_with : TournamentRecord → ℕ → List MatchRecord → Db → Turn
unfolding after_matches
turn_with tournament total [] db = done (of_created (generate_knockout_first_round tournament db))
turn_with tournament total (m ∷ ms) db =
    let round = current_round (m ∷ ms) in
    let round_matches = keep (λ (x : MatchRecord). x.round == round) (m ∷ ms) in
    let p =
      settle_matches tournament (list_games tournament.id db) round_matches
        (record { waiting = false; total_created = total; db = db }) in
    if p.db.is_aborted then done (err constraint_violated, db) else after_matches tournament round p

unfoldable pub knockout_turn : TournamentRecord → ℕ → Db → Turn
unfolding turn_with
knockout_turn tournament total db =
    turn_with tournament total (list_tournament_matches tournament.id db) db

-- the `while True` loop, on fuel; `none` means that the fuel ran out
unfoldable pub knockout_loop : ℕ → TournamentRecord → ℕ → Db → Option AdvanceResult
unfolding knockout_turn
knockout_loop zero tournament total db = none
knockout_loop (suc fuel) tournament total db = elim (knockout_turn tournament total db) [
  | done r ↦ some r
  | again total' db' ↦ knockout_loop fuel tournament total' db'
]

unfoldable pub advance_knockout_with :
    ℕ → TournamentRecord → FormatOptions → Db → Option AdvanceResult
advance_knockout_with fuel tournament knockout_options db = knockout_loop fuel tournament 0 db
advance_knockout_with fuel tournament _ db = some (ok no_advance, db)

unfoldable pub advance_knockout : ℕ → TournamentRecord → Db → Option AdvanceResult
unfolding advance_knockout_with
advance_knockout fuel tournament db =
    advance_knockout_with fuel tournament tournament.config.format_options db
