-- ===== src/Scheduler/Knockout/Resolve.antt =====
-- `_resolve_knockout_match` and `_append_knockout_games` of cope/runner/scheduler.py: the winner of
-- a match whose games are finished, or two more games.
use cope_chess.Prelude.{
  ℕ, ◌+◌, ◌/◌, ◌%◌, List, Option, none, some, not, ◌&&◌, ◌||◌, ltb, leb, ◌==◌, if◌then◌else◌, first,
  keep, map, length, max_of, range,
}
use cope_chess.Exec.{for_each}
use cope_chess.Tournament.Records.{
  TournamentRecord, GameRecord, MatchRecord, TiebreakKind, extra_pair, is_armageddon, is_extra_pair,
}
use cope_chess.Tournament.Store.{Db, list_games}
use cope_chess.Tournament.Openings.{opening_ids}
use cope_chess.Scheduler.Create.{GameRequest, schedule}
use cope_chess.Scheduler.Results.{game_winner, match_points}

unfoldable pub extra_request : MatchRecord → ℕ → TiebreakKind → ℕ → ℕ → ℕ → GameRequest
extra_request m engine2 kind next_game_number next_pair_index offset =
    let game_number = next_game_number + offset in
    record {
      round_number = m.round;
      pair_index = next_pair_index + offset;
      white_engine_id = if game_number % 2 == 0 then engine2 else m.engine1_id;
      black_engine_id = if game_number % 2 == 0 then m.engine1_id else engine2;
      match_id = some m.id;
      game_number = game_number;
      tiebreak_kind = some kind;
      opening_offset = some (offset / 2);
    }

unfoldable pub append_with :
    TournamentRecord → MatchRecord → List GameRecord → ℕ → TiebreakKind → Option ℕ → Db → ℕ × Db
append_with tournament m games count kind none db = (0, db)
append_with tournament m games count kind (some engine2) db =
    let next_game_number = max_of 0 (map (λ (g : GameRecord). g.game_number) games) + 1 in
    let round_games = keep (λ (g : GameRecord). g.round == m.round) (list_games tournament.id db) in
    let next_pair_index = max_of 0 (map (λ (g : GameRecord). g.pair_index) round_games) + 1 in
    let (ids, db') = opening_ids tournament ((count + 1) / 2) db in
    let (created, db'') =
      for_each (range count)
        (λ offset.
          schedule tournament ids
            (extra_request m engine2 kind next_game_number next_pair_index offset))
        (0, db') in
    (count, db'')

-- `games` is not empty where this is called
unfoldable pub append_knockout_games :
    TournamentRecord → MatchRecord → List GameRecord → ℕ → TiebreakKind → Db → ℕ × Db
unfolding append_with
append_knockout_games tournament m games count kind db =
    append_with tournament m games count kind m.engine2_id db

-- the winner of an armageddon game; Black wins a draw
unfoldable pub armageddon_winner : GameRecord → ℕ
armageddon_winner g = elim (game_winner g) [ none ↦ g.black_engine_id | some e ↦ e ]

unfoldable pub resolve_points :
    TournamentRecord → MatchRecord → List GameRecord → ℕ × ℕ → Db → (Option ℕ × ℕ) × Db
resolve_points tournament m games (first_points, second_points) db =
    let extra_games = keep (λ (g : GameRecord). is_extra_pair g.tiebreak_kind) games in
    let base_complete = leb 2 (length games) in
    let extra_complete = length extra_games % 2 == 0 in
    let (created, db') = append_knockout_games tournament m games 2 extra_pair db in
    if base_complete && extra_complete && not (first_points == second_points)
    then ((if ltb second_points first_points then some m.engine1_id else m.engine2_id, 0), db)
    else if not base_complete || not extra_complete
    then ((none, 0), db)
    else ((none, created), db')

unfoldable pub resolve_with :
    TournamentRecord → MatchRecord → List GameRecord → Option GameRecord → Db → (Option ℕ × ℕ) × Db
unfolding resolve_points
resolve_with tournament m games (some g) db = ((some (armageddon_winner g), 0), db)
resolve_with tournament m games none db =
    resolve_points tournament m games (match_points m games) db

unfoldable pub resolve_knockout_match :
    TournamentRecord → MatchRecord → List GameRecord → Db → (Option ℕ × ℕ) × Db
unfolding resolve_with
resolve_knockout_match tournament m games db =
    resolve_with tournament m games
      (first (λ (g : GameRecord). is_armageddon g.tiebreak_kind) games) db
