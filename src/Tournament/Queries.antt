-- ===== src/Tournament/Queries.antt =====
-- Which rows the queries of Tournament/Store.antt return, whatever their order.
use cope_chess.Prelude.{ℕ, Bool, ◌&&◌, ◌==◌, ◌≡◌, ◌∙◌, any, keep, any-keep, any-sort_by}
use cope_chess.Tournament.Records.{GameRecord, MatchRecord}
use cope_chess.Tournament.Store.{
  Db, game_before, match_before, list_games, list_tournament_matches, list_round_matches,
}

pub any-list_games :
    (p : GameRecord → Bool) (tournament_id : ℕ) (db : Db)
    → any p (list_games tournament_id db)
      ≡ any (λ (g : GameRecord). (g.tournament_id == tournament_id) && p g) db.games
unfolding list_games
any-list_games p tournament_id db =
    let own = λ (g : GameRecord). g.tournament_id == tournament_id in
    any-sort_by game_before p (keep own db.games) ∙ any-keep p own db.games

pub any-list_tournament_matches :
    (p : MatchRecord → Bool) (tournament_id : ℕ) (db : Db)
    → any p (list_tournament_matches tournament_id db)
      ≡ any (λ (m : MatchRecord). (m.tournament_id == tournament_id) && p m) db.matches
unfolding list_tournament_matches
any-list_tournament_matches p tournament_id db =
    let own = λ (m : MatchRecord). m.tournament_id == tournament_id in
    any-sort_by match_before p (keep own db.matches) ∙ any-keep p own db.matches

pub any-list_round_matches :
    (p : MatchRecord → Bool) (tournament_id round : ℕ) (db : Db)
    → any p (list_round_matches tournament_id round db)
      ≡ any
          (λ (m : MatchRecord). (m.tournament_id == tournament_id && m.round == round) && p m)
          db.matches
unfolding list_round_matches
any-list_round_matches p tournament_id round db =
    let own = λ (m : MatchRecord). m.tournament_id == tournament_id && m.round == round in
    any-sort_by match_before p (keep own db.matches) ∙ any-keep p own db.matches
