-- ===== src/Tournament/Store.antt =====
-- The tables `tournaments`, `games`, `tournament_matches` and `openings`, with the queries and
-- updates of cope/db/repo.py. A table is a list of its rows, in the order of insertion; BIGSERIAL
-- ids count up. `draws` are the raw numbers behind `random.randint`, `drawn` counts those used. A
-- row that breaks a UNIQUE constraint sets `is_aborted`: the transaction can only be rolled back,
-- later rows are refused too, and the function of the scheduler or of the events that inserts
-- rows raises. References to engines and tournaments are not checked.
use cope_chess.Prelude.{
  ℕ, suc, List, [], ◌∷◌, ◌++◌, Option, none, Bool, true, ◌&&◌, ◌||◌, ltb, ◌==◌, if◌then◌else◌, any,
  keep, first, map, sort_by,
}
use cope_chess.Tournament.Records.{
  TournamentRecord, GameRecord, GameStatus, MatchRecord, MatchStatus, Opening, TiebreakKind,
  is_pending,
}

pub record Db : Type 0 where
  pub tournaments : List TournamentRecord
  pub games : List GameRecord
  pub matches : List MatchRecord
  pub openings : List Opening
  pub next_game_id : ℕ
  pub next_match_id : ℕ
  pub draws : ℕ → ℕ
  pub drawn : ℕ
  pub clock : ℕ
  pub is_aborted : Bool

-- ORDER BY round, pair_index, id
unfoldable pub game_before : GameRecord → GameRecord → Bool
game_before a b =
    ltb a.round b.round
    || (a.round == b.round
        && (ltb a.pair_index b.pair_index || (a.pair_index == b.pair_index && ltb a.id b.id)))

-- ORDER BY round, match_index, id
unfoldable pub match_before : MatchRecord → MatchRecord → Bool
match_before a b =
    ltb a.round b.round
    || (a.round == b.round
        && (ltb a.match_index b.match_index || (a.match_index == b.match_index && ltb a.id b.id)))

unfoldable pub get_tournament : ℕ → Db → Option TournamentRecord
get_tournament tournament_id db = first (λ t. t.id == tournament_id) db.tournaments

unfoldable pub list_games : ℕ → Db → List GameRecord
unfolding game_before
list_games tournament_id db =
    sort_by game_before (keep (λ g. g.tournament_id == tournament_id) db.games)

unfoldable pub list_tournament_matches : ℕ → Db → List MatchRecord
unfolding match_before
list_tournament_matches tournament_id db =
    sort_by match_before (keep (λ m. m.tournament_id == tournament_id) db.matches)

-- the query with `round=…`: within one round the same ORDER BY
unfoldable pub list_round_matches : ℕ → ℕ → Db → List MatchRecord
unfolding match_before
list_round_matches tournament_id round db =
    sort_by match_before
      (keep (λ m. m.tournament_id == tournament_id && m.round == round) db.matches)

-- the arguments of `create_game`
pub record GameRow : Type 0 where
  pub tournament_id : ℕ
  pub round : ℕ
  pub pair_index : ℕ
  pub white_engine_id : ℕ
  pub black_engine_id : ℕ
  pub match_id : Option ℕ
  pub game_number : ℕ
  pub tiebreak_kind : Option TiebreakKind
  pub opening_id : Option ℕ

unfoldable pub game_of_row : ℕ → GameRow → GameRecord
game_of_row id r = record {
  id = id;
  tournament_id = r.tournament_id;
  round = r.round;
  pair_index = r.pair_index;
  white_engine_id = r.white_engine_id;
  black_engine_id = r.black_engine_id;
  match_id = r.match_id;
  game_number = r.game_number;
  tiebreak_kind = r.tiebreak_kind;
  opening_id = r.opening_id;
  status = GameStatus.pending;
  record_eligible = true;
  result = none;
}

-- UNIQUE (tournament_id, round, pair_index, white_engine_id, black_engine_id)
unfoldable pub takes_game : GameRow → GameRecord → Bool
takes_game r g =
    g.tournament_id == r.tournament_id
    && g.round == r.round
    && g.pair_index == r.pair_index
    && g.white_engine_id == r.white_engine_id
    && g.black_engine_id == r.black_engine_id

unfoldable pub insert_game : GameRow → Db → Db
unfolding game_of_row
insert_game r db = record db {
  games = db.games ++ (game_of_row db.next_game_id r ∷ []);
  next_game_id = suc db.next_game_id;
}

unfoldable pub create_game : GameRow → Db → ℕ × Db
unfolding takes_game insert_game
create_game r db =
    if db.is_aborted || any (takes_game r) db.games
    then (0, record db { is_aborted = true })
    else (db.next_game_id, insert_game r db)

-- the arguments of `create_tournament_match`
pub record MatchRow : Type 0 where
  pub tournament_id : ℕ
  pub round : ℕ
  pub match_index : ℕ
  pub engine1_id : ℕ
  pub engine2_id : Option ℕ
  pub status : MatchStatus
  pub winner_engine_id : Option ℕ

unfoldable pub match_of_row : ℕ → MatchRow → MatchRecord
match_of_row id r = record {
  id = id;
  tournament_id = r.tournament_id;
  round = r.round;
  match_index = r.match_index;
  engine1_id = r.engine1_id;
  engine2_id = r.engine2_id;
  status = r.status;
  winner_engine_id = r.winner_engine_id;
}

-- UNIQUE (tournament_id, round, match_index)
unfoldable pub takes_match : MatchRow → MatchRecord → Bool
takes_match r m =
    m.tournament_id == r.tournament_id && m.round == r.round && m.match_index == r.match_index

unfoldable pub insert_match : MatchRow → Db → Db
unfolding match_of_row
insert_match r db = record db {
  matches = db.matches ++ (match_of_row db.next_match_id r ∷ []);
  next_match_id = suc db.next_match_id;
}

unfoldable pub create_tournament_match : MatchRow → Db → ℕ × Db
unfolding takes_match insert_match
create_tournament_match r db =
    if db.is_aborted || any (takes_match r) db.matches
    then (0, record db { is_aborted = true })
    else (db.next_match_id, insert_match r db)

unfoldable pub finish_row : ℕ → Option ℕ → MatchRecord → MatchRecord
finish_row match_id winner m =
    if m.id == match_id && is_pending m.status
    then record m { status = MatchStatus.finished; winner_engine_id = winner }
    else m

unfoldable pub finish_tournament_match : ℕ → Option ℕ → Db → Db
unfolding finish_row
finish_tournament_match match_id winner db = record db {
  matches = map (finish_row match_id winner) db.matches;
}
