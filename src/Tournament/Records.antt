-- ===== src/Tournament/Records.antt =====
-- TournamentFormat, FormatOptions and TournamentConfig of cope/core/models.py; TournamentRecord,
-- GameRecord and TournamentMatchRecord of cope/db/repo.py. The columns whose texts the schema
-- restricts are enumerations. A timestamp is a number.
use cope_chess.Prelude.{ℕ, List, Option, some, Bool, true, false, String}

pub data TournamentFormat : Type 0 where
  round_robin swiss knockout gauntlet : TournamentFormat

pub data FormatOptions : Type 0 where
  round_robin_options : (cycles : ℕ) → FormatOptions
  swiss_options : (rounds : ℕ) → FormatOptions
  knockout_options : FormatOptions
  gauntlet_options : (hero_engine_id cycles : ℕ) → FormatOptions

pub record TournamentConfig : Type 0 where
  pub format : TournamentFormat
  pub format_options : FormatOptions
  pub participants : List ℕ
  pub opening_suite_id : Option ℕ

pub data TournamentStatus : Type 0 where
  draft scheduled running paused finished aborted : TournamentStatus

pub record TournamentRecord : Type 0 where
  pub id : ℕ
  pub name : String
  pub config : TournamentConfig
  pub status : TournamentStatus
  pub started_at : Option ℕ
  pub finished_at : Option ℕ

pub data TiebreakKind : Type 0 where
  extra_pair armageddon : TiebreakKind

pub data GameStatus : Type 0 where
  pending assigned live finished abandoned : GameStatus

-- "1-0", "0-1" and "1/2-1/2"
pub data GameResult : Type 0 where
  white_wins black_wins draw : GameResult

pub record GameRecord : Type 0 where
  pub id : ℕ
  pub tournament_id : ℕ
  pub round : ℕ
  pub pair_index : ℕ
  pub white_engine_id : ℕ
  pub black_engine_id : ℕ
  pub match_id : Option ℕ
  pub game_number : ℕ
  pub tiebreak_kind : Option TiebreakKind
  pub opening_id : Option ℕ
  pub status : GameStatus
  pub record_eligible : Bool
  pub result : Option GameResult

pub data MatchStatus : Type 0 where
  pending finished bye : MatchStatus

pub record MatchRecord : Type 0 where
  pub id : ℕ
  pub tournament_id : ℕ
  pub round : ℕ
  pub match_index : ℕ
  pub engine1_id : ℕ
  pub engine2_id : Option ℕ
  pub status : MatchStatus
  pub winner_engine_id : Option ℕ

-- a row of `openings`
pub record Opening : Type 0 where
  pub id : ℕ
  pub suite_id : ℕ
  pub position : ℕ

abbrev pub is_finished : GameStatus → Bool
is_finished GameStatus.finished = true
is_finished _ = false

abbrev pub is_bye : MatchStatus → Bool
is_bye bye = true
is_bye _ = false

abbrev pub is_pending : MatchStatus → Bool
is_pending MatchStatus.pending = true
is_pending _ = false

abbrev pub is_armageddon : Option TiebreakKind → Bool
is_armageddon (some armageddon) = true
is_armageddon _ = false

abbrev pub is_extra_pair : Option TiebreakKind → Bool
is_extra_pair (some extra_pair) = true
is_extra_pair _ = false
