-- ===== src/Tournament/Status.antt =====
-- `set_tournament_status` of cope/db/repo.py with `_abandon_tournament_games`, for the table of the
-- tournaments and that of the games; `now` is the database's clock. What other components do
-- with a change of status is left to the caller's `reconcile`.
use cope_chess.Prelude.{
  ℕ, Option, none, some, Bool, true, false, not, ◌&&◌, ◌==◌, if◌then◌else◌, map, any,
}
use cope_chess.Tournament.Records.{
  TournamentRecord, TournamentStatus, GameRecord, GameStatus, is_finished,
}
use cope_chess.Tournament.Store.{Db}

abbrev pub is_running : TournamentStatus → Bool
is_running TournamentStatus.running = true
is_running _ = false

abbrev pub is_aborted : TournamentStatus → Bool
is_aborted TournamentStatus.aborted = true
is_aborted _ = false

-- "finished" and "aborted"
abbrev pub is_over : TournamentStatus → Bool
is_over TournamentStatus.finished = true
is_over TournamentStatus.aborted = true
is_over _ = false

-- "draft" and "scheduled"
abbrev pub is_unstarted : TournamentStatus → Bool
is_unstarted TournamentStatus.draft = true
is_unstarted TournamentStatus.scheduled = true
is_unstarted _ = false

-- COALESCE(value, now)
abbrev coalesce : Option ℕ → ℕ → ℕ
coalesce none now = now
coalesce (some t) now = t

unfoldable pub with_status : TournamentStatus → ℕ → TournamentRecord → TournamentRecord
with_status status now t = record t {
  status = status;
  started_at = if is_running status then some (coalesce t.started_at now) else t.started_at;
  finished_at = if is_over status then some now else t.finished_at;
}

unfoldable pub abandon_game : ℕ → GameRecord → GameRecord
abandon_game tournament_id g =
    if g.tournament_id == tournament_id && not (is_finished g.status)
    then record g { status = GameStatus.abandoned }
    else g

unfoldable pub abandon_tournament_games : ℕ → Db → Db
unfolding abandon_game
abandon_tournament_games tournament_id db = record db {
  games = map (abandon_game tournament_id) db.games;
}

abbrev has_id : ℕ → TournamentRecord → Bool
has_id tournament_id t = t.id == tournament_id

-- UPDATE tournaments SET … WHERE id = ?
unfoldable pub update_status : ℕ → TournamentStatus → Db → Db
unfolding with_status
update_status tournament_id status db = record db {
  tournaments =
      map (λ t. if has_id tournament_id t then with_status status db.clock t else t) db.tournaments;
}

module _ (reconcile : ℕ → Db → Db) where
  unfoldable pub set_tournament_status : ℕ → TournamentStatus → Db → Db
  unfolding update_status abandon_tournament_games
  set_tournament_status tournament_id status db =
      let found = any (has_id tournament_id) db.tournaments in
      let updated = update_status tournament_id status db in
      let abandoned =
        if is_aborted status && found
        then abandon_tournament_games tournament_id updated
        else updated in
      if found then reconcile tournament_id abandoned else abandoned
