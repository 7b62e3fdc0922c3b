-- ===== src/Assignments/Abort.antt =====
-- `set_tournament_status` of cope/db/repo.py with `_abandon_tournament_games`, for the assignments too.
use cope_chess.Prelude.{ℕ, Option, none, some, Bool, not, ◌&&◌, ◌==◌, if◌then◌else◌, any, String}
use cope_chess.Tournament.Records.{GameRecord, TournamentStatus, TournamentRecord, is_finished}
use cope_chess.Tournament.Status.{is_aborted, update_status, abandon_tournament_games}
use cope_chess.Assignments.Records.{
  AssignmentRecord, AssignmentStatus, Pool, is_active, coalesce, update_assignments,
}

-- COALESCE(value, default), of texts
abbrev coalesce_text : Option String → String → String
coalesce_text none default = default
coalesce_text (some t) default = t

unfoldable pub unfinished_game_of : ℕ → AssignmentRecord → GameRecord → Bool
unfinished_game_of tournament_id a g =
    a.game_id == g.id && (g.tournament_id == tournament_id && not (is_finished g.status))

unfoldable pub given_up_for : ℕ → String → AssignmentRecord → AssignmentRecord
given_up_for now reason a = record a {
  status = AssignmentStatus.abandoned;
  finished_at = some (coalesce a.finished_at now);
  last_error = some (coalesce_text a.last_error reason);
}

unfoldable pub abandon_games : ℕ → Pool → Pool
unfolding unfinished_game_of given_up_for update_assignments
abandon_games tournament_id p =
    let q =
      update_assignments
        (λ a. is_active a.status && any (unfinished_game_of tournament_id a) p.db.games)
        (given_up_for p.db.clock "tournament aborted") p in
    record q { db = abandon_tournament_games tournament_id q.db }

module _ (reconcile : ℕ → Pool → Pool) where
  unfoldable pub set_tournament_status : ℕ → TournamentStatus → Pool → Pool
  unfolding abandon_games
  set_tournament_status tournament_id status p =
      let updated = record p { db = update_status tournament_id status p.db } in
      let abandoned = if is_aborted status then abandon_games tournament_id updated else updated in
      if any (λ (t : TournamentRecord). t.id == tournament_id) p.db.tournaments
      then reconcile tournament_id abandoned
      else updated
