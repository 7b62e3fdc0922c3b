-- ===== src/Assignments/Replay.antt =====
-- `replay_game` and `restore_tournament` of cope/db/repo.py. `reconcile` stands for what the engine
-- relay does with a tournament that changed its status.
use cope_chess.Prelude.{
  ℕ, [], ◌∷◌, Option, none, some, Bool, true, false, not, ◌&&◌, ◌||◌, ◌==◌, if◌then◌else◌, keep,
  any, map, first, is_none,
}
use cope_chess.Exec.{Result, ok, err}
use cope_chess.Tournament.Records.{GameRecord, TournamentRecord, TournamentStatus, is_finished}
use cope_chess.Tournament.Status.{is_over, is_aborted}
use cope_chess.Assignments.Records.{
  Pool, RatingCommit, CommitStatus, update_games, update_where, coalesce,
}
use cope_chess.Assignments.Invalidate.{
  ReplayError, not_of_this_tournament, only_completed_games, already_rated, no_such_tournament,
  only_aborted, uncommit_first, are_committed, delete_system_chat_events, of_tournament,
  is_abandoned,
}
use cope_chess.Assignments.Reset.{reset_game, reset_games_for_replay}

abbrev pub reopens : ℕ → TournamentRecord → Bool
reopens tournament_id t = t.id == tournament_id && is_over t.status

-- the writes of `replay_game`, up to the reopening of the tournament
unfoldable pub replayed_game : ℕ → ℕ → Pool → Pool
unfolding delete_system_chat_events update_games reset_game
replayed_game tournament_id game_id p =
    let q = delete_system_chat_events tournament_id (game_id ∷ []) p in
    record (update_games (λ g. g.id == game_id) reset_game q) {
      moves = keep (λ m. not (m.game_id == game_id)) q.moves;
    }

unfoldable pub running_again : TournamentRecord → TournamentRecord
running_again t = record t { status = TournamentStatus.running; finished_at = none }

unfoldable pub reopen_tournament : ℕ → Pool → Pool
unfolding update_where running_again
reopen_tournament tournament_id p = record p {
  db = record p.db {
    tournaments = update_where (reopens tournament_id) running_again p.db.tournaments;
  };
}

-- status IN ('pending', 'claimed', 'applied')
abbrev pub is_committing : CommitStatus → Bool
is_committing CommitStatus.pending = true
is_committing CommitStatus.claimed = true
is_committing CommitStatus.applied = true
is_committing _ = false

unfoldable pub paused_again : ℕ → TournamentRecord → TournamentRecord
paused_again now t = record t {
  status = TournamentStatus.paused;
  started_at = some (coalesce t.started_at now);
  finished_at = none;
}

-- the writes of `restore_tournament`
unfoldable pub restored : ℕ → Pool → Pool
unfolding reset_games_for_replay update_where paused_again
restored tournament_id p =
    let ids =
      map (λ g. g.id)
        (keep (λ g. g.tournament_id == tournament_id && is_abandoned g.status) p.db.games) in
    let q = reset_games_for_replay true ids "tournament restored after abort" p in
    record q {
      db = record q.db {
        tournaments =
            update_where (λ t. t.id == tournament_id) (paused_again q.db.clock) q.db.tournaments;
      };
    }

module _ (reconcile : ℕ → Pool → Pool) where
  unfoldable pub replay_found : Option GameRecord → ℕ → Pool → Result ReplayError Bool × Pool
  unfolding are_committed replayed_game reopen_tournament
  replay_found none tournament_id p = (err not_of_this_tournament, p)
  replay_found (some g) tournament_id p =
      let q = replayed_game tournament_id g.id p in
      if not (is_finished g.status) || is_none g.result
      then (err only_completed_games, p)
      else if are_committed (g.id ∷ []) p
      then (err already_rated, p)
      else if any (reopens tournament_id) q.db.tournaments
      then (ok true, reconcile tournament_id (reopen_tournament tournament_id q))
      else (ok false, q)

  unfoldable pub replay_game : ℕ → ℕ → Pool → Result ReplayError Bool × Pool
  unfolding replay_found
  replay_game tournament_id game_id p =
      replay_found (first (of_tournament tournament_id game_id) p.db.games) tournament_id p

  unfoldable pub restore_found : Option TournamentRecord → ℕ → Pool → Result ReplayError Unit × Pool
  unfolding restored
  restore_found none tournament_id p = (err no_such_tournament, p)
  restore_found (some t) tournament_id p =
      if not (is_aborted t.status)
      then (err only_aborted, p)
      else if any (λ (c : RatingCommit). c.tournament_id == tournament_id && is_committing c.status)
          p.rating_commits
      then (err uncommit_first, p)
      else (ok tt, reconcile tournament_id (restored tournament_id p))

  unfoldable pub restore_tournament : ℕ → Pool → Result ReplayError Unit × Pool
  unfolding restore_found
  restore_tournament tournament_id p =
      restore_found (first (λ t. t.id == tournament_id) p.db.tournaments) tournament_id p
