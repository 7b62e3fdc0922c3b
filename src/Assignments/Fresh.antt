-- ===== src/Assignments/Fresh.antt =====
-- The games that `fail_game_assignment` and `disconnect_worker` of cope/db/repo.py give back.
use cope_chess.Prelude.{
  ℕ, List, [], ◌∷◌, Option, some, Bool, true, false, not, ◌&&◌, ◌||◌, ◌==◌, ==_iff, if◌then◌else◌,
  keep, map, any, elem, is_none, ◌≡◌, inl, inr, refl, Bool-cases, All, All-imp, All-map, Unique,
  elem-map_kept, any_mono, any_self, first, first-passes, unique-only, ap, ◌∙◌, arith, String,
  prefix,
}
use cope_chess.Tournament.Records.{GameRecord}
use cope_chess.Assignments.Records.{
  AssignmentRecord, AssignmentStatus, Pool, WorkerRow, is_active, is_pending, update_games,
  update_assignments, update_where, row_count, get_game_assignment,
}
use cope_chess.Assignments.Progress.{held_by}
use cope_chess.Assignments.Reset.{
  resets, is_resettable, resettable_ids, reset_game, reset_ids, reset_games_for_replay, given_up,
  fail_found, fail_if_current, fail_game_assignment,
}
use cope_chess.Assignments.Workers.{
  held_active, active_worker_game_ids, release_assignments, release_worker_active_assignments,
  disconnect_found, disconnect_worker, is_revoked, same_session, update_worker_status,
}
use cope_chess.Assignments.Rows.{one_row, none_kept, none_held_active}
use cope_chess.Assignments.Safe.{IsSafe}

-- A game that has not begun: no moves, no checkpoint, no result.
pub record IsFresh (game_id : ℕ) (p : Pool) : Type 0 where
  pub games :
      All
        (λ g. (g.id == game_id) ≡ true → (is_pending g.status && is_none g.result) ≡ true)
        p.db.games
  pub moves : any (λ m. m.game_id == game_id) p.moves ≡ false
  pub checkpoints : any (λ c. c.game_id == game_id) p.checkpoints ≡ false

pub reset_games_for_replay-IsFresh :
    (include_abandoned : Bool) (ids : List ℕ) (reason : String) (game_id : ℕ) (p : Pool)
    → Unique (map (λ g. g.id) p.db.games)
    → elem game_id ids ≡ true
    → any (λ g. g.id == game_id && is_resettable include_abandoned g.status) p.db.games ≡ true
    → IsFresh game_id (reset_games_for_replay include_abandoned ids reason p)
unfolding reset_games_for_replay reset_ids resettable_ids update_games update_where reset_game
reset_games_for_replay-IsFresh include_abandoned ids reason game_id p u there playable = record {
  games = All-map _ _ _ p.db.games fresh (
      unique-only (λ g. g.id) (λ g. is_resettable include_abandoned g.status) game_id p.db.games u
        playable);
  moves = none_kept (λ m. m.game_id) reset game_id p.moves resets_it;
  checkpoints = none_kept (λ c. c.game_id) reset game_id p.checkpoints resets_it;
}
  where
    reset : List ℕ
    reset = resettable_ids include_abandoned ids p.db.games

    among :
        (g : GameRecord)
        → (g.id == game_id && is_resettable include_abandoned g.status) ≡ true
        → (g.id == game_id && resets include_abandoned ids g) ≡ true
    among g t =
        let same : g.id ≡ game_id = ground (arith, t) in
        let listed : elem g.id ids ≡ true = ap (λ w. elem w ids) same ∙ there in
        ground (arith, t, listed)

    resets_it : elem game_id reset ≡ true
    resets_it =
        elem-map_kept (λ g. g.id) (resets include_abandoned ids) game_id p.db.games
          (any_mono _ _ p.db.games among playable)

    fresh :
        (g : GameRecord)
        → ((g.id == game_id) ≡ true → is_resettable include_abandoned g.status ≡ true)
        → ((if resets include_abandoned reset g then reset_game g else g).id == game_id) ≡ true
        → (is_pending (if resets include_abandoned reset g then reset_game g else g).status
            && is_none (if resets include_abandoned reset g then reset_game g else g).result)
          ≡ true
    fresh g able = elim (Bool-cases (resets include_abandoned reset g)) [
      | inl e ↦ rw e (λ _. refl)
      | inr e ↦ rw e (λ i.
          let yes = able i in
          let listed : elem g.id reset ≡ true =
            ap (λ w. elem w reset) ((==_iff g.id game_id).0 i) ∙ resets_it in
          absurd (ground (arith, e, yes, listed)))
    ]

-- When the current holder of an active assignment fails, in a safe state, the game starts from
-- the beginning, unless it is finished or abandoned: it is pending without a result, and has no
-- moves and no checkpoint.
pub fail_game_assignment-IsFresh :
    (assignment_id key : ℕ) (error : String) (p : Pool) (a : AssignmentRecord)
    → IsSafe p
    → get_game_assignment assignment_id p ≡ some a
    → (a.assignment_key == key) ≡ true
    → is_active a.status ≡ true
    → any (λ g. g.id == a.game_id && is_resettable false g.status) p.db.games ≡ true
    → IsFresh a.game_id (fail_game_assignment assignment_id key error p)
unfolding fail_game_assignment fail_if_current fail_found update_assignments get_game_assignment
fail_game_assignment-IsFresh assignment_id key error p a s found current active playable =
    rw (found, current, counted)
      (reset_games_for_replay-IsFresh false (a.game_id ∷ []) error a.game_id
        (update_assignments (held_by is_active assignment_id key)
          (given_up AssignmentStatus.abandoned p.db.clock (prefix 500 error)) p)
        s.game_ids (ground arith) playable)
  where
    counted : (row_count (held_by is_active assignment_id key) p.assignments == 1) ≡ true
    counted =
        let same = first-passes (λ b. b.id == assignment_id) a p.assignments found in
        let one =
          one_row (held_by is_active assignment_id key) assignment_id a p.assignments s.ids found
            (ground (arith, same, current, active)) (λ b h. ground (arith, h)) in
        ground (arith, one)

-- A worker that loses its connection, if it is not revoked and the session is its own, has no
-- active assignment afterwards, and each unfinished game that it had starts from the beginning.
pub disconnect_worker-leaves :
    (worker_id : ℕ) (session_id : Option ℕ) (reason : String) (w : WorkerRow) (p : Pool)
    → IsSafe p
    → first (λ w. w.id == worker_id) p.workers ≡ some w
    → (is_revoked w.status || not (same_session session_id w)) ≡ false
    → (any (held_active worker_id) (disconnect_worker worker_id session_id reason p).1.assignments
        ≡ false)
      × All
          (λ a.
            held_active worker_id a ≡ true
            → any (λ g. g.id == a.game_id && is_resettable false g.status) p.db.games ≡ true
            → IsFresh a.game_id (disconnect_worker worker_id session_id reason p).1)
          p.assignments
unfolding disconnect_worker disconnect_found update_worker_status release_worker_active_assignments
    release_assignments active_worker_game_ids
disconnect_worker-leaves worker_id session_id reason w p s found session =
    rw (found, session)
      (
        none_held_active worker_id AssignmentStatus.abandoned p.db.clock (prefix 500 reason)
            p.assignments refl,
        All-imp _ _ p.assignments
            (λ a listed held playable.
              let f = fresh a (listed held) playable in
              record { games = f.games; moves = f.moves; checkpoints = f.checkpoints })
            all_listed,
      )
  where
    ids : List ℕ
    ids = map (λ a. a.game_id) (keep (held_active worker_id) p.assignments)

    all_listed : All (λ a. held_active worker_id a ≡ true → elem a.game_id ids ≡ true) p.assignments
    all_listed =
        All-imp
          (λ a.
            (v : ℕ)
            → (a.game_id == v && held_active worker_id a) ≡ true
            → any (λ b. b.game_id == v && held_active worker_id b) p.assignments ≡ true)
          _ p.assignments
          (λ a there held.
            elem-map_kept (λ b. b.game_id) (held_active worker_id) a.game_id p.assignments
              (there a.game_id (ground (arith, held))))
          (any_self (λ v b. b.game_id == v && held_active worker_id b) p.assignments)

    fresh :
        (a : AssignmentRecord)
        → elem a.game_id ids ≡ true
        → any (λ g. g.id == a.game_id && is_resettable false g.status) p.db.games ≡ true
        → IsFresh a.game_id (release_worker_active_assignments worker_id reason p)
    fresh a listed playable =
        reset_games_for_replay-IsFresh false ids reason a.game_id
          (update_assignments (held_active worker_id)
            (given_up AssignmentStatus.abandoned p.db.clock (prefix 500 reason)) p)
          s.game_ids listed playable
