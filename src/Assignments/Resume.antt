-- ===== src/Assignments/Resume.antt =====
-- `pause_game_assignment`, `resume_paused_tournament_games` and `assign_game_to_worker` of
-- cope/db/repo.py, one after the other.
use cope_chess.Prelude.{
  ℕ, List, Option, some, Bool, true, false, not, ◌&&◌, ◌||◌, ◌==◌, if◌then◌else◌, any, any-map,
  any_ext, any_mono, ◌≡◌, inl, inr, refl, Bool-cases, first-any, first-passes, ap, ◌∙◌, arith,
  String,
}
use cope_chess.Exec.{Result, ok}
use cope_chess.Tournament.Records.{GameRecord, GameStatus}
use cope_chess.Assignments.Records.{
  AssignmentRecord, AssignmentStatus, AssignmentError, Pool, CheckpointRecord, WorkerRow, is_active,
  is_live, update_games, update_assignments, update_where, row_count, with_game_status,
  get_game_assignment, get_game_assignment_for_game,
}
use cope_chess.Assignments.Claim.{
  assign_game_to_worker, breaks_constraint, upsert_assignment, claimable, claimed, found_assignment,
}
use cope_chess.Assignments.Progress.{held_by}
use cope_chess.Assignments.Pause.{
  expired, save_checkpoint, pause_found, pause_game_assignment, get_game_pause_checkpoint, resumes,
  resume_paused_tournament_games,
}
use cope_chess.Assignments.Safe.{IsSafe, if_same}
use cope_chess.Assignments.Rows.{one_row, first-updated, first-appended}

saved-checkpoint :
    (game_id : ℕ) (state : String) (p : Pool)
    → (c : CheckpointRecord) × ((get_game_pause_checkpoint game_id (save_checkpoint game_id state p)
          ≡ some c)
        × (c.state ≡ state))
unfolding get_game_pause_checkpoint save_checkpoint
saved-checkpoint game_id state p =
    elim (Bool-cases (any (λ c. c.game_id == game_id) p.checkpoints)) [
      | inl e ↦
          let (c, found) =
            first-updated (λ c. c.game_id == game_id)
              (λ c. record c { state = state; paused_at = p.db.clock }) p.checkpoints (λ c. refl)
              e in
          (record c { state = state; paused_at = p.db.clock }, (rw e found, refl))
      | inr e ↦ (
        record { game_id = game_id; state = state; paused_at = p.db.clock },
        (rw e (first-appended (λ c. c.game_id == game_id) _ p.checkpoints e (ground arith)), refl),
      )
    ]

-- saving a checkpoint writes nothing but the checkpoint
save-keeps :
    {B : Type 0} (k : Pool → B) (game_id : ℕ) (state : String) (p : Pool)
    → ((cs : List CheckpointRecord) → k (record p { checkpoints = cs }) ≡ k p)
    → k (save_checkpoint game_id state p) ≡ k p
unfolding save_checkpoint
save-keeps k game_id state p same =
    elim (Bool-cases (any (λ c. c.game_id == game_id) p.checkpoints)) [
      | inl e ↦ rw e (same _)
      | inr e ↦ rw e (same _)
    ]

-- What a worker gets that claims the game: an assignment with the new key, the checkpoint and the moves.
pub record IsClaimed (game_id key : ℕ) (state : String) (p : Pool)
    (outcome : Result AssignmentError (Option AssignmentRecord) × Pool) : Type 0 where
  pub assignment : AssignmentRecord
  pub returned : outcome.0 ≡ ok (some assignment)
  pub under_key : assignment.assignment_key ≡ key
  pub checkpoint : CheckpointRecord
  pub kept : get_game_pause_checkpoint game_id outcome.1 ≡ some checkpoint
  pub as_saved : checkpoint.state ≡ state
  pub moves : outcome.1.moves ≡ p.moves

module _ (game_id tournament_id key worker_id : ℕ) (q : Pool)
    (saved : any (λ c. c.game_id == game_id) q.checkpoints ≡ true)
    (playing : any
        (λ g. g.id == game_id && (g.tournament_id == tournament_id && is_live g.status))
        q.db.games
      ≡ true)
    (there : any (λ b. b.game_id == game_id) q.assignments ≡ true)
    (fits : breaks_constraint game_id key worker_id q ≡ false) where
  free :
      any (claimable game_id) (
        update_where
          (resumes tournament_id q.checkpoints)
          (with_game_status GameStatus.pending)
          q.db.games)
      ≡ true
  unfolding update_where with_game_status
  free = any-map (claimable game_id) _ q.db.games ∙ any_mono _ _ q.db.games again playing
    where
      again :
          (g : GameRecord)
          → (g.id == game_id && (g.tournament_id == tournament_id && is_live g.status)) ≡ true
          → claimable game_id (
              if resumes tournament_id q.checkpoints g
              then with_game_status GameStatus.pending g
              else g)
            ≡ true
      again g h =
          let same : g.id ≡ game_id = ground (arith, h) in
          let found : any (λ c. c.game_id == g.id) q.checkpoints ≡ true =
            ap (λ v. any (λ c. c.game_id == v) q.checkpoints) same ∙ saved in
          let yes : resumes tournament_id q.checkpoints g ≡ true = ground (arith, h, found) in
          rw yes (ground (arith, h))

  claim_resumed :
      (c : CheckpointRecord) (state : String)
      → get_game_pause_checkpoint game_id q ≡ some c
      → c.state ≡ state
      → IsClaimed game_id key state q (
          assign_game_to_worker game_id key worker_id
            (resume_paused_tournament_games tournament_id q).1)
  unfolding assign_game_to_worker resume_paused_tournament_games upsert_assignment update_games
      update_assignments get_game_assignment_for_game found_assignment breaks_constraint claimed
      get_game_pause_checkpoint
  claim_resumed c state found same =
      let (b, row) =
        first-updated (λ b. b.game_id == game_id) (claimed key worker_id q.db.clock) q.assignments
          (λ b. refl) there in
      record {
        assignment = claimed key worker_id q.db.clock b;
        returned = rw (free, fits, there, row) refl;
        under_key = refl;
        checkpoint = c;
        kept = rw (free, fits, there) found;
        as_saved = same;
        moves = rw (free, fits, there) refl;
      }

-- expiring an assignment leaves what a claim looks at
expired_fits :
    (statuses : AssignmentStatus → Bool) (id k now game_id key worker_id : ℕ) (p : Pool)
    → breaks_constraint game_id key worker_id
        (update_assignments (held_by statuses id k) (expired now) p)
      ≡ breaks_constraint game_id key worker_id p
unfolding breaks_constraint update_assignments update_where expired
expired_fits statuses id k now game_id key worker_id p =
    ap (λ b. b || not (any (λ (w : WorkerRow). w.id == worker_id) p.workers))
      (any-map _ _ p.assignments
        ∙ any_ext _ _ p.assignments (
            if_same (λ a. not (a.game_id == game_id) && a.assignment_key == key)
              (held_by statuses id k) (expired now) (λ a. refl)))

-- A game that is paused while it is live can be claimed again as soon as its tournament is
-- resumed, by any existing worker under a key that no other game has: the claim returns an
-- assignment under that key, the checkpoint of the game is the state that was saved, and the
-- moves are those before the pause. The state is safe, and the pause comes from the holder of
-- the active assignment.
pub paused_game-returns :
    (id k : ℕ) (state : String) (tournament_id key worker_id : ℕ) (p : Pool) (a : AssignmentRecord)
    → IsSafe p
    → get_game_assignment id p ≡ some a
    → (a.assignment_key == k) ≡ true
    → is_active a.status ≡ true
    → any
        (λ g. g.id == a.game_id && (g.tournament_id == tournament_id && is_live g.status))
        p.db.games
      ≡ true
    → breaks_constraint a.game_id key worker_id p ≡ false
    → IsClaimed a.game_id key state p (
        assign_game_to_worker a.game_id key worker_id
          (resume_paused_tournament_games tournament_id (pause_game_assignment id k state p).1).1)
unfolding pause_game_assignment pause_found get_game_assignment update_assignments update_where
    get_game_pause_checkpoint breaks_constraint expired
paused_game-returns id k state tournament_id key worker_id p a s found current active playing fits =
    let (c, (stored, same)) = saved-checkpoint a.game_id state paused in
    let claim =
      claim_resumed a.game_id tournament_id key worker_id (save_checkpoint a.game_id state paused)
        (found-checkpoint c stored) keeps-games keeps-assignment still_fits c state stored same in
    rw (found, current, counted)
      record {
        assignment = claim.assignment;
        returned = claim.returned;
        under_key = claim.under_key;
        checkpoint = claim.checkpoint;
        kept = claim.kept;
        as_saved = claim.as_saved;
        moves = claim.moves ∙ save-keeps (λ q. q.moves) a.game_id state paused (λ cs. refl);
      }
  where
    paused : Pool
    paused = update_assignments (held_by is_active id k) (expired p.db.clock) p

    counted : (row_count (held_by is_active id k) p.assignments == 1) ≡ true
    counted =
        let same = first-passes (λ b. b.id == id) a p.assignments found in
        let one =
          one_row (held_by is_active id k) id a p.assignments s.ids found
            (ground (arith, same, current, active)) (λ b h. ground (arith, h)) in
        ground (arith, one)

    keeps-games :
        any
          (λ g. g.id == a.game_id && (g.tournament_id == tournament_id && is_live g.status))
          (save_checkpoint a.game_id state paused).db.games
        ≡ true
    keeps-games =
        ap (any (λ g. g.id == a.game_id && (g.tournament_id == tournament_id && is_live g.status)))
          (save-keeps (λ q. q.db.games) a.game_id state paused (λ cs. refl))
        ∙ playing

    found-checkpoint :
        (c : CheckpointRecord)
        → get_game_pause_checkpoint a.game_id (save_checkpoint a.game_id state paused) ≡ some c
        → any (λ c. c.game_id == a.game_id) (save_checkpoint a.game_id state paused).checkpoints
          ≡ true
    found-checkpoint c stored =
        any_mono _ _ (save_checkpoint a.game_id state paused).checkpoints (λ c t. ground (arith, t))
          (first-any (λ c. c.game_id == a.game_id) (λ _. true) c
            (save_checkpoint a.game_id state paused).checkpoints stored refl)

    same_rows :
        any (λ b. b.game_id == a.game_id) paused.assignments
        ≡ any (λ b. b.game_id == a.game_id) p.assignments
    same_rows =
        any-map (λ b. b.game_id == a.game_id) _ p.assignments
        ∙ any_ext _ _ p.assignments (
            if_same (λ b. b.game_id == a.game_id) (held_by is_active id k) (expired p.db.clock)
              (λ b. refl))

    keeps-assignment :
        any (λ b. b.game_id == a.game_id) (save_checkpoint a.game_id state paused).assignments
        ≡ true
    keeps-assignment =
        ap (any (λ b. b.game_id == a.game_id))
          (save-keeps (λ q. q.assignments) a.game_id state paused (λ cs. refl))
        ∙ same_rows
        ∙ any_mono _ _ p.assignments (λ b t. ground (arith, t))
            (first-any (λ b. b.id == id) (λ b. b.game_id == a.game_id) a p.assignments found
              (ground arith))

    still_fits :
        breaks_constraint a.game_id key worker_id (save_checkpoint a.game_id state paused) ≡ false
    still_fits =
        save-keeps (breaks_constraint a.game_id key worker_id) a.game_id state paused (λ cs. refl)
        ∙ expired_fits is_active id k p.db.clock a.game_id key worker_id p
        ∙ fits
