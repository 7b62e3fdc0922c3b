-- ===== src/Assignments/Fencing.antt =====
-- The calls of cope/db/repo.py that name an assignment by its id and its key, when the assignment has
-- been given away under another key.
use cope_chess.Prelude.{
  ℕ, List, [], ◌∷◌, some, Bool, true, false, ◌&&◌, ◌==◌, if◌then◌else◌, any, ◌≡◌, inl, inr, refl,
  Bool-cases, Option-cases, All, All-imp, All-map, All-first, any-none_passes, keep-none_passes,
  any_mono, first-any, first-passes, unique-only, ap, arith, String, length,
}
use cope_chess.Exec.{err}
use cope_chess.Assignments.Records.{
  AssignmentRecord, AssignmentStatus, Pool, MoveRecord, no_longer_active,
  no_longer_awaiting_readiness, is_active, is_unstarted, update_games, update_assignments,
  update_where, row_count, get_game_assignment,
}
use cope_chess.Assignments.Claim.{
  assign_game_to_worker, breaks_constraint, upsert_assignment, claimable, claimed,
}
use cope_chess.Assignments.Progress.{
  held_by, acknowledge_game_assignment, record_move, finish_game_assignment,
}
use cope_chess.Assignments.Pause.{
  pause_found, pause_game_assignment, pause_unstarted_found, pause_unstarted_game_assignment,
}
use cope_chess.Assignments.Reset.{fail_if_current, fail_game_assignment}
use cope_chess.Assignments.Safe.{IsSafe}

-- What a worker with this id and key calls changes nothing, and raises where the call can.
pub record IsFenced (id key : ℕ) (p : Pool) : Type 0 where
  pub moves : (m : MoveRecord) → record_move (some id) (some key) m p ≡ (err no_longer_active, p)
  pub acknowledges : acknowledge_game_assignment id key p ≡ (err no_longer_awaiting_readiness, p)
  pub pauses : (state : String) → pause_game_assignment id key state p ≡ (err no_longer_active, p)
  pub pauses_unstarted : pause_unstarted_game_assignment id key p ≡ p
  pub finishes : finish_game_assignment id key p ≡ p
  pub fails : (error : String) → fail_game_assignment id key error p ≡ p

abbrev Other : ℕ → ℕ → AssignmentRecord → Type 0
Other id key a = (a.id == id && a.assignment_key == key) ≡ false

none_held :
    (statuses : AssignmentStatus → Bool) (id key : ℕ) (xs : List AssignmentRecord)
    → All (Other id key) xs
    → row_count (held_by statuses id key) xs ≡ 0
unfolding row_count
none_held statuses id key xs others = ap length (
    keep-none_passes (held_by statuses id key) xs
      (All-imp _ _ xs (λ a o. ground (arith, o)) others))

-- no row matches: the update changes none
unchanged :
    {A : Type 0} (q : A → Bool) (set : A → A) (xs : List A)
    → All (λ x. q x ≡ false) xs
    → update_where q set xs ≡ xs
unfolding update_where
unchanged q set [] h = refl
unchanged q set (x ∷ xs) h = rw (h.0) (ap (λ l. x ∷ l) (unchanged q set xs h.1))

not_found :
    (id key : ℕ) (a : AssignmentRecord) (p : Pool)
    → All (Other id key) p.assignments
    → get_game_assignment id p ≡ some a
    → (a.assignment_key == key) ≡ false
unfolding get_game_assignment
not_found id key a p others e =
    let other : Other id key a =
      All-first (Other id key) (λ b. b.id == id) a p.assignments others e in
    let same = first-passes (λ b. b.id == id) a p.assignments e in ground (arith, other, same)

others-IsFenced : (id key : ℕ) (p : Pool) → All (Other id key) p.assignments → IsFenced id key p
unfolding record_move acknowledge_game_assignment pause_game_assignment pause_found
    pause_unstarted_game_assignment pause_unstarted_found finish_game_assignment
    fail_game_assignment fail_if_current update_assignments
others-IsFenced id key p others = record {
  moves = λ m.
      rw
        (any-none_passes (λ a. held_by is_active id key a && a.game_id == m.game_id) p.assignments
          (All-imp _ _ p.assignments (λ a o. ground (arith, o)) others))
        refl;
  acknowledges = rw (none_held is_unstarted id key p.assignments others) refl;
  pauses = λ state. elim (Option-cases (get_game_assignment id p)) [
    | inl e ↦ rw e refl
    | inr (a, e) ↦ let no = not_found id key a p others e in rw (e, no) refl
  ];
  pauses_unstarted = elim (Option-cases (get_game_assignment id p)) [
    | inl e ↦ rw e refl
    | inr (a, e) ↦ let no = not_found id key a p others e in rw (e, no) refl
  ];
  finishes = ap (λ xs. record p { assignments = xs }) (unchanged _ _ p.assignments others);
  fails = λ error. elim (Option-cases (get_game_assignment id p)) [
    | inl e ↦ rw e refl
    | inr (a, e) ↦ let no = not_found id key a p others e in rw (e, no) refl
  ];
}

-- Once a waiting game is given to a worker under a new key, in a safe state, the six calls that
-- name its assignment by its id and its former key have no effect any more: a move, readiness
-- and a pause raise and change nothing, and giving back an unstarted game, finishing and
-- failing the assignment change nothing.
pub assign_game_to_worker-IsFenced :
    (game_id key worker_id : ℕ) (p : Pool) (a : AssignmentRecord)
    → IsSafe p
    → get_game_assignment a.id p ≡ some a
    → (a.game_id == game_id) ≡ true
    → (a.assignment_key == key) ≡ false
    → any (claimable game_id) p.db.games ≡ true
    → breaks_constraint game_id key worker_id p ≡ false
    → IsFenced a.id a.assignment_key (assign_game_to_worker game_id key worker_id p).1
unfolding assign_game_to_worker upsert_assignment update_games update_assignments update_where
    claimed get_game_assignment
assign_game_to_worker-IsFenced game_id key worker_id p a s found same_game new_key free fits =
    others-IsFenced a.id a.assignment_key _
      (rw (free, fits, there) (All-map _ _ _ p.assignments taken of_game))
  where
    there : any (λ b. b.game_id == game_id) p.assignments ≡ true
    there =
        any_mono _ _ p.assignments (λ b t. ground (arith, t))
          (first-any (λ b. b.id == a.id) (λ b. b.game_id == game_id) a p.assignments found
            same_game)

    of_game : All (λ b. (b.id == a.id) ≡ true → (b.game_id == game_id) ≡ true) p.assignments
    of_game =
        unique-only (λ b. b.id) (λ b. b.game_id == game_id) a.id p.assignments s.ids
          (any_mono _ _ p.assignments (λ b t. ground (arith, t))
            (first-any (λ b. b.id == a.id) (λ b. b.game_id == game_id) a p.assignments found
              same_game))

    taken :
        (b : AssignmentRecord)
        → ((b.id == a.id) ≡ true → (b.game_id == game_id) ≡ true)
        → Other a.id a.assignment_key
            (if b.game_id == game_id then claimed key worker_id p.db.clock b else b)
    taken b row = elim (Bool-cases (b.game_id == game_id)) [
      | inl e ↦ rw e (ground (arith, new_key))
      | inr e ↦ rw e (ground (arith, row, e))
    ]
