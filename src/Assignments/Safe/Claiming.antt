-- ===== src/Assignments/Safe/Claiming.antt =====
-- `assign_game_to_worker` of cope/db/repo.py and the invariant of games and assignments.
use cope_chess.Prelude.{
  ℕ, suc, List, [], ◌∷◌, ◌++◌, true, false, ◌==◌, if◌then◌else◌, any, ◌≡◌, inl, inr, refl,
  Bool-cases, All, All-map, All-imp, All-append, All-all, Unique-snoc, unique-only, any-false,
  arith,
}
use cope_chess.Tournament.Records.{GameRecord, GameStatus}
use cope_chess.Assignments.Records.{
  AssignmentRecord, Pool, is_pending, update_where, update_games, update_assignments,
  with_game_status,
}
use cope_chess.Assignments.Claim.{
  assign_game_to_worker, breaks_constraint, upsert_assignment, claimable, claimed, new_assignment,
}
use cope_chess.Assignments.Safe.{Safe, IsSafe, apart, Safe-update, Safe-games}

module _ (game_id assignment_key worker_id now : ℕ) (xs : List AssignmentRecord)
    (gs : List GameRecord) (next : ℕ) (free : any (claimable game_id) gs ≡ true)
    (s : Safe xs gs next) where
  abbrev Pending : GameRecord → Type 0
  Pending g = (g.id == game_id) ≡ true → is_pending g.status ≡ true

  pending : All Pending gs
  pending = unique-only (λ g. g.id) (λ g. is_pending g.status) game_id gs s.game_ids free

  taken_apart :
      (a : AssignmentRecord) (g : GameRecord)
      → Unit {0}
      → Pending g
      → apart a g ≡ true
      → apart
          (if a.game_id == game_id then claimed assignment_key worker_id now a else a)
          (if claimable game_id g then with_game_status GameStatus.assigned g else g)
        ≡ true
  unfolding claimed with_game_status
  taken_apart a g _ p h = elim (Bool-cases (a.game_id == game_id)) [
    | inl e ↦ elim (Bool-cases (claimable game_id g)) [
      | inl c ↦ rw (e, c) (ground arith)
      | inr c ↦ rw (e, c) (ground (arith, p, c))
    ]
    | inr e ↦ elim (Bool-cases (claimable game_id g)) [
      | inl c ↦ rw (e, c) (ground arith)
      | inr c ↦ rw (e, c) h
    ]
  ]

  claimed-Safe :
      Safe
        (update_where (λ a. a.game_id == game_id) (claimed assignment_key worker_id now) xs)
        (update_where (claimable game_id) (with_game_status GameStatus.assigned) gs)
        next
  unfolding claimed with_game_status
  claimed-Safe =
      Safe-update (λ _. Unit {0}) Pending _ _ _ _ (λ a. refl) (λ a. refl) (λ g. refl) xs gs next
        taken_apart (All-all _ xs (λ a. tt)) pending s

  -- the row of a game that had none
  added-Safe :
      (new : AssignmentRecord)
      → new.game_id ≡ game_id
      → new.id ≡ next
      → any (λ a. a.game_id == game_id) xs ≡ false
      → Safe
          (xs ++ (new ∷ []))
          (update_where (claimable game_id) (with_game_status GameStatus.assigned) gs)
          (suc next)
  unfolding with_game_status update_where
  added-Safe new same_game same_id absent =
      let old =
        Safe-games (λ _. Unit {0}) (claimable game_id) (with_game_status GameStatus.assigned)
          (λ g. refl) (λ a g _ c o. absurd (ground (arith, o))) xs gs next (All-all _ xs (λ a. tt))
          s in
      record {
        apart = All-append _ xs _ old.apart (All-map Pending _ _ gs closed pending, tt);
        one_each =
            Unique-snoc (λ a. a.game_id) new xs
              (All-imp _ _ xs (λ a e. ground (arith, same_game, e)) (any-false _ xs absent))
              s.one_each;
        ids =
            Unique-snoc (λ a. a.id) new xs
              (All-imp _ _ xs (λ a l. (ground (arith, same_id, l))) s.fresh) s.ids;
        game_ids = old.game_ids;
        fresh =
            All-append _ xs _ (All-imp _ _ xs (λ a l. (ground (arith, l))) s.fresh)
              (ground (arith, same_id), tt);
      }
    where
      closed :
          (g : GameRecord)
          → Pending g
          → apart new (if claimable game_id g then with_game_status GameStatus.assigned g else g)
            ≡ true
      closed g p = elim (Bool-cases (claimable game_id g)) [
        | inl c ↦ rw c (ground (arith, same_game))
        | inr c ↦ rw c (ground (arith, same_game, p, c))
      ]

upsert-Safe :
    (game_id assignment_key worker_id : ℕ) (p : Pool)
    → any (claimable game_id) p.db.games ≡ true
    → IsSafe p
    → IsSafe (
        upsert_assignment game_id assignment_key worker_id
          (update_games (claimable game_id) (with_game_status GameStatus.assigned) p))
unfolding upsert_assignment update_games update_assignments new_assignment
upsert-Safe game_id assignment_key worker_id p free s =
    elim (Bool-cases (any (λ a. a.game_id == game_id) p.assignments)) [
      | inl e ↦ rw e (
          claimed-Safe game_id assignment_key worker_id p.db.clock p.assignments p.db.games
            p.next_assignment_id free s)
      | inr e ↦ rw e (
          added-Safe game_id assignment_key worker_id p.db.clock p.assignments p.db.games
            p.next_assignment_id free s
            (new_assignment p.next_assignment_id game_id assignment_key worker_id p.db.clock) refl
            refl e)
    ]

pub assign_game_to_worker-IsSafe :
    (game_id assignment_key worker_id : ℕ) (p : Pool)
    → IsSafe p
    → IsSafe (assign_game_to_worker game_id assignment_key worker_id p).1
unfolding assign_game_to_worker
assign_game_to_worker-IsSafe game_id assignment_key worker_id p s =
    elim (Bool-cases (any (claimable game_id) p.db.games)) [
      | inl e ↦ elim (Bool-cases (breaks_constraint game_id assignment_key worker_id p)) [
        | inl b ↦ rw (e, b) s
        | inr b ↦ rw (e, b) (upsert-Safe game_id assignment_key worker_id p e s)
      ]
      | inr e ↦ rw e s
    ]
