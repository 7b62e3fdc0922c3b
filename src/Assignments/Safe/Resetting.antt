-- ===== src/Assignments/Safe/Resetting.antt =====
-- Resetting games for replay in cope/db/repo.py, and the invariant of games and assignments.
use cope_chess.Prelude.{
  ℕ, List, [], ◌∷◌, some, Bool, true, false, ◌&&◌, ◌==◌, ==_iff, if◌then◌else◌, keep, map, any,
  elem, ◌≡◌, inl, inr, refl, Bool-cases, Option-cases, All, All-all, All-map, All-any, any_mono,
  first, first-any, unique-only, unique-same, elem-map-keep, sym, ap, ◌∙◌, arith, String, Unique,
  prefix,
}
use cope_chess.Tournament.Records.{GameRecord}
use cope_chess.Assignments.Records.{
  AssignmentRecord, AssignmentStatus, Pool, is_active, update_games, update_assignments,
  update_where, row_count, get_game_assignment,
}
use cope_chess.Assignments.Progress.{held_by}
use cope_chess.Assignments.Reset.{
  resets, resettable_ids, reset_game, reset_ids, reset_games_for_replay, given_up, fail_found,
  fail_if_current, fail_game_assignment,
}
use cope_chess.Assignments.Workers.{held_active, active_worker_game_ids, release_assignments}
use cope_chess.Assignments.Safe.{IsSafe, is_open, Safe-assignments, Safe-games}

-- no active assignment is for one of these games
abbrev pub Released : List ℕ → AssignmentRecord → Type 0
Released ids a = elem a.game_id ids ≡ true → is_active a.status ≡ false

resettable_ids-given :
    (include_abandoned : Bool) (ids : List ℕ) (v : ℕ) (gs : List GameRecord)
    → elem v (resettable_ids include_abandoned ids gs) ≡ true
    → elem v ids ≡ true
unfolding resettable_ids
resettable_ids-given include_abandoned ids v gs h =
    All-any (λ _. Unit {0}) (λ g. (g.id == v) && resets include_abandoned ids g) (elem v ids ≡ true)
      gs (All-all _ gs (λ g. tt)) (elem-map-keep (λ g. g.id) (resets include_abandoned ids) v gs h)
      (λ g _ t.
        let same : g.id ≡ v = ground (arith, t) in
        ap (λ w. elem w ids) (sym same) ∙ ground (arith, t))

pub reset_games_for_replay-IsSafe :
    (include_abandoned : Bool) (ids : List ℕ) (reason : String) (p : Pool)
    → All (Released ids) p.assignments
    → IsSafe p
    → IsSafe (reset_games_for_replay include_abandoned ids reason p)
unfolding reset_games_for_replay reset_ids update_games reset_game
reset_games_for_replay-IsSafe include_abandoned ids reason p released s =
    Safe-games (Released ids) _ reset_game (λ g. refl) quiet p.assignments p.db.games
      p.next_assignment_id released s
  where
    quiet :
        (a : AssignmentRecord) (g : GameRecord)
        → Released ids a
        → resets include_abandoned (resettable_ids include_abandoned ids p.db.games) g ≡ true
        → is_open (reset_game g).status ≡ true
        → (is_active a.status && a.game_id == g.id) ≡ false
    quiet a g free h o = elim (Bool-cases (a.game_id == g.id)) [
      | inl e ↦
          let given =
            resettable_ids-given include_abandoned ids g.id p.db.games (ground (arith, h)) in
          let inactive = free (ap (λ w. elem w ids) ((==_iff a.game_id g.id).0 e) ∙ given) in
          ground (arith, inactive)
      | inr e ↦ ground (arith, e)
    ]

-- the assignments of the game of a current assignment, after it is given up
one_given_up :
    (assignment_id assignment_key : ℕ) (a : AssignmentRecord) (status : AssignmentStatus) (now : ℕ)
    → (error : String) (xs : List AssignmentRecord) → is_active status ≡ false
    → Unique (map (λ b. b.game_id) xs)
    → first (λ b. b.id == assignment_id) xs ≡ some a
    → (a.assignment_key == assignment_key) ≡ true
    → All (Released (a.game_id ∷ [])) (
        update_where
          (held_by is_active assignment_id assignment_key)
          (given_up status now error)
          xs)
unfolding update_where given_up
one_given_up assignment_id assignment_key a status now error xs over u found key =
    All-map (λ b. (b.game_id == a.game_id) ≡ true → current b ≡ true) _ _ xs gone
      (unique-only (λ b. b.game_id) current a.game_id xs u
        (any_mono _ _ xs (λ b t. ground (arith, t))
          (first-any (λ b. b.id == assignment_id)
            (λ b. b.game_id == a.game_id && b.assignment_key == assignment_key) a xs found
            (ground (arith, key)))))
  where
    current : AssignmentRecord → Bool
    current b = (b.assignment_key == assignment_key) && b.id == assignment_id

    gone :
        (b : AssignmentRecord)
        → ((b.game_id == a.game_id) ≡ true → current b ≡ true)
        → Released (a.game_id ∷ []) (
            if held_by is_active assignment_id assignment_key b
            then given_up status now error b
            else b)
    gone b only = elim (Bool-cases (held_by is_active assignment_id assignment_key b)) [
      | inl h ↦ rw h (λ _. over)
      | inr h ↦ rw h (λ e. let c = only (ground (arith, e)) in ground (arith, h, c))
    ]

pub fail_game_assignment-IsSafe :
    (assignment_id assignment_key : ℕ) (error : String) (p : Pool)
    → IsSafe p
    → IsSafe (fail_game_assignment assignment_id assignment_key error p)
unfolding fail_game_assignment fail_if_current fail_found update_assignments get_game_assignment
    given_up
fail_game_assignment-IsSafe assignment_id assignment_key error p s =
    elim (Option-cases (first (λ a. a.id == assignment_id) p.assignments)) [
      | inl e ↦ rw e s
      | inr (a, e) ↦ rw e (elim (Bool-cases (a.assignment_key == assignment_key)) [
        | inl k ↦ rw k (elim (Bool-cases (row_count held p.assignments == 1)) [
          | inl c ↦ rw c (
              reset_games_for_replay-IsSafe false (a.game_id ∷ []) error abandoned
                (one_given_up assignment_id assignment_key a AssignmentStatus.abandoned p.db.clock
                  (prefix 500 error) p.assignments refl s.one_each e k)
                abandoned-Safe)
          | inr c ↦ rw c abandoned-Safe
        ])
        | inr k ↦ rw k s
      ])
    ]
  where
    held : AssignmentRecord → Bool
    held = held_by is_active assignment_id assignment_key

    abandoned : Pool
    abandoned =
        update_assignments held (given_up AssignmentStatus.abandoned p.db.clock (prefix 500 error))
          p

    abandoned-Safe : IsSafe abandoned
    abandoned-Safe =
        Safe-assignments held (given_up AssignmentStatus.abandoned p.db.clock (prefix 500 error))
          (λ a. refl) (λ a. refl) (λ a h o. absurd (ground (arith, o))) p.assignments p.db.games
          p.next_assignment_id s

-- the assignments of a worker, after they are given up
pub release_assignments-IsSafe :
    (status : AssignmentStatus) (worker_id : ℕ) (error reason : String) (p : Pool)
    → is_active status ≡ false
    → IsSafe p
    → IsSafe (release_assignments status worker_id error reason p)
unfolding release_assignments update_assignments update_where active_worker_game_ids given_up
release_assignments-IsSafe status worker_id error reason p over s =
    reset_games_for_replay-IsSafe false ids reason
      (update_assignments (held_active worker_id) (given_up status p.db.clock error) p)
      (All-map _ (Released ids) _ p.assignments gone
        (unique-same (λ a. a.game_id) (held_active worker_id) p.assignments s.one_each))
      (Safe-assignments (held_active worker_id) (given_up status p.db.clock error) (λ a. refl)
        (λ a. refl) (λ a h o. absurd (ground (arith, o, over))) p.assignments p.db.games
        p.next_assignment_id s)
  where
    ids : List ℕ
    ids = map (λ a. a.game_id) (keep (held_active worker_id) p.assignments)

    gone :
        (a : AssignmentRecord)
        → (any (λ x. (x.game_id == a.game_id) && held_active worker_id x) p.assignments ≡ true
            → held_active worker_id a ≡ true)
        → Released ids (if held_active worker_id a then given_up status p.db.clock error a else a)
    gone a same = elim (Bool-cases (held_active worker_id a)) [
      | inl h ↦ rw h (λ _. over)
      | inr h ↦ rw h (λ e. absurd (
          ground (
            arith,
            h,
            same (elem-map-keep (λ x. x.game_id) (held_active worker_id) a.game_id p.assignments e),
          )))
    ]
