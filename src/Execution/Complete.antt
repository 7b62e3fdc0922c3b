-- ===== src/Execution/Complete.antt =====
-- What becomes of an operation and of its jobs in `cancel_operation` of
-- cope/domains/execution/admission.py.
use mathlib.Core.Path.{subst}
use cope_chess.Prelude.{
  ℕ, suc, List, [], ◌∷◌, some, Bool, true, false, not, ◌&&◌, ◌||◌, ◌==◌, ==_iff, ltb, if◌then◌else◌,
  any, any_mono, any-none_passes, first-any, unique-only, map, length, ◌≡◌, refl, sym, ap, ◌∙◌, inl,
  inr, Bool-cases, All, All-all, All-imp, All-map, Unique, arith, String,
}
use cope_chess.Exec.{ok, err}
use cope_chess.Execution.Cancel.{
  Operation, Job, OperationJob, Execution, Principal, is_cancelled, job_cancelled, is_idle,
  consumed, jobs_of, cancel_row, operation_cancelled, cancel_job, Tally, cancel_jobs, cancel_found,
  cancel_operation, resolve_operation, permission_denied, operation_control_unavailable,
}
use cope_chess.Execution.Settling.{Agree, EachSettled, cancel_jobs-EachSettled, jobs_of-Agree}

-- a job that an operation with another id consumes
abbrev pub consumed_by_others : ℕ → List Operation → List OperationJob → Job → Bool
consumed_by_others target operations links j =
    any
      (λ (l : OperationJob).
        l.job_id == j.id
        && (not (l.operation_id == target)
            && any (λ (o : Operation). o.id == l.operation_id && not (is_cancelled o.status))
                operations))
      links

-- The rows of the jobs are cancelled or consumed by others.
abbrev pub AllSettled : ℕ → List Job → Execution → Type 0
AllSettled target js e =
    All
      (λ j.
        All
          (λ k.
            (k.id == j.id) ≡ true
            → (job_cancelled k.status || consumed_by_others target e.operations e.links k) ≡ true)
          e.jobs)
      js

-- The operation is cancelled.
abbrev pub IsWithdrawn : ℕ → Execution → Type 0
IsWithdrawn target e =
    All (λ (o : Operation). (o.id == target) ≡ true → is_cancelled o.status ≡ true) e.operations

-- a cancelled operation consumes nothing
consumed-others :
    (target : ℕ) (e : Execution) (j : Job)
    → IsWithdrawn target e
    → consumed e.operations e.links j ≡ true
    → consumed_by_others target e.operations e.links j ≡ true
unfolding consumed
consumed-others target e j withdrawn h = any_mono _ _ e.links other h
  where
    live : OperationJob → Operation → Bool
    live l o = o.id == l.operation_id && not (is_cancelled o.status)

    dead :
        (l : OperationJob) (o : Operation)
        → (l.operation_id == target) ≡ true
        → ((o.id == target) ≡ true → is_cancelled o.status ≡ true)
        → live l o ≡ false
    dead l o t w = ground (arith, t, w)

    other :
        (l : OperationJob)
        → (l.job_id == j.id && any (live l) e.operations) ≡ true
        → (l.job_id == j.id && (not (l.operation_id == target) && any (live l) e.operations)) ≡ true
    other l h = elim (Bool-cases (l.operation_id == target)) [
      | inr n ↦ ground (arith, h, n)
      | inl t ↦
          let none_live : any (live l) e.operations ≡ false =
            any-none_passes (live l) e.operations
              (All-imp _ _ e.operations (λ o w. dead l o t w) withdrawn) in
          absurd (ground (arith, h, none_live))
    ]

EachSettled-others :
    (target : ℕ) (js : List Job) (e : Execution)
    → IsWithdrawn target e
    → EachSettled js e
    → AllSettled target js e
EachSettled-others target js e withdrawn s =
    All-imp _ _ js
      (λ j settled.
        All-imp _ _ e.jobs
          (λ k h i.
            let others = consumed-others target e k withdrawn in
            let yes = h i in ground (arith, yes, others))
          settled)
      s

cancel_jobs-operations :
    (js : List Job) (reason : String) (t : Tally) (e : Execution)
    → (cancel_jobs js reason t e).1.operations ≡ e.operations
unfolding cancel_jobs cancel_job
cancel_jobs-operations [] reason t e = refl
cancel_jobs-operations (j ∷ js) reason (stopped, continuing) e =
    elim (Bool-cases (consumed e.operations e.links j)) [
      | inl c ↦ rw c (cancel_jobs-operations js reason (stopped, suc continuing) e)
      | inr c ↦ rw c (elim (Bool-cases (not (job_cancelled j.status))) [
        | inl n ↦
            rw n (
              cancel_jobs-operations js reason (suc stopped, continuing) (cancel_job j.id reason e))
        | inr n ↦ rw n (cancel_jobs-operations js reason (stopped, continuing) e)
      ])
    ]

-- the operation's row, before the loop over the jobs
row-IsWithdrawn :
    (principal : Principal) (target : ℕ) (reason : String) (e : Execution) (o : Operation)
    → Unique (map (λ (p : Operation). p.id) e.operations)
    → resolve_operation principal target e ≡ some o
    → IsWithdrawn o.id (if is_cancelled o.status then e else cancel_row o.id reason e)
unfolding cancel_row operation_cancelled resolve_operation
row-IsWithdrawn principal target reason e o u found = elim (Bool-cases (is_cancelled o.status)) [
  | inl c ↦ rw c (
      unique-only (λ (p : Operation). p.id) (λ (p : Operation). is_cancelled p.status) o.id
        e.operations u
        (any_mono _ _ e.operations (λ p t. ground (arith, t))
          (first-any _ (λ (p : Operation). p.id == o.id && is_cancelled p.status) o e.operations
            found (let mine = (==_iff o.id o.id).1 refl in ground (arith, mine, c)))))
  | inr c ↦ rw c (All-map (λ _. Unit {0}) _ _ e.operations row (All-all _ e.operations (λ _. tt)))
]
  where
    row :
        (p : Operation)
        → Unit {0}
        → ((if p.id == o.id then operation_cancelled reason p else p).id == o.id) ≡ true
        → is_cancelled (if p.id == o.id then operation_cancelled reason p else p).status ≡ true
    row p _ = elim (Bool-cases (p.id == o.id)) [
      | inl t ↦ rw t (λ _. refl)
      | inr t ↦ rw t (λ h. absurd (ground (arith, t, h)))
    ]

-- When a cancellation is accepted, the operation is cancelled, and every job that is linked to
-- it is cancelled afterwards or consumed by an operation with another id, where the ids of the
-- jobs are different and those of the operations too.
pub cancel_operation-AllSettled :
    (principal : Principal) (target : ℕ) (reason : String) (e : Execution) (o : Operation)
    (t : Tally)
    → Unique (map (λ (j : Job). j.id) e.jobs)
    → Unique (map (λ (p : Operation). p.id) e.operations)
    → resolve_operation principal target e ≡ some o
    → (cancel_operation principal target reason e).0 ≡ ok t
    → IsWithdrawn o.id (cancel_operation principal target reason e).1
      × AllSettled o.id (jobs_of o.id e) (cancel_operation principal target reason e).1
unfolding cancel_operation cancel_found cancel_row
cancel_operation-AllSettled principal target reason e o t u v found accepted =
    elim (Bool-cases (not (o.actor == principal.actor) && not principal.is_administrator)) [
      | inl d ↦
          let raised : cancel_operation principal target reason e ≡ (err permission_denied, e) =
            rw (found, d) refl in
          let clash = sym (ap (λ r. r.0) raised) ∙ accepted in absurd cc
      | inr d ↦ elim (Bool-cases busy) [
        | inl b ↦
            let raised : cancel_operation principal target reason e
                ≡ (err operation_control_unavailable, e) =
              rw (found, d, b) refl in
            let clash = sym (ap (λ r. r.0) raised) ∙ accepted in absurd cc
        | inr b ↦
            let done : cancel_operation principal target reason e ≡ (ok final.0, final.1) =
              rw (found, d, b) refl in
            subst (λ r. IsWithdrawn o.id r.1 × AllSettled o.id (jobs_of o.id e) r.1) (sym done)
              (
                withdrawn,
                EachSettled-others o.id (jobs_of o.id e) final.1 withdrawn
                    (cancel_jobs-EachSettled (jobs_of o.id e) reason (0, 0) start agree),
              )
      ]
    ]
  where
    busy : Bool
    busy =
        ltb 16 (length (jobs_of o.id e))
        || any (λ (j : Job). not (is_idle j.status)) (jobs_of o.id e)

    start : Execution
    start = if is_cancelled o.status then e else cancel_row o.id reason e

    final : Tally × Execution
    final = cancel_jobs (jobs_of o.id e) reason (0, 0) start

    agree : Agree (jobs_of o.id e) start
    agree = elim (Bool-cases (is_cancelled o.status)) [
      | inl c ↦ rw c (jobs_of-Agree o.id e u)
      | inr c ↦ rw c (jobs_of-Agree o.id e u)
    ]

    withdrawn : IsWithdrawn o.id final.1
    withdrawn =
        subst
          (λ os. All (λ (p : Operation). (p.id == o.id) ≡ true → is_cancelled p.status ≡ true) os)
          (sym (cancel_jobs-operations (jobs_of o.id e) reason (0, 0) start))
          (row-IsWithdrawn principal target reason e o v found)
