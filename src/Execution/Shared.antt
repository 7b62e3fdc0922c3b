-- ===== src/Execution/Shared.antt =====
-- Jobs that several operations share, in `cancel_operation` of cope/domains/execution/admission.py.
use cope_chess.Prelude.{
  ℕ, suc, List, [], ◌∷◌, Bool, true, false, not, ◌&&◌, ◌||◌, ◌==◌, ==_iff, ltb, if◌then◌else◌, any,
  any-map, any_mono, any-none, map, length, ◌≡◌, sym, ap, ◌∙◌, inl, inr, Bool-cases, Option-cases,
  All, All-imp, All-map, arith, String,
}
use cope_chess.Execution.Cancel.{
  Operation, Job, OperationJob, Execution, Principal, is_cancelled, job_cancelled, is_idle,
  consumed, jobs_of, operation_cancelled, cancel_row, cancelled_job, cancel_job, Tally, cancel_jobs,
  cancel_found, cancel_operation, resolve_operation,
}

-- A cancelled job has no consumers.
abbrev Unwanted : List Operation → List OperationJob → Job → Type 0
Unwanted operations links j = job_cancelled j.status ≡ true → consumed operations links j ≡ false

abbrev pub IsSettled : Execution → Type 0
IsSettled e = All (Unwanted e.operations e.links) e.jobs

-- consumers depend on the id of a job
pub consumed_id :
    (operations : List Operation) (links : List OperationJob) (j k : Job)
    → j.id ≡ k.id
    → consumed operations links j ≡ consumed operations links k
unfolding consumed
consumed_id operations links j k e =
    ap
      (λ v.
        any
          (λ (l : OperationJob).
            l.job_id == v
            && any (λ (o : Operation). o.id == l.operation_id && not (is_cancelled o.status))
                operations)
          links)
      e

cancel_job-IsSettled :
    (j : Job) (reason : String) (e : Execution)
    → consumed e.operations e.links j ≡ false
    → IsSettled e
    → IsSettled (cancel_job j.id reason e)
unfolding cancel_job cancelled_job consumed
cancel_job-IsSettled j reason e free s = All-map _ _ _ e.jobs kept s
  where
    kept :
        (k : Job)
        → Unwanted e.operations e.links k
        → Unwanted e.operations e.links (if k.id == j.id then cancelled_job reason k else k)
    kept k u = elim (Bool-cases (k.id == j.id)) [
      | inl t ↦ rw t (λ _. consumed_id e.operations e.links k j ((==_iff k.id j.id).0 t) ∙ free)
      | inr t ↦ rw t u
    ]

cancel_jobs-IsSettled :
    (js : List Job) (reason : String) (t : Tally) (e : Execution)
    → IsSettled e
    → IsSettled (cancel_jobs js reason t e).1
unfolding cancel_jobs
cancel_jobs-IsSettled [] reason t e s = s
cancel_jobs-IsSettled (j ∷ js) reason (stopped, continuing) e s =
    elim (Bool-cases (consumed e.operations e.links j)) [
      | inl c ↦ rw c (cancel_jobs-IsSettled js reason (stopped, suc continuing) e s)
      | inr c ↦ rw c (elim (Bool-cases (not (job_cancelled j.status))) [
        | inl n ↦ rw n (
            cancel_jobs-IsSettled js reason (suc stopped, continuing) (cancel_job j.id reason e)
              (cancel_job-IsSettled j reason e c s))
        | inr n ↦ rw n (cancel_jobs-IsSettled js reason (stopped, continuing) e s)
      ])
    ]

cancel_row-IsSettled :
    (operation_id : ℕ) (reason : String) (e : Execution)
    → IsSettled e
    → IsSettled (cancel_row operation_id reason e)
unfolding cancel_row operation_cancelled consumed
cancel_row-IsSettled operation_id reason e s =
    All-imp _ _ e.jobs (λ j u c. any-none _ _ e.links (fewer j) (u c)) s
  where
    set : Operation → Operation
    set o = if o.id == operation_id then operation_cancelled reason o else o

    live : OperationJob → Operation → Bool
    live l o = o.id == l.operation_id && not (is_cancelled o.status)

    live_before : (l : OperationJob) (o : Operation) → live l (set o) ≡ true → live l o ≡ true
    live_before l o = elim (Bool-cases (o.id == operation_id)) [
      | inl t ↦ rw t (λ h. absurd (ground (arith, h)))
      | inr t ↦ rw t (λ h. h)
    ]

    fewer :
        (j : Job) (l : OperationJob)
        → (l.job_id == j.id && any (live l) (map set e.operations)) ≡ true
        → (l.job_id == j.id && any (live l) e.operations) ≡ true
    fewer j l h =
        let some_live : any (live l) (map set e.operations) ≡ true = ground (arith, h) in
        let before =
          any_mono (λ o. live l (set o)) (live l) e.operations (live_before l)
            (sym (any-map (live l) set e.operations) ∙ some_live) in
        ground (arith, h, before)

-- Cancelling an operation keeps it so that a cancelled job has no consumers, the operations
-- linked to it that are not cancelled.
pub cancel_operation-IsSettled :
    (principal : Principal) (target : ℕ) (reason : String) (e : Execution)
    → IsSettled e
    → IsSettled (cancel_operation principal target reason e).1
unfolding cancel_operation cancel_found
cancel_operation-IsSettled principal target reason e s =
    elim (Option-cases (resolve_operation principal target e)) [
      | inl n ↦ rw n s
      | inr (o, f) ↦
          rw f
            (elim (Bool-cases
              (not (o.actor == principal.actor) && not principal.is_administrator)) [
                | inl d ↦ rw d s
                | inr d ↦
                    rw d
                      (elim (Bool-cases (
                        ltb 16 (length (jobs_of o.id e))
                        || any (λ (j : Job). not (is_idle j.status)) (jobs_of o.id e))) [
                          | inl b ↦ rw b s
                          | inr b ↦ rw b (
                              cancel_jobs-IsSettled (jobs_of o.id e) reason (0, 0)
                                (if is_cancelled o.status then e else cancel_row o.id reason e)
                                (withdrawn o))
                        ])
              ])
    ]
  where
    withdrawn :
        (o : Operation) → IsSettled (if is_cancelled o.status then e else cancel_row o.id reason e)
    withdrawn o = elim (Bool-cases (is_cancelled o.status)) [
      | inl c ↦ rw c s
      | inr c ↦ rw c (cancel_row-IsSettled o.id reason e s)
    ]
