-- ===== src/Execution/Settling.antt =====
-- The loop over the jobs in `cancel_operation` of cope/domains/execution/admission.py.
use mathlib.Core.Path.{subst}
use cope_chess.Prelude.{
  ℕ, suc, List, [], ◌∷◌, Bool, true, false, not, ◌&&◌, ◌||◌, ◌==◌, ==_iff, if◌then◌else◌, any,
  any-keep, any-sort_by, any_mono, keep, map, ◌≡◌, refl, sym, ◌∙◌, inl, inr, Bool-cases, All,
  All-all, All-imp, All-map, Unique, unique-same, arith, String,
}
use cope_chess.Execution.Cancel.{
  Operation, Job, OperationJob, Execution, job_cancelled, linked, consumed, jobs_of, cancelled_job,
  cancel_job, Tally, cancel_jobs,
}
use cope_chess.Execution.Shared.{consumed_id}

-- cancelled, or still consumed
abbrev pub is_settled : List Operation → List OperationJob → Job → Bool
is_settled operations links j = job_cancelled j.status || consumed operations links j

abbrev pub Settled : ℕ → Execution → Type 0
Settled v e = All (λ k. (k.id == v) ≡ true → is_settled e.operations e.links k ≡ true) e.jobs

-- a row that was cancelled when the jobs were read is cancelled
abbrev pub Agree : List Job → Execution → Type 0
Agree js e =
    All
      (λ k.
        any (λ j. j.id == k.id && job_cancelled j.status) js ≡ true → job_cancelled k.status ≡ true)
      e.jobs

module _ (i : ℕ) (reason : String) (e : Execution) where
  cancel_job-Settled : (v : ℕ) → Settled v e → Settled v (cancel_job i reason e)
  unfolding cancel_job cancelled_job
  cancel_job-Settled v s = All-map _ _ _ e.jobs kept s
    where
      kept :
          (k : Job)
          → ((k.id == v) ≡ true → is_settled e.operations e.links k ≡ true)
          → ((if k.id == i then cancelled_job reason k else k).id == v) ≡ true
          → is_settled e.operations e.links (if k.id == i then cancelled_job reason k else k) ≡ true
      kept k h = elim (Bool-cases (k.id == i)) [ inl t ↦ rw t (λ _. refl) | inr t ↦ rw t h ]

  cancel_job-itself : Settled i (cancel_job i reason e)
  unfolding cancel_job cancelled_job
  cancel_job-itself = All-map (λ _. Unit {0}) _ _ e.jobs now (All-all _ e.jobs (λ k. tt))
    where
      now :
          (k : Job)
          → Unit {0}
          → ((if k.id == i then cancelled_job reason k else k).id == i) ≡ true
          → is_settled e.operations e.links (if k.id == i then cancelled_job reason k else k) ≡ true
      now k _ = elim (Bool-cases (k.id == i)) [
        | inl t ↦ rw t (λ _. refl)
        | inr t ↦ rw t (λ h. absurd (ground (arith, t, h)))
      ]

  cancel_job-Agree : (js : List Job) → Agree js e → Agree js (cancel_job i reason e)
  unfolding cancel_job cancelled_job
  cancel_job-Agree js a = All-map _ _ _ e.jobs kept a
    where
      kept :
          (k : Job)
          → (any (λ j. j.id == k.id && job_cancelled j.status) js ≡ true
              → job_cancelled k.status ≡ true)
          → any
              (λ j.
                j.id == (if k.id == i then cancelled_job reason k else k).id
                && job_cancelled j.status)
              js
            ≡ true
          → job_cancelled (if k.id == i then cancelled_job reason k else k).status ≡ true
      kept k h = elim (Bool-cases (k.id == i)) [ inl t ↦ rw t (λ _. refl) | inr t ↦ rw t h ]

cancel_jobs-Settled :
    (js : List Job) (reason : String) (t : Tally) (e : Execution) (v : ℕ)
    → Settled v e
    → Settled v (cancel_jobs js reason t e).1
unfolding cancel_jobs
cancel_jobs-Settled [] reason t e v s = s
cancel_jobs-Settled (j ∷ js) reason (stopped, continuing) e v s =
    elim (Bool-cases (consumed e.operations e.links j)) [
      | inl c ↦ rw c (cancel_jobs-Settled js reason (stopped, suc continuing) e v s)
      | inr c ↦ rw c (elim (Bool-cases (not (job_cancelled j.status))) [
        | inl n ↦ rw n (
            cancel_jobs-Settled js reason (suc stopped, continuing) (cancel_job j.id reason e) v
              (cancel_job-Settled j.id reason e v s))
        | inr n ↦ rw n (cancel_jobs-Settled js reason (stopped, continuing) e v s)
      ])
    ]

-- the jobs of the list
abbrev pub EachSettled : List Job → Execution → Type 0
EachSettled js e = All (λ j. Settled j.id e) js

pub cancel_jobs-EachSettled :
    (js : List Job) (reason : String) (t : Tally) (e : Execution)
    → Agree js e
    → EachSettled js (cancel_jobs js reason t e).1
unfolding cancel_jobs
cancel_jobs-EachSettled [] reason t e a = tt
cancel_jobs-EachSettled (j ∷ js) reason (stopped, continuing) e a =
    let later : Agree js e = All-imp _ _ e.jobs (λ k h t. h (ground (arith, t))) a in
    elim (Bool-cases (consumed e.operations e.links j)) [
      | inl c ↦
          after (stopped, suc continuing) e (rw c refl)
            (cancel_jobs-Settled js reason (stopped, suc continuing) e j.id (wanted c))
            (cancel_jobs-EachSettled js reason (stopped, suc continuing) e later)
      | inr c ↦ elim (Bool-cases (not (job_cancelled j.status))) [
        | inl n ↦
            let freed = cancel_job j.id reason e in
            after (suc stopped, continuing) freed (rw (c, n) refl)
              (cancel_jobs-Settled js reason (suc stopped, continuing) freed j.id
                (cancel_job-itself j.id reason e))
              (cancel_jobs-EachSettled js reason (suc stopped, continuing) freed
                (cancel_job-Agree j.id reason e js later))
        | inr n ↦
            after (stopped, continuing) e (rw (c, n) refl)
              (cancel_jobs-Settled js reason (stopped, continuing) e j.id (before n))
              (cancel_jobs-EachSettled js reason (stopped, continuing) e later)
      ]
    ]
  where
    after :
        (t' : Tally) (e' : Execution)
        → cancel_jobs (j ∷ js) reason (stopped, continuing) e ≡ cancel_jobs js reason t' e'
        → Settled j.id (cancel_jobs js reason t' e').1
        → EachSettled js (cancel_jobs js reason t' e').1
        → EachSettled (j ∷ js) (cancel_jobs (j ∷ js) reason (stopped, continuing) e).1
    after t' e' same first rest = subst (λ r. EachSettled (j ∷ js) r.1) (sym same) (first, rest)

    wanted : consumed e.operations e.links j ≡ true → Settled j.id e
    wanted c = All-all _ e.jobs (λ k i.
        let same = consumed_id e.operations e.links k j ((==_iff k.id j.id).0 i) ∙ c in
        ground (arith, same))

    before : not (job_cancelled j.status) ≡ false → Settled j.id e
    before n =
        All-imp _ _ e.jobs
          (λ k h i.
            let same : j.id ≡ k.id = sym ((==_iff k.id j.id).0 i) in
            let yes = h (ground (arith, n, (==_iff j.id k.id).1 same)) in ground (arith, yes))
          a

-- the rows that were read agree with the table that they were read from
pub jobs_of-Agree :
    (operation_id : ℕ) (e : Execution)
    → Unique (map (λ j. j.id) e.jobs)
    → Agree (jobs_of operation_id e) e
unfolding jobs_of linked
jobs_of-Agree operation_id e u =
    All-imp _ _ e.jobs (λ k only h. only (found k h))
      (unique-same (λ j. j.id) (λ j. job_cancelled j.status) e.jobs u)
  where
    found :
        (k : Job)
        → any (λ j. j.id == k.id && job_cancelled j.status) (jobs_of operation_id e) ≡ true
        → any (λ j. j.id == k.id && job_cancelled j.status) e.jobs ≡ true
    found k h =
        any_mono _ _ e.jobs (λ j t. ground (arith, t))
          (sym (
              any-sort_by _ (λ j. j.id == k.id && job_cancelled j.status)
                (keep (linked operation_id e.links) e.jobs)
              ∙ any-keep (λ j. j.id == k.id && job_cancelled j.status) (linked operation_id e.links)
                  e.jobs)
            ∙ h)
