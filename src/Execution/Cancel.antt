-- ===== src/Execution/Cancel.antt =====
-- `cancel_operation` of cope/domains/execution/admission.py with `resolve_operation`. The tables are
-- lists of rows; UUIDs and actors are numbers, since they are only compared. An exception rolls the
-- transaction back.
use cope_chess.Prelude.{
  ℕ, suc, List, [], ◌∷◌, Option, none, some, Bool, true, false, not, ◌&&◌, ◌||◌, ◌==◌, ltb,
  if◌then◌else◌, any, keep, first, length, map, sort_by, String,
}
use cope_chess.Exec.{Result, ok, err}

pub data OperationStatus : Type 0 where
  waiting cancelled : OperationStatus

-- a status that is neither 'blocked' nor 'cancelled' is kept as its text
pub data JobStatus : Type 0 where
  blocked cancelled : JobStatus
  other_status : String → JobStatus

pub record Operation : Type 0 where
  pub id : ℕ
  pub actor : ℕ
  pub status : OperationStatus
  pub cancel_requested : Bool
  pub cancel_reason : Option String

pub record Job : Type 0 where
  pub id : ℕ
  pub status : JobStatus
  pub cancel_requested : Bool
  pub cancel_reason : Option String

pub record OperationJob : Type 0 where
  pub operation_id : ℕ
  pub job_id : ℕ

pub record Execution : Type 0 where
  pub operations : List Operation
  pub jobs : List Job
  pub links : List OperationJob

-- the credential: its actor, `'*' in scopes` and `'execution:inspect' in scopes`
pub record Principal : Type 0 where
  pub actor : ℕ
  pub is_administrator : Bool
  pub inspects : Bool

pub data CancelError : Type 0 where
  operation_unavailable permission_denied operation_control_unavailable : CancelError

abbrev pub is_cancelled : OperationStatus → Bool
is_cancelled OperationStatus.cancelled = true
is_cancelled _ = false

abbrev pub job_cancelled : JobStatus → Bool
job_cancelled JobStatus.cancelled = true
job_cancelled _ = false

-- status in {'blocked','cancelled'}
abbrev pub is_idle : JobStatus → Bool
is_idle JobStatus.blocked = true
is_idle JobStatus.cancelled = true
is_idle _ = false

unfoldable pub resolve_operation : Principal → ℕ → Execution → Option Operation
resolve_operation principal target e =
    first
      (λ o.
        o.id == target
        && (principal.is_administrator || principal.inspects || o.actor == principal.actor))
      e.operations

unfoldable pub linked : ℕ → List OperationJob → Job → Bool
linked operation_id links j = any (λ l. l.operation_id == operation_id && l.job_id == j.id) links

-- the job's consumers: the links from operations that are not cancelled
unfoldable pub consumed : List Operation → List OperationJob → Job → Bool
consumed operations links j =
    any
      (λ l.
        l.job_id == j.id
        && any (λ (o : Operation). o.id == l.operation_id && not (is_cancelled o.status))
            operations)
      links

unfoldable pub jobs_of : ℕ → Execution → List Job
unfolding linked
jobs_of operation_id e = sort_by (λ j k. ltb j.id k.id) (keep (linked operation_id e.links) e.jobs)

unfoldable pub operation_cancelled : String → Operation → Operation
operation_cancelled reason o = record o {
  status = OperationStatus.cancelled;
  cancel_requested = true;
  cancel_reason = some reason;
}

unfoldable pub cancel_row : ℕ → String → Execution → Execution
unfolding operation_cancelled
cancel_row operation_id reason e = record e {
  operations =
      map (λ o. if o.id == operation_id then operation_cancelled reason o else o) e.operations;
}

unfoldable pub cancelled_job : String → Job → Job
cancelled_job reason j = record j {
  status = JobStatus.cancelled;
  cancel_requested = true;
  cancel_reason = some reason;
}

unfoldable pub cancel_job : ℕ → String → Execution → Execution
unfolding cancelled_job
cancel_job job_id reason e = record e {
  jobs = map (λ j. if j.id == job_id then cancelled_job reason j else j) e.jobs;
}

-- `cancelled_jobs` and `continuing_jobs`
abbrev pub Tally : Type 0
Tally = ℕ × ℕ

-- the loop over the jobs
unfoldable pub cancel_jobs : List Job → String → Tally → Execution → Tally × Execution
unfolding consumed cancel_job
cancel_jobs [] reason t e = (t, e)
cancel_jobs (j ∷ js) reason (stopped, continuing) e =
    let continues = cancel_jobs js reason (stopped, suc continuing) e in
    let cancels = cancel_jobs js reason (suc stopped, continuing) (cancel_job j.id reason e) in
    let stays = cancel_jobs js reason (stopped, continuing) e in
    if consumed e.operations e.links j
    then continues
    else if not (job_cancelled j.status)
    then cancels
    else stays

unfoldable pub cancel_found :
    Option Operation → Principal → String → Execution → Result CancelError Tally × Execution
unfolding jobs_of cancel_row cancel_jobs
cancel_found none principal reason e = (err operation_unavailable, e)
cancel_found (some o) principal reason e =
    let jobs = jobs_of o.id e in
    let withdrawn = if is_cancelled o.status then e else cancel_row o.id reason e in
    let (tally, final) = cancel_jobs jobs reason (0, 0) withdrawn in
    if not (o.actor == principal.actor) && not principal.is_administrator
    then (err permission_denied, e)
    else if ltb 16 (length jobs) || any (λ (j : Job). not (is_idle j.status)) jobs
    then (err operation_control_unavailable, e)
    else (ok tally, final)

unfoldable pub cancel_operation :
    Principal → ℕ → String → Execution → Result CancelError Tally × Execution
unfolding resolve_operation cancel_found
cancel_operation principal target reason e =
    cancel_found (resolve_operation principal target e) principal reason e
