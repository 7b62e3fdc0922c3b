-- ===== src/Examples/Execution.antt =====
-- Two operations that share a job.
use cope_chess.Prelude.{[], ◌∷◌, none, true, false, ◌≡◌, refl, sort_by}
use cope_chess.Exec.{ok, err}
use cope_chess.Execution.Cancel.{
  Operation, OperationStatus, Job, JobStatus, Execution, Principal, cancel_operation, cancel_found,
  resolve_operation, jobs_of, linked, cancel_row, operation_cancelled, cancel_jobs, consumed,
  cancel_job, cancelled_job, permission_denied,
}
use cope_chess.Execution.Shared.{IsSettled, cancel_operation-IsSettled}
use cope_chess.Execution.Complete.{IsWithdrawn, AllSettled, cancel_operation-AllSettled}

abbrev first_preparation : Operation
first_preparation = record {
  id = 1;
  actor = 7;
  status = OperationStatus.waiting;
  cancel_requested = false;
  cancel_reason = none;
}

abbrev second_preparation : Operation
second_preparation = record first_preparation { id = 2; actor = 8 }

abbrev blocked_job : Job
blocked_job = record {
  id = 5;
  status = JobStatus.blocked;
  cancel_requested = false;
  cancel_reason = none;
}

abbrev two_preparations : Execution
two_preparations = record {
  operations = first_preparation ∷ second_preparation ∷ [];
  jobs = blocked_job ∷ record blocked_job { id = 6 } ∷ [];
  links =
      record { operation_id = 1; job_id = 5 }
      ∷ record { operation_id = 1; job_id = 6 }
      ∷ record { operation_id = 2; job_id = 5 }
      ∷ [];
}

abbrev owner : Principal
owner = record { actor = 7; is_administrator = false; inspects = false }

-- One of the two jobs goes on for the second operation.
shared_job-continues : (cancel_operation owner 1 "not needed" two_preparations).0 ≡ ok (1, 1)
unfolding cancel_operation cancel_found resolve_operation jobs_of linked cancel_row
    operation_cancelled cancel_jobs consumed cancel_job cancelled_job sort_by
shared_job-continues = refl

-- An inspector of operations sees them and may not cancel them.
inspector-denied :
    cancel_operation (record owner { actor = 9; inspects = true }) 1 "not needed" two_preparations
    ≡ (err permission_denied, two_preparations)
unfolding cancel_operation cancel_found resolve_operation
inspector-denied = refl

cancel_operation-IsSettled_example :
    IsSettled (cancel_operation owner 1 "not needed" two_preparations).1
unfolding consumed
cancel_operation-IsSettled_example =
    cancel_operation-IsSettled owner 1 "not needed" two_preparations
      ((λ h. absurd cc), ((λ h. absurd cc), tt))

cancel_operation-AllSettled_example :
    IsWithdrawn 1 (cancel_operation owner 1 "not needed" two_preparations).1
    × AllSettled 1
        (jobs_of 1 two_preparations)
        (cancel_operation owner 1 "not needed" two_preparations).1
unfolding cancel_operation cancel_found resolve_operation jobs_of linked cancel_row
    operation_cancelled cancel_jobs consumed cancel_job cancelled_job sort_by
cancel_operation-AllSettled_example =
    cancel_operation-AllSettled owner 1 "not needed" two_preparations first_preparation (1, 1)
      (refl, (refl, tt)) (refl, (refl, tt)) refl refl
