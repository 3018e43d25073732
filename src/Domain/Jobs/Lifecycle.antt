-- ===== src/Domain/Jobs/Lifecycle.antt =====
-- The life of a job under any sequence of calls.
use sync_vault.Base.{
  ℕ, zero, suc, ◌≤◌, ◌≡◌, refl, sym, ap, ◌∙◌, ◌↔◌, String, true, false, List, [], ◌∷◌, arith,
  length,
}
use sync_vault.Domain.Operations.{FileOperation, is_completed, is_failed}
use sync_vault.Domain.Operations.Attempts.{Call, apply, is_some}
use sync_vault.Domain.Jobs.{
  JobPriority, SyncJob, running, completed, new_operations, new_sync_job, job_pending, job_running,
  job_over, start_job, complete_job, fail_job, cancel_job, count_completed, update_progress,
  job_is_completed, set_priority, set_retry_count, set_timeout, set_metadata, select,
  get_failed_operations, has_failures, any_failed,
}

-- A call on the operation at a place.
unfoldable pub apply_at : ℕ → Call → List FileOperation → List FileOperation
apply_at n c [] = []
apply_at zero c (op ∷ ops) = apply c op ∷ ops
apply_at (suc n) c (op ∷ ops) = op ∷ apply_at n c ops

pub data JobCall : Type 0 where
  starts completes cancels updates : ℕ → JobCall
  fails : ℕ → String → JobCall
  sets_priority : JobPriority → JobCall
  sets_retry_count sets_timeout : ℕ → JobCall
  sets_metadata : String → String → JobCall
  on_operation : ℕ → Call → JobCall

unfoldable pub call : JobCall → SyncJob → SyncJob
unfolding start_job complete_job fail_job cancel_job update_progress set_priority set_retry_count
    set_timeout set_metadata apply_at
call (starts now) job = start_job now job
call (completes now) job = complete_job now job
call (cancels now) job = cancel_job now job
call (updates now) job = update_progress now job
call (fails now m) job = fail_job now m job
call (sets_priority p) job = set_priority p job
call (sets_retry_count n) job = set_retry_count n job
call (sets_timeout t) job = set_timeout t job
call (sets_metadata k v) job = set_metadata k v job
call (on_operation n c) job = record job { operations = apply_at n c job.operations }

unfoldable pub call_all : List JobCall → SyncJob → SyncJob
unfolding call
call_all [] job = job
call_all (c ∷ cs) job = call_all cs (call c job)

length-apply_at :
    (n : ℕ) (c : Call) (ops : List FileOperation) → length (apply_at n c ops) ≡ length ops
unfolding apply_at
length-apply_at n c [] = refl
length-apply_at zero c (op ∷ ops) = refl
length-apply_at (suc n) c (op ∷ ops) = ap suc (length-apply_at n c ops)

count_completed-le : (ops : List FileOperation) → count_completed ops ≤ length ops
unfolding count_completed
count_completed-le [] = omega arith
count_completed-le (op ∷ ops) = ground (arith, count_completed-le ops)

pub record IsSound (job : SyncJob) : Type 0 where
  pub counted : job.total ≡ length job.operations
  pub bounded : job.progress ≤ job.total
  pub timed : is_some job.completed_at ≡ job_over job.status
  pub begun : job_running job.status ≡ true → is_some job.started_at ≡ true
  pub waiting : job_pending job.status ≡ true → is_some job.started_at ≡ false

length-new_operations :
    (files : List (String × String)) → length (new_operations files) ≡ length files
unfolding new_operations
length-new_operations [] = refl
length-new_operations ((i, f) ∷ files) = ap suc (length-new_operations files)

new_sync_job-IsSound :
    (id : String) (now : ℕ) (s t : String) (files : List (String × String))
    → IsSound (new_sync_job id now s t files)
unfolding new_sync_job
new_sync_job-IsSound id now s t files = record {
  counted = sym (length-new_operations files);
  bounded = omega arith;
  timed = refl;
  begun = λ h. cc;
  waiting = λ h. refl;
}

call-IsSound : (c : JobCall) (job : SyncJob) → IsSound job → IsSound (call c job)
unfolding call
call-IsSound (starts now) job v = ground arith
call-IsSound (completes now) job v = ground arith
call-IsSound (cancels now) job v = ground arith
call-IsSound (updates now) job v = ground (arith, count_completed-le job.operations)
call-IsSound (fails now m) job v = ground arith
call-IsSound (sets_priority p) job v = ground arith
call-IsSound (sets_retry_count n) job v = ground arith
call-IsSound (sets_timeout t) job v = ground arith
call-IsSound (sets_metadata k w) job v = ground arith
call-IsSound (on_operation n c) job v = ground (arith, length-apply_at n c job.operations)

call_all-IsSound : (cs : List JobCall) (job : SyncJob) → IsSound job → IsSound (call_all cs job)
unfolding call_all
call_all-IsSound [] job v = v
call_all-IsSound (c ∷ cs) job v = call_all-IsSound cs (call c job) (call-IsSound c job v)

-- After any calls on a new job and its operations: the total is the number of operations, the
-- progress is at most the total, there is a time of completion exactly when the job is completed,
-- failed or cancelled, and a time of start where it runs and none where it waits.
pub new_sync_job-IsSound_after :
    (id : String) (now : ℕ) (s t : String) (files : List (String × String)) (cs : List JobCall)
    → IsSound (call_all cs (new_sync_job id now s t files))
new_sync_job-IsSound_after id now s t files cs =
    call_all-IsSound cs _ (new_sync_job-IsSound id now s t files)

status_kept :
    (c : JobCall) (job : SyncJob) → job_is_completed job ≡ true → (call c job).status ≡ job.status
unfolding call job_is_completed
status_kept (starts now) job h = ground arith
status_kept (completes now) job h = ground arith
status_kept (cancels now) job h = ground arith
status_kept (updates now) job h = ground arith
status_kept (fails now m) job h = ground arith
status_kept (sets_priority p) job h = refl
status_kept (sets_retry_count n) job h = refl
status_kept (sets_timeout t) job h = refl
status_kept (sets_metadata k w) job h = refl
status_kept (on_operation n c) job h = refl

still_over :
    (c : JobCall) (job : SyncJob)
    → job_is_completed job ≡ true
    → job_is_completed (call c job) ≡ true
unfolding job_is_completed
still_over c job h = ap job_over (status_kept c job h) ∙ h

-- A job that is completed, failed or cancelled keeps that status under all later calls.
pub call_all_over :
    (cs : List JobCall) (job : SyncJob)
    → job_is_completed job ≡ true
    → (call_all cs job).status ≡ job.status
unfolding call_all
call_all_over [] job h = refl
call_all_over (c ∷ cs) job h =
    call_all_over cs (call c job) (still_over c job h) ∙ status_kept c job h

abbrev pub AllCompleted : List FileOperation → Type 0
AllCompleted [] = Unit
AllCompleted (op ∷ ops) = (is_completed op ≡ true) × AllCompleted ops

all_of_count : (ops : List FileOperation) → count_completed ops ≡ length ops → AllCompleted ops
unfolding count_completed
all_of_count [] h = tt
all_of_count (op ∷ ops) h = (
  ground (arith, count_completed-le ops),
  all_of_count ops (ground (arith, count_completed-le ops)),
)

count_of_all : (ops : List FileOperation) → AllCompleted ops → count_completed ops ≡ length ops
unfolding count_completed
count_of_all [] h = refl
count_of_all (op ∷ ops) h = ground (arith, count_of_all ops h.1)

-- `UpdateProgress` completes a running job exactly when all its operations are completed or
-- skipped, and records their number otherwise.
pub update_progress-completed :
    (now : ℕ) (job : SyncJob)
    → job.status ≡ running
    → ((update_progress now job).status ≡ completed ↔ AllCompleted job.operations)
      × ((update_progress now job).progress ≡ count_completed job.operations)
unfolding update_progress
update_progress-completed now job h = (
  (
    λ e. all_of_count job.operations (ground arith),
    λ all. ground (arith, count_of_all job.operations all),
  ),
  ground arith,
)

any_failed-select :
    (ops : List FileOperation) → (any_failed ops ≡ false) ↔ (select is_failed ops ≡ [])
unfolding any_failed select
any_failed-select [] = (λ h. refl, λ h. refl)
any_failed-select (op ∷ ops) = ground (arith, any_failed-select ops)

-- `HasFailures` says whether `GetFailedOperations` lists anything.
pub has_failures-get_failed_operations :
    (job : SyncJob) → (has_failures job ≡ false) ↔ (get_failed_operations job ≡ [])
unfolding has_failures get_failed_operations
has_failures-get_failed_operations job = any_failed-select job.operations
