-- ===== src/Domain/Jobs.antt =====
-- SyncJob of internal/domain/aggregates/syncjob.go. Its operations are shared with their holders in
-- the source; here a change of one is a call on the job.
pub mod Lifecycle
use sync_vault.Base.{
  ℕ, zero, suc, ◌+◌, String, Bool, true, false, ◌&&◌, ◌||◌, List, [], ◌∷◌, Option, none, some,
  length, nat_eqb, if◌then◌else◌, string_eq,
}
use sync_vault.Base.Dict.{Dict, insert}
use sync_vault.Domain.Operations.{
  FileOperation, new_file_operation, is_pending, is_running, is_completed, is_failed,
}

pub data JobPriority : Type 0 where
  priority_low priority_normal priority_high : JobPriority

pub data SyncJobStatus : Type 0 where
  pending running completed failed cancelled : SyncJobStatus

pub record SyncJob : Type 0 where
  pub id : String
  pub source_node : String
  pub target_node : String
  pub status : SyncJobStatus
  pub operations : List FileOperation
  pub created_at : ℕ
  pub started_at : Option ℕ
  pub completed_at : Option ℕ
  pub error_msg : String
  pub progress : ℕ
  pub total : ℕ
  pub priority : JobPriority
  pub retry_count : ℕ
  pub timeout : ℕ
  pub metadata : Dict String String

-- An operation for each file, with the identifiers that are drawn for them.
unfoldable pub new_operations : List (String × String) → List FileOperation
new_operations [] = []
new_operations ((id, file_id) ∷ rest) = new_file_operation id file_id "sync" ∷ new_operations rest

-- Thirty minutes, in nanoseconds.
abbrev pub default_timeout : ℕ
default_timeout = 1_800_000_000_000

unfoldable pub new_sync_job : String → ℕ → String → String → List (String × String) → SyncJob
unfolding new_operations
new_sync_job id now source target files = record {
  id = id;
  source_node = source;
  target_node = target;
  status = pending;
  operations = new_operations files;
  created_at = now;
  started_at = none;
  completed_at = none;
  error_msg = "";
  progress = 0;
  total = length files;
  priority = priority_normal;
  retry_count = 3;
  timeout = default_timeout;
  metadata = [];
}

abbrev pub job_pending : SyncJobStatus → Bool
job_pending pending = true
job_pending _ = false

abbrev pub job_running : SyncJobStatus → Bool
job_running running = true
job_running _ = false

abbrev pub job_over : SyncJobStatus → Bool
job_over completed = true
job_over failed = true
job_over cancelled = true
job_over _ = false

unfoldable pub start_job : ℕ → SyncJob → SyncJob
start_job now job =
    if job_pending job.status then record job { status = running; started_at = some now } else job

unfoldable pub complete_job : ℕ → SyncJob → SyncJob
complete_job now job =
    if job_running job.status
    then record job { status = completed; completed_at = some now }
    else job

unfoldable pub fail_job : ℕ → String → SyncJob → SyncJob
fail_job now message job =
    if job_running job.status
    then record job { status = failed; completed_at = some now; error_msg = message }
    else job

unfoldable pub cancel_job : ℕ → SyncJob → SyncJob
cancel_job now job =
    if job_pending job.status || job_running job.status
    then record job { status = cancelled; completed_at = some now }
    else job

unfoldable pub count_completed : List FileOperation → ℕ
count_completed [] = 0
count_completed (op ∷ ops) = (if is_completed op then 1 else 0) + count_completed ops

unfoldable pub update_progress : ℕ → SyncJob → SyncJob
unfolding count_completed complete_job
update_progress now job =
    let done = count_completed job.operations in
    let moved = record job { progress = done } in
    if nat_eqb done (length job.operations) && job_running job.status
    then complete_job now moved
    else moved

-- The operations that pass a test, in order.
unfoldable pub select : (FileOperation → Bool) → List FileOperation → List FileOperation
select t [] = []
select t (op ∷ ops) = let rest = select t ops in if t op then op ∷ rest else rest

unfoldable pub get_pending_operations : SyncJob → List FileOperation
unfolding select
get_pending_operations job = select (λ op. is_pending op.status) job.operations

unfoldable pub get_failed_operations : SyncJob → List FileOperation
unfolding select
get_failed_operations job = select is_failed job.operations

unfoldable pub get_running_operations : SyncJob → List FileOperation
unfolding select
get_running_operations job = select (λ op. is_running op.status) job.operations

unfoldable pub any_failed : List FileOperation → Bool
any_failed [] = false
any_failed (op ∷ ops) = is_failed op || any_failed ops

unfoldable pub has_failures : SyncJob → Bool
unfolding any_failed
has_failures job = any_failed job.operations

unfoldable pub job_is_completed : SyncJob → Bool
job_is_completed job = job_over job.status

unfoldable pub set_priority : JobPriority → SyncJob → SyncJob
set_priority p job = record job { priority = p }

unfoldable pub set_retry_count : ℕ → SyncJob → SyncJob
set_retry_count n job = record job { retry_count = n }

unfoldable pub set_timeout : ℕ → SyncJob → SyncJob
set_timeout t job = record job { timeout = t }

unfoldable pub set_metadata : String → String → SyncJob → SyncJob
set_metadata k v job = record job { metadata = insert k v job.metadata }
