-- ===== src/Tests/Jobs.antt =====
-- A job of two files.
use sync_vault.Base.{◌≡◌, refl, String, true, ◌||◌, List, [], ◌∷◌}
use sync_vault.Domain.Operations.{
  FileOperation, new_file_operation, start, complete, is_completed, is_failed,
}
use sync_vault.Domain.Operations.Attempts.{
  Call, apply, apply_all, new_file_operation-IsSound_after, apply_over,
}
use sync_vault.Domain.Operations.Attempts
use sync_vault.Domain.Jobs.{
  SyncJob, running, new_sync_job, new_operations, start_job, cancel_job, update_progress,
  count_completed, job_is_completed,
}
use sync_vault.Domain.Jobs.Lifecycle.{
  JobCall, call, call_all, apply_at, AllCompleted, new_sync_job-IsSound_after, call_all_over,
  update_progress-completed,
}
use sync_vault.Domain.Jobs.Lifecycle

abbrev failed_once : List Call
failed_once = Call.starts 1 ∷ Call.fails 2 "disk full" ∷ Call.retries ∷ []

new_file_operation-IsSound_after_example :
    Attempts.IsSound (apply_all failed_once (new_file_operation "o" "f" "sync"))
new_file_operation-IsSound_after_example =
    new_file_operation-IsSound_after "o" "f" "sync" failed_once

abbrev copied : FileOperation
copied = apply_all (Call.starts 1 ∷ Call.completes 2 ∷ []) (new_file_operation "o" "f" "sync")

copied_over : is_completed copied || is_failed copied ≡ true
unfolding apply_all apply start complete new_file_operation is_completed is_failed
copied_over = refl

abbrev two_files : List (String × String)
two_files = ("o1", "f1") ∷ ("o2", "f2") ∷ []

abbrev fresh : SyncJob
fresh = new_sync_job "j" 0 "a" "b" two_files

abbrev work : List JobCall
work =
    JobCall.starts 1
    ∷ JobCall.on_operation 0 (Call.starts 2)
    ∷ JobCall.on_operation 0 (Call.completes 3)
    ∷ JobCall.updates 4
    ∷ []

new_sync_job-IsSound_after_example : Lifecycle.IsSound (call_all work fresh)
new_sync_job-IsSound_after_example = new_sync_job-IsSound_after "j" 0 "a" "b" two_files work

abbrev stopped : SyncJob
stopped = call_all (JobCall.cancels 5 ∷ []) fresh

stopped_over : job_is_completed stopped ≡ true
unfolding call_all call cancel_job new_sync_job job_is_completed
stopped_over = refl

abbrev worked : SyncJob
worked = call_all work fresh

worked_running : worked.status ≡ running
unfolding call_all call start_job new_sync_job new_operations apply_at apply start complete
    new_file_operation is_completed update_progress count_completed
worked_running = refl
