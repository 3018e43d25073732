-- ===== src/Domain/Operations.antt =====
-- FileOperation of internal/domain/aggregates/syncjob.go: one file of a job, with its attempts.
pub mod Attempts
use sync_vault.Base.{
  ℕ, ◌+◌, String, Bool, true, false, not, ◌&&◌, ◌||◌, List, [], ◌∷◌, Option, none, some, ltb, leb,
  if◌then◌else◌,
}

pub data OperationStatus : Type 0 where
  pending running completed failed skipped : OperationStatus

-- Times and identifiers are numbers and texts that the caller hands in.
pub record FileOperation : Type 0 where
  pub id : String
  pub file_id : String
  pub operation : String
  pub status : OperationStatus
  pub started_at : Option ℕ
  pub completed_at : Option ℕ
  pub error_msg : String
  pub attempts : ℕ
  pub max_attempts : ℕ

unfoldable pub new_file_operation : String → String → String → FileOperation
new_file_operation id file_id operation = record {
  id = id;
  file_id = file_id;
  operation = operation;
  status = pending;
  started_at = none;
  completed_at = none;
  error_msg = "";
  attempts = 0;
  max_attempts = 3;
}

abbrev pub is_pending : OperationStatus → Bool
is_pending pending = true
is_pending _ = false

abbrev pub is_running : OperationStatus → Bool
is_running running = true
is_running _ = false

abbrev pub is_failed_status : OperationStatus → Bool
is_failed_status failed = true
is_failed_status _ = false

unfoldable pub start : ℕ → FileOperation → FileOperation
start now op =
    if is_pending op.status
    then record op { status = running; started_at = some now; attempts = op.attempts + 1 }
    else op

unfoldable pub complete : ℕ → FileOperation → FileOperation
complete now op =
    if is_running op.status then record op { status = completed; completed_at = some now } else op

unfoldable pub fail : ℕ → String → FileOperation → FileOperation
fail now message op =
    if is_running op.status
    then record op {
      status = failed;
      error_msg = message;
      completed_at = if leb op.max_attempts op.attempts then some now else op.completed_at;
    }
    else op

unfoldable pub can_retry : FileOperation → Bool
can_retry op = is_failed_status op.status && ltb op.attempts op.max_attempts

unfoldable pub retry : FileOperation → FileOperation
retry op =
    if is_failed_status op.status && ltb op.attempts op.max_attempts
    then record op { status = pending; error_msg = "" }
    else op

unfoldable pub skip : ℕ → String → FileOperation → FileOperation
skip now reason op = record op { status = skipped; completed_at = some now; error_msg = reason }

abbrev pub completed_or_skipped : OperationStatus → Bool
completed_or_skipped completed = true
completed_or_skipped skipped = true
completed_or_skipped _ = false

unfoldable pub is_completed : FileOperation → Bool
is_completed op = completed_or_skipped op.status

unfoldable pub is_failed : FileOperation → Bool
is_failed op = is_failed_status op.status && leb op.max_attempts op.attempts
