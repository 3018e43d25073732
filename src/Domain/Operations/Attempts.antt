-- ===== src/Domain/Operations/Attempts.antt =====
-- Whatever is done to an operation, it makes at most its number of attempts, and its time of
-- completion tells whether it is over.
use sync_vault.Base.{
  ℕ, ◌≤◌, ◌<◌, ◌≡◌, refl, String, Bool, true, false, ◌&&◌, ◌||◌, List, [], ◌∷◌, Option, none, some,
  arith, leb,
}
use sync_vault.Domain.Operations.{
  FileOperation, OperationStatus, new_file_operation, is_pending, is_running, is_failed_status,
  completed_or_skipped, start, complete, fail, retry, skip, is_completed, is_failed,
}

-- The methods that change an operation, with the time of the call.
pub data Call : Type 0 where
  starts completes : ℕ → Call
  fails skips : ℕ → String → Call
  retries : Call

unfoldable pub apply : Call → FileOperation → FileOperation
unfolding start complete fail skip retry
apply (starts now) op = start now op
apply (completes now) op = complete now op
apply (fails now m) op = fail now m op
apply (skips now m) op = skip now m op
apply retries op = retry op

unfoldable pub apply_all : List Call → FileOperation → FileOperation
unfolding apply
apply_all [] op = op
apply_all (c ∷ cs) op = apply_all cs (apply c op)

abbrev pub is_some {ℓ} : {A : Type ℓ} → Option A → Bool
is_some none = false
is_some (some a) = true

-- Over: completed, skipped, or failed with no attempt left.
abbrev pub over : OperationStatus → ℕ → ℕ → Bool
over status attempts max =
    completed_or_skipped status || (is_failed_status status && leb max attempts)

pub record IsSound (op : FileOperation) : Type 0 where
  pub bounded : op.attempts ≤ op.max_attempts
  pub open_attempt : is_pending op.status ≡ true → op.attempts < op.max_attempts
  pub tried : is_running op.status ≡ true → 0 < op.attempts
  pub timed : is_some op.completed_at ≡ over op.status op.attempts op.max_attempts

new_file_operation-IsSound : (i f o : String) → IsSound (new_file_operation i f o)
unfolding new_file_operation
new_file_operation-IsSound i f o = record {
  bounded = omega arith;
  open_attempt = λ h. omega arith;
  tried = λ h. cc;
  timed = refl;
}

apply-IsSound : (c : Call) (op : FileOperation) → IsSound op → IsSound (apply c op)
unfolding apply
apply-IsSound (starts now) op v = ground arith
apply-IsSound (completes now) op v = ground arith
apply-IsSound (fails now m) op v = ground arith
apply-IsSound (skips now m) op v = ground arith
apply-IsSound retries op v = ground arith

-- The invariant holds after any calls, starting from any operation where it holds.
apply_all-IsSound : (cs : List Call) (op : FileOperation) → IsSound op → IsSound (apply_all cs op)
unfolding apply_all
apply_all-IsSound [] op v = v
apply_all-IsSound (c ∷ cs) op v = apply_all-IsSound cs (apply c op) (apply-IsSound c op v)

-- After any calls on a new operation: no more attempts were made than its limit, a pending one has
-- an attempt left, a running one has made one, and it has a time of completion exactly when it is
-- completed, skipped, or failed with no attempt left.
pub new_file_operation-IsSound_after :
    (i f o : String) (cs : List Call) → IsSound (apply_all cs (new_file_operation i f o))
new_file_operation-IsSound_after i f o cs =
    apply_all-IsSound cs (new_file_operation i f o) (new_file_operation-IsSound i f o)

-- Only skipping moves an operation that is completed, skipped or out of attempts.
abbrev pub is_skip : Call → Bool
is_skip (skips now m) = true
is_skip _ = false

-- An operation that is over stays as it is under every call but `Skip`.
pub apply_over :
    (c : Call) (op : FileOperation)
    → is_completed op || is_failed op ≡ true
    → is_skip c ≡ false
    → apply c op ≡ op
unfolding apply is_completed is_failed
apply_over (starts now) op h n = ground arith
apply_over (completes now) op h n = ground arith
apply_over (fails now m) op h n = ground arith
apply_over (skips now m) op h n = cc
apply_over retries op h n = ground arith
