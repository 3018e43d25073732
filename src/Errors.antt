-- ===== src/Errors.antt =====
-- internal/errors/errors.go: errors with a code, and chains of wrapped errors. The stack that the
-- source records for a reader is left out.
pub mod Chains
use sync_vault.Base.{
  ℕ, String, Bool, true, false, List, [], ◌∷◌, Option, none, some, ◌==◌, string_eq, ◌<>◌,
  if◌then◌else◌,
}

abbrev pub code_internal : String
code_internal = "internal"

abbrev pub code_not_found : String
code_not_found = "not_found"

abbrev pub code_invalid : String
code_invalid = "invalid"

abbrev pub code_timeout : String
code_timeout = "timeout"

abbrev pub code_permission : String
code_permission = "permission"

abbrev pub code_conflict : String
code_conflict = "conflict"

abbrev pub code_rate_limit : String
code_rate_limit = "rate_limit"

abbrev pub code_unavailable : String
code_unavailable = "unavailable"

pub record AppError : Type 0 where
  pub code : String
  pub message : String
  pub error_op : String
  pub path : String

-- An error: none, one without a cause, one of `fmt.Errorf` that wraps another, and an `AppError`
-- with its cause.
pub data Error : Type 0 where
  nil : Error
  plain : String → Error
  wraps : String → Error → Error
  app : AppError → Error → Error

abbrev pub is_nil : Error → Bool
is_nil nil = true
is_nil _ = false

-- `Error`
unfoldable pub text : Error → String
text nil = ""
text (plain t) = t
text (wraps t e) = t
text (app a e) =
    let cause = text e in
    if is_nil e
    then a.error_op <> (": " <> a.message)
    else a.error_op <> (": " <> (a.message <> (": " <> cause)))

-- `Unwrap`
unfoldable pub unwrap : Error → Error
unwrap (wraps t e) = e
unwrap (app a e) = e
unwrap _ = nil

-- `Is`, for an error and a target that are both an `AppError`.
unfoldable pub is_same : AppError → Error → Bool
is_same a (app b e) = a.code == b.code
is_same a _ = false

-- `As`: the first `AppError` of the chain, with its cause.
unfoldable pub as_app : Error → Option (AppError × Error)
as_app nil = none
as_app (plain t) = none
as_app (wraps t e) = as_app e
as_app (app a e) = some (a, e)

-- The loop of `IsCode`. `As` finds the next `AppError`, and the loop goes on with its cause.
unfoldable pub is_code : Error → String → Bool
is_code nil c = false
is_code (plain t) c = false
is_code (wraps t e) c = is_code e c
is_code (app a e) c = let rest = is_code e c in if a.code == c then true else rest

unfoldable pub new : String → String → String → Error
new code op message = app (record { code = code; message = message; error_op = op; path = "" }) nil

abbrev pub path_of : Error → String
path_of (app a e) = a.path
path_of _ = ""

unfoldable pub wrap : Error → String → String → String → Error
wrap nil code op message = nil
wrap e code op message =
    app (record { code = code; message = message; error_op = op; path = path_of e }) e

unfoldable pub with_path : String → AppError → AppError
with_path path a = record a { path = path }

unfoldable pub http_status : AppError → ℕ
http_status a =
    if a.code == code_not_found
    then 404
    else if a.code == code_invalid
    then 400
    else if a.code == code_permission
    then 403
    else if a.code == code_conflict
    then 409
    else if a.code == code_rate_limit
    then 429
    else if a.code == code_unavailable
    then 503
    else if a.code == code_timeout
    then 408
    else 500
