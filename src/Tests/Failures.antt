-- ===== src/Tests/Failures.antt =====
-- A chain of wrapped errors: the code of an inner error is found through the wrapping.
use sync_vault.Base.{◌≡◌, refl, true, false, string_eq}
use sync_vault.Errors.{Error, plain, wraps, is_code, wrap, code_not_found, code_timeout}

abbrev lost : Error
lost = wraps "reading: no rows" (plain "no rows")

abbrev chained : Error
chained = wraps "sync" (wrap lost code_not_found "load" "file")

inner_code : is_code chained code_not_found ≡ true
unfolding is_code wrap string_eq
inner_code = refl

no_other_code : is_code chained code_timeout ≡ false
unfolding is_code wrap string_eq
no_other_code = refl
