-- ===== src/Errors/Chains.antt =====
-- Codes along chains of wrapped errors.
use sync_vault.Base.{
  ◌≡◌, ◌≢◌, refl, String, true, false, ◌||◌, Option, none, some, arith, ◌==◌, string_eq, ==-refl,
}
use sync_vault.Errors.{AppError, Error, nil, plain, wraps, app, as_app, is_code, wrap}

-- Wrapping an error that is not nil adds its code and hides none of the codes below it.
pub is_code-wrap :
    (e : Error) (code op message c : String)
    → e ≢ nil
    → is_code (wrap e code op message) c ≡ (code == c || is_code e c)
unfolding wrap is_code
is_code-wrap nil code op message c h = absurd (h refl)
is_code-wrap (plain t) code op message c h = ground arith
is_code-wrap (wraps t e) code op message c h = ground arith
is_code-wrap (app a e) code op message c h = ground arith

-- What the answer of `As` means for `IsCode`.
abbrev pub Agrees : Error → Option (AppError × Error) → Type 0
Agrees e none = (c : String) → is_code e c ≡ false
Agrees e (some (a, rest)) =
    (is_code e a.code ≡ true) × ((c : String) → is_code e c ≡ (a.code == c || is_code rest c))

wraps-Agrees :
    (t : String) (e : Error) (o : Option (AppError × Error)) → Agrees e o → Agrees (wraps t e) o
unfolding is_code
wraps-Agrees t e none h = h
wraps-Agrees t e (some (a, rest)) h = h

-- Where `As` finds nothing the error has no code at all. Where it finds an error with a code,
-- `IsCode` answers that code, and else what it answers for the cause of that error.
pub as_app-Agrees : (e : Error) → Agrees e (as_app e)
unfolding as_app is_code
as_app-Agrees nil = λ c. refl
as_app-Agrees (plain t) = λ c. refl
as_app-Agrees (wraps t e) = wraps-Agrees t e (as_app e) (as_app-Agrees e)
as_app-Agrees (app a e) = (ground (arith, ==-refl a.code), λ c. ground arith)
