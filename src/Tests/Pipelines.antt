-- ===== src/Tests/Pipelines.antt =====
-- Pipelines over two types.
use sync_vault.Base.{ℕ, ◌*◌, ◌≡◌, ◌≢◌, String, Bool, true, false, [], ◌∷◌, none, ok, err}
use mathlib.Core.Bool.{Bool-discrete}
use sync_vault.Pipeline.{Program, Stage, new, add, execute}
use sync_vault.Pipeline.Stages.{add_all, add_each, execute-add_all, execute-add_other}

abbrev ValueOf : Bool → Type 0
ValueOf true = ℕ
ValueOf false = String

abbrev program : Program
program = record {
  Code = Bool;
  code_discrete = Bool-discrete;
  Value = ValueOf;
  Context = Unit;
  done = λ ctx k. none;
}

abbrev twice : Stage program true true
twice = record { fn = λ ctx x. ok (x * 2) }

abbrev describe : Stage program true false
describe = record { fn = λ ctx x. ok "a number" }

execute-add_all_example :
    execute program
      (add program (add_all program (new program true true) (twice ∷ twice ∷ [])) describe).1
      tt
      5
    ≡ ok "a number"
execute-add_all_example = execute-add_all program tt (twice ∷ twice ∷ []) describe 5

not_number : ◌≢◌ {A = Bool} false true
not_number h = cc h

execute-add_other_example :
    (e : String) × (execute program
        (add_each program
          ((false, describe) ∷ (true, twice) ∷ (true, twice) ∷ [])
          (new program true true)).1
        tt
        5
      ≡ err e)
execute-add_other_example =
    execute-add_other program (new program true true) describe twice ((true, twice) ∷ []) tt 5
      not_number
