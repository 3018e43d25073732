-- ===== src/Pipeline.antt =====
-- The typed pipelines of internal/pipeline/pipeline.go, which pass values of type `any` between
-- their stages. The types are the concrete ones of a program, where an assertion asks for equality.
pub mod Stages
use sync_vault.Base.{
  ℕ, suc, ◌≡◌, subst, String, List, [], ◌∷◌, ◌++◌, Option, none, some, Result, ok, err,
}

-- Codes of types with the values of each; a context tells at each look whether it is done.
pub record Program : Type 1 where
  pub Code : Type 0
  pub code_discrete : Discrete Code
  pub Value : Code → Type 0
  pub Context : Type 0
  pub done : Context → ℕ → Option String

module _ (G : Program) where
  abbrev pub Any : Type 0
  Any = (t : G.Code) × G.Value t

  -- `input.(T)`, of a concrete type `T`: the dynamic type is the very type.
  unfoldable pub assert_type : (t : G.Code) → Any → Option (G.Value t)
  assert_type t (s, x) = elim (G.code_discrete s t) [
    | yes same ↦ some (subst G.Value same x)
    | no differ ↦ none
  ]

  pub record Stage (i o : G.Code) : Type 0 where
    pub fn : G.Context → G.Value i → Result (G.Value o)

  unfoldable pub new_stage :
      {i o : G.Code} → (G.Context → G.Value i → Result (G.Value o)) → Stage i o
  new_stage f = record { fn = f }

  unfoldable pub process : {i o : G.Code} → Stage i o → G.Context → G.Value i → Result (G.Value o)
  process s ctx x = s.fn ctx x

  pub record Pipeline (i o : G.Code) : Type 0 where
    pub stages : List (G.Context → Any → Result Any)

  unfoldable pub new : (i o : G.Code) → Pipeline i o
  new i o = record { stages = [] }

  abbrev pub universal : {i n : G.Code} → Stage i n → G.Context → Option (G.Value i) → Result Any
  universal s ctx none = err "type mismatch in pipeline stage"
  universal s ctx (some x) = elim (process s ctx x) [ err e ↦ err e | ok y ↦ ok (_, y) ]

  abbrev pub universal_func : {i n : G.Code} → Stage i n → G.Context → Any → Result Any
  universal_func s ctx input = universal s ctx (assert_type _ input)

  -- The given pipeline after the call, which gets the stage too, and the one that is returned.
  unfoldable pub add : {i o n : G.Code} → Pipeline i o → Stage i n → Pipeline i o × Pipeline i n
  unfolding process assert_type
  add p s =
      let stages' = p.stages ++ (universal_func s ∷ []) in
      (record { stages = stages' }, record { stages = stages' })

  -- The loop of `Execute`: the k-th look at the context comes before the k-th stage.
  abbrev pub run : G.Context → ℕ → List (G.Context → Any → Result Any) → Any → Result Any
  run ctx k [] current = ok current
  run ctx k (f ∷ fs) current = elim (G.done ctx k) [
    | some e ↦ err e
    | none ↦ elim (f ctx current) [ err e ↦ err e | ok result ↦ run ctx (suc k) fs result ]
  ]

  abbrev pub final : (o : G.Code) → Result Any → Result (G.Value o)
  final o (err e) = err e
  final o (ok current) = elim (assert_type o current) [
    | none ↦ err "final type mismatch in pipeline"
    | some y ↦ ok y
  ]

  unfoldable pub execute :
      {i o : G.Code} → Pipeline i o → G.Context → G.Value i → Result (G.Value o)
  unfolding assert_type
  execute p ctx x = final _ (run ctx 0 p.stages (_, x))
