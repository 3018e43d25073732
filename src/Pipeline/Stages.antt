-- ===== src/Pipeline/Stages.antt =====
-- What a pipeline that `Add` builds computes.
use sync_vault.Base.{
  ℕ, suc, ◌≡◌, ◌≢◌, String, refl, sym, ap, subst, ◌∙◌, inl, inr, List, [], ◌∷◌, ◌++◌, Option, none,
  some, Result, ok, err, Result-cases, Option-cases,
}
use mathlib.Core.List.{append-nil, append_assoc}
use std.HLevel.{hedberg}
use std.Path.{subst_refl}
use sync_vault.Pipeline.{
  Program, Any, assert_type, Stage, process, Pipeline, new, universal, universal_func, add, run,
  final, execute,
}

module _ (G : Program) where
  assert_same : (t : G.Code) (x : G.Value t) → assert_type G t (t, x) ≡ some x
  unfolding assert_type
  assert_same t x = by_decision (G.code_discrete t t)
    where
      by_decision :
          (d : Dec (t ≡ t))
          → elim d [ yes same ↦ some (subst G.Value same x) | no differ ↦ none ] ≡ some x
      by_decision (yes same) =
          let looped : same ≡ refl = hedberg G.code_discrete t t same refl in
          ap (λ p. some (subst G.Value p x)) looped ∙ ap some (subst_refl G.Value x)
      by_decision (no differ) = absurd (differ refl)

  assert_other : (s t : G.Code) (x : G.Value s) → s ≢ t → assert_type G t (s, x) ≡ none
  unfolding assert_type
  assert_other s t x differ = by_decision (G.code_discrete s t)
    where
      by_decision :
          (d : Dec (s ≡ t))
          → elim d [ yes same ↦ some (subst G.Value same x) | no differ ↦ none ] ≡ none
      by_decision (yes p) = absurd (differ p)
      by_decision (no _) = refl

  lift : {n : G.Code} → Result (G.Value n) → Result (Any G)
  lift (err e) = err e
  lift (ok y) = ok (_, y)

  universal_func-process :
      {i n : G.Code} (s : Stage G i n) (ctx : G.Context) (x : G.Value i)
      → universal_func G s ctx (i, x) ≡ lift (s.fn ctx x)
  unfolding process lift
  universal_func-process {i} s ctx x =
      ap (universal G s ctx) (assert_same i x) ∙ lifted (s.fn ctx x)
    where
      lifted :
          {n : G.Code} (r : Result (G.Value n))
          → (elim r as (λ r. Result (Any G)) [ err e ↦ err e | ok y ↦ ok (n, y) ]) ≡ lift r
      lifted (err e) = refl
      lifted (ok y) = refl

  -- The stages as typed functions, with a look at the context before each.
  abbrev pub typed_run :
      {i o : G.Code}
      → G.Context
      → ℕ
      → List (Stage G i i)
      → Stage G i o
      → G.Value i
      → Result (G.Value o)
  typed_run ctx k [] last x = elim (G.done ctx k) [ some e ↦ err e | none ↦ last.fn ctx x ]
  typed_run ctx k (s ∷ ss) last x = elim (G.done ctx k) [
    | some e ↦ err e
    | none ↦ elim (s.fn ctx x) [ err e ↦ err e | ok y ↦ typed_run ctx (suc k) ss last y ]
  ]

  abbrev pub add_all : {i : G.Code} → Pipeline G i i → List (Stage G i i) → Pipeline G i i
  add_all p [] = p
  add_all p (s ∷ ss) = add_all (add G p s).1 ss

  final-lift : {o : G.Code} (r : Result (G.Value o)) → final G o (lift r) ≡ r
  unfolding lift
  final-lift (err e) = refl
  final-lift {o} (ok y) = rw (final, assert_same o y) refl

  functions :
      {i o : G.Code} → List (Stage G i i) → Stage G i o → List (G.Context → Any G → Result (Any G))
  functions [] last = universal_func G last ∷ []
  functions (s ∷ ss) last = universal_func G s ∷ functions ss last

  run-functions :
      {i o : G.Code} (ctx : G.Context) (k : ℕ) (ss : List (Stage G i i)) (last : Stage G i o)
      (x : G.Value i)
      → final G o (run G ctx k (functions ss last) (i, x)) ≡ typed_run ctx k ss last x
  unfolding functions lift
  run-functions {i} {o} ctx k [] last x = elim (Option-cases (G.done ctx k)) [
    | inr (e, d) ↦ rw (d, typed_run) refl
    | inl d ↦ elim (Result-cases (last.fn ctx x)) [
      | inr (e, q) ↦ rw (d, universal_func-process last ctx x, typed_run, q) refl
      | inl (y, q) ↦ rw (d, universal_func-process last ctx x, typed_run, q) (final-lift (ok y))
    ]
  ]
  run-functions {i} {o} ctx k (s ∷ ss) last x = elim (Option-cases (G.done ctx k)) [
    | inr (e, d) ↦ rw (d, typed_run) refl
    | inl d ↦ elim (Result-cases (s.fn ctx x)) [
      | inr (e, q) ↦ rw (d, universal_func-process s ctx x, typed_run, q) refl
      | inl (y, q) ↦
          rw (d, universal_func-process s ctx x, typed_run, q) (run-functions ctx (suc k) ss last y)
    ]
  ]

  add_all-functions :
      {i o : G.Code} (p : Pipeline G i i) (ss : List (Stage G i i)) (last : Stage G i o)
      → (add G (add_all p ss) last).1.stages ≡ p.stages ++ functions ss last
  unfolding add functions
  add_all-functions p [] last = refl
  add_all-functions p (s ∷ ss) last =
      add_all-functions (add G p s).1 ss last
      ∙ append_assoc p.stages (universal_func G s ∷ []) (functions ss last)

  -- A pipeline of concrete types, of stages that keep its type, and a last one into its result, computes what the
  -- stages compute one after the other as typed functions, with a look at the context before each:
  -- no assertion of a type fails.
  pub execute-add_all :
      {i o : G.Code} (ctx : G.Context) (ss : List (Stage G i i)) (last : Stage G i o)
      (x : G.Value i)
      → execute G (add G (add_all (new G i i) ss) last).1 ctx x ≡ typed_run ctx 0 ss last x
  unfolding execute new
  execute-add_all {i} {o} ctx ss last x =
      ap (λ fs. final G o (run G ctx 0 fs (i, x))) (add_all-functions (new G i i) ss last)
      ∙ run-functions ctx 0 ss last x

  abbrev Fails : {A : Type 0} → Result A → Type 0
  Fails r = (e : String) × (r ≡ err e)

  run-Fails_other :
      {i n o : G.Code} (ctx : G.Context) (k : ℕ) (s : Stage G i o) (y : G.Value n)
      (fs : List (G.Context → Any G → Result (Any G)))
      → n ≢ i
      → Fails (run G ctx k (universal_func G s ∷ fs) (n, y))
  run-Fails_other {i} {n} ctx k s y fs differ = elim (Option-cases (G.done ctx k)) [
    | inr (e, d) ↦ (e, rw (d, run) refl)
    | inl d ↦ ("type mismatch in pipeline stage", rw (d, run, assert_other n i y differ) refl)
  ]

  universal-Fails :
      {i n o : G.Code} (ctx : G.Context) (k : ℕ) (s : Stage G i n) (s' : Stage G i o)
      (fs : List (G.Context → Any G → Result (Any G))) (a : Option (G.Value i))
      → n ≢ i
      → Fails (elim (universal G s ctx a) as (λ r. Result (Any G)) [
        | err e ↦ err e
        | ok c ↦ run G ctx k (universal_func G s' ∷ fs) c
      ])
  universal-Fails ctx k s s' fs none differ = (_, refl)
  universal-Fails ctx k s s' fs (some x) differ = elim (Result-cases (process G s ctx x)) [
    | inr (e, q) ↦ (e, rw (universal, q) refl)
    | inl (y, q) ↦ rw (universal, q) (run-Fails_other ctx k s' y fs differ)
  ]

  run-Fails :
      {i n o : G.Code} (ctx : G.Context) (k : ℕ) (s : Stage G i n) (s' : Stage G i o)
      (fs gs : List (G.Context → Any G → Result (Any G))) (c : Any G)
      → n ≢ i
      → Fails (run G ctx k (fs ++ (universal_func G s ∷ universal_func G s' ∷ gs)) c)
  run-Fails {i} ctx k s s' [] gs c differ = elim (Option-cases (G.done ctx k)) [
    | inr (e, d) ↦ (e, rw (d, run) refl)
    | inl d ↦ rw (d) (universal-Fails ctx (suc k) s s' gs (assert_type G i c) differ)
  ]
  run-Fails ctx k s s' (f ∷ fs) gs c differ = elim (Option-cases (G.done ctx k)) [
    | inr (e, d) ↦ (e, rw (d, run) refl)
    | inl d ↦ elim (Result-cases (f ctx c)) [
      | inr (e, q) ↦ (e, rw (d, q) refl)
      | inl (c', q) ↦ rw (d, q) (run-Fails ctx (suc k) s s' fs gs c' differ)
    ]
  ]

  -- The calls of `Add` one after the other, of stages into any types.
  abbrev pub AnyStage : G.Code → Type 0
  AnyStage i = (o : G.Code) × Stage G i o

  abbrev pub add_each :
      {i : G.Code}
      → List (AnyStage i)
      → {m : G.Code} → Pipeline G i m
      → (o : G.Code) × Pipeline G i o
  add_each [] {m} p = (m, p)
  add_each ((n, s) ∷ ss) p = add_each ss (add G p s).1

  functions_of : {i : G.Code} → List (AnyStage i) → List (G.Context → Any G → Result (Any G))
  functions_of [] = []
  functions_of ((n, s) ∷ ss) = universal_func G s ∷ functions_of ss

  add_each-functions_of :
      {i : G.Code} (ss : List (AnyStage i)) {m : G.Code} (p : Pipeline G i m)
      → (add_each ss p).1.stages ≡ p.stages ++ functions_of ss
  unfolding add functions_of
  add_each-functions_of [] p = sym (append-nil p.stages)
  add_each-functions_of ((n, s) ∷ ss) p =
      add_each-functions_of ss (add G p s).1
      ∙ append_assoc p.stages (universal_func G s ∷ []) (functions_of ss)

  -- In a pipeline of concrete types where a stage that changes the type is followed by another
  -- stage, Execute returns an error on every input, whatever the stages before and after the two.
  pub execute-add_other :
      {i m n o : G.Code} (p : Pipeline G i m) (s : Stage G i n) (s' : Stage G i o)
      (rest : List (AnyStage i)) (ctx : G.Context) (x : G.Value i)
      → n ≢ i
      → (e : String) × (execute G (add_each ((n, s) ∷ (o, s') ∷ rest) p).1 ctx x ≡ err e)
  unfolding execute functions_of
  execute-add_other {i} {m} {n} {o} p s s' rest ctx x differ =
      let all : List (AnyStage i) = (n, s) ∷ (o, s') ∷ rest in
      let (e, h) = run-Fails ctx 0 s s' p.stages (functions_of rest) (i, x) differ in
      (
        e,
        ap (λ fs. final G (add_each all p).0 (run G ctx 0 fs (i, x))) (add_each-functions_of all p)
            ∙ ap (final G (add_each all p).0) h,
      )
