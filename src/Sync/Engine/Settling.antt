-- ===== src/Sync/Engine/Settling.antt =====
-- Handling a path without an error leaves both nodes with the same file there.
use sync_vault.Base.{
  ◌≡◌, refl, sym, ◌∙◌, subst, inl, inr, String, Option, none, some, arith, Option-cases, Bool-cases,
  ltb,
}
use sync_vault.Sync.Clock.{Relation, before, after, equal, concurrent}
use sync_vault.Sync.Files.{FileEntry, hash_of}
use sync_vault.Sync.State.{FileState, StateStore, deleted_on_other}
use sync_vault.Sync.Node.{Node, Fault, IsLawful}
use sync_vault.Sync.Engine.{
  ConflictStrategy, keep_newest, keep_source, keep_both, other_strategy, Progress, Clock, push,
  pull, report, delete_source, delete_target, resolve_conflict, record_conflict, by_relation,
  on_both, handle_path, Resolution,
}
use sync_vault.Sync.Engine.Views.{
  Handles, push-Copies, pull-Copies, report-Copies, append-ne-nil, Copies,
}

-- The strategies that leave one version of a file.
abbrev pub Converging : ConflictStrategy → Type 0
Converging keep_newest = Unit
Converging keep_source = Unit
Converging keep_both = ⊥
Converging other_strategy = ⊥

-- An entry of the map stands under its own path.
abbrev pub HasPath : String → Option FileEntry → Type 0
HasPath p none = Unit
HasPath p (some f) = f.path ≡ p

module _ (S : StateStore) (A B : Node) (H : String → String) (LA : IsLawful A H) (LB : IsLawful B H)
    (now : Clock) where
  delete_source-Handles :
      (p : String) (src dst : Option FileState) (g : Progress S A B)
      → LB.view g.target p ≡ none
      → Handles S A B H LA LB now p g (delete_source S A B now p src dst g)
  unfolding delete_source
  delete_source-Handles p src dst g gone = elim (Option-cases (A.delete_file g.source p).1) [
    | inl e ↦
        rw (e, delete_source)
          (
            (λ clean. (clean, LA.delete g.source p e ∙ sym gone)),
            (λ q ne. (LA.delete_elsewhere g.source p q ne, refl)),
          )
    | inr (x, e) ↦
        rw (e, delete_source)
          (
            (λ clean. absurd (append-ne-nil g.result.errors _ clean)),
            (λ q ne. (LA.delete_elsewhere g.source p q ne, refl)),
          )
  ]

  delete_target-Handles :
      (p : String) (src dst : Option FileState) (g : Progress S A B)
      → LA.view g.source p ≡ none
      → Handles S A B H LA LB now p g (delete_target S A B now p src dst g)
  unfolding delete_target
  delete_target-Handles p src dst g gone = elim (Option-cases (B.delete_file g.target p).1) [
    | inl e ↦
        rw (e, delete_target)
          (
            (λ clean. (clean, gone ∙ sym (LB.delete g.target p e))),
            (λ q ne. (refl, LB.delete_elsewhere g.target p q ne)),
          )
    | inr (x, e) ↦
        rw (e, delete_target)
          (
            (λ clean. absurd (append-ne-nil g.result.errors _ clean)),
            (λ q ne. (refl, LB.delete_elsewhere g.target p q ne)),
          )
  ]

  report-push :
      (p : String) (f : FileEntry) (src dst : Option FileState) (g : Progress S A B)
      → f.path ≡ p
      → Handles S A B H LA LB now p g (report S A B now p (push S A B now f src dst g))
  report-push p f src dst g own =
      subst (λ q. Handles S A B H LA LB now q g (report S A B now q (push S A B now f src dst g)))
        own (report-Copies S A B H LA LB now f g _ (push-Copies S A B H LA LB now f src dst g))

  report-pull :
      (p : String) (f : FileEntry) (src dst : Option FileState) (g : Progress S A B)
      → f.path ≡ p
      → Handles S A B H LA LB now p g (report S A B now p (pull S A B now f src dst g))
  report-pull p f src dst g own =
      subst (λ q. Handles S A B H LA LB now q g (report S A B now q (pull S A B now f src dst g)))
        own (report-Copies S A B H LA LB now f g _ (pull-Copies S A B H LA LB now f src dst g))

  conflict-Copies :
      (f : FileEntry) (g : Progress S A B) (r : Progress S A B × Option Fault) (w : Resolution)
      → Copies S A B H LA LB now f g r
      → Handles S A B H LA LB now f.path g (record_conflict S A B now f.path (r.0, r.1, w))
  unfolding record_conflict
  conflict-Copies f g (g', none) w (agree, keeps, same) =
      (λ clean. (ground arith, agree refl), keeps)
  conflict-Copies f g (g', some x) w (agree, keeps, same) =
      (λ clean. absurd (append-ne-nil g'.result.errors _ clean), keeps)

  conflict_push :
      (p : String) (f : FileEntry) (src dst : Option FileState) (w : Resolution)
      (g : Progress S A B)
      → f.path ≡ p
      → let r = push S A B now f src dst g in
        Handles S A B H LA LB now p g (record_conflict S A B now p (r.0, r.1, w))
  conflict_push p f src dst w g own =
      subst
        (λ q.
          let r = push S A B now f src dst g in
          Handles S A B H LA LB now q g (record_conflict S A B now q (r.0, r.1, w)))
        own (conflict-Copies f g _ w (push-Copies S A B H LA LB now f src dst g))

  conflict_pull :
      (p : String) (f : FileEntry) (src dst : Option FileState) (w : Resolution)
      (g : Progress S A B)
      → f.path ≡ p
      → let r = pull S A B now f src dst g in
        Handles S A B H LA LB now p g (record_conflict S A B now p (r.0, r.1, w))
  conflict_pull p f src dst w g own =
      subst
        (λ q.
          let r = pull S A B now f src dst g in
          Handles S A B H LA LB now q g (record_conflict S A B now q (r.0, r.1, w)))
        own (conflict-Copies f g _ w (pull-Copies S A B H LA LB now f src dst g))

  conflict-Handles :
      (strategy : ConflictStrategy)
      → Converging strategy
      → (p : String) (f h : FileEntry) (src dst : FileState) (g : Progress S A B) → f.path ≡ p
      → h.path ≡ p
      → Handles S A B H LA LB now p g
          (record_conflict S A B now p (resolve_conflict S A B now strategy f h src dst g))
  unfolding resolve_conflict
  conflict-Handles keep_newest c p f h src dst g fp hp =
      elim (Bool-cases (ltb dst.updated_at src.updated_at)) [
        | inl e ↦ rw (e, resolve_conflict) (conflict_push p f _ _ _ g fp)
        | inr e ↦ rw (e, resolve_conflict) (conflict_pull p h _ _ _ g hp)
      ]
  conflict-Handles keep_source c p f h src dst g fp hp = conflict_push p f _ _ _ g fp
  conflict-Handles keep_both c p f h src dst g fp hp = absurd c
  conflict-Handles other_strategy c p f h src dst g fp hp = absurd c

  by_relation-Handles :
      (strategy : ConflictStrategy)
      → Converging strategy
      → (r : Relation) (p : String) (f h : FileEntry) (src dst : FileState) (g : Progress S A B)
      → f.path ≡ p
      → h.path ≡ p
      → Handles S A B H LA LB now p g (by_relation S A B now strategy r p f h src dst g)
  unfolding by_relation
  by_relation-Handles strategy c after p f h src dst g fp hp = report-push p f _ _ g fp
  by_relation-Handles strategy c equal p f h src dst g fp hp = report-push p f _ _ g fp
  by_relation-Handles strategy c before p f h src dst g fp hp = report-pull p h _ _ g hp
  by_relation-Handles strategy c concurrent p f h src dst g fp hp =
      conflict-Handles strategy c p f h src dst g fp hp

  on_both-Handles :
      (strategy : ConflictStrategy)
      → Converging strategy
      → (p : String) (f h : FileEntry) (src dst : Option FileState) (g : Progress S A B)
      → f.path ≡ p
      → h.path ≡ p
      → Handles S A B H LA LB now p g (on_both S A B now strategy p f h src dst g)
  unfolding on_both
  on_both-Handles strategy c p f h (some src) (some dst) g fp hp =
      by_relation-Handles strategy c _ p f h _ _ g fp hp
  on_both-Handles strategy c p f h none dst g fp hp = report-push p f _ _ g fp
  on_both-Handles strategy c p f h (some src) none g fp hp = report-push p f _ _ g fp

  -- The nodes still are at `p` as they were listed.
  abbrev pub Listed : String → Option FileEntry → Option FileEntry → Progress S A B → Type 0
  Listed p f h g = (LA.view g.source p ≡ hash_of f) × (LB.view g.target p ≡ hash_of h)

  pub handle_path-Handles :
      (strategy : ConflictStrategy)
      → Converging strategy
      → (p : String) (f h : Option FileEntry) (src dst : Option FileState) (g : Progress S A B)
      → HasPath p f
      → HasPath p h
      → Listed p f h g
      → Handles S A B H LA LB now p g (handle_path S A B now strategy p f h src dst g)
  unfolding handle_path
  handle_path-Handles strategy c p none none src dst g fp hp l =
      (λ clean. (clean, l.0 ∙ sym l.1), λ q ne. (refl, refl))
  handle_path-Handles strategy c p (some f) none src dst g fp hp l =
      elim (Bool-cases (deleted_on_other dst src f)) [
        | inl e ↦ rw (e, handle_path) (delete_source-Handles p src dst g l.1)
        | inr e ↦ rw (e, handle_path) (report-push p f src dst g fp)
      ]
  handle_path-Handles strategy c p none (some h) src dst g fp hp l =
      elim (Bool-cases (deleted_on_other src dst h)) [
        | inl e ↦ rw (e, handle_path) (delete_target-Handles p src dst g l.0)
        | inr e ↦ rw (e, handle_path) (report-pull p h src dst g hp)
      ]
  handle_path-Handles strategy c p (some f) (some h) src dst g fp hp l =
      on_both-Handles strategy c p f h src dst g fp hp
