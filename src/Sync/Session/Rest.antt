-- ===== src/Sync/Session/Rest.antt =====
-- A synchronisation of nodes that agree has nothing to do.
use sync_vault.Base.{
  ◌≡◌, refl, sym, ap, ◌∙◌, subst, ◌⊎◌, inl, inr, String, false, List, [], ◌∷◌, arith, string_eq,
  contains, ==-refl,
}
use sync_vault.Sync.Files.{hash_at}
use sync_vault.Sync.Merkle.{Digest, build_merkle_tree, diff}
use sync_vault.Sync.Merkle.Diff.{contains-diff, differ, differ_self}
use sync_vault.Sync.State.{StateStore}
use sync_vault.Sync.Node.{Node, IsLawful}
use sync_vault.Sync.Engine.{ConflictStrategy, Progress, no_result, Clock}
use sync_vault.Sync.Session.{Snapshot, snapshot, handle_paths, sync, done}
use sync_vault.Sync.Session.Inversion.{sync_trees-handle_paths, sync-eq-done}
use sync_vault.Sync.Session.Convergence.{Clash, sync_converges}
use sync_vault.Sync.Engine.Settling.{Converging}

nil_of_absent : (ps : List String) → ((p : String) → contains p ps ≡ false) → ps ≡ []
nil_of_absent [] h = refl
nil_of_absent (p ∷ ps) h = absurd (ground (arith, h p, ==-refl p))

module _ (D : Digest) (S : StateStore) (A B : Node) (H : String → String) (LA : IsLawful A H)
    (LB : IsLawful B H) (now : Clock) (strategy : ConflictStrategy) where
  -- Nothing was copied, deleted or reported, and the nodes are as they were.
  abbrev pub Idle : A.State → B.State → Progress S A B → Type 0
  Idle a b g = (g.result ≡ no_result) × (g.source ≡ a) × (g.target ≡ b)

  Idle-of_nil :
      (ps : List String) (m : Snapshot) (s : S.Store) (a : A.State) (b : B.State)
      → ps ≡ []
      → Idle a b (
          handle_paths D S A B now strategy m ps
            (record { store = s; source = a; target = b; result = no_result }))
  unfolding handle_paths
  Idle-of_nil [] m s a b h = (refl, refl, refl)
  Idle-of_nil (p ∷ ps) m s a b h = cc

  -- Where both nodes have the same files, `Sync` copies and deletes nothing and meets no conflict
  -- and no error, or else texts that are hashed for their files collide.
  pub sync_of_agreeing :
      (s : S.Store) (a : A.State) (b : B.State) (g : Progress S A B)
      → ((p : String) → LA.view a p ≡ LB.view b p)
      → sync D S A B now strategy s a b ≡ done g
      → Idle a b g ⊎ Clash D A B a b
  sync_of_agreeing s a b g same e =
      let (fs, gs, la, lb, w) = sync-eq-done D S A B now strategy s a b g e in
      elim (contains-diff D fs gs (LA.listed a fs la) (LB.listed b gs lb) (LA.listed_hex a fs la)
        (LB.listed_hex b gs lb)) [
          | inr c ↦ inr (fs, gs, la, lb, c)
          | inl exact ↦
              let m = snapshot D S A B now strategy fs gs s in
              let ps = diff D (build_merkle_tree D fs) (build_merkle_tree D gs) in
              let alike : (p : String) → hash_at p fs ≡ hash_at p gs =
                λ p. LA.listed_view a fs la p ∙ same p ∙ sym (LB.listed_view b gs lb p) in
              let absent : (p : String) → contains p ps ≡ false = λ p.
                exact p
                ∙ ap (λ o. differ o (hash_at p gs)) (alike p)
                ∙ differ_self (hash_at p gs) in
              inl (
                subst (Idle a b)
                  (sym (sync_trees-handle_paths D S A B now strategy fs gs m s a b) ∙ w)
                  (Idle-of_nil ps m _ a b (nil_of_absent ps absent)))
        ]

  -- After a synchronisation without errors a second one, under any state of the store, any clock
  -- and any strategy, has nothing to do, or else a text hashed for the files of the one node and a
  -- different text hashed for those of the other have the same digest, at the first or at the second
  -- synchronisation. The strategy of the first is `KeepNewest` or `KeepSource`, and the nodes keep
  -- their contracts, which leave no colon in the hash of a file.
  pub sync_twice :
      Converging strategy
      → (s s' : S.Store) (a : A.State) (b : B.State) (g g' : Progress S A B)
      → sync D S A B now strategy s a b ≡ done g
      → g.result.errors ≡ []
      → sync D S A B now strategy s' g.source g.target ≡ done g'
      → Idle g.source g.target g' ⊎ Clash D A B a b ⊎ Clash D A B g.source g.target
  sync_twice converging s s' a b g g' e clean e' =
      elim (sync_converges D S A B H LA LB now strategy converging s a b g e clean) [
        | inr c ↦ inr (inl c)
        | inl same ↦ elim (sync_of_agreeing s' g.source g.target g' same e') [
          | inl idle ↦ inl idle
          | inr c ↦ inr (inr c)
        ]
      ]
