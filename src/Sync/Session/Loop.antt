-- ===== src/Sync/Session/Loop.antt =====
-- The loop over the differing paths, for any condition that a step makes true of its own path.
use sync_vault.Base.{
  ◌≡◌, sym, ap, subst, ◌≢◌, String, true, false, List, [], ◌∷◌, arith, string_eq, ◌==◌, contains,
  ==-refl,
}
use sync_vault.Base.Dict.{lookup}
use sync_vault.Sync.Merkle.{Digest}
use sync_vault.Sync.Merkle.Distinct.{Distinct}
use sync_vault.Sync.State.{StateStore}
use sync_vault.Sync.Node.{Node}
use sync_vault.Sync.Engine.{ConflictStrategy, Progress, Clock, handle_path}
use sync_vault.Sync.Session.{Snapshot, handle_paths}

module _ (D : Digest) (S : StateStore) (A B : Node) (now : Clock) (strategy : ConflictStrategy)
    (m : Snapshot) where
  abbrev pub step : String → Progress S A B → Progress S A B
  step p g =
      handle_path S A B now strategy p (lookup p m.src_map) (lookup p m.dst_map)
        (lookup p m.src_states) (lookup p m.dst_states) g

  -- `Ready p g` is what a step at `p` starts from, `Post p g` what it makes true, and `Same q g g'`
  -- says that `q` was left alone.
  pub record Rule (Ready Post : String → Progress S A B → Type 0)
      (Same : String → Progress S A B → Progress S A B → Type 0) : Type 0 where
    pub same_refl : (q : String) (g : Progress S A B) → Same q g g
    pub same_trans :
        (q : String) (g g' g'' : Progress S A B) → Same q g g' → Same q g' g'' → Same q g g''
    pub ready_same : (q : String) (g g' : Progress S A B) → Same q g g' → Ready q g → Ready q g'
    pub post_same : (q : String) (g g' : Progress S A B) → Same q g g' → Post q g → Post q g'
    pub elsewhere : (p q : String) (g : Progress S A B) → Ready p g → q ≢ p → Same q g (step p g)
    pub here :
        (p : String) (g : Progress S A B)
        → Ready p g
        → (step p g).result.errors ≡ []
        → (g.result.errors ≡ []) × Post p (step p g)

  module _ (Ready Post : String → Progress S A B → Type 0)
      (Same : String → Progress S A B → Progress S A B → Type 0) (rule : Rule Ready Post Same) where
    -- Of each path: the condition, if it was handled, and nothing else if not.
    abbrev pub Handled : List String → Progress S A B → Progress S A B → Type 0
    Handled ps g g' =
        (q : String) → (contains q ps ≡ true → Post q g') × (contains q ps ≡ false → Same q g g')

    Handled-step :
        (p : String) (ps : List String) (g g'' : Progress S A B)
        → contains p ps ≡ false
        → Ready p g
        → Post p (step p g)
        → Handled ps (step p g) g''
        → Handled (p ∷ ps) g g''
    Handled-step p ps g g'' fresh ready post handled q = elim (string_eq.dec q p) [
      | yes e ↦ (
        (λ _.
            subst (λ x. Post x g'') (sym e)
              (rule.post_same p (step p g) g'' ((handled p).1 fresh) post)),
        (λ absent. absurd (ground (arith, ==-refl p, ap (λ x. x == p) e))),
      )
      | no other ↦ (
        (λ member. (handled q).0 (ground arith)),
        (λ absent.
            rule.same_trans q g (step p g) g'' (rule.elsewhere p q g ready other)
              ((handled q).1 (ground arith))),
      )
    ]

    ready_next :
        (p : String) (ps : List String) (g : Progress S A B)
        → contains p ps ≡ false
        → ((q : String) → contains q (p ∷ ps) ≡ true → Ready q g)
        → (q : String) → contains q ps ≡ true
        → Ready q (step p g)
    ready_next p ps g fresh ready q member =
        let other : q ≢ p = λ e. absurd (ground (arith, ap (λ x. contains x ps) e)) in
        rule.ready_same q g (step p g)
          (rule.elsewhere p q g (ready p (ground (arith, ==-refl p))) other)
          (ready q (ground arith))

    pub handle_paths-Handled :
        (ps : List String) (g : Progress S A B)
        → Distinct ps
        → ((q : String) → contains q ps ≡ true → Ready q g)
        → (handle_paths D S A B now strategy m ps g).result.errors ≡ []
        → (g.result.errors ≡ []) × Handled ps g (handle_paths D S A B now strategy m ps g)
    unfolding handle_paths
    handle_paths-Handled [] g u ready clean = (clean, λ q. ((λ h. cc), λ h. rule.same_refl q g))
    handle_paths-Handled (p ∷ ps) g (fresh, u) ready clean =
        let rest = handle_paths-Handled ps (step p g) u (ready_next p ps g fresh ready) clean in
        let first = ready p (ground (arith, ==-refl p)) in
        let made = rule.here p g first rest.0 in
        (
          made.0,
          Handled-step p ps g (handle_paths D S A B now strategy m ps (step p g)) fresh first made.1
              rest.1,
        )
