-- ===== src/Sync/Engine/Views.antt =====
-- What the actions of the engine leave on the two nodes.
use sync_vault.Base.{
  ◌≡◌, refl, sym, ◌≢◌, ◌⊎◌, inl, inr, String, List, [], ◌∷◌, ◌++◌, Option, none, some, arith,
  Option-cases,
}
use sync_vault.Sync.Files.{FileEntry}
use sync_vault.Sync.State.{FileState, StateStore, update_state}
use sync_vault.Sync.Node.{Node, Result, ok, err, Fault, IsLawful, transfer}
use sync_vault.Sync.Engine.{Progress, Clock, push, pull, report, recording}

pub append-ne-nil {ℓ} : {A : Type ℓ} (xs : List A) (x : A) → xs ++ (x ∷ []) ≢ []
append-ne-nil [] x h = cc
append-ne-nil (y ∷ ys) x h = cc

pub Result-cases {ℓ} :
    {A : Type ℓ} (r : Result A) → ((a : A) × (r ≡ ok a)) ⊎ ((e : String) × (r ≡ err e))
Result-cases (ok a) = inl (a, refl)
Result-cases (err e) = inr (e, refl)

module _ (H : String → String) (From To : Node) (L : IsLawful From H) (M : IsLawful To H) where
  -- A copy that succeeds leaves the same hash on both nodes.
  pub transfer_view :
      (s : From.State) (t : To.State) (p : String)
      → (transfer From To s t p).1 ≡ none
      → M.view (transfer From To s t p).0 p ≡ L.view s p
  unfolding transfer
  transfer_view s t p h = elim (Result-cases (From.read_file s p)) [
    | inr (e, r) ↦ absurd (ground arith)
    | inl (c, r) ↦ ground (arith, M.write t p c, L.read s p c r)
  ]

  -- Other paths keep their files, also where it fails.
  pub transfer_elsewhere :
      (s : From.State) (t : To.State) (p q : String)
      → q ≢ p
      → M.view (transfer From To s t p).0 q ≡ M.view t q
  unfolding transfer
  transfer_elsewhere s t p q ne = elim (Result-cases (From.read_file s p)) [
    | inr (e, r) ↦ ground arith
    | inl (c, r) ↦ ground (arith, M.write_elsewhere t p c q ne)
  ]

module _ (S : StateStore) (A B : Node) (H : String → String) (LA : IsLawful A H) (LB : IsLawful B H)
    (now : Clock) where
  abbrev pub Clean : Progress S A B → Type 0
  Clean g = g.result.errors ≡ []

  -- No error is taken back, and without a new one both nodes have the same at `p`.
  abbrev pub Settles : String → Progress S A B → Progress S A B → Type 0
  Settles p g g' = Clean g' → Clean g × (LA.view g'.source p ≡ LB.view g'.target p)

  -- Paths other than `p` keep their files.
  abbrev pub Keeps : String → Progress S A B → Progress S A B → Type 0
  Keeps p g g' =
      (q : String)
      → q ≢ p
      → (LA.view g'.source q ≡ LA.view g.source q) × (LB.view g'.target q ≡ LB.view g.target q)

  -- A copy ends in one of two ways.
  pub push_elim :
      (P : Progress S A B × Option Fault → Type 0) (f : FileEntry) (src dst : Option FileState)
      (g : Progress S A B)
      → let (t, e) = transfer A B g.source g.target f.path in
        ((fault : Fault) → P (record g { target = t }, some fault))
        → (e ≡ none
            → P (
              record g {
                target = t;
                store = update_state S g.store A.id B.id f src dst (now f.path recording);
              },
              none,
            ))
        → P (push S A B now f src dst g)
  unfolding push
  push_elim P f src dst g failed copied =
      elim (Option-cases (transfer A B g.source g.target f.path).1) [
        | inl e ↦ rw (e, push) (copied e)
        | inr (x, e) ↦ rw (e, push) (failed x)
      ]

  pub pull_elim :
      (P : Progress S A B × Option Fault → Type 0) (f : FileEntry) (src dst : Option FileState)
      (g : Progress S A B)
      → let (s, e) = transfer B A g.target g.source f.path in
        ((fault : Fault) → P (record g { source = s }, some fault))
        → (e ≡ none
            → P (
              record g {
                source = s;
                store = update_state S g.store B.id A.id f dst src (now f.path recording);
              },
              none,
            ))
        → P (pull S A B now f src dst g)
  unfolding pull
  pull_elim P f src dst g failed copied =
      elim (Option-cases (transfer B A g.target g.source f.path).1) [
        | inl e ↦ rw (e, pull) (copied e)
        | inr (x, e) ↦ rw (e, pull) (failed x)
      ]

  -- A copy that succeeds settles its path, whatever becomes of the result.
  abbrev pub Copies : FileEntry → Progress S A B → Progress S A B × Option Fault → Type 0
  Copies f g r =
      (r.1 ≡ none → LA.view r.0.source f.path ≡ LB.view r.0.target f.path)
      × Keeps f.path g r.0
      × (r.0.result ≡ g.result)

  pub push-Copies :
      (f : FileEntry) (src dst : Option FileState) (g : Progress S A B)
      → Copies f g (push S A B now f src dst g)
  push-Copies f src dst g =
      push_elim (Copies f g) f src dst g
        (λ x. ((λ h. cc), (λ q ne. (refl, transfer_elsewhere H A B LA LB _ _ _ q ne)), refl))
        (λ e. (
          (λ h. sym (transfer_view H A B LA LB _ _ _ e)),
          (λ q ne. (refl, transfer_elsewhere H A B LA LB _ _ _ q ne)),
          refl,
        ))

  pub pull-Copies :
      (f : FileEntry) (src dst : Option FileState) (g : Progress S A B)
      → Copies f g (pull S A B now f src dst g)
  pull-Copies f src dst g =
      pull_elim (Copies f g) f src dst g
        (λ x. ((λ h. cc), (λ q ne. (transfer_elsewhere H B A LB LA _ _ _ q ne, refl)), refl))
        (λ e. (
          (λ h. transfer_view H B A LB LA _ _ _ e),
          (λ q ne. (transfer_elsewhere H B A LB LA _ _ _ q ne, refl)),
          refl,
        ))

  -- The outcome of handling a path.
  abbrev pub Handles : String → Progress S A B → Progress S A B → Type 0
  Handles p g g' = Settles p g g' × Keeps p g g'

  pub report-Copies :
      (f : FileEntry) (g : Progress S A B) (r : Progress S A B × Option Fault)
      → Copies f g r
      → Handles f.path g (report S A B now f.path r)
  unfolding report
  report-Copies f g (g', none) (agree, keeps, same) = (λ clean. (ground arith, agree refl), keeps)
  report-Copies f g (g', some x) (agree, keeps, same) =
      (λ clean. absurd (append-ne-nil g'.result.errors _ clean), keeps)
