-- ===== src/Sync/Pairs/Creating.antt =====
-- What a created pair is: its sides are checked, and do not overlap.
use sync_vault.Base.{
  ℕ, ◌≡◌, ◌≢◌, ◌⊎◌, refl, sym, subst, inl, inr, String, true, false, List, Option, none, some,
  Result, ok, err, arith, string_eq, ◌==◌, ◌<>◌, eq_of_==, Bool-cases, Result-cases,
}
use sync_vault.Sync.Paths.{FilePath}
use sync_vault.Sync.Paths.Inside.{Inside, resolve-Inside}
use sync_vault.Sync.Registry.{NodeInfo, info_of}
use sync_vault.Sync.Pairs.{
  PairSide, Pair, Surroundings, Dirs, dirs, no_folder, unreachable, local_device, is_empty_path,
  set_path, local_dir, validate_drive, validate_local, validate_agent, validate_path, agent_path,
  clean_given, asked, validate_side, overlaps, PairStore, create,
}

ok_inj : {A : Type 0} {a b : A} → ok a ≡ ok b → a ≡ b
ok_inj h = cc h

module _ (W : Surroundings) where
  -- A side is a Drive folder that was checked, a folder of this computer inside the root that is there, or
  -- a folder of a registered device that its agent lists.
  pub data Checked (side : PairSide) : Type 0 where
    on_drive :
        (check : PairSide → Result {0} Unit)
        → W.drive ≡ some check
        → check side ≡ ok tt
        → side.user_id ≢ ""
        → Checked side
    on_disk :
        side.device ≡ local_device
        → Inside W.local_root side.path
        → W.is_dir side.path ≡ true
        → Checked side
    on_device :
        (info : NodeInfo) (ds : List String)
        → info_of side.device W.devices ≡ some info
        → W.list_dirs info side.path ≡ dirs ds
        → Checked side

  drive-Checked :
      (side side' : PairSide) (o : Option (PairSide → Result {0} Unit))
      → W.drive ≡ o
      → validate_drive W side o ≡ ok side'
      → Checked side'
  drive-Checked side side' none d h = absurd (cc h)
  drive-Checked side side' (some check) d h = elim (Bool-cases (side.user_id == "")) [
    | inl u ↦ absurd (ground (arith, h, u))
    | inr u ↦ elim (Result-cases (check side)) [
      | inr (e, c) ↦ absurd (ground (arith, h, u, c))
      | inl (tt, c) ↦
          subst Checked (ground (arith, h, u, c)) (on_drive check d c (λ e. ground (arith, u, e)))
    ]
  ]

  local-Checked :
      (side side' : PairSide) (r : Result FilePath)
      → side.device ≡ local_device
      → ((p : FilePath) → r ≡ ok p → Inside W.local_root p)
      → validate_local W side r ≡ ok side'
      → Checked side'
  local-Checked side side' (err e) d inside h = absurd (cc h)
  local-Checked side side' (ok p) d inside h = elim (Bool-cases (W.is_dir p)) [
    | inr n ↦ absurd (ground (arith, h, n))
    | inl y ↦ subst Checked (ground (arith, h, y)) (placed y)
  ]
    where
      placed : W.is_dir p ≡ true → Checked (set_path side p)
      placed y = on_disk d (inside p refl) y

  local_dir-Inside : (p q : FilePath) → local_dir W p ≡ ok q → Inside W.local_root q
  unfolding local_dir
  local_dir-Inside p q h = elim (Bool-cases (is_empty_path W.local_root)) [
    | inl e ↦ absurd (ground (arith, h, e))
    | inr e ↦ resolve-Inside W.local_root p q (inl (ground (arith, h, e)))
  ]

  asked-Checked :
      (side side' : PairSide) (info : NodeInfo) (r : Dirs)
      → info_of side.device W.devices ≡ some info
      → W.list_dirs info side.path ≡ r
      → asked W side r ≡ ok side'
      → Checked side'
  asked-Checked side side' info (dirs ds) known q h =
      subst Checked (ok_inj h) (on_device info ds known q)
  asked-Checked side side' info no_folder known q h = absurd (cc h)
  asked-Checked side side' info (unreachable e) known q h = absurd (cc h)

  path-Checked :
      (side side' : PairSide) (info : NodeInfo) (r : Result FilePath)
      → info_of side.device W.devices ≡ some info
      → validate_path W side info r ≡ ok side'
      → Checked side'
  path-Checked side side' info (err e) known h = absurd (cc h)
  path-Checked side side' info (ok p) known h =
      asked-Checked (set_path side (clean_given W p)) side' info _ known refl h

  agent-Checked :
      (side side' : PairSide) (o : Option NodeInfo)
      → info_of side.device W.devices ≡ o
      → validate_agent W side o ≡ ok side'
      → Checked side'
  agent-Checked side side' none known h = absurd (cc h)
  agent-Checked side side' (some info) known h =
      path-Checked side side' info (agent_path W info side.path) known h

  validate_side-Checked : (side side' : PairSide) → validate_side W side ≡ ok side' → Checked side'
  unfolding validate_side
  validate_side-Checked side side' h = elim (Bool-cases (side.drive == "")) [
    | inr d ↦ elim (Bool-cases (side.device == "")) [
      | inr e ↦ absurd (ground (arith, h, d, e))
      | inl e ↦ drive-Checked side side' W.drive refl (ground (arith, h, d, e))
    ]
    | inl d ↦ elim (Bool-cases (side.device == "")) [
      | inl e ↦ absurd (ground (arith, h, d, e))
      | inr e ↦ elim (Bool-cases (side.device == local_device)) [
        | inl l ↦
            local-Checked side side' (local_dir W side.path) (eq_of_== side.device local_device l)
              (local_dir-Inside side.path) (ground (arith, h, d, e, l))
        | inr l ↦
            agent-Checked side side' (info_of side.device W.devices) refl
              (ground (arith, h, d, e, l))
      ]
    ]
  ]

module _ (W : Surroundings) (P : PairStore) where
  -- The pair that is stored.
  pub record Stored (p : Pair) (s : P.State) (r : P.State × Result ℕ) : Type 0 where
    pub side_a : PairSide
    pub side_b : PairSide
    pub checked_a : Checked W side_a
    pub checked_b : Checked W side_b
    pub apart : overlaps side_a side_b ≡ false
    pub stored : P.create_pair s (record p { a = side_a; b = side_b; last_status = "pending" }) ≡ r

  -- Create leaves the table as it is, and returns an error, or it hands the table the given pair as
  -- pending, on two sides that were checked and do not overlap: a side of this computer lies inside its
  -- root and is there.
  pub create_outcome :
      (p : Pair) (s : P.State)
      → ((e : String) × (create W P p s ≡ (s, err e))) ⊎ Stored p s (create W P p s)
  unfolding create
  create_outcome p s = elim (Result-cases (validate_side W p.a)) [
    | inr (e, q) ↦ inl ("side a: " <> e, rw (create, q) refl)
    | inl (a, q) ↦ elim (Result-cases (validate_side W p.b)) [
      | inr (e, q') ↦ inl ("side b: " <> e, rw (create, q, q') refl)
      | inl (b, q') ↦ elim (Bool-cases (overlaps a b)) [
        | inl o ↦ inl (
          "sides point to the same folder or one is inside the other",
          rw (create, q, q', o) refl,
        )
        | inr o ↦ inr (record {
          side_a = a;
          side_b = b;
          checked_a = validate_side-Checked W p.a a q;
          checked_b = validate_side-Checked W p.b b q';
          apart = o;
          stored = sym (rw (create, q, q', o) refl);
        })
      ]
    ]
  ]
