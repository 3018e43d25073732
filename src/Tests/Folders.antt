-- ===== src/Tests/Folders.antt =====
-- Paths of files and folders.
use sync_vault.Base.{◌≡◌, refl, inl, true, false, [], ◌∷◌, ok, err, string_eq}
use sync_vault.Sync.Paths.{FilePath, resolve_inside, outside, clean, rel, join, is_local}
use sync_vault.Sync.Paths.Shape.{IsName}
use sync_vault.Sync.Paths.Inside.{Inside, resolve-Inside}
use sync_vault.Sync.Paths.Spellings.{path, resolve_inside_spellings}

abbrev home : FilePath
home = path true ("home" ∷ "ann" ∷ [])

steps_out : resolve_inside home (path false ("a" ∷ ".." ∷ ".." ∷ "b" ∷ [])) ≡ err outside
unfolding resolve_inside clean rel join is_local string_eq
steps_out = refl

steps_back :
    resolve_inside home (path false ("a" ∷ ".." ∷ "b" ∷ []))
    ≡ ok (path true ("home" ∷ "ann" ∷ "b" ∷ []))
unfolding resolve_inside clean rel join is_local string_eq
steps_back = refl

resolve-Inside_example : Inside home (path true ("home" ∷ "ann" ∷ "b" ∷ []))
resolve-Inside_example =
    resolve-Inside home (path false ("a" ∷ ".." ∷ "b" ∷ [])) (path true ("home" ∷ "ann" ∷ "b" ∷ []))
      (inl steps_back)

home-IsName : IsName "home"
unfolding string_eq
home-IsName = (refl, (refl, refl))

ann-IsName : IsName "ann"
unfolding string_eq
ann-IsName = (refl, (refl, refl))

resolve_inside_spellings_example :
    (resolve_inside home (path false ("ann" ∷ [])) ≡ ok (path true ("home" ∷ "ann" ∷ "ann" ∷ [])))
    × (resolve_inside home (path true ("home" ∷ "ann" ∷ "ann" ∷ []))
        ≡ ok (path true ("home" ∷ "ann" ∷ "ann" ∷ [])))
resolve_inside_spellings_example =
    resolve_inside_spellings ("home" ∷ "ann" ∷ []) "ann" [] (home-IsName, (ann-IsName, tt))
      (ann-IsName, tt)
