-- ===== src/Sync/Paths/Spellings.antt =====
-- The ways to name a path inside a clean rooted base.
use mathlib.Core.List.{reverse, reverse-reverse, append-nil}
use sync_vault.Base.{
  ◌≡◌, refl, sym, ap, ◌∙◌, String, Bool, true, false, List, [], ◌∷◌, ◌++◌, ok, arith, All,
  All-append, All-reverse, string_eq, ==-refl, ==_comm, contains,
}
use sync_vault.Sync.Paths.{
  FilePath, same_elements, enter_all, spelled, clean, is_local, strip, rel, join, resolve_relative,
  resolve_inside,
}
use sync_vault.Sync.Paths.Shape.{IsName, enter_all-reverse}

abbrev pub path : Bool → List String → FilePath
path r es = record { rooted = r; elements = es }

-- A path of names is clean.
pub enter_all_names :
    (r : Bool) (es : List String) → All IsName es → reverse (enter_all r [] es) ≡ es
enter_all_names r es names =
    let s = reverse es in
    ap (λ l. reverse (enter_all r [] l)) (sym (reverse-reverse es))
    ∙ ap reverse (enter_all-reverse r [] s (All-reverse IsName es names) ∙ append-nil s)
    ∙ reverse-reverse es

clean_rooted : (es : List String) → All IsName es → clean (path true es) ≡ path true es
unfolding clean
clean_rooted es names = ap (path true) (enter_all_names true es names)

clean_relative :
    (x : String) (es : List String)
    → All IsName (x ∷ es)
    → clean (path false (x ∷ es)) ≡ path false (x ∷ es)
unfolding clean
clean_relative x es names = ap (spelled false) (enter_all_names false (x ∷ es) names)

names_no_dots :
    (es : List String) → All IsName es → (contains "." es ≡ false) × (contains ".." es ≡ false)
names_no_dots [] h = (refl, refl)
names_no_dots (e ∷ es) h =
    let rest = names_no_dots es h.1 in
    (
      ground (arith, ==_comm e ".", rest.0, h.0.1.0),
      ground (arith, ==_comm e "..", rest.1, h.0.1.1),
    )

longer :
    (es : List String) (x : String) (ns : List String) → same_elements es (es ++ (x ∷ ns)) ≡ false
longer [] x ns = refl
longer (e ∷ es) x ns = ground (arith, longer es x ns)

strip_prefix : (es ts : List String) → strip es (es ++ ts) ≡ ([], ts)
strip_prefix [] ts = refl
strip_prefix (e ∷ es) ts = rw (==-refl e) (strip_prefix es ts)

rel_below :
    (es : List String) (x : String) (ns : List String)
    → All IsName es
    → All IsName (x ∷ ns)
    → rel (path true es) (path true (es ++ (x ∷ ns))) ≡ ok (path false (x ∷ ns))
unfolding rel
rel_below es x ns h g =
    let t = es ++ (x ∷ ns) in
    rw
      (
        enter_all_names true es h,
        enter_all_names true t (All-append IsName es (x ∷ ns) h g),
        longer es x ns,
        strip_prefix es (x ∷ ns),
      )
      refl

local_below :
    (x : String) (ns : List String) → All IsName (x ∷ ns) → is_local (path false (x ∷ ns)) ≡ true
unfolding is_local
local_below x ns g = let (a, b) = names_no_dots (x ∷ ns) g in rw (a, b, g.0.1.1) refl

resolve_names :
    (es : List String) (x : String) (ns : List String)
    → All IsName es
    → All IsName (x ∷ ns)
    → resolve_relative (path true es) (ok (path false (x ∷ ns))) ≡ ok (path true (es ++ (x ∷ ns)))
unfolding join
resolve_names es x ns h g =
    rw (clean_relative x ns g, g.0.1.0, local_below x ns g)
      (ap ok (clean_rooted (es ++ (x ∷ ns)) (All-append IsName es (x ∷ ns) h g)))

-- Inside a clean rooted base, the path of names below it, and the rooted path that begins with the
-- base, are resolved to the same: the base followed by the names.
pub resolve_inside_spellings :
    (es : List String) (x : String) (ns : List String)
    → All IsName es
    → All IsName (x ∷ ns)
    → (resolve_inside (path true es) (path false (x ∷ ns)) ≡ ok (path true (es ++ (x ∷ ns))))
      × (resolve_inside (path true es) (path true (es ++ (x ∷ ns)))
          ≡ ok (path true (es ++ (x ∷ ns))))
unfolding resolve_inside
resolve_inside_spellings es x ns h g = (
  resolve_names es x ns h g,
  ap (resolve_relative (path true es)) (rel_below es x ns h g) ∙ resolve_names es x ns h g,
)
