-- ===== src/Sync/Paths/Inside.antt =====
-- What ResolveInside gives: a path inside the base, or an error.
use mathlib.Core.List.{reverse, reverse-append}
use sync_vault.Base.{
  ◌≡◌, ◌⊎◌, refl, sym, ap, subst, ◌∙◌, inl, inr, String, Bool, true, false, ◌||◌, List, [], ◌∷◌,
  ◌++◌, Result, ok, err, arith, All, All-reverse, string_eq, eq_of_==, if◌then◌else◌, if_elim,
  contains, Bool-cases,
}
use sync_vault.Sync.Paths.{
  FilePath, empty_path, current_dir, same_path, same_elements, enter_all, spelled, clean, leads_up,
  is_local, rel, join, resolve_local, resolve_relative, resolve_inside, simple_resolve,
}
use sync_vault.Sync.Paths.Shape.{
  IsName, Cleaned, enter_all-append, enter_all-Cleaned, enter_all-reverse-Cleaned, Cleaned-leads_up,
  enter_all-above, enter_all-no_dots, names-Cleaned,
}

-- The elements of a path once it is cleaned, none for the current folder.
abbrev pub cleaned : FilePath → List String
cleaned p = reverse (enter_all p.rooted [] p.elements)

-- The base itself, or the cleaned base followed by names.
abbrev pub Inside : FilePath → FilePath → Type 0
Inside base p =
    (p ≡ base)
    ⊎ ((ns : List String) × All IsName ns × (p ≡ spelled base.rooted (cleaned base ++ ns)))

same_elements_eq : (xs ys : List String) → same_elements xs ys ≡ true → xs ≡ ys
same_elements_eq [] [] h = refl
same_elements_eq [] (y ∷ ys) h = absurd (cc h)
same_elements_eq (x ∷ xs) [] h = absurd (cc h)
same_elements_eq (x ∷ xs) (y ∷ ys) h = ground (arith, h, same_elements_eq xs ys, eq_of_== x y)

abbrev relative : List String → FilePath
relative es = record { rooted = false; elements = es }

-- Cleaning a cleaned relative path changes nothing.
clean_again :
    (s : List String) → Cleaned s → clean (relative (reverse s)) ≡ spelled false (reverse s)
unfolding clean
clean_again s h = ap (λ t. spelled false (reverse t)) (enter_all-reverse-Cleaned s h)

not_up :
    (s : List String) (x : String) (l : List String)
    → x ∷ l ≡ reverse s
    → Cleaned s
    → is_local (relative (x ∷ l)) ≡ true
    → leads_up (x ∷ l) ≡ false
unfolding is_local
not_up s x l q h local =
    let again : clean (relative (x ∷ l)) ≡ relative (x ∷ l) =
      subst (λ m. clean (relative m) ≡ spelled false m) (sym q) (clean_again s h) in
    elim (Bool-cases (contains "." (x ∷ l) || contains ".." (x ∷ l))) [
      | inl c ↦ ground (arith, local, c, ap (λ p. leads_up p.elements) again)
      | inr c ↦ ground (arith, local, c)
    ]

spelled_names :
    (rooted : Bool) (s l : List String)
    → l ≡ reverse s
    → Cleaned s
    → same_path (spelled rooted l) current_dir ≡ false
    → is_local (spelled rooted l) ≡ true
    → All IsName s × (spelled rooted l ≡ relative l)
unfolding is_local string_eq
spelled_names true s l q h dot local = absurd (cc local)
spelled_names false s [] q h dot local = absurd (cc dot)
spelled_names false s (x ∷ l) q h dot local =
    (Cleaned-leads_up s h (ap leads_up (sym q) ∙ not_up s x l q h local), refl)

join_all :
    (r : Bool) (es ps : List String)
    → All IsName (enter_all false [] ps)
    → clean (record { rooted = r; elements = es ++ ps })
      ≡ spelled r (reverse (enter_all r [] es) ++ reverse (enter_all false [] ps))
unfolding clean
join_all r es ps names =
    ap (λ t. spelled r (reverse t))
      (enter_all-append r [] es ps ∙ enter_all-above r (enter_all r [] es) [] ps tt names)
    ∙ ap (spelled r) (reverse-append (enter_all false [] ps) (enter_all r [] es))

-- A join with elements that leave names alone stays inside.
join-Inside :
    (r : Bool) (es ps : List String)
    → All IsName (enter_all false [] ps)
    → Inside
        (record { rooted = r; elements = es })
        (join (record { rooted = r; elements = es }) (relative ps))
unfolding join
join-Inside true es ps names = inr (_, All-reverse IsName _ names, join_all true es ps names)
join-Inside false (x ∷ es) ps names =
    inr (_, All-reverse IsName _ names, join_all false (x ∷ es) ps names)
join-Inside false [] ps names =
    if_elim (Inside empty_path) (same_elements ps []) (inl refl)
      (inr (_, All-reverse IsName _ names, join_all false [] ps names))

resolve_local-Inside : (base p q : FilePath) → resolve_local base (clean p) ≡ ok q → Inside base q
unfolding clean
resolve_local-Inside base p q h = elim (Bool-cases (same_path (clean p) current_dir)) [
  | inl c ↦ inl (ground (arith, h, c))
  | inr c ↦ elim (Bool-cases (is_local (clean p))) [
    | inr l ↦ absurd (ground (arith, h, c, l))
    | inl l ↦
        let s = enter_all p.rooted [] p.elements in
        let (names, q') =
          spelled_names p.rooted s (reverse s) refl (enter_all-Cleaned p.rooted [] p.elements tt) c
            l in
        let joined : q ≡ join base (clean p) = ground (arith, h, c, l) in
        subst (Inside base) (sym (joined ∙ ap (join base) q')) (
          join-Inside base.rooted base.elements (reverse s)
            (subst (All IsName) (sym (enter_all-reverse-Cleaned s (names-Cleaned s names))) names))
  ]
]

resolve_relative-Inside :
    (base q : FilePath) (r : Result FilePath) → resolve_relative base r ≡ ok q → Inside base q
resolve_relative-Inside base q (err e) h = absurd (cc h)
resolve_relative-Inside base q (ok p) h = resolve_local-Inside base p q h

resolve_inside-Inside : (base p q : FilePath) → resolve_inside base p ≡ ok q → Inside base q
unfolding resolve_inside
resolve_inside-Inside base p q h = elim (Bool-cases (same_path p empty_path)) [
  | inl e ↦ inl (ground (arith, h, e))
  | inr e ↦
      resolve_relative-Inside base q (if p.rooted then rel base p else ok p) (ground (arith, h, e))
]

spelled_up :
    (s l : List String)
    → l ≡ reverse s
    → Cleaned s
    → leads_up (spelled false l).elements ≡ false
    → All IsName s
spelled_up s [] q h up = Cleaned-leads_up s h (ap leads_up (sym q))
spelled_up s (x ∷ l) q h up = Cleaned-leads_up s h (ap leads_up (sym q) ∙ up)

-- The elements of a local path leave names alone, and never go above their start.
local_stack :
    (p : FilePath)
    → is_local p ≡ true
    → (p.rooted ≡ false) × All IsName (enter_all false [] p.elements)
unfolding is_local clean
local_stack p local =
    let flat : p.rooted ≡ false = ground (arith, local) in
    let s = enter_all false [] p.elements in
    let h = enter_all-Cleaned false [] p.elements tt in
    (
      flat,
      elim (Bool-cases (contains "." p.elements || contains ".." p.elements)) [
        | inl c ↦
            let up : leads_up (spelled false (reverse s)).elements ≡ false =
              subst
                (λ r. leads_up (spelled r (reverse (enter_all r [] p.elements))).elements ≡ false)
                flat (ground (arith, local, c)) in
            spelled_up s (reverse s) refl h up
        | inr c ↦ enter_all-no_dots [] p.elements (ground (arith, c)) (ground (arith, c)) tt
      ],
    )

simple_resolve-Inside : (root p q : FilePath) → simple_resolve root p ≡ ok q → Inside root q
unfolding simple_resolve
simple_resolve-Inside root p q h = elim (Bool-cases (is_local p)) [
  | inr l ↦ absurd (ground (arith, h, l))
  | inl l ↦
      let (flat, names) = local_stack p l in
      let joined : q ≡ join root p = ground (arith, h, l) in
      subst (Inside root) (sym joined) (
        subst (λ r. Inside root (join root (record { rooted = r; elements = p.elements })))
          (sym flat) (join-Inside root.rooted root.elements p.elements names))
]

-- A path that ResolveInside, or resolve of SimpleStorage, returns is the base, or the base followed by
-- names of files and folders: no step up leads out of it, whatever the base and the given path.
pub resolve-Inside :
    (base p q : FilePath)
    → (resolve_inside base p ≡ ok q) ⊎ (simple_resolve base p ≡ ok q)
    → Inside base q
resolve-Inside base p q (inl h) = resolve_inside-Inside base p q h
resolve-Inside base p q (inr h) = simple_resolve-Inside base p q h
