-- ===== src/Sync/Paths/Shape.antt =====
-- The form of the stack of elements that Clean works on, the last element first: names, over steps up
-- at its bottom where the path is not rooted.
use mathlib.Core.List.{reverse, reverse-cons}
use sync_vault.Base.{
  ◌≡◌, ◌⊎◌, refl, sym, ap, subst, ◌∙◌, inl, inr, String, Bool, true, false, List, [], ◌∷◌, ◌++◌,
  arith, All, string_eq, ◌==◌, ==-refl, ==_comm, if_elim, contains, Bool-cases,
}
use sync_vault.Sync.Paths.{back, enter, enter_all, leads_up}

-- The name of a file or folder.
abbrev pub IsName : String → Type 0
IsName e = (e == "" ≡ false) × ((e == "." ≡ false) × (e == ".." ≡ false))

-- Names, and below them steps up alone.
abbrev pub Cleaned : List String → Type 0
Cleaned [] = Unit
Cleaned (e ∷ s) = (IsName e × Cleaned s) ⊎ ((e ≡ "..") × All (λ x. x ≡ "..") s)

ups-Cleaned : (s : List String) → All (λ x. x ≡ "..") s → Cleaned s
ups-Cleaned [] h = tt
ups-Cleaned (e ∷ s) h = inr h

back-Cleaned : (rooted : Bool) (s : List String) → Cleaned s → Cleaned (back rooted s)
back-Cleaned true [] h = tt
back-Cleaned false [] h = inr (refl, tt)
back-Cleaned rooted (e ∷ s) (inl (name, rest)) = rw (name.1.1) rest
back-Cleaned rooted (e ∷ s) (inr (up, rest)) =
    if_elim Cleaned (e == "..") (inr (refl, (up, rest))) (ups-Cleaned s rest)

enter-Cleaned :
    (rooted : Bool) (s : List String) (e : String) → Cleaned s → Cleaned (enter rooted s e)
enter-Cleaned rooted s e h = elim (Bool-cases (e == "")) [
  | inl a ↦ rw (a) h
  | inr a ↦ elim (Bool-cases (e == ".")) [
    | inl b ↦ rw (a, b) h
    | inr b ↦ elim (Bool-cases (e == "..")) [
      | inl c ↦ rw (a, b, c) (back-Cleaned rooted s h)
      | inr c ↦ rw (a, b, c) (inl ((a, (b, c)), h))
    ]
  ]
]

pub enter_all-Cleaned :
    (rooted : Bool) (s es : List String) → Cleaned s → Cleaned (enter_all rooted s es)
enter_all-Cleaned rooted s [] h = h
enter_all-Cleaned rooted s (e ∷ es) h =
    enter_all-Cleaned rooted (enter rooted s e) es (enter-Cleaned rooted s e h)

pub enter_all-append :
    (rooted : Bool) (s xs ys : List String)
    → enter_all rooted s (xs ++ ys) ≡ enter_all rooted (enter_all rooted s xs) ys
enter_all-append rooted s [] ys = refl
enter_all-append rooted s (x ∷ xs) ys = enter_all-append rooted (enter rooted s x) xs ys

pub enter_name :
    (rooted : Bool) (s : List String) (e : String) → IsName e → enter rooted s e ≡ e ∷ s
enter_name rooted s e (a, (b, c)) = rw (a, b, c) refl

-- Names are entered as they stand.
pub enter_all-reverse :
    (rooted : Bool) (b s : List String) → All IsName s → enter_all rooted b (reverse s) ≡ s ++ b
enter_all-reverse rooted b [] h = refl
enter_all-reverse rooted b (e ∷ s) (name, names) =
    ap (enter_all rooted b) (reverse-cons e s)
    ∙ enter_all-append rooted b (reverse s) (e ∷ [])
    ∙ ap (λ x. enter rooted x e) (enter_all-reverse rooted b s names)
    ∙ enter_name rooted (s ++ b) e name

enter_dots : (s : List String) → All (λ x. x ≡ "..") s → enter false s ".." ≡ ".." ∷ s
unfolding string_eq
enter_dots [] h = refl
enter_dots (x ∷ s) h = subst (λ y. enter false (y ∷ s) ".." ≡ ".." ∷ y ∷ s) (sym h.0) refl

enter_up :
    (s : List String) (e : String) → e ≡ ".." → All (λ x. x ≡ "..") s → enter false s e ≡ e ∷ s
enter_up s e up h = subst (λ y. enter false s y ≡ y ∷ s) (sym up) (enter_dots s h)

-- A clean path that is not rooted is cleaned to itself.
pub enter_all-reverse-Cleaned : (s : List String) → Cleaned s → enter_all false [] (reverse s) ≡ s
enter_all-reverse-Cleaned [] h = refl
enter_all-reverse-Cleaned (e ∷ s) h =
    ap (enter_all false []) (reverse-cons e s)
    ∙ enter_all-append false [] (reverse s) (e ∷ [])
    ∙ ap (λ x. enter false x e) (enter_all-reverse-Cleaned s (rest h))
    ∙ entered h
  where
    rest : Cleaned (e ∷ s) → Cleaned s
    rest (inl (name, h)) = h
    rest (inr (up, h)) = ups-Cleaned s h

    entered : Cleaned (e ∷ s) → enter false s e ≡ e ∷ s
    entered (inl (name, h)) = enter_name false s e name
    entered (inr (up, h)) = enter_up s e up h

leads_up-append :
    (xs : List String) (y : String) (zs : List String)
    → leads_up ((xs ++ (y ∷ [])) ++ zs) ≡ leads_up (xs ++ (y ∷ []))
leads_up-append [] y zs = refl
leads_up-append (x ∷ xs) y zs = refl

leads_up-reverse :
    (e x : String) (s : List String) → leads_up (reverse (e ∷ x ∷ s)) ≡ leads_up (reverse (x ∷ s))
leads_up-reverse e x s =
    ap leads_up (reverse-cons e (x ∷ s))
    ∙ ap (λ l. leads_up (l ++ (e ∷ []))) (reverse-cons x s)
    ∙ leads_up-append (reverse s) x (e ∷ [])
    ∙ ap leads_up (sym (reverse-cons x s))

-- A clean path that does not begin with a step up has none at all.
pub Cleaned-leads_up : (s : List String) → Cleaned s → leads_up (reverse s) ≡ false → All IsName s
Cleaned-leads_up [] h up = tt
Cleaned-leads_up (e ∷ []) (inl (name, h)) up = (name, tt)
Cleaned-leads_up (e ∷ []) (inr (is_up, h)) up = absurd (ground (arith, up, is_up, ==-refl e))
Cleaned-leads_up (e ∷ x ∷ s) (inl (name, h)) up =
    (name, Cleaned-leads_up (x ∷ s) h (sym (leads_up-reverse e x s) ∙ up))
Cleaned-leads_up (e ∷ x ∷ s) (inr (is_up, h)) up =
    let names =
      Cleaned-leads_up (x ∷ s) (ups-Cleaned (x ∷ s) h) (sym (leads_up-reverse e x s) ∙ up) in
    absurd (ground (arith, names.0.1.1, h.0, ==-refl x))

pub names-Cleaned : (s : List String) → All IsName s → Cleaned s
names-Cleaned [] h = tt
names-Cleaned (e ∷ s) h = inl (h.0, names-Cleaned s h.1)

dots_no_name : {A : Type 0} → IsName ".." → A
dots_no_name name =
    let self : (◌==◌ {A = String} ".." "..") ≡ true = ==-refl {A = String} ".." in
    absurd (ground (arith, name.1.1, self))

back-names : (s : List String) → Cleaned s → All IsName (back false s) → All IsName s
back-names [] h names = tt
back-names (e ∷ s) (inl (name, h)) names = (name, subst (All IsName) (rw (name.1.1) refl) names)
back-names (e ∷ s) (inr (up, h)) names =
    let c : e == ".." ≡ true = ap (λ x. x == "..") up ∙ ==-refl {A = String} ".." in
    let found : All IsName (".." ∷ e ∷ s) =
      subst (All IsName) {y = ".." ∷ e ∷ s} (rw (c) refl) names in
    dots_no_name found.0

-- Where names alone are left, there were names alone before.
enter-names :
    (s : List String) (e : String) → Cleaned s → All IsName (enter false s e) → All IsName s
enter-names s e h = elim (Bool-cases (e == "")) [
  | inl a ↦ rw (a) (λ n. n)
  | inr a ↦ elim (Bool-cases (e == ".")) [
    | inl b ↦ rw (a, b) (λ n. n)
    | inr b ↦ elim (Bool-cases (e == "..")) [
      | inl c ↦ rw (a, b, c) (back-names s h)
      | inr c ↦ rw (a, b, c) (λ n. n.1)
    ]
  ]
]

back-above :
    (r : Bool) (b s : List String)
    → All IsName s
    → All IsName (back false s)
    → back r (s ++ b) ≡ back false s ++ b
back-above r b [] h names = dots_no_name names.0
back-above r b (x ∷ s) h names = rw (h.0.1.1) refl

pub enter_all-names :
    (s es : List String) → Cleaned s → All IsName (enter_all false s es) → All IsName s
enter_all-names s [] h names = names
enter_all-names s (e ∷ es) h names =
    enter-names s e h (enter_all-names (enter false s e) es (enter-Cleaned false s e h) names)

enter-above :
    (r : Bool) (b s : List String) (e : String)
    → All IsName s
    → All IsName (enter false s e)
    → enter r (s ++ b) e ≡ enter false s e ++ b
enter-above r b s e h = elim (Bool-cases (e == "")) [
  | inl x ↦ rw (x) (λ n. refl)
  | inr x ↦ elim (Bool-cases (e == ".")) [
    | inl y ↦ rw (x, y) (λ n. refl)
    | inr y ↦ elim (Bool-cases (e == "..")) [
      | inl c ↦ rw (x, y, c) (back-above r b s h)
      | inr c ↦ rw (x, y, c) (λ n. refl)
    ]
  ]
]

-- Elements that leave names alone do so above every stack.
pub enter_all-above :
    (r : Bool) (b s es : List String)
    → All IsName s
    → All IsName (enter_all false s es)
    → enter_all r (s ++ b) es ≡ enter_all false s es ++ b
enter_all-above r b s [] h names = refl
enter_all-above r b s (e ∷ es) h names =
    let c = enter-Cleaned false s e (names-Cleaned s h) in
    let before = enter_all-names (enter false s e) es c names in
    ap (λ t. enter_all r t es) (enter-above r b s e h before)
    ∙ enter_all-above r b (enter false s e) es before names

-- Elements without dots leave names alone.
pub enter_all-no_dots :
    (s es : List String)
    → contains "." es ≡ false
    → contains ".." es ≡ false
    → All IsName s
    → All IsName (enter_all false s es)
enter_all-no_dots s [] h h' names = names
enter_all-no_dots s (e ∷ es) h h' names =
    let a : e == "." ≡ false = ground (arith, h, ==_comm e ".") in
    let b : e == ".." ≡ false = ground (arith, h', ==_comm e "..") in
    enter_all-no_dots (enter false s e) es (ground (arith, h)) (ground (arith, h'))
      (elim (Bool-cases (e == "")) [
        | inl c ↦ rw (c) names
        | inr c ↦ rw (c, a, b) ((c, (a, b)), names)
      ])
