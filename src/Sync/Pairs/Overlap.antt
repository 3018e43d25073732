-- ===== src/Sync/Pairs/Overlap.antt =====
-- When two sides on one device share a folder.
use Prim.Native.String.append
use Prim.Native.Char.{Char, code}
use sync_vault.Base.{
  ◌≡◌, ◌↔◌, refl, sym, ap, ◌∙◌, ◌⊎◌, inl, inr, String, true, ◌||◌, arith, string_eq, ◌==◌, ◌<>◌,
  ==-refl, eq_of_==, Bool-cases,
}
use text.Mathlib.TextEquality.{Char-path}
use text.Mathlib.TextLemmas.{append-nil, append_assoc}
use sync_vault.Base.Tests.{nat_eqb}
use sync_vault.Base.Text.{width, width-append, append_inj}
use sync_vault.Sync.Pairs.{PairSide, text_of, trimmed, has_prefix, shares, overlaps}

-- A path is that of the folder, or the folder's, a slash and more. The empty path is the root, which
-- holds every path.
abbrev pub Within : String → String → Type 0
Within folder x = (folder ≡ "") ⊎ (x ≡ folder) ⊎ ((rest : String) × (x ≡ folder <> ("/" <> rest)))

same_char : (c d : Char) → nat_eqb (code c) (code d) ≡ true → c ≡ d
same_char c d h = Char-path c d (ground arith)

cut_cons :
    (c d : Char) (s t u v : String)
    → String.◌∷◌ c s <> t ≡ String.◌∷◌ d u <> v
    → (c ≡ d) × (s <> t ≡ u <> v)
cut_cons c d s t u v h =
    let cut : String.◌∷◌ c (s <> t) ≡ String.◌∷◌ d (u <> v) =
      sym (append.cons c s t) ∙ h ∙ append.cons d u v in
    (cc cut, cc cut)

-- A prefix leaves a rest.
has_prefix-rest : (s p : String) → has_prefix s p ≡ true → (rest : String) × (s ≡ p <> rest)
unfolding has_prefix
has_prefix-rest s String.[] h = (s, sym (append.nil s))
has_prefix-rest String.[] (String.◌∷◌ d p) h = absurd (cc h)
has_prefix-rest (String.◌∷◌ c s) (String.◌∷◌ d p) h =
    let tail = has_prefix-rest s p (ground (arith, h)) in
    (
      tail.0,
      ap (λ k. String.◌∷◌ k s) (same_char c d (ground (arith, h)))
          ∙ ap (String.◌∷◌ d) tail.1
          ∙ sym (append.cons d p tail.0),
    )

-- Of two prefixes of a text, one is a prefix of the other.
common_prefix : (p q r t : String) → p <> r ≡ q <> t → (has_prefix p q || has_prefix q p) ≡ true
unfolding has_prefix
common_prefix p String.[] r t h = refl
common_prefix String.[] (String.◌∷◌ d q) r t h = refl
common_prefix (String.◌∷◌ c p) (String.◌∷◌ d q) r t h =
    let cut = cut_cons c d p r q t h in
    let same : code c ≡ code d = ap code cut.0 in ground (arith, same, common_prefix p q r t cut.1)

nil_of_append : (s t : String) → s <> t ≡ "" → (s ≡ "") × (t ≡ "")
nil_of_append String.[] t h = (refl, sym (append.nil t) ∙ h)
nil_of_append (String.◌∷◌ c s) t h =
    let cut : String.◌∷◌ c (s <> t) ≡ "" = sym (append.cons c s t) ∙ h in absurd (cc cut)

-- What a text and a slash begin with is the whole, or the text begins with it.
cut_slash : (s u r : String) → s <> "/" ≡ u <> r → (r ≡ "") ⊎ ((rest : String) × (s ≡ u <> rest))
cut_slash s String.[] r h = inr (s, sym (append.nil s))
cut_slash String.[] (String.◌∷◌ c u) r h =
    let cut : String.◌∷◌ "/" "" ≡ String.◌∷◌ c (u <> r) =
      sym (append.nil "/") ∙ h ∙ append.cons c u r in
    inl (nil_of_append u r (sym (cc cut))).1
cut_slash (String.◌∷◌ d s) (String.◌∷◌ c u) r h =
    let cut = cut_cons d c s "/" u r h in
    elim (cut_slash s u r cut.1) [
      | inl e ↦ inl e
      | inr (rest, e) ↦
          inr (
            rest,
            ap (λ k. String.◌∷◌ k s) cut.0 ∙ ap (String.◌∷◌ c) e ∙ sym (append.cons c u rest),
          )
    ]

-- What begins with a folder and a slash, once a slash is added, lies within the folder.
Within-of_prefix :
    (folder x : String) → has_prefix (x <> "/") (folder <> "/") ≡ true → Within folder x
unfolding width
Within-of_prefix folder x h =
    let tail = has_prefix-rest (x <> "/") (folder <> "/") h in
    elim (cut_slash x (folder <> "/") tail.0 tail.1) [
      | inr (rest, e) ↦ inr (inr (rest, e ∙ append_assoc folder "/" rest))
      | inl e ↦
          let whole : x <> "/" ≡ folder <> "/" =
            tail.1 ∙ ap (λ r. (folder <> "/") <> r) e ∙ append-nil (folder <> "/") in
          inr (
            inl
              (append_inj x "/" folder "/" whole
                (omega (arith, ap width whole, width-append x "/", width-append folder "/"))).0)
    ]

begins :
    (folder x : String)
    → (x ≡ folder) ⊎ ((rest : String) × (x ≡ folder <> ("/" <> rest)))
    → (r : String) × (x <> "/" ≡ (folder <> "/") <> r)
begins folder x (inl e) = ("", ap (λ k. k <> "/") e ∙ sym (append-nil (folder <> "/")))
begins folder x (inr (rest, e)) = (
  rest <> "/",
  ap (λ k. k <> "/") (e ∙ sym (append_assoc folder "/" rest))
      ∙ append_assoc (folder <> "/") rest "/",
)

shares-Within : (pa pb : String) → shares pa pb ≡ true → (x : String) × Within pa x × Within pb x
unfolding shares
shares-Within pa pb h = elim (Bool-cases (has_prefix (pa <> "/") (pb <> "/"))) [
  | inl q ↦ (pa, inr (inl refl), Within-of_prefix pb pa q)
  | inr q ↦ elim (Bool-cases (has_prefix (pb <> "/") (pa <> "/"))) [
    | inl q' ↦ (pb, Within-of_prefix pa pb q', inr (inl refl))
    | inr q' ↦ elim (Bool-cases (pa == pb)) [
      | inl e ↦ (pa, inr (inl refl), inr (inl (eq_of_== pa pb e)))
      | inr e ↦ elim (Bool-cases (pa == "")) [
        | inl n ↦ (pb, inl (eq_of_== pa "" n), inr (inl refl))
        | inr n ↦ elim (Bool-cases (pb == "")) [
          | inl n' ↦ (pa, inr (inl refl), inl (eq_of_== pb "" n'))
          | inr n' ↦ absurd (ground (arith, h, q, q', e, n, n'))
        ]
      ]
    ]
  ]
]

shares-of_Within : (pa pb x : String) → Within pa x → Within pb x → shares pa pb ≡ true
unfolding shares
shares-of_Within pa pb x (inl e) b =
    let off : (pa == "") ≡ true = ap (λ k. k == "") e ∙ ==-refl {A = String} "" in
    ground (arith, off)
shares-of_Within pa pb x (inr a) (inl e) =
    let off : (pb == "") ≡ true = ap (λ k. k == "") e ∙ ==-refl {A = String} "" in
    ground (arith, off)
shares-of_Within pa pb x (inr a) (inr b) =
    let r = begins pa x a in
    let t = begins pb x b in
    ground (arith, common_prefix (pa <> "/") (pb <> "/") r.0 t.0 (sym r.1 ∙ t.1))

overlaps-shares :
    (a b : PairSide)
    → a.drive ≡ ""
    → b.drive ≡ ""
    → a.device ≡ b.device
    → overlaps a b ≡ shares (trimmed (text_of a.path)) (trimmed (text_of b.path))
unfolding overlaps
overlaps-shares a b da db same =
    let a_off : a.drive == "" ≡ true = ap (λ d. d == "") da ∙ ==-refl {A = String} "" in
    let b_off : b.drive == "" ≡ true = ap (λ d. d == "") db ∙ ==-refl {A = String} "" in
    let on_one : a.device == b.device ≡ true = ap (λ d. d == b.device) same ∙ ==-refl b.device in
    rw (overlaps, a_off, b_off, on_one) refl

-- Two sides on one device overlap exactly where some path lies within both of their folders, the
-- paths of the folders being trimmed of their slashes: it is the folder's path, or begins with the
-- folder's path and a slash, and within the root, the empty path, lies every path.
pub overlaps_shared :
    (a b : PairSide)
    → a.drive ≡ ""
    → b.drive ≡ ""
    → a.device ≡ b.device
    → (overlaps a b ≡ true)
      ↔ ((x : String) × Within (trimmed (text_of a.path)) x × Within (trimmed (text_of b.path)) x)
overlaps_shared a b da db same =
    let e = overlaps-shares a b da db same in
    (
      λ h. shares-Within (trimmed (text_of a.path)) (trimmed (text_of b.path)) (sym e ∙ h),
      λ (x, inside_a, inside_b).
          e
          ∙ shares-of_Within (trimmed (text_of a.path)) (trimmed (text_of b.path)) x inside_a
              inside_b,
    )
