-- ===== src/Base/Text.antt =====
-- Texts: their order, which `sort` uses, and the laws of concatenation that hashing rests on.
use Prim.Native.String.append
use Prim.Native.Char.{Char, code}
use Prim.Native.String.{String, compare, ◌++◌}
use Prim.Native.Nat.{ℕ, suc, ◌+◌}
use mathlib.Core.Path.{◌≡◌, refl, sym, ap, ◌∙◌}
use mathlib.Core.Bool.{Bool, true, false, ◌||◌}
use native.Mathlib.Omega.{arith}
use text.Mathlib.Text.{is_lt}
use text.Mathlib.TextPositions.{compare_refl}
use sync_vault.Base.Tests.{nat_eqb}

-- Go's `s < t`, in the order of code points.
unfoldable pub text_lt : String → String → Bool
text_lt s t = is_lt (compare s t)

pub text_lt_irrefl : (s : String) → text_lt s s ≡ false
unfolding text_lt
text_lt_irrefl s = rw (compare_refl s) refl

-- The number of characters.
unfoldable pub width : String → ℕ
width String.[] = 0
width (String.◌∷◌ c s) = suc (width s)

-- Whether a character stands in a text.
unfoldable pub holds : ℕ → String → Bool
holds n String.[] = false
holds n (String.◌∷◌ c s) = nat_eqb (code c) n || holds n s

pub holds-append : (n : ℕ) (s t : String) → holds n (s ++ t) ≡ (holds n s || holds n t)
unfolding holds
holds-append n String.[] t = ap (holds n) (append.nil t)
holds-append n (String.◌∷◌ c s) t =
    ap (holds n) (append.cons c s t) ∙ ground (arith, holds-append n s t)

-- A text is cut in one way after a given number of characters.
pub append_inj : (s t u v : String) → s ++ t ≡ u ++ v → width s ≡ width u → (s ≡ u) × (t ≡ v)
unfolding width
append_inj String.[] t String.[] v h w = (refl, sym (append.nil t) ∙ h ∙ append.nil v)
append_inj String.[] t (String.◌∷◌ c u) v h w = absurd (omega arith)
append_inj (String.◌∷◌ c s) t String.[] v h w = absurd (omega arith)
append_inj (String.◌∷◌ c s) t (String.◌∷◌ d u) v h w =
    let cut : String.◌∷◌ c (s ++ t) ≡ String.◌∷◌ d (u ++ v) =
      sym (append.cons c s t) ∙ h ∙ append.cons d u v in
    let rest = append_inj s t u v (cc cut) (omega arith) in (cc (cut, rest.0), rest.1)

holds_marked :
    (m : Char) (t : String) (s v : String) → t ≡ s ++ String.◌∷◌ m v → holds (code m) t ≡ true
unfolding holds
holds_marked m t s v h =
    ap (holds (code m)) h ∙ holds-append (code m) s (String.◌∷◌ m v) ∙ ground arith

-- Two texts that end in the same mark and a part without the mark are cut at it in one way.
pub mark_inj :
    (m : Char) (s t u v : String)
    → s ++ String.◌∷◌ m t ≡ u ++ String.◌∷◌ m v
    → holds (code m) t ≡ false
    → holds (code m) v ≡ false
    → (s ≡ u) × (t ≡ v)
unfolding holds
mark_inj m String.[] t String.[] v h ht hv =
    let cut : String.◌∷◌ m t ≡ String.◌∷◌ m v = sym (append.nil _) ∙ h ∙ append.nil _ in
    (refl, cc cut)
mark_inj m String.[] t (String.◌∷◌ c u) v h ht hv =
    let cut : String.◌∷◌ m t ≡ String.◌∷◌ c (u ++ String.◌∷◌ m v) =
      sym (append.nil _) ∙ h ∙ append.cons c u _ in
    absurd (ground (arith, holds_marked m t u v (cc cut)))
mark_inj m (String.◌∷◌ c s) t String.[] v h ht hv =
    let cut : String.◌∷◌ c (s ++ String.◌∷◌ m t) ≡ String.◌∷◌ m v =
      sym (append.cons c s _) ∙ h ∙ append.nil _ in
    absurd (ground (arith, holds_marked m v s t (cc cut)))
mark_inj m (String.◌∷◌ c s) t (String.◌∷◌ d u) v h ht hv =
    let cut : String.◌∷◌ c (s ++ String.◌∷◌ m t) ≡ String.◌∷◌ d (u ++ String.◌∷◌ m v) =
      sym (append.cons c s _) ∙ h ∙ append.cons d u _ in
    let rest = mark_inj m s t u v (cc cut) ht hv in (cc (cut, rest.0), rest.1)

pub width-append : (s t : String) → width (s ++ t) ≡ width s + width t
unfolding width
width-append String.[] t = omega (arith, ap width (append.nil t))
width-append (String.◌∷◌ c s) t = omega (arith, ap width (append.cons c s t), width-append s t)
