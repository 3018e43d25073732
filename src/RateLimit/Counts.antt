-- ===== src/RateLimit/Counts.antt =====
-- How many times of a list lie in a window, as the list changes.
use sync_vault.Base.{
  ℤ, pos, negsuc, difference, ℕ, suc, ◌+◌, ◌-◌, ◌≤◌, ◌<◌, ◌≡◌, refl, inl, inr, Bool, true, false,
  ◌&&◌, List, [], ◌∷◌, arith, length, ltb, leb, if◌then◌else◌, Bool-cases,
}
use sync_vault.RateLimit.{above, place}

-- Whether a time lies in the window that ends at `t`.
abbrev pub within : ℕ → ℕ → ℕ → ℕ
within window t x = if leb x t && ltb t (x + window) then 1 else 0

unfoldable pub count_within : ℕ → ℕ → List ℕ → ℕ
count_within window t [] = 0
count_within window t (x ∷ xs) = within window t x + count_within window t xs

pub count_within-le : (window t : ℕ) (xs : List ℕ) → count_within window t xs ≤ length xs
unfolding count_within
count_within-le window t [] = omega arith
count_within-le window t (x ∷ xs) = ground (arith, count_within-le window t xs)

pub count_within-place :
    (window t x : ℕ) (xs : List ℕ)
    → count_within window t (place x xs) ≡ within window t x + count_within window t xs
unfolding count_within place
count_within-place window t x [] = refl
count_within-place window t x (y ∷ ys) = ground (arith, count_within-place window t x ys)

pub length-place : (x : ℕ) (xs : List ℕ) → length (place x xs) ≡ suc (length xs)
unfolding place
length-place x [] = refl
length-place x (y ∷ ys) = ground (arith, length-place x ys)

pub length-above : (b : ℤ) (xs : List ℕ) → length (above b xs) ≤ length xs
unfolding above
length-above b [] = omega arith
length-above (negsuc b) (x ∷ xs) = omega (arith, length-above (negsuc b) xs)
length-above (pos b) (x ∷ xs) = ground (arith, length-above (pos b) xs)

pub count_within_if :
    (window t u : ℕ) (g : Bool) (us : List ℕ)
    → count_within window t (if g then u ∷ us else us)
      ≡ (if g then within window t u else 0) + count_within window t us
unfolding count_within
count_within_if window t u true us = refl
count_within_if window t u false us = omega arith

pub within_late : (window t u : ℕ) (g : Bool) → t < u → (if g then within window t u else 0) ≡ 0
within_late window t u g h = ground arith

-- What leaves a window that ends at `u` is outside every later window.
pos-above :
    (window t b : ℕ) (xs : List ℕ)
    → b + window ≤ t
    → count_within window t (above (pos b) xs) ≡ count_within window t xs
unfolding count_within above
pos-above window t b [] h = refl
pos-above window t b (x ∷ xs) h = ground (arith, pos-above window t b xs h)

negsuc-above :
    (window t b : ℕ) (xs : List ℕ)
    → count_within window t (above (negsuc b) xs) ≡ count_within window t xs
unfolding count_within above
negsuc-above window t b [] = refl
negsuc-above window t b (x ∷ xs) = omega (arith, negsuc-above window t b xs)

pub count_within-above :
    (window t u : ℕ) (xs : List ℕ)
    → u ≤ t
    → count_within window t (above (difference u window) xs) ≡ count_within window t xs
count_within-above window t u xs h = elim (Bool-cases (leb window u)) [
  | inl e ↦ rw (e) (pos-above window t (u - window) xs (ground arith))
  | inr e ↦ rw (e) (negsuc-above window t (window - u - 1) xs)
]
