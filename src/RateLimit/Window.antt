-- ===== src/RateLimit/Window.antt =====
-- How many requests a window lets through.
use sync_vault.Base.{
  difference, ℕ, ◌+◌, ◌≤◌, ◌<◌, ◌≡◌, ◌/◌, refl, subst, sym, ap, ◌∙◌, inl, inr, String, Bool, true,
  false, List, [], ◌∷◌, Result, ok, err, arith, length, leb, nat_eqb, if◌then◌else◌, Bool-cases,
}
use sync_vault.RateLimit.{
  Answer, RateLimitResult, SortedSets, IsLawful, above, place, limit_key, window_script, result_of,
  sliding_window_rate_limit,
}
use sync_vault.RateLimit.Counts.{
  within, count_within, count_within-le, count_within-place, length-place, length-above,
  count_within-above, count_within_if, within_late,
}

-- What one request at `u` makes of the scores, and whether it is let through.
pub data Moves (limit window u : ℕ) (xs : List ℕ) : List ℕ → Bool → Type 0 where
  lost : Moves limit window u xs xs false
  refused : Moves limit window u xs (above (difference u window) xs) false
  taken :
      (g : Bool)
      → length (above (difference u window) xs) < limit
      → Moves limit window u xs (place u (above (difference u window) xs)) g

Moves-length :
    (limit window u : ℕ) (xs ys : List ℕ) (g : Bool)
    → Moves limit window u xs ys g
    → length xs ≤ limit
    → length ys ≤ limit
Moves-length limit window u xs _ _ lost h = h
Moves-length limit window u xs _ _ refused h = omega (arith, length-above (difference u window) xs)
Moves-length limit window u xs _ _ (taken g p) h =
    omega (arith, length-place u (above (difference u window) xs))

Moves-count_within :
    (limit window t u : ℕ) (xs ys : List ℕ) (g : Bool)
    → Moves limit window u xs ys g
    → u ≤ t
    → count_within window t xs + (if g then within window t u else 0) ≤ count_within window t ys
Moves-count_within limit window t u xs _ _ lost h = omega arith
Moves-count_within limit window t u xs _ _ refused h =
    omega (arith, count_within-above window t u xs h)
Moves-count_within limit window t u xs _ _ (taken true p) h = omega (
  arith,
  count_within-above window t u xs h,
  count_within-place window t u (above (difference u window) xs),
)
Moves-count_within limit window t u xs _ _ (taken false p) h = omega (
  arith,
  count_within-above window t u xs h,
  count_within-place window t u (above (difference u window) xs),
)

-- The times do not fall from the given one on.
abbrev pub Ordered : ℕ → List ℕ → Type 0
Ordered from [] = Unit
Ordered from (u ∷ us) = (from ≤ u) × Ordered u us

abbrev pub lets_through : Result RateLimitResult → Bool
lets_through (err e) = false
lets_through (ok r) = r.allowed

module _ (R : SortedSets) (L : IsLawful R) (id : String) (limit window : ℕ) where
  abbrev call : ℕ → R.State → R.State × Result RateLimitResult
  call u s = sliding_window_rate_limit R id u limit window s

  -- Requests at the given times, and the times of those that are let through.
  unfoldable pub serve : List ℕ → R.State → List ℕ
  serve [] s = []
  serve (u ∷ us) s =
      let r = call u s in let rest = serve us r.0 in if lets_through r.1 then u ∷ rest else rest

  abbrev kept : ℕ → R.State → R.State
  kept u s = R.remove_upto s (limit_key id) (difference u window)

  script_refuses :
      (u : ℕ) (s : R.State)
      → leb limit (R.card (kept u s) (limit_key id)) ≡ true
      → (R.scores (window_script R (limit_key id) u limit window s).0 (limit_key id)
          ≡ above (difference u window) (R.scores s (limit_key id)))
        × ((window_script R (limit_key id) u limit window s).1.code ≡ 0)
  unfolding window_script
  script_refuses u s e = rw (e) (L.scores-remove_upto s (limit_key id) (difference u window), refl)

  script_takes :
      (u : ℕ) (s : R.State)
      → leb limit (R.card (kept u s) (limit_key id)) ≡ false
      → (R.scores (window_script R (limit_key id) u limit window s).0 (limit_key id)
          ≡ place u (above (difference u window) (R.scores s (limit_key id))))
        × (length (above (difference u window) (R.scores s (limit_key id))) < limit)
  unfolding window_script
  script_takes u s e =
      let key = limit_key id in
      let t = kept u s in
      (
        rw (e) (
            L.scores-expire (R.add t key u) key ((window + 999) / 1000 + 1)
            ∙ L.scores-add t key u
            ∙ ap (place u) (L.scores-remove_upto s key (difference u window))),
        ground (
          arith,
          L.card-length t key,
          ap length (L.scores-remove_upto s key (difference u window)),
        ),
      )

  script-Moves :
      (u : ℕ) (s : R.State) (g : Bool)
      → (g ≡ true → (window_script R (limit_key id) u limit window s).1.code ≡ 1)
      → Moves limit window u
          (R.scores s (limit_key id))
          (R.scores (window_script R (limit_key id) u limit window s).0 (limit_key id))
          g
  script-Moves u s g h = elim (Bool-cases (leb limit (R.card (kept u s) (limit_key id)))) [
    | inr e ↦
        (let p = script_takes u s e in
          subst (λ ys. Moves limit window u (R.scores s (limit_key id)) ys g) (sym p.0)
            (taken g p.1))
    | inl e ↦
        (let p = script_refuses u s e in
          elim (Bool-cases g) [
            | inl t ↦ absurd (omega (arith, h t, p.1))
            | inr f ↦
                subst
                  (λ c.
                    Moves limit window u (R.scores s (limit_key id))
                      (R.scores (window_script R (limit_key id) u limit window s).0 (limit_key id))
                      c)
                  (sym f)
                  (subst (λ ys. Moves limit window u (R.scores s (limit_key id)) ys false) (sym p.0)
                    refused)
          ])
  ]

  code_one : (n : ℕ) → nat_eqb n 1 ≡ true → n ≡ 1
  code_one n h = ground arith

  outcome-Moves :
      (u : ℕ) (s : R.State) (x : R.State × Result Answer)
      → R.eval (window_script R (limit_key id) u limit window) s ≡ x
      → Moves limit window u
          (R.scores s (limit_key id))
          (R.scores x.0 (limit_key id))
          (lets_through (result_of R limit window x.1))
  outcome-Moves u s x e = elim (L.eval_outcome (window_script R (limit_key id) u limit window) s) [
    | inl r ↦
        subst
          (λ y.
            Moves limit window u (R.scores s (limit_key id)) (R.scores y.0 (limit_key id))
              (lets_through (result_of R limit window y.1)))
          (sym r ∙ e)
          (script-Moves u s _ (code_one (window_script R (limit_key id) u limit window s).1.code))
    | inr (m, inl r) ↦
        subst
          (λ y.
            Moves limit window u (R.scores s (limit_key id)) (R.scores y.0 (limit_key id))
              (lets_through (result_of R limit window y.1)))
          (sym r ∙ e) (script-Moves u s false (λ q. cc))
    | inr (m, inr r) ↦
        subst
          (λ y.
            Moves limit window u (R.scores s (limit_key id)) (R.scores y.0 (limit_key id))
              (lets_through (result_of R limit window y.1)))
          (sym r ∙ e) lost
  ]

  call-Moves :
      (u : ℕ) (s : R.State)
      → Moves limit window u
          (R.scores s (limit_key id))
          (R.scores (call u s).0 (limit_key id))
          (lets_through (call u s).1)
  unfolding sliding_window_rate_limit
  call-Moves u s = outcome-Moves u s (R.eval (window_script R (limit_key id) u limit window) s) refl

  serve_late :
      (t u : ℕ) (us : List ℕ) (s : R.State)
      → Ordered u us
      → t < u
      → count_within window t (serve us s) ≡ 0
  unfolding serve count_within
  serve_late t u [] s o h = refl
  serve_late t u (v ∷ us) s o h = ground (arith, serve_late t v us (call v s).0 o.1)

  serve_bounded :
      (t from : ℕ) (us : List ℕ) (s : R.State)
      → Ordered from us
      → length (R.scores s (limit_key id)) ≤ limit
      → count_within window t (R.scores s (limit_key id)) + count_within window t (serve us s)
        ≤ limit
  unfolding serve count_within
  serve_bounded t from [] s o h =
      omega (arith, count_within-le window t (R.scores s (limit_key id)))
  serve_bounded t from (u ∷ us) s o h =
      let m = call-Moves u s in
      let rest = serve_bounded t u us (call u s).0 o.1 (Moves-length limit window u _ _ _ m h) in
      elim (Bool-cases (leb u t)) [
        | inl e ↦ omega (
          arith,
          count_within_if window t u (lets_through (call u s).1) (serve us (call u s).0),
          Moves-count_within limit window t u _ _ _ m (ground arith),
          rest,
        )
        | inr e ↦ omega (
          arith,
          count_within_if window t u (lets_through (call u s).1) (serve us (call u s).0),
          within_late window t u (lets_through (call u s).1) (ground arith),
          serve_late t u us (call u s).0 o.1 (ground arith),
          count_within-le window t (R.scores s (limit_key id)),
          h,
        )
      ]

  -- Over sorted sets that keep their contract: of requests in the order of time, over a set that
  -- holds no more scores than the limit, no more than the limit are let through in any one window,
  -- whichever answers are lost.
  pub serve-within :
      (t from : ℕ) (us : List ℕ) (s : R.State)
      → Ordered from us
      → length (R.scores s (limit_key id)) ≤ limit
      → count_within window t (serve us s) ≤ limit
  serve-within t from us s o h = omega (arith, serve_bounded t from us s o h)
