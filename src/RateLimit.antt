-- ===== src/RateLimit.antt =====
-- The sliding window of internal/ratelimit/limiter.go. Times are in milliseconds. A member of the
-- sorted set is unique to its request, so that a set is given by its scores.
pub mod Counts
pub mod Window
use sync_vault.Base.{
  ℕ, ℤ, pos, negsuc, difference, suc, ◌+◌, ◌-◌, ◌/◌, ◌≡◌, ◌⊎◌, String, Bool, true, false, List, [],
  ◌∷◌, Option, none, some, Result, ok, err, length, ltb, leb, nat_eqb, ◌<>◌, if◌then◌else◌,
}

-- What the script answers, and what the method makes of it.
pub record Answer : Type 0 where
  pub code : ℕ
  pub remaining : ℤ
  pub reset : ℕ
  pub retry_after : ℕ

pub record RateLimitResult : Type 0 where
  pub allowed : Bool
  pub remaining : ℤ
  pub reset_time : ℕ
  pub retry_after : ℕ
  pub limit : ℕ
  pub window : ℕ

-- The sorted sets of Redis: `scores` lists those of a key in order.
pub record SortedSets : Type 1 where
  pub State : Type 0
  pub scores : State → String → List ℕ
  pub remove_upto : State → String → ℤ → State
  pub card : State → String → ℕ
  pub first : State → String → Option ℕ
  pub add : State → String → ℕ → State
  pub expire : State → String → ℕ → State
  pub eval : (State → State × Answer) → State → State × Result Answer

-- The scores that stay when those up to a bound go.
unfoldable pub above : ℤ → List ℕ → List ℕ
above b [] = []
above (negsuc b) (x ∷ xs) = x ∷ above (negsuc b) xs
above (pos b) (x ∷ xs) = let rest = above (pos b) xs in if leb x b then rest else x ∷ rest

-- A score joins the list at its place in the order.
unfoldable pub place : ℕ → List ℕ → List ℕ
place x [] = x ∷ []
place x (y ∷ ys) = let rest = place x ys in if leb y x then y ∷ rest else x ∷ y ∷ ys

-- The documented effect of the commands on their key. A key expires only after the time given, when
-- all its scores have left the window.
pub record IsLawful (R : SortedSets) : Type 0 where
  pub scores-remove_upto :
      (s : R.State) (k : String) (b : ℤ) → R.scores (R.remove_upto s k b) k ≡ above b (R.scores s k)
  pub card-length : (s : R.State) (k : String) → R.card s k ≡ length (R.scores s k)
  pub scores-add :
      (s : R.State) (k : String) (x : ℕ) → R.scores (R.add s k x) k ≡ place x (R.scores s k)
  pub scores-expire :
      (s : R.State) (k : String) (t : ℕ) → R.scores (R.expire s k t) k ≡ R.scores s k
  -- A script runs whole or not at all, and its answer may be lost.
  pub eval_outcome :
      (f : R.State → R.State × Answer) (s : R.State)
      → (R.eval f s ≡ ((f s).0, ok (f s).1))
        ⊎ ((e : String) × ((R.eval f s ≡ ((f s).0, err e)) ⊎ (R.eval f s ≡ (s, err e))))

abbrev pub limit_key : String → String
limit_key identifier = "rate_limit:" <> identifier

-- `oldest[2] or now`, and the time until the oldest request leaves the window.
abbrev pub reset_of : ℕ → Option ℕ → ℕ
reset_of now none = now
reset_of now (some oldest) = oldest

abbrev pub retry_of : ℕ → ℕ → Option ℕ → ℕ
retry_of now window none = 0
retry_of now window (some oldest) = oldest + window - now

module _ (R : SortedSets) where
  unfoldable pub window_script : String → ℕ → ℕ → ℕ → R.State → R.State × Answer
  window_script key now limit window s =
      let s' = R.remove_upto s key (difference now window) in
      let current = R.card s' key in
      if leb limit current
      then (
        s',
        record {
          code = 0;
          remaining = difference limit current;
          reset = reset_of now (R.first s' key);
          retry_after = retry_of now window (R.first s' key);
        },
      )
      else (
        R.expire (R.add s' key now) key ((window + 999) / 1000 + 1),
        record {
          code = 1;
          remaining = difference limit (current + 1);
          reset = now + window;
          retry_after = 0;
        },
      )

  abbrev pub result_of : ℕ → ℕ → Result Answer → Result RateLimitResult
  result_of limit window (err e) = err e
  result_of limit window (ok a) = ok (record {
    allowed = nat_eqb a.code 1;
    remaining = a.remaining;
    reset_time = a.reset;
    retry_after = a.retry_after;
    limit = limit;
    window = window;
  })

  unfoldable pub sliding_window_rate_limit :
      String → ℕ → ℕ → ℕ → R.State → R.State × Result RateLimitResult
  unfolding window_script
  sliding_window_rate_limit identifier now limit window s =
      let (s', r) = R.eval (window_script (limit_key identifier) now limit window) s in
      (s', result_of limit window r)
