-- ===== src/Tests/Limits.antt =====
-- Requests of one client and of one user.
use sync_vault.Base.{◌≤◌, ◌≡◌, ◌*◌, refl, List, [], ◌∷◌, arith, string_eq}
use sync_vault.Base.Dict.{lookup}
use sync_vault.Security.Limiter.{TokenBucket, RateLimiter, new_rate_limiter, minute, admit, cleanup}
use sync_vault.Security.Limiter.Rate.{serve, credit, serve-le-credit}
use sync_vault.Security.Limiter.Cleanup.{IsSound, admit-cleanup}
use sync_vault.Security.Limiter.Reach.{
  Event, requests, cleans_up, handle_all, new_rate_limiter-IsSound_after,
}

abbrev three : TokenBucket
three = record { tokens = 3; max_tokens = 3; refill_rate = 3; last_refill = 0 }

serve-le-credit_example : serve (1 ∷ 2 ∷ 3 ∷ 4 ∷ minute ∷ []) three ≤ credit minute three
serve-le-credit_example =
    serve-le-credit 0 minute three (1 ∷ 2 ∷ 3 ∷ 4 ∷ minute ∷ []) (omega arith)
      (omega arith, (omega arith, (omega arith, (omega arith, (omega arith, omega arith)))))

abbrev used : RateLimiter
used = record {
  ip_requests =
      ("10.0.0.1", record { tokens = 0; max_tokens = 100; refill_rate = 100; last_refill = 0 })
      ∷ [];
  user_requests = [];
}

used-IsSound : IsSound used
unfolding lookup
used-IsSound = record {
  ip_keys = (refl, tt);
  ip_buckets = (record { within = omega arith; maximum = refl; rate = refl }, tt);
  user_keys = tt;
  user_buckets = tt;
}

admit-cleanup_example :
    (admit (7 * minute) "" "10.0.0.1" (cleanup (6 * minute) used)).1
    ≡ (admit (7 * minute) "" "10.0.0.1" used).1
admit-cleanup_example =
    admit-cleanup (6 * minute) (7 * minute) "" "10.0.0.1" used used-IsSound (omega arith)

abbrev traffic : List Event
traffic = requests 1 "" "10.0.0.1" ∷ requests 2 "u1" "10.0.0.1" ∷ cleans_up (20 * minute) ∷ []

new_rate_limiter-IsSound_after_example : IsSound (handle_all traffic new_rate_limiter)
new_rate_limiter-IsSound_after_example = new_rate_limiter-IsSound_after traffic
