-- ===== src/Security/Limiter/Cleanup.antt =====
-- Forgetting old buckets changes no answer.
use sync_vault.Base.{
  ℕ, ◌-◌, ◌*◌, ◌/◌, ◌≤◌, ◌<◌, ◌≡◌, refl, ap, ◌∙◌, String, true, false, [], ◌∷◌, Option, none, some,
  inl, inr, arith, ltb, leb, ◌==◌, string_eq, ◌<>◌, if◌then◌else◌, Bool-cases,
}
use sync_vault.Base.Dict.{Dict, lookup, NodupKeys}
use sync_vault.Security.Limiter.{
  TokenBucket, RateLimiter, minute, refill, consume, new_bucket, get_bucket, respond, admit,
  keep_recent, cleanup,
}

-- A bucket of a limiter with this limit.
pub record IsBucket (limit : ℕ) (b : TokenBucket) : Type 0 where
  pub within : b.tokens ≤ limit
  pub maximum : b.max_tokens ≡ limit
  pub rate : b.refill_rate ≡ limit

at_least : (q limit : ℕ) → 1 ≤ q → limit ≤ q * limit
at_least q limit h = grind arith

full_refill :
    (now limit : ℕ) (b : TokenBucket)
    → IsBucket limit b
    → 0 < limit
    → minute ≤ now - b.last_refill
    → refill now b ≡ new_bucket now limit
unfolding refill new_bucket
full_refill now limit b v pos old =
    ground (arith, at_least ((now - b.last_refill) / minute) limit (omega arith))

-- What `keep_recent` leaves of a bucket.
unfoldable pub recent : ℕ → ℕ → Option TokenBucket → Option TokenBucket
recent now limit none = none
recent now limit (some b) = if ltb limit (now - b.last_refill) then none else some b

pub lookup-keep_recent :
    (now limit : ℕ) (key : String) (m : Dict String TokenBucket)
    → NodupKeys m
    → lookup key (keep_recent now limit m) ≡ recent now limit (lookup key m)
unfolding keep_recent lookup recent
lookup-keep_recent now limit key [] u = refl
lookup-keep_recent now limit key ((j, b) ∷ m) (fresh, u) =
    ground (arith, lookup-keep_recent now limit key m u)

refill-new_bucket : (now limit : ℕ) → refill now (new_bucket now limit) ≡ new_bucket now limit
unfolding refill new_bucket
refill-new_bucket now limit = ground arith

-- The buckets of a map are buckets of a limiter with this limit.
abbrev pub AllBuckets : ℕ → Dict String TokenBucket → Type 0
AllBuckets limit [] = Unit
AllBuckets limit ((k, b) ∷ m) = IsBucket limit b × AllBuckets limit m

pub IsBucket-lookup :
    (limit : ℕ) (key : String) (m : Dict String TokenBucket) (b : TokenBucket)
    → AllBuckets limit m
    → lookup key m ≡ some b
    → IsBucket limit b
unfolding lookup
IsBucket-lookup limit key [] b v h = cc
IsBucket-lookup limit key ((j, c) ∷ m) b (v, w) h = ground (arith, IsBucket-lookup limit key m b w)

abbrev bucket_or : ℕ → ℕ → Option TokenBucket → TokenBucket
bucket_or now limit o = elim o [ none ↦ new_bucket now limit | some b ↦ b ]

-- A bucket that was forgotten is refilled to the full anyway.
refill-recent :
    (before now age limit : ℕ) (o : Option TokenBucket)
    → ((b : TokenBucket) → o ≡ some b → IsBucket limit b)
    → 0 < limit
    → minute ≤ age
    → before ≤ now
    → refill now (bucket_or now limit (recent before age o)) ≡ refill now (bucket_or now limit o)
unfolding recent
refill-recent before now age limit none v pos q p = refl
refill-recent before now age limit (some b) v pos q p =
    ground (arith, full_refill now limit b (v b refl) pos, refill-new_bucket now limit)

refill-kept :
    (before now age limit : ℕ) (key : String) (m : Dict String TokenBucket)
    → NodupKeys m
    → AllBuckets limit m
    → 0 < limit
    → minute ≤ age
    → before ≤ now
    → refill now (get_bucket now key limit (keep_recent before age m))
      ≡ refill now (get_bucket now key limit m)
unfolding get_bucket
refill-kept before now age limit key m u v pos q p =
    ap (λ o. refill now (bucket_or now limit o)) (lookup-keep_recent before age key m u)
    ∙ refill-recent before now age limit (lookup key m) (λ b e. IsBucket-lookup limit key m b v e)
        pos q p

consume-refill :
    (now n : ℕ) (b c : TokenBucket)
    → refill now b ≡ refill now c
    → consume now n b ≡ consume now n c
unfolding consume
consume-refill now n b c h =
    ap (λ r. if leb n r.tokens then (record r { tokens = r.tokens - n }, true) else (r, false)) h

pub record IsSound (rl : RateLimiter) : Type 0 where
  pub ip_keys : NodupKeys rl.ip_requests
  pub ip_buckets : AllBuckets 100 rl.ip_requests
  pub user_keys : NodupKeys rl.user_requests
  pub user_buckets : AllBuckets 1000 rl.user_requests

-- In a limiter with one bucket for a client at most, each within its limit, a clean-up changes no
-- later answer: for every user, address and time after it, `Middleware` lets
-- the request through, and reports the same number of remaining tokens, as it does without it.
pub admit-cleanup :
    (before now : ℕ) (user_id client_ip : String) (rl : RateLimiter)
    → IsSound rl
    → before ≤ now
    → (admit now user_id client_ip (cleanup before rl)).1 ≡ (admit now user_id client_ip rl).1
unfolding admit cleanup
admit-cleanup before now user_id client_ip rl v p = elim (Bool-cases (user_id == "")) [
  | inl e ↦ rw (e) (
      ap (λ r. respond 100 r)
        (consume-refill now 1 _ _ (
          refill-kept before now (5 * minute) 100 client_ip rl.ip_requests v.ip_keys v.ip_buckets
            (omega arith) (omega arith) p)))
  | inr e ↦ rw (e) (
      ap (λ r. respond 1000 r)
        (consume-refill now 1 _ _ (
          refill-kept before now (10 * minute) 1000 ("user:" <> user_id) rl.user_requests
            v.user_keys v.user_buckets (omega arith) (omega arith) p)))
]
