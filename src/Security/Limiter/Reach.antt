-- ===== src/Security/Limiter/Reach.antt =====
-- What holds of a limiter after any requests and clean-ups.
use sync_vault.Base.{
  ℕ, ◌*◌, ◌≡◌, refl, String, List, [], ◌∷◌, Option, none, some, arith, ◌==◌, string_eq, ◌<>◌,
  Bool-cases, inl, inr,
}
use sync_vault.Base.Dict.{Dict, lookup, insert, NodupKeys, insert-NodupKeys}
use sync_vault.Security.Limiter.{
  TokenBucket, RateLimiter, minute, new_rate_limiter, refill, consume, new_bucket, get_bucket,
  admit, keep_recent, cleanup,
}
use sync_vault.Security.Limiter.Cleanup.{
  IsBucket, AllBuckets, IsSound, IsBucket-lookup, lookup-keep_recent, recent,
}

-- A request of a user, or of an address where the user is empty, or a clean-up, each with its time.
pub data Event : Type 0 where
  requests : ℕ → String → String → Event
  cleans_up : ℕ → Event

unfoldable pub handle : Event → RateLimiter → RateLimiter
unfolding admit cleanup
handle (requests now user_id client_ip) rl = (admit now user_id client_ip rl).0
handle (cleans_up now) rl = cleanup now rl

unfoldable pub handle_all : List Event → RateLimiter → RateLimiter
unfolding handle
handle_all [] rl = rl
handle_all (e ∷ es) rl = handle_all es (handle e rl)

consume-IsBucket :
    (now n limit : ℕ) (b : TokenBucket) → IsBucket limit b → IsBucket limit (consume now n b).0
unfolding consume refill
consume-IsBucket now n limit b v = ground arith

new_bucket-IsBucket : (now limit : ℕ) → IsBucket limit (new_bucket now limit)
unfolding new_bucket
new_bucket-IsBucket now limit = record { within = omega arith; maximum = refl; rate = refl }

get_bucket-IsBucket :
    (now : ℕ) (key : String) (limit : ℕ) (m : Dict String TokenBucket)
    → AllBuckets limit m
    → IsBucket limit (get_bucket now key limit m)
unfolding get_bucket
get_bucket-IsBucket now key limit m v =
    found (lookup key m) (λ b e. IsBucket-lookup limit key m b v e)
  where
    found :
        (o : Option TokenBucket)
        → ((b : TokenBucket) → o ≡ some b → IsBucket limit b)
        → IsBucket limit (elim o [ none ↦ new_bucket now limit | some b ↦ b ])
    found none h = new_bucket-IsBucket now limit
    found (some b) h = h b refl

insert-AllBuckets :
    (limit : ℕ) (key : String) (b : TokenBucket) (m : Dict String TokenBucket)
    → IsBucket limit b
    → AllBuckets limit m
    → AllBuckets limit (insert key b m)
unfolding insert
insert-AllBuckets limit key b [] v h = (v, tt)
insert-AllBuckets limit key b ((j, c) ∷ m) v (w, h) =
    ground (arith, insert-AllBuckets limit key b m v h)

keep_recent-AllBuckets :
    (now age limit : ℕ) (m : Dict String TokenBucket)
    → AllBuckets limit m
    → AllBuckets limit (keep_recent now age m)
unfolding keep_recent
keep_recent-AllBuckets now age limit [] h = tt
keep_recent-AllBuckets now age limit ((j, c) ∷ m) (w, h) =
    ground (arith, keep_recent-AllBuckets now age limit m h)

keep_recent-NodupKeys :
    (now age : ℕ) (m : Dict String TokenBucket) → NodupKeys m → NodupKeys (keep_recent now age m)
unfolding keep_recent recent
keep_recent-NodupKeys now age [] u = tt
keep_recent-NodupKeys now age ((j, c) ∷ m) (f, u) =
    ground (arith, keep_recent-NodupKeys now age m u, lookup-keep_recent now age j m u)

admit-IsSound :
    (now : ℕ) (user_id client_ip : String) (rl : RateLimiter)
    → IsSound rl
    → IsSound (admit now user_id client_ip rl).0
unfolding admit
admit-IsSound now user_id client_ip rl v =
    let ip =
      consume-IsBucket now 1 100 (get_bucket now client_ip 100 rl.ip_requests)
        (get_bucket-IsBucket now client_ip 100 rl.ip_requests v.ip_buckets) in
    let key = "user:" <> user_id in
    let user =
      consume-IsBucket now 1 1000 (get_bucket now key 1000 rl.user_requests)
        (get_bucket-IsBucket now key 1000 rl.user_requests v.user_buckets) in
    elim (Bool-cases (user_id == "")) [
      | inl e ↦ rw (e) (record {
        ip_keys = insert-NodupKeys client_ip _ rl.ip_requests v.ip_keys;
        ip_buckets = insert-AllBuckets 100 client_ip _ rl.ip_requests ip v.ip_buckets;
        user_keys = v.user_keys;
        user_buckets = v.user_buckets;
      })
      | inr e ↦ rw (e) (record {
        ip_keys = v.ip_keys;
        ip_buckets = v.ip_buckets;
        user_keys = insert-NodupKeys key _ rl.user_requests v.user_keys;
        user_buckets = insert-AllBuckets 1000 key _ rl.user_requests user v.user_buckets;
      })
    ]

cleanup-IsSound : (now : ℕ) (rl : RateLimiter) → IsSound rl → IsSound (cleanup now rl)
unfolding cleanup
cleanup-IsSound now rl v = record {
  ip_keys = keep_recent-NodupKeys now (5 * minute) rl.ip_requests v.ip_keys;
  ip_buckets = keep_recent-AllBuckets now (5 * minute) 100 rl.ip_requests v.ip_buckets;
  user_keys = keep_recent-NodupKeys now (10 * minute) rl.user_requests v.user_keys;
  user_buckets = keep_recent-AllBuckets now (10 * minute) 1000 rl.user_requests v.user_buckets;
}

handle_all-IsSound : (es : List Event) (rl : RateLimiter) → IsSound rl → IsSound (handle_all es rl)
unfolding handle_all handle
handle_all-IsSound [] rl v = v
handle_all-IsSound (requests now u ip ∷ es) rl v =
    handle_all-IsSound es (admit now u ip rl).0 (admit-IsSound now u ip rl v)
handle_all-IsSound (cleans_up now ∷ es) rl v =
    handle_all-IsSound es (cleanup now rl) (cleanup-IsSound now rl v)

-- After any requests and clean-ups of a new limiter each client has one bucket at most, and every
-- bucket has the maximum and the refill of its kind and holds no more tokens than that: 100 for an
-- address and 1000 for a user.
pub new_rate_limiter-IsSound_after : (es : List Event) → IsSound (handle_all es new_rate_limiter)
unfolding new_rate_limiter
new_rate_limiter-IsSound_after es =
    handle_all-IsSound es new_rate_limiter
      (record { ip_keys = tt; ip_buckets = tt; user_keys = tt; user_buckets = tt })
