-- ===== src/Security/Limiter.antt =====
-- internal/security/ratelimiter.go: token buckets by user and by address. Times are nanoseconds.
-- A request is answered before the next one comes: the source holds no lock where it takes a token.
pub mod Rate
pub mod Cleanup
pub mod Reach
use sync_vault.Base.{
  ℕ, ◌+◌, ◌-◌, ◌*◌, ◌/◌, min, String, Bool, true, false, List, [], ◌∷◌, Option, none, some, ltb,
  leb, ◌==◌, string_eq, ◌<>◌, if◌then◌else◌,
}
use sync_vault.Base.Dict.{Dict, lookup, insert}

pub record TokenBucket : Type 0 where
  pub tokens : ℕ
  pub max_tokens : ℕ
  pub refill_rate : ℕ
  pub last_refill : ℕ

pub record RateLimiter : Type 0 where
  pub ip_requests : Dict String TokenBucket
  pub user_requests : Dict String TokenBucket

abbrev pub minute : ℕ
minute = 60_000_000_000

unfoldable pub new_rate_limiter : RateLimiter
new_rate_limiter = record { ip_requests = []; user_requests = [] }

-- `refill`: the whole minutes since the last refill count. A time before it counts as none.
unfoldable pub refill : ℕ → TokenBucket → TokenBucket
refill now b =
    let add = (now - b.last_refill) / minute * b.refill_rate in
    if ltb 0 add
    then record b { tokens = min (b.tokens + add) b.max_tokens; last_refill = now }
    else b

unfoldable pub consume : ℕ → ℕ → TokenBucket → TokenBucket × Bool
unfolding refill
consume now n b =
    let r = refill now b in
    if leb n r.tokens then (record r { tokens = r.tokens - n }, true) else (r, false)

unfoldable pub new_bucket : ℕ → ℕ → TokenBucket
new_bucket now limit = record {
  tokens = limit;
  max_tokens = limit;
  refill_rate = limit;
  last_refill = now;
}

-- `getIPBucket` and `getUserBucket` share this body, each over its own map.
unfoldable pub get_bucket : ℕ → String → ℕ → Dict String TokenBucket → TokenBucket
unfolding new_bucket
get_bucket now key limit m = elim (lookup key m) [ none ↦ new_bucket now limit | some b ↦ b ]

pub record Response : Type 0 where
  pub allowed : Bool
  pub limit : ℕ
  pub remaining : ℕ

abbrev pub respond : ℕ → TokenBucket × Bool → Response
respond limit (b, ok) = record { allowed = ok; limit = limit; remaining = b.tokens }

-- `Middleware` up to the call of the next handler, which is made where `allowed` is true. The
-- bucket that the map holds is the one that `consume` changes.
unfoldable pub admit : ℕ → String → String → RateLimiter → RateLimiter × Response
unfolding get_bucket consume
admit now user_id client_ip rl =
    if user_id == ""
    then (let r = consume now 1 (get_bucket now client_ip 100 rl.ip_requests) in
        (record rl { ip_requests = insert client_ip r.0 rl.ip_requests }, respond 100 r))
    else (let key = "user:" <> user_id in
        let r = consume now 1 (get_bucket now key 1000 rl.user_requests) in
        (record rl { user_requests = insert key r.0 rl.user_requests }, respond 1000 r))

-- The entries that were refilled within the limit stay.
unfoldable pub keep_recent : ℕ → ℕ → Dict String TokenBucket → Dict String TokenBucket
keep_recent now limit [] = []
keep_recent now limit ((k, b) ∷ m) =
    let rest = keep_recent now limit m in
    if ltb limit (now - b.last_refill) then rest else (k, b) ∷ rest

unfoldable pub cleanup : ℕ → RateLimiter → RateLimiter
unfolding keep_recent
cleanup now rl = record {
  ip_requests = keep_recent now (5 * minute) rl.ip_requests;
  user_requests = keep_recent now (10 * minute) rl.user_requests;
}
