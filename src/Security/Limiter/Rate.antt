-- ===== src/Security/Limiter/Rate.antt =====
-- How many requests a bucket lets through.
use sync_vault.Base.{ℕ, zero, suc, ◌+◌, ◌-◌, ◌*◌, ◌/◌, ◌≤◌, List, [], ◌∷◌, arith, if◌then◌else◌}
use sync_vault.Security.Limiter.{TokenBucket, minute, refill, consume}

-- Requests at the given times, one token each: how many are let through.
unfoldable pub serve : List ℕ → TokenBucket → ℕ
unfolding consume
serve [] b = 0
serve (t ∷ ts) b = let r = consume t 1 b in (if r.1 then 1 else 0) + serve ts r.0

-- The times do not fall, and lie between two bounds.
abbrev pub Ordered : ℕ → ℕ → List ℕ → Type 0
Ordered from until [] = from ≤ until
Ordered from until (t ∷ ts) = (from ≤ t) × Ordered t until ts

Ordered-le : (from until : ℕ) (ts : List ℕ) → Ordered from until ts → from ≤ until
Ordered-le from until [] h = h
Ordered-le from until (t ∷ ts) h = omega (arith, Ordered-le t until ts h.1)

-- What a bucket can still give until a time: its tokens, and a refill for each whole minute.
abbrev pub credit : ℕ → TokenBucket → ℕ
credit until b = b.tokens + (until - b.last_refill) / minute * b.refill_rate

mul_le : (a b c rate : ℕ) → a + b ≤ c → a * rate + b * rate ≤ c * rate
mul_le a b c zero h = omega arith
mul_le a b c (suc rate) h = omega (arith, mul_le a b c rate h)

minutes_split :
    (last now until rate : ℕ)
    → last ≤ now
    → now ≤ until
    → (now - last) / minute * rate + (until - now) / minute * rate ≤ (until - last) / minute * rate
minutes_split last now until rate p q =
    mul_le ((now - last) / minute) ((until - now) / minute) ((until - last) / minute) rate
      (omega arith)

credit-refill :
    (now until : ℕ) (b : TokenBucket)
    → b.last_refill ≤ now
    → now ≤ until
    → credit until (refill now b) ≤ credit until b
unfolding refill
credit-refill now until b p q = ground (arith, minutes_split b.last_refill now until b.refill_rate)

last_refill-refill :
    (now : ℕ) (b : TokenBucket) → b.last_refill ≤ now → (refill now b).last_refill ≤ now
unfolding refill
last_refill-refill now b p = ground arith

-- A request that is let through uses up a token of the credit.
credit-consume :
    (now until : ℕ) (b : TokenBucket)
    → b.last_refill ≤ now
    → now ≤ until
    → (if (consume now 1 b).1 then 1 else 0) + credit until (consume now 1 b).0 ≤ credit until b
unfolding consume
credit-consume now until b p q = ground (arith, credit-refill now until b)

last_refill-consume :
    (now : ℕ) (b : TokenBucket) → b.last_refill ≤ now → ((consume now 1 b).0).last_refill ≤ now
unfolding consume
last_refill-consume now b p = ground (arith, last_refill-refill now b p)

-- Of requests that come one after the other, each when the one before has been answered, in the
-- order of time and from the last refill on, a bucket lets through no more than its tokens and a
-- full refill for each whole minute since its last one.
pub serve-le-credit :
    (from until : ℕ) (b : TokenBucket) (ts : List ℕ)
    → b.last_refill ≤ from
    → Ordered from until ts
    → serve ts b ≤ credit until b
unfolding serve
serve-le-credit from until b [] p o = omega arith
serve-le-credit from until b (t ∷ ts) p o = omega (
  arith,
  credit-consume t until b (omega arith) (Ordered-le t until ts o.1),
  serve-le-credit t until (consume t 1 b).0 ts (last_refill-consume t b (omega arith)) o.1,
)
