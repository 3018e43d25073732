-- ===== src/Tests/Tokens.antt =====
-- Tests and witnesses of the tokens: a library that signs with the secret itself, and a Redis that
-- holds its keys in memory.
use sync_vault.Base.{
  ℕ, ◌/◌, ◌*◌, ◌≤◌, ◌<◌, ◌⊎◌, ◌≡◌, ◌≢◌, refl, inl, inr, ap, sym, subst, ◌∙◌, String, true, ◌&&◌, [],
  ◌∷◌, Option, none, some, Result, ok, err, arith, contains, ltb, leb, string_eq, ◌==◌,
  if◌then◌else◌, Bool-cases, if_elim, ==-refl,
}
use sync_vault.Base.Dict.{
  Dict, lookup, insert, erase, keys, contains-keys, lookup-insert, lookup-insert_self, lookup-erase,
}
use sync_vault.Auth.{
  JwtConfig, Jwt, Redis, Parsed, Value, JwtClaims, TokenPair, as_read, access_claims,
  refresh_claims, access_token_type, refresh_token_type, refresh_token_key, validate_token,
}
use sync_vault.Auth.Service.{revoke_refresh_token, logout, generate_token_pair, refresh_tokens}
use sync_vault.Auth.Tokens
use sync_vault.Auth.Tokens.{validate_token-generate_token_pair, generate_token_pair-validate_token}
use sync_vault.Auth.Spent
use sync_vault.Auth.Spent.{leave, revoke, calls}
use text.Mathlib.TextEquality.{eq_iff}
use sync_vault.Auth.Leaving
use sync_vault.Auth.Leaving.{logout-refresh_tokens}
use sync_vault.Auth.Rotation.{refresh_tokens_once}

abbrev read_token : ℕ → JwtClaims × String → Result String → Result Parsed
read_token now t (err e) = err e
read_token now t (ok secret) =
    if (secret == t.1 && leb t.0.not_before now) && ltb now t.0.expires_at
    then ok (record { claims = some (as_read t.0); valid = true })
    else err "token is invalid"

abbrev plain_jwt : Jwt
plain_jwt = record {
  Token = JwtClaims × String;
  numeric_date = λ t. t / 10 * 10;
  sign = λ c secret. ok (c, secret);
  parse_with_claims = λ now t key. read_token now t (key true);
}

abbrev found_value : Option Value → Result Value
found_value none = err "redis: nil"
found_value (some v) = ok v

abbrev memory_redis : Redis
memory_redis = record {
  State = Dict String Value;
  view = λ s k. lookup k s;
  get = λ s k. (s, found_value (lookup k s));
  set = λ s k v t. (insert k v s, ok tt);
  del = λ s k. erase k s;
  keys = λ s p. (s, ok (keys s));
}

read_ok :
    (c : JwtClaims) (secret : String) (now : ℕ)
    → c.not_before ≤ now
    → now < c.expires_at
    → read_token now (c, secret) (ok secret) ≡ Tokens.accepted c
read_ok c secret now early late = ground (arith, ==-refl secret)

read_late :
    (t : JwtClaims × String) (now : ℕ) (o : Result String)
    → t.0.expires_at ≤ now
    → (e : String) × (read_token now t o ≡ err e)
read_late t now (err e) late = (e, refl)
read_late t now (ok k) late = ("token is invalid", ground arith)

read_outcome :
    (t : JwtClaims × String) (now : ℕ) (o : Result String)
    → (read_token now t o ≡ Tokens.accepted t.0) ⊎ ((e : String) × (read_token now t o ≡ err e))
read_outcome t now (err e) = inr (e, refl)
read_outcome t now (ok k) =
    if_elim (λ r. (r ≡ Tokens.accepted t.0) ⊎ ((e : String) × (r ≡ err e)))
      ((k == t.1 && leb t.0.not_before now) && ltb now t.0.expires_at) (inl refl)
      (inr ("token is invalid", refl))

read_claims :
    (t : JwtClaims × String) (now : ℕ) (o : Result String) (p : Parsed)
    → read_token now t o ≡ ok p
    → p.claims ≡ some (as_read t.0)
read_claims t now o p h = elim (read_outcome t now o) [
  | inl q ↦ ground (arith, h, q)
  | inr (e, q) ↦ absurd (ground (arith, h, q))
]

ok_inj : {A : Type 0} {a b : A} → ok a ≡ ok b → a ≡ b
ok_inj h = cc h

plain_jwt-IsLawful : Tokens.IsLawful plain_jwt
plain_jwt-IsLawful = record {
  numeric_date_le = λ t. omega arith;
  parse_signed = λ c secret t now k h g early late.
      subst (λ r. read_token now t r ≡ Tokens.accepted c) (sym g)
        (subst (λ u. read_token now u (ok secret) ≡ Tokens.accepted c) (ok_inj h)
          (read_ok c secret now early late));
  parse_expired = λ c secret t now k h late.
      read_late t now (k true) (subst (λ u. u.0.expires_at ≤ now) (ok_inj h) late);
  parse_outcome = λ c secret t now k h.
      subst
        (λ u.
          (read_token now t (k true) ≡ Tokens.accepted u.0)
          ⊎ ((e : String) × (read_token now t (k true) ≡ err e)))
        (sym (ok_inj h)) (read_outcome t now (k true));
  parse_alike = λ t now later k p q h g.
      read_claims t now (k true) p h ∙ sym (read_claims t later (k true) q g);
}

found_ok : (o : Option Value) (v : Value) → found_value o ≡ ok v → o ≡ some v
found_ok none v h = absurd (cc h)
found_ok (some w) v h = cc h

erased-Fades :
    (j k : String) (s : Dict String Value) → Spent.Fades (lookup j s) (lookup j (erase k s))
erased-Fades j k s = elim (Bool-cases (j == k)) [
  | inl q ↦ inr (ground (arith, lookup-erase j k s))
  | inr q ↦ inl (ground (arith, lookup-erase j k s))
]

memory_redis-IsLawful : Spent.IsLawful memory_redis
memory_redis-IsLawful = record {
  get_fades = λ s k j. inl refl;
  get_read = λ s k v h. found_ok (lookup k s) v h;
  set_others = λ s k j v t differ. inl (ground (arith, lookup-insert j k v s));
  set_own = λ s k v t. inr (lookup-insert_self k v s);
  set_ok = λ s k v t h. inl (lookup-insert_self k v s);
  del_fades = λ s k j. erased-Fades j k s;
  keys_fades = λ s p j. inl refl;
}

abbrev config : JwtConfig
config = record {
  access_secret = "a";
  refresh_secret = "r";
  access_ttl = 100;
  refresh_ttl = 1000;
  issuer = "syncvault";
}

abbrev pair_of : ℕ → String → String → TokenPair (JwtClaims × String)
pair_of now aid rid = record {
  access_token = (access_claims plain_jwt config now "7" "ann@x" "user" aid, "a");
  refresh_token = (refresh_claims plain_jwt config now "7" "ann@x" "user" rid, "r");
  token_type = "Bearer";
  expires_in = 0;
}

abbrev claims_of : ℕ → String → JwtClaims
claims_of now rid = as_read (refresh_claims plain_jwt config now "7" "ann@x" "user" rid)

abbrev after_login : Dict String Value
after_login =
    (generate_token_pair plain_jwt memory_redis config 50 (ok "a1") (ok "r1") "7" "ann@x" "user"
      []).0

abbrev token : JwtClaims × String
token = (pair_of 50 "a1" "r1").refresh_token

logged_in :
    (generate_token_pair plain_jwt memory_redis config 50
      (ok "a1")
      (ok "r1")
      "7"
      "ann@x"
      "user"
      []).1
    ≡ ok (pair_of 50 "a1" "r1")
unfolding generate_token_pair
logged_in = refl

validate_token-generate_token_pair_example :
    (validate_token plain_jwt config 149 (pair_of 50 "a1" "r1").access_token access_token_type
      ≡ ok (as_read (access_claims plain_jwt config 50 "7" "ann@x" "user" "a1")))
    × (validate_token plain_jwt config 1049 token refresh_token_type ≡ ok (claims_of 50 "r1"))
validate_token-generate_token_pair_example =
    validate_token-generate_token_pair plain_jwt plain_jwt-IsLawful config memory_redis 50 "a1" "r1"
      "7" "ann@x" "user" [] (pair_of 50 "a1" "r1") 149 1049 logged_in (omega arith) (omega arith)
      (omega arith) (omega arith)

generate_token_pair-validate_token_example :
    ((validate_token plain_jwt config 149 (pair_of 50 "a1" "r1").access_token refresh_token_type
        ≡ ok (claims_of 50 "r1"))
      → (access_token_type ≡ refresh_token_type)
        × (149 < 150)
        × (claims_of 50 "r1" ≡ as_read (access_claims plain_jwt config 50 "7" "ann@x" "user" "a1")))
    × ((validate_token plain_jwt config 149 token refresh_token_type ≡ ok (claims_of 50 "r1"))
        → (refresh_token_type ≡ refresh_token_type)
          × (149 < 1050)
          × (claims_of 50 "r1" ≡ claims_of 50 "r1"))
generate_token_pair-validate_token_example =
    generate_token_pair-validate_token plain_jwt plain_jwt-IsLawful config memory_redis 50 "a1" "r1"
      "7" "ann@x" "user" [] (pair_of 50 "a1" "r1") 149 refresh_token_type (claims_of 50 "r1")
      logged_in

token_valid : validate_token plain_jwt config 60 token refresh_token_type ≡ ok (claims_of 50 "r1")
unfolding validate_token string_eq
token_valid = refl

renewed :
    (refresh_tokens plain_jwt memory_redis config 60 (ok "a2") (ok "r2") token after_login).1
    ≡ ok (pair_of 60 "a2" "r2")
unfolding generate_token_pair refresh_tokens validate_token revoke_refresh_token string_eq lookup
    insert
renewed = refl

new_id : ◌≢◌ {A = Result String} (ok "r2") (ok "r1")
new_id h = ground (arith, h, eq_iff "r2" "r1")

refresh_tokens_once_example :
    (refresh_tokens plain_jwt memory_redis config 61 (ok "a3") (ok "r3") token (
      calls plain_jwt memory_redis config
        (leave "8" ∷ revoke 60 "r2" ∷ [])
        (refresh_tokens plain_jwt memory_redis config 60
          (ok "a2")
          (ok "r2")
          token
          after_login).0)).1
    ≢ ok (pair_of 61 "a3" "r3")
refresh_tokens_once_example =
    refresh_tokens_once plain_jwt memory_redis memory_redis-IsLawful config plain_jwt-IsLawful 60 61
      (ok "a2") (ok "r2") (ok "a3") (ok "r3") token (claims_of 50 "r1") after_login
      (pair_of 60 "a2" "r2") (pair_of 61 "a3" "r3") (leave "8" ∷ revoke 60 "r2" ∷ []) token_valid
      renewed new_id (tt, (tt, tt))

memory_redis-IsReliable : Leaving.IsReliable memory_redis
memory_redis-IsReliable = record {
  get_held = λ s k v h. ap found_value h;
  del_gone = λ s k. ground (arith, lookup-erase k k s, ==-refl k);
  keys_held = λ s. (keys s, refl, λ id. listed_or_gone (refresh_token_key id) s);
}
  where
    listed_or_gone :
        (k : String) (s : Dict String Value) → (contains k (keys s) ≡ true) ⊎ (lookup k s ≡ none)
    listed_or_gone k s = elim (Bool-cases (contains k (keys s))) [
      | inl h ↦ inl h
      | inr h ↦ inr ((contains-keys k s).0 h)
    ]

logout-refresh_tokens_example :
    (refresh_tokens plain_jwt memory_redis config 60
      (ok "a2")
      (ok "r2")
      token
      (logout memory_redis "7" after_login).0).1
    ≢ ok (pair_of 60 "a2" "r2")
logout-refresh_tokens_example =
    logout-refresh_tokens plain_jwt memory_redis memory_redis-IsLawful memory_redis-IsReliable
      config 60 (ok "a2") (ok "r2") token (claims_of 50 "r1") after_login (pair_of 60 "a2" "r2")
      token_valid
