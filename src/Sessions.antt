-- ===== src/Sessions.antt =====
-- The sessions of internal/session/store.go, over interfaces of Redis and of the hashing of tokens.
-- An operation reads the clock once. Random tokens are arguments, each with the failure of its
-- generation.
pub mod Limit
pub mod Creating
pub mod Rotation
use sync_vault.Base.{
  ℕ, zero, suc, ◌+◌, ◌-◌, ◌≡◌, String, Bool, true, false, not, List, [], ◌∷◌, ◌++◌, Option, none,
  some, Result, ok, err, length, leb, ltb, string_eq, ◌==◌, ◌<>◌, if◌then◌else◌,
}

pub record Session : Type 0 where
  pub user_id : ℕ
  pub refresh_token : String
  pub created_at : ℕ
  pub expires_at : ℕ
  pub last_used : ℕ
  pub metadata : List (String × String)

-- A value of Redis: the JSON of a session, or a text that is not.
pub data Value : Type 0 where
  marshal : Session → Value
  other : String → Value

-- A command of a transaction. The keys are that of a session and that of a user's list.
pub data Command : Type 0 where
  set_session : String → Value → ℕ → Command
  push_front : String → String → Command
  expire_list : String → ℕ → Command
  trim_list : String → ℕ → Command

-- The commands of Redis. `sessions` and `list` are what its keys hold.
pub record Redis : Type 1 where
  pub State : Type 0
  pub held : State → String → Option Value
  pub list : State → String → List String
  pub get : State → String → State × Result (Option Value)
  pub set : State → String → Value → ℕ → State × Result {0} Unit
  pub del : State → String → State × Result {0} Unit
  pub lrange : State → String → State × Result (List String)
  pub rpop : State → String → State × Result (Option String)
  pub lrem : State → String → String → State
  pub exec : State → List Command → State × Result {0} Unit

-- The hashing of a token, with its salt, the check of a token against a hash, the digest of a token
-- in hexadecimal, and a number in decimal.
pub record Hashing : Type 0 where
  pub hash : String → String → Result String
  pub verify : String → String → Bool
  pub digest : String → String
  pub show : ℕ → String

pub record SessionStore : Type 0 where
  pub token_expiry : ℕ
  pub max_sessions : ℕ

abbrev pub session_key : String → String
session_key id = "session:id:" <> id

module _ (R : Redis) (H : Hashing) (C : SessionStore) where
  abbrev pub user_key : ℕ → String
  user_key user_id = "session:user:" <> H.show user_id

  abbrev pub delete_popped : R.State → Option String → R.State
  delete_popped s none = s
  delete_popped s (some id) = if id == "" then s else (R.del s (session_key id)).0

  -- The loop that removes the oldest sessions.
  abbrev pub remove_oldest : ℕ → String → R.State → R.State × Result {0} Unit
  remove_oldest zero key s = (s, ok tt)
  remove_oldest (suc n) key s =
      let (s', popped) = R.rpop s key in
      elim popped [
        | err e ↦ (s', err ("failed to remove old session: " <> e))
        | ok o ↦ remove_oldest n key (delete_popped s' o)
      ]

  abbrev pub enforce_on : String → R.State → List String → R.State × Result {0} Unit
  enforce_on key s ids =
      if leb C.max_sessions (length ids)
      then remove_oldest (length ids - C.max_sessions + 1) key s
      else (s, ok tt)

  abbrev pub enforce_read : String → R.State × Result (List String) → R.State × Result {0} Unit
  enforce_read key (s, err e) = (s, err ("failed to get user sessions: " <> e))
  enforce_read key (s, ok ids) = enforce_on key s ids

  abbrev pub enforce_session_limit : ℕ → R.State → R.State × Result {0} Unit
  enforce_session_limit user_id s = enforce_read (user_key user_id) (R.lrange s (user_key user_id))

  abbrev pub store_commands : ℕ → String → Session → List Command
  store_commands user_id id session =
      set_session (session_key id) (marshal session) C.token_expiry
      ∷ push_front (user_key user_id) id
      ∷ expire_list (user_key user_id) C.token_expiry
      ∷ trim_list (user_key user_id) C.max_sessions
      ∷ []

  abbrev pub store_session :
      ℕ → String → String → Session → R.State → Result {0} Unit → R.State × Result Session
  store_session user_id id token session s (err e) =
      (s, err ("failed to enforce session limit: " <> e))
  store_session user_id id token session s (ok u) =
      let (s', stored) = R.exec s (store_commands user_id id session) in
      (
        s',
        elim stored [
          | err e ↦ err ("failed to store session: " <> e)
          | ok v ↦ ok (record session { refresh_token = token })
        ],
      )

  abbrev pub new_session : ℕ → ℕ → List (String × String) → String → Session
  new_session now user_id metadata hashed = record {
    user_id = user_id;
    refresh_token = hashed;
    created_at = now;
    expires_at = now + C.token_expiry;
    last_used = now;
    metadata = metadata;
  }

  unfoldable pub create_session :
      ℕ → String → Result String → ℕ → List (String × String) → R.State → R.State × Result Session
  create_session now salt (err e) user_id metadata s =
      (s, err ("failed to generate refresh token: " <> e))
  create_session now salt (ok token) user_id metadata s = elim (H.hash salt token) [
    | err e ↦ (s, err ("failed to hash refresh token: " <> e))
    | ok hashed ↦
        let (s', limited) = enforce_session_limit user_id s in
        store_session user_id (H.digest token) token (new_session now user_id metadata hashed) s'
          limited
  ]

  abbrev pub delete_found : String → R.State → Result (Option Value) → R.State × Result {0} Unit
  delete_found id s (err e) = (s, err ("failed to get session for deletion: " <> e))
  delete_found id s (ok none) = (s, ok tt)
  delete_found id s (ok (some (other e))) = (s, err ("failed to unmarshal session: " <> e))
  delete_found id s (ok (some (marshal d))) =
      R.del (R.lrem s (user_key d.user_id) id) (session_key id)

  unfoldable pub delete_session : String → R.State → R.State × Result {0} Unit
  delete_session id s = let (s', read) = R.get s (session_key id) in delete_found id s' read

  abbrev pub keep_session : ℕ → String → Session → R.State → R.State × Result Session
  keep_session now id d s =
      let used = record d { last_used = now } in
      let (s', written) = R.set s (session_key id) (marshal used) C.token_expiry in
      (s', elim written [ err e ↦ err ("failed to update session: " <> e) | ok u ↦ ok used ])

  abbrev pub check_session : ℕ → String → String → R.State → Session → R.State × Result Session
  check_session now id token s d =
      if ltb d.expires_at now
      then ((delete_session id s).0, err "session expired")
      else if not (H.verify d.refresh_token token)
      then (s, err "invalid refresh token")
      else keep_session now id d s

  abbrev pub validate_found :
      ℕ → String → String → R.State → Result (Option Value) → R.State × Result Session
  validate_found now id token s (err e) = (s, err ("failed to get session: " <> e))
  validate_found now id token s (ok none) = (s, err "session not found")
  validate_found now id token s (ok (some (other e))) =
      (s, err ("failed to unmarshal session: " <> e))
  validate_found now id token s (ok (some (marshal d))) = check_session now id token s d

  unfoldable pub validate_session : ℕ → String → String → R.State → R.State × Result Session
  unfolding delete_session
  validate_session now id token s =
      let (s', read) = R.get s (session_key id) in validate_found now id token s' read

  abbrev pub rotated : ℕ → Session → String → Session
  rotated now d hashed = record d {
    refresh_token = hashed;
    last_used = now;
    expires_at = now + C.token_expiry;
  }

  abbrev pub write_rotated :
      ℕ → String → String → Session → String → R.State → R.State × Result Session
  write_rotated now id token d hashed s =
      let (s', written) =
        R.set s (session_key id) (marshal (rotated now d hashed)) C.token_expiry in
      (
        s',
        elim written [
          | err e ↦ err ("failed to update session: " <> e)
          | ok u ↦ ok (record (rotated now d hashed) { refresh_token = token })
        ],
      )

  abbrev pub rotate_checked :
      ℕ → String → Result String → String → R.State → Result Session → R.State × Result Session
  rotate_checked now salt token id s (err e) =
      (s, err ("failed to validate session for rotation: " <> e))
  rotate_checked now salt (err e) id s (ok d) =
      (s, err ("failed to generate new refresh token: " <> e))
  rotate_checked now salt (ok token) id s (ok d) = elim (H.hash salt token) [
    | err e ↦ (s, err ("failed to hash new refresh token: " <> e))
    | ok hashed ↦ write_rotated now id token d hashed s
  ]

  unfoldable pub rotate_token :
      ℕ → String → Result String → String → String → R.State → R.State × Result Session
  unfolding validate_session
  rotate_token now salt token id current s =
      let (s', valid) = validate_session now id current s in
      rotate_checked now salt token id s' valid

  abbrev pub delete_each : List String → R.State → R.State
  delete_each [] s = s
  delete_each (id ∷ ids) s = delete_each ids (R.del s (session_key id)).0

  abbrev pub delete_listed_sessions : ℕ → R.State × Result (List String) → R.State × Result {0} Unit
  delete_listed_sessions user_id (s, err e) = (s, err ("failed to get user sessions: " <> e))
  delete_listed_sessions user_id (s, ok ids) = R.del (delete_each ids s) (user_key user_id)

  unfoldable pub delete_all_user_sessions : ℕ → R.State → R.State × Result {0} Unit
  delete_all_user_sessions user_id s =
      delete_listed_sessions user_id (R.lrange s (user_key user_id))

  -- A session that is missing, cannot be read or is corrupted is skipped; the hash is left out.
  abbrev pub shown : Result (Option Value) → List Session → List Session
  shown (err e) ds = ds
  shown (ok none) ds = ds
  shown (ok (some (other e))) ds = ds
  shown (ok (some (marshal d))) ds = record d { refresh_token = "" } ∷ ds

  abbrev pub get_each : List String → R.State → R.State × List Session
  get_each [] s = (s, [])
  get_each (id ∷ ids) s =
      let (s', read) = R.get s (session_key id) in
      let (s'', ds) = get_each ids s' in (s'', shown read ds)

  abbrev pub get_listed : R.State × Result (List String) → R.State × Result (List Session)
  get_listed (s, err e) = (s, err ("failed to get user sessions: " <> e))
  get_listed (s, ok ids) = let (s', ds) = get_each ids s in (s', ok ds)

  unfoldable pub get_user_sessions : ℕ → R.State → R.State × Result (List Session)
  get_user_sessions user_id s = get_listed (R.lrange s (user_key user_id))
