-- ===== src/Auth/Session.antt =====
-- Who is asking: the preHandler hook of src/plugins/auth.ts, `loadApiKey` and `shouldRecordUsage`.
pub mod Accepted
use flagraft.Prelude.{
  ℕ, ◌-◌, Bool, true, false, not, ◌&&◌, ◌||◌, Option, none, some, List, String, ◌==◌, eqb, ltb, leb,
  find, starts_with, is_some, or_else, if◌then◌else◌,
}
use flagraft.Db.{Db, User, ApiKey}
use flagraft.Outcome.{Result, ok, err, app_error, Failure}
use flagraft.Evaluate.Flag.{Dictionary, lookup}
use flagraft.Client.State.{assign}
use flagraft.Auth.Guards.{KeyContext, is_workspace_admin_role, truthy}

pub record CachedApiKey : Type 0 where
  pub id : String
  pub project_id : Option String
  pub environment_id : Option String
  pub type : String
  pub expires_at : Option ℕ

abbrev pub cached_of : ApiKey → CachedApiKey
cached_of key = record {
  id = key.id;
  project_id = key.project_id;
  environment_id = key.environment_id;
  type = key.type;
  expires_at = key.expires_at;
}

unfoldable pub load_api_key : Db → String → Option CachedApiKey
load_api_key db key_hash = elim (find (λ (k : ApiKey). k.key_hash == key_hash) db.api_keys) [
  | none ↦ none
  | some key ↦ some (cached_of key)
]

-- The claims that the hook reads from a verified token.
pub record Claims : Type 0 where
  pub sub : String
  pub sv : Option ℕ

-- What the hook reads of a request.
pub record Incoming : Type 0 where
  pub skip_auth : Bool
  pub url : String
  pub session_cookie : Option String
  pub authorization : Option String

abbrev pub unauthorized : String → Failure
unauthorized message = app_error message 401 "Unauthorized"

-- The context of a browser session.
unfoldable pub session_context : User → KeyContext
session_context user = record {
  key_id = user.id;
  project_id = none;
  environment_id = none;
  type = "admin";
  is_root = is_workspace_admin_role user.role;
  user_id = some user.id;
  user_role = some user.role;
}

unfoldable pub key_context : CachedApiKey → KeyContext
key_context key = record {
  key_id = key.id;
  project_id = key.project_id;
  environment_id = key.environment_id;
  type = key.type;
  is_root = not (is_some key.project_id);
  user_id = none;
  user_role = none;
}

abbrev pub sv_is : Option ℕ → ℕ → Bool
sv_is none n = false
sv_is (some m) n = eqb m n

unfoldable pub check_user : Claims → Option User → Result KeyContext
unfolding session_context
check_user claims none = err (unauthorized "Session expired")
check_user claims (some user) =
    if user.status == "active" && sv_is claims.sv user.session_version
    then ok (session_context user)
    else err (unauthorized "Session expired")

abbrev pub is_expired : ℕ → Option ℕ → Bool
is_expired now none = false
is_expired now (some t) = leb t now

unfoldable pub check_key : ℕ → Option CachedApiKey → Result KeyContext
unfolding key_context
check_key now none = err (unauthorized "Invalid authorization key")
check_key now (some key) =
    if is_expired now key.expires_at
    then err (unauthorized "API key expired")
    else ok (key_context key)

-- The verification of a token's signature and SHA-256 are parameters. `held` is what the cache
-- holds for a key hash: `getOrSet` answers with it, and loads the key where there is nothing.
module _ (verify : String → Option Claims) (hash_key : String → String)
    (held : String → Option (Option CachedApiKey)) where
  unfoldable pub check_session : Db → String → Result KeyContext
  unfolding check_user
  check_session db cookie = elim (verify cookie) [
    | none ↦ err (unauthorized "Session expired")
    | some claims ↦ check_user claims (find (λ (u : User). u.id == claims.sub) db.users)
  ]

  unfoldable pub check_authorization : Db → ℕ → Option String → Result KeyContext
  unfolding check_key load_api_key
  check_authorization db now none = err (unauthorized "Missing authorization header")
  check_authorization db now (some authorization) =
      if authorization == ""
      then err (unauthorized "Missing authorization header")
      else check_key now
          (or_else (held (hash_key authorization)) (load_api_key db (hash_key authorization)))

  -- The hook's decision; `none` where it leaves the request without a context.
  unfoldable pub authenticate : Db → ℕ → Incoming → Result (Option KeyContext)
  unfolding check_session check_authorization
  authenticate db now incoming =
      if incoming.skip_auth || not (starts_with incoming.url "/api/")
      then ok none
      else elim (if truthy incoming.session_cookie
          then check_session db (or_else incoming.session_cookie "")
          else check_authorization db now incoming.authorization) [
            | ok context ↦ ok (some context)
            | err e ↦ err e
          ]

abbrev pub last_used_write_interval_ms : ℕ
last_used_write_interval_ms = 60000

-- The answer, and the map of last writes that it leaves.
unfoldable pub should_record_usage : ℕ → String → Dictionary ℕ → Bool × Dictionary ℕ
unfolding lookup assign
should_record_usage now key_id writes = elim (lookup key_id writes) [
  | none ↦ (true, assign key_id now writes)
  | some previous ↦
      if ltb (now - previous) last_used_write_interval_ms
      then (false, writes)
      else (true, assign key_id now writes)
]
