-- ===== src/Auth/Session/Accepted.antt =====
-- Whom the preHandler hook of src/plugins/auth.ts lets in, and as what.
use flagraft.Prelude.{
  ℕ, true, false, Option, none, some, String, ◌==◌, ◌≡◌, ◌↔◌, arith, find, eq_iff, starts_with,
  Option-cases, inl, inr,
}
use flagraft.Db.{Db, User, ApiKey}
use flagraft.Outcome.{ok}
use flagraft.Auth.Guards.{KeyContext}
use flagraft.Auth.Session.{
  CachedApiKey, cached_of, load_api_key, Claims, Incoming, session_context, key_context, check_user,
  check_key, check_session, check_authorization, authenticate, is_expired,
}

module _ (verify : String → Option Claims) (hash_key : String → String)
    (held : String → Option (Option CachedApiKey)) where
  -- The user whom the database has for the cookie, active and with the cookie's session version.
  pub record IsSession (db : Db) (cookie : String) (context : KeyContext) : Type 0 where
    pub claims : Claims
    pub user : User
    pub verified : verify cookie ≡ some claims
    pub found : find (λ (u : User). u.id == claims.sub) db.users ≡ some user
    pub active : user.status ≡ "active"
    pub current : claims.sv ≡ some user.session_version
    pub granted : context ≡ session_context user

  check_session-IsSession :
      (db : Db) (cookie : String) (context : KeyContext)
      → check_session verify hash_key held db cookie ≡ ok context
      → IsSession db cookie context
  unfolding check_session check_user
  check_session-IsSession db cookie context h = elim (Option-cases (verify cookie)) [
    | inl bad ↦ ground arith
    | inr (claims, good) ↦ elim (Option-cases (find (λ (u : User). u.id == claims.sub) db.users)) [
      | inl missing ↦ ground arith
      | inr (user, found) ↦ record {
        claims = claims;
        user = user;
        verified = good;
        found = found;
        active = ground (arith, eq_iff user.status "active");
        current = ground arith;
        granted = ground arith;
      }
    ]
  ]

  IsSession-check_session :
      (db : Db) (cookie : String) (context : KeyContext)
      → IsSession db cookie context
      → check_session verify hash_key held db cookie ≡ ok context
  unfolding check_session check_user
  IsSession-check_session db cookie context s =
      rw (s.granted, check_session, s.verified, check_user, s.found)
        (ground (arith, s.current, s.active, eq_iff s.user.status "active"))

  -- The key that the database has for the header, not expired.
  pub record IsKey (db : Db) (now : ℕ) (authorization : String) (context : KeyContext)
      : Type 0 where
    pub key : ApiKey
    pub found : find (λ (k : ApiKey). k.key_hash == hash_key authorization) db.api_keys ≡ some key
    pub in_time : is_expired now key.expires_at ≡ false
    pub granted : context ≡ key_context (cached_of key)

  IsKey-IsKey :
      (db : Db) (now : ℕ) (authorization : String) (context : KeyContext)
      → check_key now (load_api_key db (hash_key authorization)) ≡ ok context
      → IsKey db now authorization context
  unfolding check_key load_api_key
  IsKey-IsKey db now authorization context h =
      elim (Option-cases
        (find (λ (k : ApiKey). k.key_hash == hash_key authorization) db.api_keys)) [
          | inl missing ↦ ground arith
          | inr (key, found) ↦ record {
            key = key;
            found = found;
            in_time = ground arith;
            granted = ground arith;
          }
        ]

  IsKey-key :
      (db : Db) (now : ℕ) (authorization : String) (context : KeyContext)
      → IsKey db now authorization context
      → check_key now (load_api_key db (hash_key authorization)) ≡ ok context
  unfolding check_key load_api_key
  IsKey-key db now authorization context k =
      rw (k.granted, load_api_key, k.found, check_key, k.in_time)

-- A request with a session cookie is let in with a context exactly when the cookie's token
-- verifies and the database has, under the token's subject, an active user with the token's
-- session version; the context is that user's.
pub authenticate-IsSession_iff :
    (verify : String → Option Claims) (hash_key : String → String)
    (held : String → Option (Option CachedApiKey)) (db : Db) (now : ℕ) (incoming : Incoming)
    (cookie : String) (context : KeyContext)
    → incoming.skip_auth ≡ false
    → starts_with incoming.url "/api/" ≡ true
    → incoming.session_cookie ≡ some cookie
    → (cookie == "") ≡ false
    → (authenticate verify hash_key held db now incoming ≡ ok (some context))
      ↔ IsSession verify hash_key held db cookie context
unfolding authenticate
authenticate-IsSession_iff verify hash_key held db now incoming cookie context a b c d =
    rw (a, b, c, d)
      (
        λ h. check_session-IsSession verify hash_key held db cookie context (ground arith),
        λ s. rw (IsSession-check_session verify hash_key held db cookie context s),
      )

-- Without a cookie, and where the cache holds nothing for the key, a request is let in exactly
-- when the database has a key with the hash of its header that has not expired; the context is
-- that key's.
pub authenticate-IsKey_iff :
    (verify : String → Option Claims) (hash_key : String → String)
    (held : String → Option (Option CachedApiKey)) (db : Db) (now : ℕ) (incoming : Incoming)
    (authorization : String) (context : KeyContext)
    → incoming.skip_auth ≡ false
    → starts_with incoming.url "/api/" ≡ true
    → incoming.session_cookie ≡ none
    → incoming.authorization ≡ some authorization
    → (authorization == "") ≡ false
    → held (hash_key authorization) ≡ none
    → (authenticate verify hash_key held db now incoming ≡ ok (some context))
      ↔ IsKey verify hash_key held db now authorization context
unfolding authenticate check_authorization
authenticate-IsKey_iff verify hash_key held db now incoming authorization context a b c d e f =
    rw (a, b, c, d, e, f)
      (
        λ h. IsKey-IsKey verify hash_key held db now authorization context (ground arith),
        λ k. rw (IsKey-key verify hash_key held db now authorization context k),
      )
