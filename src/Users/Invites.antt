-- ===== src/Users/Invites.antt =====
-- Invites: `inviteUser`, `reissueInvite`, `cancelInvite`, `getUserByInviteToken` and `acceptInvite`
-- of src/modules/users/user.service.ts. `hash_token` is SHA-256, and `token` the random text that a
-- call draws.
use flagraft.Prelude.{
  ℕ, ◌+◌, ◌-◌, ◌*◌, Bool, true, false, not, ◌&&◌, ◌||◌, Option, none, some, List, [], ◌∷◌, ◌++◌,
  String, ◌==◌, find, any, update, remove, map, ltb, before, if◌then◌else◌,
}
use flagraft.Db.{Db, User, UserProject}
use flagraft.Outcome.{Exec, ok, err, db_error, unique_violation, modify, ◌>>=◌, ◌>>◌}
use flagraft.Users.Accounts.{Primitives, has_id, text_is, delete_references, create_user}

abbrev pub invite_ttl_ms : ℕ
invite_ttl_ms = 24 * 60 * 60 * 1000

abbrev pub resend_cooldown_ms : ℕ
resend_cooldown_ms = 2 * 60 * 1000

pub record Invite : Type 0 where
  pub user : User
  pub token : String
  pub expires_at : ℕ

pub data Reissue : Type 0 where
  reissued : Invite → Reissue
  cooldown missing : Reissue

pub data Cancel : Type 0 where
  canceled already_active not_found : Cancel

module _ (hash_token : String → String) where
  -- `status = 'invited' and (invite_expires_at is null or invite_expires_at < threshold)`
  abbrev pub may_reissue : ℕ → String → User → Bool
  may_reissue now id u = u.id == id && u.status == "invited" && elim u.invite_expires_at [
    | none ↦ true
    | some t ↦ ltb t (now + invite_ttl_ms - resend_cooldown_ms)
  ]

  unfoldable pub with_invite : ℕ → String → User → User
  with_invite now token u = record u {
    invite_token_hash = some (hash_token token);
    invite_expires_at = some (now + invite_ttl_ms);
    updated_at = now;
  }

  unfoldable pub after_reissue : ℕ → String → Option User → Option User → Reissue
  after_reissue now token (some updated) later =
      reissued (record { user = updated; token = token; expires_at = now + invite_ttl_ms })
  after_reissue now token none none = missing
  after_reissue now token none (some user) = if user.status == "invited" then cooldown else missing

  -- One statement updates the row where the invite may be issued again, and returns it.
  unfoldable pub reissue_invite : ℕ → String → String → Db → Reissue × Db
  unfolding with_invite after_reissue
  reissue_invite now token id db = (
    after_reissue now token
        (elim (find (may_reissue now id) db.users) [
          | none ↦ none
          | some u ↦ some (with_invite now token u)
        ])
        (find (has_id id) db.users),
    record db { users = update (may_reissue now id) (with_invite now token) db.users },
  )

  unfoldable pub get_user_by_invite_token : ℕ → String → Db → Option User
  get_user_by_invite_token now token db =
      elim (find (λ (u : User). text_is u.invite_token_hash (hash_token token)) db.users) [
        | none ↦ none
        | some user ↦ elim user.invite_expires_at [
          | none ↦ none
          | some t ↦ if ltb t now then none else some user
        ]
      ]

abbrev pub is_invited : String → User → Bool
is_invited id u = u.id == id && u.status == "invited"

unfoldable pub cancel_invite : String → Db → Cancel × Db
cancel_invite id db =
    if any (is_invited id) db.users
    then (canceled, record (delete_references id db) { users = remove (is_invited id) db.users })
    else (if any (has_id id) db.users then already_active else not_found, db)

-- A project that is named twice would be two equal memberships.
abbrev pub has_duplicates : List String → Bool
has_duplicates [] = false
has_duplicates (p ∷ ps) = any (λ q. q == p) ps || has_duplicates ps

abbrev pub memberships : String → List String → List UserProject
memberships user_id project_ids =
    map (λ p. record { user_id = user_id; project_id = p }) project_ids

-- The rows of user_projects for the new user: a failing row fails the statement, and the foreign
-- key to the projects is tested once all rows are in.
unfoldable pub add_memberships : Invite → List String → Exec Db Invite
add_memberships invite project_ids db =
    if has_duplicates project_ids
    then (err unique_violation, db)
    else if any (λ p. not (any (λ q. q.id == p) db.projects)) project_ids
    then (err db_error, db)
    else (
      ok invite,
      record db { user_projects = db.user_projects ++ memberships invite.user.id project_ids },
    )

module _ (prims : Primitives) (hash_token : String → String) where
  unfoldable pub activated : ℕ → String → User → User
  activated now password u = record u {
    password_hash = prims.hash password;
    status = "active";
    invite_token_hash = none;
    invite_expires_at = none;
    updated_at = now;
  }

  unfoldable pub accept_invite : ℕ → String → String → Db → Option User × Db
  unfolding get_user_by_invite_token activated
  accept_invite now token password db = elim (get_user_by_invite_token hash_token now token db) [
    | none ↦ (none, db)
    | some user ↦
        let rows = update (has_id user.id) (activated now password) db.users in
        (find (has_id user.id) rows, record db { users = rows })
  ]

  -- Three statements in no transaction (a new row has `updated_at` at `now` already): what the first two write stays where the third fails.
  unfoldable pub invite_user :
      ℕ → String → String → String → String → String → List String → Exec Db Invite
  invite_user now fresh token password email role project_ids = do
    user ← create_user prims now fresh (record {
      email = email;
      password = password;
      name = before b'@' email;
      role = some role;
      status = some "invited";
    })
    modify λ (db : Db). record db {
      users = update (has_id user.id) (with_invite hash_token now token) db.users;
    }
    add_memberships (record { user = user; token = token; expires_at = now + invite_ttl_ms })
        project_ids
