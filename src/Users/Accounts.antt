-- ===== src/Users/Accounts.antt =====
-- Accounts: `createUser` and `validateCredentials` of src/modules/auth/auth.service.ts, and
-- `assertNotLastOwner`, `patchUser`, `resetPassword` and `deleteUser` of
-- src/modules/users/user.service.ts. Ids of new rows are the database's choice.
use flagraft.Prelude.{
  ℕ, ◌+◌, Bool, false, not, ◌&&◌, ◌||◌, Option, none, some, List, [], ◌∷◌, ◌++◌, String, ◌==◌, find,
  any, select, update, remove, length, leb, or_else, split, trim, if◌then◌else◌,
}
use flagraft.Db.{Db, User, FeatureFlag}
use flagraft.Outcome.{
  Exec, app_error, unique_violation, pure, throw_if, modify, gets, transaction, ◌>>=◌, ◌>>◌,
}
use flagraft.Auth.Guards.{truthy}

-- `toLowerCase`, `toUpperCase` and argon2's `hash` and `verify`: the run time's and the package
-- argon2's. `hash` is at the salt that it draws.
pub record Primitives : Type 0 where
  pub to_lower : String → String
  pub to_upper : String → String
  pub hash : String → String
  pub verify : String → String → Bool

first_letters : List String → String
first_letters [] = String.[]
first_letters (String.[] ∷ words) = first_letters words
first_letters (String.◌∷◌ c s ∷ words) = String.◌∷◌ c (first_letters words)

first_two : String → String
first_two String.[] = String.[]
first_two (String.◌∷◌ c String.[]) = String.◌∷◌ c String.[]
first_two (String.◌∷◌ c (String.◌∷◌ d s)) = String.◌∷◌ c (String.◌∷◌ d String.[])

abbrev pub has_id : String → User → Bool
has_id id u = u.id == id

abbrev pub is_active_owner : User → Bool
is_active_owner u = u.role == "owner" && u.status == "active"

pub record NewUser : Type 0 where
  pub email : String
  pub password : String
  pub name : String
  pub role : Option String
  pub status : Option String

pub record PatchInput : Type 0 where
  pub role : Option String
  pub status : Option String
  pub name : Option String

pub data Login : Type 0 where
  granted : User → Login
  suspended refused : Login

abbrev pub dummy_hash : String
dummy_hash =
    "$argon2id$v=19$m=65536,t=3,p=4$c29tZXNhbHRzb21lc2FsdA$RdescudvJCsgt3ub+b+dWRWJTmaaJObG"

abbrev pub stored_hash : Option User → String
stored_hash none = dummy_hash
stored_hash (some user) = user.password_hash

unfoldable pub validate_user : ℕ → Bool → Option User → Db → Login × Db
validate_user now valid none db = (refused, db)
validate_user now valid (some user) db =
    if not valid
    then (refused, db)
    else if user.status == "suspended"
    then (suspended, db)
    else if not (user.status == "active")
    then (refused, db)
    else (
      granted (record user { last_login_at = some now }),
      record db {
        users =
            update (has_id user.id) (λ (u : User). record u { last_login_at = some now }) db.users;
      },
    )

-- Deleting or demoting the only active owner is refused.
unfoldable pub assert_not_last_owner : String → Exec Db (Unit {0})
assert_not_last_owner id = do
  owners ← gets λ db. select is_active_owner db.users
  throw_if (any (has_id id) owners && leb (length owners) 1) (
      app_error "The workspace must keep at least one active owner. Promote someone else first." 409
        "Conflict")

abbrev pub set_text : Option String → String → String
set_text input old = if truthy input then or_else input old else old

abbrev pub takes_owner_out : PatchInput → Bool
takes_owner_out input =
    (truthy input.role && not (or_else input.role "" == "owner"))
    || (truthy input.status && or_else input.status "" == "suspended")

abbrev pub text_is : Option String → String → Bool
text_is none t = false
text_is (some s) t = s == t

-- The rows that reference a deleted user go with it, or lose their author.
unfoldable pub delete_references : String → Db → Db
delete_references id db = record db {
  user_projects = remove (λ m. m.user_id == id) db.user_projects;
  feature_flags =
      update (λ f. text_is f.author_id id) (λ (f : FeatureFlag). record f { author_id = none })
        db.feature_flags;
}

unfoldable pub delete_user : String → Exec Db (Unit {0})
unfolding assert_not_last_owner delete_references
delete_user id = transaction (do
  assert_not_last_owner id
  modify λ (db : Db). record (delete_references id db) { users = remove (has_id id) db.users })

module _ (prims : Primitives) where
  -- `name.split(' ').map((w) => w[0]).join('').toUpperCase().slice(0, 2)`
  unfoldable pub initials_of : String → String
  unfolding first_letters first_two
  initials_of name = first_two (prims.to_upper (first_letters (split b' ' name)))

  -- `email.toLowerCase().trim()`
  abbrev pub normal_email : String → String
  normal_email email = trim (prims.to_lower email)

  -- The row that is inserted.
  unfoldable pub new_user : ℕ → String → NewUser → User
  unfolding initials_of
  new_user now fresh input = record {
    id = fresh;
    email = normal_email input.email;
    password_hash = prims.hash input.password;
    name = input.name;
    role = or_else input.role "viewer";
    status = or_else input.status "active";
    is_system = false;
    initials = initials_of input.name;
    last_login_at = none;
    session_version = 0;
    invite_token_hash = none;
    invite_expires_at = none;
    created_at = now;
    updated_at = now;
  }

  unfoldable pub create_user : ℕ → String → NewUser → Exec Db User
  unfolding new_user
  create_user now fresh input = do
    taken ← gets λ db. any (λ (u : User). u.email == normal_email input.email) db.users
    throw_if taken unique_violation
    let user = new_user now fresh input
    modify λ (db : Db). record db { users = db.users ++ user ∷ [] }
    pure user

  unfoldable pub validate_credentials : ℕ → String → String → Db → Login × Db
  unfolding validate_user
  validate_credentials now email password db =
      let user = find (λ (u : User). u.email == normal_email email) db.users in
      validate_user now (prims.verify (stored_hash user) password) user db

  unfoldable pub apply_patch : ℕ → PatchInput → User → User
  unfolding initials_of
  apply_patch now input u = record u {
    role = set_text input.role u.role;
    status = set_text input.status u.status;
    name = set_text input.name u.name;
    initials = if truthy input.name then initials_of (or_else input.name "") else u.initials;
    updated_at = now;
  }

  -- The updated row, `none` where no user has the id.
  unfoldable pub patch_user : ℕ → String → PatchInput → Exec Db (Option User)
  unfolding assert_not_last_owner apply_patch
  patch_user now id input = transaction (do
    if takes_owner_out input then assert_not_last_owner id else pure tt
    modify λ (db : Db). record db { users = update (has_id id) (apply_patch now input) db.users }
    gets λ db. find (has_id id) db.users)

  unfoldable pub apply_reset : ℕ → String → Bool → User → User
  apply_reset now password invited u = record u {
    password_hash = prims.hash password;
    session_version = u.session_version + 1;
    updated_at = now;
    status = if invited then "active" else u.status;
    invite_token_hash = if invited then none else u.invite_token_hash;
    invite_expires_at = if invited then none else u.invite_expires_at;
  }

  unfoldable pub reset_password : ℕ → String → String → Db → Option User × Db
  unfolding apply_reset
  reset_password now id password db = elim (find (has_id id) db.users) [
    | none ↦ (none, db)
    | some user ↦
        let rows =
          update (has_id id) (apply_reset now password (user.status == "invited")) db.users in
        (find (has_id id) rows, record db { users = rows })
  ]
