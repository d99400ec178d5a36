-- ===== src/Workspace/Keys.antt =====
-- API keys: `createKey` and `deleteKey` of src/modules/keys/key.service.ts. The generated key's
-- prefix and hash are arguments, since it is random text.
pub mod Scopes
use flagraft.Prelude.{
  ℕ, ◌+◌, ◌*◌, Bool, true, false, not, ◌&&◌, ◌||◌, Option, none, some, List, [], ◌∷◌, ◌++◌, String,
  ◌==◌, any, find, remove, is_some, or_else, if◌then◌else◌,
}
use flagraft.Db.{Db, ApiKey, Environment, Project, Security}
use flagraft.Db.Find.{project_at}
use flagraft.Outcome.{
  Exec, Result, ok, err, app_error, unique_violation, db_error, pure, gets, modify, require,
  throw_if, ◌>>=◌, ◌>>◌,
}
use flagraft.Auth.Guards.{truthy}
use flagraft.Workspace.Environments.{is_environment}

abbrev pub day_ms : ℕ
day_ms = 24 * 60 * 60 * 1000

pub record CreateKeyInput : Type 0 where
  pub type : String
  pub environment_id : Option String
  pub description : String

pub record GeneratedKey : Type 0 where
  pub prefix : String
  pub hash : String

abbrev pub ttl_of_security : Option Security → Option ℕ
ttl_of_security none = none
ttl_of_security (some s) = s.key_ttl_days

-- `project?.settings.security?.keyTtlDays`
abbrev pub key_ttl_days : Db → String → Option ℕ
key_ttl_days db project_id = elim (project_at db project_id) [
  | none ↦ none
  | some project ↦ ttl_of_security project.settings.security
]

-- Only admin keys expire, and only in a project that says after how many days.
unfoldable pub expiry : ℕ → Db → String → String → Option ℕ
expiry now db project_id type =
    if type == "admin"
    then elim (key_ttl_days db project_id) [ none ↦ none | some days ↦ some (now + days * day_ms) ]
    else none

unfoldable pub new_key : ℕ → String → GeneratedKey → String → CreateKeyInput → Db → ApiKey
unfolding expiry
new_key now fresh generated project_id input db = record {
  id = fresh;
  project_id = some project_id;
  environment_id = input.environment_id;
  key_hash = generated.hash;
  key_prefix = generated.prefix;
  type = input.type;
  description = some input.description;
  created_at = now;
  last_used_at = none;
  expires_at = expiry now db project_id input.type;
}

-- The insert: the hash is unique, and the project is a foreign key.
unfoldable pub insert_key : String → ApiKey → Exec Db ApiKey
insert_key project_id key db =
    if any (λ (k : ApiKey). k.key_hash == key.key_hash) db.api_keys
    then (err unique_violation, db)
    else if not (any (λ (p : Project). p.id == project_id) db.projects)
    then (err db_error, db)
    else (ok key, record db { api_keys = db.api_keys ++ key ∷ [] })

-- An environment that the key is for is one of the project.
unfoldable pub has_environment : Db → String → Option String → Bool
has_environment db project_id none = true
has_environment db project_id (some id) =
    id == "" || any (is_environment project_id id) db.environments

unfoldable pub create_key : ℕ → String → GeneratedKey → String → CreateKeyInput → Exec Db ApiKey
unfolding has_environment new_key insert_key
create_key now fresh generated project_id input = do
  throw_if (input.type == "client" && not (truthy input.environment_id))
      (app_error "Client keys require environmentId" 400 "BadRequest")
  throw_if (input.type == "admin" && truthy input.environment_id)
      (app_error "Admin keys cannot be scoped to an environment" 400 "BadRequest")
  known ← gets λ db. has_environment db project_id input.environment_id
  throw_if (not known) (app_error "Environment not found" 404 "NotFound")
  key ← gets λ db. new_key now fresh generated project_id input db
  insert_key project_id key

abbrev pub is_key : String → String → ApiKey → Bool
is_key project_id key_id k =
    k.id == key_id && elim k.project_id [ none ↦ false | some p ↦ p == project_id ]

-- The deleted row is the answer, with which the route evicts the key from the cache.
unfoldable pub delete_key : String → String → Exec Db ApiKey
delete_key project_id key_id = do
  rows ← gets λ db. db.api_keys
  row ← require (find (is_key project_id key_id) rows) (app_error "Key not found" 404 "NotFound")
  modify λ (db : Db). record db { api_keys = remove (is_key project_id key_id) db.api_keys }
  pure row
