-- ===== src/Workspace/Environments.antt =====
-- The environments of a project: src/modules/environments/environment.service.ts, with the foreign
-- keys of src/db/schema.ts that go with a deleted row.
pub mod Limits
use flagraft.Prelude.{
  ℕ, Bool, true, false, not, ◌&&◌, Option, none, some, List, [], ◌∷◌, ◌++◌, String, ◌==◌, leb,
  length, select, any, find, update, remove, or_else, if◌then◌else◌,
}
use flagraft.Db.{Db, Environment, FlagEnvironment, ApiKey, PendingFlagToggle, TargetingStrategy}
use flagraft.Db.Find.{has_slug}
use flagraft.Outcome.{
  Exec, Result, ok, err, app_error, unique_violation, db_error, pure, gets, modify, require,
  throw_if, ◌>>=◌, ◌>>◌,
}

abbrev pub max_environments_per_project : ℕ
max_environments_per_project = 3

pub record CreateEnvironmentInput : Type 0 where
  pub name : String
  pub slug : String
  pub protected : Option Bool

pub record UpdateEnvironmentInput : Type 0 where
  pub name : Option String
  pub protected : Option Bool

abbrev pub in_project : String → Environment → Bool
in_project project_id e = e.project_id == project_id

abbrev pub is_environment : String → String → Environment → Bool
is_environment project_id id e = e.project_id == project_id && e.id == id

abbrev pub new_environment : ℕ → String → String → CreateEnvironmentInput → Environment
new_environment now fresh project_id input = record {
  id = fresh;
  project_id = project_id;
  name = input.name;
  slug = input.slug;
  protected = or_else input.protected false;
  created_at = now;
}

unfoldable pub create_environment :
    ℕ → String → String → CreateEnvironmentInput → Exec Db Environment
create_environment now fresh project_id input db =
    if leb max_environments_per_project (length (select (in_project project_id) db.environments))
    then (
      err (
          app_error "A project can have at most 3 environments. Delete one before adding another."
            409 "Conflict"),
      db,
    )
    else if any (has_slug project_id input.slug) db.environments
    then (err unique_violation, db)
    else if not (any (λ p. p.id == project_id) db.projects)
    then (err db_error, db)
    else (
      ok (new_environment now fresh project_id input),
      record db {
        environments = db.environments ++ new_environment now fresh project_id input ∷ [];
      },
    )

abbrev pub set_environment : UpdateEnvironmentInput → Environment → Environment
set_environment input e = record e {
  name = or_else input.name e.name;
  protected = or_else input.protected e.protected;
}

unfoldable pub update_environment : String → String → UpdateEnvironmentInput → Exec Db Environment
update_environment project_id id input = do
  modify λ (db : Db). record db {
    environments = update (is_environment project_id id) (set_environment input) db.environments;
  }
  rows ← gets λ db. db.environments
  require (find (is_environment project_id id) rows)
      (app_error "Environment not found" 404 "NotFound")

abbrev pub belongs : Option String → String → Bool
belongs none id = false
belongs (some e) id = e == id

-- The rows of the other tables that go with an environment.
unfoldable pub cascade_environment : String → Db → Db
cascade_environment id db = record db {
  flag_environments = remove (λ (r : FlagEnvironment). r.environment_id == id) db.flag_environments;
  api_keys = remove (λ (r : ApiKey). belongs r.environment_id id) db.api_keys;
  pending_toggles = remove (λ (r : PendingFlagToggle). r.environment_id == id) db.pending_toggles;
  targeting_strategies =
      remove (λ (r : TargetingStrategy). r.environment_id == id) db.targeting_strategies;
}

-- The delete statement.
unfoldable pub remove_environment : String → String → Db → Db
unfolding cascade_environment
remove_environment project_id id db =
    if any (is_environment project_id id) db.environments
    then record (cascade_environment id db) {
      environments = remove (is_environment project_id id) db.environments;
    }
    else db

unfoldable pub delete_environment : String → String → Exec Db (Unit {0})
unfolding remove_environment
delete_environment project_id id = do
  rows ← gets λ db. db.environments
  existing ←
      require (find (is_environment project_id id) rows)
        (app_error "Environment not found" 404 "NotFound")
  throw_if existing.protected (
      app_error "This environment is protected. Turn protection off before deleting it." 409
        "Conflict")
  modify λ (db : Db). remove_environment project_id id db
