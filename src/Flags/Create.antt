-- ===== src/Flags/Create.antt =====
-- Creating, changing and deleting a flag: `initialEnabled`, `createFlag`, `patchFlag` and
-- `deleteFlag` of src/modules/flags/flag.service.ts, with the foreign keys of src/db/schema.ts. The
-- answer of the first two is read back by `fetchFlagWithState`, of which the ids and states are
-- modelled: the flag and, for each of its environments, the slug and the switch.
pub mod Protected
use flagraft.Prelude.{
  ℕ, Bool, true, false, not, ◌&&◌, ◌||◌, Option, none, some, List, [], ◌∷◌, ◌++◌, String, ◌==◌, any,
  find, select, update, remove, map, filter_map, or_else, trim, if◌then◌else◌,
}
use flagraft.Db.{
  Db, DefaultFlagState, on, dev, off, FlagDefaults, Project, Environment, FeatureFlag,
  FlagEnvironment, PendingFlagToggle, TargetingStrategy,
}
use flagraft.Db.Find.{has_key, project_at, find_flag}
use flagraft.Outcome.{
  Exec, Result, ok, err, app_error, unique_violation, db_error, pure, gets, modify, throw_if,
  transaction, require, ◌>>=◌, ◌>>◌,
}
use flagraft.Workspace.Environments.{in_project}

pub record CreateFlagInput : Type 0 where
  pub name : String
  pub key : String
  pub description : Option String

pub record PatchFlagInput : Type 0 where
  pub name : Option String
  pub description : Option String

-- What a new flag is by the project's default.
abbrev pub default_enabled : Option DefaultFlagState → String → Bool
default_enabled none slug = false
default_enabled (some on) slug = true
default_enabled (some dev) slug = slug == "development"
default_enabled (some off) slug = false

unfoldable pub initial_enabled : Option DefaultFlagState → String → Bool → Bool → Bool
initial_enabled default_state slug protected allow_protected =
    if protected && not allow_protected then false else default_enabled default_state slug

abbrev pub no_defaults : FlagDefaults
no_defaults = record { default_state = none; stale_flag_days = none; require_description = none }

-- `project?.settings.flagDefaults ?? {}`
abbrev pub defaults_of : Option Project → FlagDefaults
defaults_of none = no_defaults
defaults_of (some project) = or_else project.settings.flag_defaults no_defaults

-- `!input.description?.trim()`
abbrev pub is_blank : Option String → Bool
is_blank none = true
is_blank (some text) = trim text == ""

abbrev pub new_flag : ℕ → String → String → CreateFlagInput → Option String → FeatureFlag
new_flag now fresh project_id input author_id = record {
  id = fresh;
  project_id = project_id;
  name = input.name;
  key = input.key;
  description = input.description;
  author_id = author_id;
  created_at = now;
  updated_at = now;
}

abbrev pub new_state : ℕ → String → Option DefaultFlagState → Bool → Environment → FlagEnvironment
new_state now flag_id default_state allow_protected e = record {
  flag_id = flag_id;
  environment_id = e.id;
  enabled = initial_enabled default_state e.slug e.protected allow_protected;
  updated_at = now;
}

-- The insert of the flag: the key is unique in the project, which must exist.
unfoldable pub insert_flag : String → FeatureFlag → Exec Db FeatureFlag
insert_flag project_id flag db =
    if any (has_key project_id flag.key) db.feature_flags
    then (err unique_violation, db)
    else if not (any (λ (p : Project). p.id == project_id) db.projects)
    then (err db_error, db)
    else (ok flag, record db { feature_flags = db.feature_flags ++ flag ∷ [] })

-- The statements of the transaction.
unfoldable pub write_flag :
    ℕ → String → String → CreateFlagInput → Option String → Bool → Exec Db FeatureFlag
unfolding insert_flag
write_flag now fresh project_id input author_id allow_protected = do
  defaults ← gets λ db. defaults_of (project_at db project_id)
  throw_if (or_else defaults.require_description false && is_blank input.description)
      (app_error "A description is required for new flags in this project" 400 "BadRequest")
  flag ← insert_flag project_id (new_flag now fresh project_id input author_id)
  modify λ (db : Db). record db {
    flag_environments =
        db.flag_environments
        ++ map (new_state now flag.id defaults.default_state allow_protected)
            (select (in_project project_id) db.environments);
  }
  pure flag

-- A flag with the slug and the switch of each environment that has a state for it.
pub record FlagView : Type 0 where
  pub flag : FeatureFlag
  pub states : List (String × Bool)

unfoldable pub fetch_flag : String → String → Exec Db FlagView
fetch_flag project_id flag_key = do
  flag ← find_flag project_id flag_key
  gets λ db. record {
    flag = flag;
    states =
        filter_map
          (λ (r : FlagEnvironment).
            elim (find (λ (e : Environment). e.id == r.environment_id) db.environments) [
              | none ↦ none
              | some e ↦ some (e.slug, r.enabled)
            ])
          (select (λ (r : FlagEnvironment). r.flag_id == flag.id) db.flag_environments);
  }

unfoldable pub create_flag :
    ℕ → String → String → CreateFlagInput → Option String → Bool → Exec Db FlagView
unfolding write_flag fetch_flag
create_flag now fresh project_id input author_id allow_protected = do
  flag ← transaction (write_flag now fresh project_id input author_id allow_protected)
  fetch_flag project_id flag.key

-- `authorId` changes where the caller gives one, null included.
abbrev pub set_flag : ℕ → PatchFlagInput → Option (Option String) → FeatureFlag → FeatureFlag
set_flag now input author_id f = record f {
  name = or_else input.name f.name;
  description = elim input.description [ none ↦ f.description | some text ↦ some text ];
  author_id = or_else author_id f.author_id;
  updated_at = now;
}

unfoldable pub patch_flag :
    ℕ → String → String → PatchFlagInput → Option (Option String) → Exec Db FlagView
unfolding fetch_flag
patch_flag now project_id flag_key input author_id = do
  flag ← find_flag project_id flag_key
  modify λ (db : Db). record db {
    feature_flags =
        update (has_key project_id flag_key) (set_flag now input author_id) db.feature_flags;
  }
  fetch_flag project_id flag.key

unfoldable pub delete_flag : String → String → Exec Db (Unit {0})
delete_flag project_id flag_key = do
  flag ← find_flag project_id flag_key
  modify λ (db : Db). record db {
    feature_flags = remove (has_key project_id flag_key) db.feature_flags;
    flag_environments = remove (λ (r : FlagEnvironment). r.flag_id == flag.id) db.flag_environments;
    pending_toggles = remove (λ (r : PendingFlagToggle). r.flag_id == flag.id) db.pending_toggles;
    targeting_strategies =
        remove (λ (r : TargetingStrategy). r.flag_id == flag.id) db.targeting_strategies;
  }
