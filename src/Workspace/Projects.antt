-- ===== src/Workspace/Projects.antt =====
-- Projects: src/modules/projects/project.service.ts and src/constants/environments.ts, with the foreign
-- keys of src/db/schema.ts that go with a deleted project.
pub mod Gone
use flagraft.Prelude.{
  ℕ, Bool, true, false, not, ◌&&◌, ◌||◌, Option, none, some, List, [], ◌∷◌, ◌++◌, String, ◌==◌, leb,
  select, any, find, update, remove, map, or_else, if◌then◌else◌,
}
use flagraft.Db.{
  Db, Project, ProjectSettings, Environment, FeatureFlag, FlagEnvironment, ApiKey, UserProject,
  ContextField, PendingFlagToggle, TargetingStrategy,
}
use flagraft.Db.Find.{project_at}
use flagraft.Outcome.{
  Exec, Result, ok, err, Failure, app_error, unique_violation, pure, gets, modify, require,
  transaction, ◌>>=◌, ◌>>◌,
}
use flagraft.Auth.Guards.{KeyContext}
use flagraft.Workspace.Environments.{belongs}

pub record CreateProjectInput : Type 0 where
  pub name : String
  pub slug : String
  pub description : Option String

pub record PatchProjectInput : Type 0 where
  pub name : Option String
  pub slug : Option String
  pub description : Option String
  pub settings : Option ProjectSettings

pub record DefaultEnvironment : Type 0 where
  pub name : String
  pub slug : String
  pub protected : Bool

abbrev pub default_environments : List DefaultEnvironment
default_environments =
    record { name = "Development"; slug = "development"; protected = false }
    ∷ record { name = "Production"; slug = "production"; protected = true }
    ∷ []

abbrev pub project_not_found : Failure
project_not_found = app_error "Project not found" 404 "NotFound"

abbrev pub new_project : ℕ → String → CreateProjectInput → Project
new_project now fresh input = record {
  id = fresh;
  name = input.name;
  slug = input.slug;
  description = input.description;
  settings = record { flag_defaults = none; security = none };
  created_at = now;
  updated_at = now;
}

-- Its environments; the database's ids for them go by the slug.
abbrev pub first_environments : ℕ → String → (String → String) → List Environment
first_environments now project_id fresh =
    map
      (λ (e : DefaultEnvironment). record {
        id = fresh e.slug;
        project_id = project_id;
        name = e.name;
        slug = e.slug;
        protected = e.protected;
        created_at = now;
      })
      default_environments

-- A slug is unique among all projects.
unfoldable pub insert_project : Project → Exec Db Project
insert_project project db =
    if any (λ (p : Project). p.slug == project.slug) db.projects
    then (err unique_violation, db)
    else (ok project, record db { projects = db.projects ++ project ∷ [] })

unfoldable pub create_project :
    ℕ → String → (String → String) → CreateProjectInput → Exec Db Project
unfolding insert_project
create_project now fresh fresh_environment input = transaction (do
  project ← insert_project (new_project now fresh input)
  modify λ (db : Db). record db {
    environments = db.environments ++ first_environments now project.id fresh_environment;
  }
  pure project)

-- `asc(projects.createdAt)`
insert_created : Project → List Project → List Project
insert_created p [] = p ∷ []
insert_created p (q ∷ projects) =
    let rest = insert_created p projects in
    if leb p.created_at q.created_at then p ∷ q ∷ projects else q ∷ rest

unfoldable pub sort_created : List Project → List Project
unfolding insert_created
sort_created [] = []
sort_created (p ∷ projects) = insert_created p (sort_created projects)

abbrev is_member_of : Db → String → Project → Bool
is_member_of db user_id p =
    any (λ (r : UserProject). r.project_id == p.id && r.user_id == user_id) db.user_projects

-- Everything for root, a user's own projects, a key's project, or nothing.
unfoldable pub list_projects : Db → KeyContext → List Project
unfolding sort_created
list_projects db context =
    if context.is_root then sort_created db.projects else elim context.user_id [
      | some user_id ↦ sort_created (select (is_member_of db user_id) db.projects)
      | none ↦ elim context.project_id [
        | none ↦ []
        | some project_id ↦ select (λ (p : Project). p.id == project_id) db.projects
      ]
    ]

unfoldable pub get_project : String → Exec Db Project
get_project project_id db = require (project_at db project_id) project_not_found db

-- `{ ...current.settings, ...settings }`: a group that is given replaces the one that is there.
abbrev pub merge_settings : ProjectSettings → ProjectSettings → ProjectSettings
merge_settings current given = record {
  flag_defaults = elim given.flag_defaults [ none ↦ current.flag_defaults | some g ↦ some g ];
  security = elim given.security [ none ↦ current.security | some g ↦ some g ];
}

abbrev pub set_project : ℕ → PatchProjectInput → Project → Project
set_project now input p = record p {
  name = or_else input.name p.name;
  slug = or_else input.slug p.slug;
  description = elim input.description [ none ↦ p.description | some d ↦ some d ];
  settings = elim input.settings [
    | none ↦ p.settings
    | some given ↦ merge_settings p.settings given
  ];
  updated_at = now;
}

-- Another project has the slug that is given.
abbrev slug_taken : String → Option String → Db → Bool
slug_taken project_id none db = false
slug_taken project_id (some slug) db =
    any (λ (p : Project). p.slug == slug && not (p.id == project_id)) db.projects

unfoldable pub patch_project : ℕ → String → PatchProjectInput → Exec Db Project
patch_project now project_id input db = elim (project_at db project_id) [
  | none ↦ (err project_not_found, db)
  | some project ↦ if slug_taken project_id input.slug db then (err unique_violation, db) else (
    ok (set_project now input project),
    record db {
      projects = update (λ (p : Project). p.id == project_id) (set_project now input) db.projects;
    },
  )
]

-- The rows of other tables that go with a project, those that go with its flags and environments
-- among them.
unfoldable pub cascade_project : String → Db → Db
cascade_project project_id db =
    let own_flag = λ (id : String).
      any (λ (f : FeatureFlag). f.project_id == project_id && f.id == id) db.feature_flags in
    let own_environment = λ (id : String).
      any (λ (e : Environment). e.project_id == project_id && e.id == id) db.environments in
    record db {
      environments = remove (λ (e : Environment). e.project_id == project_id) db.environments;
      feature_flags = remove (λ (f : FeatureFlag). f.project_id == project_id) db.feature_flags;
      flag_environments =
          remove (λ (r : FlagEnvironment). own_flag r.flag_id || own_environment r.environment_id)
            db.flag_environments;
      api_keys =
          remove
            (λ (k : ApiKey).
              belongs k.project_id project_id
              || elim k.environment_id [ none ↦ false | some e ↦ own_environment e ])
            db.api_keys;
      user_projects = remove (λ (r : UserProject). r.project_id == project_id) db.user_projects;
      context_fields = remove (λ (f : ContextField). f.project_id == project_id) db.context_fields;
      pending_toggles =
          remove
            (λ (r : PendingFlagToggle).
              r.project_id == project_id || own_flag r.flag_id || own_environment r.environment_id)
            db.pending_toggles;
      targeting_strategies =
          remove (λ (r : TargetingStrategy). own_flag r.flag_id || own_environment r.environment_id)
            db.targeting_strategies;
    }

unfoldable pub delete_project : String → Exec Db (Unit {0})
unfolding cascade_project
delete_project project_id db =
    if any (λ (p : Project). p.id == project_id) db.projects
    then (
      ok tt,
      record (cascade_project project_id db) {
        projects = remove (λ (p : Project). p.id == project_id) db.projects;
      },
    )
    else (err project_not_found, db)
