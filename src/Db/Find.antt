-- ===== src/Db/Find.antt =====
-- The lookups by a project's keys that the services share: `findFlag` and `findEnvironment` of
-- src/modules/flags/flag.service.ts and of src/modules/strategies/strategy.service.ts.
use flagraft.Prelude.{Bool, ◌&&◌, Option, String, ◌==◌, find}
use flagraft.Db.{Db, FeatureFlag, Environment, Project}
use flagraft.Outcome.{Exec, app_error, require}

abbrev pub has_key : String → String → FeatureFlag → Bool
has_key project_id flag_key f = f.project_id == project_id && f.key == flag_key

abbrev pub has_slug : String → String → Environment → Bool
has_slug project_id slug e = e.project_id == project_id && e.slug == slug

abbrev pub flag_at : Db → String → String → Option FeatureFlag
flag_at db project_id flag_key = find (has_key project_id flag_key) db.feature_flags

abbrev pub environment_at : Db → String → String → Option Environment
environment_at db project_id slug = find (has_slug project_id slug) db.environments

abbrev pub project_at : Db → String → Option Project
project_at db project_id = find (λ p. p.id == project_id) db.projects

abbrev pub find_flag : String → String → Exec Db FeatureFlag
find_flag project_id flag_key db =
    require (flag_at db project_id flag_key) (app_error "Flag not found" 404 "NotFound") db

abbrev pub find_environment : String → String → Exec Db Environment
find_environment project_id slug db =
    require (environment_at db project_id slug) (app_error "Environment not found" 404 "NotFound")
      db
