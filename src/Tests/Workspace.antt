-- ===== src/Tests/Workspace.antt =====
-- The theorems on environments, keys and new flags at the sample workspace.
use flagraft.Prelude.{
  Bool, String, map, true, [], ◌∷◌, ◌≤◌, false, none, some, ◌≡◌, refl, arith, select, length,
}
use flagraft.Db.{Db, Environment, ApiKey}
use flagraft.Flags.Create.{CreateFlagInput, create_flag}
use flagraft.Flags.Create.Protected.{is_on_in_protected, create_flag-protected}
use flagraft.Workspace.Environments.{
  CreateEnvironmentInput, is_environment, delete_environment, create_environment,
}
use flagraft.Workspace.Environments.Limits.{
  IsLimited, EnvironmentStep, EnvironmentStep-IsLimited, delete_environment-protected,
}
use flagraft.Workspace.Keys.{CreateKeyInput, GeneratedKey, create_key}
use flagraft.Workspace.Keys.Scopes.{IsScoped, create_key-IsScoped}
use flagraft.Workspace.Fields
use flagraft.Workspace.Fields.Ceiling.{transfer, FieldStep-IsLimited}
use flagraft.Workspace.Projects.{create_project, delete_project}
use flagraft.Workspace.Projects.Gone.{IsGone, delete_project-IsGone}
use flagraft.Transfer.Project.{import_project}
use flagraft.Tests.Transfer.{sample_choices, sample_import}
use flagraft.Tests.{sample_db, sample_runtime}

abbrev new_flag_input : CreateFlagInput
new_flag_input = record { name = "Search"; key = "search"; description = some "New search" }

create_flag-protected_example :
    select
      (is_on_in_protected sample_db)
      (create_flag 9 "g" "p" new_flag_input (some "bob") false sample_db).1.flag_environments
    ≡ select (is_on_in_protected sample_db) sample_db.flag_environments
create_flag-protected_example =
    create_flag-protected 9 "g" "p" new_flag_input (some "bob") sample_db (refl, tt)

abbrev staging : CreateEnvironmentInput
staging = record { name = "Staging"; slug = "staging"; protected = none }

abbrev with_staging : Db
with_staging = (create_environment 9 "st" "p" staging sample_db).1

staging_step : EnvironmentStep sample_db with_staging
staging_step = EnvironmentStep.create 9 "st" "p" staging

sample_db-IsLimited : IsLimited sample_db.environments
sample_db-IsLimited = record { few = λ p. ground arith; unique = λ p s. ground arith }

EnvironmentStep-IsLimited_example : IsLimited with_staging.environments
EnvironmentStep-IsLimited_example = EnvironmentStep-IsLimited staging_step sample_db-IsLimited

one_staging : length (select (is_environment "p" "st") with_staging.environments) ≤ 1
unfolding create_environment
one_staging = omega arith

delete_environment-protected_example :
    select
      (λ (e : Environment). e.protected)
      (delete_environment "p" "st" with_staging).1.environments
    ≡ select (λ (e : Environment). e.protected) with_staging.environments
delete_environment-protected_example =
    delete_environment-protected "p" "st" with_staging one_staging

abbrev key_text : GeneratedKey
key_text = record { prefix = "ff_1"; hash = "fresh hash" }

abbrev client_key : CreateKeyInput
client_key = record { type = "client"; environment_id = some "e"; description = "Web" }

abbrev made_key : ApiKey
made_key = record {
  id = "nk";
  project_id = some "p";
  environment_id = some "e";
  key_hash = "fresh hash";
  key_prefix = "ff_1";
  type = "client";
  description = some "Web";
  created_at = 9;
  last_used_at = none;
  expires_at = none;
}

create_key-IsScoped_example : IsScoped sample_db "p" made_key
unfolding create_key
create_key-IsScoped_example =
    create_key-IsScoped 9 "nk" key_text "p" client_key sample_db made_key refl

sample_fields-IsLimited : Fields.Limits.IsLimited sample_db.context_fields
sample_fields-IsLimited = record { few = λ p. ground arith; unique = λ p k. ground arith }

FieldStep-IsLimited_example :
    Fields.Limits.IsLimited
      (import_project sample_runtime
        (λ p. true)
        sample_choices
        9
        "p"
        sample_import
        sample_db).1.context_fields
FieldStep-IsLimited_example =
    FieldStep-IsLimited sample_db
      (import_project sample_runtime (λ p. true) sample_choices 9 "p" sample_import sample_db).1
      (transfer sample_runtime (λ p. true) sample_choices 9 "p" sample_import)
      sample_fields-IsLimited

delete_project-IsGone_example : IsGone sample_db "p" (delete_project "p" sample_db).1
delete_project-IsGone_example = delete_project-IsGone "p" sample_db refl

-- A new project has an open environment and a protected one.
create_project-sample :
    map {B = String × Bool}
      (λ (e : Environment). (e.slug, e.protected))
      (create_project 7 "q"
        (λ slug. slug)
        (record { name = "Blog"; slug = "blog"; description = none })
        sample_db).1.environments
    ≡ ("production", true) ∷ ("development", false) ∷ ("production", true) ∷ []
unfolding create_project
create_project-sample = refl
