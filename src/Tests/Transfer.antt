-- ===== src/Tests/Transfer.antt =====
-- The theorems on the transfer of flags at a sample document.
use flagraft.Prelude.{
  eqb, Bool, Option, true, false, none, some, List, [], ◌∷◌, String, ◌==◌, ◌≡◌, ◌⊎◌, refl, select,
  All,
}
use flagraft.Db.{Db, FeatureFlag, TargetingStrategy}
use flagraft.Evaluate.Flag.{lookup}
use flagraft.Evaluate.Constraint.{StrategyConstraint}
use flagraft.Outcome.{Result, ok, err}
use flagraft.Flags.Create.Protected.{is_on_in_protected}
use flagraft.Strategies.Rules.{load_field_rules, constraint_error}
use flagraft.Strategies.Service.{first_rejected}
use flagraft.Transfer.Document.{NativeDocument, ImportReport, Counts, native_file}
use flagraft.Transfer.Import.{ImportArgs, resolve_environment, Choices, overwrite, by_slug}
use flagraft.Transfer.Project.{import_project}
use flagraft.Transfer.Project.DryRun.{as_dry, with_dry, import_project-with_dry}
use flagraft.Transfer.Project.Protected.{import_project-protected}
use flagraft.Transfer.Project.Legal.{import_project_legal}
use flagraft.Transfer.Export.{StrategyRow}
use flagraft.Tests.{sample_runtime, sample_db, sample_project}

abbrev in_values : String → List String → StrategyConstraint
in_values key values = record { field_key = key; operator = "in"; values = values }

abbrev pub sample_choices : Choices
sample_choices = record {
  field_id = λ key. key;
  flag_id = λ key. key;
  strategy_id = λ f e i. f;
  too_many_fields = λ n. "too many";
  field_refused = λ f. f.key;
}

-- It overwrites a flag and adds another, each with a legal strategy and one that is not.
abbrev pub sample_document : NativeDocument
sample_document = record {
  format = "flagraft.export";
  version = 1;
  exported_at = none;
  project = none;
  context_fields =
      record { key = "country"; type = "string"; description = none; enum_values = none } ∷ [];
  flags =
      record {
        key = "checkout";
        name = "Checkout";
        description = none;
        environments =
            (
              "production",
              record {
                enabled = true;
                strategies =
                    record { constraints = in_values "country" ("de" ∷ []) ∷ [] }
                    ∷ record { constraints = in_values "region" ("eu" ∷ []) ∷ [] }
                    ∷ [];
              },
            )
            ∷ [];
      }
      ∷ record {
        key = "beta";
        name = "Beta";
        description = none;
        environments = ("staging", record { enabled = true; strategies = [] }) ∷ [];
      }
      ∷ [];
}

abbrev pub sample_import : ImportArgs
sample_import = record {
  document = sample_document;
  source = native_file;
  on_conflict = overwrite;
  environment_map = ("staging", "production") ∷ [];
  dry_run = false;
  seed_warnings = [];
}

abbrev report_counts : Result ImportReport → Option Counts
report_counts (ok report) = some report.counts
report_counts (err e) = none

abbrev run_import : ImportArgs → Db
run_import args = (import_project sample_runtime (λ p. true) sample_choices 9 "p" args sample_db).1

import_project-with_dry_example :
    import_project sample_runtime
      (λ p. true)
      sample_choices
      9
      "p"
      (with_dry true sample_import)
      sample_db
    ≡ (
      as_dry
          (import_project sample_runtime
            (λ p. true)
            sample_choices
            9
            "p"
            (with_dry false sample_import)
            sample_db).0,
      sample_db,
    )
import_project-with_dry_example =
    import_project-with_dry sample_runtime (λ p. true) sample_choices 9 "p" sample_import sample_db

import_project-protected_example :
    select (is_on_in_protected sample_db) (run_import sample_import).flag_environments
    ≡ select (is_on_in_protected sample_db) sample_db.flag_environments
unfolding by_slug lookup
import_project-protected_example =
    import_project-protected sample_runtime (λ p. true) sample_choices 9 "p" sample_import sample_db
      sample_project refl refl (refl, tt) (refl, tt)

abbrev old_strategy : TargetingStrategy
old_strategy = record {
  id = "s";
  flag_id = "f";
  environment_id = "other";
  position = 0;
  constraints = [];
}

abbrev targeted_db : Db
targeted_db = record sample_db { targeting_strategies = old_strategy ∷ [] }

abbrev is_old : TargetingStrategy → Bool
is_old r = r.id == "s"

import_project_legal_example :
    All
      (λ (r : TargetingStrategy).
        (is_old r ≡ true)
        ⊎ (first_rejected sample_runtime
              (λ p. true)
              (load_field_rules
                (import_project sample_runtime
                  (λ p. true)
                  sample_choices
                  9
                  "p"
                  sample_import
                  targeted_db).1
                "p")
              r.constraints
            ≡ none))
      (import_project sample_runtime
        (λ p. true)
        sample_choices
        9
        "p"
        sample_import
        targeted_db).1.targeting_strategies
import_project_legal_example =
    import_project_legal sample_runtime (λ p. true) sample_choices 9 "p" sample_import targeted_db
      (λ r. is_old r ≡ true) (refl, tt)

-- The report's counts: one flag of each kind, one field, one strategy written and one refused.
import_project-counts :
    report_counts
      (import_project sample_runtime (λ p. true) sample_choices 9 "p" sample_import sample_db).0
    ≡ some (record {
      flags_created = 1;
      flags_updated = 1;
      flags_skipped = 0;
      context_fields_created = 1;
      strategies_imported = 1;
      strategies_skipped = 1;
    })
unfolding import_project load_field_rules lookup resolve_environment by_slug constraint_error
import_project-counts = refl

abbrev has_checkout : FeatureFlag → Bool
has_checkout f = f.key == "checkout"

abbrev is_first : StrategyRow → Bool
is_first r = eqb r.position 0
