-- ===== src/Transfer/Apply.antt =====
-- The statements of an import: `importProject` and the loops of `applyImport` of
-- src/modules/transfer/transfer.service.ts. A dry run throws its report out of the transaction.
use flagraft.Prelude.{
  ℕ, ◌+◌, Bool, true, false, not, Option, none, some, List, [], ◌∷◌, ◌++◌, String, ◌==◌, length,
  any, select, remove, update, map, or_else, if◌then◌else◌,
}
use flagraft.Db.{Security, Environment, FeatureFlag, ContextField, DefaultFlagState}
use flagraft.Db.Find.{has_key}
use flagraft.Outcome.{Exec, ok, err, app_error, unique_violation, pure, ◌>>◌}
use flagraft.Evaluate.Runtime.{Runtime}
use flagraft.Client.State.{assign}
use flagraft.Strategies.Service.{belongs_to, new_rows}
use flagraft.Transfer.Document.{
  NativeField, NativeFlag, valid_field, TransferWarning, unsupported_strategy, Action, Counts,
}
use flagraft.Transfer.Import.{
  filter_strategies, Run, Target, Choices, is_field_of, enabled_by_slug, set_states, imported_state,
}

-- `settings.security?.requireApprovalInProd === true`
abbrev pub needs_approval : Option Security → Bool
needs_approval none = false
needs_approval (some security) = or_else security.require_approval_in_prod false

abbrev pub is_unsupported : TransferWarning → Bool
is_unsupported w = elim w.kind [ unsupported_strategy ↦ true | _ ↦ false ]

abbrev pub no_counts : Counts
no_counts = record {
  flags_created = 0;
  flags_updated = 0;
  flags_skipped = 0;
  context_fields_created = 0;
  strategies_imported = 0;
  strategies_skipped = 0;
}

-- The end of the loop's body: the entry of the flag joins the report.
abbrev pub push_entry : String → Action → Option String → Run → Run
push_entry key action reason run = record run {
  entries =
      run.entries
      ++ record { key = key; action = action; reason = reason; warnings = run.warnings } ∷ [];
  warnings = [];
}

-- The start of the loop's body: what an adapter dropped counts as skipped.
abbrev pub seed_entry : List TransferWarning → Run → Run
seed_entry seed run = record run {
  warnings = seed;
  counts = record run.counts {
    strategies_skipped = run.counts.strategies_skipped + length (select is_unsupported seed);
  };
}

-- What the project says that an import obeys: its id, environments and settings.
pub record Setting : Type 0 where
  pub project_id : String
  pub environments : List Environment
  pub default_state : Option DefaultFlagState
  pub approval : Bool

unfoldable pub update_flag : ℕ → String → NativeFlag → List Target → Run → Run
unfolding set_states
update_flag now flag_id flag writable run = record run {
  db = record run.db {
    feature_flags =
        update (λ (f : FeatureFlag). f.id == flag_id)
          (λ (f : FeatureFlag). record f {
            name = flag.name;
            description = flag.description;
            updated_at = now;
          })
          run.db.feature_flags;
    flag_environments = set_states now flag_id writable run.db.flag_environments;
  };
  counts = record run.counts { flags_updated = run.counts.flags_updated + 1 };
}

module _ (rt : Runtime) (safe_regex : String → Bool) (ids : Choices) (now : ℕ) where
  unfoldable pub place_target : Bool → String → Target → Run → Run
  unfolding filter_strategies new_rows
  place_target exists flag_id t run =
      let found = filter_strategies rt safe_regex run.fields t.environment.slug t.strategies in
      let old = run.db.targeting_strategies in
      record run {
        db = record run.db {
          targeting_strategies =
              (if exists then remove (belongs_to flag_id t.environment.id) old else old)
              ++ new_rows (ids.strategy_id flag_id t.environment.id) flag_id t.environment.id 0
                  found.kept;
        };
        counts = record run.counts {
          strategies_skipped = run.counts.strategies_skipped + found.skipped;
          strategies_imported = run.counts.strategies_imported + length found.kept;
        };
        warnings = run.warnings ++ found.warnings;
      }

  unfoldable pub place_targets : Bool → String → List Target → Run → Run
  unfolding place_target
  place_targets exists flag_id [] run = run
  place_targets exists flag_id (t ∷ targets) run =
      place_targets exists flag_id targets (place_target exists flag_id t run)

module _ (ids : Choices) (now : ℕ) (setting : Setting) where
  abbrev pub with_flag : NativeFlag → List Target → Run → Run
  with_flag flag writable run = record run {
    db = record run.db {
      feature_flags =
          run.db.feature_flags
          ++ record {
            id = ids.flag_id flag.key;
            project_id = setting.project_id;
            name = flag.name;
            key = flag.key;
            description = flag.description;
            author_id = none;
            created_at = now;
            updated_at = now;
          }
            ∷ [];
      flag_environments =
          run.db.flag_environments
          ++ map
              (imported_state now (ids.flag_id flag.key) (enabled_by_slug writable [])
                setting.default_state)
              setting.environments;
    };
    counts = record run.counts { flags_created = run.counts.flags_created + 1 };
  }

  -- The check of the key's uniqueness in the project is the database's.
  unfoldable pub add_flag : NativeFlag → List Target → Exec Run String
  unfolding enabled_by_slug
  add_flag flag writable run =
      if any (has_key setting.project_id flag.key) run.db.feature_flags
      then (err unique_violation, run)
      else (ok (ids.flag_id flag.key), with_flag flag writable run)

  abbrev pub imported_field : NativeField → ContextField
  imported_field field = record {
    id = ids.field_id field.key;
    project_id = setting.project_id;
    key = field.key;
    type = field.type;
    description = field.description;
    enum_values = if field.type == "enum" then some (or_else field.enum_values []) else none;
    created_at = now;
    updated_at = now;
  }

  abbrev pub with_field : ContextField → Run → Run
  with_field row run = record run {
    db = record run.db { context_fields = run.db.context_fields ++ row ∷ [] };
    fields =
        assign row.key (record { key = row.key; type = row.type; enum_values = row.enum_values })
          run.fields;
    fields_created = run.fields_created ++ row.key ∷ [];
    counts = record run.counts { context_fields_created = run.counts.context_fields_created + 1 };
  }

  -- The insert of a field: its key is unique in the project.
  unfoldable pub add_field : NativeField → Exec Run (Unit {0})
  unfolding assign valid_field
  add_field field run =
      if not (valid_field field)
      then (err (app_error (ids.field_refused field) 400 "BadRequest"), run)
      else if any (is_field_of setting.project_id field.key) run.db.context_fields
      then (err unique_violation, run)
      else (ok tt, with_field (imported_field field) run)

  unfoldable pub add_fields : List NativeField → Exec Run (Unit {0})
  unfolding add_field
  add_fields [] = pure tt
  add_fields (f ∷ fields) = do add_field f; add_fields fields
