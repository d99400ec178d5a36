-- ===== src/Transfer/Project.antt =====
-- The whole import: the loop over the flags of `applyImport` and `importProject` of
-- src/modules/transfer/transfer.service.ts. A dry run throws its report out of the transaction.
pub mod DryRun
pub mod Keeps
pub mod Protected
pub mod Rules
pub mod Legal
use flagraft.Prelude.{
  ℕ, ◌+◌, Bool, true, false, not, Option, none, some, List, [], ◌∷◌, ◌++◌, ◌&&◌, String, ◌==◌, ltb,
  length, select, remove, map, filter_map, is_some, or_else, if◌then◌else◌,
}
use flagraft.Db.{Db, Project, Environment}
use flagraft.Db.Find.{project_at}
use flagraft.Outcome.{Exec, Result, ok, err, app_error, pure, require, ◌>>=◌, ◌>>◌}
use flagraft.Evaluate.Runtime.{Runtime}
use flagraft.Evaluate.Constraint.{list_includes}
use flagraft.Evaluate.Flag.{Dictionary, lookup}
use flagraft.Strategies.Rules.{load_field_rules}
use flagraft.Workspace.Environments.{in_project}
use flagraft.Flags.Create.{defaults_of}
use flagraft.Transfer.Document.{
  NativeField, NativeState, NativeFlag, TransferWarning, unknown_environment, approval_required,
  no_environment, state_left, created, updated, skipped, ImportReport,
}
use flagraft.Transfer.Import.{
  OnConflict, skip, overwrite, ImportArgs, max_context_fields_per_project, by_slug, Run, Target,
  Choices, target_of, is_unmatched, add_names, is_writable, ids_by_key, sort_names,
}
use flagraft.Transfer.Apply.{
  needs_approval, no_counts, push_entry, seed_entry, Setting, place_targets, update_flag, add_flag,
  add_fields,
}

abbrev pub setting_of : Db → String → Project → Setting
setting_of db project_id project = record {
  project_id = project_id;
  environments = select (in_project project_id) db.environments;
  default_state = (defaults_of (some project)).default_state;
  approval = needs_approval project.settings.security;
}

abbrev pub start : Db → String → Run
start db project_id = record {
  db = db;
  fields = load_field_rules db project_id;
  counts = no_counts;
  fields_created = [];
  unmatched = [];
  entries = [];
  warnings = [];
}

abbrev unknown_warning : String × NativeState → TransferWarning
unknown_warning entry = record {
  environment = some entry.0;
  kind = unknown_environment;
  detail = no_environment entry.0;
}

abbrev refused_warning : Target → TransferWarning
refused_warning t = record {
  environment = some t.environment.slug;
  kind = approval_required;
  detail = state_left t.environment.slug;
}

abbrev pub report_of : ImportArgs → Run → ImportReport
report_of args run = record {
  dry_run = args.dry_run;
  source = args.source;
  counts = run.counts;
  context_fields_created = run.fields_created;
  unmatched_environments = sort_names run.unmatched;
  flags = run.entries;
}

module _ (args : ImportArgs) (setting : Setting) where
  abbrev pub slugs_of : Dictionary Environment
  slugs_of = by_slug setting.environments []

  abbrev pub targets_of : NativeFlag → List Target
  targets_of flag = filter_map (target_of args.environment_map slugs_of) flag.environments

  -- The names that land nowhere, and the states that wait for a second administrator.
  abbrev pub report_targets : NativeFlag → Run → Run
  report_targets flag run =
      let missing = select (is_unmatched args.environment_map slugs_of) flag.environments in
      record run {
        unmatched = add_names missing run.unmatched;
        warnings =
            run.warnings
            ++ map unknown_warning missing
            ++ map refused_warning (remove (is_writable setting.approval) (targets_of flag));
      }

  -- `existingByKey`
  abbrev pub keys_before : Run → Dictionary String
  keys_before run =
      ids_by_key
        (select
          (λ f.
            f.project_id == setting.project_id
            && list_includes (map (λ (g : NativeFlag). g.key) args.document.flags) f.key)
          run.db.feature_flags)
        []

module _ (rt : Runtime) (safe_regex : String → Bool) (ids : Choices) (now : ℕ) (args : ImportArgs)
    (setting : Setting) where
  -- An existing flag, with its id.
  unfoldable pub import_existing : NativeFlag → String → OnConflict → Run → Run
  unfolding update_flag place_targets
  import_existing flag flag_id skip run =
      push_entry flag.key skipped (some "exists (onConflict=skip)")
        (record run { counts = record run.counts { flags_skipped = run.counts.flags_skipped + 1 } })
  import_existing flag flag_id overwrite run =
      let targets = targets_of args setting flag in
      push_entry flag.key updated none (
        place_targets rt safe_regex ids now true flag_id targets (
          update_flag now flag_id flag (select (is_writable setting.approval) targets)
            (report_targets args setting flag run)))

  abbrev finish_new : NativeFlag → String → Exec Run (Unit {0})
  finish_new flag flag_id run = (
    ok tt,
    push_entry flag.key created none
        (place_targets rt safe_regex ids now false flag_id (targets_of args setting flag) run),
  )

  unfoldable pub import_new : NativeFlag → Exec Run (Unit {0})
  unfolding add_flag place_targets
  import_new flag run =
      (add_flag ids now setting flag
            (select (is_writable setting.approval) (targets_of args setting flag))
          >>= finish_new flag)
        (report_targets args setting flag run)

  -- The body of the loop over the flags, with the keys that were there before it.
  unfoldable pub import_flag : Dictionary String → NativeFlag → Exec Run (Unit {0})
  unfolding import_existing import_new
  import_flag existing flag run =
      let seeded = seed_entry (or_else (lookup flag.key args.seed_warnings) []) run in
      elim (lookup flag.key existing) [
        | none ↦ import_new flag seeded
        | some flag_id ↦ (ok tt, import_existing flag flag_id args.on_conflict seeded)
      ]

  unfoldable pub import_flags : Dictionary String → List NativeFlag → Exec Run (Unit {0})
  unfolding import_flag
  import_flags existing [] = pure tt
  import_flags existing (f ∷ flags) = do import_flag existing f; import_flags existing flags

  -- The statements once the project is known: the context fields, then the flags. The keys that
  -- are there are looked up between the two.
  unfoldable pub import_all : List NativeField → Exec Run (Unit {0})
  unfolding add_fields import_flags ids_by_key
  import_all new_fields = do
    add_fields ids now setting new_fields
    λ run. import_flags (keys_before args setting run) args.document.flags run

-- The report and the database of a run.
abbrev pub report_run : (Run → ImportReport) → Result (Unit {0}) × Run → Result ImportReport × Db
report_run report (ok _, run) = (ok (report run), run.db)
report_run report (err e, run) = (err e, run.db)

-- The fields of a document that the project does not have.
abbrev pub missing_fields : Db → String → List NativeField → List NativeField
missing_fields db project_id fields =
    select (λ f. not (is_some (lookup f.key (load_field_rules db project_id)))) fields

-- A throw rolls back. That of a dry run carries the report out.
abbrev pub commit : Bool → Db → Result ImportReport × Db → Result ImportReport × Db
commit dry_run db (err e, written) = (err e, db)
commit dry_run db (ok report, written) = (ok report, if dry_run then db else written)

module _ (rt : Runtime) (safe_regex : String → Bool) (ids : Choices) (now : ℕ) where
  unfoldable pub apply_import : String → ImportArgs → Exec Db ImportReport
  unfolding import_all sort_names
  apply_import project_id args db =
      let new_fields = missing_fields db project_id args.document.context_fields in
      let count = length (load_field_rules db project_id) + length new_fields in
      elim (project_at db project_id) [
        | none ↦ (err (app_error "Project not found" 404 "NotFound"), db)
        | some project ↦
            let setting = setting_of db project_id project in
            if ltb max_context_fields_per_project count
            then (err (app_error (ids.too_many_fields count) 409 "Conflict"), db)
            else report_run (report_of args)
                (import_all rt safe_regex ids now args setting new_fields (start db project_id))
      ]

  unfoldable pub import_project : String → ImportArgs → Exec Db ImportReport
  unfolding apply_import
  import_project project_id args db = commit args.dry_run db (apply_import project_id args db)
