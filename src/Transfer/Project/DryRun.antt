-- ===== src/Transfer/Project/DryRun.antt =====
-- Dry runs of `importProject` of src/modules/transfer/transfer.service.ts.
use flagraft.Prelude.{
  ℕ, ◌+◌, Bool, true, false, List, [], or_else, ◌∷◌, String, ◌≡◌, refl, ap, ◌∙◌, ltb, length, inl,
  inr, Option-cases, Bool-cases,
}
use flagraft.Db.{Db}
use flagraft.Db.Find.{project_at}
use flagraft.Outcome.{Result, ok, err, then_same}
use flagraft.Evaluate.Runtime.{Runtime}
use flagraft.Evaluate.Flag.{Dictionary, lookup}
use flagraft.Strategies.Rules.{load_field_rules}
use flagraft.Transfer.Document.{NativeField, NativeFlag, ImportReport}
use flagraft.Transfer.Import.{
  ImportArgs, OnConflict, skip, overwrite, Run, Choices, max_context_fields_per_project,
}
use flagraft.Transfer.Apply.{Setting, seed_entry, add_fields}
use flagraft.Transfer.Project.{
  import_existing, import_new, import_flag, import_flags, keys_before, import_all, commit,
  report_run, report_of, missing_fields, apply_import, import_project, setting_of, start,
}

abbrev pub as_dry : Result ImportReport → Result ImportReport
as_dry (ok report) = ok (record report { dry_run = true })
as_dry (err e) = err e

abbrev pub with_dry : Bool → ImportArgs → ImportArgs
with_dry dry_run args = record args { dry_run = dry_run }

module _ (rt : Runtime) (safe_regex : String → Bool) (ids : Choices) (now : ℕ) (args : ImportArgs)
    (setting : Setting) where
  existing_same :
      (flag : NativeFlag) (flag_id : String) (on_conflict : OnConflict) (run : Run)
      → import_existing rt safe_regex ids now
          (with_dry true args)
          setting
          flag
          flag_id
          on_conflict
          run
        ≡ import_existing rt safe_regex ids now
            (with_dry false args)
            setting
            flag
            flag_id
            on_conflict
            run
  unfolding import_existing
  existing_same flag flag_id skip run = refl
  existing_same flag flag_id overwrite run = refl

  flag_same :
      (existing : Dictionary String) (flag : NativeFlag) (run : Run)
      → import_flag rt safe_regex ids now (with_dry true args) setting existing flag run
        ≡ import_flag rt safe_regex ids now (with_dry false args) setting existing flag run
  unfolding import_flag import_new
  flag_same existing flag run = elim (Option-cases (lookup flag.key existing)) [
    | inl new_key ↦ rw (new_key, import_flag) refl
    | inr (flag_id, found) ↦
        rw (found, import_flag)
          (ap (λ r. (ok tt, r))
            (existing_same flag flag_id args.on_conflict
              (seed_entry (or_else (lookup flag.key args.seed_warnings) []) run)))
  ]

  -- The statements do not depend on whether the run is dry.
  flags_same :
      (existing : Dictionary String) (flags : List NativeFlag) (run : Run)
      → import_flags rt safe_regex ids now (with_dry true args) setting existing flags run
        ≡ import_flags rt safe_regex ids now (with_dry false args) setting existing flags run
  unfolding import_flags
  flags_same existing [] run = refl
  flags_same existing (f ∷ flags) run = rw (flag_same existing f run) (
      then_same (import_flag rt safe_regex ids now (with_dry false args) setting existing f)
        (import_flags rt safe_regex ids now (with_dry true args) setting existing flags)
        (import_flags rt safe_regex ids now (with_dry false args) setting existing flags) run
        (flags_same existing flags))

  all_same :
      (new_fields : List NativeField) (run : Run)
      → import_all rt safe_regex ids now (with_dry true args) setting new_fields run
        ≡ import_all rt safe_regex ids now (with_dry false args) setting new_fields run
  unfolding import_all
  all_same new_fields run =
      then_same (add_fields ids now setting new_fields) _ _ run
        (λ t. flags_same (keys_before args setting t) args.document.flags t)

commit_dry :
    (args : ImportArgs) (db : Db) (r : Result (Unit {0}) × Run)
    → commit true db (report_run (report_of (with_dry true args)) r)
      ≡ (as_dry (commit false db (report_run (report_of (with_dry false args)) r)).0, db)
commit_dry args db (ok _, run) = refl
commit_dry args db (err e, run) = refl

-- A dry run writes nothing, and it answers what the same import without the flag answers: its report
-- but for the flag `dryRun`, or its error.
pub import_project-with_dry :
    (rt : Runtime) (safe_regex : String → Bool) (ids : Choices) (now : ℕ) (project_id : String)
    (args : ImportArgs) (db : Db)
    → import_project rt safe_regex ids now project_id (with_dry true args) db
      ≡ (as_dry (import_project rt safe_regex ids now project_id (with_dry false args) db).0, db)
unfolding import_project apply_import
import_project-with_dry rt safe_regex ids now project_id args db =
    elim (Option-cases (project_at db project_id)) [
      | inl missing ↦ rw (missing, import_project, apply_import) refl
      | inr (project, found) ↦
          elim (Bool-cases (
            ltb max_context_fields_per_project (
              length (load_field_rules db project_id)
              + length (missing_fields db project_id args.document.context_fields)))) [
                | inl full ↦ rw (found, full, import_project, apply_import) refl
                | inr room ↦
                    rw (found, room, import_project, apply_import)
                      (ap (λ r. commit true db (report_run (report_of (with_dry true args)) r))
                          (all_same rt safe_regex ids now args (setting_of db project_id project)
                            (missing_fields db project_id args.document.context_fields)
                            (start db project_id))
                        ∙ commit_dry args db (
                            import_all rt safe_regex ids now (with_dry false args)
                              (setting_of db project_id project)
                              (missing_fields db project_id args.document.context_fields)
                              (start db project_id)))
              ]
    ]
