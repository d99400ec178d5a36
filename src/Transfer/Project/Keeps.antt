-- ===== src/Transfer/Project/Keeps.antt =====
-- What the statements of an import keep, the import keeps: the loops of `applyImport` and the
-- transaction of `importProject` of src/modules/transfer/transfer.service.ts.
use flagraft.Prelude.{
  ℕ, ◌+◌, ◌≤◌, arith, Bool, true, false, some, List, [], ◌∷◌, String, ◌≡◌, or_else, select, ltb,
  length, any, inl, inr, Option-cases, Bool-cases,
}
use flagraft.Db.{Db, Project}
use flagraft.Db.Find.{project_at, has_key}
use flagraft.Outcome.{Result, ok, err, bind_keeps}
use flagraft.Evaluate.Runtime.{Runtime}
use flagraft.Evaluate.Flag.{Dictionary, lookup}
use flagraft.Strategies.Rules.{FieldRule, load_field_rules}
use flagraft.Transfer.Document.{valid_field, NativeField, NativeFlag}
use flagraft.Transfer.Import.{
  ImportArgs, OnConflict, skip, overwrite, Run, Target, Choices, is_field_of, is_writable,
  max_context_fields_per_project,
}
use flagraft.Transfer.Apply.{
  Setting, seed_entry, add_field, add_fields, update_flag, add_flag, place_target, place_targets,
  with_field, with_flag, imported_field,
}
use flagraft.Transfer.Project.{
  targets_of, report_targets, import_existing, import_new, import_flag, import_flags, keys_before,
  import_all, commit, report_run, report_of, missing_fields, apply_import, import_project,
  setting_of, start,
}

module _ (rt : Runtime) (safe_regex : String → Bool) (ids : Choices) (now : ℕ) (args : ImportArgs)
    (setting : Setting) (I : Db → Dictionary FieldRule → Type 0) where
  abbrev Holds : Run → Type 0
  Holds run = I run.db run.fields

  abbrev writable_of : NativeFlag → List Target
  writable_of flag = select (is_writable setting.approval) (targets_of args setting flag)

  -- Each statement that writes keeps it.
  pub record IsKept : Type 0 where
    pub by_update :
        (flag_id : String) (flag : NativeFlag) (run : Run)
        → Holds run
        → Holds (update_flag now flag_id flag (writable_of flag) run)
    pub by_flag :
        (flag : NativeFlag) (run : Run)
        → Holds run
        → Holds (with_flag ids now setting flag (writable_of flag) run)
    pub by_target :
        (exists : Bool) (flag_id : String) (t : Target) (run : Run)
        → Holds run
        → Holds (place_target rt safe_regex ids now exists flag_id t run)

  -- So does the insert of a field.
  pub record IsFieldKept : Type 0 where
    pub by_field :
        (f : NativeField) (run : Run)
        → any (is_field_of setting.project_id f.key) run.db.context_fields ≡ false
        → Holds run
        → Holds (with_field ids now setting (imported_field ids now setting f) run)

  module _ (kept : IsFieldKept) where
    add_field-keeps :
        (f : NativeField) (run : Run) → Holds run → Holds (add_field ids now setting f run).1
    unfolding add_field
    add_field-keeps f run h = elim (Bool-cases (valid_field f)) [
      | inr bad ↦ rw (bad, add_field) h
      | inl good ↦
          elim (Bool-cases (any (is_field_of setting.project_id f.key) run.db.context_fields)) [
            | inl taken ↦ rw (good, taken, add_field) h
            | inr free ↦ rw (good, free, add_field) (kept.by_field f run free h)
          ]
    ]

    pub add_fields-keeps :
        (fields : List NativeField) (run : Run)
        → Holds run
        → Holds (add_fields ids now setting fields run).1
    unfolding add_fields
    add_fields-keeps [] run h = h
    add_fields-keeps (f ∷ fields) run h =
        bind_keeps Holds (add_field ids now setting f run) (λ _. add_fields ids now setting fields)
          (add_field-keeps f run h) (λ _ s q. add_fields-keeps fields s q)

  module _ (kept : IsKept) where
    add_flag-keeps :
        (flag : NativeFlag) (run : Run)
        → Holds run
        → Holds (add_flag ids now setting flag (writable_of flag) run).1
    unfolding add_flag
    add_flag-keeps flag run h =
        elim (Bool-cases (any (has_key setting.project_id flag.key) run.db.feature_flags)) [
          | inl taken ↦ rw (taken, add_flag) h
          | inr free ↦ rw (free, add_flag) (kept.by_flag flag run h)
        ]

    place_targets-keeps :
        (exists : Bool) (flag_id : String) (targets : List Target) (run : Run)
        → Holds run
        → Holds (place_targets rt safe_regex ids now exists flag_id targets run)
    unfolding place_targets
    place_targets-keeps exists flag_id [] run h = h
    place_targets-keeps exists flag_id (t ∷ targets) run h =
        place_targets-keeps exists flag_id targets
          (place_target rt safe_regex ids now exists flag_id t run)
          (kept.by_target exists flag_id t run h)

    import_existing-keeps :
        (flag : NativeFlag) (flag_id : String) (on_conflict : OnConflict) (run : Run)
        → Holds run
        → Holds (import_existing rt safe_regex ids now args setting flag flag_id on_conflict run)
    unfolding import_existing
    import_existing-keeps flag flag_id skip run h = h
    import_existing-keeps flag flag_id overwrite run h =
        place_targets-keeps true flag_id (targets_of args setting flag)
          (update_flag now flag_id flag (writable_of flag) (report_targets args setting flag run))
          (kept.by_update flag_id flag (report_targets args setting flag run) h)

    import_new-keeps :
        (flag : NativeFlag) (run : Run)
        → Holds run
        → Holds (import_new rt safe_regex ids now args setting flag run).1
    unfolding import_new
    import_new-keeps flag run h =
        bind_keeps Holds _ _ (add_flag-keeps flag (report_targets args setting flag run) h)
          (λ flag_id s q. place_targets-keeps false flag_id (targets_of args setting flag) s q)

    import_flag-keeps :
        (existing : Dictionary String) (flag : NativeFlag) (run : Run)
        → Holds run
        → Holds (import_flag rt safe_regex ids now args setting existing flag run).1
    unfolding import_flag
    import_flag-keeps existing flag run h =
        let seeded = seed_entry (or_else (lookup flag.key args.seed_warnings) []) run in
        elim (Option-cases (lookup flag.key existing)) [
          | inl new_key ↦ rw (new_key, import_flag) (import_new-keeps flag seeded h)
          | inr (flag_id, found) ↦
              rw (found, import_flag) (import_existing-keeps flag flag_id args.on_conflict seeded h)
        ]

    import_flags-keeps :
        (existing : Dictionary String) (flags : List NativeFlag) (run : Run)
        → Holds run
        → Holds (import_flags rt safe_regex ids now args setting existing flags run).1
    unfolding import_flags
    import_flags-keeps existing [] run h = h
    import_flags-keeps existing (f ∷ flags) run h =
        bind_keeps Holds (import_flag rt safe_regex ids now args setting existing f run)
          (λ _. import_flags rt safe_regex ids now args setting existing flags)
          (import_flag-keeps existing f run h) (λ _ s q. import_flags-keeps existing flags s q)

    import_all-keeps :
        (new_fields : List NativeField) (run : Run)
        → Holds (add_fields ids now setting new_fields run).1
        → Holds (import_all rt safe_regex ids now args setting new_fields run).1
    unfolding import_all
    import_all-keeps new_fields run h =
        bind_keeps Holds (add_fields ids now setting new_fields run)
          (λ _ t.
            import_flags rt safe_regex ids now args setting (keys_before args setting t)
              args.document.flags t)
          h (λ _ s q. import_flags-keeps (keys_before args setting s) args.document.flags s q)

commit_cases :
    (P : Db → Type 0) (args : ImportArgs) (db : Db) (r : Result (Unit {0}) × Run)
    → P db
    → P r.1.db
    → P (commit args.dry_run db (report_run (report_of args) r)).1
commit_cases P args db (ok _, run) old new = elim (Bool-cases args.dry_run) [
  | inl dry ↦ rw dry old
  | inr real ↦ rw real new
]
commit_cases P args db (err e, run) old new = old

-- A property of the database that holds before an import, and which follows from something that
-- holds once the context fields are there and that the other statements keep, holds after it.
pub import_project_keeps :
    (rt : Runtime) (safe_regex : String → Bool) (ids : Choices) (now : ℕ) (project_id : String)
    (args : ImportArgs) (db : Db) (P : Db → Type 0) (I : Db → Dictionary FieldRule → Type 0)
    → P db
    → ((d : Db) (fields : Dictionary FieldRule) → I d fields → P d)
    → ((project : Project)
        → project_at db project_id ≡ some project
        → (length (load_field_rules db project_id)
            + length (missing_fields db project_id args.document.context_fields))
          ≤ max_context_fields_per_project
        → Holds rt safe_regex ids now args
            (setting_of db project_id project)
            I
            (add_fields ids now
              (setting_of db project_id project)
              (missing_fields db project_id args.document.context_fields)
              (start db project_id)).1)
    → ((project : Project)
        → project_at db project_id ≡ some project
        → IsKept rt safe_regex ids now args (setting_of db project_id project) I)
    → P (import_project rt safe_regex ids now project_id args db).1
unfolding import_project apply_import
import_project_keeps rt safe_regex ids now project_id args db P I before follows first kept =
    let new_fields = missing_fields db project_id args.document.context_fields in
    elim (Option-cases (project_at db project_id)) [
      | inl missing ↦ rw (missing, import_project, apply_import) before
      | inr (project, found) ↦
          let setting = setting_of db project_id project in
          elim (Bool-cases (
            ltb max_context_fields_per_project
              (length (load_field_rules db project_id) + length new_fields))) [
                | inl full ↦ rw (found, full, import_project, apply_import) before
                | inr room ↦
                    let run =
                      import_all rt safe_regex ids now args setting new_fields
                        (start db project_id) in
                    rw (found, room, import_project, apply_import)
                      (commit_cases P args db run before (
                        follows run.1.db run.1.fields (
                          import_all-keeps rt safe_regex ids now args setting I (kept project found)
                            new_fields (start db project_id) (first project found (ground arith)))))
              ]
    ]
