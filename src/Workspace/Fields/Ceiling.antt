-- ===== src/Workspace/Fields/Ceiling.antt =====
-- The ceiling on context fields, whoever writes them: the calls of
-- src/modules/context-fields/context-field.service.ts and `importProject` of
-- src/modules/transfer/transfer.service.ts.
use flagraft.Prelude.{
  ℕ, suc, ◌+◌, ◌≤◌, Bool, Option, none, some, List, [], ◌∷◌, String, ◌==◌, ◌≡◌, refl, arith, length,
  select, any, find, eq_iff, eq_refl, any-find, Option-cases, Bool-cases, inl, inr, subst, ◌∙◌,
}
use flagraft.Db.{Db, ContextField}
use flagraft.Outcome.{bind_leads}
use flagraft.Evaluate.Runtime.{Runtime}
use flagraft.Evaluate.Flag.{Dictionary, lookup}
use flagraft.Client.State.{assign}
use flagraft.Strategies.Rules.{FieldRule, rules_of, load_field_rules}
use flagraft.Transfer.Document.{NativeField, valid_field}
use flagraft.Transfer.Import.{ImportArgs, Run, Choices, max_context_fields_per_project, is_field_of}
use flagraft.Transfer.Import.Targets.{lookup-assign_ne}
use flagraft.Transfer.Apply.{
  Setting, add_field, add_fields, imported_field, update_flag, place_target,
}
use flagraft.Transfer.Project.{import_project, missing_fields, start, setting_of}
use flagraft.Transfer.Project.Keeps.{import_project_keeps}
use flagraft.Workspace.Fields.{
  CreateContextFieldInput, UpdateContextFieldInput, of_project, create_context_field,
  update_context_field, delete_context_field,
}
use flagraft.Workspace.Fields.Limits.{
  IsLimited, IsLimited-append, length-select-one, create-IsLimited, update-IsLimited,
  delete-IsLimited,
}

abbrev weight : Option FieldRule → ℕ
weight none = 0
weight (some rule) = 1

lookup-assign :
    (k : String) (v : FieldRule) (d : Dictionary FieldRule) → lookup k (assign k v d) ≡ some v
unfolding lookup assign
lookup-assign k v [] = ground (arith, eq_refl k)
lookup-assign k v ((l, w) ∷ d) = ground (arith, eq_refl k, lookup-assign k v d)

length-assign :
    (k : String) (v : FieldRule) (d : Dictionary FieldRule)
    → lookup k d ≡ none
    → length (assign k v d) ≡ suc (length d)
unfolding lookup assign
length-assign k v [] free = refl
length-assign k v ((l, w) ∷ d) free = ground (arith, length-assign k v d)

module _ (project_id : String) where
  -- With one row at most for a key, the rules are as many as the rows.
  length-rules_of :
      (rows : List ContextField) (rules : Dictionary FieldRule)
      → ((k : String)
          → length (select (is_field_of project_id k) rows) + weight (lookup k rules) ≤ 1)
      → length (rules_of (select (of_project project_id) rows) rules)
        ≡ length (select (of_project project_id) rows) + length rules
  unfolding rules_of
  length-rules_of [] rules one = ground arith
  length-rules_of (r ∷ rows) rules one = elim (Bool-cases (r.project_id == project_id)) [
    | inr other ↦ rw other (length-rules_of rows rules (λ k. ground (arith, one k)))
    | inl own ↦
        let rule : FieldRule = record { key = r.key; type = r.type; enum_values = r.enum_values } in
        let free : lookup r.key rules ≡ none = elim (Option-cases (lookup r.key rules)) [
          | inl nothing ↦ nothing
          | inr (old, found) ↦ ground (arith, one r.key, eq_refl r.key, found)
        ] in
        let one' : (k : String)
            → length (select (is_field_of project_id k) rows)
                + weight (lookup k (assign r.key rule rules))
              ≤ 1 =
          λ k. elim (Bool-cases (r.key == k)) [
            | inr apart ↦ rw (lookup-assign_ne k r.key rule rules apart) (ground (arith, one k))
            | inl same ↦
                subst
                  (λ x.
                    length (select (is_field_of project_id x) rows)
                      + weight (lookup x (assign r.key rule rules))
                    ≤ 1)
                  ((eq_iff r.key k).0 same)
                  (rw (lookup-assign r.key rule rules) (ground (arith, one r.key, eq_refl r.key)))
          ] in
        rw
          (
            own,
            length-rules_of rows (assign r.key rule rules) one',
            length-assign r.key rule rules free,
          )
          (ground arith)
  ]

  length-load_field_rules :
      (db : Db)
      → IsLimited db.context_fields
      → length (load_field_rules db project_id)
        ≡ length (select (of_project project_id) db.context_fields)
  unfolding load_field_rules lookup
  length-load_field_rules db limited =
      length-rules_of db.context_fields [] (λ k. ground (arith, limited.unique project_id k))
      ∙ ground arith

module _ (ids : Choices) (now : ℕ) (setting : Setting) where
  abbrev count : Run → ℕ
  count run = length (select (of_project setting.project_id) run.db.context_fields)

  abbrev HasRoom : ℕ → Run → Type 0
  HasRoom n run = IsLimited run.db.context_fields × (count run + n ≤ max_context_fields_per_project)

  -- A field takes one place of those that are left.
  add_field-HasRoom :
      (f : NativeField) (n : ℕ) (run : Run)
      → HasRoom (suc n) run
      → HasRoom n (add_field ids now setting f run).1
  unfolding add_field
  add_field-HasRoom f n run (limited, room) = elim (Bool-cases (valid_field f)) [
    | inr bad ↦ rw (bad, add_field) (limited, ground arith)
    | inl good ↦
        let rows = run.db.context_fields in
        elim (Bool-cases (any (is_field_of setting.project_id f.key) rows)) [
          | inl taken ↦ rw (good, taken, add_field) (limited, ground arith)
          | inr free ↦
              let row = imported_field ids now setting f in
              let absent : find (is_field_of setting.project_id f.key) rows ≡ none =
                ground (arith, any-find (is_field_of setting.project_id f.key) rows, free) in
              rw (good, free, add_field)
                (
                  IsLimited-append rows row limited (ground arith) absent,
                  ground (arith, length-select-one (of_project setting.project_id) rows row),
                )
        ]
  ]

  add_fields-HasRoom :
      (fields : List NativeField) (run : Run)
      → HasRoom (length fields) run
      → IsLimited (add_fields ids now setting fields run).1.db.context_fields
  unfolding add_fields
  add_fields-HasRoom [] run h = h.0
  add_fields-HasRoom (f ∷ fields) run h =
      bind_leads (HasRoom (length fields)) (λ r. IsLimited r.db.context_fields)
        (add_field ids now setting f run) (λ _. add_fields ids now setting fields)
        (add_field-HasRoom f (length fields) run h) (λ s q. q.0)
        (λ _ s q. add_fields-HasRoom fields s q)

import-IsLimited :
    (rt : Runtime) (safe_regex : String → Bool) (ids : Choices) (now : ℕ) (project_id : String)
    (args : ImportArgs) (db : Db)
    → IsLimited db.context_fields
    → IsLimited (import_project rt safe_regex ids now project_id args db).1.context_fields
unfolding update_flag place_target
import-IsLimited rt safe_regex ids now project_id args db limited =
    import_project_keeps rt safe_regex ids now project_id args db (λ d. IsLimited d.context_fields)
      (λ d fields. IsLimited d.context_fields) limited (λ d fields h. h)
      (λ p _ room.
        add_fields-HasRoom ids now (setting_of db project_id p)
          (missing_fields db project_id args.document.context_fields) (start db project_id)
          (limited, ground (arith, length-load_field_rules project_id db limited)))
      (λ p _. record {
        by_update = λ flag_id flag run h. h;
        by_flag = λ flag run h. h;
        by_target = λ exists flag_id t run h. h;
      })

-- One call that writes context fields, whether it throws or not.
pub data FieldStep : Db → Db → Type 1 where
  create :
      (now : ℕ) (fresh project_id : String) (input : CreateContextFieldInput) {db : Db}
      → FieldStep db (create_context_field now fresh project_id input db).1
  change :
      (now : ℕ) (project_id id : String) (input : UpdateContextFieldInput) {db : Db}
      → FieldStep db (update_context_field now project_id id input db).1
  delete :
      (project_id id : String) {db : Db} → FieldStep db (delete_context_field project_id id db).1
  transfer :
      (rt : Runtime) (safe_regex : String → Bool) (ids : Choices) (now : ℕ) (project_id : String)
      (args : ImportArgs) {db : Db}
      → FieldStep db (import_project rt safe_regex ids now project_id args db).1

-- No call, an import of any file included, gives a project more than 25 context fields, or two of
-- them with one key, where that was so before.
pub FieldStep-IsLimited :
    (before after : Db)
    → FieldStep before after
    → IsLimited before.context_fields
    → IsLimited after.context_fields
FieldStep-IsLimited before after (create now fresh project_id input) limited =
    create-IsLimited before limited now fresh project_id input
FieldStep-IsLimited before after (change now project_id id input) limited =
    update-IsLimited before limited now project_id id input
FieldStep-IsLimited before after (delete project_id id) limited =
    delete-IsLimited before limited project_id id
FieldStep-IsLimited before after (transfer rt safe_regex ids now project_id args) limited =
    import-IsLimited rt safe_regex ids now project_id args before limited
