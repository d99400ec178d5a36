-- ===== src/Workspace/Fields/Limits.antt =====
-- What every call on context fields keeps, src/modules/context-fields/context-field.service.ts.
use flagraft.Prelude.{
  ℕ, ◌+◌, ◌≤◌, Bool, false, none, List, [], ◌∷◌, ◌++◌, String, ◌==◌, ◌≡◌, refl, arith, leb, length,
  select, any, find, update, remove, eq_iff, if_both, length-append, select-append, select-of_none,
  length-select-update, length-select-remove-le, Option-cases, Bool-cases, inl, inr, subst, sym,
}
use flagraft.Db.{Db, Project, ContextField}
use flagraft.Transfer.Import.{max_context_fields_per_project, is_field_of}
use flagraft.Workspace.Fields.{
  CreateContextFieldInput, UpdateContextFieldInput, of_project, has_field_id, new_field,
  create_context_field, set_field, update_context_field, delete_context_field,
}

-- At most 25 fields in a project, and a key for one field of it.
pub record IsLimited (rows : List ContextField) : Type 0 where
  pub few :
      (project_id : String)
      → length (select (of_project project_id) rows) ≤ max_context_fields_per_project
  pub unique : (project_id key : String) → length (select (is_field_of project_id key) rows) ≤ 1

-- A row more under a test that it passes, or none.
pub length-select-one :
    (q : ContextField → Bool) (rows : List ContextField) (row : ContextField)
    → length (select q (rows ++ row ∷ [])) ≤ length (select q rows) + 1
length-select-one q rows row =
    rw (select-append q rows (row ∷ []), length-append (select q rows) (select q (row ∷ [])))
      (if_both (λ xs. length (select q rows) + length xs ≤ length (select q rows) + 1) (q row)
        (omega arith) (omega arith))

pub length-select-other :
    (q : ContextField → Bool) (rows : List ContextField) (row : ContextField)
    → q row ≡ false
    → length (select q (rows ++ row ∷ [])) ≤ length (select q rows)
length-select-other q rows row other =
    rw (select-append q rows (row ∷ []), length-append (select q rows) (select q (row ∷ [])), other)
      (omega arith)

-- A new key of a project that has room.
pub IsLimited-append :
    (rows : List ContextField) (row : ContextField)
    → IsLimited rows
    → leb max_context_fields_per_project (length (select (of_project row.project_id) rows)) ≡ false
    → find (is_field_of row.project_id row.key) rows ≡ none
    → IsLimited (rows ++ row ∷ [])
IsLimited-append rows row limited room free = record {
  few = λ p. elim (Bool-cases (row.project_id == p)) [
    | inr other ↦ ground (arith, limited.few p, length-select-other (of_project p) rows row other)
    | inl own ↦
        subst
          (λ q. length (select (of_project q) (rows ++ row ∷ [])) ≤ max_context_fields_per_project)
          ((eq_iff row.project_id p).0 own)
          (ground (arith, length-select-one (of_project row.project_id) rows row))
  ];
  unique = λ p k. elim (Bool-cases (is_field_of p k row)) [
    | inr other ↦
        ground (arith, limited.unique p k, length-select-other (is_field_of p k) rows row other)
    | inl same ↦
        let own : row.project_id ≡ p = ground (arith, eq_iff row.project_id p) in
        let key : row.key ≡ k = ground (arith, eq_iff row.key k) in
        let absent : find (is_field_of p k) rows ≡ none =
          subst (λ x. find (is_field_of p x) rows ≡ none) key
            (subst (λ x. find (is_field_of x row.key) rows ≡ none) own free) in
        let nothing = select-of_none (is_field_of p k) rows absent in
        ground (arith, nothing, length-select-one (is_field_of p k) rows row)
  ];
}

IsLimited-update :
    (rows : List ContextField) (now : ℕ) (project_id id : String) (input : UpdateContextFieldInput)
    → IsLimited rows
    → IsLimited (update (has_field_id project_id id) (set_field now input) rows)
IsLimited-update rows now project_id id input limited = record {
  few = λ p.
      subst (λ n. n ≤ max_context_fields_per_project)
        (sym (
          length-select-update (of_project p) (has_field_id project_id id) (set_field now input)
            rows (λ r. refl)))
        (limited.few p);
  unique = λ p k.
      subst (λ n. n ≤ 1)
        (sym (
          length-select-update (is_field_of p k) (has_field_id project_id id) (set_field now input)
            rows (λ r. refl)))
        (limited.unique p k);
}

IsLimited-remove :
    (rows : List ContextField) (q : ContextField → Bool)
    → IsLimited rows
    → IsLimited (remove q rows)
IsLimited-remove rows q limited = record {
  few = λ p. ground (arith, limited.few p, length-select-remove-le (of_project p) q rows);
  unique =
      λ p k. ground (arith, limited.unique p k, length-select-remove-le (is_field_of p k) q rows);
}

module _ (db : Db) (limited : IsLimited db.context_fields) where
  pub create-IsLimited :
      (now : ℕ) (fresh project_id : String) (input : CreateContextFieldInput)
      → IsLimited (create_context_field now fresh project_id input db).1.context_fields
  unfolding create_context_field
  create-IsLimited now fresh project_id input =
      let full =
        leb max_context_fields_per_project
          (length (select (of_project project_id) db.context_fields)) in
      elim (Bool-cases full) [
        | inl no_room ↦ rw (no_room, create_context_field) limited
        | inr room ↦
            elim (Option-cases (find (is_field_of project_id input.key) db.context_fields)) [
              | inr (row, taken) ↦ rw (room, taken, create_context_field) limited
              | inl free ↦
                  elim (Bool-cases (any (λ (p : Project). p.id == project_id) db.projects)) [
                    | inr unknown ↦ rw (room, free, unknown, create_context_field) limited
                    | inl known ↦
                        rw (room, free, known, create_context_field)
                          (IsLimited-append db.context_fields (new_field now fresh project_id input)
                            limited room free)
                  ]
            ]
      ]

  pub update-IsLimited :
      (now : ℕ) (project_id id : String) (input : UpdateContextFieldInput)
      → IsLimited (update_context_field now project_id id input db).1.context_fields
  unfolding update_context_field
  update-IsLimited now project_id id input =
      elim (Option-cases (find (has_field_id project_id id) db.context_fields)) [
        | inl missing ↦ rw (missing, update_context_field) limited
        | inr (row, found) ↦
            rw (found, update_context_field)
              (IsLimited-update db.context_fields now project_id id input limited)
      ]

  pub delete-IsLimited :
      (project_id id : String) → IsLimited (delete_context_field project_id id db).1.context_fields
  unfolding delete_context_field
  delete-IsLimited project_id id =
      elim (Bool-cases (any (has_field_id project_id id) db.context_fields)) [
        | inr missing ↦ rw (missing, delete_context_field) limited
        | inl found ↦
            rw (found, delete_context_field)
              (IsLimited-remove db.context_fields (has_field_id project_id id) limited)
      ]
