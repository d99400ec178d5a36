-- ===== src/Workspace/Fields.antt =====
-- The context fields of a project: src/modules/context-fields/context-field.service.ts, and the rule of
-- context-field.schema.ts for an enum's values.
pub mod Limits
pub mod Ceiling
use flagraft.Prelude.{
  ℕ, Bool, true, false, not, ◌&&◌, Option, none, some, List, [], ◌∷◌, ◌++◌, String, ◌==◌, leb,
  length, select, any, find, update, remove, map, is_some, if◌then◌else◌,
}
use flagraft.Db.{Db, Project, ContextField}
use flagraft.Outcome.{Exec, Result, ok, err, Failure, app_error, db_error}
use flagraft.Client.State.{text_le}
use flagraft.Transfer.Import.{max_context_fields_per_project, is_field_of}

pub record CreateContextFieldInput : Type 0 where
  pub key : String
  pub type : String
  pub description : Option String
  pub enum_values : Option (List String)

pub record UpdateContextFieldInput : Type 0 where
  pub type : String
  pub description : Option String
  pub enum_values : Option (List String)

pub record FieldResponse : Type 0 where
  pub id : String
  pub key : String
  pub type : String
  pub description : Option String
  pub enum_values : Option (List String)

abbrev pub to_response : ContextField → FieldResponse
to_response row = record {
  id = row.id;
  key = row.key;
  type = row.type;
  description = row.description;
  enum_values = row.enum_values;
}

abbrev pub of_project : String → ContextField → Bool
of_project project_id row = row.project_id == project_id

abbrev pub has_field_id : String → String → ContextField → Bool
has_field_id project_id id row = row.project_id == project_id && row.id == id

-- `asc(contextFields.key)`
insert_key : ContextField → List ContextField → List ContextField
insert_key f [] = f ∷ []
insert_key f (g ∷ rows) =
    let rest = insert_key f rows in if text_le f.key g.key then f ∷ g ∷ rows else g ∷ rest

unfoldable pub sort_keys : List ContextField → List ContextField
unfolding insert_key
sort_keys [] = []
sort_keys (f ∷ rows) = insert_key f (sort_keys rows)

unfoldable pub list_context_fields : String → Db → List FieldResponse
unfolding sort_keys
list_context_fields project_id db =
    map to_response (sort_keys (select (of_project project_id) db.context_fields))

abbrev pub new_field : ℕ → String → String → CreateContextFieldInput → ContextField
new_field now fresh project_id input = record {
  id = fresh;
  project_id = project_id;
  key = input.key;
  type = input.type;
  description = input.description;
  enum_values = input.enum_values;
  created_at = now;
  updated_at = now;
}

unfoldable pub create_context_field :
    ℕ → String → String → CreateContextFieldInput → Exec Db FieldResponse
create_context_field now fresh project_id input db =
    if leb max_context_fields_per_project
      (length (select (of_project project_id) db.context_fields))
    then (
      err (
          app_error
            "A project can have at most 25 context fields. Delete one before adding another." 409
            "Conflict"),
      db,
    )
    else if is_some (find (is_field_of project_id input.key) db.context_fields)
    then (err (app_error "A context field with this key already exists" 409 "Conflict"), db)
    else if not (any (λ (p : Project). p.id == project_id) db.projects)
    then (err db_error, db)
    else (
      ok (to_response (new_field now fresh project_id input)),
      record db { context_fields = db.context_fields ++ new_field now fresh project_id input ∷ [] },
    )

abbrev pub set_field : ℕ → UpdateContextFieldInput → ContextField → ContextField
set_field now input row = record row {
  type = input.type;
  description = input.description;
  enum_values = input.enum_values;
  updated_at = now;
}

abbrev pub field_not_found : Failure
field_not_found = app_error "Context field not found" 404 "NotFound"

unfoldable pub update_context_field :
    ℕ → String → String → UpdateContextFieldInput → Exec Db FieldResponse
update_context_field now project_id field_id input db =
    elim (find (has_field_id project_id field_id) db.context_fields) [
      | none ↦ (err field_not_found, db)
      | some row ↦ (
        ok (to_response (set_field now input row)),
        record db {
          context_fields =
              update (has_field_id project_id field_id) (set_field now input) db.context_fields;
        },
      )
    ]

unfoldable pub delete_context_field : String → String → Exec Db (Unit {0})
delete_context_field project_id field_id db =
    if any (has_field_id project_id field_id) db.context_fields
    then (
      ok tt,
      record db { context_fields = remove (has_field_id project_id field_id) db.context_fields },
    )
    else (err field_not_found, db)
