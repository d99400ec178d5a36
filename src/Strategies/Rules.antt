-- ===== src/Strategies/Rules.antt =====
-- Which constraints may be written: src/modules/strategies/constraint-rules.ts, with
-- `OPERATORS_BY_TYPE` of src/modules/strategies/strategy.schema.ts and `loadFieldRules` of
-- src/modules/strategies/strategy.service.ts.
use flagraft.Prelude.{
  Bool, Option, none, some, List, [], ◌∷◌, String, ◌==◌, select, or_else, if◌then◌else◌,
}
use flagraft.Db.{Db, ContextField}
use flagraft.Evaluate.Runtime.{Runtime}
use flagraft.Evaluate.Constraint.{StrategyConstraint, first_value, list_includes}
use flagraft.Evaluate.Flag.{Dictionary, lookup}
use flagraft.Client.State.{assign}

abbrev pub operators_by_type : Dictionary (List String)
operators_by_type =
    ("string", "equals" ∷ "in" ∷ "notIn" ∷ "startsWith" ∷ "contains" ∷ "regex" ∷ [])
    ∷ ("enum", "equals" ∷ "in" ∷ "notIn" ∷ [])
    ∷ ("boolean", "is" ∷ [])
    ∷ ("number", "eq" ∷ "neq" ∷ "lt" ∷ "lte" ∷ "gt" ∷ "gte" ∷ [])
    ∷ ("version", "eq" ∷ "gte" ∷ "lte" ∷ "satisfies" ∷ [])
    ∷ ("date", "before" ∷ "after" ∷ [])
    ∷ []

-- `(OPERATORS_BY_TYPE as Record<string, readonly string[]>)[type] ?? []`
abbrev pub allowed_operators : String → List String
allowed_operators type = or_else (lookup type operators_by_type) []

pub record FieldRule : Type 0 where
  pub key : String
  pub type : String
  pub enum_values : Option (List String)

-- A reason for refusing a constraint, one constructor for each message of the source.
pub data Rejection : Type 0 where
  unknown_field : (field_key : String) → Rejection
  bad_operator : (operator type key : String) → Rejection
  invalid_regex : (pattern : String) → Rejection
  unsafe_regex : (pattern : String) → Rejection
  bad_value : (value key : String) → Rejection

-- The loop over the values of an enum field.
unfoldable pub enum_error : String → List String → List String → Option Rejection
enum_error key allowed [] = none
enum_error key allowed (value ∷ values) =
    let rest = enum_error key allowed values in
    if list_includes allowed value then rest else some (bad_value value key)

unfoldable pub enum_check : FieldRule → List String → Option Rejection
unfolding enum_error
enum_check field values =
    if field.type == "enum"
    then elim field.enum_values [ none ↦ none | some allowed ↦ enum_error field.key allowed values ]
    else none

-- The regular expressions: `new RegExp` is the run time's, and `safeRegex` is the package
-- safe-regex.
module _ (rt : Runtime) (safe_regex : String → Bool) where
  unfoldable pub regex_error : String → Option Rejection
  regex_error pattern = elim (rt.regex_test pattern "") [
    | none ↦ some (invalid_regex pattern)
    | some _ ↦ if safe_regex pattern then none else some (unsafe_regex pattern)
  ]

  unfoldable pub field_error : FieldRule → StrategyConstraint → Option Rejection
  unfolding regex_error enum_check lookup
  field_error field c =
      if list_includes (allowed_operators field.type) c.operator
      then elim (if c.operator == "regex" then regex_error (first_value c.values) else none) [
        | some error ↦ some error
        | none ↦ enum_check field c.values
      ]
      else some (bad_operator c.operator field.type field.key)

  unfoldable pub constraint_error : Dictionary FieldRule → StrategyConstraint → Option Rejection
  unfolding field_error
  constraint_error fields c = elim (lookup c.field_key fields) [
    | none ↦ some (unknown_field c.field_key)
    | some field ↦ field_error field c
  ]

-- `new Map(rows.map((row) => [row.key, row]))`
unfoldable pub rules_of : List ContextField → Dictionary FieldRule → Dictionary FieldRule
unfolding assign
rules_of [] rules = rules
rules_of (f ∷ fields) rules =
    rules_of fields
      (assign f.key (record { key = f.key; type = f.type; enum_values = f.enum_values }) rules)

unfoldable pub load_field_rules : Db → String → Dictionary FieldRule
unfolding rules_of
load_field_rules db project_id =
    rules_of (select (λ f. f.project_id == project_id) db.context_fields) []
