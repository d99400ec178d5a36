-- ===== src/Evaluate/Constraint.antt =====
-- One constraint against the caller's context: `matchConstraint`, `toBool` and `safeRegexTest` of
-- src/modules/client/evaluate.ts.
use flagraft.Prelude.{
  Bool, false, not, ◌||◌, ◌&&◌, Option, none, some, List, [], ◌∷◌, ◌++◌, String, ◌==◌, any, bool_eq,
  if◌then◌else◌, trim, starts_with, includes, lower_equals,
}
use flagraft.Evaluate.Runtime.{Runtime, le}
use flagraft.Evaluate.Version.{at_least, at_most, is_same, compare_versions, version_satisfies}

pub record StrategyConstraint : Type 0 where
  pub field_key : String
  pub operator : String
  pub values : List String

-- `c.values[0] ?? ''`
abbrev pub first_value : List String → String
first_value [] = ""
first_value (v ∷ vs) = v

-- `values.includes(value)`
abbrev pub list_includes : List String → String → Bool
list_includes vs value = any (λ v. value == v) vs

-- `names.add(name)` of a `Set`, which lists its values in the order of their first addition.
abbrev pub add_name : String → List String → List String
add_name name names = if list_includes names name then names else names ++ name ∷ []

unfoldable pub to_bool : String → Bool
unfolding lower_equals trim
to_bool value = lower_equals (trim value) "true"

module _ (rt : Runtime) where
  open rt use {number, date_parse, is_nan, regex_test, eq, lt}

  unfoldable pub safe_regex_test : String → String → Bool
  safe_regex_test pattern value = elim (regex_test pattern value) [ none ↦ false | some b ↦ b ]

  -- The operators of a number field.
  unfoldable pub match_number : String → rt.Num → rt.Num → Bool
  match_number operator n m =
      if is_nan n || is_nan m
      then false
      else if operator == "eq"
      then eq n m
      else if operator == "neq"
      then not (eq n m)
      else if operator == "lt"
      then lt n m
      else if operator == "lte"
      then le rt n m
      else if operator == "gt"
      then lt m n
      else if operator == "gte"
      then le rt m n
      else false

  unfoldable pub match_version : String → String → String → Bool
  match_version operator ctx_value first =
      if operator == "satisfies"
      then version_satisfies rt ctx_value first
      else elim (compare_versions rt ctx_value first) [
        | none ↦ false
        | some cmp ↦
            if operator == "eq"
            then is_same cmp
            else if operator == "gte"
            then at_least cmp
            else if operator == "lte"
            then at_most cmp
            else false
      ]

  unfoldable pub match_date : String → rt.Num → rt.Num → Bool
  match_date operator t u =
      if is_nan t || is_nan u
      then false
      else if operator == "before"
      then lt t u
      else if operator == "after"
      then lt u t
      else false

  -- The default case: fields of type string and enum.
  unfoldable pub match_text : StrategyConstraint → String → Bool
  unfolding safe_regex_test
  match_text c ctx_value =
      if c.operator == "equals"
      then ctx_value == first_value c.values
      else if c.operator == "in"
      then list_includes c.values ctx_value
      else if c.operator == "notIn"
      then not (list_includes c.values ctx_value)
      else if c.operator == "startsWith"
      then starts_with ctx_value (first_value c.values)
      else if c.operator == "contains"
      then includes ctx_value (first_value c.values)
      else if c.operator == "regex"
      then safe_regex_test (first_value c.values) ctx_value
      else false

  -- The switch on the field's type.
  unfoldable pub match_typed : StrategyConstraint → String → String → Bool
  match_typed c field_type ctx_value =
      let first = first_value c.values in
      if field_type == "boolean"
      then (c.operator == "is" && bool_eq (to_bool ctx_value) (to_bool first))
      else if field_type == "number"
      then match_number c.operator (number ctx_value) (number first)
      else if field_type == "version"
      then match_version c.operator ctx_value first
      else if field_type == "date"
      then match_date c.operator (date_parse ctx_value) (date_parse first)
      else match_text c ctx_value

  unfoldable pub match_constraint : StrategyConstraint → Option String → Option String → Bool
  match_constraint c field_type none = false
  match_constraint c none (some ctx_value) = false
  match_constraint c (some field_type) (some ctx_value) = match_typed c field_type ctx_value
