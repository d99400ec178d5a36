-- ===== src/Evaluate/Flag.antt =====
-- Evaluation of one flag: `strategyMatches` and `evaluateFlag` of src/modules/client/evaluate.ts.
-- A `Record<string, V>` is an association list; the first entry of a key is the one that is read.
-- A name that the object has no entry for may be one of `Object.prototype`, so that the source reads
-- a function or an object where its types promise a text.
use flagraft.Prelude.{
  Bool, true, false, not, Option, none, some, List, [], ◌∷◌, String, ◌==◌, text_append,
  if◌then◌else◌,
}
use flagraft.Outcome.{Result, ok, err, type_error}
use flagraft.Evaluate.Runtime.{Runtime}
use flagraft.Evaluate.Constraint.{
  StrategyConstraint, match_constraint, match_number, match_date, safe_regex_test, first_value,
  list_includes,
}

abbrev pub Dictionary {ℓ} : Type ℓ → Type ℓ
Dictionary V = List (String × V)

-- The entry of a key.
unfoldable pub lookup {ℓ} : {V : Type ℓ} → String → Dictionary V → Option V
lookup key [] = none
lookup key ((k, v) ∷ entries) = if k == key then some v else lookup key entries

-- The names that a plain object inherits from `Object.prototype`.
abbrev pub inherited_names : List String
inherited_names =
    "constructor" ∷ "__defineGetter__" ∷ "__defineSetter__" ∷ "hasOwnProperty" ∷ "__lookupGetter__"
    ∷ "__lookupSetter__" ∷ "isPrototypeOf" ∷ "propertyIsEnumerable" ∷ "toString" ∷ "valueOf"
    ∷ "__proto__" ∷ "toLocaleString" ∷ []

unfoldable pub is_plain : String → Bool
is_plain name = not (list_includes inherited_names name)

-- What `entries[key]` reads: undefined, a value of the object, or what it inherits, which reads as
-- the text where JavaScript converts it to one.
pub data Reading (V : Type 0) : Type 0 where
  absent : Reading V
  own : V → Reading V
  inherited : (text : String) → Reading V

unfoldable pub inherited_text : String → String
inherited_text name =
    if name == "__proto__"
    then "[object Object]"
    else if name == "constructor"
    then "function Object() { [native code] }"
    else text_append "function " (text_append name "() { [native code] }")

-- `entries[key]`
unfoldable pub read : {V : Type 0} → String → Dictionary V → Reading V
unfolding lookup is_plain inherited_text
read key entries = elim (lookup key entries) [
  | some v ↦ own v
  | none ↦ if is_plain key then absent else inherited (inherited_text key)
]

pub record StrategyDef : Type 0 where
  pub constraints : List StrategyConstraint

pub record FlagState : Type 0 where
  pub enabled : Bool
  pub strategies : List StrategyDef

pub data EvalReason : Type 0 where
  disabled strategy_match default : EvalReason

pub record Evaluation : Type 0 where
  pub enabled : Bool
  pub reason : EvalReason

abbrev pub EvalContext : Type 0
EvalContext = Dictionary String

abbrev pub FieldTypes : Type 0
FieldTypes = Dictionary String

-- A type that is inherited is none of the switch's cases, as the empty text is not.
abbrev type_read : Reading String → Option String
type_read absent = none
type_read (own field_type) = some field_type
type_read (inherited text) = some ""

-- `every` goes on behind a constraint that matches.
abbrev pub and_then : Result Bool → Result Bool → Result Bool
and_then (ok true) rest = rest
and_then (ok false) rest = ok false
and_then (err e) rest = err e

-- The loop over the strategies ends with the first that matches.
abbrev pub or_next : Result Bool → Result Evaluation → Result Evaluation
or_next (ok true) rest = ok (record { enabled = true; reason = strategy_match })
or_next (ok false) rest = rest
or_next (err e) rest = err e

module _ (rt : Runtime) where
  -- On fields of type string and enum: a function has no `startsWith` and no `includes`.
  unfoldable pub match_inherited_text : StrategyConstraint → String → Result Bool
  unfolding safe_regex_test
  match_inherited_text c text =
      if c.operator == "notIn"
      then ok true
      else if c.operator == "startsWith"
      then err type_error
      else if c.operator == "contains"
      then err type_error
      else if c.operator == "regex"
      then ok (safe_regex_test rt (first_value c.values) text)
      else ok false

  -- `matchConstraint` on a context value that is inherited: it is no text, and has no `trim`.
  unfoldable pub match_inherited : StrategyConstraint → String → String → Result Bool
  unfolding match_inherited_text
  match_inherited c field_type text =
      let first = first_value c.values in
      if field_type == "boolean"
      then (if c.operator == "is" then err type_error else ok false)
      else if field_type == "number"
      then ok (match_number rt c.operator (rt.number text) (rt.number first))
      else if field_type == "version"
      then err type_error
      else if field_type == "date"
      then ok (match_date rt c.operator (rt.date_parse text) (rt.date_parse first))
      else match_inherited_text c text

  -- `matchConstraint` on what `strategyMatches` reads for it.
  unfoldable pub match_reading : StrategyConstraint → Reading String → Reading String → Result Bool
  unfolding match_inherited
  match_reading c field_type absent = ok false
  match_reading c field_type (own ctx_value) =
      ok (match_constraint rt c (type_read field_type) (some ctx_value))
  match_reading c field_type (inherited text) = elim (type_read field_type) [
    | none ↦ ok false
    | some name ↦ match_inherited c name text
  ]

  unfoldable pub all_match : List StrategyConstraint → FieldTypes → EvalContext → Result Bool
  unfolding match_reading read
  all_match [] field_types context = ok true
  all_match (c ∷ cs) field_types context =
      let rest = all_match cs field_types context in
      and_then (match_reading c (read c.field_key field_types) (read c.field_key context)) rest

  unfoldable pub strategy_matches : StrategyDef → FieldTypes → EvalContext → Result Bool
  unfolding all_match
  strategy_matches strategy field_types context = all_match strategy.constraints field_types context

  unfoldable pub first_match : List StrategyDef → FieldTypes → EvalContext → Result Evaluation
  unfolding strategy_matches
  first_match [] field_types context = ok (record { enabled = false; reason = default })
  first_match (s ∷ strategies) field_types context =
      let rest = first_match strategies field_types context in
      or_next (strategy_matches s field_types context) rest

  unfoldable pub evaluate_strategies :
      List StrategyDef → FieldTypes → EvalContext → Result Evaluation
  unfolding first_match
  evaluate_strategies [] field_types context = ok (record { enabled = true; reason = default })
  evaluate_strategies (s ∷ strategies) field_types context =
      first_match (s ∷ strategies) field_types context

  unfoldable pub evaluate_flag : FlagState → FieldTypes → EvalContext → Result Evaluation
  unfolding evaluate_strategies
  evaluate_flag state field_types context =
      if state.enabled
      then evaluate_strategies state.strategies field_types context
      else ok (record { enabled = false; reason = disabled })
