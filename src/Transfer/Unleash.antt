-- ===== src/Transfer/Unleash.antt =====
-- Operators between Unleash and this program: the tables and `toUnleashConstraint` of
-- src/modules/transfer/external/unleash.adapter.ts. An operator that a table lists as undefined is
-- left out of it. A name that every object inherits reads as a function in the source, which is
-- no field's operator; here it reads as missing.
pub mod Document
pub mod Types
pub mod Convert
pub mod Native
pub mod Whole
pub mod Operators
pub mod Exact
pub mod Origin
pub mod Export
pub mod Tables
pub mod Negation
pub mod RoundTrip
use flagraft.Prelude.{
  Bool, true, false, Option, none, some, List, [], ◌∷◌, String, ◌==◌, if◌then◌else◌,
}
use flagraft.Evaluate.Constraint.{StrategyConstraint}
use flagraft.Evaluate.Flag.{Dictionary, lookup}

abbrev pub from_unleash_operator : Dictionary String
from_unleash_operator =
    ("IN", "in")
    ∷ ("NOT_IN", "notIn")
    ∷ ("STR_CONTAINS", "contains")
    ∷ ("STR_STARTS_WITH", "startsWith")
    ∷ ("NUM_EQ", "eq")
    ∷ ("NUM_GT", "gt")
    ∷ ("NUM_GTE", "gte")
    ∷ ("NUM_LT", "lt")
    ∷ ("NUM_LTE", "lte")
    ∷ ("DATE_AFTER", "after")
    ∷ ("DATE_BEFORE", "before")
    ∷ ("SEMVER_EQ", "eq")
    ∷ []

abbrev pub inverted_from_unleash_operator : Dictionary String
inverted_from_unleash_operator =
    ("IN", "notIn")
    ∷ ("NOT_IN", "in")
    ∷ ("NUM_EQ", "neq")
    ∷ ("NUM_GT", "lte")
    ∷ ("NUM_GTE", "lt")
    ∷ ("NUM_LT", "gte")
    ∷ ("NUM_LTE", "gt")
    ∷ []

pub record UnleashOperator : Type 0 where
  pub operator : String
  pub single_value : Bool

abbrev whole : String → UnleashOperator
whole operator = record { operator = operator; single_value = false }

abbrev pub to_unleash_operator : Dictionary UnleashOperator
to_unleash_operator =
    ("in", whole "IN")
    ∷ ("notIn", whole "NOT_IN")
    ∷ ("equals", record { operator = "IN"; single_value = true })
    ∷ ("is", record { operator = "IN"; single_value = true })
    ∷ ("contains", whole "STR_CONTAINS")
    ∷ ("startsWith", whole "STR_STARTS_WITH")
    ∷ ("eq", whole "NUM_EQ")
    ∷ ("gt", whole "NUM_GT")
    ∷ ("gte", whole "NUM_GTE")
    ∷ ("lt", whole "NUM_LT")
    ∷ ("lte", whole "NUM_LTE")
    ∷ ("after", whole "DATE_AFTER")
    ∷ ("before", whole "DATE_BEFORE")
    ∷ []

abbrev pub version_operator : Dictionary String
version_operator = ("eq", "SEMVER_EQ") ∷ []

pub record UnleashConstraintOut : Type 0 where
  pub context_name : String
  pub operator : String
  pub values : List String
  pub case_insensitive : Bool
  pub inverted : Bool

-- `values.slice(0, 1)`
abbrev pub first_only : List String → List String
first_only [] = []
first_only (v ∷ vs) = v ∷ []

abbrev pub constraint_out : StrategyConstraint → Bool → String → UnleashConstraintOut
constraint_out c single_value operator = record {
  context_name = c.field_key;
  operator = operator;
  values = if single_value then first_only c.values else c.values;
  case_insensitive = false;
  inverted = false;
}

unfoldable pub to_unleash_constraint : StrategyConstraint → String → Option UnleashConstraintOut
unfolding lookup
to_unleash_constraint c field_type = elim (lookup c.operator to_unleash_operator) [
  | none ↦ none
  | some mapped ↦
      if field_type == "version"
      then elim (lookup c.operator version_operator) [
        | none ↦ none
        | some operator ↦ some (constraint_out c mapped.single_value operator)
      ]
      else some (constraint_out c mapped.single_value mapped.operator)
]
