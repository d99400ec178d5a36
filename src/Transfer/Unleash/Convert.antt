-- ===== src/Transfer/Unleash/Convert.antt =====
-- One strategy of an Unleash export: `convertStrategy` and, of `toNative`, `operatorFor` of
-- src/modules/transfer/external/unleash.adapter.ts.
use flagraft.Prelude.{
  false, not, ◌&&◌, Option, none, some, List, [], ◌∷◌, ◌++◌, String, ◌==◌, ltb, length, select, map,
  or_else, split, trim, if◌then◌else◌,
}
use flagraft.Evaluate.Constraint.{StrategyConstraint, list_includes}
use flagraft.Evaluate.Flag.{Dictionary, lookup}
use flagraft.Transfer.Document.{
  Skip, no_name, disabled_strategy, uses_segment, no_negation, no_equivalent, no_values,
  partial_rollout, no_user_ids, remote_address, application_hostname, unknown_strategy,
}
use flagraft.Transfer.Unleash.{from_unleash_operator, inverted_from_unleash_operator}
use flagraft.Transfer.Unleash.Document.{UnleashConstraint, UnleashStrategy}
use flagraft.Transfer.Unleash.Types.{InferredField}

-- The constraints to carry over, with the fields whose case Unleash ignored; or why not.
pub data Converted : Type 0 where
  carried : (constraints : List StrategyConstraint) (ignored_case : List String) → Converted
  skipped : Skip → Converted

-- On an enum field only operators on a finite set are kept.
unfoldable pub restrict :
    Dictionary InferredField → UnleashConstraint → Option String → Option String
unfolding lookup
restrict inferred c none = none
restrict inferred c (some operator) = elim (lookup c.context_name inferred) [
  | none ↦ some operator
  | some field ↦
      if field.type == "enum" && not (list_includes ("in" ∷ "notIn" ∷ "equals" ∷ []) operator)
      then none
      else some operator
]

-- The operator of a constraint, or of its negation.
unfoldable pub operator_for : Dictionary InferredField → UnleashConstraint → Option String
unfolding lookup restrict
operator_for inferred c = restrict inferred c (
    if or_else c.inverted false
    then lookup c.operator inverted_from_unleash_operator
    else lookup c.operator from_unleash_operator)

-- `constraint.value ? [constraint.value] : []`
abbrev single : Option String → List String
single none = []
single (some v) = if v == "" then [] else v ∷ []

abbrev pub values_of : UnleashConstraint → List String
values_of c = elim c.values [ [] ↦ single c.value | v ∷ values ↦ v ∷ values ]

abbrev pub unmapped : UnleashConstraint → Skip
unmapped c =
    if or_else c.inverted false
    then no_negation c.operator c.context_name
    else no_equivalent c.operator c.context_name

-- The lists grow by a constraint in front of the rest.
abbrev pub extend : UnleashConstraint → String → Converted → Converted
extend c operator (skipped why) = skipped why
extend c operator (carried constraints ignored_case) =
    carried
      (record { field_key = c.context_name; operator = operator; values = values_of c }
        ∷ constraints)
      (if or_else c.case_insensitive false then c.context_name ∷ ignored_case else ignored_case)

-- The loop over the constraints.
unfoldable pub convert_constraints :
    (UnleashConstraint → Option String) → List UnleashConstraint → Converted
convert_constraints operator_for [] = carried [] []
convert_constraints operator_for (c ∷ cs) =
    let rest = convert_constraints operator_for cs in
    elim (operator_for c) [
      | none ↦ skipped (unmapped c)
      | some operator ↦
          if ltb 0 (length (values_of c))
          then extend c operator rest
          else skipped (no_values c.context_name)
    ]

abbrev pub user_ids : UnleashStrategy → List String
user_ids s =
    select (λ id. not (id == ""))
      (map trim (split b',' (or_else (lookup "userIds" s.parameters) "")))

abbrev pub rollout_of : UnleashStrategy → String
rollout_of s = or_else (lookup "rollout" s.parameters) "100"

abbrev pub with_user_ids : List String → List StrategyConstraint → List String → Converted
with_user_ids [] constraints ignored_case = skipped no_user_ids
with_user_ids (id ∷ ids) constraints ignored_case =
    carried
      (constraints ++ record { field_key = "userId"; operator = "in"; values = id ∷ ids } ∷ [])
      ignored_case

-- The switch on the strategy's name.
abbrev pub by_name : UnleashStrategy → String → List StrategyConstraint → List String → Converted
by_name s name constraints ignored_case =
    if name == "default"
    then carried constraints ignored_case
    else if name == "flexibleRollout"
    then (if rollout_of s == "100"
        then carried constraints ignored_case
        else skipped (partial_rollout (rollout_of s)))
    else if name == "userWithId"
    then with_user_ids (user_ids s) constraints ignored_case
    else if name == "remoteAddress"
    then skipped remote_address
    else if name == "applicationHostname"
    then skipped application_hostname
    else skipped (unknown_strategy name)

abbrev pub named : UnleashStrategy → String → Converted → Converted
named s name (skipped why) = skipped why
named s name (carried constraints ignored_case) = by_name s name constraints ignored_case

-- `strategy.strategyName ?? strategy.name`
abbrev pub name_of : UnleashStrategy → Option String
name_of s = elim s.strategy_name [ none ↦ s.name | some name ↦ some name ]

unfoldable pub convert_strategy : UnleashStrategy → (UnleashConstraint → Option String) → Converted
unfolding convert_constraints lookup split trim
convert_strategy s operator_for = elim (name_of s) [
  | none ↦ skipped no_name
  | some name ↦
      if or_else s.disabled false
      then skipped (disabled_strategy name)
      else if ltb 0 s.segments
      then skipped (uses_segment name)
      else named s name (convert_constraints operator_for s.constraints)
]
