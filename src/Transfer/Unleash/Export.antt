-- ===== src/Transfer/Unleash/Export.antt =====
-- A native document in Unleash's shape: `fromNative` of
-- src/modules/transfer/external/unleash.adapter.ts. Constants that it writes for Unleash alone (the
-- kind of a feature, and what is always empty) are left out.
pub mod Accounts
pub mod Told
use flagraft.Prelude.{
  ℕ, suc, ◌+◌, Bool, true, false, Option, none, some, List, [], ◌∷◌, ◌++◌, String, ◌==◌, ◌≡◌, ◌⊎◌,
  refl, arith, length, length-append, map, or_else, Option-cases, inl, inr, if◌then◌else◌,
}
use flagraft.Evaluate.Constraint.{StrategyConstraint}
use flagraft.Evaluate.Flag.{Dictionary, StrategyDef, lookup}
use flagraft.Client.State.{assign}
use flagraft.Transfer.Document.{
  NativeField, NativeState, NativeFlag, NativeDocument, TransferWarning, unsupported_operator,
  no_unleash_operator,
}
use flagraft.Transfer.Unleash.{UnleashConstraintOut, to_unleash_constraint}
use flagraft.Transfer.Unleash.Document.{
  UnleashConstraint, UnleashFeature, UnleashState, UnleashStrategy, UnleashField, UnleashDocument,
}

-- The three collections that the loops fill, and the warnings.
pub record Exported : Type 0 where
  pub features : List UnleashFeature
  pub states : List UnleashState
  pub strategies : List UnleashStrategy
  pub warnings : List TransferWarning

-- `new Map(document.contextFields.map((field) => [field.key, field.type]))`
unfoldable pub types_by_key : List NativeField → Dictionary String → Dictionary String
unfolding assign
types_by_key [] types = types
types_by_key (f ∷ fields) types = types_by_key fields (assign f.key f.type types)

abbrev pub constraint_in : UnleashConstraintOut → UnleashConstraint
constraint_in c = record {
  context_name = c.context_name;
  operator = c.operator;
  values = c.values;
  value = none;
  case_insensitive = some c.case_insensitive;
  inverted = some c.inverted;
}

-- The constraints of a strategy in Unleash's shape, or the first that has none.
pub data Outgoing : Type 0 where
  converted : List UnleashConstraint → Outgoing
  dropped : StrategyConstraint → Outgoing

abbrev pub in_front : UnleashConstraintOut → Outgoing → Outgoing
in_front c (converted constraints) = converted (constraint_in c ∷ constraints)
in_front c (dropped first) = dropped first

unfoldable pub export_constraints : Dictionary String → List StrategyConstraint → Outgoing
unfolding to_unleash_constraint lookup
export_constraints types [] = converted []
export_constraints types (c ∷ cs) =
    let rest = export_constraints types cs in
    elim (to_unleash_constraint c (or_else (lookup c.field_key types) "string")) [
      | none ↦ dropped c
      | some out ↦ in_front out rest
    ]

abbrev pub exported_strategy : String → String → ℕ → List UnleashConstraint → UnleashStrategy
exported_strategy flag_key slug sort_order constraints = record {
  feature_name = flag_key;
  environment = some slug;
  strategy_name = some "default";
  name = none;
  sort_order = some sort_order;
  disabled = some false;
  parameters = [];
  constraints = constraints;
  variants = 0;
  segments = 0;
}

abbrev pub left_out : String → String → StrategyConstraint → TransferWarning
left_out flag_key slug c = record {
  environment = some slug;
  kind = unsupported_operator;
  detail = no_unleash_operator flag_key c.operator c.field_key;
}

-- The loop over the strategies of an environment, with `sortOrder` so far.
unfoldable pub export_strategies :
    Dictionary String → String → String → ℕ → List StrategyDef → Exported → Exported
unfolding export_constraints
export_strategies types flag_key slug sort_order [] out = out
export_strategies types flag_key slug sort_order (s ∷ strategies) out =
    elim (export_constraints types s.constraints) [
      | dropped c ↦
          export_strategies types flag_key slug sort_order strategies
            (record out { warnings = out.warnings ++ left_out flag_key slug c ∷ [] })
      | converted constraints ↦
          export_strategies types flag_key slug (suc sort_order) strategies (record out {
            strategies =
                out.strategies ++ exported_strategy flag_key slug sort_order constraints ∷ [];
          })
    ]

abbrev pub with_state : String → String → NativeState → Exported → Exported
with_state flag_key slug state out = record out {
  states =
      out.states
      ++ record {
        feature_name = flag_key;
        environment = slug;
        enabled = state.enabled;
        variants = 0;
      }
        ∷ [];
}

unfoldable pub export_states :
    Dictionary String → String → Dictionary NativeState → Exported → Exported
unfolding export_strategies
export_states types flag_key [] out = out
export_states types flag_key ((slug, state) ∷ environments) out =
    export_states types flag_key environments (
      export_strategies types flag_key slug 0 state.strategies (with_state flag_key slug state out))

abbrev pub with_flag : NativeFlag → Exported → Exported
with_flag f out = record out {
  features =
      out.features
      ++ record {
        name = f.key;
        description = some (or_else f.description "");
        archived = some false;
      }
        ∷ [];
}

unfoldable pub export_flags : Dictionary String → List NativeFlag → Exported → Exported
unfolding export_states
export_flags types [] out = out
export_flags types (f ∷ flags) out =
    export_flags types flags (export_states types f.key f.environments (with_flag f out))

abbrev unleash_field : NativeField → UnleashField
unleash_field f = record {
  name = f.key;
  description = some (or_else f.description "");
  legal_values = or_else f.enum_values [];
}

abbrev pub nothing_exported : Exported
nothing_exported = record { features = []; states = []; strategies = []; warnings = [] }

unfoldable pub from_native : NativeDocument → UnleashDocument × List TransferWarning
unfolding export_flags types_by_key
from_native document =
    let out =
      export_flags (types_by_key document.context_fields []) document.flags nothing_exported in
    (
      record {
        features = out.features;
        feature_environments = out.states;
        feature_strategies = out.strategies;
        context_fields = map unleash_field document.context_fields;
        feature_tags = 0;
        segments = 0;
      },
      out.warnings,
    )
