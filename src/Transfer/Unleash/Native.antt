-- ===== src/Transfer/Unleash/Native.antt =====
-- An Unleash export as a native document: `toNative` of
-- src/modules/transfer/external/unleash.adapter.ts, after zod has parsed the input. The order of
-- `localeCompare` is a parameter, and so is the time. Environments that are called like a property
-- which every object inherits are not modelled.
use flagraft.Prelude.{
  ℕ, ◌+◌, false, Option, none, some, List, [], ◌∷◌, ◌++◌, String, ◌==◌, ltb, leb, length, select,
  map, is_some, or_else, if◌then◌else◌,
}
use flagraft.Evaluate.Constraint.{add_name, StrategyConstraint}
use flagraft.Evaluate.Flag.{Dictionary, lookup}
use flagraft.Client.State.{assign, push}
use flagraft.Transfer.Document.{
  NativeState, NativeFlag, NativeDocument, TransferWarning, WarningKind, Detail,
  unsupported_strategy, unknown_environment, behaviour_change, dropped_unplaced,
  dropped_unsupported, ignored_case,
}
use flagraft.Transfer.Unleash.Document.{
  UnleashConstraint, UnleashFeature, UnleashState, UnleashStrategy, UnleashDocument,
}
use flagraft.Transfer.Unleash.Convert.{carried, skipped, convert_strategy}

pub record ToNativeResult : Type 0 where
  pub document : NativeDocument
  pub warnings : List TransferWarning
  pub flag_warnings : Dictionary (List TransferWarning)

-- The environments of the flag at hand, and what the loops over all flags collect.
pub record Conversion : Type 0 where
  pub environments : Dictionary NativeState
  pub placements : Dictionary ℕ
  pub flag_warnings : Dictionary (List TransferWarning)

abbrev document_warning : WarningKind → Detail → TransferWarning
document_warning kind detail = record { environment = none; kind = kind; detail = detail }

abbrev environment_warning : String → WarningKind → Detail → TransferWarning
environment_warning slug kind detail = record {
  environment = some slug;
  kind = kind;
  detail = detail;
}

abbrev pub no_state : NativeState
no_state = record { enabled = false; strategies = [] }

-- `environments[slug].strategies.push({ constraints })`
abbrev pub push_strategy :
    String → List StrategyConstraint → Dictionary NativeState → Dictionary NativeState
push_strategy slug constraints environments =
    let state = or_else (lookup slug environments) no_state in
    assign slug
      (record state { strategies = state.strategies ++ record { constraints = constraints } ∷ [] })
      environments

-- A strategy in an environment that is known. It may be one without a state of the feature.
unfoldable pub place_in :
    (UnleashConstraint → Option String)
    → String
    → UnleashStrategy
    → String
    → Conversion
    → Conversion
unfolding convert_strategy assign lookup push
place_in op_for feature_name s slug conv =
    let environments =
      if is_some (lookup slug conv.environments)
      then conv.environments
      else assign slug no_state conv.environments in
    elim (convert_strategy s op_for) [
      | skipped why ↦ record conv {
        environments = environments;
        flag_warnings =
            push feature_name
              (environment_warning slug unsupported_strategy (dropped_unsupported why))
              conv.flag_warnings;
      }
      | carried constraints keys ↦ record conv {
        environments = push_strategy slug constraints environments;
        flag_warnings =
            if ltb 0 (length keys)
            then push feature_name (environment_warning slug behaviour_change (ignored_case keys))
                conv.flag_warnings
            else conv.flag_warnings;
      }
    ]

-- `inferredPlacements.set(slug, (inferredPlacements.get(slug) ?? 0) + 1)`
abbrev count_placement : String → Dictionary ℕ → Dictionary ℕ
count_placement slug placements = assign slug (or_else (lookup slug placements) 0 + 1) placements

-- The body of the loop over a feature's strategies.
unfoldable pub place_strategy :
    (UnleashConstraint → Option String)
    → String
    → Option String
    → UnleashStrategy
    → Conversion
    → Conversion
unfolding place_in push assign lookup
place_strategy op_for feature_name implied s conv = elim s.environment [
  | some slug ↦ place_in op_for feature_name s slug conv
  | none ↦ elim implied [
    | some slug ↦
        place_in op_for feature_name s slug
          (record conv { placements = count_placement slug conv.placements })
    | none ↦ record conv {
      flag_warnings =
          push feature_name (document_warning unknown_environment dropped_unplaced)
            conv.flag_warnings;
    }
  ]
]

unfoldable pub place_strategies :
    (UnleashConstraint → Option String)
    → String
    → Option String
    → List UnleashStrategy
    → Conversion
    → Conversion
unfolding place_strategy
place_strategies op_for feature_name implied [] conv = conv
place_strategies op_for feature_name implied (s ∷ strategies) conv =
    place_strategies op_for feature_name implied strategies
      (place_strategy op_for feature_name implied s conv)

-- `(a.sortOrder ?? 0) - (b.sortOrder ?? 0)`, in a stable sort.
abbrev pub insert_strategy : UnleashStrategy → List UnleashStrategy → List UnleashStrategy
insert_strategy s [] = s ∷ []
insert_strategy s (t ∷ strategies) =
    let rest = insert_strategy s strategies in
    if leb (or_else s.sort_order 0) (or_else t.sort_order 0) then s ∷ t ∷ strategies else t ∷ rest

unfoldable pub sort_strategies : List UnleashStrategy → List UnleashStrategy
sort_strategies [] = []
sort_strategies (s ∷ strategies) = insert_strategy s (sort_strategies strategies)

-- The states of a feature, by environment.
unfoldable pub feature_states :
    String → List UnleashState → Dictionary NativeState → Dictionary NativeState
unfolding assign
feature_states feature_name [] environments = environments
feature_states feature_name (e ∷ states) environments = feature_states feature_name states (
    if e.feature_name == feature_name
    then assign e.environment (record { enabled = e.enabled; strategies = [] }) environments
    else environments)

-- The one element, if there is just one.
abbrev only_name : List String → Option String
only_name [] = none
only_name (n ∷ []) = some n
only_name (n ∷ m ∷ names) = none

abbrev pub implied_environment : List String → List String → Option String
implied_environment own all_names = elim (only_name own) [
  | none ↦ only_name all_names
  | some n ↦ some n
]

abbrev keys_of : Dictionary NativeState → List String
keys_of environments = map (λ (e : String × NativeState). e.0) environments

unfoldable pub environment_names : List UnleashState → List String → List String
environment_names [] names = names
environment_names (e ∷ states) names = environment_names states (add_name e.environment names)

pub record Flags : Type 0 where
  pub flags : List NativeFlag
  pub placements : Dictionary ℕ
  pub flag_warnings : Dictionary (List TransferWarning)

module _ (op_for : UnleashConstraint → Option String) (source : UnleashDocument) where
  abbrev pub convert_feature : UnleashFeature → Flags → Conversion
  convert_feature feature done =
      let environments = feature_states feature.name source.feature_environments [] in
      place_strategies op_for feature.name
        (implied_environment (keys_of environments)
          (environment_names source.feature_environments []))
        (sort_strategies (
          select (λ (s : UnleashStrategy). s.feature_name == feature.name)
            source.feature_strategies))
        (record {
          environments = environments;
          placements = done.placements;
          flag_warnings = done.flag_warnings;
        })

  abbrev pub with_feature : UnleashFeature → Flags → Flags
  with_feature feature done =
      let conv = convert_feature feature done in
      record {
        flags =
            done.flags
            ++ record {
              key = feature.name;
              name = feature.name;
              description = feature.description;
              environments = conv.environments;
            }
              ∷ [];
        placements = conv.placements;
        flag_warnings = conv.flag_warnings;
      }

  -- The loop over the features: archived ones are left out.
  unfoldable pub convert_features : List UnleashFeature → Flags → Flags
  unfolding place_strategies sort_strategies feature_states environment_names
  convert_features [] done = done
  convert_features (f ∷ features) done =
      convert_features features (if or_else f.archived false then done else with_feature f done)
