-- ===== src/Transfer/Unleash/Whole.antt =====
-- The whole of `toNative` of src/modules/transfer/external/unleash.adapter.ts: the context fields, the
-- notes on the document, and the flags.
use flagraft.Prelude.{
  ℕ, ◌+◌, Bool, false, not, ◌&&◌, none, some, List, [], ◌∷◌, ◌++◌, String, ◌==◌, ltb, length, any,
  select, remove, map, is_some, or_else, if◌then◌else◌,
}
use flagraft.Evaluate.Flag.{Dictionary, lookup}
use flagraft.Transfer.Document.{
  NativeField, native_format, native_version, valid_field, TransferWarning, WarningKind, Detail,
  unsupported_strategy, unknown_environment, behaviour_change, conflicting_types, archived_features,
  segments_left, tags_left, variants_left, placed_by_inference, illegal_field,
}
use flagraft.Transfer.Unleash.Document.{
  UnleashConstraint, UnleashFeature, UnleashState, UnleashStrategy, UnleashDocument,
}
use flagraft.Transfer.Unleash.Types.{InferredField, infer_field_types}
use flagraft.Transfer.Unleash.Convert.{operator_for, name_of}
use flagraft.Transfer.Unleash.Native.{ToNativeResult, convert_features}

abbrev note : WarningKind → Detail → List TransferWarning
note kind detail = record { environment = none; kind = kind; detail = detail } ∷ []

abbrev note_if : Bool → WarningKind → Detail → List TransferWarning
note_if b kind detail = if b then note kind detail else []

-- `source.featureStrategies.flatMap((strategy) => strategy.constraints)`
unfoldable pub all_constraints : List UnleashStrategy → List UnleashConstraint
all_constraints [] = []
all_constraints (s ∷ strategies) = s.constraints ++ all_constraints strategies

abbrev targets_user : UnleashStrategy → Bool
targets_user s =
    elim (name_of s) [ none ↦ false | some name ↦ name == "userWithId" ]
    && not (or_else s.disabled false)

abbrev user_id_field : InferredField
user_id_field = record {
  key = "userId";
  type = "string";
  enum_values = none;
  description = some "Created by the Unleash import for userWithId strategies";
  conflicted = false;
}

-- The field for user ids joins the others where a strategy needs it.
unfoldable pub inferred_fields : UnleashDocument → Dictionary InferredField
unfolding infer_field_types all_constraints lookup
inferred_fields source =
    let inferred =
      infer_field_types source.context_fields (all_constraints source.feature_strategies) in
    if any targets_user source.feature_strategies && not (is_some (lookup "userId" inferred))
    then inferred ++ ("userId", user_id_field) ∷ []
    else inferred

unfoldable pub conflict_notes : Dictionary InferredField → List TransferWarning
conflict_notes [] = []
conflict_notes ((key, field) ∷ inferred) =
    note_if field.conflicted behaviour_change (conflicting_types field.key)
    ++ conflict_notes inferred

abbrev is_archived : UnleashFeature → Bool
is_archived f = or_else f.archived false

abbrev variant_count : UnleashDocument → ℕ
variant_count source =
    length (select (λ (e : UnleashState). ltb 0 e.variants) source.feature_environments)
    + length (select (λ (s : UnleashStrategy). ltb 0 s.variants) source.feature_strategies)

-- What the document has and this program does not.
abbrev document_notes : UnleashDocument → List TransferWarning
document_notes source =
    let archived = select is_archived source.features in
    note_if (ltb 0 (length archived)) unsupported_strategy
      (archived_features (map (λ (f : UnleashFeature). f.name) archived))
    ++ note_if (ltb 0 source.segments) unsupported_strategy (segments_left source.segments)
    ++ note_if (ltb 0 source.feature_tags) unsupported_strategy (tags_left source.feature_tags)
    ++ note_if (ltb 0 (variant_count source)) unsupported_strategy
        (variants_left (variant_count source))

abbrev native_field : InferredField → NativeField
native_field field = record {
  key = field.key;
  type = field.type;
  description = field.description;
  enum_values = field.enum_values;
}

-- The fields that may not be stored are left out, with a note.
abbrev field_notes : List NativeField → List TransferWarning
field_notes fields =
    map
      (λ (f : NativeField). record {
        environment = none;
        kind = unsupported_strategy;
        detail = illegal_field f.key;
      })
      (remove valid_field fields)

module _ (locale_le : String → String → Bool) (now : ℕ) where
  insert_field : InferredField → List InferredField → List InferredField
  insert_field f [] = f ∷ []
  insert_field f (g ∷ fields) =
      let rest = insert_field f fields in if locale_le f.key g.key then f ∷ g ∷ fields else g ∷ rest

  unfoldable pub sort_fields : List InferredField → List InferredField
  unfolding insert_field
  sort_fields [] = []
  sort_fields (f ∷ fields) = insert_field f (sort_fields fields)

  unfoldable pub to_native : UnleashDocument → ToNativeResult
  unfolding inferred_fields conflict_notes convert_features operator_for sort_fields valid_field
  to_native source =
      let inferred = inferred_fields source in
      let done =
        convert_features (operator_for inferred) source source.features
          (record { flags = []; placements = []; flag_warnings = [] }) in
      let fields =
        map native_field (sort_fields (map (λ (e : String × InferredField). e.1) inferred)) in
      record {
        document = record {
          format = native_format;
          version = native_version;
          exported_at = some now;
          project = none;
          context_fields = select valid_field fields;
          flags = done.flags;
        };
        warnings =
            conflict_notes inferred
            ++ document_notes source
            ++ note_if (ltb 0 (length done.placements)) unknown_environment
                (placed_by_inference done.placements)
            ++ field_notes fields;
        flag_warnings = done.flag_warnings;
      }
