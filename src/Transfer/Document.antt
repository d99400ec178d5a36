-- ===== src/Transfer/Document.antt =====
-- The documents and reports of a transfer: src/modules/transfer/transfer.schema.ts, with
-- `contextFieldKeySchema` and `FIELD_TYPES` of src/modules/context-fields/context-field.schema.ts. A
-- message to the reader is a constructor with the values that the source puts into its text.
use Prim.Native.Char.{Char, code}
use Prim.Native.String
use flagraft.Prelude.{
  ℕ, Bool, true, false, not, ◌&&◌, ◌||◌, Option, List, [], ◌∷◌, ◌==◌, leb, eqb, or_else, all,
  if◌then◌else◌,
}
use flagraft.Evaluate.Constraint.{list_includes}
use flagraft.Evaluate.Flag.{Dictionary, StrategyDef}
use flagraft.Strategies.Rules.{Rejection}

pub record NativeField : Type 0 where
  pub key : String.String
  pub type : String.String
  pub description : Option String.String
  pub enum_values : Option (List String.String)

-- A strategy of a document is a list of constraints, as one that evaluation reads.
pub record NativeState : Type 0 where
  pub enabled : Bool
  pub strategies : List StrategyDef

pub record NativeFlag : Type 0 where
  pub key : String.String
  pub name : String.String
  pub description : Option String.String
  pub environments : Dictionary NativeState

pub record NativeProject : Type 0 where
  pub slug : String.String
  pub name : String.String

pub record NativeDocument : Type 0 where
  pub format : String.String
  pub version : ℕ
  pub exported_at : Option ℕ
  pub project : Option NativeProject
  pub context_fields : List NativeField
  pub flags : List NativeFlag

abbrev pub native_format : String.String
native_format = "flagraft.export"

abbrev pub native_version : ℕ
native_version = 1

abbrev pub field_kinds : List String.String
field_kinds = "string" ∷ "enum" ∷ "boolean" ∷ "number" ∷ "version" ∷ "date" ∷ []

is_letter : ℕ → Bool
is_letter n = (leb b'A' n && leb n b'Z') || (leb b'a' n && leb n b'z')

-- A character of a key behind the first: a letter, a digit, or one of `_.-`.
is_key_char : Char → Bool
unfolding is_letter
is_key_char c =
    let n = code c in
    is_letter n || (leb b'0' n && leb n b'9') || eqb n b'_' || eqb n b'.' || eqb n b'-'

-- The rest of a key, of which `left` characters are allowed.
key_rest : ℕ → String.String → Bool
unfolding is_key_char
key_rest left String.[] = true
key_rest Prim.Native.Nat.zero (String.◌∷◌ c s) = false
key_rest (Prim.Native.Nat.suc left) (String.◌∷◌ c s) = is_key_char c && key_rest left s

-- From 1 to 64 characters that match /^[A-Za-z_][A-Za-z0-9_.-]*$/.
unfoldable pub is_field_key : String.String → Bool
unfolding key_rest is_letter
is_field_key String.[] = false
is_field_key (String.◌∷◌ c s) = (is_letter (code c) || eqb (code c) b'_') && key_rest 63 s

list_is_empty : List String.String → Bool
list_is_empty [] = true
list_is_empty (v ∷ vs) = false

-- `nativeContextFieldSchema.safeParse(field).success`
unfoldable pub valid_field : NativeField → Bool
unfolding is_field_key list_is_empty
valid_field field =
    let values = or_else field.enum_values [] in
    is_field_key field.key
    && list_includes field_kinds field.type
    && all (λ v. not (v == "")) values
    && (if field.type == "enum" then not (list_is_empty values) else list_is_empty values)

pub data WarningKind : Type 0 where
  unsupported_strategy unsupported_operator unknown_environment : WarningKind
  approval_required constraint_rejected behaviour_change : WarningKind

pub data Skip : Type 0 where
  no_name : Skip
  disabled_strategy : (name : String.String) → Skip
  uses_segment : (name : String.String) → Skip
  no_negation : (operator context_name : String.String) → Skip
  no_equivalent : (operator context_name : String.String) → Skip
  no_values : (context_name : String.String) → Skip
  partial_rollout : (rollout : String.String) → Skip
  no_user_ids : Skip
  remote_address : Skip
  application_hostname : Skip
  unknown_strategy : (name : String.String) → Skip

pub data Detail : Type 0 where
  -- From the import.
  dropped_illegal : Rejection → Detail
  no_environment : (name : String.String) → Detail
  state_left : (slug : String.String) → Detail
  -- From the Unleash adapter.
  dropped_unplaced : Detail
  dropped_unsupported : Skip → Detail
  ignored_case : List String.String → Detail
  conflicting_types : (key : String.String) → Detail
  archived_features : List String.String → Detail
  segments_left tags_left variants_left : ℕ → Detail
  placed_by_inference : Dictionary ℕ → Detail
  illegal_field : (key : String.String) → Detail
  no_unleash_operator : (flag_key operator field_key : String.String) → Detail

pub record TransferWarning : Type 0 where
  pub environment : Option String.String
  pub kind : WarningKind
  pub detail : Detail

pub data Action : Type 0 where
  created updated skipped : Action

pub record FlagReportEntry : Type 0 where
  pub key : String.String
  pub action : Action
  pub reason : Option String.String
  pub warnings : List TransferWarning

pub data Source : Type 0 where
  native_file unleash_file : Source

pub record Counts : Type 0 where
  pub flags_created : ℕ
  pub flags_updated : ℕ
  pub flags_skipped : ℕ
  pub context_fields_created : ℕ
  pub strategies_imported : ℕ
  pub strategies_skipped : ℕ

pub record ImportReport : Type 0 where
  pub dry_run : Bool
  pub source : Source
  pub counts : Counts
  pub context_fields_created : List String.String
  pub unmatched_environments : List String.String
  pub flags : List FlagReportEntry
