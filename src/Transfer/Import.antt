-- ===== src/Transfer/Import.antt =====
-- The parts of an import: `resolveEnvironment`, `filterStrategies` and the tables of
-- `applyImport` of src/modules/transfer/transfer.service.ts. Ids of new rows are the database's
-- choice, and the messages of two errors a parameter, since they have numbers and what zod reports.
pub mod Targets
use flagraft.Prelude.{
  ℕ, suc, ◌+◌, Bool, true, false, not, ◌&&◌, ◌||◌, Option, none, some, List, [], ◌∷◌, ◌++◌, String,
  ◌==◌, ltb, length, any, select, remove, update, map, filter_map, is_some, or_else, if◌then◌else◌,
}
use flagraft.Db.{
  Db, Project, Security, Environment, FeatureFlag, FlagEnvironment, ContextField, DefaultFlagState,
}
use flagraft.Db.Find.{has_key, project_at}
use flagraft.Outcome.{
  Exec, Result, ok, err, app_error, unique_violation, pure, transaction, ◌>>=◌, ◌>>◌,
}
use flagraft.Evaluate.Runtime.{Runtime}
use flagraft.Evaluate.Constraint.{add_name, list_includes}
use flagraft.Evaluate.Flag.{Dictionary, StrategyDef, lookup, inherited_names}
use flagraft.Client.State.{assign, text_le}
use flagraft.Strategies.Rules.{FieldRule, load_field_rules}
use flagraft.Strategies.Service.{belongs_to, new_rows, first_rejected}
use flagraft.Workspace.Environments.{in_project}
use flagraft.Flags.Create.{defaults_of, initial_enabled}
use flagraft.Transfer.Document.{
  NativeField, NativeState, NativeFlag, NativeDocument, valid_field, TransferWarning,
  unsupported_strategy, unknown_environment, approval_required, constraint_rejected,
  dropped_illegal, no_environment, state_left, Action, created, updated, skipped, FlagReportEntry,
  Source, Counts, ImportReport,
}

pub data OnConflict : Type 0 where
  skip overwrite : OnConflict

pub record ImportArgs : Type 0 where
  pub document : NativeDocument
  pub source : Source
  pub on_conflict : OnConflict
  pub environment_map : Dictionary String
  pub dry_run : Bool
  pub seed_warnings : Dictionary (List TransferWarning)

abbrev pub max_context_fields_per_project : ℕ
max_context_fields_per_project = 25

-- `new Map(envRows.map((env) => [env.slug, env]))`
unfoldable pub by_slug : List Environment → Dictionary Environment → Dictionary Environment
unfolding assign
by_slug [] slugs = slugs
by_slug (e ∷ rows) slugs = by_slug rows (assign e.slug e slugs)

-- `envBySlug.get(environmentMap[name] ?? name)`: for a name that every object inherits, the map
-- has a value that is no slug.
unfoldable pub resolve_environment :
    String → Dictionary String → Dictionary Environment → Option Environment
unfolding lookup
resolve_environment name environment_map slugs = elim (lookup name environment_map) [
  | some slug ↦ lookup slug slugs
  | none ↦ if list_includes inherited_names name then none else lookup name slugs
]

pub record Filtered : Type 0 where
  pub kept : List StrategyDef
  pub skipped : ℕ
  pub warnings : List TransferWarning

unfoldable pub filter_strategies :
    Runtime → (String → Bool) → Dictionary FieldRule → String → List StrategyDef → Filtered
unfolding first_rejected
filter_strategies rt safe_regex fields environment [] = record {
  kept = [];
  skipped = 0;
  warnings = [];
}
filter_strategies rt safe_regex fields environment (s ∷ strategies) =
    let rest = filter_strategies rt safe_regex fields environment strategies in
    elim (first_rejected rt safe_regex fields s.constraints) [
      | none ↦ record rest { kept = s ∷ rest.kept }
      | some reason ↦ record rest {
        skipped = suc rest.skipped;
        warnings =
            record {
              environment = some environment;
              kind = constraint_rejected;
              detail = dropped_illegal reason;
            }
            ∷ rest.warnings;
      }
    ]

-- What the import has written, and what it reports so far. `warnings` are the entry's of the flag
-- at hand.
pub record Run : Type 0 where
  pub db : Db
  pub fields : Dictionary FieldRule
  pub counts : Counts
  pub fields_created : List String
  pub unmatched : List String
  pub entries : List FlagReportEntry
  pub warnings : List TransferWarning

pub record Target : Type 0 where
  pub environment : Environment
  pub enabled : Bool
  pub strategies : List StrategyDef

-- The ids that the database gives to new rows, and the texts of messages.
pub record Choices : Type 0 where
  pub field_id : String → String
  pub flag_id : String → String
  pub strategy_id : String → String → ℕ → String
  pub too_many_fields : ℕ → String
  pub field_refused : NativeField → String

abbrev pub is_field_of : String → String → ContextField → Bool
is_field_of project_id key row = row.project_id == project_id && row.key == key

-- The environments that the document names, and the local ones where they land.
abbrev pub target_of :
    Dictionary String → Dictionary Environment → String × NativeState → Option Target
target_of environment_map slugs (name, state) =
    elim (resolve_environment name environment_map slugs) [
      | none ↦ none
      | some e ↦
          some (record { environment = e; enabled = state.enabled; strategies = state.strategies })
    ]

abbrev pub is_unmatched : Dictionary String → Dictionary Environment → String × NativeState → Bool
is_unmatched environment_map slugs entry = not (is_some (target_of environment_map slugs entry))

unfoldable pub add_names : Dictionary NativeState → List String → List String
add_names [] names = names
add_names ((name, state) ∷ entries) names = add_names entries (add_name name names)

abbrev pub is_writable : Bool → Target → Bool
is_writable approval t = not approval || not t.environment.protected

unfoldable pub enabled_by_slug : List Target → Dictionary Bool → Dictionary Bool
unfolding assign
enabled_by_slug [] slugs = slugs
enabled_by_slug (t ∷ targets) slugs =
    enabled_by_slug targets (assign t.environment.slug t.enabled slugs)

-- The updates of an existing flag's states.
unfoldable pub set_states : ℕ → String → List Target → List FlagEnvironment → List FlagEnvironment
set_states now flag_id [] rows = rows
set_states now flag_id (t ∷ targets) rows = set_states now flag_id targets (
    update (λ (r : FlagEnvironment). r.flag_id == flag_id && r.environment_id == t.environment.id)
      (λ (r : FlagEnvironment). record r { enabled = t.enabled; updated_at = now }) rows)

-- The state of a new flag in one of the project's environments.
abbrev pub imported_state :
    ℕ → String → Dictionary Bool → Option DefaultFlagState → Environment → FlagEnvironment
imported_state now flag_id enabled default_state e = record {
  flag_id = flag_id;
  environment_id = e.id;
  enabled =
      or_else (lookup e.slug enabled) (initial_enabled default_state e.slug e.protected false);
  updated_at = now;
}

-- `new Map(existingRows.map((row) => [row.key, row.id]))`
unfoldable pub ids_by_key : List FeatureFlag → Dictionary String → Dictionary String
unfolding assign
ids_by_key [] keys = keys
ids_by_key (f ∷ rows) keys = ids_by_key rows (assign f.key f.id keys)

-- `[...names].sort()`
insert_name : String → List String → List String
insert_name n [] = n ∷ []
insert_name n (m ∷ names) =
    let rest = insert_name n names in if text_le n m then n ∷ m ∷ names else m ∷ rest

unfoldable pub sort_names : List String → List String
unfolding insert_name
sort_names [] = []
sort_names (n ∷ names) = insert_name n (sort_names names)
