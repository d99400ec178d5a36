-- ===== src/Transfer/Export.antt =====
-- The export of a project: `exportProject` of src/modules/transfer/transfer.service.ts. Rows with
-- equal sort keys, whose order the source leaves to the database, keep the order of the table. The
-- slug `__proto__`, which would change the prototype of the object of environments, is read as any.
pub mod Rows
pub mod Contents
pub mod Complete
use flagraft.Prelude.{
  ℕ, Bool, true, false, ◌&&◌, ◌||◌, Option, none, some, List, [], ◌∷◌, ◌++◌, String, ◌==◌, leb,
  length, select, map, filter_map, option_map, find, any, is_some, if◌then◌else◌,
}
use flagraft.Db.{
  Db, Project, Environment, FeatureFlag, FlagEnvironment, ContextField, TargetingStrategy,
}
use flagraft.Db.Find.{project_at}
use flagraft.Outcome.{Exec, Result, ok, err, app_error, type_error}
use flagraft.Evaluate.Constraint.{StrategyConstraint, list_includes}
use flagraft.Evaluate.Flag.{Dictionary, StrategyDef, lookup, inherited_names}
use flagraft.Client.State.{assign, text_le}
use flagraft.Workspace.Fields.{sort_keys, of_project}
use flagraft.Transfer.Document.{
  NativeField, NativeState, NativeFlag, NativeDocument, native_format, native_version,
  TransferWarning,
}

-- `orderBy`: the order `le` on the rows.
module _ {A : Type 0} (le : A → A → Bool) where
  insert_row : A → List A → List A
  insert_row a [] = a ∷ []
  insert_row a (b ∷ rows) =
      let rest = insert_row a rows in if le a b then a ∷ b ∷ rows else b ∷ rest

  unfoldable pub order_by : List A → List A
  unfolding insert_row
  order_by [] = []
  order_by (a ∷ rows) = insert_row a (order_by rows)

-- A row of `stateRows`, and one of `strategyRows` with the position that it is ordered by.
pub record StateRow : Type 0 where
  pub flag_id : String
  pub slug : String
  pub enabled : Bool

pub record StrategyRow : Type 0 where
  pub flag_id : String
  pub slug : String
  pub position : ℕ
  pub constraints : List StrategyConstraint

-- `innerJoin(environments, …)`: the slug of a row's environment.
unfoldable pub slug_of : Db → String → Option String
slug_of db environment_id =
    option_map (λ (e : Environment). e.slug) (find (λ e. e.id == environment_id) db.environments)

-- `inArray(featureFlags.key, keys)`, where there are keys.
unfoldable pub is_wanted : List String → FeatureFlag → Bool
is_wanted [] f = true
is_wanted (key ∷ keys) f = list_includes (key ∷ keys) f.key

unfoldable pub exported_flags : String → List String → Db → List FeatureFlag
unfolding order_by is_wanted
exported_flags project_id keys db =
    order_by (λ f g. text_le f.key g.key)
      (select (λ f. f.project_id == project_id && is_wanted keys f) db.feature_flags)

is_of_one : List FeatureFlag → String → Bool
is_of_one flags flag_id = any (λ f. f.id == flag_id) flags

unfoldable pub state_row : Db → FlagEnvironment → Option StateRow
unfolding slug_of
state_row db row =
    option_map (λ slug. record { flag_id = row.flag_id; slug = slug; enabled = row.enabled })
      (slug_of db row.environment_id)

unfoldable pub state_rows : List FeatureFlag → Db → List StateRow
unfolding is_of_one state_row order_by
state_rows flags db =
    order_by (λ r s. text_le r.slug s.slug)
      (filter_map (state_row db) (select (λ row. is_of_one flags row.flag_id) db.flag_environments))

unfoldable pub strategy_row : Db → TargetingStrategy → Option StrategyRow
unfolding slug_of
strategy_row db row =
    option_map
      (λ slug. record {
        flag_id = row.flag_id;
        slug = slug;
        position = row.position;
        constraints = row.constraints;
      })
      (slug_of db row.environment_id)

row_le : StrategyRow → StrategyRow → Bool
row_le r s = if r.slug == s.slug then leb r.position s.position else text_le r.slug s.slug

unfoldable pub strategy_rows : List FeatureFlag → Db → List StrategyRow
unfolding is_of_one strategy_row order_by row_le
strategy_rows flags db = order_by row_le (
    filter_map (strategy_row db)
      (select (λ row. is_of_one flags row.flag_id) db.targeting_strategies))

-- The first loop over `envs`.
unfoldable pub set_exported :
    String → List StateRow → Dictionary NativeState → Dictionary NativeState
unfolding assign
set_exported flag_id [] envs = envs
set_exported flag_id (row ∷ rows) envs =
    let skipped = set_exported flag_id rows envs in
    let set =
      set_exported flag_id rows
        (assign row.slug (record { enabled = row.enabled; strategies = [] }) envs) in
    if row.flag_id == flag_id then set else skipped

-- `envs[strategy.slug]?.strategies.push(…)`: what every object inherits has no `strategies`.
unfoldable pub push_row : StrategyRow → Dictionary NativeState → Result (Dictionary NativeState)
unfolding lookup assign
push_row row envs = elim (lookup row.slug envs) [
  | some state ↦ ok (
      assign row.slug
        (record state {
          strategies = state.strategies ++ (record { constraints = row.constraints } ∷ []);
        })
        envs)
  | none ↦ if list_includes inherited_names row.slug then err type_error else ok envs
]

-- The second loop.
unfoldable pub push_rows :
    String → List StrategyRow → Dictionary NativeState → Result (Dictionary NativeState)
unfolding push_row
push_rows flag_id [] envs = ok envs
push_rows flag_id (row ∷ rows) envs =
    if row.flag_id == flag_id
    then elim (push_row row envs) [ ok pushed ↦ push_rows flag_id rows pushed | err e ↦ err e ]
    else push_rows flag_id rows envs

unfoldable pub exported_flag : List StateRow → List StrategyRow → FeatureFlag → Result NativeFlag
unfolding set_exported push_rows
exported_flag states strategies f = elim (push_rows f.id strategies (set_exported f.id states [])) [
  | ok envs ↦
      ok (record { key = f.key; name = f.name; description = f.description; environments = envs })
  | err e ↦ err e
]

flag_in_front : NativeFlag → Result (List NativeFlag) → Result (List NativeFlag)
flag_in_front f (ok flags) = ok (f ∷ flags)
flag_in_front f (err e) = err e

unfoldable pub map_flags :
    List StateRow → List StrategyRow → List FeatureFlag → Result (List NativeFlag)
unfolding exported_flag flag_in_front
map_flags states strategies [] = ok []
map_flags states strategies (f ∷ flags) =
    let rest = map_flags states strategies flags in
    elim (exported_flag states strategies f) [ ok out ↦ flag_in_front out rest | err e ↦ err e ]

abbrev pub exported_field : ContextField → NativeField
exported_field f = record {
  key = f.key;
  type = f.type;
  description = f.description;
  enum_values = f.enum_values;
}

pub record ExportEnvelope : Type 0 where
  pub document : NativeDocument
  pub warnings : List TransferWarning

unfoldable pub envelope_of : ℕ → String → Project → Db → List NativeFlag → ExportEnvelope
unfolding sort_keys
envelope_of now project_id project db flags = record {
  document = record {
    format = native_format;
    version = native_version;
    exported_at = some now;
    project = some (record { slug = project.slug; name = project.name });
    context_fields =
        map exported_field (sort_keys (select (of_project project_id) db.context_fields));
    flags = flags;
  };
  warnings = [];
}

unfoldable pub export_project : ℕ → String → List String → Db → Result ExportEnvelope
unfolding exported_flags state_rows strategy_rows map_flags envelope_of
export_project now project_id keys db = elim (project_at db project_id) [
  | none ↦ err (app_error "Project not found" 404 "NotFound")
  | some project ↦
      let flags = exported_flags project_id keys db in
      elim (map_flags (state_rows flags db) (strategy_rows flags db) flags) [
        | ok out ↦ ok (envelope_of now project_id project db out)
        | err e ↦ err e
      ]
]
