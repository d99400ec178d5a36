-- ===== src/Client/State.antt =====
-- What an evaluation reads: `EnvState`, `loadEnvState` and `fingerprint` of
-- src/modules/client/client.service.ts. The order in which JavaScript lists keys that read as
-- numbers is not modelled: an object's entries come in the order of their first assignment. Nor is a
-- flag with the key `__proto__`, which would become the prototype of the object of flags.
use Prim.Native.Nat.{Ordering}
use Prim.Native.String.{compare}
use flagraft.Prelude.{
  Bool, true, false, ◌&&◌, Option, none, some, List, [], ◌∷◌, ◌++◌, String, ◌==◌, leb, find, select,
  any, filter_map, or_else, if◌then◌else◌,
}
use flagraft.Db.{Db, ContextField, FeatureFlag, FlagEnvironment, TargetingStrategy}
use flagraft.Evaluate.Flag.{Dictionary, lookup, StrategyDef, FlagState, FieldTypes}

pub record EnvState : Type 0 where
  pub flags : Dictionary FlagState
  pub field_types : FieldTypes
  pub version : String

-- `entries[key] = value`
unfoldable pub assign {ℓ} : {V : Type ℓ} → String → V → Dictionary V → Dictionary V
assign key v [] = (key, v) ∷ []
assign key v ((k, w) ∷ entries) =
    let rest = assign key v entries in if k == key then (k, v) ∷ entries else (k, w) ∷ rest

-- `(entries[key] ??= []).push(value)`
unfoldable pub push {ℓ} : {V : Type ℓ} → String → V → Dictionary (List V) → Dictionary (List V)
unfolding assign lookup
push key v entries = assign key (or_else (lookup key entries) [] ++ v ∷ []) entries

-- `a <= b` on texts. JavaScript compares UTF-16 units where this compares UTF-8 bytes; they
-- differ only above U+FFFF.
abbrev pub text_le : String → String → Bool
text_le a b = elim (compare a b) [ Ordering.gt ↦ false | _ ↦ true ]

-- `Object.keys(o).sort().map((key) => [key, o[key]])`
insert_entry {ℓ} : {V : Type ℓ} → String × V → Dictionary V → Dictionary V
insert_entry e [] = e ∷ []
insert_entry e (d ∷ entries) =
    let rest = insert_entry e entries in if text_le e.0 d.0 then e ∷ d ∷ entries else d ∷ rest

unfoldable pub sort_entries {ℓ} : {V : Type ℓ} → Dictionary V → Dictionary V
unfolding insert_entry
sort_entries [] = []
sort_entries (e ∷ entries) = insert_entry e (sort_entries entries)

-- `asc(targetingStrategies.position)`
insert_position : TargetingStrategy → List TargetingStrategy → List TargetingStrategy
insert_position r [] = r ∷ []
insert_position r (q ∷ rows) =
    let rest = insert_position r rows in
    if leb r.position q.position then r ∷ q ∷ rows else q ∷ rest

unfoldable pub sort_positions : List TargetingStrategy → List TargetingStrategy
unfolding insert_position
sort_positions [] = []
sort_positions (r ∷ rows) = insert_position r (sort_positions rows)

pub record FlagRow : Type 0 where
  pub flag_id : String
  pub flag_key : String
  pub enabled : Bool

-- The flag of a row, joined on its id, within the project.
unfoldable pub project_flag : Db → String → String → Option FeatureFlag
project_flag db project_id flag_id =
    find (λ (f : FeatureFlag). f.id == flag_id && f.project_id == project_id) db.feature_flags

flag_row : Db → String → String → FlagEnvironment → Option FlagRow
unfolding project_flag
flag_row db project_id environment_id row =
    let joined =
      any (λ e. e.id == row.environment_id && e.project_id == project_id) db.environments in
    if joined && row.environment_id == environment_id
    then elim (project_flag db project_id row.flag_id) [
      | none ↦ none
      | some f ↦ some (record { flag_id = f.id; flag_key = f.key; enabled = row.enabled })
    ]
    else none

unfoldable pub flag_rows : Db → String → String → List FlagRow
unfolding flag_row
flag_rows db project_id environment_id =
    filter_map (flag_row db project_id environment_id) db.flag_environments

-- `strategyRows`, ordered by position.
unfoldable pub strategy_rows : Db → String → String → List TargetingStrategy
unfolding project_flag sort_positions
strategy_rows db project_id environment_id = sort_positions (
    select
      (λ r.
        r.environment_id == environment_id
        && elim (project_flag db project_id r.flag_id) [ none ↦ false | some f ↦ true ])
      db.targeting_strategies)

-- The loop that fills `strategiesByFlag`.
unfoldable pub group_strategies :
    List TargetingStrategy → Dictionary (List StrategyDef) → Dictionary (List StrategyDef)
unfolding push
group_strategies [] groups = groups
group_strategies (r ∷ rows) groups =
    group_strategies rows (push r.flag_id (record { constraints = r.constraints }) groups)

-- The loop that fills `flags`.
unfoldable pub collect_flags :
    List FlagRow → Dictionary (List StrategyDef) → Dictionary FlagState → Dictionary FlagState
unfolding assign lookup
collect_flags [] groups flags = flags
collect_flags (r ∷ rows) groups flags = collect_flags rows groups (
    assign r.flag_key
      (record { enabled = r.enabled; strategies = or_else (lookup r.flag_id groups) [] }) flags)

-- The loop that fills `fieldTypes`. To assign a text to `__proto__` does nothing.
unfoldable pub collect_types : List ContextField → FieldTypes → FieldTypes
unfolding assign
collect_types [] types = types
collect_types (f ∷ fields) types =
    collect_types fields (if f.key == "__proto__" then types else assign f.key f.type types)

-- `JSON.stringify` of the sorted entries, and SHA-1 in base64url: Node's, a parameter.
pub record Digest : Type 0 where
  pub stringify : Dictionary FlagState → FieldTypes → String
  pub sha1 : String → String

module _ (d : Digest) where
  unfoldable pub fingerprint : Dictionary FlagState → FieldTypes → String
  unfolding sort_entries
  fingerprint flags field_types =
      d.sha1 (d.stringify (sort_entries flags) (sort_entries field_types))

  unfoldable pub load_env_state : Db → String → String → EnvState
  unfolding flag_rows strategy_rows group_strategies collect_flags collect_types fingerprint
  load_env_state db project_id environment_id =
      let groups = group_strategies (strategy_rows db project_id environment_id) [] in
      let flags = collect_flags (flag_rows db project_id environment_id) groups [] in
      let field_types =
        collect_types (select (λ f. f.project_id == project_id) db.context_fields) [] in
      record { flags = flags; field_types = field_types; version = fingerprint flags field_types }
