-- ===== src/Strategies/Service.antt =====
-- The strategy list of a flag in an environment: `listStrategies`, `validateConstraints` and
-- `replaceStrategies` of src/modules/strategies/strategy.service.ts. The ids of new rows are the
-- database's choice, `fresh i` for the row at index i.
use flagraft.Prelude.{
  ℕ, suc, Bool, ◌&&◌, Option, none, some, List, [], ◌∷◌, ◌++◌, String, ◌==◌, select, remove, map,
}
use flagraft.Db.{Db, TargetingStrategy}
use flagraft.Db.Find.{find_flag, find_environment}
use flagraft.Outcome.{Exec, app_error, pure, throw, gets, modify, transaction, ◌>>=◌, ◌>>◌}
use flagraft.Evaluate.Runtime.{Runtime}
use flagraft.Evaluate.Constraint.{StrategyConstraint}
use flagraft.Evaluate.Flag.{Dictionary, StrategyDef}
use flagraft.Client.State.{sort_positions}
use flagraft.Strategies.Rules.{FieldRule, Rejection, constraint_error, load_field_rules}

pub record StrategyResponse : Type 0 where
  pub id : String
  pub position : ℕ
  pub constraints : List StrategyConstraint

unfoldable pub to_response : TargetingStrategy → StrategyResponse
to_response row = record { id = row.id; position = row.position; constraints = row.constraints }

abbrev pub belongs_to : String → String → TargetingStrategy → Bool
belongs_to flag_id environment_id row =
    row.flag_id == flag_id && row.environment_id == environment_id

unfoldable pub list_strategies : String → String → String → Exec Db (List StrategyResponse)
unfolding sort_positions to_response
list_strategies project_id flag_key slug = do
  flag ← find_flag project_id flag_key
  environment ← find_environment project_id slug
  gets λ db.
      map to_response
        (sort_positions (select (belongs_to flag.id environment.id) db.targeting_strategies))

-- The rows that are inserted, the position being the index.
unfoldable pub new_rows :
    (ℕ → String) → String → String → ℕ → List StrategyDef → List TargetingStrategy
new_rows fresh flag_id environment_id i [] = []
new_rows fresh flag_id environment_id i (s ∷ strategies) =
    record {
      id = fresh i;
      flag_id = flag_id;
      environment_id = environment_id;
      position = i;
      constraints = s.constraints;
    }
    ∷ new_rows fresh flag_id environment_id (suc i) strategies

-- The statements of the transaction: delete, then insert what there is.
unfoldable pub write_strategies :
    (ℕ → String) → String → String → List StrategyDef → Exec Db (List TargetingStrategy)
unfolding new_rows
write_strategies fresh flag_id environment_id strategies = do
  modify λ (db : Db). record db {
    targeting_strategies = remove (belongs_to flag_id environment_id) db.targeting_strategies;
  }
  let rows = new_rows fresh flag_id environment_id 0 strategies
  modify λ (db : Db). record db { targeting_strategies = db.targeting_strategies ++ rows }
  pure rows

-- The message is `text reason`.
abbrev pub reject : (Rejection → String) → Option Rejection → Exec Db (Unit {0})
reject text none = pure tt
reject text (some reason) = throw (app_error (text reason) 400 "BadRequest")

module _ (rt : Runtime) (safe_regex : String → Bool) where
  unfoldable pub first_rejected : Dictionary FieldRule → List StrategyConstraint → Option Rejection
  first_rejected fields [] = none
  first_rejected fields (c ∷ cs) =
      let rest = first_rejected fields cs in
      elim (constraint_error rt safe_regex fields c) [ some reason ↦ some reason | none ↦ rest ]

  -- The two loops of `validateConstraints`.
  unfoldable pub first_illegal : Dictionary FieldRule → List StrategyDef → Option Rejection
  unfolding first_rejected
  first_illegal fields [] = none
  first_illegal fields (s ∷ strategies) =
      let rest = first_illegal fields strategies in
      elim (first_rejected fields s.constraints) [ some reason ↦ some reason | none ↦ rest ]

  unfoldable pub validate_constraints :
      (Rejection → String) → String → List StrategyDef → Exec Db (Unit {0})
  unfolding first_illegal
  validate_constraints text project_id strategies db =
      reject text (first_illegal (load_field_rules db project_id) strategies) db

  unfoldable pub replace_strategies :
      (ℕ → String)
      → (Rejection → String)
      → String
      → String
      → String
      → List StrategyDef
      → Exec Db (List StrategyResponse)
  unfolding validate_constraints write_strategies to_response
  replace_strategies fresh text project_id flag_key slug strategies = do
    flag ← find_flag project_id flag_key
    environment ← find_environment project_id slug
    validate_constraints text project_id strategies
    rows ← transaction (write_strategies fresh flag.id environment.id strategies)
    pure (map to_response rows)
