-- ===== src/Transfer/Unleash/Document.antt =====
-- What is read of an Unleash export: src/modules/transfer/external/unleash.schema.ts, after zod has
-- parsed it. Of a list that is only counted, the model has the length; a sort order is a natural
-- number, as Unleash counts from 0.
use flagraft.Prelude.{ℕ, Bool, Option, List, String}
use flagraft.Evaluate.Flag.{Dictionary}

pub record UnleashConstraint : Type 0 where
  pub context_name : String
  pub operator : String
  pub values : List String
  pub value : Option String
  pub case_insensitive : Option Bool
  pub inverted : Option Bool

pub record UnleashFeature : Type 0 where
  pub name : String
  pub description : Option String
  pub archived : Option Bool

pub record UnleashState : Type 0 where
  pub feature_name : String
  pub environment : String
  pub enabled : Bool
  pub variants : ℕ

pub record UnleashStrategy : Type 0 where
  pub feature_name : String
  pub environment : Option String
  pub strategy_name : Option String
  pub name : Option String
  pub sort_order : Option ℕ
  pub disabled : Option Bool
  pub parameters : Dictionary String
  pub constraints : List UnleashConstraint
  pub variants : ℕ
  pub segments : ℕ

pub record UnleashField : Type 0 where
  pub name : String
  pub description : Option String
  pub legal_values : List String

pub record UnleashDocument : Type 0 where
  pub features : List UnleashFeature
  pub feature_environments : List UnleashState
  pub feature_strategies : List UnleashStrategy
  pub context_fields : List UnleashField
  pub feature_tags : ℕ
  pub segments : ℕ
