-- ===== src/Db.antt =====
-- The tables of src/db/schema.ts, a record for a row and a list for a table. A column that
-- nothing reads is left out (the ids of flag_environments and user_projects, and a user's two-factor
-- setting and tone). Times are milliseconds since the epoch. Texts that the schema lists the
-- values of keep the type String, as in the source.
pub mod Find
use flagraft.Prelude.{ℕ, Bool, Option, List, String}
use flagraft.Evaluate.Constraint.{StrategyConstraint}

pub data DefaultFlagState : Type 0 where
  off dev on : DefaultFlagState

pub record FlagDefaults : Type 0 where
  pub default_state : Option DefaultFlagState
  pub stale_flag_days : Option ℕ
  pub require_description : Option Bool

pub record Security : Type 0 where
  pub require_approval_in_prod : Option Bool
  -- `none` stands for both null and a missing value.
  pub key_ttl_days : Option ℕ

pub record ProjectSettings : Type 0 where
  pub flag_defaults : Option FlagDefaults
  pub security : Option Security

pub record Project : Type 0 where
  pub id : String
  pub name : String
  pub slug : String
  pub description : Option String
  pub settings : ProjectSettings
  pub created_at : ℕ
  pub updated_at : ℕ

pub record Environment : Type 0 where
  pub id : String
  pub project_id : String
  pub name : String
  pub slug : String
  pub protected : Bool
  pub created_at : ℕ

pub record FeatureFlag : Type 0 where
  pub id : String
  pub project_id : String
  pub name : String
  pub key : String
  pub description : Option String
  pub author_id : Option String
  pub created_at : ℕ
  pub updated_at : ℕ

pub record FlagEnvironment : Type 0 where
  pub flag_id : String
  pub environment_id : String
  pub enabled : Bool
  pub updated_at : ℕ

pub record ApiKey : Type 0 where
  pub id : String
  pub project_id : Option String
  pub environment_id : Option String
  pub key_hash : String
  pub key_prefix : String
  pub type : String
  pub description : Option String
  pub created_at : ℕ
  pub last_used_at : Option ℕ
  pub expires_at : Option ℕ

pub record User : Type 0 where
  pub id : String
  pub email : String
  pub password_hash : String
  pub name : String
  pub role : String
  pub status : String
  pub is_system : Bool
  pub initials : String
  pub last_login_at : Option ℕ
  pub session_version : ℕ
  pub invite_token_hash : Option String
  pub invite_expires_at : Option ℕ
  pub created_at : ℕ
  pub updated_at : ℕ

pub record UserProject : Type 0 where
  pub user_id : String
  pub project_id : String

pub record ContextField : Type 0 where
  pub id : String
  pub project_id : String
  pub key : String
  pub type : String
  pub description : Option String
  pub enum_values : Option (List String)
  pub created_at : ℕ
  pub updated_at : ℕ

pub record PendingFlagToggle : Type 0 where
  pub id : String
  pub project_id : String
  pub flag_id : String
  pub environment_id : String
  pub requested_enabled : Bool
  pub requested_by_identity : String
  pub requested_by_label : String
  pub created_at : ℕ

pub record TargetingStrategy : Type 0 where
  pub id : String
  pub flag_id : String
  pub environment_id : String
  pub position : ℕ
  pub constraints : List StrategyConstraint

pub record Db : Type 0 where
  pub projects : List Project
  pub environments : List Environment
  pub feature_flags : List FeatureFlag
  pub flag_environments : List FlagEnvironment
  pub api_keys : List ApiKey
  pub users : List User
  pub user_projects : List UserProject
  pub context_fields : List ContextField
  pub pending_toggles : List PendingFlagToggle
  pub targeting_strategies : List TargetingStrategy
