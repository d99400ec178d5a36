-- ===== src/Flags/Toggle.antt =====
-- Turning a flag on or off: `applyToggle`, `requestOrConfirmToggle` and `setFlagEnabled` of
-- src/modules/flags/flag.service.ts. A transaction is one step: the row lock that the source takes
-- serialises two confirmations. `now` is the time, `fresh` the id of a new row.
pub mod Approval
pub mod Sequences
pub mod Machine
use flagraft.Prelude.{
  ℕ, Bool, true, false, not, ◌&&◌, Option, none, some, List, [], ◌∷◌, ◌++◌, String, ◌==◌, bool_eq,
  find, any, update, remove, or_else, if◌then◌else◌,
}
use flagraft.Db.{
  Db, FlagEnvironment, PendingFlagToggle, FeatureFlag, Environment, Project, Security,
}
use flagraft.Db.Find.{flag_at, environment_at, project_at, find_flag, find_environment}
use flagraft.Outcome.{Exec, ok, ◌>>=◌}

pub record Actor : Type 0 where
  pub identity : String
  pub label : String

pub data ToggleResult : Type 0 where
  applied : (row : FlagEnvironment) → ToggleResult
  requested : (requested_enabled : Bool) (requested_by : String) → ToggleResult

abbrev pub is_state_of : String → String → FlagEnvironment → Bool
is_state_of flag_id environment_id r = r.flag_id == flag_id && r.environment_id == environment_id

abbrev pub is_pending_of : String → String → PendingFlagToggle → Bool
is_pending_of flag_id environment_id r = r.flag_id == flag_id && r.environment_id == environment_id

-- `insert … onConflictDoUpdate` on the pair of flag and environment.
unfoldable pub upsert_state :
    ℕ → String → String → Bool → List FlagEnvironment → List FlagEnvironment
upsert_state now flag_id environment_id enabled rows =
    if any (is_state_of flag_id environment_id) rows
    then update (is_state_of flag_id environment_id)
        (λ (r : FlagEnvironment). record r { enabled = enabled; updated_at = now }) rows
    else rows
      ++ record {
        flag_id = flag_id;
        environment_id = environment_id;
        enabled = enabled;
        updated_at = now;
      }
        ∷ []

unfoldable pub apply_toggle : ℕ → String → String → Bool → Db → ToggleResult × Db
unfolding upsert_state
apply_toggle now flag_id environment_id enabled db = (
  applied (record {
    flag_id = flag_id;
    environment_id = environment_id;
    enabled = enabled;
    updated_at = now;
  }),
  record db {
    flag_environments = upsert_state now flag_id environment_id enabled db.flag_environments;
    feature_flags =
        update (λ f. f.id == flag_id) (λ (f : FeatureFlag). record f { updated_at = now })
          db.feature_flags;
  },
)

pub record ToggleArgs : Type 0 where
  pub project_id : String
  pub flag_id : String
  pub environment_id : String
  pub enabled : Bool
  pub actor : Actor

-- No request is pending: this one is recorded.
unfoldable pub record_request : ℕ → String → ToggleArgs → Db → ToggleResult × Db
record_request now fresh args db = (
  requested args.enabled args.actor.label,
  record db {
    pending_toggles =
        db.pending_toggles
        ++ record {
          id = fresh;
          project_id = args.project_id;
          flag_id = args.flag_id;
          environment_id = args.environment_id;
          requested_enabled = args.enabled;
          requested_by_identity = args.actor.identity;
          requested_by_label = args.actor.label;
          created_at = now;
        }
          ∷ [];
  },
)

-- The other direction is wanted now: the newer request replaces the old one.
unfoldable pub supersede : ℕ → ToggleArgs → PendingFlagToggle → Db → ToggleResult × Db
supersede now args existing db = (
  requested args.enabled args.actor.label,
  record db {
    pending_toggles =
        update (λ r. r.id == existing.id)
          (λ (r : PendingFlagToggle). record r {
            requested_enabled = args.enabled;
            requested_by_identity = args.actor.identity;
            requested_by_label = args.actor.label;
            created_at = now;
          })
          db.pending_toggles;
  },
)

unfoldable pub confirm : ℕ → ToggleArgs → PendingFlagToggle → Db → ToggleResult × Db
unfolding apply_toggle
confirm now args existing db =
    apply_toggle now args.flag_id args.environment_id args.enabled
      (record db { pending_toggles = remove (λ r. r.id == existing.id) db.pending_toggles })

unfoldable pub request_or_confirm : ℕ → String → ToggleArgs → Db → ToggleResult × Db
unfolding record_request supersede confirm
request_or_confirm now fresh args db =
    elim (find (is_pending_of args.flag_id args.environment_id) db.pending_toggles) [
      | none ↦ record_request now fresh args db
      | some existing ↦
          if not (bool_eq existing.requested_enabled args.enabled)
          then supersede now args existing db
          else if existing.requested_by_identity == args.actor.identity
          then (requested args.enabled existing.requested_by_label, db)
          else confirm now args existing db
    ]

-- `project?.settings.security?.requireApprovalInProd`, truthy
abbrev pub approval_of_security : Option Security → Bool
approval_of_security none = false
approval_of_security (some s) = or_else s.require_approval_in_prod false

unfoldable pub approval_required : Db → String → Bool
approval_required db project_id = elim (project_at db project_id) [
  | none ↦ false
  | some project ↦ approval_of_security project.settings.security
]

unfoldable pub toggle_found :
    ℕ → String → String → FeatureFlag → Environment → Bool → Actor → Db → ToggleResult × Db
unfolding request_or_confirm apply_toggle approval_required
toggle_found now fresh project_id flag environment enabled actor db =
    if environment.protected && approval_required db project_id
    then request_or_confirm now fresh
        (record {
          project_id = project_id;
          flag_id = flag.id;
          environment_id = environment.id;
          enabled = enabled;
          actor = actor;
        })
        db
    else apply_toggle now flag.id environment.id enabled db

unfoldable pub set_flag_enabled :
    ℕ → String → String → String → String → Bool → Actor → Exec Db ToggleResult
unfolding toggle_found
set_flag_enabled now fresh project_id flag_key slug enabled actor = do
  flag ← find_flag project_id flag_key
  environment ← find_environment project_id slug
  λ db.
      let (result, db') = toggle_found now fresh project_id flag environment enabled actor db in
      (ok result, db')
