-- ===== src/Auth/Guards.antt =====
-- The guards that routes put before their handlers: the decorators of src/plugins/auth.ts, with the
-- roles of src/auth/constants.ts. A guard returns nothing or throws.
pub mod Matrix
use Prim.Native.String
use flagraft.Prelude.{
  Bool, true, false, not, ◌&&◌, ◌||◌, Option, none, some, List, [], ◌∷◌, String, ◌==◌, any, find,
  is_some, if◌then◌else◌,
}
use flagraft.Db.{Db, Environment}
use flagraft.Db.Find.{environment_at}
use flagraft.Outcome.{Result, ok, err, app_error, type_error}

abbrev pub is_workspace_admin_role : String → Bool
is_workspace_admin_role role = role == "owner" || role == "admin"

abbrev pub is_read_only_role : String → Bool
is_read_only_role role = role == "viewer"

pub record KeyContext : Type 0 where
  pub key_id : String
  pub project_id : Option String
  pub environment_id : Option String
  pub type : String
  pub is_root : Bool
  pub user_id : Option String
  pub user_role : Option String

-- What the guards read of a request; the two route parameters where the route has them.
pub record Request : Type 0 where
  pub method : String
  pub route_project : Option String
  pub environment_slug : Option String
  pub key_context : Option KeyContext

-- `canBypassEnvironmentProtection`
unfoldable pub can_bypass_environment_protection : KeyContext → Bool
can_bypass_environment_protection context = elim context.user_role [
  | none ↦ true
  | some role ↦ is_workspace_admin_role role
]

-- A text is truthy where it is not empty.
abbrev pub truthy : Option String → Bool
truthy none = false
truthy (some s) = not (s == "")

abbrev pub Guard : Type 0
Guard = Db → Result (Unit {0})

abbrev pub pass : Result (Unit {0})
pass = ok tt

infixl 10 ◌then_guard◌
abbrev pub ◌then_guard◌ : Result (Unit {0}) → Result (Unit {0}) → Result (Unit {0})
ok u then_guard r = r
err e then_guard r = err e

-- The query for a membership; a missing user id matches no row.
unfoldable pub is_member : Db → Option String → String → Bool
is_member db none project_id = false
is_member db (some user_id) project_id =
    any (λ m. m.user_id == user_id && m.project_id == project_id) db.user_projects

abbrev pub project_is : Option String → String → Bool
project_is none p = false
project_is (some q) p = q == p

-- A session whose user has no workspace-wide role.
unfoldable pub check_member : Request → KeyContext → String → Guard
unfolding is_member
check_member request context role db =
    if is_read_only_role role && not (request.method == "GET") && not (request.method == "HEAD")
    then err (app_error "Your role is read-only" 403 "Forbidden")
    else elim request.route_project [
      | none ↦ pass
      | some project_id ↦
          if project_id == "" || is_member db context.user_id project_id
          then pass
          else err (app_error "You are not a member of this project" 403 "Forbidden")
    ]

unfoldable pub check_scope : Request → KeyContext → Result (Unit {0})
check_scope request context = elim request.route_project [
  | none ↦ pass
  | some project_id ↦
      if project_id == "" || context.is_root || project_is context.project_id project_id
      then pass
      else err (app_error "Project scope mismatch" 403 "Forbidden")
]

unfoldable pub check_admin : Request → KeyContext → Option String → Guard
unfolding check_member check_scope
check_admin request context none db = check_scope request context
check_admin request context (some role) db =
    if not (role == "") && not context.is_root
    then check_member request context role db
    else check_scope request context

unfoldable pub require_admin_key : Request → Guard
unfolding check_admin
require_admin_key request db = elim request.key_context [
  | none ↦ err (app_error "Admin key required" 403 "Forbidden")
  | some context ↦
      if context.type == "admin"
      then check_admin request context context.user_role db
      else err (app_error "Admin key required" 403 "Forbidden")
]

unfoldable pub require_root_key : Request → Guard
require_root_key request db = elim request.key_context [
  | none ↦ err (app_error "Workspace admin access required" 403 "Forbidden")
  | some context ↦
      if context.type == "admin" && context.is_root
      then pass
      else err (app_error "Workspace admin access required" 403 "Forbidden")
]

-- `role !== undefined && !WORKSPACE_ADMIN_ROLES.has(role)`
abbrev pub is_ordinary : Option String → Bool
is_ordinary none = false
is_ordinary (some role) = not (is_workspace_admin_role role)

-- The guards below read `request.keyContext!` after `requireAdminKey` has passed.
abbrev pub role_of : Request → Option String
role_of request = elim request.key_context [ none ↦ none | some context ↦ context.user_role ]

unfoldable pub require_project_admin : Request → Guard
unfolding require_admin_key
require_project_admin request db =
    require_admin_key request db
    then_guard (if is_ordinary (role_of request)
        then err (app_error "Only owners and admins can do this" 403 "Forbidden")
        else pass)

unfoldable pub is_owner_or_root : KeyContext → Bool
is_owner_or_root context = elim context.user_role [
  | none ↦ context.is_root
  | some role ↦ if role == "" then context.is_root else role == "owner"
]

unfoldable pub require_owner : Request → Guard
unfolding require_admin_key is_owner_or_root
require_owner request db = require_admin_key request db then_guard elim request.key_context [
  | none ↦ err type_error
  | some context ↦
      if is_owner_or_root context
      then pass
      else err (app_error "Only the workspace owner can do this" 403 "Forbidden")
]

-- The last part of `requireEnvironmentWrite`, for a caller that protection fences out.
unfoldable pub check_unprotected : Option String → Option String → Guard
check_unprotected none slug db = pass
check_unprotected (some project_id) none db = pass
check_unprotected (some project_id) (some slug) db =
    if project_id == "" || slug == "" then pass else elim (environment_at db project_id slug) [
      | none ↦ pass
      | some environment ↦
          if environment.protected
          then err (
              app_error (String.◌++◌ "Only owners and admins can change flags in " slug) 403
                "Forbidden")
          else pass
    ]

unfoldable pub require_environment_write : Request → Guard
unfolding require_admin_key can_bypass_environment_protection check_unprotected
require_environment_write request db =
    require_admin_key request db then_guard elim request.key_context [
      | none ↦ err type_error
      | some context ↦
          if can_bypass_environment_protection context
          then pass
          else check_unprotected request.route_project request.environment_slug db
    ]

unfoldable pub require_client_key : Request → Guard
require_client_key request db = elim request.key_context [
  | none ↦ err (app_error "Client key required" 403 "Forbidden")
  | some context ↦
      if context.type == "client"
      then pass
      else err (app_error "Client key required" 403 "Forbidden")
]
