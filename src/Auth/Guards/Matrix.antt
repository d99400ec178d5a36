-- ===== src/Auth/Guards/Matrix.antt =====
-- The role matrix behind the guards of src/plugins/auth.ts: which role may do what.
use flagraft.Prelude.{
  Bool, true, false, not, ◌&&◌, ◌||◌, none, some, String, ◌==◌, ◌≡◌, ◌≢◌, refl, arith, eq_iff,
  Option-cases, inl, inr,
}
use flagraft.Db.{Db}
use flagraft.Db.Find.{environment_at}
use flagraft.Outcome.{Result, ok, err}
use flagraft.Auth.Guards.{
  KeyContext, Request, Guard, ◌then_guard◌, is_member, check_scope, require_admin_key,
  require_root_key, require_project_admin, require_owner, require_environment_write,
  require_client_key, is_workspace_admin_role,
}

pub data Role : Type 0 where
  owner admin editor viewer : Role

abbrev pub role_name : Role → String
role_name owner = "owner"
role_name admin = "admin"
role_name editor = "editor"
role_name viewer = "viewer"

pub data Action : Type 0 where
  use_project administer_workspace administer_project own_project write_environment : Action

abbrev pub guard_of : Action → Request → Guard
guard_of use_project = require_admin_key
guard_of administer_workspace = require_root_key
guard_of administer_project = require_project_admin
guard_of own_project = require_owner
guard_of write_environment = require_environment_write

-- The matrix in words. Owners and admins use every project, administer it and the workspace, and
-- write every environment; deleting a project is the owner's. An editor uses the projects that the
-- user is a member of, and writes their unprotected environments; a viewer reads them.
abbrev pub allowed : Role → Action → (member reading protected : Bool) → Bool
allowed owner _ member reading protected = true
allowed admin own_project member reading protected = false
allowed admin _ member reading protected = true
allowed editor use_project member reading protected = member
allowed editor write_environment member reading protected = member && not protected
allowed editor _ member reading protected = false
allowed viewer use_project member reading protected = member && reading
allowed viewer write_environment member reading protected = member && reading && not protected
allowed viewer _ member reading protected = false

abbrev pub passes : Result (Unit {0}) → Bool
passes (ok u) = true
passes (err e) = false

-- The context that the hook gives to a session of a user with this role.
abbrev pub context_of : String → Role → KeyContext
context_of user_id role = record {
  key_id = user_id;
  project_id = none;
  environment_id = none;
  type = "admin";
  is_root = is_workspace_admin_role (role_name role);
  user_id = some user_id;
  user_role = some (role_name role);
}

abbrev pub is_protected : Db → String → String → Bool
is_protected db project_id slug = elim (environment_at db project_id slug) [
  | none ↦ false
  | some environment ↦ environment.protected
]

abbrev pub is_reading : String → Bool
is_reading method = method == "GET" || method == "HEAD"

module _ (db : Db) (user_id method project_id slug : String) (p : (project_id == "") ≡ false)
    (q : (slug == "") ≡ false) where
  abbrev request_of : Role → Request
  request_of role = record {
    method = method;
    route_project = some project_id;
    environment_slug = some slug;
    key_context = some (context_of user_id role);
  }

  abbrev Agrees : Role → Action → Type 0
  Agrees role action =
      passes (guard_of action (request_of role) db)
      ≡ allowed role action (is_member db (some user_id) project_id) (is_reading method)
          (is_protected db project_id slug)

  use_project-Agrees : (role : Role) → Agrees role use_project
  unfolding require_admin_key
  use_project-Agrees owner = rw p
  use_project-Agrees admin = rw p
  use_project-Agrees editor = rw p (ground arith)
  use_project-Agrees viewer = rw p (ground arith)

  administer_workspace-Agrees : (role : Role) → Agrees role administer_workspace
  unfolding require_root_key
  administer_workspace-Agrees owner = refl
  administer_workspace-Agrees admin = refl
  administer_workspace-Agrees editor = refl
  administer_workspace-Agrees viewer = refl

  administer_project-Agrees : (role : Role) → Agrees role administer_project
  unfolding require_project_admin
  administer_project-Agrees owner = rw p
  administer_project-Agrees admin = rw p
  administer_project-Agrees editor = rw p (ground arith)
  administer_project-Agrees viewer = rw p (ground arith)

  own_project-Agrees : (role : Role) → Agrees role own_project
  unfolding require_owner
  own_project-Agrees owner = rw p
  own_project-Agrees admin = rw p
  own_project-Agrees editor = rw p (ground arith)
  own_project-Agrees viewer = rw p (ground arith)

  write_environment-Agrees : (role : Role) → Agrees role write_environment
  unfolding require_environment_write
  write_environment-Agrees owner = rw p
  write_environment-Agrees admin = rw p
  write_environment-Agrees editor = rw (p, q) (ground arith)
  write_environment-Agrees viewer = rw (p, q) (ground arith)

-- For a browser session of a user with any role, on a route that names a project and an
-- environment, each guard passes exactly where the role matrix allows it.
pub role_matrix :
    (db : Db) (user_id method project_id slug : String) (role : Role) (action : Action)
    → (project_id == "") ≡ false
    → (slug == "") ≡ false
    → passes (
        guard_of action
          (record {
            method = method;
            route_project = some project_id;
            environment_slug = some slug;
            key_context = some (context_of user_id role);
          })
          db)
      ≡ allowed role action
          (is_member db (some user_id) project_id)
          (is_reading method)
          (is_protected db project_id slug)
role_matrix db user_id method project_id slug role use_project p q =
    use_project-Agrees db user_id method project_id slug p q role
role_matrix db user_id method project_id slug role administer_workspace p q =
    administer_workspace-Agrees db user_id method project_id slug p q role
role_matrix db user_id method project_id slug role administer_project p q =
    administer_project-Agrees db user_id method project_id slug p q role
role_matrix db user_id method project_id slug role own_project p q =
    own_project-Agrees db user_id method project_id slug p q role
role_matrix db user_id method project_id slug role write_environment p q =
    write_environment-Agrees db user_id method project_id slug p q role

client-ne-admin : (type : String) → (type == "client") ≡ true → (type == "admin") ≡ false
client-ne-admin type h = rw ((eq_iff type "client").0 h)

-- A guard that starts with another one fails where that one fails.
fails_first : (r s : Result (Unit {0})) → passes r ≡ false → passes (◌then_guard◌ r s) ≡ false
fails_first (ok u) s h = cc
fails_first (err e) s h = refl

module _ (db : Db) (request : Request) (context : KeyContext)
    (known : request.key_context ≡ some context) where
  require_admin_key-of_client :
      (context.type == "client") ≡ true → passes (require_admin_key request db) ≡ false
  unfolding require_admin_key
  require_admin_key-of_client h = rw (known, client-ne-admin context.type h)

  require_root_key-of_client :
      (context.type == "client") ≡ true → passes (require_root_key request db) ≡ false
  unfolding require_root_key
  require_root_key-of_client h = rw (known, client-ne-admin context.type h)

  require_client_key-type :
      passes (require_client_key request db) ≡ true → (context.type == "client") ≡ true
  unfolding require_client_key
  require_client_key-type h = ground arith

  module _ (own other : String) (keyed : context.user_role ≡ none)
      (scoped : context.project_id ≡ some own) (routed : request.route_project ≡ some other)
      (nonempty : (other == "") ≡ false) (distinct : own ≢ other) where
    check_scope-of_other : context.is_root ≡ false → passes (check_scope request context) ≡ false
    unfolding check_scope
    check_scope-of_other not_root =
        rw (routed, nonempty, not_root, scoped) (ground (arith, eq_iff own other))

    require_admin_key-of_other :
        context.is_root ≡ false → passes (require_admin_key request db) ≡ false
    unfolding require_admin_key
    require_admin_key-of_other not_root =
        rw (known, keyed) (ground (arith, check_scope-of_other not_root))

  require_root_key-of_other : context.is_root ≡ false → passes (require_root_key request db) ≡ false
  unfolding require_root_key
  require_root_key-of_other not_root = rw (known, not_root) (ground arith)

-- Every admin guard but `requireRootKey` starts with `requireAdminKey`.
module _ (db : Db) (request : Request) (fails : passes (require_admin_key request db) ≡ false)
    (fails_root : passes (require_root_key request db) ≡ false) where
  fails_all : (action : Action) → passes (guard_of action request db) ≡ false
  unfolding require_project_admin require_owner require_environment_write
  fails_all use_project = fails
  fails_all administer_workspace = fails_root
  fails_all administer_project = fails_first (require_admin_key request db) _ fails
  fails_all own_project = fails_first (require_admin_key request db) _ fails
  fails_all write_environment = fails_first (require_admin_key request db) _ fails

-- A request that passes the guard of the client routes passes no guard of the admin routes.
pub client_key_confined :
    (db : Db) (request : Request) (action : Action)
    → passes (require_client_key request db) ≡ true
    → passes (guard_of action request db) ≡ false
client_key_confined db request action h = elim (Option-cases request.key_context) [
  | inl none_known ↦ unfold require_client_key in ground arith
  | inr (context, known) ↦
      let client = require_client_key-type db request context known h in
      fails_all db request (require_admin_key-of_client db request context known client)
        (require_root_key-of_client db request context known client) action
]

-- An API key of one project passes no admin guard on a route of another project.
pub project_key_confined :
    (db : Db) (request : Request) (action : Action) (context : KeyContext) (own other : String)
    → request.key_context ≡ some context
    → context.user_role ≡ none
    → context.is_root ≡ false
    → context.project_id ≡ some own
    → request.route_project ≡ some other
    → (other == "") ≡ false
    → own ≢ other
    → passes (guard_of action request db) ≡ false
project_key_confined db request action context own other known keyed not_root scoped routed p q =
    fails_all db request
      (require_admin_key-of_other db request context known own other keyed scoped routed p q
        not_root)
      (require_root_key-of_other db request context known not_root) action
