-- ===== src/Workspace/Keys/Scopes.antt =====
-- What `createKey` of src/modules/keys/key.service.ts lets exist.
use flagraft.Prelude.{
  ℕ, true, false, not, ◌&&◌, Option, none, some, String, ◌==◌, ◌≡◌, refl, arith, any, or_else,
  eq_iff, Bool-cases, inl, inr, subst, sym,
}
use flagraft.Db.{Db, ApiKey}
use flagraft.Outcome.{ok}
use flagraft.Auth.Guards.{truthy}
use flagraft.Workspace.Environments.{is_environment}
use flagraft.Workspace.Keys.{
  CreateKeyInput, GeneratedKey, has_environment, new_key, insert_key, create_key, expiry,
}

-- A client key is of an environment of the project; an admin key of none. Only admin keys expire.
pub record IsScoped (db : Db) (project_id : String) (key : ApiKey) : Type 0 where
  pub in_project : key.project_id ≡ some project_id
  pub client_environment :
      key.type ≡ "client"
      → any (λ e. is_environment project_id (or_else key.environment_id "") e) db.environments
        ≡ true
  pub admin_environment : key.type ≡ "admin" → truthy key.environment_id ≡ false
  pub client_expiry : key.type ≡ "client" → key.expires_at ≡ none

module _ (now : ℕ) (fresh : String) (generated : GeneratedKey) (project_id : String)
    (input : CreateKeyInput) (db : Db) where
  insert_key-result : (key made : ApiKey) → (insert_key project_id key db).0 ≡ ok made → made ≡ key
  unfolding insert_key
  insert_key-result key made h = ground arith

  create_key-made :
      (made : ApiKey)
      → (create_key now fresh generated project_id input db).0 ≡ ok made
      → (made ≡ new_key now fresh generated project_id input db)
        × ((input.type == "client" && not (truthy input.environment_id)) ≡ false)
        × ((input.type == "admin" && truthy input.environment_id) ≡ false)
        × (has_environment db project_id input.environment_id ≡ true)
  unfolding create_key
  create_key-made made h =
      elim (Bool-cases (input.type == "client" && not (truthy input.environment_id))) [
        | inl bad ↦ ground arith
        | inr a ↦ elim (Bool-cases (input.type == "admin" && truthy input.environment_id)) [
          | inl bad ↦ ground arith
          | inr b ↦ elim (Bool-cases (has_environment db project_id input.environment_id)) [
            | inr bad ↦ ground arith
            | inl c ↦ (
              insert_key-result (new_key now fresh generated project_id input db) made
                  (rw (a, b, c) at h),
              a,
              b,
              c,
            )
          ]
        ]
      ]

  environment_known :
      (e : Option String)
      → truthy e ≡ true
      → has_environment db project_id e ≡ true
      → any (λ r. is_environment project_id (or_else e "") r) db.environments ≡ true
  unfolding has_environment
  environment_known none t h = cc
  environment_known (some id) t h = ground arith

  client_unlimited : (input.type ≡ "client") → expiry now db project_id input.type ≡ none
  unfolding expiry
  client_unlimited e = rw e

  new_key-IsScoped :
      (input.type == "client" && not (truthy input.environment_id)) ≡ false
      → (input.type == "admin" && truthy input.environment_id) ≡ false
      → has_environment db project_id input.environment_id ≡ true
      → IsScoped db project_id (new_key now fresh generated project_id input db)
  unfolding new_key
  new_key-IsScoped a b c = record {
    in_project = refl;
    client_environment =
        λ e. environment_known input.environment_id (ground (arith, eq_iff input.type "client")) c;
    admin_environment = λ e. ground (arith, eq_iff input.type "admin");
    client_expiry = client_unlimited;
  }

-- A key that is created belongs to the project; a client key is of an environment of that project
-- and never expires, and an admin key is of no environment.
pub create_key-IsScoped :
    (now : ℕ) (fresh : String) (generated : GeneratedKey) (project_id : String)
    (input : CreateKeyInput) (db : Db) (made : ApiKey)
    → (create_key now fresh generated project_id input db).0 ≡ ok made
    → IsScoped db project_id made
create_key-IsScoped now fresh generated project_id input db made h =
    let parts = create_key-made now fresh generated project_id input db made h in
    subst (λ k. IsScoped db project_id k) (sym parts.0)
      (new_key-IsScoped now fresh generated project_id input db parts.1 parts.2 parts.3)
