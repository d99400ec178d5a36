-- ===== src/Tests/Services.antt =====
-- The theorems on toggles, users and strategies at the sample workspace.
use flagraft.Prelude.{
  ◌⊎◌, trim, false, ℕ, ◌≤◌, Bool, true, ◌&&◌, none, some, List, [], ◌∷◌, String, ◌==◌, ◌≡◌, ◌↔◌,
  inl, inr, refl, arith, select, length, if◌then◌else◌, Bool-cases, subst, eq_iff,
}
use flagraft.Db.{Db}
use flagraft.Evaluate.Flag.{StrategyDef}
use flagraft.Flags.Toggle.{ToggleArgs, request_or_confirm}
use flagraft.Flags.Toggle.Approval.{IsConfirmation, enabled_at, is_applied, two_person_rule}
use flagraft.Flags.Toggle.Machine.{request_or_confirm_refines, two_actors_suffice}
use flagraft.Flags.Toggle.Machine.Cells.{HasIds, cell_at, request}
use flagraft.Flags.Toggle.Sequences.{
  Call, run_requests, IsUnique, run_requests-single_actor, request_or_confirm-IsUnique,
}
use flagraft.Users.Passwords.{validate_credentials-reset_password}
use flagraft.Users.Accounts.{
  validate_credentials, reset_password, apply_reset, granted, Primitives, PatchInput, has_id,
  patch_user, delete_user,
}
use flagraft.Users.Owners.{IsOwned}
use flagraft.Users.Ownership.{UserStep, UserSteps, UserSteps-IsOwned}
use flagraft.Outcome.Response.{
  Thrown, IsClientError, internal_error, to_response, to_response_foreign,
}
use flagraft.Strategies.Rules.{Rejection, constraint_error, load_field_rules}
use flagraft.Strategies.Service.{StrategyResponse, replace_strategies}
use flagraft.Strategies.Replacement.{IsReplaced, replace_strategies-IsReplaced}
use flagraft.Tests.{sample_runtime, sample_db, sample_user}

abbrev toggle_by : String → ToggleArgs
toggle_by identity = record {
  project_id = "p";
  flag_id = "f";
  environment_id = "e";
  enabled = true;
  actor = record { identity = identity; label = identity };
}

two_person_rule_example :
    ((is_applied (request_or_confirm 5 "n" (toggle_by "bob") sample_db).0 ≡ true)
      ↔ IsConfirmation sample_db (toggle_by "bob"))
    × (enabled_at (request_or_confirm 5 "n" (toggle_by "bob") sample_db).1 "f" "e" ≡ (
        if is_applied (request_or_confirm 5 "n" (toggle_by "bob") sample_db).0
          && ("f" == "f" && "e" == "e")
        then some true
        else enabled_at sample_db "f" "e"))
two_person_rule_example = two_person_rule 5 "n" (toggle_by "bob") sample_db "f" "e"

abbrev own_calls : List Call
own_calls =
    record { now = 5; fresh = "n"; args = toggle_by "ann" }
    ∷ record { now = 6; fresh = "m"; args = toggle_by "ann" }
    ∷ []

run_requests-single_actor_example :
    ((run_requests own_calls sample_db).flag_environments ≡ sample_db.flag_environments)
    × ((run_requests own_calls sample_db).feature_flags ≡ sample_db.feature_flags)
run_requests-single_actor_example =
    run_requests-single_actor "ann" own_calls sample_db (refl, (refl, tt)) refl

sample_db-IsUnique : IsUnique sample_db
sample_db-IsUnique = record { at_pair = λ f e. ground arith }

sample_db-HasIds : HasIds sample_db
sample_db-HasIds id = ground arith

request_or_confirm_refines_example :
    cell_at (request_or_confirm 5 "n" (toggle_by "bob") sample_db).1 "f" "e" ≡ (
      if "f" == "f" && "e" == "e"
      then request true "bob" (cell_at sample_db "f" "e")
      else cell_at sample_db "f" "e")
request_or_confirm_refines_example =
    request_or_confirm_refines 5 "n" (toggle_by "bob") sample_db "f" "e" sample_db-IsUnique
      sample_db-HasIds

two_actors_suffice_example :
    enabled_at
      (request_or_confirm 6 "m"
        (record (toggle_by "ann") { actor = record { identity = "bob"; label = "bob" } })
        (request_or_confirm 5 "n" (toggle_by "ann") sample_db).1).1
      "f"
      "e"
    ≡ some true
two_actors_suffice_example =
    two_actors_suffice 5 6 "n" "m" (toggle_by "ann") (record { identity = "bob"; label = "bob" })
      sample_db sample_db-IsUnique refl

request_or_confirm-IsUnique_example :
    IsUnique (request_or_confirm 5 "n" (toggle_by "bob") sample_db).1
request_or_confirm-IsUnique_example =
    request_or_confirm-IsUnique 5 "n" (toggle_by "bob") sample_db sample_db-IsUnique

abbrev sample_primitives : Primitives
sample_primitives = record {
  to_lower = λ s. s;
  to_upper = λ s. s;
  hash = λ s. s;
  verify = λ h p. h == p;
}

abbrev token_hash : String → String
token_hash t = t

abbrev promotion : PatchInput
promotion = record { role = some "owner"; status = none; name = none }

abbrev promoted : Db
promoted = (patch_user sample_primitives 7 "bob" promotion sample_db).1

abbrev after_delete : Db
after_delete = (delete_user "ann" promoted).1

ownership_steps : UserSteps sample_primitives token_hash sample_db after_delete
ownership_steps =
    UserSteps.next (UserSteps.next UserSteps.here (UserStep.patch 7 "bob" promotion (inl refl)))
      (UserStep.delete "ann")

ids_apart : (i : String) → length (select (has_id i) sample_db.users) ≤ 1
ids_apart i = elim (Bool-cases ("ann" == i)) [
  | inl e ↦
      subst (λ j. length (select (has_id j) sample_db.users) ≤ 1) ((eq_iff "ann" i).0 e)
        (omega arith)
  | inr ne ↦ rw ne (ground arith)
]

sample_db-IsOwned : IsOwned sample_db.users
sample_db-IsOwned = record { unique = ids_apart; owned = omega arith }

UserSteps-IsOwned_example : IsOwned after_delete.users
UserSteps-IsOwned_example =
    UserSteps-IsOwned sample_primitives token_hash ownership_steps sample_db-IsOwned

abbrev new_strategies : List StrategyDef
new_strategies =
    record {
      constraints = record { field_key = "plan"; operator = "in"; values = "pro" ∷ [] } ∷ [];
    }
    ∷ []

abbrev bad_strategies : List StrategyDef
bad_strategies =
    record {
      constraints = record { field_key = "plan"; operator = "regex"; values = "pro" ∷ [] } ∷ [];
    }
    ∷ []

abbrev any_pattern : String → Bool
any_pattern p = true

abbrev fresh_ids : ℕ → String
fresh_ids n = "s"

abbrev message_of : Rejection → String
message_of r = "refused"

abbrev new_answer : List StrategyResponse
new_answer =
    record {
      id = "s";
      position = 0;
      constraints = record { field_key = "plan"; operator = "in"; values = "pro" ∷ [] } ∷ [];
    }
    ∷ []

abbrev new_db : Db
new_db = record sample_db {
  targeting_strategies =
      record {
        id = "s";
        flag_id = "f";
        environment_id = "e";
        position = 0;
        constraints = record { field_key = "plan"; operator = "in"; values = "pro" ∷ [] } ∷ [];
      }
      ∷ [];
}

replace_strategies-IsReplaced_example :
    IsReplaced "p" "checkout" "production" new_strategies sample_db new_answer new_db
unfolding replace_strategies constraint_error load_field_rules
replace_strategies-IsReplaced_example =
    replace_strategies-IsReplaced sample_runtime any_pattern fresh_ids message_of "p" "checkout"
      "production" new_strategies sample_db new_db new_answer refl

validate_credentials-reset_password_example :
    (validate_credentials sample_primitives 8 "ann" "new"
      (reset_password sample_primitives 8 "ann" "new" sample_db).1).0
    ≡ granted (record (apply_reset sample_primitives 8 "new" false (sample_user "ann" "owner")) {
      last_login_at = some 8;
    })
unfolding trim
validate_credentials-reset_password_example =
    validate_credentials-reset_password sample_primitives 8 "ann" "new" sample_db
      (sample_user "ann" "owner") refl refl (inl refl) refl

-- An error of another server, which is no `AppError`.
abbrev upstream_error : Thrown Unit
upstream_error = record {
  issues = none;
  code = some "ECONNRESET";
  validation_is_array = false;
  is_app_error = false;
  status_code = some 503;
  error = some "Bad gateway at 10.0.0.7";
  message = some "connection lost";
}

to_response_foreign_example :
    IsClientError (to_response upstream_error) ⊎ (to_response upstream_error ≡ internal_error)
to_response_foreign_example = to_response_foreign upstream_error refl
