-- ===== src/Tests/Access.antt =====
-- The theorems on the hook and the guards at sample requests.
use flagraft.Prelude.{
  false, Option, none, some, String, ◌==◌, ◌≡◌, ◌≢◌, ◌↔◌, refl, starts_with, eq_iff, if◌then◌else◌,
}
use flagraft.Outcome.{ok}
use flagraft.Auth.Guards.{KeyContext, Request, require_client_key, is_member}
use flagraft.Auth.Guards.Matrix.{
  editor, use_project, write_environment, administer_project, guard_of, allowed, passes, context_of,
  is_protected, is_reading, role_matrix, client_key_confined, project_key_confined,
}
use flagraft.Auth.Session.{
  CachedApiKey, Claims, Incoming, cached_of, session_context, key_context, authenticate,
}
use flagraft.Auth.Session.Accepted.{
  IsSession, IsKey, authenticate-IsSession_iff, authenticate-IsKey_iff,
}
use flagraft.Tests.{sample_db, sample_user, sample_key}

abbrev verify_token : String → Option Claims
verify_token t = if t == "good" then some (record { sub = "ann"; sv = some 3 }) else none

abbrev key_hash_of : String → String
key_hash_of k = if k == "key" then "hash" else k

abbrev nothing_held : String → Option (Option CachedApiKey)
nothing_held h = none

abbrev cookie_request : Incoming
cookie_request = record {
  skip_auth = false;
  url = "/api/v1/admin/projects";
  session_cookie = some "good";
  authorization = none;
}

abbrev key_request : Incoming
key_request = record {
  skip_auth = false;
  url = "/api/v1/client/features";
  session_cookie = none;
  authorization = some "key";
}

authenticate-IsSession_iff_example :
    (authenticate verify_token key_hash_of nothing_held sample_db 50 cookie_request
      ≡ ok (some (session_context (sample_user "ann" "owner"))))
    ↔ IsSession verify_token key_hash_of nothing_held sample_db "good"
        (session_context (sample_user "ann" "owner"))
unfolding starts_with
authenticate-IsSession_iff_example =
    authenticate-IsSession_iff verify_token key_hash_of nothing_held sample_db 50 cookie_request
      "good" (session_context (sample_user "ann" "owner")) refl refl refl refl

authenticate-IsKey_iff_example :
    (authenticate verify_token key_hash_of nothing_held sample_db 50 key_request
      ≡ ok (some (key_context (cached_of sample_key))))
    ↔ IsKey verify_token key_hash_of nothing_held sample_db 50 "key"
        (key_context (cached_of sample_key))
unfolding starts_with
authenticate-IsKey_iff_example =
    authenticate-IsKey_iff verify_token key_hash_of nothing_held sample_db 50 key_request "key"
      (key_context (cached_of sample_key)) refl refl refl refl refl refl

role_matrix_example :
    passes (
      guard_of write_environment
        (record {
          method = "PUT";
          route_project = some "p";
          environment_slug = some "production";
          key_context = some (context_of "bob" editor);
        })
        sample_db)
    ≡ allowed editor write_environment
        (is_member sample_db (some "bob") "p")
        (is_reading "PUT")
        (is_protected sample_db "p" "production")
role_matrix_example =
    role_matrix sample_db "bob" "PUT" "p" "production" editor write_environment refl refl

abbrev context_of_key : String → String → KeyContext
context_of_key type project = record {
  key_id = "k";
  project_id = some project;
  environment_id = some "e";
  type = type;
  is_root = false;
  user_id = none;
  user_role = none;
}

abbrev request_with : String → String → Request
request_with type route = record {
  method = "GET";
  route_project = some route;
  environment_slug = none;
  key_context = some (context_of_key type "p");
}

client_key_confined_example :
    passes (guard_of use_project (request_with "client" "p") sample_db) ≡ false
unfolding require_client_key
client_key_confined_example =
    client_key_confined sample_db (request_with "client" "p") use_project refl

abbrev own_project : String
own_project = "p"

abbrev foreign_project : String
foreign_project = "q"

other_project : own_project ≢ foreign_project
other_project h = cc ((eq_iff own_project foreign_project).1 h)

project_key_confined_example :
    passes (guard_of administer_project (request_with "admin" "q") sample_db) ≡ false
project_key_confined_example =
    project_key_confined sample_db (request_with "admin" "q") administer_project
      (context_of_key "admin" "p") "p" "q" refl refl refl refl refl refl other_project
