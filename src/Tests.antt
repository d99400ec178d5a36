-- ===== src/Tests.antt =====
-- Sample data for the tests: a run time whose numbers are decimals, and a small workspace.
mod Evaluation
mod Services
mod Access
mod Workspace
mod Sdk
mod Transfer
mod Unleash
mod Cache
use Prim.Native.Char.{Char, code}
use Prim.Native.String
use flagraft.Prelude.{
  ℕ, ◌+◌, ◌-◌, ◌*◌, Bool, true, false, not, ◌&&◌, Option, none, some, List, [], ◌∷◌, ◌==◌, ◌≡◌,
  refl, arith, eqb, leb, ltb, is_some, includes, if◌then◌else◌,
}
use flagraft.Db.{
  Db, Project, ProjectSettings, Security, FlagDefaults, Environment, FeatureFlag, FlagEnvironment,
  ApiKey, User, UserProject, ContextField, PendingFlagToggle, TargetingStrategy,
}
use flagraft.Evaluate.Runtime.{Runtime, IsOrdered}

abbrev digits : ℕ → String.String → Option ℕ
digits n String.[] = some n
digits n (String.◌∷◌ c s) =
    let rest = digits (n * 10 + (code c - 48)) s in
    if leb 48 (code c) && leb (code c) 57 then rest else none

abbrev less : Option ℕ → Option ℕ → Bool
less (some a) (some b) = ltb a b
less (some a) none = false
less none b = false

abbrev equal : Option ℕ → Option ℕ → Bool
equal (some a) (some b) = eqb a b
equal (some a) none = false
equal none b = false

abbrev next_of : Option ℕ → Option ℕ
next_of none = none
next_of (some n) = some (n + 1)

abbrev pub sample_runtime : Runtime
sample_runtime = record {
  Num = Option ℕ;
  number = digits 0;
  date_parse = digits 0;
  is_nan = λ n. not (is_some n);
  is_finite = λ n. is_some n;
  zero = some 0;
  next = next_of;
  lt = less;
  eq = equal;
  regex_test = λ p s. if p == "(" then none else some (includes s p);
}

equal_refl : (a : Option ℕ) → not (is_some a) ≡ false → equal a a ≡ true
equal_refl none h = cc
equal_refl (some a) h = ground arith

equal_sym : (a b : Option ℕ) → equal a b ≡ true → equal b a ≡ true
equal_sym a b h = ground arith

equal_trans : (a b c : Option ℕ) → equal a b ≡ true → equal b c ≡ true → equal a c ≡ true
equal_trans a b c h k = ground arith

less_trans : (a b c : Option ℕ) → less a b ≡ true → less b c ≡ true → less a c ≡ true
less_trans a b c h k = ground arith

less-equal : (a b c : Option ℕ) → less a b ≡ true → equal b c ≡ true → less a c ≡ true
less-equal a b c h k = ground arith

equal-less : (a b c : Option ℕ) → equal a b ≡ true → less b c ≡ true → less a c ≡ true
equal-less a b c h k = ground arith

less-ne : (a b : Option ℕ) → less a b ≡ true → equal a b ≡ false
less-ne a b h = ground arith

less_asymm : (a b : Option ℕ) → less a b ≡ true → less b a ≡ false
less_asymm a b h = ground arith

less_total :
    (a b : Option ℕ)
    → not (is_some a) ≡ false
    → not (is_some b) ≡ false
    → less a b ≡ false
    → equal a b ≡ false
    → less b a ≡ true
less_total a b h k l m = ground arith

pub sample_ordered : IsOrdered sample_runtime
sample_ordered = record {
  finite = λ a h. rw h refl;
  zero_finite = refl;
  eq_refl = equal_refl;
  eq_sym = equal_sym;
  eq_trans = equal_trans;
  lt_trans = less_trans;
  lt_eq = less-equal;
  eq_lt = equal-less;
  lt-ne = less-ne;
  lt_asymm = less_asymm;
  total = less_total;
}

abbrev pub sample_user : String.String → String.String → User
sample_user id role = record {
  id = id;
  email = id;
  password_hash = "secret";
  name = id;
  role = role;
  status = "active";
  is_system = false;
  initials = "AB";
  last_login_at = none;
  session_version = 3;
  invite_token_hash = none;
  invite_expires_at = none;
  created_at = 0;
  updated_at = 0;
}

abbrev pub sample_project : Project
sample_project = record {
  id = "p";
  name = "Shop";
  slug = "shop";
  description = none;
  settings = record {
    flag_defaults = none;
    security = some (record { require_approval_in_prod = some true; key_ttl_days = none });
  };
  created_at = 0;
  updated_at = 0;
}

abbrev pub sample_key : ApiKey
sample_key = record {
  id = "k";
  project_id = some "p";
  environment_id = some "e";
  key_hash = "hash";
  key_prefix = "fk";
  type = "admin";
  description = none;
  created_at = 0;
  last_used_at = none;
  expires_at = some 100;
}

abbrev pub sample_db : Db
sample_db = record {
  projects = sample_project ∷ [];
  environments =
      record {
        id = "e";
        project_id = "p";
        name = "Production";
        slug = "production";
        protected = true;
        created_at = 0;
      }
      ∷ [];
  feature_flags =
      record {
        id = "f";
        project_id = "p";
        name = "Checkout";
        key = "checkout";
        description = none;
        author_id = some "ann";
        created_at = 0;
        updated_at = 0;
      }
      ∷ [];
  flag_environments =
      record { flag_id = "f"; environment_id = "e"; enabled = false; updated_at = 0 } ∷ [];
  api_keys = sample_key ∷ [];
  users = sample_user "ann" "owner" ∷ sample_user "bob" "editor" ∷ [];
  user_projects = record { user_id = "bob"; project_id = "p" } ∷ [];
  context_fields =
      record {
        id = "c";
        project_id = "p";
        key = "plan";
        type = "enum";
        description = none;
        enum_values = some ("free" ∷ "pro" ∷ []);
        created_at = 0;
        updated_at = 0;
      }
      ∷ [];
  pending_toggles =
      record {
        id = "t";
        project_id = "p";
        flag_id = "f";
        environment_id = "e";
        requested_enabled = true;
        requested_by_identity = "ann";
        requested_by_label = "Ann";
        created_at = 0;
      }
      ∷ [];
  targeting_strategies = [];
}
