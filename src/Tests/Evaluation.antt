-- ===== src/Tests/Evaluation.antt =====
-- The theorems on evaluation and on constraint rules at sample flags and texts.
use mathlib.Core.List.{Perm, Permᴰ}
use flagraft.Prelude.{
  ℕ, Bool, true, false, Option, none, some, List, [], ◌∷◌, String, ◌≡◌, ◌≢◌, ◌↔◌, ◌⊎◌, inl, refl,
  split, before, trim,
}
use flagraft.Evaluate.Version.{
  Version, Comparison, below, compare_versions, parse_version, compare_tuple, at_most,
}
use flagraft.Evaluate.Constraint.{StrategyConstraint, match_constraint}
use flagraft.Evaluate.Flag.{
  Dictionary, StrategyDef, FlagState, EvalContext, FieldTypes, Evaluation, disabled, lookup, read,
  is_plain, evaluate_flag,
}
use flagraft.Evaluate.Decision.{
  is_on, Targeted, evaluate_flag-enabled_iff, evaluate_flag_absent_fields, evaluate_flag-perm,
}
use flagraft.Evaluate.Version.Order.{compare_versions_trans}
use flagraft.Client.State.{EnvState}
use flagraft.Client.Answers.{
  Feature, EvaluatedFeature, flag_not_found, evaluate_all, evaluate_one, find_in_bulk, bulk_agrees,
}
use flagraft.Strategies.Rules.{FieldRule, constraint_error}
use flagraft.Strategies.Legal.{IsLegal, constraint_error-none_iff, match_constraint-of_bad_operator}
use flagraft.Outcome.{ok, err, type_error}
use flagraft.Tests.{sample_runtime, sample_ordered}

abbrev plan_is : List String → StrategyConstraint
plan_is values = record { field_key = "plan"; operator = "in"; values = values }

abbrev pros : StrategyDef
pros = record { constraints = plan_is ("pro" ∷ []) ∷ [] }

abbrev frees : StrategyDef
frees = record { constraints = plan_is ("free" ∷ []) ∷ [] }

abbrev targeted_flag : FlagState
targeted_flag = record { enabled = true; strategies = pros ∷ frees ∷ [] }

abbrev types : FieldTypes
types = ("plan", "enum") ∷ []

abbrev pro_user : EvalContext
pro_user = ("plan", "pro") ∷ []

abbrev sample_state : EnvState
sample_state = record {
  flags = ("checkout", targeted_flag) ∷ [];
  field_types = types;
  version = "v";
}

evaluate_flag-enabled_iff_example :
    (is_on (evaluate_flag sample_runtime targeted_flag types pro_user) ≡ true) ↔ (
      (true ≡ true)
      × ((targeted_flag.strategies ≡ [])
          ⊎ Targeted sample_runtime types pro_user targeted_flag.strategies))
evaluate_flag-enabled_iff_example =
    evaluate_flag-enabled_iff sample_runtime types pro_user targeted_flag

-- A field that is named like an inherited function, and is missing from the context.
abbrev on_constructor : String → List String → FlagState
on_constructor operator values = record {
  enabled = true;
  strategies =
      record {
        constraints =
            record { field_key = "constructor"; operator = operator; values = values } ∷ [];
      }
      ∷ [];
}

inherited_not_in :
    is_on (
      evaluate_flag sample_runtime
        (on_constructor "notIn" ("x" ∷ []))
        (("constructor", "string") ∷ [])
        [])
    ≡ true
unfolding evaluate_flag read
inherited_not_in = refl

inherited_starts_with :
    evaluate_flag sample_runtime
      (on_constructor "startsWith" ("x" ∷ []))
      (("constructor", "string") ∷ [])
      []
    ≡ err type_error
unfolding evaluate_flag read
inherited_starts_with = refl

targeted_nonempty : targeted_flag.strategies ≢ []
targeted_nonempty h = cc

evaluate_flag_absent_fields_example :
    (e : Evaluation) × (evaluate_flag sample_runtime targeted_flag types [] ≡ ok e)
    × (e.enabled ≡ false)
unfolding lookup is_plain
evaluate_flag_absent_fields_example =
    evaluate_flag_absent_fields sample_runtime types [] targeted_flag targeted_nonempty refl
      (inl refl, (inl refl, tt))

swapped : Perm (pros ∷ frees ∷ []) (frees ∷ pros ∷ [])
swapped = ∣ Permᴰ.swap refl refl ∣₁

evaluate_flag-perm_example :
    evaluate_flag sample_runtime
      (record { enabled = true; strategies = pros ∷ frees ∷ [] })
      types
      pro_user
    ≡ evaluate_flag sample_runtime
        (record { enabled = true; strategies = frees ∷ pros ∷ [] })
        types
        pro_user
unfolding is_plain
evaluate_flag-perm_example =
    evaluate_flag-perm sample_runtime types pro_user true (pros ∷ frees ∷ []) (frees ∷ pros ∷ [])
      swapped refl refl

compare_versions_trans_example :
    (k : Comparison) × (compare_versions sample_runtime "1.9.3" "2" ≡ some k) × (at_most k ≡ true)
unfolding compare_versions parse_version compare_tuple split before trim
compare_versions_trans_example =
    compare_versions_trans sample_runtime sample_ordered "1.9.3" "1.10" "2" below below refl refl
      refl refl

abbrev base_version : Version (Option ℕ)
base_version = record { major = some 1; minor = some 2; patch = some 3 }

abbrev later_version : Version (Option ℕ)
later_version = record { major = some 1; minor = some 2; patch = some 9 }

bulk_agrees_example :
    (features : List Feature) × (evaluate_all sample_runtime sample_state pro_user ≡ ok features)
    × (((find_in_bulk features "checkout" ≡ some true) ↔ (
          (e : EvaluatedFeature) × (evaluate_one sample_runtime sample_state "checkout" pro_user
            ≡ ok e)
          × (e.enabled ≡ true)))
        × ((find_in_bulk features "checkout" ≡ none)
            ↔ (evaluate_one sample_runtime sample_state "checkout" pro_user ≡ err flag_not_found)))
unfolding is_plain
bulk_agrees_example = bulk_agrees sample_runtime sample_state pro_user "checkout" true refl refl

inherited_key_answered :
    evaluate_one sample_runtime sample_state "constructor" pro_user
    ≡ ok (record { name = "constructor"; enabled = false; reason = disabled })
unfolding evaluate_one read lookup
inherited_key_answered = refl

abbrev rules : Dictionary FieldRule
rules =
    ("plan", record { key = "plan"; type = "enum"; enum_values = some ("free" ∷ "pro" ∷ []) }) ∷ []

abbrev short_patterns : String → Bool
short_patterns p = true

constraint_error-none_iff_example :
    (constraint_error sample_runtime short_patterns rules (plan_is ("pro" ∷ [])) ≡ none) ↔ (
      (field : FieldRule) × (lookup "plan" rules ≡ some field)
      × IsLegal sample_runtime short_patterns field (plan_is ("pro" ∷ [])))
constraint_error-none_iff_example =
    constraint_error-none_iff sample_runtime short_patterns rules (plan_is ("pro" ∷ []))

match_constraint-of_bad_operator_example :
    match_constraint sample_runtime (plan_is ("1" ∷ [])) (some "number") (some "1") ≡ false
unfolding lookup
match_constraint-of_bad_operator_example =
    match_constraint-of_bad_operator sample_runtime (plan_is ("1" ∷ [])) "number" "1" refl refl
