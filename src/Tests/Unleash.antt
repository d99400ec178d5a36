-- ===== src/Tests/Unleash.antt =====
-- The theorems on the Unleash adapter at a sample export.
use flagraft.Prelude.{true, false, not, none, some, [], ◌∷◌, String, ◌≡◌, refl, All}
use flagraft.Evaluate.Constraint.{StrategyConstraint, match_constraint}
use flagraft.Evaluate.Flag.{lookup}
use flagraft.Client.State.{text_le}
use flagraft.Transfer.Document.{NativeState, NativeFlag, NativeDocument}
use flagraft.Transfer.Unleash.{from_unleash_operator, to_unleash_constraint}
use flagraft.Transfer.Unleash.Document.{UnleashConstraint, UnleashStrategy, UnleashDocument}
use flagraft.Transfer.Unleash.Convert.{operator_for}
use flagraft.Transfer.Unleash.Negation.{inverted_constraint-not}
use flagraft.Transfer.Unleash.RoundTrip.{to_unleash_constraint-match_constraint}
use flagraft.Transfer.Unleash.Whole.{inferred_fields, to_native}
use flagraft.Transfer.Unleash.Operators.{IsTabled}
use flagraft.Transfer.Unleash.Origin.{IsTraced, to_native-IsTraced}
use flagraft.Transfer.Unleash.Export.{types_by_key, from_native}
use flagraft.Transfer.Unleash.Export.Told.{IsTold, from_native-IsTold}
use flagraft.Tests.{sample_runtime, sample_ordered}

abbrev not_above : UnleashConstraint
not_above = record {
  context_name = "age";
  operator = "NUM_GT";
  values = [];
  value = some "18";
  case_insensitive = none;
  inverted = some true;
}

inverted_constraint-not_example :
    match_constraint sample_runtime
      (record { field_key = "age"; operator = "lte"; values = "18" ∷ [] })
      (some "number")
      (some "21")
    ≡ not (
        match_constraint sample_runtime
          (record { field_key = "age"; operator = "gt"; values = "18" ∷ [] })
          (some "number")
          (some "21"))
unfolding lookup operator_for
inverted_constraint-not_example =
    inverted_constraint-not sample_runtime [] not_above "gt" "lte" "age" "number" "21" ("18" ∷ [])
      sample_ordered refl refl refl refl refl (λ _. refl)

abbrev plan_equals : StrategyConstraint
plan_equals = record { field_key = "plan"; operator = "equals"; values = "pro" ∷ [] }

to_unleash_constraint-match_constraint_example :
    (op : String) × (lookup "IN" from_unleash_operator ≡ some op)
    × (match_constraint sample_runtime
          (record { field_key = "plan"; operator = op; values = "pro" ∷ [] })
          (some "enum")
          (some "pro")
        ≡ match_constraint sample_runtime plan_equals (some "enum") (some "pro"))
unfolding to_unleash_constraint lookup
to_unleash_constraint-match_constraint_example =
    to_unleash_constraint-match_constraint sample_runtime plan_equals "enum" "pro"
      (record {
        context_name = "plan";
        operator = "IN";
        values = "pro" ∷ [];
        case_insensitive = false;
        inverted = false;
      })
      refl refl refl (λ e. cc)

abbrev older_than : UnleashConstraint
older_than = record {
  context_name = "age";
  operator = "NUM_GT";
  values = [];
  value = some "18";
  case_insensitive = none;
  inverted = some true;
}

abbrev strategy_of : String → UnleashStrategy
strategy_of name = record {
  feature_name = "beta";
  environment = none;
  strategy_name = some name;
  name = none;
  sort_order = none;
  disabled = none;
  parameters = ("userIds", "ann, bob") ∷ [];
  constraints = older_than ∷ [];
  variants = 0;
  segments = 0;
}

abbrev sample_export : UnleashDocument
sample_export = record {
  features = record { name = "beta"; description = none; archived = none } ∷ [];
  feature_environments =
      record { feature_name = "beta"; environment = "production"; enabled = true; variants = 0 }
      ∷ [];
  feature_strategies = strategy_of "userWithId" ∷ strategy_of "gradualRollout" ∷ [];
  context_fields = [];
  feature_tags = 0;
  segments = 0;
}

to_native-IsTraced_example :
    All
      (IsTraced (λ s. s.segments ≡ 0) (operator_for (inferred_fields sample_export)))
      (to_native text_le 0 sample_export).document.flags
    × IsTabled not_above "lte"
unfolding operator_for inferred_fields
to_native-IsTraced_example =
    to_native-IsTraced text_le 0 sample_export (λ s. s.segments ≡ 0) not_above "lte"
      (refl, (refl, tt)) refl

abbrev sample_native : NativeDocument
sample_native = record {
  format = "flagraft.export";
  version = 1;
  exported_at = none;
  project = none;
  context_fields = [];
  flags =
      record {
        key = "beta";
        name = "Beta";
        description = none;
        environments =
            (
              "production",
              record {
                enabled = true;
                strategies =
                    record { constraints = plan_equals ∷ [] }
                    ∷ record { constraints = record plan_equals { operator = "regex" } ∷ [] }
                    ∷ [];
              },
            )
            ∷ [];
      }
      ∷ [];
}

from_native-IsTold_example :
    All
      (λ (f : NativeFlag).
        All
          (λ (e : String × NativeState).
            All
              (IsTold
                (types_by_key [] [])
                (from_native sample_native).0.feature_strategies
                (from_native sample_native).1
                f.key
                e.0)
              (e.1.strategies))
          f.environments)
      sample_native.flags
from_native-IsTold_example = from_native-IsTold sample_native

-- One strategy comes through, with the negated operator and both users; the other is noted.
to_native-sample :
    (to_native text_le 0 sample_export).document.flags
    ≡ record {
      key = "beta";
      name = "beta";
      description = none;
      environments =
          (
            "production",
            record {
              enabled = true;
              strategies =
                  record {
                    constraints =
                        record { field_key = "age"; operator = "lte"; values = "18" ∷ [] }
                        ∷ record {
                          field_key = "userId";
                          operator = "in";
                          values = "ann" ∷ "bob" ∷ [];
                        }
                        ∷ [];
                  }
                  ∷ [];
            },
          )
          ∷ [];
    }
      ∷ []
unfolding to_native
to_native-sample = refl
