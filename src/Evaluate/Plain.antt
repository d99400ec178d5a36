-- ===== src/Evaluate/Plain.antt =====
-- Evaluation in src/modules/client/evaluate.ts where no constraint tests a name of `Object.prototype`:
-- what it comes to without a loop or a throw.
use flagraft.Prelude.{
  Bool, true, false, ◌&&◌, Option, none, some, List, [], ◌∷◌, String, ◌≡◌, refl, ◌∙◌, inl, inr, all,
  any, if◌then◌else◌, Bool-cases, Option-cases,
}
use flagraft.Outcome.{ok}
use flagraft.Evaluate.Runtime.{Runtime}
use flagraft.Evaluate.Constraint.{StrategyConstraint, match_constraint}
use flagraft.Evaluate.Flag.{
  StrategyDef, Evaluation, disabled, strategy_match, default, EvalContext, FieldTypes, Dictionary,
  lookup, is_plain, Reading, absent, own, read, match_reading, all_match, strategy_matches,
  first_match, evaluate_strategies, evaluate_flag,
}

-- No constraint tests a name of `Object.prototype`.
abbrev pub all_plain : List StrategyDef → Bool
all_plain ss = all (λ (s : StrategyDef). all (λ c. is_plain c.field_key) s.constraints) ss

-- What is decided by the constraints' own values, with no order among the strategies.
abbrev pub decided : Bool → Bool → List StrategyDef → Evaluation
decided false matched ss = record { enabled = false; reason = disabled }
decided true matched [] = record { enabled = true; reason = default }
decided true true (s ∷ ss) = record { enabled = true; reason = strategy_match }
decided true false (s ∷ ss) = record { enabled = false; reason = default }

abbrev pub of_option : {V : Type 0} → Option V → Reading V
of_option none = absent
of_option (some v) = own v

pub and_both : (a b : Bool) → (a && b) ≡ true → (a ≡ true) × (b ≡ true)
and_both true b h = (refl, h)
and_both false b h = cc

pub read-plain :
    {V : Type 0} (key : String) (entries : Dictionary V)
    → is_plain key ≡ true
    → read key entries ≡ of_option (lookup key entries)
unfolding read
read-plain key entries plain = elim (Option-cases (lookup key entries)) [
  | inl e ↦ rw (read, e, plain) refl
  | inr (v, e) ↦ rw (read, e) refl
]

module _ (rt : Runtime) (field_types : FieldTypes) (context : EvalContext) where
  abbrev pub holds : StrategyConstraint → Bool
  holds c = match_constraint rt c (lookup c.field_key field_types) (lookup c.field_key context)

  -- Some strategy has constraints that all hold.
  abbrev pub some_holds : List StrategyDef → Bool
  some_holds ss = any (λ (s : StrategyDef). all holds s.constraints) ss

  match_reading-of_option :
      (c : StrategyConstraint) (field_type ctx_value : Option String)
      → match_reading rt c (of_option field_type) (of_option ctx_value)
        ≡ ok (match_constraint rt c field_type ctx_value)
  unfolding match_reading match_constraint
  match_reading-of_option c field_type none = refl
  match_reading-of_option c none (some v) = refl
  match_reading-of_option c (some t) (some v) = refl

  tested-plain :
      (c : StrategyConstraint)
      → is_plain c.field_key ≡ true
      → match_reading rt c (read c.field_key field_types) (read c.field_key context) ≡ ok (holds c)
  tested-plain c plain =
      rw (read-plain c.field_key field_types plain, read-plain c.field_key context plain)
        (match_reading-of_option c (lookup c.field_key field_types) (lookup c.field_key context))

  all_match-plain :
      (cs : List StrategyConstraint)
      → all (λ c. is_plain c.field_key) cs ≡ true
      → all_match rt cs field_types context ≡ ok (all holds cs)
  unfolding all_match
  all_match-plain [] plain = refl
  all_match-plain (c ∷ cs) plain =
      let both = and_both (is_plain c.field_key) (all (λ d. is_plain d.field_key) cs) plain in
      rw (all_match, tested-plain c both.0, all_match-plain cs both.1)
        (elim (Bool-cases (holds c)) [ inl e ↦ rw e refl | inr e ↦ rw e refl ])

  first_match-plain :
      (ss : List StrategyDef)
      → all_plain ss ≡ true
      → first_match rt ss field_types context
        ≡ ok (
            if some_holds ss
            then record { enabled = true; reason = strategy_match }
            else record { enabled = false; reason = default })
  unfolding first_match strategy_matches
  first_match-plain [] plain = refl
  first_match-plain (s ∷ ss) plain =
      let both = and_both (all (λ c. is_plain c.field_key) s.constraints) (all_plain ss) plain in
      rw (first_match, all_match-plain s.constraints both.0, first_match-plain ss both.1)
        (elim (Bool-cases (all holds s.constraints)) [ inl e ↦ rw e refl | inr e ↦ rw e refl ])

  pub evaluate_flag-plain :
      (b : Bool) (ss : List StrategyDef)
      → all_plain ss ≡ true
      → evaluate_flag rt (record { enabled = b; strategies = ss }) field_types context
        ≡ ok (decided b (some_holds ss) ss)
  unfolding evaluate_flag evaluate_strategies
  evaluate_flag-plain false ss plain = refl
  evaluate_flag-plain true [] plain = refl
  evaluate_flag-plain true (s ∷ ss) plain =
      first_match-plain (s ∷ ss) plain
      ∙ elim (Bool-cases (some_holds (s ∷ ss))) [ inl e ↦ rw e refl | inr e ↦ rw e refl ]
