-- ===== src/Strategies/Legal.antt =====
-- What `constraintError` of src/modules/strategies/constraint-rules.ts lets through, and what
-- evaluation does with a constraint that it refuses.
use flagraft.Prelude.{
  Bool, true, false, Option, none, some, List, [], ◌∷◌, String, ◌==◌, ◌≡◌, ◌≢◌, ◌↔◌, ◌⊎◌, subst,
  inl, inr, refl, arith, All, eq_iff, Bool-cases, Option-cases, if◌then◌else◌,
}
use flagraft.Evaluate.Runtime.{Runtime}
use flagraft.Evaluate.Constraint.{
  StrategyConstraint, first_value, list_includes, match_constraint, match_typed, match_text,
  match_number, match_version, match_date,
}
use flagraft.Evaluate.Flag.{Dictionary, lookup}
use flagraft.Strategies.Rules.{
  FieldRule, allowed_operators, regex_error, enum_error, enum_check, field_error, constraint_error,
}

enum_error_iff :
    (key : String) (allowed values : List String)
    → (enum_error key allowed values ≡ none) ↔ All (λ v. list_includes allowed v ≡ true) values
unfolding enum_error
enum_error_iff key allowed [] = (λ _. tt, λ _. refl)
enum_error_iff key allowed (v ∷ vs) = ground (arith, enum_error_iff key allowed vs)

module _ (rt : Runtime) (safe_regex : String → Bool) where
  -- The rule in words: the operator is one of the field's type, a regular expression compiles and
  -- is safe, and the values of an enum field are among the listed ones.
  pub record IsLegal (field : FieldRule) (c : StrategyConstraint) : Type 0 where
    pub operator_allowed : list_includes (allowed_operators field.type) c.operator ≡ true
    pub regex_compiles : c.operator ≡ "regex" → rt.regex_test (first_value c.values) "" ≢ none
    pub regex_safe : c.operator ≡ "regex" → safe_regex (first_value c.values) ≡ true
    pub values_listed :
        (allowed : List String)
        → field.type ≡ "enum"
        → field.enum_values ≡ some allowed
        → All (λ v. list_includes allowed v ≡ true) c.values

  field_error-IsLegal :
      (field : FieldRule) (c : StrategyConstraint)
      → field_error rt safe_regex field c ≡ none
      → IsLegal field c
  unfolding field_error
  field_error-IsLegal field c h = record {
    operator_allowed = ground arith;
    regex_compiles = λ e. ground (arith, eq_iff c.operator "regex");
    regex_safe = λ e. ground (arith, eq_iff c.operator "regex");
    values_listed = λ allowed e e'.
        (enum_error_iff field.key allowed c.values).0 (ground (arith, eq_iff field.type "enum"));
  }

  regex_part :
      (field : FieldRule) (c : StrategyConstraint)
      → IsLegal field c
      → (if c.operator == "regex" then regex_error rt safe_regex (first_value c.values) else none)
        ≡ none
  unfolding regex_error
  regex_part field c l = elim (Bool-cases (c.operator == "regex")) [
    | inr other ↦ rw other
    | inl e ↦
        let is_regex = (eq_iff c.operator "regex").0 e in
        ground (arith, l.regex_compiles is_regex, l.regex_safe is_regex)
  ]

  enum_part :
      (field : FieldRule) (c : StrategyConstraint)
      → IsLegal field c
      → enum_check field c.values ≡ none
  unfolding enum_check
  enum_part field c l = elim (Bool-cases (field.type == "enum")) [
    | inr other ↦ rw other
    | inl e ↦ elim (Option-cases field.enum_values) [
      | inl q ↦ ground arith
      | inr (allowed, q) ↦
          let listed = l.values_listed allowed ((eq_iff field.type "enum").0 e) q in
          ground (arith, (enum_error_iff field.key allowed c.values).1 listed)
    ]
  ]

  IsLegal-field_error :
      (field : FieldRule) (c : StrategyConstraint)
      → IsLegal field c
      → field_error rt safe_regex field c ≡ none
  unfolding field_error
  IsLegal-field_error field c l =
      rw (field_error, l.operator_allowed, regex_part field c l) (enum_part field c l)

-- `constraintError` returns null exactly for a constraint on a registered field that is legal
-- there.
pub constraint_error-none_iff :
    (rt : Runtime) (safe_regex : String → Bool) (fields : Dictionary FieldRule)
    (c : StrategyConstraint)
    → (constraint_error rt safe_regex fields c ≡ none) ↔ (
        (field : FieldRule) × (lookup c.field_key fields ≡ some field)
        × IsLegal rt safe_regex field c)
unfolding constraint_error
constraint_error-none_iff rt safe_regex fields c = elim (Option-cases (lookup c.field_key fields)) [
  | inl missing ↦ rw (missing, constraint_error) (λ h. cc, λ h. cc (h.1))
  | inr (field, found) ↦
      rw (found, constraint_error)
        (
          λ h. (field, refl, field_error-IsLegal rt safe_regex field c h),
          λ h.
              let same : h.0 ≡ field = ground (arith, h.1) in
              subst (λ f. field_error rt safe_regex f c ≡ none) same
                (IsLegal-field_error rt safe_regex h.0 c h.2),
        )
]

module _ (rt : Runtime) (c : StrategyConstraint) (value : String) where
  abbrev Unmatched : String → Type 0
  Unmatched type =
      list_includes (allowed_operators type) c.operator ≡ false
      → match_constraint rt c (some type) (some value) ≡ false

  string-Unmatched : Unmatched "string"
  unfolding match_constraint match_typed match_text lookup
  string-Unmatched h = ground arith

  boolean-Unmatched : Unmatched "boolean"
  unfolding match_constraint match_typed lookup
  boolean-Unmatched h = ground arith

  number-Unmatched : Unmatched "number"
  unfolding match_constraint match_typed match_number lookup
  number-Unmatched h = ground arith

  version-Unmatched : Unmatched "version"
  unfolding match_constraint match_typed match_version lookup
  version-Unmatched h = ground arith

  date-Unmatched : Unmatched "date"
  unfolding match_constraint match_typed match_date lookup
  date-Unmatched h = ground arith

-- The types of a context field but "enum".
abbrev pub plain_types : List String
plain_types = "string" ∷ "boolean" ∷ "number" ∷ "version" ∷ "date" ∷ []

plain_cases :
    (type : String)
    → list_includes plain_types type ≡ true
    → (type ≡ "string")
      ⊎ (type ≡ "boolean")
      ⊎ (type ≡ "number")
      ⊎ (type ≡ "version")
      ⊎ (type ≡ "date")
plain_cases type known = ground (
  arith,
  eq_iff type "string",
  eq_iff type "boolean",
  eq_iff type "number",
  eq_iff type "version",
  eq_iff type "date",
)

-- On a field of any type but "enum", a constraint whose operator the type does not have matches
-- no value: what the write check refuses for its operator cannot turn a flag on.
pub match_constraint-of_bad_operator :
    (rt : Runtime) (c : StrategyConstraint) (type value : String)
    → list_includes plain_types type ≡ true
    → list_includes (allowed_operators type) c.operator ≡ false
    → match_constraint rt c (some type) (some value) ≡ false
match_constraint-of_bad_operator rt c type value known = elim (plain_cases type known) [
  | inl e ↦ rw e (string-Unmatched rt c value)
  | inr (inl e) ↦ rw e (boolean-Unmatched rt c value)
  | inr (inr (inl e)) ↦ rw e (number-Unmatched rt c value)
  | inr (inr (inr (inl e))) ↦ rw e (version-Unmatched rt c value)
  | inr (inr (inr (inr e))) ↦ rw e (date-Unmatched rt c value)
]

-- Evaluation treats an enum field as a string field, so that it runs operators which the write
-- check refuses for enum fields.
pub match_constraint-enum :
    (rt : Runtime) (c : StrategyConstraint) (value : Option String)
    → match_constraint rt c (some "enum") value ≡ match_constraint rt c (some "string") value
unfolding match_constraint match_typed
match_constraint-enum rt c none = refl
match_constraint-enum rt c (some v) = refl
