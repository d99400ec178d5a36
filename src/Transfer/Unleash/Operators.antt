-- ===== src/Transfer/Unleash/Operators.antt =====
-- Which table `operatorFor` of src/modules/transfer/external/unleash.adapter.ts reads.
use flagraft.Prelude.{
  Bool, true, false, not, ◌&&◌, Option, none, some, [], ◌∷◌, String, ◌==◌, ◌≡◌, ◌⊎◌, or_else,
  Bool-cases, Option-cases, inl, inr, if◌then◌else◌,
}
use flagraft.Evaluate.Constraint.{list_includes}
use flagraft.Evaluate.Flag.{Dictionary, lookup}
use flagraft.Transfer.Unleash.Document.{UnleashConstraint}
use flagraft.Transfer.Unleash.Types.{InferredField}
use flagraft.Transfer.Unleash.{from_unleash_operator, inverted_from_unleash_operator}
use flagraft.Transfer.Unleash.Convert.{restrict, operator_for}

-- The operator is the inverted table's just for an inverted constraint.
abbrev pub IsTabled : UnleashConstraint → String → Type 0
IsTabled c operator =
    ((or_else c.inverted false ≡ true)
      × (lookup c.operator inverted_from_unleash_operator ≡ some operator))
    ⊎ ((or_else c.inverted false ≡ false)
        × (lookup c.operator from_unleash_operator ≡ some operator))

unless_none : (b : Bool) (o p : String) → (if b then none else some o) ≡ some p → some o ≡ some p
unless_none true o p h = cc
unless_none false o p h = h

-- A restriction leaves an operator out or as it is.
restrict_lem :
    (inferred : Dictionary InferredField) (c : UnleashConstraint) (found : Option String)
    (operator : String)
    → restrict inferred c found ≡ some operator
    → found ≡ some operator
unfolding restrict
restrict_lem inferred c none operator h = h
restrict_lem inferred c (some o) operator h = elim (Option-cases (lookup c.context_name inferred)) [
  | inl e ↦ rw (restrict, e) at h
  | inr (field, e) ↦
      unless_none (field.type == "enum" && not (list_includes ("in" ∷ "notIn" ∷ "equals" ∷ []) o)) o
        operator (rw (restrict, e) at h)
]

pub operator_for-IsTabled :
    (inferred : Dictionary InferredField) (c : UnleashConstraint) (operator : String)
    → operator_for inferred c ≡ some operator
    → IsTabled c operator
unfolding operator_for
operator_for-IsTabled inferred c operator h = elim (Bool-cases (or_else c.inverted false)) [
  | inl e ↦ inl (e, restrict_lem inferred c _ operator (rw (operator_for, e) at h))
  | inr e ↦ inr (e, restrict_lem inferred c _ operator (rw (operator_for, e) at h))
]
