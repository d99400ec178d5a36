-- ===== src/Transfer/Unleash/Negation.antt =====
-- `INVERTED_FROM_UNLEASH_OPERATOR` of src/modules/transfer/external/unleash.adapter.ts against the
-- evaluation of src/modules/client/evaluate.ts.
use flagraft.Prelude.{
  Bool, true, false, not, ◌||◌, some, List, String, ◌≡◌, ◌⊎◌, refl, arith, inl, inr, or_else, subst,
  sym,
}
use flagraft.Evaluate.Runtime.{Runtime, IsOrdered, le}
use flagraft.Evaluate.Constraint.{
  first_value, list_includes, match_constraint, match_typed, match_text, match_number,
}
use flagraft.Evaluate.Flag.{Dictionary, lookup}
use flagraft.Strategies.Rules.{allowed_operators}
use flagraft.Transfer.Unleash.Document.{UnleashConstraint}
use flagraft.Transfer.Unleash.Types.{InferredField}
use flagraft.Transfer.Unleash.Convert.{operator_for}
use flagraft.Transfer.Unleash.Operators.{operator_for-IsTabled}
use flagraft.Transfer.Unleash.Tables.{
  lookup-All, IsTextType, number_only, allowed-IsTextType, allowed-number,
}
use flagraft.Transfer.Unleash.{from_unleash_operator, inverted_from_unleash_operator}

-- The tests of two numbers that are no NaN.
module _ (rt : Runtime) (ordered : IsOrdered rt) (n m : rt.Num)
    (known : (rt.is_nan n || rt.is_nan m) ≡ false) where
  not-lt : not (rt.lt n m) ≡ le rt m n
  not-lt = ground (
    arith,
    ordered.total n m,
    ordered.lt_asymm n m,
    ordered.lt-ne n m,
    ordered.eq_sym n m,
    ordered.eq_sym m n,
  )

-- An operator with its negation.
abbrev IsPair : String → String → Type 0
IsPair positive negative =
    ((positive ≡ "in") × (negative ≡ "notIn"))
    ⊎ ((positive ≡ "notIn") × (negative ≡ "in"))
    ⊎ ((positive ≡ "eq") × (negative ≡ "neq"))
    ⊎ ((positive ≡ "gt") × (negative ≡ "lte"))
    ⊎ ((positive ≡ "gte") × (negative ≡ "lt"))
    ⊎ ((positive ≡ "lt") × (negative ≡ "gte"))
    ⊎ ((positive ≡ "lte") × (negative ≡ "gt"))

operator_cases :
    (op positive negative : String)
    → lookup op from_unleash_operator ≡ some positive
    → lookup op inverted_from_unleash_operator ≡ some negative
    → IsPair positive negative
unfolding lookup
operator_cases op positive negative h k =
    lookup-All (λ o n. (p : String) → lookup o from_unleash_operator ≡ some p → IsPair p n)
      inverted_from_unleash_operator op negative
      (
        λ p e. inl (ground arith, refl),
        (
          λ p e. inr (inl (ground arith, refl)),
          (
            λ p e. inr (inr (inl (ground arith, refl))),
            (
              λ p e. inr (inr (inr (inl (ground arith, refl)))),
              (
                λ p e. inr (inr (inr (inr (inl (ground arith, refl))))),
                (
                  λ p e. inr (inr (inr (inr (inr (inl (ground arith, refl)))))),
                  (λ p e. inr (inr (inr (inr (inr (inr (ground arith, refl)))))), tt),
                ),
              ),
            ),
          ),
        ),
      )
      k positive h

module _ (rt : Runtime) (ordered : IsOrdered rt) (key value : String) (values : List String) where
  abbrev matches : String → String → Bool
  matches op type =
      match_constraint rt (record { field_key = key; operator = op; values = values }) (some type)
        (some value)

  abbrev IsReadable : Type 0
  IsReadable = (rt.is_nan (rt.number value) || rt.is_nan (rt.number (first_value values))) ≡ false

  in-IsNegated : (type : String) → IsTextType type → matches "notIn" type ≡ not (matches "in" type)
  unfolding match_constraint match_typed match_text
  in-IsNegated type (inl e) = rw e refl
  in-IsNegated type (inr e) = rw e refl

  eq-IsNegated : IsReadable → matches "neq" "number" ≡ not (matches "eq" "number")
  unfolding match_constraint match_typed match_number
  eq-IsNegated known = rw known refl

  abbrev n : rt.Num
  n = rt.number value

  abbrev m : rt.Num
  m = rt.number (first_value values)

  swapped : IsReadable → (rt.is_nan m || rt.is_nan n) ≡ false
  swapped known = ground arith

  gt-IsNegated : IsReadable → matches "lte" "number" ≡ not (matches "gt" "number")
  unfolding match_constraint match_typed match_number
  gt-IsNegated known = rw known (sym (not-lt rt ordered m n (swapped known)))

  gte-IsNegated : IsReadable → matches "lt" "number" ≡ not (matches "gte" "number")
  unfolding match_constraint match_typed match_number
  gte-IsNegated known =
      let not_below : not (rt.lt n m) ≡ le rt m n = not-lt rt ordered n m known in
      rw (known, sym not_below) (ground arith)

  lt-IsNegated : IsReadable → matches "gte" "number" ≡ not (matches "lt" "number")
  unfolding match_constraint match_typed match_number
  lt-IsNegated known = rw known (sym (not-lt rt ordered n m known))

  lte-IsNegated : IsReadable → matches "gt" "number" ≡ not (matches "lte" "number")
  unfolding match_constraint match_typed match_number
  lte-IsNegated known =
      let not_above : not (rt.lt m n) ≡ le rt n m = not-lt rt ordered m n (swapped known) in
      rw (known, sym not_above) (ground arith)

  not_in-IsNegated :
      (type : String) → IsTextType type → matches "in" type ≡ not (matches "notIn" type)
  unfolding match_constraint match_typed match_text
  not_in-IsNegated type (inl e) = rw e (ground arith)
  not_in-IsNegated type (inr e) = rw e (ground arith)

  module _ (type : String) (known : type ≡ "number" → IsReadable) where
    abbrev IsAllowed : String → Type 0
    IsAllowed op = list_includes (allowed_operators type) op ≡ true

    -- On a number field what holds there suffices.
    at_number :
        (p q only : String)
        → list_includes number_only only ≡ true
        → IsAllowed only
        → (IsReadable → matches q "number" ≡ not (matches p "number"))
        → matches q type ≡ not (matches p type)
    at_number p q only which has k =
        let is_number = allowed-number only type which has in
        subst (λ t. matches q t ≡ not (matches p t)) (sym is_number) (k (known is_number))

    IsPair-IsNegated :
        (positive negative : String)
        → IsPair positive negative
        → IsAllowed positive
        → IsAllowed negative
        → matches negative type ≡ not (matches positive type)
    IsPair-IsNegated positive negative pair has has' = elim pair [
      | inl (e, e') ↦
          rw (e, e') (in-IsNegated type (allowed-IsTextType "in" type refl (subst IsAllowed e has)))
      | inr (inl (e, e')) ↦
          rw (e, e')
            (not_in-IsNegated type (allowed-IsTextType "in" type refl (subst IsAllowed e' has')))
      | inr (inr (inl (e, e'))) ↦
          rw (e, e') (at_number "eq" "neq" "neq" refl (subst IsAllowed e' has') eq-IsNegated)
      | inr (inr (inr (inl (e, e')))) ↦
          rw (e, e') (at_number "gt" "lte" "gt" refl (subst IsAllowed e has) gt-IsNegated)
      | inr (inr (inr (inr (inl (e, e'))))) ↦
          rw (e, e') (at_number "gte" "lt" "lt" refl (subst IsAllowed e' has') gte-IsNegated)
      | inr (inr (inr (inr (inr (inl (e, e')))))) ↦
          rw (e, e') (at_number "lt" "gte" "lt" refl (subst IsAllowed e has) lt-IsNegated)
      | inr (inr (inr (inr (inr (inr (e, e')))))) ↦
          rw (e, e') (at_number "lte" "gt" "gt" refl (subst IsAllowed e' has') lte-IsNegated)
    ]

-- An inverted constraint is converted to the negation of the one that is not inverted. Where
-- `operatorFor` gives an inverted constraint an operator, the table for constraints that are not
-- inverted gives its Unleash operator another, and the field's type has both, the first matches on each
-- value just where the second does not; on a number field, the value and the constraint's have to
-- read as numbers.
pub inverted_constraint-not :
    (rt : Runtime) (inferred : Dictionary InferredField) (c : UnleashConstraint)
    (positive negative key type value : String) (values : List String)
    → IsOrdered rt
    → or_else c.inverted false ≡ true
    → operator_for inferred c ≡ some negative
    → lookup c.operator from_unleash_operator ≡ some positive
    → list_includes (allowed_operators type) positive ≡ true
    → list_includes (allowed_operators type) negative ≡ true
    → (type ≡ "number"
        → (rt.is_nan (rt.number value) || rt.is_nan (rt.number (first_value values))) ≡ false)
    → match_constraint rt
        (record { field_key = key; operator = negative; values = values })
        (some type)
        (some value)
      ≡ not (
          match_constraint rt
            (record { field_key = key; operator = positive; values = values })
            (some type)
            (some value))
inverted_constraint-not rt inferred c positive negative key type value values ordered on given h has
      has' known =
    elim (operator_for-IsTabled inferred c negative given) [
      | inl (e, k) ↦
          IsPair-IsNegated rt ordered key value values type known positive negative
            (operator_cases c.operator positive negative h k) has has'
      | inr (off, k) ↦ cc (on, off)
    ]
