-- ===== src/Transfer/Unleash/RoundTrip.antt =====
-- A constraint exported by `toUnleashConstraint` and read back by the import's operator table, both of
-- src/modules/transfer/external/unleash.adapter.ts.
use flagraft.Prelude.{
  true, false, some, List, [], ◌∷◌, String, ◌==◌, ◌≡◌, ◌≢◌, ◌⊎◌, refl, arith, inl, inr, eq_iff,
  subst, sym, Bool-cases, Option-cases,
}
use flagraft.Evaluate.Runtime.{Runtime}
use flagraft.Evaluate.Constraint.{
  StrategyConstraint, first_value, list_includes, match_constraint, match_typed, match_text,
}
use flagraft.Evaluate.Flag.{lookup}
use flagraft.Strategies.Rules.{allowed_operators}
use flagraft.Transfer.Unleash.{
  from_unleash_operator, to_unleash_operator, version_operator, UnleashOperator,
  UnleashConstraintOut, first_only, constraint_out, to_unleash_constraint,
}
use flagraft.Transfer.Unleash.Tables.{
  lookup-All, allowed_operators-All, IsTextType, allowed-IsTextType,
}

-- The operator comes back, or it is a test for one value that goes out as IN.
abbrev IsReturned : String → UnleashOperator → Type 0
IsReturned op m =
    ((lookup m.operator from_unleash_operator ≡ some op) × (m.single_value ≡ false))
    ⊎ ((m.operator ≡ "IN") × (m.single_value ≡ true) × ((op ≡ "equals") ⊎ (op ≡ "is")))

to_unleash_operator-IsReturned :
    (op : String) (m : UnleashOperator) → lookup op to_unleash_operator ≡ some m → IsReturned op m
unfolding lookup
to_unleash_operator-IsReturned op m found =
    lookup-All IsReturned to_unleash_operator op m
      (
        inl (refl, refl),
        (
          inl (refl, refl),
          (
            inr (refl, refl, inl refl),
            (
              inr (refl, refl, inr refl),
              (
                inl (refl, refl),
                (
                  inl (refl, refl),
                  (
                    inl (refl, refl),
                    (
                      inl (refl, refl),
                      (
                        inl (refl, refl),
                        (
                          inl (refl, refl),
                          (inl (refl, refl), (inl (refl, refl), (inl (refl, refl), tt))),
                        ),
                      ),
                    ),
                  ),
                ),
              ),
            ),
          ),
        ),
      )
      found

version_operator-eq :
    (op o : String) → lookup op version_operator ≡ some o → (op ≡ "eq") × (o ≡ "SEMVER_EQ")
version_operator-eq op o found =
    lookup-All (λ k v. (k ≡ "eq") × (v ≡ "SEMVER_EQ")) version_operator op o ((refl, refl), tt)
      found

eq_whole : (m : UnleashOperator) → lookup "eq" to_unleash_operator ≡ some m → m.single_value ≡ false
unfolding lookup
eq_whole m h = ground arith

semver_back : lookup "SEMVER_EQ" from_unleash_operator ≡ some "eq"
unfolding lookup
semver_back = refl

-- Only a boolean field has the operator "is".
is-boolean : (type : String) → list_includes (allowed_operators type) "is" ≡ true → type ≡ "boolean"
is-boolean type allowed =
    allowed_operators-All "is" (λ t. t ≡ "boolean") type
      (λ h. cc, (λ h. cc, (λ _. refl, (λ h. cc, (λ h. cc, (λ h. cc, tt)))))) allowed

first_only-includes :
    (values : List String) (value : String)
    → values ≢ []
    → list_includes (first_only values) value ≡ (value == first_value values)
first_only-includes [] value filled = ground (arith, filled)
first_only-includes (v ∷ values) value filled = ground arith

module _ (rt : Runtime) (c : StrategyConstraint) (type value : String) where
  abbrev IsReadBack : UnleashConstraintOut → Type 0
  IsReadBack u =
      (op : String) × (lookup u.operator from_unleash_operator ≡ some op)
      × (match_constraint rt
            (record { field_key = u.context_name; operator = op; values = u.values }) (some type)
            (some value)
          ≡ match_constraint rt c (some type) (some value))

  whole-IsReadBack :
      (operator : String)
      → lookup operator from_unleash_operator ≡ some c.operator
      → IsReadBack (constraint_out c false operator)
  whole-IsReadBack operator found = (c.operator, found, refl)

  single_matches :
      c.operator ≡ "equals"
      → IsTextType type
      → c.values ≢ []
      → match_constraint rt
          (record { field_key = c.field_key; operator = "in"; values = first_only c.values })
          (some type)
          (some value)
        ≡ match_constraint rt c (some type) (some value)
  unfolding match_constraint match_typed match_text
  single_matches is_equals (inl e) filled =
      rw (e, is_equals, match_text) (first_only-includes c.values value filled)
  single_matches is_equals (inr e) filled =
      rw (e, is_equals, match_text) (first_only-includes c.values value filled)

  single-IsReadBack :
      c.operator ≡ "equals"
      → IsTextType type
      → c.values ≢ []
      → IsReadBack (constraint_out c true "IN")
  unfolding lookup match_constraint match_typed match_text
  single-IsReadBack is_equals text filled = ("in", refl, single_matches is_equals text filled)

  version-IsReadBack :
      (m : UnleashOperator) (operator : String)
      → lookup c.operator to_unleash_operator ≡ some m
      → lookup c.operator version_operator ≡ some operator
      → IsReadBack (constraint_out c m.single_value operator)
  version-IsReadBack m operator mapped found =
      let versions = version_operator-eq c.operator operator found in
      let whole_values : m.single_value ≡ false =
        eq_whole m (subst (λ o. lookup o to_unleash_operator ≡ some m) versions.0 mapped) in
      let back : lookup operator from_unleash_operator ≡ some c.operator =
        subst (λ o. lookup operator from_unleash_operator ≡ some o) (sym versions.0)
          (subst (λ o. lookup o from_unleash_operator ≡ some "eq") (sym versions.1) semver_back) in
      subst (λ b. IsReadBack (constraint_out c b operator)) (sym whole_values)
        (whole-IsReadBack operator back)

  mapped-IsReadBack :
      (m : UnleashOperator)
      → lookup c.operator to_unleash_operator ≡ some m
      → list_includes (allowed_operators type) c.operator ≡ true
      → (type == "boolean") ≡ false
      → c.values ≢ []
      → IsReadBack (constraint_out c m.single_value m.operator)
  mapped-IsReadBack m mapped allowed plain filled =
      elim (to_unleash_operator-IsReturned c.operator m mapped) [
        | inl (back, whole_values) ↦
            subst (λ b. IsReadBack (constraint_out c b m.operator)) (sym whole_values)
              (whole-IsReadBack m.operator back)
        | inr (is_in, one_value, inl is_equals) ↦
            let text =
              allowed-IsTextType "equals" type refl
                (subst (λ o. list_includes (allowed_operators type) o ≡ true) is_equals allowed) in
            subst (λ b. IsReadBack (constraint_out c b m.operator)) (sym one_value)
              (subst (λ o. IsReadBack (constraint_out c true o)) (sym is_in)
                (single-IsReadBack is_equals text filled))
        | inr (is_in, one_value, inr is_is) ↦
            let boolean =
              is-boolean type
                (subst (λ o. list_includes (allowed_operators type) o ≡ true) is_is allowed) in
            ground (arith, eq_iff type "boolean", boolean)
      ]

-- What leaves for Unleash comes back with its meaning. A constraint that is legal on a field of any
-- type but boolean, has a value, and which the export can express, goes out with an operator that
-- the import reads, and what it reads matches the same values as before.
pub to_unleash_constraint-match_constraint :
    (rt : Runtime) (c : StrategyConstraint) (type value : String) (u : UnleashConstraintOut)
    → to_unleash_constraint c type ≡ some u
    → list_includes (allowed_operators type) c.operator ≡ true
    → (type == "boolean") ≡ false
    → c.values ≢ []
    → (op : String) × (lookup u.operator from_unleash_operator ≡ some op)
      × (match_constraint rt
            (record { field_key = u.context_name; operator = op; values = u.values })
            (some type)
            (some value)
          ≡ match_constraint rt c (some type) (some value))
unfolding to_unleash_constraint
to_unleash_constraint-match_constraint rt c type value u out allowed plain filled =
    elim (Option-cases (lookup c.operator to_unleash_operator)) [
      | inl missing ↦ ground (arith, missing)
      | inr (m, mapped) ↦ elim (Bool-cases (type == "version")) [
        | inr other ↦
            let same : constraint_out c m.single_value m.operator ≡ u =
              ground (arith, mapped, other) in
            subst (IsReadBack rt c type value) same
              (mapped-IsReadBack rt c type value m mapped allowed plain filled)
        | inl version ↦ elim (Option-cases (lookup c.operator version_operator)) [
          | inl missing ↦ ground (arith, mapped, version, missing)
          | inr (operator, found) ↦
              let same : constraint_out c m.single_value operator ≡ u =
                ground (arith, mapped, version, found) in
              subst (IsReadBack rt c type value) same
                (version-IsReadBack rt c type value m operator mapped found)
        ]
      ]
    ]
