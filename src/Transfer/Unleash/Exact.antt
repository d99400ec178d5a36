-- ===== src/Transfer/Unleash/Exact.antt =====
-- What `convertStrategy` of src/modules/transfer/external/unleash.adapter.ts lets through.
use flagraft.Prelude.{
  false, Option, some, List, [], ◌∷◌, ◌++◌, String, ◌==◌, ◌≡◌, ◌≢◌, ◌⊎◌, refl, arith, ◌∙◌, ap, inl,
  inr, eq_iff, subst, sym, map, length, ltb, or_else, Option-cases, Bool-cases, if_both,
}
use flagraft.Evaluate.Constraint.{StrategyConstraint}
use flagraft.Transfer.Unleash.Document.{UnleashConstraint, UnleashStrategy}
use flagraft.Transfer.Unleash.Convert.{
  Converted, carried, skipped, values_of, convert_constraints, user_ids, rollout_of, name_of,
  convert_strategy, named, by_name, with_user_ids, extend,
}

-- What holds of the constraints of a strategy that is carried over.
abbrev pub WhenCarried : (List StrategyConstraint → Type 0) → Converted → Type 0
WhenCarried P (skipped why) = Unit {0}
WhenCarried P (carried constraints keys) = P constraints

WhenCarried-map :
    (P Q : List StrategyConstraint → Type 0) (r : Converted)
    → ((constraints : List StrategyConstraint) → P constraints → Q constraints)
    → WhenCarried P r
    → WhenCarried Q r
WhenCarried-map P Q (skipped why) f h = tt
WhenCarried-map P Q (carried constraints keys) f h = f constraints h

module _ (op_for : UnleashConstraint → Option String) where
  -- One constraint for each, with the same field, an operator that the table gives for it, and its
  -- values, of which there is one at least.
  pub record AreCarried (cs : List UnleashConstraint) (os : List StrategyConstraint) : Type 0 where
    pub same_fields :
        map (λ (o : StrategyConstraint). o.field_key) os
        ≡ map (λ (c : UnleashConstraint). c.context_name) cs
    pub same_operators : map (λ (o : StrategyConstraint). some o.operator) os ≡ map op_for cs
    pub same_values : map (λ (o : StrategyConstraint). o.values) os ≡ map values_of cs

  -- The strategies that the program can store as they are.
  abbrev IsStorable :
      UnleashStrategy → String → List StrategyConstraint → List StrategyConstraint → Type 0
  IsStorable s name own constraints =
      (((name ≡ "default") ⊎ ((name ≡ "flexibleRollout") × (rollout_of s ≡ "100")))
        × (constraints ≡ own))
      ⊎ ((name ≡ "userWithId")
          × (user_ids s ≢ [])
          × (constraints
              ≡ own ++ record { field_key = "userId"; operator = "in"; values = user_ids s } ∷ []))

  pub record IsExact (s : UnleashStrategy) (constraints : List StrategyConstraint) : Type 0 where
    pub name : String
    pub has_name : name_of s ≡ some name
    pub is_enabled : or_else s.disabled false ≡ false
    pub no_segments : s.segments ≡ 0
    pub own : List StrategyConstraint
    pub own_carried : AreCarried s.constraints own
    pub storable : IsStorable s name own constraints

  extend-AreCarried :
      (c : UnleashConstraint) (operator : String) (cs : List UnleashConstraint) (r : Converted)
      → op_for c ≡ some operator
      → WhenCarried (AreCarried cs) r
      → WhenCarried (AreCarried (c ∷ cs)) (extend c operator r)
  extend-AreCarried c operator cs (skipped why) found h = tt
  extend-AreCarried c operator cs (carried os keys) found h = record {
    same_fields = ap (λ fields. c.context_name ∷ fields) h.same_fields;
    same_operators =
        ap (λ ops. some operator ∷ ops) h.same_operators ∙ ap (λ o. o ∷ map op_for cs) (sym found);
    same_values = ap (λ values. values_of c ∷ values) h.same_values;
  }

  convert_constraints-AreCarried :
      (cs : List UnleashConstraint) → WhenCarried (AreCarried cs) (convert_constraints op_for cs)
  unfolding convert_constraints
  convert_constraints-AreCarried [] = record {
    same_fields = refl;
    same_operators = refl;
    same_values = refl;
  }
  convert_constraints-AreCarried (c ∷ cs) =
      let rest = convert_constraints-AreCarried cs in
      elim (Option-cases (op_for c)) [
        | inl unknown ↦ rw (unknown, convert_constraints, WhenCarried) tt
        | inr (operator, found) ↦ elim (Bool-cases (ltb 0 (length (values_of c)))) [
          | inr empty ↦ rw (found, empty, convert_constraints, WhenCarried) tt
          | inl filled ↦
              rw (found, filled, convert_constraints)
                (extend-AreCarried c operator cs (convert_constraints op_for cs) found rest)
        ]
      ]

  module _ (s : UnleashStrategy) (name : String) (own : List StrategyConstraint)
      (keys : List String) where
    with_user_ids_filled :
        (ids : List String)
        → WhenCarried
            (λ constraints.
              (ids ≢ [])
              × (constraints
                  ≡ own ++ record { field_key = "userId"; operator = "in"; values = ids } ∷ []))
            (with_user_ids ids own keys)
    with_user_ids_filled [] = tt
    with_user_ids_filled (id ∷ ids) = (λ e. cc, refl)

    with_user_ids-IsStorable :
        name ≡ "userWithId"
        → WhenCarried (IsStorable s name own) (with_user_ids (user_ids s) own keys)
    with_user_ids-IsStorable e =
        WhenCarried-map _ (IsStorable s name own) (with_user_ids (user_ids s) own keys)
          (λ constraints h. inr (e, h.0, h.1)) (with_user_ids_filled (user_ids s))

    by_name-IsStorable : WhenCarried (IsStorable s name own) (by_name s name own keys)
    by_name-IsStorable = elim (Bool-cases (name == "default")) [
      | inl e ↦ rw (e, by_name, WhenCarried) (inl (inl ((eq_iff name "default").0 e), refl))
      | inr ne ↦ elim (Bool-cases (name == "flexibleRollout")) [
        | inl e ↦ elim (Bool-cases (rollout_of s == "100")) [
          | inl all_users ↦
              rw (ne, e, all_users, by_name, WhenCarried)
                (inl (
                  inr (
                    (eq_iff name "flexibleRollout").0 e,
                    (eq_iff (rollout_of s) "100").0 all_users,
                  ),
                  refl,
                ))
          | inr part ↦ rw (ne, e, part, by_name, WhenCarried) tt
        ]
        | inr ne' ↦ elim (Bool-cases (name == "userWithId")) [
          | inl e ↦
              rw (ne, ne', e, by_name) (with_user_ids-IsStorable ((eq_iff name "userWithId").0 e))
          | inr other ↦
              rw (ne, ne', other, by_name)
                (if_both (WhenCarried (IsStorable s name own)) (name == "remoteAddress") tt (
                  if_both (WhenCarried (IsStorable s name own)) (name == "applicationHostname") tt
                    tt))
        ]
      ]
    ]

  named-IsExact :
      (s : UnleashStrategy) (name : String) (r : Converted)
      → name_of s ≡ some name
      → or_else s.disabled false ≡ false
      → s.segments ≡ 0
      → WhenCarried (AreCarried s.constraints) r
      → WhenCarried (IsExact s) (named s name r)
  named-IsExact s name (skipped why) has_name is_enabled no_segments h = tt
  named-IsExact s name (carried own keys) has_name is_enabled no_segments h =
      WhenCarried-map (IsStorable s name own) (IsExact s) (by_name s name own keys)
        (λ constraints storable. record {
          name = name;
          has_name = has_name;
          is_enabled = is_enabled;
          no_segments = no_segments;
          own = own;
          own_carried = h;
          storable = storable;
        })
        (by_name-IsStorable s name own keys)

  convert_strategy-WhenCarried :
      (s : UnleashStrategy) → WhenCarried (IsExact s) (convert_strategy s op_for)
  unfolding convert_strategy
  convert_strategy-WhenCarried s = elim (Option-cases (name_of s)) [
    | inl nameless ↦ rw (nameless, convert_strategy, WhenCarried) tt
    | inr (name, has_name) ↦ elim (Bool-cases (or_else s.disabled false)) [
      | inl off ↦ rw (has_name, off, convert_strategy, WhenCarried) tt
      | inr on ↦ elim (Bool-cases (ltb 0 s.segments)) [
        | inl some_segment ↦ rw (has_name, on, some_segment, convert_strategy, WhenCarried) tt
        | inr none_of_them ↦
            rw (has_name, on, none_of_them, convert_strategy)
              (named-IsExact s name (convert_constraints op_for s.constraints) has_name on
                (ground arith) (convert_constraints-AreCarried s.constraints))
      ]
    ]
  ]

-- Nothing of Unleash is approximated. A strategy that is carried over has a name, is enabled and uses
-- no segment; it is "default", "flexibleRollout" at 100 percent, or "userWithId" with some user ids;
-- and its constraints are Unleash's, one for one, each with the same field and values and with the
-- operator that the tables give, followed by the user ids if it is for these.
pub convert_strategy-IsExact :
    (op_for : UnleashConstraint → Option String) (s : UnleashStrategy)
    (constraints : List StrategyConstraint) (keys : List String)
    → convert_strategy s op_for ≡ carried constraints keys
    → IsExact op_for s constraints
convert_strategy-IsExact op_for s constraints keys converted =
    subst (WhenCarried (IsExact op_for s)) converted (convert_strategy-WhenCarried op_for s)
