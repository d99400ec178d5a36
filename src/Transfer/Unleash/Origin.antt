-- ===== src/Transfer/Unleash/Origin.antt =====
-- Where the strategies of a converted document come from: `toNative` of
-- src/modules/transfer/external/unleash.adapter.ts.
use flagraft.Prelude.{
  ℕ, Bool, true, false, Option, some, List, [], ◌∷◌, ◌++◌, String, ◌==◌, ◌≡◌, ◌⊎◌, refl, inl, inr,
  eq_iff, subst, sym, All, leb, is_some, or_else, Option-cases, Bool-cases, if_both, if◌then◌else◌,
}
use flagraft.Evaluate.Constraint.{StrategyConstraint}
use flagraft.Evaluate.Flag.{Dictionary, StrategyDef, lookup}
use flagraft.Client.State.{assign}
use flagraft.Transfer.Document.{NativeState, NativeFlag, Skip}
use flagraft.Transfer.Import.Targets.{select-All}
use flagraft.Transfer.Unleash.Document.{
  UnleashConstraint, UnleashFeature, UnleashState, UnleashStrategy, UnleashDocument,
}
use flagraft.Transfer.Unleash.Convert.{Converted, carried, skipped, operator_for, convert_strategy}
use flagraft.Transfer.Unleash.Operators.{IsTabled, operator_for-IsTabled}
use flagraft.Transfer.Unleash.Exact.{IsExact, convert_strategy-IsExact}
use flagraft.Transfer.Unleash.Tables.{lookup-All}
use flagraft.Transfer.Unleash.Native.{
  Conversion, Flags, no_state, push_strategy, place_in, place_strategy, place_strategies,
  insert_strategy, sort_strategies, feature_states, convert_features,
}
use flagraft.Transfer.Unleash.Whole.{inferred_fields, to_native}

Converted-cases :
    (r : Converted)
    → ((why : Skip) × (r ≡ skipped why))
      ⊎ ((constraints : List StrategyConstraint) × (keys : List String) × (r
            ≡ carried constraints keys))
Converted-cases (skipped why) = inl (why, refl)
Converted-cases (carried constraints keys) = inr (constraints, keys, refl)

All-assign :
    {V : Type 0} (P : String × V → Type 0) (k : String) (v : V) (d : Dictionary V)
    → P (k, v)
    → All P d
    → All P (assign k v d)
unfolding assign
All-assign P k v [] p h = (p, tt)
All-assign P k v ((l, w) ∷ d) p (h, hs) = elim (Bool-cases (l == k)) [
  | inl here ↦ rw (here, assign, All) (subst (λ x. P (x, v)) (sym ((eq_iff l k).0 here)) p, hs)
  | inr later ↦ rw (later, assign, All) (h, All-assign P k v d p hs)
]

All-append : {A : Type 0} (P : A → Type 0) (xs ys : List A) → All P xs → All P ys → All P (xs ++ ys)
All-append P [] ys h k = k
All-append P (x ∷ xs) ys (h, hs) k = (h, All-append P xs ys hs k)

module _ (P : UnleashStrategy → Type 0) where
  insert_strategy-All :
      (s : UnleashStrategy) (strategies : List UnleashStrategy)
      → P s
      → All P strategies
      → All P (insert_strategy s strategies)
  insert_strategy-All s [] p h = (p, tt)
  insert_strategy-All s (t ∷ strategies) p (h, hs) =
      if_both (All P) (leb (or_else s.sort_order 0) (or_else t.sort_order 0)) (p, (h, hs))
        (h, insert_strategy-All s strategies p hs)

  sort_strategies-All :
      (strategies : List UnleashStrategy) → All P strategies → All P (sort_strategies strategies)
  unfolding sort_strategies
  sort_strategies-All [] h = tt
  sort_strategies-All (s ∷ strategies) (h, hs) =
      insert_strategy-All s (sort_strategies strategies) h (sort_strategies-All strategies hs)

module _ (R : UnleashStrategy → Type 0) (op_for : UnleashConstraint → Option String) where
  -- An exact conversion of one of the feature's strategies.
  abbrev pub IsFrom : String → StrategyDef → Type 0
  IsFrom key d =
      (s : UnleashStrategy) × R s × (s.feature_name ≡ key) × IsExact op_for s d.constraints

  abbrev AreFrom : String → String × NativeState → Type 0
  AreFrom key e = All (IsFrom key) (e.1.strategies)

  module _ (key : String) where
    looked_up-AreFrom :
        (slug : String) (environments : Dictionary NativeState)
        → All (AreFrom key) environments
        → All (IsFrom key) (or_else (lookup slug environments) no_state).strategies
    looked_up-AreFrom slug environments h = elim (Option-cases (lookup slug environments)) [
      | inl missing ↦ rw missing tt
      | inr (state, found) ↦ rw found (
          lookup-All (λ k (v : NativeState). All (IsFrom key) (v.strategies)) environments slug
            state h found)
    ]

    push_strategy-AreFrom :
        (slug : String) (constraints : List StrategyConstraint)
        (environments : Dictionary NativeState)
        → IsFrom key (record { constraints = constraints })
        → All (AreFrom key) environments
        → All (AreFrom key) (push_strategy slug constraints environments)
    push_strategy-AreFrom slug constraints environments from h =
        All-assign (AreFrom key) slug _ environments
          (All-append (IsFrom key) (or_else (lookup slug environments) no_state).strategies
            (record { constraints = constraints } ∷ []) (looked_up-AreFrom slug environments h)
            (from, tt))
          h

    place_in-AreFrom :
        (s : UnleashStrategy) (slug : String) (conv : Conversion)
        → R s
        → s.feature_name ≡ key
        → All (AreFrom key) conv.environments
        → All (AreFrom key) (place_in op_for key s slug conv).environments
    unfolding place_in
    place_in-AreFrom s slug conv r own h =
        let there = is_some (lookup slug conv.environments) in
        let environments =
          if there then conv.environments else assign slug no_state conv.environments in
        let ready : All (AreFrom key) environments =
          if_both (All (AreFrom key)) there h
            (All-assign (AreFrom key) slug no_state conv.environments tt h) in
        elim (Converted-cases (convert_strategy s op_for)) [
          | inl (why, dropped) ↦ rw (dropped, place_in) ready
          | inr (constraints, keys, converted) ↦
              rw (converted, place_in)
                (push_strategy-AreFrom slug constraints environments
                  (s, r, own, convert_strategy-IsExact op_for s constraints keys converted) ready)
        ]

    abbrev IsOwn : UnleashStrategy → Type 0
    IsOwn s = ((s.feature_name == key) ≡ true) × R s

    place_strategy-AreFrom :
        (implied : Option String) (s : UnleashStrategy) (conv : Conversion)
        → IsOwn s
        → All (AreFrom key) conv.environments
        → All (AreFrom key) (place_strategy op_for key implied s conv).environments
    unfolding place_strategy
    place_strategy-AreFrom implied s conv (own, r) h =
        let same = (eq_iff s.feature_name key).0 own in
        elim (Option-cases s.environment) [
          | inr (slug, e) ↦ rw (e, place_strategy) (place_in-AreFrom s slug conv r same h)
          | inl e ↦ elim (Option-cases implied) [
            | inl e' ↦ rw (e, e', place_strategy) h
            | inr (slug, e') ↦ rw (e, e', place_strategy) (place_in-AreFrom s slug _ r same h)
          ]
        ]

    place_strategies-AreFrom :
        (implied : Option String) (strategies : List UnleashStrategy) (conv : Conversion)
        → All IsOwn strategies
        → All (AreFrom key) conv.environments
        → All (AreFrom key) (place_strategies op_for key implied strategies conv).environments
    unfolding place_strategies
    place_strategies-AreFrom implied [] conv own h = h
    place_strategies-AreFrom implied (s ∷ strategies) conv (own, owns) h =
        place_strategies-AreFrom implied strategies (place_strategy op_for key implied s conv) owns
          (place_strategy-AreFrom implied s conv own h)

    feature_states-AreFrom :
        (states : List UnleashState) (environments : Dictionary NativeState)
        → All (AreFrom key) environments
        → All (AreFrom key) (feature_states key states environments)
    unfolding feature_states
    feature_states-AreFrom [] environments h = h
    feature_states-AreFrom (e ∷ states) environments h = feature_states-AreFrom states _ (
        if_both (All (AreFrom key)) (e.feature_name == key)
          (All-assign (AreFrom key) e.environment (record { enabled = e.enabled; strategies = [] })
            environments tt h)
          h)

  abbrev pub IsTraced : NativeFlag → Type 0
  IsTraced f = All (AreFrom f.key) f.environments

  convert_features-IsTraced :
      (source : UnleashDocument) (features : List UnleashFeature) (done : Flags)
      → All R source.feature_strategies
      → All IsTraced done.flags
      → All IsTraced (convert_features op_for source features done).flags
  unfolding convert_features
  convert_features-IsTraced source [] done r h = h
  convert_features-IsTraced source (f ∷ features) done r h =
      convert_features-IsTraced source features _ r (
        if_both (λ (d : Flags). All IsTraced d.flags) (or_else f.archived false) h
          (All-append IsTraced done.flags _ h (
            place_strategies-AreFrom f.name _ _ _
                (sort_strategies-All (IsOwn f.name) _ (
                  select-All R (λ (s : UnleashStrategy). s.feature_name == f.name)
                    source.feature_strategies r))
                (feature_states-AreFrom f.name source.feature_environments [] tt),
            tt,
          )))

-- Every strategy of a converted document stands under its own flag and is traced: for each there is a
-- strategy of the Unleash export, of the same feature and with whatever holds of all of the export's
-- strategies, that has a name, is enabled and uses no segment, is of a kind that is stored as it is, and
-- has the same constraints, one for one, with their fields and values, followed by its user ids where it
-- is for these. An operator that a constraint is given is the inverted table's where the constraint is
-- inverted, and else the plain table's.
pub to_native-IsTraced :
    (locale_le : String → String → Bool) (now : ℕ) (source : UnleashDocument)
    (R : UnleashStrategy → Type 0) (c : UnleashConstraint) (operator : String)
    → All R source.feature_strategies
    → operator_for (inferred_fields source) c ≡ some operator
    → All
        (IsTraced R (operator_for (inferred_fields source)))
        (to_native locale_le now source).document.flags
      × IsTabled c operator
unfolding to_native
to_native-IsTraced locale_le now source R c operator r given = (
  convert_features-IsTraced R (operator_for (inferred_fields source)) source source.features
      (record { flags = []; placements = []; flag_warnings = [] }) r tt,
  operator_for-IsTabled (inferred_fields source) c operator given,
)
