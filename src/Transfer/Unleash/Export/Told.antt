-- ===== src/Transfer/Unleash/Export/Told.antt =====
-- What becomes of each strategy in `fromNative` of
-- src/modules/transfer/external/unleash.adapter.ts.
use flagraft.Prelude.{
  ℕ, suc, Option, none, some, List, [], ◌∷◌, ◌++◌, String, ◌≡◌, ◌⊎◌, refl, inl, inr, or_else, All,
  Any, Option-cases, sym, subst, ap,
}
use flagraft.Evaluate.Constraint.{StrategyConstraint}
use flagraft.Evaluate.Flag.{Dictionary, StrategyDef, lookup}
use flagraft.Transfer.Document.{
  NativeState, NativeFlag, NativeDocument, TransferWarning, unsupported_operator,
  no_unleash_operator,
}
use flagraft.Transfer.Unleash.{UnleashConstraintOut, to_unleash_constraint}
use flagraft.Transfer.Unleash.Document.{UnleashConstraint, UnleashStrategy}
use flagraft.Transfer.Unleash.Export.{
  Exported, types_by_key, Outgoing, converted, dropped, in_front, export_constraints,
  exported_strategy, left_out, export_strategies, with_state, export_states, with_flag,
  export_flags, nothing_exported, from_native,
}

module _ {A : Type 0} (P : A → Type 0) where
  Any-append : (xs ys : List A) → Any P xs → Any P (xs ++ ys)
  Any-append [] ys h = absurd h
  Any-append (x ∷ xs) ys (inl h) = inl h
  Any-append (x ∷ xs) ys (inr h) = inr (Any-append xs ys h)

  Any-last : (xs : List A) (y : A) → P y → Any P (xs ++ y ∷ [])
  Any-last [] y h = inl h
  Any-last (x ∷ xs) y h = inr (Any-last xs y h)

Any-map :
    {A : Type 0} (P Q : A → Type 0) (xs : List A) → ((a : A) → P a → Q a) → Any P xs → Any Q xs
Any-map P Q [] f h = absurd h
Any-map P Q (x ∷ xs) f (inl h) = inl (f x h)
Any-map P Q (x ∷ xs) f (inr h) = inr (Any-map P Q xs f h)

All-map :
    {A : Type 0} (P Q : A → Type 0) (xs : List A) → ((a : A) → P a → Q a) → All P xs → All Q xs
All-map P Q [] f h = tt
All-map P Q (x ∷ xs) f (h, hs) = (f x h, All-map P Q xs f hs)

module _ (types : Dictionary String) where
  -- What Unleash has for a constraint, by the type of its field.
  abbrev pub translation : StrategyConstraint → Option UnleashConstraintOut
  translation c = to_unleash_constraint c (or_else (lookup c.field_key types) "string")

  abbrev pub IsWritten : UnleashConstraintOut → UnleashConstraint → Type 0
  IsWritten o u =
      (u.context_name ≡ o.context_name)
      × ((u.operator ≡ o.operator) × ((u.values ≡ o.values) × (u.inverted ≡ some o.inverted)))

  -- The translations of all constraints, in their order.
  abbrev pub AreTranslated : List StrategyConstraint → List UnleashConstraint → Type 0
  AreTranslated [] [] = Unit
  AreTranslated [] (u ∷ us) = ⊥
  AreTranslated (c ∷ cs) [] = ⊥
  AreTranslated (c ∷ cs) (u ∷ us) =
      ((o : UnleashConstraintOut) × ((translation c ≡ some o) × IsWritten o u))
      × AreTranslated cs us

  -- The strategy, under its flag and its environment.
  abbrev pub IsExported : String → String → StrategyDef → UnleashStrategy → Type 0
  IsExported key slug s e =
      (e.feature_name ≡ key)
      × ((e.environment ≡ some slug) × AreTranslated s.constraints e.constraints)

  -- A warning that names a constraint of it that has no translation.
  abbrev pub IsNamed : String → String → StrategyDef → TransferWarning → Type 0
  IsNamed key slug s w =
      (w.environment ≡ some slug)
      × ((w.kind ≡ unsupported_operator)
          × Any
              (λ (c : StrategyConstraint).
                (translation c ≡ none)
                × (w.detail ≡ no_unleash_operator key c.operator c.field_key))
              s.constraints)

  abbrev pub IsTold :
      List UnleashStrategy → List TransferWarning → String → String → StrategyDef → Type 0
  IsTold strategies warnings key slug s =
      Any (IsExported key slug s) strategies ⊎ Any (IsNamed key slug s) warnings

  abbrev IsSound : List StrategyConstraint → Outgoing → Type 0
  IsSound cs (converted us) = AreTranslated cs us
  IsSound cs (dropped c) = Any (λ (d : StrategyConstraint). (translation d ≡ none) × (c ≡ d)) cs

  in_front-IsSound :
      (c : StrategyConstraint) (cs : List StrategyConstraint) (o : UnleashConstraintOut)
      (rest : Outgoing)
      → translation c ≡ some o
      → IsSound cs rest
      → IsSound (c ∷ cs) (in_front o rest)
  in_front-IsSound c cs o (converted us) e h = ((o, (e, (refl, (refl, (refl, refl))))), h)
  in_front-IsSound c cs o (dropped d) e h = inr h

  export_constraints-IsSound :
      (cs : List StrategyConstraint) → IsSound cs (export_constraints types cs)
  unfolding export_constraints
  export_constraints-IsSound [] = tt
  export_constraints-IsSound (c ∷ cs) = elim (Option-cases (translation c)) [
    | inl e ↦ rw (export_constraints, e) (inl (e, refl))
    | inr (o, e) ↦
        rw (export_constraints, e)
          (in_front-IsSound c cs o (export_constraints types cs) e (export_constraints-IsSound cs))
  ]

  abbrev Told : String → String → StrategyDef → Exported → Type 0
  Told key slug s out = IsTold out.strategies out.warnings key slug s

  -- The step of the loop for one strategy, and what it keeps.
  abbrev after : String → String → ℕ → Outgoing → Exported → Exported
  after key slug order (dropped c) out = record out {
    warnings = out.warnings ++ left_out key slug c ∷ [];
  }
  after key slug order (converted us) out = record out {
    strategies = out.strategies ++ exported_strategy key slug order us ∷ [];
  }

  after-Told :
      (key slug : String) (order : ℕ) (s : StrategyDef) (r : Outgoing) (out : Exported)
      → IsSound s.constraints r
      → Told key slug s (after key slug order r out)
  after-Told key slug order s (converted us) out h =
      inl (Any-last (IsExported key slug s) out.strategies _ (refl, (refl, h)))
  after-Told key slug order s (dropped c) out h =
      let named =
        Any-map (λ (d : StrategyConstraint). (translation d ≡ none) × (c ≡ d))
          (λ (d : StrategyConstraint).
            (translation d ≡ none)
            × (no_unleash_operator key c.operator c.field_key
                ≡ no_unleash_operator key d.operator d.field_key))
          s.constraints
          (λ d k. (
            k.0,
            ap (λ (x : StrategyConstraint). no_unleash_operator key x.operator x.field_key) k.1,
          ))
          h in
      inr (Any-last (IsNamed key slug s) out.warnings _ (refl, (refl, named)))

  after_keeps :
      (key slug : String) (order : ℕ) (r : Outgoing) (out : Exported) (key' slug' : String)
      (s : StrategyDef)
      → Told key' slug' s out
      → Told key' slug' s (after key slug order r out)
  after_keeps key slug order (converted us) out key' slug' s (inl h) =
      inl (Any-append (IsExported key' slug' s) out.strategies _ h)
  after_keeps key slug order (converted us) out key' slug' s (inr h) = inr h
  after_keeps key slug order (dropped c) out key' slug' s (inl h) = inl h
  after_keeps key slug order (dropped c) out key' slug' s (inr h) =
      inr (Any-append (IsNamed key' slug' s) out.warnings _ h)

  abbrev next_order : ℕ → Outgoing → ℕ
  next_order order (dropped c) = order
  next_order order (converted us) = suc order

  step_of :
      (key slug : String) (order : ℕ) (s : StrategyDef) (strategies : List StrategyDef)
      (out : Exported) (r : Outgoing)
      → export_constraints types s.constraints ≡ r
      → export_strategies types key slug order (s ∷ strategies) out
        ≡ export_strategies types key slug
            (next_order order r)
            strategies
            (after key slug order r out)
  unfolding export_strategies
  step_of key slug order s strategies out (dropped c) e = rw (export_strategies, e) refl
  step_of key slug order s strategies out (converted us) e = rw (export_strategies, e) refl

  export_strategies_keeps :
      (key slug : String) (order : ℕ) (strategies : List StrategyDef) (out : Exported)
      (key' slug' : String) (s' : StrategyDef)
      → Told key' slug' s' out
      → Told key' slug' s' (export_strategies types key slug order strategies out)
  unfolding export_strategies
  export_strategies_keeps key slug order [] out key' slug' s' h = h
  export_strategies_keeps key slug order (s ∷ strategies) out key' slug' s' h =
      let r = export_constraints types s.constraints in
      subst (Told key' slug' s') (sym (step_of key slug order s strategies out r refl)) (
        export_strategies_keeps key slug (next_order order r) strategies
          (after key slug order r out) key' slug' s'
          (after_keeps key slug order r out key' slug' s' h))

  export_strategies-Told :
      (key slug : String) (order : ℕ) (strategies : List StrategyDef) (out : Exported)
      → All
          (λ s. Told key slug s (export_strategies types key slug order strategies out))
          strategies
  unfolding export_strategies
  export_strategies-Told key slug order [] out = tt
  export_strategies-Told key slug order (s ∷ strategies) out =
      let r = export_constraints types s.constraints in
      let next = after key slug order r out in
      subst (λ done. All (λ s'. Told key slug s' done) (s ∷ strategies))
        (sym (step_of key slug order s strategies out r refl))
        (
          export_strategies_keeps key slug (next_order order r) strategies next key slug s
              (after-Told key slug order s r out (export_constraints-IsSound s.constraints)),
          export_strategies-Told key slug (next_order order r) strategies next,
        )

  export_states_keeps :
      (key : String) (environments : Dictionary NativeState) (out : Exported) (key' slug' : String)
      (s' : StrategyDef)
      → Told key' slug' s' out
      → Told key' slug' s' (export_states types key environments out)
  unfolding export_states
  export_states_keeps key [] out key' slug' s' h = h
  export_states_keeps key ((slug, state) ∷ environments) out key' slug' s' h =
      export_states_keeps key environments _ key' slug' s' (
        export_strategies_keeps key slug 0 state.strategies (with_state key slug state out) key'
          slug' s' h)

  abbrev StatesTold : Exported → String → Dictionary NativeState → Type 0
  StatesTold out key environments =
      All (λ (e : String × NativeState). All (λ s. Told key e.0 s out) (e.1.strategies))
        environments

  export_states-Told :
      (key : String) (environments : Dictionary NativeState) (out : Exported)
      → StatesTold (export_states types key environments out) key environments
  unfolding export_states
  export_states-Told key [] out = tt
  export_states-Told key ((slug, state) ∷ environments) out =
      let first = with_state key slug state out in
      let next = export_strategies types key slug 0 state.strategies first in
      (
        All-map (λ s. Told key slug s next)
            (λ s. Told key slug s (export_states types key environments next)) state.strategies
            (λ s h. export_states_keeps key environments next key slug s h)
            (export_strategies-Told key slug 0 state.strategies first),
        export_states-Told key environments next,
      )

  export_flags_keeps :
      (flags : List NativeFlag) (out : Exported) (key' slug' : String) (s' : StrategyDef)
      → Told key' slug' s' out
      → Told key' slug' s' (export_flags types flags out)
  unfolding export_flags
  export_flags_keeps [] out key' slug' s' h = h
  export_flags_keeps (f ∷ flags) out key' slug' s' h =
      export_flags_keeps flags _ key' slug' s'
        (export_states_keeps f.key f.environments (with_flag f out) key' slug' s' h)

  export_flags-Told :
      (flags : List NativeFlag) (out : Exported)
      → All
          (λ (f : NativeFlag). StatesTold (export_flags types flags out) f.key f.environments)
          flags
  unfolding export_flags
  export_flags-Told [] out = tt
  export_flags-Told (f ∷ flags) out =
      let next = export_states types f.key f.environments (with_flag f out) in
      let last = export_flags types flags next in
      (
        All-map (λ (e : String × NativeState). All (λ s. Told f.key e.0 s next) (e.1.strategies))
            (λ (e : String × NativeState). All (λ s. Told f.key e.0 s last) (e.1.strategies))
            f.environments
            (λ e h.
              All-map (λ s. Told f.key e.0 s next) (λ s. Told f.key e.0 s last) (e.1.strategies)
                (λ s k. export_flags_keeps flags next f.key e.0 s k) h)
            (export_states-Told f.key f.environments (with_flag f out)),
        export_flags-Told flags next,
      )

-- An export to Unleash loses no strategy in silence. Each strategy of the document is in the export
-- under its flag and its environment, with the translations of all its constraints in their order,
-- or a warning for its environment names its flag and a constraint of it that has no translation.
pub from_native-IsTold :
    (document : NativeDocument)
    → All
        (λ (f : NativeFlag).
          All
            (λ (e : String × NativeState).
              All
                (IsTold
                  (types_by_key document.context_fields [])
                  (from_native document).0.feature_strategies
                  (from_native document).1
                  f.key
                  e.0)
                (e.1.strategies))
            f.environments)
        document.flags
unfolding from_native
from_native-IsTold document =
    export_flags-Told (types_by_key document.context_fields []) document.flags nothing_exported
