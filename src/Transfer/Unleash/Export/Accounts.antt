-- ===== src/Transfer/Unleash/Export/Accounts.antt =====
-- The number of strategies that `fromNative` of src/modules/transfer/external/unleash.adapter.ts
-- exports, and of those that it warns of.
use flagraft.Prelude.{
  ℕ, suc, ◌+◌, List, [], ◌∷◌, ◌++◌, String, ◌≡◌, ◌⊎◌, refl, arith, length, length-append, inl, inr,
}
use flagraft.Evaluate.Constraint.{StrategyConstraint}
use flagraft.Evaluate.Flag.{Dictionary, StrategyDef}
use flagraft.Transfer.Document.{NativeState, NativeFlag, NativeDocument}
use flagraft.Transfer.Unleash.Document.{UnleashConstraint}
use flagraft.Transfer.Unleash.Export.{
  Exported, types_by_key, Outgoing, converted, dropped, export_constraints, exported_strategy,
  left_out, export_strategies, with_state, export_states, with_flag, export_flags, nothing_exported,
  from_native,
}

-- The strategies of a document.
abbrev pub count_strategies : Dictionary NativeState → ℕ
count_strategies [] = 0
count_strategies ((slug, state) ∷ environments) =
    length state.strategies + count_strategies environments

abbrev pub count_all : List NativeFlag → ℕ
count_all [] = 0
count_all (f ∷ flags) = count_strategies f.environments + count_all flags

abbrev told : Exported → ℕ
told out = length out.strategies + length out.warnings

Outgoing-cases :
    (r : Outgoing)
    → ((c : StrategyConstraint) × (r ≡ dropped c))
      ⊎ ((constraints : List UnleashConstraint) × (r ≡ converted constraints))
Outgoing-cases (converted constraints) = inr (constraints, refl)
Outgoing-cases (dropped c) = inl (c, refl)

module _ (types : Dictionary String) where
  export_strategies-told :
      (flag_key slug : String) (sort_order : ℕ) (strategies : List StrategyDef) (out : Exported)
      → told (export_strategies types flag_key slug sort_order strategies out)
        ≡ length strategies + told out
  unfolding export_strategies
  export_strategies-told flag_key slug sort_order [] out = ground arith
  export_strategies-told flag_key slug sort_order (s ∷ strategies) out =
      elim (Outgoing-cases (export_constraints types s.constraints)) [
        | inl (c, e) ↦
            rw
              (
                e,
                export_strategies,
                export_strategies-told flag_key slug sort_order strategies
                    (record out { warnings = out.warnings ++ left_out flag_key slug c ∷ [] }),
                length-append out.warnings (left_out flag_key slug c ∷ []),
              )
              (ground arith)
        | inr (constraints, e) ↦
            let new = exported_strategy flag_key slug sort_order constraints in
            rw
              (
                e,
                export_strategies,
                export_strategies-told flag_key slug (suc sort_order) strategies
                    (record out { strategies = out.strategies ++ new ∷ [] }),
                length-append out.strategies (new ∷ []),
              )
              (ground arith)
      ]

  export_states-told :
      (flag_key : String) (environments : Dictionary NativeState) (out : Exported)
      → told (export_states types flag_key environments out)
        ≡ count_strategies environments + told out
  unfolding export_states
  export_states-told flag_key [] out = ground arith
  export_states-told flag_key ((slug, state) ∷ environments) out = ground (
    arith,
    export_states-told flag_key environments (
        export_strategies types flag_key slug 0 state.strategies
          (with_state flag_key slug state out)),
    export_strategies-told flag_key slug 0 state.strategies (with_state flag_key slug state out),
  )

  export_flags-told :
      (flags : List NativeFlag) (out : Exported)
      → told (export_flags types flags out) ≡ count_all flags + told out
  unfolding export_flags
  export_flags-told [] out = ground arith
  export_flags-told (f ∷ flags) out = ground (
    arith,
    export_flags-told flags (export_states types f.key f.environments (with_flag f out)),
    export_states-told f.key f.environments (with_flag f out),
  )

-- An export to Unleash has as many strategies and warnings together as the document has strategies.
pub from_native_accounts :
    (document : NativeDocument)
    → length (from_native document).0.feature_strategies + length (from_native document).1
      ≡ count_all document.flags
unfolding from_native
from_native_accounts document = ground (
  arith,
  export_flags-told (types_by_key document.context_fields []) document.flags nothing_exported,
)
