-- ===== src/Evaluate/Decision.antt =====
-- What `evaluateFlag` of src/modules/client/evaluate.ts decides, against descriptions that do not run
-- the loops.
use mathlib.Core.List.{Perm, Permᴰ}
use mathlib.Core.Logic.{∥∥₁_elim}
use flagraft.Prelude.{
  Bool, true, false, not, none, some, List, [], ◌∷◌, String, ◌≡◌, ◌≢◌, refl, ◌∙◌, ◌↔◌, ◌⊎◌, ap, inl,
  inr, arith, All, Any, all, sym,
}
use flagraft.Outcome.{Result, ok, err}
use flagraft.Evaluate.Runtime.{Runtime}
use flagraft.Evaluate.Constraint.{StrategyConstraint, match_constraint, match_typed, match_text}
use flagraft.Evaluate.Plain.{all_plain, decided, holds, some_holds, evaluate_flag-plain}
use flagraft.Evaluate.Flag.{
  StrategyDef, FlagState, Evaluation, EvalContext, FieldTypes, lookup, read, match_reading,
  and_then, all_match, strategy_matches, or_next, first_match, evaluate_strategies, evaluate_flag,
}

-- A flag is answered as on.
abbrev pub is_on : Result Evaluation → Bool
is_on (ok e) = e.enabled
is_on (err e) = false

and_then-true :
    (r rest : Result Bool) → (and_then r rest ≡ ok true) ↔ ((r ≡ ok true) × (rest ≡ ok true))
and_then-true (ok true) rest = (λ h. (refl, h), λ h. h.1)
and_then-true (ok false) rest = (λ h. cc, λ h. cc (h.0))
and_then-true (err e) rest = (λ h. cc, λ h. cc (h.0))

and_then-false :
    (r rest : Result Bool)
    → (and_then r rest ≡ ok false) ↔ ((r ≡ ok false) ⊎ ((r ≡ ok true) × (rest ≡ ok false)))
and_then-false (ok true) rest = (λ h. inr (refl, h), λ h. elim h [ inl e ↦ cc e | inr k ↦ k.1 ])
and_then-false (ok false) rest = (λ h. inl refl, λ h. refl)
and_then-false (err e) rest = (λ h. cc, λ h. elim h [ inl k ↦ cc k | inr k ↦ cc (k.0) ])

or_next-is_on :
    (r : Result Bool) (rest : Result Evaluation)
    → (is_on (or_next r rest) ≡ true) ↔ ((r ≡ ok true) ⊎ ((r ≡ ok false) × (is_on rest ≡ true)))
or_next-is_on (ok true) rest = (λ h. inl refl, λ h. refl)
or_next-is_on (ok false) rest = (λ h. inr (refl, h), λ h. elim h [ inl e ↦ cc e | inr k ↦ k.1 ])
or_next-is_on (err e) rest = (λ h. cc, λ h. elim h [ inl k ↦ cc k | inr k ↦ cc (k.0) ])

module _ (rt : Runtime) (field_types : FieldTypes) (context : EvalContext) where
  abbrev tested : StrategyConstraint → Result Bool
  tested c = match_reading rt c (read c.field_key field_types) (read c.field_key context)

  -- The constraint holds of the context.
  abbrev pub Holds : StrategyConstraint → Type 0
  Holds c = tested c ≡ ok true

  -- Some constraint does not hold, and all before it do.
  abbrev pub IsMissed : List StrategyConstraint → Type 0
  IsMissed [] = ⊥
  IsMissed (c ∷ cs) = (tested c ≡ ok false) ⊎ (Holds c × IsMissed cs)

  -- All constraints of some strategy hold, and the strategies before it are missed.
  abbrev pub Targeted : List StrategyDef → Type 0
  Targeted [] = ⊥
  Targeted (s ∷ ss) = All Holds s.constraints ⊎ (IsMissed s.constraints × Targeted ss)

  all_match-true :
      (cs : List StrategyConstraint)
      → (all_match rt cs field_types context ≡ ok true) ↔ All Holds cs
  unfolding all_match
  all_match-true [] = (λ h. tt, λ h. refl)
  all_match-true (c ∷ cs) =
      let (to, from) = and_then-true (tested c) (all_match rt cs field_types context) in
      let (over, back) = all_match-true cs in
      (λ h. ((to h).0, over ((to h).1)), λ h. from (h.0, back (h.1)))

  all_match-false :
      (cs : List StrategyConstraint)
      → (all_match rt cs field_types context ≡ ok false) ↔ IsMissed cs
  unfolding all_match
  all_match-false [] = (λ h. cc, λ h. absurd h)
  all_match-false (c ∷ cs) =
      let (to, from) = and_then-false (tested c) (all_match rt cs field_types context) in
      let (over, back) = all_match-false cs in
      (
        λ h. elim (to h) [ inl e ↦ inl e | inr k ↦ inr (k.0, over (k.1)) ],
        λ h. elim h [ inl e ↦ from (inl e) | inr k ↦ from (inr (k.0, back (k.1))) ],
      )

  first_match_iff :
      (ss : List StrategyDef) → (is_on (first_match rt ss field_types context) ≡ true) ↔ Targeted ss
  unfolding first_match strategy_matches
  first_match_iff [] = (λ h. cc, λ h. absurd h)
  first_match_iff (s ∷ ss) =
      let (to, from) =
        or_next-is_on (strategy_matches rt s field_types context)
          (first_match rt ss field_types context) in
      let (met, unmet) = all_match-true s.constraints in
      let (missed, unmissed) = all_match-false s.constraints in
      let (over, back) = first_match_iff ss in
      (
        λ h. elim (to h) [ inl e ↦ inl (met e) | inr k ↦ inr (missed (k.0), over (k.1)) ],
        λ h. elim h [
          | inl e ↦ from (inl (unmet e))
          | inr k ↦ from (inr (unmissed (k.0), back (k.1)))
        ],
      )

  enabled_iff_of :
      (b : Bool) (ss : List StrategyDef)
      → (is_on (evaluate_flag rt (record { enabled = b; strategies = ss }) field_types context)
          ≡ true)
        ↔ ((b ≡ true) × ((ss ≡ []) ⊎ Targeted ss))
  unfolding evaluate_flag evaluate_strategies
  enabled_iff_of false ss = (λ h. cc, λ h. cc (h.0))
  enabled_iff_of true [] = (λ _. (refl, inl refl), λ _. refl)
  enabled_iff_of true (s ∷ ss) =
      let (to, from) = first_match_iff (s ∷ ss) in
      (λ h. (refl, inr (to h)), λ h. elim (h.1) [ inl e ↦ cc e | inr t ↦ from t ])

-- A flag is answered as on exactly when its environment switch is on and it has no strategy at all,
-- or some strategy all of whose constraints hold of the context, where each strategy before it has a
-- constraint that does not hold behind constraints that do. What a name of `Object.prototype` reads
-- in place of a missing field counts as the source counts it, a throw included.
pub evaluate_flag-enabled_iff :
    (rt : Runtime) (field_types : FieldTypes) (context : EvalContext) (st : FlagState)
    → (is_on (evaluate_flag rt st field_types context) ≡ true) ↔ (
        (st.enabled ≡ true)
        × ((st.strategies ≡ []) ⊎ Targeted rt field_types context st.strategies))
evaluate_flag-enabled_iff rt field_types context st =
    enabled_iff_of rt field_types context st.enabled st.strategies

absent-holds :
    (rt : Runtime) (field_types : FieldTypes) (context : EvalContext) (cs : List StrategyConstraint)
    → Any (λ c. lookup c.field_key context ≡ none) cs
    → all (holds rt field_types context) cs ≡ false
unfolding match_constraint
absent-holds rt field_types context [] h = absurd h
absent-holds rt field_types context (c ∷ cs) (inl e) = rw e refl
absent-holds rt field_types context (c ∷ cs) (inr h) =
    ground (arith, absent-holds rt field_types context cs h)

absent-some_holds :
    (rt : Runtime) (field_types : FieldTypes) (context : EvalContext) (ss : List StrategyDef)
    → All (λ (s : StrategyDef). Any (λ c. lookup c.field_key context ≡ none) s.constraints) ss
    → some_holds rt field_types context ss ≡ false
absent-some_holds rt field_types context [] h = refl
absent-some_holds rt field_types context (s ∷ ss) (h, hs) =
    rw (absent-holds rt field_types context s.constraints h)
      (absent-some_holds rt field_types context ss hs)

decided_unmatched :
    (b : Bool) (ss : List StrategyDef) → ss ≢ [] → (decided b false ss).enabled ≡ false
decided_unmatched false ss h = refl
decided_unmatched true [] h = absurd (h refl)
decided_unmatched true (s ∷ ss) h = refl

-- Fail closed: a flag with strategies, none of which tests a name of `Object.prototype` and each of
-- which tests a field that the context does not have, is answered, and as off, whatever its switch.
pub evaluate_flag_absent_fields :
    (rt : Runtime) (field_types : FieldTypes) (context : EvalContext) (st : FlagState)
    → st.strategies ≢ []
    → all_plain st.strategies ≡ true
    → All
        (λ (s : StrategyDef). Any (λ c. lookup c.field_key context ≡ none) s.constraints)
        st.strategies
    → (e : Evaluation) × (evaluate_flag rt st field_types context ≡ ok e) × (e.enabled ≡ false)
evaluate_flag_absent_fields rt field_types context st nonempty plain missing = (
  decided st.enabled false st.strategies,
  evaluate_flag-plain rt field_types context st.enabled st.strategies plain
      ∙ ap (λ m. ok (decided st.enabled m st.strategies))
          (absent-some_holds rt field_types context st.strategies missing),
  decided_unmatched st.enabled st.strategies nonempty,
)

some_holds-permᴰ :
    (rt : Runtime) (field_types : FieldTypes) (context : EvalContext) {ss ts : List StrategyDef}
    → Permᴰ ss ts
    → some_holds rt field_types context ss ≡ some_holds rt field_types context ts
some_holds-permᴰ rt field_types context Permᴰ.nil = refl
some_holds-permᴰ rt field_types context (Permᴰ.cons e d) =
    rw (e, some_holds-permᴰ rt field_types context d)
some_holds-permᴰ rt field_types context (Permᴰ.swap e d) = rw (e, d) (ground arith)
some_holds-permᴰ rt field_types context (Permᴰ.trans d d') =
    some_holds-permᴰ rt field_types context d ∙ some_holds-permᴰ rt field_types context d'

decided-permᴰ :
    (b m : Bool) {ss ts : List StrategyDef} → Permᴰ ss ts → decided b m ss ≡ decided b m ts
decided-permᴰ b m Permᴰ.nil = refl
decided-permᴰ false m d = refl
decided-permᴰ true true (Permᴰ.cons e d) = refl
decided-permᴰ true false (Permᴰ.cons e d) = refl
decided-permᴰ true true (Permᴰ.swap e d) = refl
decided-permᴰ true false (Permᴰ.swap e d) = refl
decided-permᴰ b m (Permᴰ.trans d d') = decided-permᴰ b m d ∙ decided-permᴰ b m d'

evaluation_set : IsSet Evaluation
evaluation_set = hlevel

-- The order of the strategies does not change the answer or its reason, where none of them tests a
-- name of `Object.prototype`.
pub evaluate_flag-perm :
    (rt : Runtime) (field_types : FieldTypes) (context : EvalContext) (b : Bool)
    (ss ts : List StrategyDef)
    → Perm ss ts
    → all_plain ss ≡ true
    → all_plain ts ≡ true
    → evaluate_flag rt (record { enabled = b; strategies = ss }) field_types context
      ≡ evaluate_flag rt (record { enabled = b; strategies = ts }) field_types context
evaluate_flag-perm rt field_types context b ss ts p plain plain' =
    let matched = some_holds rt field_types context in
    evaluate_flag-plain rt field_types context b ss plain
    ∙ (ap (λ e. ok e)
          (∥∥₁_elim p (evaluation_set (decided b (matched ss) ss) (decided b (matched ts) ts)) (λ d.
            ap (λ m. decided b m ss) (some_holds-permᴰ rt field_types context d)
            ∙ decided-permᴰ b (matched ts) d))
        ∙ sym (evaluate_flag-plain rt field_types context b ts plain'))

-- On a text or enum field that the context has, "notIn" is the negation of "in" with the same
-- values.
pub match_constraint-not_in :
    (rt : Runtime) (key type value : String) (values : List String)
    → (type ≡ "string") ⊎ (type ≡ "enum")
    → match_constraint rt
        (record { field_key = key; operator = "notIn"; values = values })
        (some type)
        (some value)
      ≡ not (
          match_constraint rt
            (record { field_key = key; operator = "in"; values = values })
            (some type)
            (some value))
unfolding match_constraint match_typed match_text
match_constraint-not_in rt key type value values (inl e) = rw e
match_constraint-not_in rt key type value values (inr e) = rw e
