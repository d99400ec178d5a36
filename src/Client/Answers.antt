-- ===== src/Client/Answers.antt =====
-- The answers for one flag and for all flags: `evaluateAll` and `evaluateOne` of
-- src/modules/client/client.service.ts, with `findInBulk` of packages/sdk-js/src/client.ts, which
-- reads the first kind of answer in place of the second.
use flagraft.Prelude.{
  Bool, true, false, Option, none, some, List, [], ◌∷◌, String, ◌==◌, ◌≡◌, refl, ◌↔◌, arith, find,
  option_map, Option-cases, inl, inr, or_else, all, map, Bool-cases, ap, subst,
}
use flagraft.Outcome.{Result, ok, err, app_error, Failure}
use flagraft.Evaluate.Runtime.{Runtime}
use flagraft.Evaluate.Flag.{
  Dictionary, lookup, EvalContext, EvalReason, disabled, FlagState, FieldTypes, evaluate_flag,
  Evaluation, Reading, absent, own, inherited, is_plain, read,
}
use flagraft.Evaluate.Plain.{
  all_plain, decided, some_holds, evaluate_flag-plain, and_both, read-plain,
}
use flagraft.Client.State.{EnvState}

pub record Feature : Type 0 where
  pub name : String
  pub enabled : Bool

pub record EvaluatedFeature : Type 0 where
  pub name : String
  pub enabled : Bool
  pub reason : EvalReason

abbrev pub flag_not_found : Failure
flag_not_found = app_error "Flag not found" 404 "NotFound"

abbrev answer_of : String → Result Evaluation → Result EvaluatedFeature
answer_of flag_key (ok e) = ok (record { name = flag_key; enabled = e.enabled; reason = e.reason })
answer_of flag_key (err e) = err e

-- `map` ends with the first call that throws.
abbrev in_list : String → Result Evaluation → Result (List Feature) → Result (List Feature)
in_list name (ok e) (ok features) = ok (record { name = name; enabled = e.enabled } ∷ features)
in_list name (ok e) (err thrown) = err thrown
in_list name (err thrown) rest = err thrown

module _ (rt : Runtime) where
  unfoldable pub evaluate_entries :
      Dictionary FlagState → FieldTypes → EvalContext → Result (List Feature)
  unfolding evaluate_flag
  evaluate_entries [] field_types context = ok []
  evaluate_entries ((name, state) ∷ entries) field_types context =
      let rest = evaluate_entries entries field_types context in
      in_list name (evaluate_flag rt state field_types context) rest

  unfoldable pub evaluate_all : EnvState → EvalContext → Result (List Feature)
  unfolding evaluate_entries
  evaluate_all state context = evaluate_entries state.flags state.field_types context

  -- `!state.enabled`: what is inherited has no property of that name.
  unfoldable pub evaluate_value :
      Reading FlagState → FieldTypes → EvalContext → Option (Result Evaluation)
  unfolding evaluate_flag
  evaluate_value absent field_types context = none
  evaluate_value (own state) field_types context = some (evaluate_flag rt state field_types context)
  evaluate_value (inherited text) field_types context =
      some (ok (record { enabled = false; reason = disabled }))

  unfoldable pub evaluate_one : EnvState → String → EvalContext → Result EvaluatedFeature
  unfolding evaluate_value read
  evaluate_one state flag_key context =
      elim (evaluate_value (read flag_key state.flags) state.field_types context) [
        | none ↦ err flag_not_found
        | some result ↦ answer_of flag_key result
      ]

-- `features.find((f) => f.name === flagKey)?.enabled`
unfoldable pub find_in_bulk : List Feature → String → Option Bool
find_in_bulk features flag_key =
    option_map (λ (f : Feature). f.enabled) (find (λ f. f.name == flag_key) features)

-- No constraint of any flag tests a name of `Object.prototype`.
abbrev pub plain_flags : Dictionary FlagState → Bool
plain_flags entries = all (λ (e : String × FlagState). all_plain e.1.strategies) entries

module _ (rt : Runtime) (field_types : FieldTypes) (context : EvalContext) where
  abbrev verdict : FlagState → Evaluation
  verdict st = decided st.enabled (some_holds rt field_types context st.strategies) st.strategies

  verdict_lem :
      (st : FlagState)
      → all_plain st.strategies ≡ true
      → evaluate_flag rt st field_types context ≡ ok (verdict st)
  verdict_lem st plain = evaluate_flag-plain rt field_types context st.enabled st.strategies plain

  abbrev listed : Dictionary FlagState → List Feature
  listed entries =
      map (λ (e : String × FlagState). record { name = e.0; enabled = (verdict e.1).enabled })
        entries

  evaluate_entries-plain :
      (entries : Dictionary FlagState)
      → plain_flags entries ≡ true
      → evaluate_entries rt entries field_types context ≡ ok (listed entries)
  unfolding evaluate_entries
  evaluate_entries-plain [] plain = refl
  evaluate_entries-plain ((name, st) ∷ entries) plain =
      let both = and_both (all_plain st.strategies) (plain_flags entries) plain in
      rw (evaluate_entries, verdict_lem st both.0, evaluate_entries-plain entries both.1) refl

  find_in_bulk-listed :
      (entries : Dictionary FlagState) (key : String)
      → find_in_bulk (listed entries) key
        ≡ option_map (λ (st : FlagState). (verdict st).enabled) (lookup key entries)
  unfolding find_in_bulk lookup
  find_in_bulk-listed [] key = refl
  find_in_bulk-listed ((name, st) ∷ entries) key = elim (Bool-cases (name == key)) [
    | inl e ↦ rw e refl
    | inr e ↦ rw e (find_in_bulk-listed entries key)
  ]

  plain-found :
      (entries : Dictionary FlagState) (key : String) (st : FlagState)
      → plain_flags entries ≡ true
      → lookup key entries ≡ some st
      → all_plain st.strategies ≡ true
  unfolding lookup
  plain-found [] key st plain h = cc
  plain-found ((name, t) ∷ entries) key st plain h =
      let both = and_both (all_plain t.strategies) (plain_flags entries) plain in
      elim (Bool-cases (name == key)) [
        | inl e ↦
            let same : some t ≡ some st = rw e at h in
            subst (λ (u : FlagState). all_plain u.strategies ≡ true) (ap (λ o. or_else o t) same)
              both.0
        | inr e ↦ plain-found entries key st both.1 (rw e at h)
      ]

module _ (rt : Runtime) (state : EnvState) (context : EvalContext) (key : String)
    (plain : is_plain key ≡ true) where
  evaluate_one_found :
      (st : FlagState)
      → lookup key state.flags ≡ some st
      → all_plain st.strategies ≡ true
      → evaluate_one rt state key context
        ≡ ok (record {
          name = key;
          enabled = (verdict rt state.field_types context st).enabled;
          reason = (verdict rt state.field_types context st).reason;
        })
  unfolding evaluate_one evaluate_value
  evaluate_one_found st h fields =
      rw
        (
          evaluate_one,
          read-plain key state.flags plain,
          h,
          verdict_lem rt state.field_types context st fields,
        )
        refl

  evaluate_one_missing :
      lookup key state.flags ≡ none → evaluate_one rt state key context ≡ err flag_not_found
  unfolding evaluate_one evaluate_value
  evaluate_one_missing h = rw (evaluate_one, read-plain key state.flags plain, h) refl

-- Where no constraint tests a name of `Object.prototype`, the list of all features is answered, and
-- for a key that is no such name either, it has the key with a value exactly when the endpoint for one
-- flag answers with that value, and does not have it exactly when that endpoint answers 404.
pub bulk_agrees :
    (rt : Runtime) (state : EnvState) (context : EvalContext) (key : String) (b : Bool)
    → plain_flags state.flags ≡ true
    → is_plain key ≡ true
    → (features : List Feature) × (evaluate_all rt state context ≡ ok features)
      × (((find_in_bulk features key ≡ some b) ↔ (
            (e : EvaluatedFeature) × (evaluate_one rt state key context ≡ ok e) × (e.enabled ≡ b)))
          × ((find_in_bulk features key ≡ none)
              ↔ (evaluate_one rt state key context ≡ err flag_not_found)))
unfolding evaluate_all
bulk_agrees rt state context key b fields plain =
    let field_types = state.field_types in
    (
      listed rt field_types context state.flags,
      evaluate_entries-plain rt field_types context state.flags fields,
      elim (Option-cases (lookup key state.flags)) [
        | inl e ↦
            rw
              (
                find_in_bulk-listed rt field_types context state.flags key,
                evaluate_one_missing rt state context key plain e,
                e,
              )
              ((λ p. cc, λ q. cc (q.1)), (λ _. refl, λ _. refl))
        | inr (st, e) ↦
            let allowed = plain-found rt field_types context state.flags key st fields e in
            rw
              (
                find_in_bulk-listed rt field_types context state.flags key,
                evaluate_one_found rt state context key plain st e allowed,
                e,
              )
              ((λ p. (_, refl, ground arith), λ q. ground (arith, q.1, q.2)), (λ p. cc, λ p. cc))
      ],
    )
