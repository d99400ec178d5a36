-- ===== src/Transfer/Project/Rules.antt =====
-- The rules of a project when a context field is added: `loadFieldRules` of
-- src/modules/strategies/strategy.service.ts and the inserts of `applyImport`.
use flagraft.Prelude.{
  Bool, true, false, none, List, [], ◌∷◌, ◌++◌, String, ◌==◌, ◌≡◌, refl, sym, ◌∙◌, subst, arith,
  any, select, inl, inr, Option-cases, Bool-cases, eq_iff, select-append,
}
use flagraft.Db.{Db, ContextField}
use flagraft.Evaluate.Runtime.{Runtime}
use flagraft.Evaluate.Constraint.{StrategyConstraint}
use flagraft.Evaluate.Flag.{Dictionary, lookup}
use flagraft.Client.State.{assign}
use flagraft.Strategies.Rules.{FieldRule, constraint_error, rules_of, load_field_rules}
use flagraft.Strategies.Service.{first_rejected}
use flagraft.Transfer.Import.{is_field_of}
use flagraft.Transfer.Import.Targets.{lookup-assign_ne}

rules_of-append :
    (rows : List ContextField) (row : ContextField) (rules : Dictionary FieldRule)
    → rules_of (rows ++ row ∷ []) rules
      ≡ assign row.key
          (record { key = row.key; type = row.type; enum_values = row.enum_values })
          (rules_of rows rules)
unfolding rules_of
rules_of-append [] row rules = refl
rules_of-append (r ∷ rows) row rules =
    rules_of-append rows row
      (assign r.key (record { key = r.key; type = r.type; enum_values = r.enum_values }) rules)

-- A key that no row of the project has is not among the rules.
lookup-rules_of_free :
    (project_id key : String) (rows : List ContextField) (rules : Dictionary FieldRule)
    → any (is_field_of project_id key) rows ≡ false
    → lookup key (rules_of (select (λ f. f.project_id == project_id) rows) rules) ≡ lookup key rules
unfolding rules_of
lookup-rules_of_free project_id key [] rules free = refl
lookup-rules_of_free project_id key (r ∷ rows) rules free =
    elim (Bool-cases (r.project_id == project_id)) [
      | inr other ↦ rw other (lookup-rules_of_free project_id key rows rules (ground arith))
      | inl own ↦
          let rule : FieldRule = record {
            key = r.key;
            type = r.type;
            enum_values = r.enum_values;
          } in
          rw own (
            lookup-rules_of_free project_id key rows (assign r.key rule rules) (ground arith)
            ∙ lookup-assign_ne key r.key rule rules (ground arith))
    ]

module _ (rt : Runtime) (safe_regex : String → Bool) where
  constraint_error-assign :
      (fields : Dictionary FieldRule) (key : String) (rule : FieldRule) (c : StrategyConstraint)
      → lookup key fields ≡ none
      → constraint_error rt safe_regex fields c ≡ none
      → constraint_error rt safe_regex (assign key rule fields) c ≡ none
  unfolding constraint_error
  constraint_error-assign fields key rule c free h = elim (Bool-cases (key == c.field_key)) [
    | inr other ↦ rw (constraint_error, lookup-assign_ne c.field_key key rule fields other) h
    | inl own ↦
        let absent : lookup c.field_key fields ≡ none =
          subst (λ k. lookup k fields ≡ none) ((eq_iff key c.field_key).0 own) free in
        ground (arith, absent)
  ]

  -- A new rule leaves legal what was legal.
  pub first_rejected-assign :
      (fields : Dictionary FieldRule) (key : String) (rule : FieldRule)
      (cs : List StrategyConstraint)
      → lookup key fields ≡ none
      → first_rejected rt safe_regex fields cs ≡ none
      → first_rejected rt safe_regex (assign key rule fields) cs ≡ none
  unfolding first_rejected
  first_rejected-assign fields key rule [] free h = refl
  first_rejected-assign fields key rule (c ∷ cs) free h =
      elim (Option-cases (constraint_error rt safe_regex fields c)) [
        | inl legal ↦
            rw (first_rejected, constraint_error-assign fields key rule c free legal)
              (first_rejected-assign fields key rule cs free (ground (arith, legal)))
        | inr (reason, bad) ↦ ground (arith, bad)
      ]

module _ (project_id : String) where
  pub load_field_rules-append :
      (row : ContextField) (d : Db)
      → (row.project_id == project_id) ≡ true
      → load_field_rules (record d { context_fields = d.context_fields ++ row ∷ [] }) project_id
        ≡ assign row.key
            (record { key = row.key; type = row.type; enum_values = row.enum_values })
            (load_field_rules d project_id)
  unfolding load_field_rules
  load_field_rules-append row d own =
      rw
        (
          select-append (λ (f : ContextField). f.project_id == project_id) d.context_fields
              (row ∷ []),
          own,
        )
        (rules_of-append
          (select (λ (f : ContextField). f.project_id == project_id) d.context_fields) row [])

  pub free_key :
      (key : String) (d : Db) (fields : Dictionary FieldRule)
      → fields ≡ load_field_rules d project_id
      → any (is_field_of project_id key) d.context_fields ≡ false
      → lookup key fields ≡ none
  unfolding load_field_rules lookup
  free_key key d fields same free =
      subst (λ f. lookup key f ≡ none) (sym same)
        (lookup-rules_of_free project_id key d.context_fields [] free)
