-- ===== src/Transfer/Project/Legal.antt =====
-- The strategies that `applyImport` of src/modules/transfer/transfer.service.ts writes, and the rules
-- of src/modules/strategies/constraint-rules.ts.
use flagraft.Prelude.{
  ℕ, suc, Bool, false, none, List, [], ◌∷◌, ◌++◌, String, ◌≡◌, ◌⊎◌, refl, sym, ap, ◌∙◌, subst, any,
  remove, inl, inr, All, Option-cases, Bool-cases, if◌then◌else◌, if_both, eq_refl,
}
use flagraft.Db.{Db, Project, TargetingStrategy}
use flagraft.Evaluate.Runtime.{Runtime}
use flagraft.Evaluate.Flag.{Dictionary, StrategyDef, lookup}
use flagraft.Client.State.{assign}
use flagraft.Strategies.Rules.{FieldRule, load_field_rules}
use flagraft.Strategies.Service.{belongs_to, new_rows, first_rejected}
use flagraft.Transfer.Document.{NativeField}
use flagraft.Transfer.Import.{ImportArgs, filter_strategies, Run, Target, Choices, is_field_of}
use flagraft.Transfer.Apply.{Setting, with_field, imported_field, update_flag, place_target}
use flagraft.Transfer.Project.{missing_fields, start, import_project, setting_of}
use flagraft.Transfer.Project.Rules.{first_rejected-assign, load_field_rules-append, free_key}
use flagraft.Transfer.Project.Keeps.{IsKept, add_fields-keeps, import_project_keeps}

module _ (rt : Runtime) (safe_regex : String → Bool) where
  abbrev IsLegalRow : Dictionary FieldRule → TargetingStrategy → Type 0
  IsLegalRow fields r = first_rejected rt safe_regex fields r.constraints ≡ none

  filter_strategies-All :
      (fields : Dictionary FieldRule) (environment : String) (strategies : List StrategyDef)
      → All
          (λ (s : StrategyDef). first_rejected rt safe_regex fields s.constraints ≡ none)
          (filter_strategies rt safe_regex fields environment strategies).kept
  unfolding filter_strategies
  filter_strategies-All fields environment [] = tt
  filter_strategies-All fields environment (s ∷ strategies) =
      let rest = filter_strategies-All fields environment strategies in
      elim (Option-cases (first_rejected rt safe_regex fields s.constraints)) [
        | inl legal ↦ rw (legal, filter_strategies, All) (legal, rest)
        | inr (reason, bad) ↦ rw (bad, filter_strategies) rest
      ]

  -- The rows before an import, or legal strategies.
  module _ (Old : TargetingStrategy → Type 0) where
    abbrev IsSound : Dictionary FieldRule → List TargetingStrategy → Type 0
    IsSound fields rows = All (λ r. Old r ⊎ IsLegalRow fields r) rows

    IsSound-assign :
        (fields : Dictionary FieldRule) (key : String) (rule : FieldRule)
        (rows : List TargetingStrategy)
        → lookup key fields ≡ none
        → IsSound fields rows
        → IsSound (assign key rule fields) rows
    IsSound-assign fields key rule [] free h = tt
    IsSound-assign fields key rule (r ∷ rows) free (h, hs) = (
      elim h [
        | inl old ↦ inl old
        | inr legal ↦
            inr (first_rejected-assign rt safe_regex fields key rule r.constraints free legal)
      ],
      IsSound-assign fields key rule rows free hs,
    )

    IsSound-append :
        (fields : Dictionary FieldRule) (xs ys : List TargetingStrategy)
        → IsSound fields xs
        → IsSound fields ys
        → IsSound fields (xs ++ ys)
    IsSound-append fields [] ys h k = k
    IsSound-append fields (x ∷ xs) ys (h, hs) k = (h, IsSound-append fields xs ys hs k)

    IsSound-remove :
        (fields : Dictionary FieldRule) (p : TargetingStrategy → Bool)
        (rows : List TargetingStrategy)
        → IsSound fields rows
        → IsSound fields (remove p rows)
    IsSound-remove fields p [] h = tt
    IsSound-remove fields p (r ∷ rows) (h, hs) = elim (Bool-cases (p r)) [
      | inl gone ↦ rw (gone, All) (IsSound-remove fields p rows hs)
      | inr stays ↦ rw (stays, All) (h, IsSound-remove fields p rows hs)
    ]

    new_rows-IsSound :
        (fields : Dictionary FieldRule) (fresh : ℕ → String) (flag_id environment_id : String)
        (i : ℕ) (strategies : List StrategyDef)
        → All
            (λ (s : StrategyDef). first_rejected rt safe_regex fields s.constraints ≡ none)
            strategies
        → IsSound fields (new_rows fresh flag_id environment_id i strategies)
    unfolding new_rows
    new_rows-IsSound fields fresh flag_id environment_id i [] h = tt
    new_rows-IsSound fields fresh flag_id environment_id i (s ∷ strategies) (h, hs) =
        (inr h, new_rows-IsSound fields fresh flag_id environment_id (suc i) strategies hs)

module _ (rt : Runtime) (safe_regex : String → Bool) (project_id : String)
    (Old : TargetingStrategy → Type 0) where
  abbrev IsCurrent : Db → Dictionary FieldRule → Type 0
  IsCurrent d fields =
      (fields ≡ load_field_rules d project_id)
      × IsSound rt safe_regex Old fields d.targeting_strategies

  All-left :
      (fields : Dictionary FieldRule) (rows : List TargetingStrategy)
      → All Old rows
      → IsSound rt safe_regex Old fields rows
  All-left fields [] h = tt
  All-left fields (r ∷ rows) (h, hs) = (inl h, All-left fields rows hs)

module _ (rt : Runtime) (safe_regex : String → Bool) (ids : Choices) (now : ℕ) (project_id : String)
    (args : ImportArgs) (db : Db) (project : Project) (Old : TargetingStrategy → Type 0) where
  abbrev setting : Setting
  setting = setting_of db project_id project

  field-IsCurrent :
      (f : NativeField) (run : Run)
      → any (is_field_of project_id f.key) run.db.context_fields ≡ false
      → IsCurrent rt safe_regex project_id Old run.db run.fields
      → IsCurrent rt safe_regex project_id Old
          (with_field ids now setting (imported_field ids now setting f) run).db
          (with_field ids now setting (imported_field ids now setting f) run).fields
  field-IsCurrent f run free h =
      let row = imported_field ids now setting f in
      let rule : FieldRule = record {
        key = row.key;
        type = row.type;
        enum_values = row.enum_values;
      } in
      (
        ap (assign row.key rule) (h.0)
            ∙ sym (load_field_rules-append project_id row run.db (eq_refl project_id)),
        IsSound-assign rt safe_regex Old run.fields row.key rule run.db.targeting_strategies
            (free_key project_id f.key run.db run.fields (h.0) free) (h.1),
      )

  target-IsSound :
      (exists : Bool) (flag_id : String) (t : Target) (run : Run)
      → IsCurrent rt safe_regex project_id Old run.db run.fields
      → IsSound rt safe_regex Old run.fields
          (place_target rt safe_regex ids now exists flag_id t run).db.targeting_strategies
  unfolding place_target
  target-IsSound exists flag_id t run h =
      let old = run.db.targeting_strategies in
      let found = filter_strategies rt safe_regex run.fields t.environment.slug t.strategies in
      let here = belongs_to flag_id t.environment.id in
      IsSound-append rt safe_regex Old run.fields (if exists then remove here old else old)
        (new_rows (ids.strategy_id flag_id t.environment.id) flag_id t.environment.id 0 found.kept)
        (if_both (IsSound rt safe_regex Old run.fields) exists
          (IsSound-remove rt safe_regex Old run.fields here old (h.1)) (h.1))
        (new_rows-IsSound rt safe_regex Old run.fields (ids.strategy_id flag_id t.environment.id)
          flag_id t.environment.id 0 found.kept
          (filter_strategies-All rt safe_regex run.fields t.environment.slug t.strategies))

  IsCurrent-kept :
      IsKept rt safe_regex ids now args setting (IsCurrent rt safe_regex project_id Old)
  unfolding update_flag place_target load_field_rules
  IsCurrent-kept = record {
    by_update = λ flag_id flag run h. h;
    by_flag = λ flag run h. h;
    by_target = λ exists flag_id t run h. (h.0, target-IsSound exists flag_id t run h);
  }

-- An import writes no strategy that `constraintError` refuses. Whatever held of each strategy of the
-- database before holds of each one after it, or `constraintError` has no objection to any constraint
-- of it by the project's context fields as they are then. The request schema of the strategy route,
-- which refuses empty values besides, is not part of it.
pub import_project_legal :
    (rt : Runtime) (safe_regex : String → Bool) (ids : Choices) (now : ℕ) (project_id : String)
    (args : ImportArgs) (db : Db) (Old : TargetingStrategy → Type 0)
    → All Old db.targeting_strategies
    → All
        (λ (r : TargetingStrategy).
          Old r
          ⊎ (first_rejected rt safe_regex
                (load_field_rules
                  (import_project rt safe_regex ids now project_id args db).1
                  project_id)
                r.constraints
              ≡ none))
        (import_project rt safe_regex ids now project_id args db).1.targeting_strategies
import_project_legal rt safe_regex ids now project_id args db Old olds =
    let before =
      All-left rt safe_regex project_id Old (load_field_rules db project_id) db.targeting_strategies
        olds in
    import_project_keeps rt safe_regex ids now project_id args db
      (λ d. IsSound rt safe_regex Old (load_field_rules d project_id) d.targeting_strategies)
      (IsCurrent rt safe_regex project_id Old) before
      (λ d fields h. subst (λ f. IsSound rt safe_regex Old f d.targeting_strategies) (h.0) (h.1))
      (λ p _ _.
        add_fields-keeps rt safe_regex ids now args (setting_of db project_id p)
          (IsCurrent rt safe_regex project_id Old)
          (record { by_field = field-IsCurrent rt safe_regex ids now project_id args db p Old })
          (missing_fields db project_id args.document.context_fields) (start db project_id)
          (refl, before))
      (λ p found. IsCurrent-kept rt safe_regex ids now project_id args db p Old)
