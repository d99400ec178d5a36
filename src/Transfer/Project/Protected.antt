-- ===== src/Transfer/Project/Protected.antt =====
-- Protected environments behind the approval flow, in `applyImport` of
-- src/modules/transfer/transfer.service.ts.
use flagraft.Prelude.{
  ℕ, Bool, true, false, ◌&&◌, Option, some, List, [], ◌∷◌, ◌++◌, String, ◌==◌, ◌≡◌, refl, sym, ap,
  ◌∙◌, subst, arith, select, update, map, inl, inr, All, Bool-cases, eq_iff, select-append,
}
use mathlib.Core.List.{append-nil}
use flagraft.Db.{Db, Project, Environment, FlagEnvironment, DefaultFlagState}
use flagraft.Db.Find.{project_at}
use flagraft.Evaluate.Runtime.{Runtime}
use flagraft.Evaluate.Flag.{Dictionary, lookup}
use flagraft.Client.State.{assign}
use flagraft.Workspace.Environments.{in_project}
use flagraft.Flags.Create.{initial_enabled}
use flagraft.Flags.Create.Protected.{environment_by_id, is_on_in_protected}
use flagraft.Strategies.Rules.{FieldRule}
use flagraft.Transfer.Document.{NativeFlag}
use flagraft.Transfer.Import.{
  ImportArgs, by_slug, Target, Choices, is_writable, enabled_by_slug, set_states, imported_state,
}
use flagraft.Transfer.Import.Targets.{
  lookup-assign_ne, by_slug-All, targets-All, select-All, All-select, All-both,
}
use flagraft.Transfer.Apply.{needs_approval, Setting, update_flag, place_target}
use flagraft.Transfer.Project.{missing_fields, start, targets_of, import_project, setting_of}
use flagraft.Transfer.Project.Keeps.{IsKept, add_fields-keeps, import_project_keeps}

-- Rows outside the test before and after a write do not show in it.
select-update_off :
    {A : Type 0} (p q : A → Bool) (f : A → A) (rows : List A)
    → ((r : A) → q r ≡ true → p r ≡ false)
    → ((r : A) → q r ≡ true → p (f r) ≡ false)
    → select p (update q f rows) ≡ select p rows
select-update_off p q f [] off off' = refl
select-update_off p q f (r ∷ rows) off off' =
    ground (arith, select-update_off p q f rows off off', off r, off' r)

-- In its database, an environment's id and its slug find just it.
abbrev IsKeyed : Db → Dictionary Environment → Environment → Type 0
IsKeyed db slugs e = (environment_by_id db e.id ≡ some e) × (lookup e.slug slugs ≡ some e)

abbrev IsOpen : Db → Dictionary Environment → Target → Type 0
IsOpen db slugs t = (is_writable true t ≡ true) × IsKeyed db slugs t.environment

module _ (db : Db) (slugs : Dictionary Environment) where
  -- A row of an open environment is not among those that are on in a protected one.
  open_off :
      (t : Target) (r : FlagEnvironment)
      → IsOpen db slugs t
      → (r.environment_id == t.environment.id) ≡ true
      → is_on_in_protected db r ≡ false
  open_off t r (writable, (found, _)) same =
      let found' : environment_by_id db r.environment_id ≡ some t.environment =
        subst (λ id. environment_by_id db id ≡ some t.environment)
          (sym ((eq_iff r.environment_id t.environment.id).0 same)) found in
      rw found' (ground arith)

  set_states-off :
      (now : ℕ) (flag_id : String) (targets : List Target) (rows : List FlagEnvironment)
      → All (IsOpen db slugs) targets
      → select (is_on_in_protected db) (set_states now flag_id targets rows)
        ≡ select (is_on_in_protected db) rows
  unfolding set_states
  set_states-off now flag_id [] rows h = refl
  set_states-off now flag_id (t ∷ targets) rows (h, hs) =
      set_states-off now flag_id targets _ hs
      ∙ select-update_off (is_on_in_protected db)
          (λ (r : FlagEnvironment). r.flag_id == flag_id && r.environment_id == t.environment.id)
          (λ (r : FlagEnvironment). record r { enabled = t.enabled; updated_at = now }) rows
          (λ r q. open_off t r h (ground arith))
          (λ r q. open_off t (record r { enabled = t.enabled; updated_at = now }) h (ground arith))

  -- No target gives the slug of a protected environment.
  enabled_by_slug-protected :
      (e : Environment) (targets : List Target) (enabled : Dictionary Bool)
      → IsKeyed db slugs e
      → e.protected ≡ true
      → All (IsOpen db slugs) targets
      → lookup e.slug (enabled_by_slug targets enabled) ≡ lookup e.slug enabled
  unfolding enabled_by_slug
  enabled_by_slug-protected e [] enabled keyed shut h = refl
  enabled_by_slug-protected e (t ∷ targets) enabled keyed shut (h, hs) =
      enabled_by_slug-protected e targets (assign t.environment.slug t.enabled enabled) keyed shut
        hs
      ∙ elim (Bool-cases (t.environment.slug == e.slug)) [
        | inr ne ↦ lookup-assign_ne e.slug t.environment.slug t.enabled enabled ne
        | inl same ↦
            let its : lookup e.slug slugs ≡ some t.environment =
              subst (λ s. lookup s slugs ≡ some t.environment)
                ((eq_iff t.environment.slug e.slug).0 same) (h.1.1) in
            let one : t.environment ≡ e = ground (arith, its, keyed.1) in
            let kept : t.environment.protected ≡ true =
              subst (λ x. x.protected ≡ true) (sym one) shut in
            ground (arith, h.0, kept)
      ]

  imported_states-off :
      (now : ℕ) (flag_id : String) (targets : List Target) (d : Option DefaultFlagState)
      (rows : List Environment)
      → All (IsKeyed db slugs) rows
      → All (IsOpen db slugs) targets
      → select
          (is_on_in_protected db)
          (map (imported_state now flag_id (enabled_by_slug targets []) d) rows)
        ≡ []
  unfolding initial_enabled lookup
  imported_states-off now flag_id targets d [] h opens = refl
  imported_states-off now flag_id targets d (e ∷ rows) (h, hs) opens =
      let rest = imported_states-off now flag_id targets d rows hs opens in
      elim (Bool-cases e.protected) [
        | inl shut ↦ rw (h.0, enabled_by_slug-protected e targets [] h shut opens, shut) rest
        | inr open_one ↦ rw (h.0, open_one) (ground (arith, rest))
      ]

module _ (rt : Runtime) (safe_regex : String → Bool) (ids : Choices) (now : ℕ) (project_id : String)
    (args : ImportArgs) (db : Db) (project : Project)
    (needs : needs_approval project.settings.security ≡ true)
    (keyed : All (λ (e : Environment). environment_by_id db e.id ≡ some e) db.environments)
    (slugged : All
      (λ (e : Environment).
        lookup e.slug (by_slug (select (in_project project_id) db.environments) []) ≡ some e)
      (select (in_project project_id) db.environments)) where
  abbrev setting : Setting
  setting = setting_of db project_id project

  abbrev slugs : Dictionary Environment
  slugs = by_slug setting.environments []

  abbrev Unchanged : Db → Dictionary FieldRule → Type 0
  Unchanged d fields =
      select (is_on_in_protected db) d.flag_environments
      ≡ select (is_on_in_protected db) db.flag_environments

  environments-IsKeyed : All (IsKeyed db slugs) setting.environments
  environments-IsKeyed =
      All-both (λ (e : Environment). environment_by_id db e.id ≡ some e)
        (λ e. lookup e.slug slugs ≡ some e) setting.environments
        (All-select (λ (e : Environment). environment_by_id db e.id ≡ some e)
          (in_project project_id) db.environments keyed)
        slugged

  writable-IsOpen :
      (flag : NativeFlag)
      → All (IsOpen db slugs) (select (is_writable setting.approval) (targets_of args setting flag))
  unfolding lookup
  writable-IsOpen flag =
      subst (λ b. All (IsOpen db slugs) (select (is_writable b) (targets_of args setting flag)))
        (sym needs)
        (select-All (λ (t : Target). IsKeyed db slugs t.environment) (is_writable true)
          (targets_of args setting flag)
          (targets-All (IsKeyed db slugs) args.environment_map slugs flag.environments (λ s e found.
            by_slug-All (IsKeyed db slugs) setting.environments [] s e environments-IsKeyed
              (λ t x nothing. ground arith) found)))

  Unchanged-IsKept : IsKept rt safe_regex ids now args setting Unchanged
  unfolding update_flag place_target
  Unchanged-IsKept = record {
    by_update = λ flag_id flag run h.
        set_states-off db slugs now flag_id _ run.db.flag_environments (writable-IsOpen flag) ∙ h;
    by_flag = λ flag run h.
        select-append (is_on_in_protected db) run.db.flag_environments _
        ∙ ap (λ rows. select (is_on_in_protected db) run.db.flag_environments ++ rows)
            (imported_states-off db slugs now (ids.flag_id flag.key) _ setting.default_state
              setting.environments environments-IsKeyed (writable-IsOpen flag))
        ∙ append-nil (select (is_on_in_protected db) run.db.flag_environments)
        ∙ h;
    by_target = λ exists flag_id t run h. h;
  }

-- No file turns a flag on or off in a protected environment where the project requires a second
-- administrator: before and after an import, the states that are on in protected environments are
-- the same, if ids and slugs are unique keys of environments.
pub import_project-protected :
    (rt : Runtime) (safe_regex : String → Bool) (ids : Choices) (now : ℕ) (project_id : String)
    (args : ImportArgs) (db : Db) (project : Project)
    → project_at db project_id ≡ some project
    → needs_approval project.settings.security ≡ true
    → All (λ (e : Environment). environment_by_id db e.id ≡ some e) db.environments
    → All
        (λ (e : Environment).
          lookup e.slug (by_slug (select (in_project project_id) db.environments) []) ≡ some e)
        (select (in_project project_id) db.environments)
    → select
        (is_on_in_protected db)
        (import_project rt safe_regex ids now project_id args db).1.flag_environments
      ≡ select (is_on_in_protected db) db.flag_environments
import_project-protected rt safe_regex ids now project_id args db project found needs keyed
      slugged =
    let Same : Db → Dictionary FieldRule → Type 0 = λ d fields.
      select (is_on_in_protected db) d.flag_environments
      ≡ select (is_on_in_protected db) db.flag_environments in
    import_project_keeps rt safe_regex ids now project_id args db (λ d. Same d []) Same refl
      (λ d fields h. h)
      (λ p _ _.
        add_fields-keeps rt safe_regex ids now args (setting_of db project_id p) Same
          (record { by_field = λ f run free h. h })
          (missing_fields db project_id args.document.context_fields) (start db project_id) refl)
      (λ p found'.
        let same : p ≡ project = ground (arith, found, found') in
        let needs' : needs_approval p.settings.security ≡ true =
          subst (λ (x : Project). needs_approval x.settings.security ≡ true) (sym same) needs in
        Unchanged-IsKept rt safe_regex ids now project_id args db p needs' keyed slugged)
