-- ===== src/Workspace/Projects/Gone.antt =====
-- What `deleteProject` of src/modules/projects/project.service.ts leaves.
use flagraft.Prelude.{
  Bool, true, false, ◌&&◌, ◌||◌, none, some, List, [], ◌∷◌, String, ◌==◌, ◌≡◌, refl, arith, subst,
  sym, eq_iff, select, remove, any, select-remove,
}
use flagraft.Db.{
  Db, Project, Environment, FeatureFlag, ApiKey, UserProject, ContextField, FlagEnvironment,
  PendingFlagToggle, TargetingStrategy,
}
use flagraft.Workspace.Environments.{belongs}
use flagraft.Workspace.Projects.{delete_project, cascade_project}

-- No table has a row of the project, of its flags, or of its environments as they were.
pub record IsGone (before : Db) (project_id : String) (after : Db) : Type 0 where
  pub projects : select (λ (p : Project). p.id == project_id) after.projects ≡ []
  pub environments :
      select (λ (e : Environment). e.project_id == project_id) after.environments ≡ []
  pub flags : select (λ (f : FeatureFlag). f.project_id == project_id) after.feature_flags ≡ []
  pub keys : select (λ (k : ApiKey). belongs k.project_id project_id) after.api_keys ≡ []
  pub members : select (λ (r : UserProject). r.project_id == project_id) after.user_projects ≡ []
  pub fields : select (λ (f : ContextField). f.project_id == project_id) after.context_fields ≡ []
  pub toggles :
      select (λ (r : PendingFlagToggle). r.project_id == project_id) after.pending_toggles ≡ []
  pub states :
      (f : FeatureFlag)
      → any (λ (g : FeatureFlag). g.project_id == project_id && g.id == f.id) before.feature_flags
        ≡ true
      → select (λ (r : FlagEnvironment). r.flag_id == f.id) after.flag_environments ≡ []
  pub strategies :
      (f : FeatureFlag)
      → any (λ (g : FeatureFlag). g.project_id == project_id && g.id == f.id) before.feature_flags
        ≡ true
      → select (λ (r : TargetingStrategy). r.flag_id == f.id) after.targeting_strategies ≡ []

-- Rows that a wider test removes do not pass a narrower one.
select-remove_wider :
    {A : Type 0} (p q : A → Bool) (rows : List A)
    → ((r : A) → p r ≡ true → q r ≡ true)
    → select p (remove q rows) ≡ []
select-remove_wider p q [] wider = refl
select-remove_wider p q (r ∷ rows) wider =
    ground (arith, select-remove_wider p q rows wider, wider r)

module _ (project_id : String) (db : Db) where
  abbrev own_flag : String → Bool
  own_flag id = any (λ (g : FeatureFlag). g.project_id == project_id && g.id == id) db.feature_flags

  abbrev own_environment : String → Bool
  own_environment id =
      any (λ (e : Environment). e.project_id == project_id && e.id == id) db.environments

  -- A row of a flag of the project is among those that go.
  own_flag-same :
      (id other : String) → own_flag id ≡ true → (other == id) ≡ true → own_flag other ≡ true
  own_flag-same id other own same =
      subst (λ x. own_flag x ≡ true) (sym ((eq_iff other id).0 same)) own

  cascade-IsGone : IsGone db project_id (record (cascade_project project_id db) {
    projects = remove (λ (p : Project). p.id == project_id) db.projects;
  })
  unfolding cascade_project
  cascade-IsGone = record {
    projects = select-remove (λ (p : Project). p.id == project_id) db.projects;
    environments = select-remove (λ (e : Environment). e.project_id == project_id) db.environments;
    flags = select-remove (λ (f : FeatureFlag). f.project_id == project_id) db.feature_flags;
    keys =
        select-remove_wider (λ (k : ApiKey). belongs k.project_id project_id)
          (λ (k : ApiKey).
            belongs k.project_id project_id
            || elim k.environment_id [ none ↦ false | some e ↦ own_environment e ])
          db.api_keys (λ k h. rw h refl);
    members = select-remove (λ (r : UserProject). r.project_id == project_id) db.user_projects;
    fields = select-remove (λ (f : ContextField). f.project_id == project_id) db.context_fields;
    toggles =
        select-remove_wider (λ (r : PendingFlagToggle). r.project_id == project_id)
          (λ (r : PendingFlagToggle).
            r.project_id == project_id || own_flag r.flag_id || own_environment r.environment_id)
          db.pending_toggles (λ r h. rw h refl);
    states = λ f own.
        select-remove_wider (λ (r : FlagEnvironment). r.flag_id == f.id)
          (λ (r : FlagEnvironment). own_flag r.flag_id || own_environment r.environment_id)
          db.flag_environments (λ r h. rw (own_flag-same f.id r.flag_id own h) refl);
    strategies = λ f own.
        select-remove_wider (λ (r : TargetingStrategy). r.flag_id == f.id)
          (λ (r : TargetingStrategy). own_flag r.flag_id || own_environment r.environment_id)
          db.targeting_strategies (λ r h. rw (own_flag-same f.id r.flag_id own h) refl);
  }

-- A project that is there is deleted with all that hangs on it: afterwards no table has a row of the
-- project, and no states or strategies of its flags are left.
pub delete_project-IsGone :
    (project_id : String) (db : Db)
    → any (λ (p : Project). p.id == project_id) db.projects ≡ true
    → IsGone db project_id (delete_project project_id db).1
unfolding delete_project
delete_project-IsGone project_id db found =
    rw (found, delete_project) (cascade-IsGone project_id db)
