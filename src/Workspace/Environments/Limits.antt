-- ===== src/Workspace/Environments/Limits.antt =====
-- What every call on environments keeps, src/modules/environments/environment.service.ts.
use flagraft.Prelude.{
  ℕ, ◌+◌, ◌≤◌, Bool, false, not, none, some, List, [], ◌∷◌, ◌++◌, String, ◌==◌, ◌≡◌, ap, refl,
  arith, leb, length, select, any, find, update, remove, eq_iff, subst, any-find, if_both,
  length-append, select-append, select-remove_other, select-of_none, length-select-update,
  length-select-remove-le, Option-cases, Bool-cases, inl, inr,
}
use flagraft.Db.{Db, Environment}
use flagraft.Db.Find.{has_slug}
use flagraft.Outcome.{Result}
use flagraft.Workspace.Environments.{
  CreateEnvironmentInput, UpdateEnvironmentInput, max_environments_per_project, in_project,
  is_environment, new_environment, create_environment, set_environment, update_environment,
  remove_environment, delete_environment,
}

-- At most three environments in a project, and a slug for one environment of it.
pub record IsLimited (rows : List Environment) : Type 0 where
  pub few :
      (project_id : String)
      → length (select (in_project project_id) rows) ≤ max_environments_per_project
  pub unique : (project_id slug : String) → length (select (has_slug project_id slug) rows) ≤ 1

-- One call, whether it throws or not.
pub data EnvironmentStep : Db → Db → Type 0 where
  create :
      (now : ℕ) (fresh project_id : String) (input : CreateEnvironmentInput) {db : Db}
      → EnvironmentStep db (create_environment now fresh project_id input db).1
  change :
      (project_id id : String) (input : UpdateEnvironmentInput) {db : Db}
      → EnvironmentStep db (update_environment project_id id input db).1
  delete :
      (project_id id : String) {db : Db}
      → EnvironmentStep db (delete_environment project_id id db).1

module _ (rows : List Environment) (v : IsLimited rows) (now : ℕ) (fresh project_id : String)
    (input : CreateEnvironmentInput) where
  abbrev added : Environment
  added = new_environment now fresh project_id input

  one_more :
      (q : Environment → Bool) → length (select q (rows ++ added ∷ [])) ≤ length (select q rows) + 1
  one_more q =
      rw (select-append q rows (added ∷ []), length-append (select q rows) (select q (added ∷ [])))
        (if_both (λ xs. length (select q rows) + length xs ≤ length (select q rows) + 1) (q added)
          (omega arith) (omega arith))

  none_more :
      (q : Environment → Bool)
      → q added ≡ false
      → length (select q (rows ++ added ∷ [])) ≤ length (select q rows)
  none_more q h =
      rw
        (
          select-append q rows (added ∷ []),
          length-append (select q rows) (select q (added ∷ [])),
          h,
        )
        (omega arith)

  append-IsLimited :
      leb max_environments_per_project (length (select (in_project project_id) rows)) ≡ false
      → find (has_slug project_id input.slug) rows ≡ none
      → IsLimited (rows ++ added ∷ [])
  append-IsLimited room free = record {
    few = λ p. elim (Bool-cases (project_id == p)) [
      | inr ne ↦ omega (arith, none_more (in_project p) ne, v.few p)
      | inl e ↦
          subst
            (λ q.
              length (select (in_project q) (rows ++ added ∷ [])) ≤ max_environments_per_project)
            ((eq_iff project_id p).0 e) (ground (arith, one_more (in_project project_id)))
    ];
    unique = λ p s. elim (Bool-cases (has_slug p s added)) [
      | inr ne ↦ omega (arith, none_more (has_slug p s) ne, v.unique p s)
      | inl e ↦
          let same_project : project_id ≡ p = ground (arith, eq_iff project_id p) in
          let same_slug : input.slug ≡ s = ground (arith, eq_iff input.slug s) in
          let free' : find (has_slug p s) rows ≡ none =
            subst (λ q. find (has_slug q s) rows ≡ none) same_project
              (subst (λ t. find (has_slug project_id t) rows ≡ none) same_slug free) in
          omega
            (arith, one_more (has_slug p s), ap length (select-of_none (has_slug p s) rows free'))
    ];
  }

module _ (rows : List Environment) (v : IsLimited rows) where
  update-IsLimited :
      (project_id id : String) (input : UpdateEnvironmentInput)
      → IsLimited (update (is_environment project_id id) (set_environment input) rows)
  update-IsLimited project_id id input = record {
    few = λ p.
        rw
          (length-select-update (in_project p) (is_environment project_id id)
            (set_environment input) rows (λ e. refl))
          (v.few p);
    unique = λ p s.
        rw
          (length-select-update (has_slug p s) (is_environment project_id id)
            (set_environment input) rows (λ e. refl))
          (v.unique p s);
  }

  remove-IsLimited : (q : Environment → Bool) → IsLimited (remove q rows)
  remove-IsLimited q = record {
    few = λ p. omega (arith, length-select-remove-le (in_project p) q rows, v.few p);
    unique = λ p s. omega (arith, length-select-remove-le (has_slug p s) q rows, v.unique p s);
  }

create-IsLimited :
    (now : ℕ) (fresh project_id : String) (input : CreateEnvironmentInput) (db : Db)
    → IsLimited db.environments
    → IsLimited (create_environment now fresh project_id input db).1.environments
unfolding create_environment
create-IsLimited now fresh project_id input db v =
    elim (Bool-cases (
      leb max_environments_per_project (length (select (in_project project_id) db.environments)))) [
        | inl full ↦ rw (full, create_environment) v
        | inr room ↦ elim (Option-cases (find (has_slug project_id input.slug) db.environments)) [
          | inr (x, taken) ↦
              rw
                (
                  room,
                  any-find (has_slug project_id input.slug) db.environments,
                  taken,
                  create_environment,
                )
                v
          | inl free ↦
              rw
                (
                  room,
                  any-find (has_slug project_id input.slug) db.environments,
                  free,
                  create_environment,
                )
                (if_both (λ (r : Result Environment × Db). IsLimited r.1.environments)
                  (not (any (λ p. p.id == project_id) db.projects)) v
                  (append-IsLimited db.environments v now fresh project_id input room free))
        ]
      ]

change-IsLimited :
    (project_id id : String) (input : UpdateEnvironmentInput) (db : Db)
    → IsLimited db.environments
    → IsLimited (update_environment project_id id input db).1.environments
unfolding update_environment
change-IsLimited project_id id input db v =
    let rows = update (is_environment project_id id) (set_environment input) db.environments in
    elim (Option-cases (find (is_environment project_id id) rows)) [
      | inl e ↦ rw (e, update_environment) (update-IsLimited db.environments v project_id id input)
      | inr (x, e) ↦
          rw (e, update_environment) (update-IsLimited db.environments v project_id id input)
    ]

remove_environment_found :
    (project_id id : String) (db : Db) (x : Environment)
    → find (is_environment project_id id) db.environments ≡ some x
    → (remove_environment project_id id db).environments
      ≡ remove (is_environment project_id id) db.environments
unfolding remove_environment
remove_environment_found project_id id db x e =
    rw (any-find (is_environment project_id id) db.environments, e, remove_environment) refl

delete-IsLimited :
    (project_id id : String) (db : Db)
    → IsLimited db.environments
    → IsLimited (delete_environment project_id id db).1.environments
unfolding delete_environment
delete-IsLimited project_id id db v =
    elim (Option-cases (find (is_environment project_id id) db.environments)) [
      | inl e ↦ rw (e, delete_environment) v
      | inr (x, e) ↦ elim (Bool-cases x.protected) [
        | inl kept ↦ rw (e, kept, delete_environment) v
        | inr open_one ↦
            rw (e, open_one, delete_environment, remove_environment_found project_id id db x e)
              (remove-IsLimited db.environments v (is_environment project_id id))
      ]
    ]

-- No call on environments, failing ones included, gives a project more than three environments or
-- two environments of a project one slug.
pub EnvironmentStep-IsLimited :
    {db db' : Db} → EnvironmentStep db db' → IsLimited db.environments → IsLimited db'.environments
EnvironmentStep-IsLimited (create now fresh project_id input {db}) v =
    create-IsLimited now fresh project_id input db v
EnvironmentStep-IsLimited (change project_id id input {db}) v =
    change-IsLimited project_id id input db v
EnvironmentStep-IsLimited (delete project_id id {db}) v = delete-IsLimited project_id id db v

-- Deleting an environment leaves every protected environment where it is, whichever is named.
pub delete_environment-protected :
    (project_id id : String) (db : Db)
    → length (select (is_environment project_id id) db.environments) ≤ 1
    → select (λ (e : Environment). e.protected) (delete_environment project_id id db).1.environments
      ≡ select (λ (e : Environment). e.protected) db.environments
unfolding delete_environment
delete_environment-protected project_id id db one =
    elim (Option-cases (find (is_environment project_id id) db.environments)) [
      | inl e ↦ rw (e, delete_environment) refl
      | inr (x, e) ↦ elim (Bool-cases x.protected) [
        | inl kept ↦ rw (e, kept, delete_environment) refl
        | inr open_one ↦
            rw (e, open_one, delete_environment, remove_environment_found project_id id db x e)
              (select-remove_other (is_environment project_id id) (λ (r : Environment). r.protected)
                db.environments x one e open_one)
      ]
    ]
