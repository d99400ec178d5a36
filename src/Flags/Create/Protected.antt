-- ===== src/Flags/Create/Protected.antt =====
-- What `createFlag` of src/modules/flags/flag.service.ts turns on.
use flagraft.Prelude.{
  ℕ, Bool, false, ◌&&◌, Option, none, some, List, [], ◌∷◌, ◌++◌, String, ◌==◌, ◌≡◌, refl, arith, ap,
  any, find, select, map, or_else, Bool-cases, inl, inr, All, Option-cases, select-append, ◌⊎◌,
}
use mathlib.Core.List.{append-nil}
use flagraft.Db.{Db, DefaultFlagState, Project, Environment, FlagEnvironment}
use flagraft.Db.Find.{has_key, project_at, flag_at}
use flagraft.Workspace.Environments.{in_project}
use flagraft.Flags.Create.{
  CreateFlagInput, initial_enabled, new_flag, new_state, defaults_of, is_blank, insert_flag,
  write_flag, fetch_flag, create_flag,
}

abbrev pub environment_by_id : Db → String → Option Environment
environment_by_id db id = find (λ (e : Environment). e.id == id) db.environments

-- On, in an environment that is protected.
abbrev pub is_on_in_protected : Db → FlagEnvironment → Bool
is_on_in_protected db r =
    r.enabled
    && elim (environment_by_id db r.environment_id) [ none ↦ false | some e ↦ e.protected ]

module _ (now : ℕ) (fresh project_id : String) (input : CreateFlagInput) (author_id : Option String)
    (db : Db) where
  abbrev new_states : Bool → List FlagEnvironment
  new_states allow =
      map (new_state now fresh (defaults_of (project_at db project_id)).default_state allow)
        (select (in_project project_id) db.environments)

  fetch_flag-same : (key : String) (d : Db) → (fetch_flag project_id key d).1 ≡ d
  unfolding fetch_flag
  fetch_flag-same key d = elim (Option-cases (flag_at d project_id key)) [
    | inl e ↦ rw (e, fetch_flag) refl
    | inr (f, e) ↦ rw (e, fetch_flag) refl
  ]

  create_flag-states :
      (allow : Bool)
      → ((create_flag now fresh project_id input author_id allow db).1.flag_environments
          ≡ db.flag_environments)
        ⊎ ((create_flag now fresh project_id input author_id allow db).1.flag_environments
            ≡ db.flag_environments ++ new_states allow)
  unfolding create_flag write_flag insert_flag
  create_flag-states allow =
      let defaults = defaults_of (project_at db project_id) in
      elim (Bool-cases (or_else defaults.require_description false && is_blank input.description)) [
        | inl bad ↦ rw (bad, create_flag) (inl refl)
        | inr a ↦ elim (Bool-cases (any (has_key project_id input.key) db.feature_flags)) [
          | inl bad ↦ rw (a, bad, create_flag) (inl refl)
          | inr b ↦ elim (Bool-cases (any (λ (p : Project). p.id == project_id) db.projects)) [
            | inr bad ↦ rw (a, b, bad, create_flag) (inl refl)
            | inl c ↦
                rw (a, b, c, create_flag)
                  (inr (
                    ap (λ (d : Db). d.flag_environments)
                      (fetch_flag-same input.key (record db {
                        feature_flags =
                            db.feature_flags ++ new_flag now fresh project_id input author_id ∷ [];
                        flag_environments = db.flag_environments ++ new_states allow;
                      }))))
          ]
        ]
      ]

  new_states_off :
      (d : Option DefaultFlagState) (rows : List Environment)
      → All (λ (e : Environment). environment_by_id db e.id ≡ some e) rows
      → select
          (is_on_in_protected db)
          (map (new_state now fresh d false) (select (in_project project_id) rows))
        ≡ []
  unfolding initial_enabled
  new_states_off d [] h = refl
  new_states_off d (e ∷ rows) (h, hs) =
      let rest = new_states_off d rows hs in
      elim (Bool-cases (e.project_id == project_id)) [
        | inr other ↦ rw other rest
        | inl own ↦ elim (Bool-cases e.protected) [
          | inl kept ↦ rw (own, h, kept) rest
          | inr open_one ↦ rw (own, h, open_one) (ground (arith, rest))
        ]
      ]

-- A caller who may not write protected environments turns nothing on there by creating a flag,
-- whatever the project's default for new flags: the states that are on in a protected environment
-- are the same before and after, if each environment is the one that its id finds.
pub create_flag-protected :
    (now : ℕ) (fresh project_id : String) (input : CreateFlagInput) (author_id : Option String)
    (db : Db)
    → All (λ (e : Environment). environment_by_id db e.id ≡ some e) db.environments
    → select
        (is_on_in_protected db)
        (create_flag now fresh project_id input author_id false db).1.flag_environments
      ≡ select (is_on_in_protected db) db.flag_environments
create_flag-protected now fresh project_id input author_id db ids =
    elim (create_flag-states now fresh project_id input author_id db false) [
      | inl same ↦ rw same
      | inr more ↦
          rw
            (
              more,
              select-append (is_on_in_protected db) db.flag_environments
                  (new_states now fresh project_id input author_id db false),
              new_states_off now fresh project_id input author_id db
                  (defaults_of (project_at db project_id)).default_state db.environments ids,
            )
            (append-nil (select (is_on_in_protected db) db.flag_environments))
    ]
