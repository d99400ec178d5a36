-- ===== src/Flags/Toggle/Approval.antt =====
-- The two-person rule of `requestOrConfirmToggle` in src/modules/flags/flag.service.ts.
use flagraft.Prelude.{
  ℕ, Bool, true, false, ◌&&◌, Option, some, List, String, ◌==◌, ◌≡◌, ◌≢◌, ◌↔◌, refl, arith, bool_eq,
  find, any, option_map, eq_iff, eq_refl, subst, Option-cases, Bool-cases, inl, inr, find_sound,
  find-update, find-append_one, any-find, if◌then◌else◌,
}
use flagraft.Db.{Db, FlagEnvironment, PendingFlagToggle}
use flagraft.Flags.Toggle.{
  ToggleResult, applied, requested, ToggleArgs, is_state_of, is_pending_of, upsert_state, confirm,
  request_or_confirm,
}

abbrev pub pending_at : Db → String → String → Option PendingFlagToggle
pending_at db flag_id environment_id =
    find (is_pending_of flag_id environment_id) db.pending_toggles

abbrev pub enabled_at : Db → String → String → Option Bool
enabled_at db flag_id environment_id =
    option_map (λ (r : FlagEnvironment). r.enabled)
      (find (is_state_of flag_id environment_id) db.flag_environments)

abbrev pub is_applied : ToggleResult → Bool
is_applied (applied row) = true
is_applied (requested enabled by) = false

-- Another actor asked for the same direction, and is waiting.
pub record IsConfirmation (db : Db) (args : ToggleArgs) : Type 0 where
  pub existing : PendingFlagToggle
  pub found : pending_at db args.flag_id args.environment_id ≡ some existing
  pub same_direction : existing.requested_enabled ≡ args.enabled
  pub other_actor : existing.requested_by_identity ≢ args.actor.identity

pub bool_eq_sound : (a b : Bool) → bool_eq a b ≡ true → a ≡ b
bool_eq_sound a b h = ground arith

pub bool_eq_self : (a : Bool) → bool_eq a a ≡ true
bool_eq_self a = ground arith

module _ (flag_id environment_id : String) where
  -- The test of a pair finds the row that an upsert of the pair adds.
  state_self :
      (now : ℕ) (enabled : Bool)
      → is_state_of flag_id environment_id (record {
        flag_id = flag_id;
        environment_id = environment_id;
        enabled = enabled;
        updated_at = now;
      })
        ≡ true
  state_self now enabled = ground (arith, eq_refl flag_id, eq_refl environment_id)

  pub enabled-upsert :
      (now : ℕ) (enabled : Bool) (rows : List FlagEnvironment)
      → option_map
          (λ (r : FlagEnvironment). r.enabled)
          (find
            (is_state_of flag_id environment_id)
            (upsert_state now flag_id environment_id enabled rows))
        ≡ some enabled
  unfolding upsert_state
  enabled-upsert now enabled rows =
      elim (Option-cases (find (is_state_of flag_id environment_id) rows)) [
        | inl missing ↦ rw (
          any-find (is_state_of flag_id environment_id) rows,
          missing,
          find-append_one (is_state_of flag_id environment_id) rows (record {
            flag_id = flag_id;
            environment_id = environment_id;
            enabled = enabled;
            updated_at = now;
          }),
          missing,
          state_self now enabled,
        )
        | inr (row, found) ↦ rw (
          any-find (is_state_of flag_id environment_id) rows,
          found,
          find-update (is_state_of flag_id environment_id) (is_state_of flag_id environment_id)
              (λ (r : FlagEnvironment). record r { enabled = enabled; updated_at = now }) rows
              (λ r. refl),
          found,
          find_sound (is_state_of flag_id environment_id) rows row found,
        )
      ]

  -- No row belongs to two pairs.
  pairs_apart :
      (other_flag other_environment : String) (r : FlagEnvironment)
      → (flag_id == other_flag && environment_id == other_environment) ≡ false
      → is_state_of other_flag other_environment r ≡ true
      → is_state_of flag_id environment_id r ≡ false
  pairs_apart other_flag other_environment r ne h = ground (
    arith,
    eq_iff r.flag_id other_flag,
    eq_iff r.environment_id other_environment,
    eq_iff r.flag_id flag_id,
    eq_iff r.environment_id environment_id,
    eq_iff flag_id other_flag,
    eq_iff environment_id other_environment,
  )

  pub state-upsert_ne :
      (other_flag other_environment : String) (now : ℕ) (enabled : Bool)
      (rows : List FlagEnvironment)
      → (flag_id == other_flag && environment_id == other_environment) ≡ false
      → option_map
          (λ (r : FlagEnvironment). r.enabled)
          (find
            (is_state_of other_flag other_environment)
            (upsert_state now flag_id environment_id enabled rows))
        ≡ option_map
            (λ (r : FlagEnvironment). r.enabled)
            (find (is_state_of other_flag other_environment) rows)
  unfolding upsert_state
  state-upsert_ne other_flag other_environment now enabled rows ne =
      elim (Bool-cases (any (is_state_of flag_id environment_id) rows)) [
        | inl present ↦
            rw
              (
                present,
                find-update (is_state_of other_flag other_environment)
                    (is_state_of flag_id environment_id)
                    (λ (r : FlagEnvironment). record r { enabled = enabled; updated_at = now }) rows
                    (λ r. refl),
              )
              (elim (Option-cases (find (is_state_of other_flag other_environment) rows)) [
                | inl missing ↦ rw missing
                | inr (r, found) ↦ rw (
                  found,
                  pairs_apart other_flag other_environment r ne
                      (find_sound (is_state_of other_flag other_environment) rows r found),
                )
              ])
        | inr absent ↦
            rw
              (
                absent,
                find-append_one (is_state_of other_flag other_environment) rows (record {
                  flag_id = flag_id;
                  environment_id = environment_id;
                  enabled = enabled;
                  updated_at = now;
                }),
                ne,
              )
              (ground arith)
      ]

module _ (now : ℕ) (fresh : String) (args : ToggleArgs) (db : Db) where
  IsConfirmation-needed :
      is_applied (request_or_confirm now fresh args db).0 ≡ true → IsConfirmation db args
  unfolding request_or_confirm
  IsConfirmation-needed h = elim (Option-cases (pending_at db args.flag_id args.environment_id)) [
    | inl missing ↦ ground arith
    | inr (existing, found) ↦ record {
      existing = existing;
      found = found;
      same_direction = ground (arith, bool_eq_sound existing.requested_enabled args.enabled);
      other_actor = λ e. ground (arith, eq_iff existing.requested_by_identity args.actor.identity);
    }
  ]

  confirmation_applies :
      (c : IsConfirmation db args)
      → request_or_confirm now fresh args db ≡ confirm now args c.existing db
  unfolding request_or_confirm
  confirmation_applies c =
      rw (c.found, request_or_confirm, c.same_direction)
        (ground (
          arith,
          c.other_actor,
          bool_eq_self args.enabled,
          eq_iff c.existing.requested_by_identity args.actor.identity,
        ))

  unapplied_keeps :
      is_applied (request_or_confirm now fresh args db).0 ≡ false
      → ((request_or_confirm now fresh args db).1.flag_environments ≡ db.flag_environments)
        × ((request_or_confirm now fresh args db).1.feature_flags ≡ db.feature_flags)
  unfolding request_or_confirm
  unapplied_keeps h = ground arith

  confirmation-is_applied :
      IsConfirmation db args → is_applied (request_or_confirm now fresh args db).0 ≡ true
  confirmation-is_applied c = rw (confirmation_applies c) (unfold confirm in refl)

  confirmation-enabled_at :
      (c : IsConfirmation db args)
      → enabled_at (request_or_confirm now fresh args db).1 args.flag_id args.environment_id
        ≡ some args.enabled
  confirmation-enabled_at c = rw (confirmation_applies c) (
      unfold confirm in
      enabled-upsert args.flag_id args.environment_id now args.enabled db.flag_environments)

module _ (now : ℕ) (fresh : String) (args : ToggleArgs) (db : Db) where
  elsewhere_kept :
      (f e : String)
      → (args.flag_id == f && args.environment_id == e) ≡ false
      → enabled_at (request_or_confirm now fresh args db).1 f e ≡ enabled_at db f e
  unfolding confirm
  elsewhere_kept f e ne = elim (Bool-cases (is_applied (request_or_confirm now fresh args db).0)) [
    | inl done ↦
        rw (confirmation_applies now fresh args db (IsConfirmation-needed now fresh args db done)) (
          state-upsert_ne args.flag_id args.environment_id f e now args.enabled db.flag_environments
            ne)
    | inr pending ↦ rw ((unapplied_keeps now fresh args db pending).0)
  ]

-- The parts of the two-person rule, for a whole table where nothing takes effect.
pub request_parts :
    (now : ℕ) (fresh : String) (args : ToggleArgs) (db : Db)
    → ((is_applied (request_or_confirm now fresh args db).0 ≡ true) ↔ IsConfirmation db args)
      × (IsConfirmation db args
          → enabled_at (request_or_confirm now fresh args db).1 args.flag_id args.environment_id
            ≡ some args.enabled)
      × ((f e : String)
          → (args.flag_id == f && args.environment_id == e) ≡ false
          → enabled_at (request_or_confirm now fresh args db).1 f e ≡ enabled_at db f e)
      × (is_applied (request_or_confirm now fresh args db).0 ≡ false
          → ((request_or_confirm now fresh args db).1.flag_environments ≡ db.flag_environments)
            × ((request_or_confirm now fresh args db).1.feature_flags ≡ db.feature_flags))
request_parts now fresh args db = (
  (IsConfirmation-needed now fresh args db, confirmation-is_applied now fresh args db),
  confirmation-enabled_at now fresh args db,
  λ f e ne. elsewhere_kept now fresh args db f e ne,
  unapplied_keeps now fresh args db,
)

-- The two-person rule. A request takes effect exactly when another actor's request for the same
-- direction is pending. Afterwards a flag has the wanted state in an environment where the request
-- for just these took effect, and the state that it had before everywhere else.
pub two_person_rule :
    (now : ℕ) (fresh : String) (args : ToggleArgs) (db : Db) (f e : String)
    → ((is_applied (request_or_confirm now fresh args db).0 ≡ true) ↔ IsConfirmation db args)
      × (enabled_at (request_or_confirm now fresh args db).1 f e ≡ (
          if is_applied (request_or_confirm now fresh args db).0
            && (args.flag_id == f && args.environment_id == e)
          then some args.enabled
          else enabled_at db f e))
two_person_rule now fresh args db f e =
    let parts = request_parts now fresh args db in
    (
      parts.0,
      elim (Bool-cases (is_applied (request_or_confirm now fresh args db).0)) [
        | inr pending ↦ rw (pending, (parts.3 pending).0)
        | inl done ↦ elim (Bool-cases (args.flag_id == f && args.environment_id == e)) [
          | inr ne ↦ rw (done, ne) (parts.2 f e ne)
          | inl same ↦
              let same_flag : args.flag_id ≡ f = ground (arith, eq_iff args.flag_id f) in
              let same_environment : args.environment_id ≡ e =
                ground (arith, eq_iff args.environment_id e) in
              rw (done, same)
                (subst
                  (λ g. enabled_at (request_or_confirm now fresh args db).1 g e ≡ some args.enabled)
                  same_flag
                  (subst
                    (λ g.
                      enabled_at (request_or_confirm now fresh args db).1 args.flag_id g
                      ≡ some args.enabled)
                    same_environment (parts.1 (parts.0.0 done))))
        ]
      ],
    )
