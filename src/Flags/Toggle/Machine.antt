-- ===== src/Flags/Toggle/Machine.antt =====
-- The approval flow as a machine with one cell for each flag and environment, and
-- `requestOrConfirmToggle` of src/modules/flags/flag.service.ts as an implementation of it.
pub mod Cells
pub mod Elsewhere
use flagraft.Prelude.{
  ℕ, ◌≤◌, Bool, true, false, not, ◌&&◌, Option, none, some, String, ◌==◌, ◌≡◌, refl, arith, bool_eq,
  find, update, select, length, option_map, eq_iff, eq_refl, Option-cases, Bool-cases, inl, inr,
  find_sound, find-update, find-append_one, find_only, find-remove_only, find-remove_other, subst,
  sym, ◌∙◌, ap, if◌then◌else◌,
}
use flagraft.Db.{Db, PendingFlagToggle}
use flagraft.Flags.Toggle.{
  Actor, ToggleArgs, is_pending_of, apply_toggle, record_request, supersede, confirm,
  request_or_confirm,
}
use flagraft.Flags.Toggle.Approval.{
  pending_at, enabled_at, request_parts, enabled-upsert, bool_eq_self, bool_eq_sound,
}
use flagraft.Flags.Toggle.Sequences.{IsUnique, request_or_confirm-IsUnique}
use flagraft.Flags.Toggle.Machine.Cells.{
  Cell, next_cell, request, waiting_of, cell_at, HasIds, here, recorded, superseded, here-recorded,
}
use flagraft.Flags.Toggle.Machine.Elsewhere.{pending_elsewhere}

module _ (now : ℕ) (fresh : String) (args : ToggleArgs) (db : Db) where
  -- The cell of the request's own flag and environment makes the machine's step.
  cell_here :
      IsUnique db
      → cell_at (request_or_confirm now fresh args db).1 args.flag_id args.environment_id
        ≡ request args.enabled args.actor.identity (cell_at db args.flag_id args.environment_id)
  unfolding cell_at recorded superseded request_or_confirm record_request supersede confirm
      apply_toggle
  cell_here u = elim (Option-cases (pending_at db args.flag_id args.environment_id)) [
    | inl missing ↦
        rw
          (
            missing,
            request_or_confirm,
            find-append_one (here now fresh args db) db.pending_toggles
                (recorded now fresh args db),
            missing,
            (here-recorded now fresh args db),
          )
          refl
    | inr (existing, found) ↦ elim (Bool-cases (bool_eq existing.requested_enabled args.enabled)) [
      | inr other ↦
          rw
            (
              found,
              request_or_confirm,
              other,
              find-update (here now fresh args db) (λ r. r.id == existing.id)
                  (superseded now fresh args db) db.pending_toggles (λ r. refl),
              found,
              eq_refl existing.id,
            )
            refl
      | inl same ↦ elim (Bool-cases (existing.requested_by_identity == args.actor.identity)) [
        | inl own ↦ rw (found, request_or_confirm, same, own, found) refl
        | inr another ↦
            rw
              (
                found,
                request_or_confirm,
                same,
                another,
                enabled-upsert args.flag_id args.environment_id now args.enabled
                    db.flag_environments,
                find-remove_only (here now fresh args db) (λ r. r.id == existing.id)
                    db.pending_toggles existing (u.at_pair args.flag_id args.environment_id) found
                    (eq_refl existing.id),
              )
              refl
      ]
    ]
  ]

-- The tables implement the approval machine: where a flag and environment have one waiting request
-- at most and ids are a key, a call makes the machine's step in the cell that it names, and leaves
-- every other cell as it is.
pub request_or_confirm_refines :
    (now : ℕ) (fresh : String) (args : ToggleArgs) (db : Db) (f e : String)
    → IsUnique db
    → HasIds db
    → cell_at (request_or_confirm now fresh args db).1 f e ≡ (
        if args.flag_id == f && args.environment_id == e
        then request args.enabled args.actor.identity (cell_at db f e)
        else cell_at db f e)
unfolding cell_at
request_or_confirm_refines now fresh args db f e u ids =
    elim (Bool-cases (args.flag_id == f && args.environment_id == e)) [
      | inl same ↦
          let same_flag : args.flag_id ≡ f = ground (arith, eq_iff args.flag_id f) in
          let same_environment : args.environment_id ≡ e =
            ground (arith, eq_iff args.environment_id e) in
          rw same (
            subst
              (λ g.
                cell_at (request_or_confirm now fresh args db).1 g e
                ≡ request args.enabled args.actor.identity (cell_at db g e))
              same_flag
              (subst
                (λ g.
                  cell_at (request_or_confirm now fresh args db).1 args.flag_id g
                  ≡ request args.enabled args.actor.identity (cell_at db args.flag_id g))
                same_environment (cell_here now fresh args db u)))
      | inr ne ↦
          rw
            (
              ne,
              (request_parts now fresh args db).2 f e ne,
              pending_elsewhere now fresh args db f e ne ids,
            )
            refl
    ]

-- Two requests for one direction by two actors set the switch of any cell of the machine.
request_twice :
    (enabled : Bool) (a b : String) (switch : Option Bool) (waiting : Option (Bool × String))
    → (a == b) ≡ false
    → (request enabled b (next_cell enabled a switch waiting)).switch ≡ some enabled
request_twice enabled a b switch none ne = ground (arith, bool_eq_self enabled)
request_twice enabled a b switch (some (wanted, by)) ne = ground (
  arith,
  bool_eq_self enabled,
  bool_eq_sound wanted enabled,
  eq_iff by a,
  eq_iff by b,
  eq_iff a b,
)

-- Two actors who want the same are enough. After a request of one actor and the same request of
-- another, whatever waited before, the flag has the wanted state in the environment.
pub two_actors_suffice :
    (now later : ℕ) (fresh next : String) (args : ToggleArgs) (other : Actor) (db : Db)
    → IsUnique db
    → (args.actor.identity == other.identity) ≡ false
    → enabled_at
        (request_or_confirm later next
          (record args { actor = other })
          (request_or_confirm now fresh args db).1).1
        args.flag_id
        args.environment_id
      ≡ some args.enabled
unfolding cell_at
two_actors_suffice now later fresh next args other db u ne =
    let first = cell_here now fresh args db u in
    let second =
      cell_here later next (record args { actor = other }) (request_or_confirm now fresh args db).1
        (request_or_confirm-IsUnique now fresh args db u) in
    ap (λ (c : Cell). c.switch) second
    ∙ ap (λ c. (request args.enabled other.identity c).switch) first
    ∙ request_twice args.enabled args.actor.identity other.identity
        (enabled_at db args.flag_id args.environment_id)
        (waiting_of (pending_at db args.flag_id args.environment_id)) ne
