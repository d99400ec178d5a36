-- ===== src/Flags/Toggle/Machine/Cells.antt =====
-- The approval flow as a machine with one cell for each flag and environment, beside the rows that
-- `requestOrConfirmToggle` of src/modules/flags/flag.service.ts writes.
use flagraft.Prelude.{
  ℕ, ◌≤◌, Bool, true, not, Option, none, some, String, ◌==◌, ◌≡◌, arith, bool_eq, select, length,
  option_map, eq_refl, if◌then◌else◌,
}
use flagraft.Db.{Db, PendingFlagToggle}
use flagraft.Flags.Toggle.{ToggleArgs, is_pending_of}
use flagraft.Flags.Toggle.Approval.{pending_at, enabled_at}

-- The switch, and the direction and the actor of a request that waits.
pub record Cell : Type 0 where
  pub switch : Option Bool
  pub waiting : Option (Bool × String)

-- A request: it waits, where none does or one for the other direction; the same actor's again
-- changes nothing; another actor's for the same direction takes effect.
abbrev pub next_cell : Bool → String → Option Bool → Option (Bool × String) → Cell
next_cell enabled who switch none = record { switch = switch; waiting = some (enabled, who) }
next_cell enabled who switch (some (wanted, by)) =
    if not (bool_eq wanted enabled)
    then record { switch = switch; waiting = some (enabled, who) }
    else if by == who
    then record { switch = switch; waiting = some (wanted, by) }
    else record { switch = some enabled; waiting = none }

abbrev pub request : Bool → String → Cell → Cell
request enabled who cell = next_cell enabled who cell.switch cell.waiting

abbrev pub waiting_of : Option PendingFlagToggle → Option (Bool × String)
waiting_of = option_map (λ (r : PendingFlagToggle). (r.requested_enabled, r.requested_by_identity))

-- What the tables say of a flag in an environment.
unfoldable pub cell_at : Db → String → String → Cell
cell_at db flag_id environment_id = record {
  switch = enabled_at db flag_id environment_id;
  waiting = waiting_of (pending_at db flag_id environment_id);
}

-- The ids of the pending rows are a primary key.
abbrev pub HasIds : Db → Type 0
HasIds db =
    (id : String) → length (select (λ (r : PendingFlagToggle). r.id == id) db.pending_toggles) ≤ 1

module _ (now : ℕ) (fresh : String) (args : ToggleArgs) (db : Db) where
  abbrev pub here : PendingFlagToggle → Bool
  here = is_pending_of args.flag_id args.environment_id

  unfoldable pub recorded : PendingFlagToggle
  recorded = record {
    id = fresh;
    project_id = args.project_id;
    flag_id = args.flag_id;
    environment_id = args.environment_id;
    requested_enabled = args.enabled;
    requested_by_identity = args.actor.identity;
    requested_by_label = args.actor.label;
    created_at = now;
  }

  unfoldable pub superseded : PendingFlagToggle → PendingFlagToggle
  superseded r = record r {
    requested_enabled = args.enabled;
    requested_by_identity = args.actor.identity;
    requested_by_label = args.actor.label;
    created_at = now;
  }

  pub here-recorded : here recorded ≡ true
  unfolding recorded
  here-recorded = ground (arith, eq_refl args.flag_id, eq_refl args.environment_id)
