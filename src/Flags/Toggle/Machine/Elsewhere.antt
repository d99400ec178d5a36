-- ===== src/Flags/Toggle/Machine/Elsewhere.antt =====
-- What `requestOrConfirmToggle` of src/modules/flags/flag.service.ts leaves alone.
use flagraft.Prelude.{
  ℕ, Bool, true, false, ◌&&◌, some, String, ◌==◌, ◌≡◌, refl, arith, bool_eq, find, update, eq_iff,
  eq_refl, Option-cases, Bool-cases, inl, inr, find_sound, find-update, find-append_one, find_only,
  find-remove_other, subst, sym, ◌∙◌,
}
use flagraft.Db.{Db, PendingFlagToggle}
use flagraft.Flags.Toggle.{
  ToggleArgs, is_pending_of, apply_toggle, record_request, supersede, confirm, request_or_confirm,
}
use flagraft.Flags.Toggle.Approval.{pending_at}
use flagraft.Flags.Toggle.Machine.Cells.{HasIds, here, recorded, superseded}

module _ (now : ℕ) (fresh : String) (args : ToggleArgs) (db : Db) where
  module _ (f e : String) (ne : (args.flag_id == f && args.environment_id == e) ≡ false) where
    abbrev there : PendingFlagToggle → Bool
    there = is_pending_of f e

    -- A row that waits here does not wait there.
    here_apart : (r : PendingFlagToggle) → (here now fresh args db) r ≡ true → there r ≡ false
    here_apart r h = ground (
      arith,
      eq_iff r.flag_id args.flag_id,
      eq_iff r.environment_id args.environment_id,
      eq_iff r.flag_id f,
      eq_iff r.environment_id e,
      eq_iff args.flag_id f,
      eq_iff args.environment_id e,
    )

    module _ (ids : HasIds db) (existing : PendingFlagToggle)
        (found : pending_at db args.flag_id args.environment_id ≡ some existing) where
      abbrev has_existing_id : PendingFlagToggle → Bool
      has_existing_id r = r.id == existing.id

      by_id : find has_existing_id db.pending_toggles ≡ some existing
      by_id =
          find_only (here now fresh args db) has_existing_id db.pending_toggles existing
            (ids existing.id) found (eq_refl existing.id)

      existing_not_there : there existing ≡ false
      existing_not_there =
          here_apart existing
            (find_sound (here now fresh args db) db.pending_toggles existing found)

      other_id :
          (r : PendingFlagToggle)
          → find there db.pending_toggles ≡ some r
          → (r.id == existing.id) ≡ false
      other_id r h = elim (Bool-cases (r.id == existing.id)) [
        | inr apart ↦ apart
        | inl same ↦
            let again =
              find_only there has_existing_id db.pending_toggles r (ids existing.id) h same in
            let one : existing ≡ r = ground (arith, by_id, again) in
            let is_there = find_sound there db.pending_toggles r h in
            cc (subst (λ x. there x ≡ true) (sym one) is_there, existing_not_there)
      ]

      superseded_elsewhere :
          find there (update has_existing_id (superseded now fresh args db) db.pending_toggles)
          ≡ find there db.pending_toggles
      unfolding superseded
      superseded_elsewhere =
          find-update there has_existing_id (superseded now fresh args db) db.pending_toggles
            (λ r. refl)
          ∙ elim (Option-cases (find there db.pending_toggles)) [
            | inl missing ↦ rw missing refl
            | inr (r, h) ↦ rw (h, other_id r h) refl
          ]

    pub pending_elsewhere :
        HasIds db → pending_at (request_or_confirm now fresh args db).1 f e ≡ pending_at db f e
    unfolding request_or_confirm record_request supersede confirm apply_toggle recorded superseded
    pending_elsewhere ids = elim (Option-cases (pending_at db args.flag_id args.environment_id)) [
      | inl missing ↦
          rw
            (
              missing,
              request_or_confirm,
              find-append_one there db.pending_toggles (recorded now fresh args db),
              ne,
            )
            (ground arith)
      | inr (existing, found) ↦
          elim (Bool-cases (bool_eq existing.requested_enabled args.enabled)) [
            | inr other ↦
                rw (found, request_or_confirm, other) (superseded_elsewhere ids existing found)
            | inl same ↦ elim (Bool-cases (existing.requested_by_identity == args.actor.identity)) [
              | inl own ↦ rw (found, request_or_confirm, same, own) refl
              | inr another ↦
                  rw (found, request_or_confirm, same, another)
                    (find-remove_other (has_existing_id ids existing found) there db.pending_toggles
                      existing (ids existing.id) (by_id ids existing found)
                      (existing_not_there ids existing found))
            ]
          ]
    ]
