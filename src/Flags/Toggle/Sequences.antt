-- ===== src/Flags/Toggle/Sequences.antt =====
-- Sequences of requests to `requestOrConfirmToggle` of src/modules/flags/flag.service.ts.
use flagraft.Prelude.{
  ℕ, ◌≤◌, Bool, true, false, none, List, [], ◌∷◌, ◌++◌, String, ◌==◌, ◌≡◌, refl, arith, find, all,
  All, select, length, eq_iff, ◌∙◌, sym, Option-cases, Bool-cases, inl, inr, select-append,
  select-of_none, length-select-update, length-select-remove-le, all-append, all-update, all-find,
  all-remove, subst,
}
use mathlib.Core.List.{append-nil}
use flagraft.Db.{Db, PendingFlagToggle}
use flagraft.Flags.Toggle.{ToggleArgs, is_pending_of, request_or_confirm}
use flagraft.Flags.Toggle.Approval.{pending_at, is_applied, request_parts}

-- One call: its time, the id of the row that it may insert, and its arguments.
pub record Call : Type 0 where
  pub now : ℕ
  pub fresh : String
  pub args : ToggleArgs

pub run_requests : List Call → Db → Db
run_requests [] db = db
run_requests (c ∷ calls) db = run_requests calls (request_or_confirm c.now c.fresh c.args db).1

-- Every pending request is of the one actor.
abbrev pub AllBy : String → Db → Type 0
AllBy identity db =
    all (λ (r : PendingFlagToggle). r.requested_by_identity == identity) db.pending_toggles ≡ true

module _ (identity : String) where
  abbrev is_by : PendingFlagToggle → Bool
  is_by r = r.requested_by_identity == identity

  module _ (c : Call) (db : Db) (own : c.args.actor.identity ≡ identity)
      (by : AllBy identity db) where
    not_applied : is_applied (request_or_confirm c.now c.fresh c.args db).0 ≡ false
    not_applied = elim (Bool-cases (is_applied (request_or_confirm c.now c.fresh c.args db).0)) [
      | inr pending ↦ pending
      | inl done ↦
          let conf = (request_parts c.now c.fresh c.args db).0.0 done in
          let mine =
            all-find is_by (is_pending_of c.args.flag_id c.args.environment_id) db.pending_toggles
              conf.existing by conf.found in
          absurd (conf.other_actor ((eq_iff _ _).0 mine ∙ sym own))
    ]

    request-AllBy : AllBy identity (request_or_confirm c.now c.fresh c.args db).1
    unfolding request_or_confirm
    request-AllBy =
        let self = (eq_iff c.args.actor.identity identity).1 own in
        elim (Option-cases (pending_at db c.args.flag_id c.args.environment_id)) [
          | inl missing ↦
              rw (missing, request_or_confirm)
                (all-append is_by db.pending_toggles _ by (ground arith))
          | inr (existing, found) ↦
              rw (found, request_or_confirm)
                (ground (
                  arith,
                  all-remove is_by (λ r. r.id == existing.id) db.pending_toggles,
                  all-update is_by (λ r. r.id == existing.id)
                      (λ (r : PendingFlagToggle). record r {
                        requested_enabled = c.args.enabled;
                        requested_by_identity = c.args.actor.identity;
                        requested_by_label = c.args.actor.label;
                        created_at = c.now;
                      })
                      db.pending_toggles (λ r. self) by,
                ))
        ]

-- One actor alone turns nothing on or off: from a state in which every pending request is the
-- actor's own, no sequence of the actor's requests changes a flag's state or a flag.
pub run_requests-single_actor :
    (identity : String) (calls : List Call) (db : Db)
    → All (λ (c : Call). c.args.actor.identity ≡ identity) calls
    → AllBy identity db
    → ((run_requests calls db).flag_environments ≡ db.flag_environments)
      × ((run_requests calls db).feature_flags ≡ db.feature_flags)
unfolding run_requests
run_requests-single_actor identity [] db own by = (refl, refl)
run_requests-single_actor identity (c ∷ calls) db (own, rest) by =
    let db' = (request_or_confirm c.now c.fresh c.args db).1 in
    let kept = (request_parts c.now c.fresh c.args db).3 (not_applied identity c db own by) in
    let later =
      run_requests-single_actor identity calls db' rest (request-AllBy identity c db own by) in
    (later.0 ∙ kept.0, later.1 ∙ kept.1)

-- At most one request is pending for each flag and environment.
pub record IsUnique (db : Db) : Type 0 where
  pub at_pair :
      (flag_id environment_id : String)
      → length (select (is_pending_of flag_id environment_id) db.pending_toggles) ≤ 1

module _ (now : ℕ) (fresh : String) (args : ToggleArgs) (db : Db) (u : IsUnique db)
    (f e : String) where
  abbrev waiting : List PendingFlagToggle → ℕ
  waiting rows = length (select (is_pending_of f e) rows)

  -- The pair of the new request had none.
  recorded_once :
      (r : PendingFlagToggle)
      → pending_at db r.flag_id r.environment_id ≡ none
      → waiting (db.pending_toggles ++ r ∷ []) ≤ 1
  recorded_once r h =
      rw (select-append (is_pending_of f e) db.pending_toggles (r ∷ []))
        (elim (Bool-cases (is_pending_of f e r)) [
          | inr no_match ↦ rw (no_match, append-nil) (u.at_pair f e)
          | inl match ↦
              let same_flag : r.flag_id ≡ f = ground (arith, eq_iff r.flag_id f) in
              let same_environment : r.environment_id ≡ e =
                ground (arith, eq_iff r.environment_id e) in
              let none_there : find (is_pending_of f e) db.pending_toggles ≡ none =
                subst (λ g. find (is_pending_of g e) db.pending_toggles ≡ none) same_flag
                  (subst (λ g. find (is_pending_of r.flag_id g) db.pending_toggles ≡ none)
                    same_environment h) in
              rw (select-of_none (is_pending_of f e) db.pending_toggles none_there, match)
                (omega arith)
        ])

  request_unique : waiting (request_or_confirm now fresh args db).1.pending_toggles ≤ 1
  unfolding request_or_confirm
  request_unique = elim (Option-cases (pending_at db args.flag_id args.environment_id)) [
    | inl missing ↦ rw (missing, request_or_confirm) (recorded_once _ missing)
    | inr (existing, found) ↦
        rw (found, request_or_confirm)
          (ground (
            arith,
            u.at_pair f e,
            length-select-remove-le (is_pending_of f e) (λ r. r.id == existing.id)
                db.pending_toggles,
            length-select-update (is_pending_of f e) (λ r. r.id == existing.id)
                (λ (r : PendingFlagToggle). record r {
                  requested_enabled = args.enabled;
                  requested_by_identity = args.actor.identity;
                  requested_by_label = args.actor.label;
                  created_at = now;
                })
                db.pending_toggles (λ r. refl),
          ))
  ]

-- Every request keeps at most one pending row for each flag and environment.
pub request_or_confirm-IsUnique :
    (now : ℕ) (fresh : String) (args : ToggleArgs) (db : Db)
    → IsUnique db
    → IsUnique (request_or_confirm now fresh args db).1
request_or_confirm-IsUnique now fresh args db u = record {
  at_pair = λ f e. request_unique now fresh args db u f e;
}
