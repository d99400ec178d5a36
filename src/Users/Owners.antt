-- ===== src/Users/Owners.antt =====
-- The owners of the workspace, and what patches and deletions of src/modules/users/user.service.ts
-- make of them.
use flagraft.Prelude.{
  ℕ, ◌≤◌, Bool, true, false, ◌&&◌, Option, none, some, List, [], ◌∷◌, ◌++◌, String, ◌≡◌, refl,
  arith, find, any, select, update, length, leb, eq_iff, Bool-cases, inl, inr, ◌⊎◌, select-append,
  select-of_none, subst, length-append, length-select-update, length-select-remove-le,
  count-update_le, count-update_untouched, count-update_lost, count-remove_untouched,
  count-remove_lost,
}
use mathlib.Core.List.{append-nil}
use flagraft.Db.{Db, User}
use flagraft.Users.Accounts.{
  Primitives, PatchInput, has_id, is_active_owner, takes_owner_out, apply_patch, patch_user,
  delete_user,
}

abbrev pub owners : List User → ℕ
owners users = length (select is_active_owner users)

-- Ids are a primary key, and some active user is an owner.
pub record IsOwned (users : List User) : Type 0 where
  pub unique : (id : String) → length (select (has_id id) users) ≤ 1
  pub owned : 1 ≤ owners users

-- What patchUserSchema lets through for the status.
abbrev pub IsPatchStatus : Option String → Type 0
IsPatchStatus status = (status ≡ none) ⊎ (status ≡ some "active") ⊎ (status ≡ some "suspended")

module _ (prims : Primitives) (now : ℕ) (id : String) (input : PatchInput) where
  -- Without a change of role away from owner and without a suspension an owner stays one.
  patch_keeps :
      (u : User)
      → IsPatchStatus input.status
      → takes_owner_out input ≡ false
      → is_active_owner u ≡ true
      → is_active_owner (apply_patch prims now input u) ≡ true
  unfolding apply_patch
  patch_keeps u (inl e) h k = rw e (ground (arith, e))
  patch_keeps u (inr (inl e)) h k = rw e (ground (arith, e))
  patch_keeps u (inr (inr e)) h k = let out = rw e at h in ground arith

  module _ (db : Db) (v : IsOwned db.users) (status : IsPatchStatus input.status) where
    rows : List User
    rows = update (has_id id) (apply_patch prims now input) db.users

    rows-owned-unguarded : takes_owner_out input ≡ false → 1 ≤ owners rows
    unfolding rows
    rows-owned-unguarded h =
        let kept =
          count-update_le is_active_owner (has_id id) (apply_patch prims now input) db.users
            (λ u _ k. patch_keeps u status h k) in
        omega (arith, v.owned, kept)

    rows-owned-guarded :
        (any (has_id id) (select is_active_owner db.users) && leb (owners db.users) 1) ≡ false
        → 1 ≤ owners rows
    unfolding rows
    rows-owned-guarded h = ground (
      arith,
      v.owned,
      v.unique id,
      count-update_untouched is_active_owner (has_id id) (apply_patch prims now input) db.users,
      count-update_lost is_active_owner (has_id id) (apply_patch prims now input) db.users,
    )

    pub patch-owned : 1 ≤ owners (patch_user prims now id input db).1.users
    unfolding patch_user rows
    patch-owned = ground (arith, v.owned, rows-owned-unguarded, rows-owned-guarded)

    pub patch_unique :
        (i : String) → length (select (has_id i) (patch_user prims now id input db).1.users) ≤ 1
    unfolding patch_user apply_patch
    patch_unique i = ground (
      arith,
      v.unique i,
      length-select-update (has_id i) (has_id id) (apply_patch prims now input) db.users
          (λ u. refl),
    )

-- A user who is deleted is no owner, or not the last one.
module _ (id : String) (db : Db) (v : IsOwned db.users) where
  pub delete-owned : 1 ≤ owners (delete_user id db).1.users
  unfolding delete_user
  delete-owned = ground (
    arith,
    v.owned,
    v.unique id,
    count-remove_untouched is_active_owner (has_id id) db.users,
    count-remove_lost is_active_owner (has_id id) db.users,
  )

  pub delete_unique : (i : String) → length (select (has_id i) (delete_user id db).1.users) ≤ 1
  unfolding delete_user
  delete_unique i =
      ground (arith, v.unique i, length-select-remove-le (has_id i) (has_id id) db.users)

-- An update that keeps ids, and takes no active owner out, keeps the invariant.
pub update-IsOwned :
    (q : User → Bool) (f : User → User) (users : List User)
    → ((u : User) → (f u).id ≡ u.id)
    → ((u : User) → q u ≡ true → is_active_owner u ≡ true → is_active_owner (f u) ≡ true)
    → IsOwned users
    → IsOwned (update q f users)
update-IsOwned q f users same_id keeps v = record {
  unique = λ i.
      let same = length-select-update (has_id i) q f users (λ u. rw (same_id u)) in
      omega (arith, same, v.unique i);
  owned = omega (arith, v.owned, count-update_le is_active_owner q f users keeps);
}

-- So does a new row with a new id.
pub append-IsOwned :
    (users : List User) (u : User)
    → find (has_id u.id) users ≡ none
    → IsOwned users
    → IsOwned (users ++ u ∷ [])
append-IsOwned users u new v = record {
  unique = λ i. rw (select-append (has_id i) users (u ∷ [])) (elim (Bool-cases (has_id i u)) [
    | inr other ↦ rw (other, append-nil) (v.unique i)
    | inl same ↦
        let new_here : find (has_id i) users ≡ none =
          subst (λ j. find (has_id j) users ≡ none) ((eq_iff u.id i).0 same) new in
        rw (select-of_none (has_id i) users new_here, same) (omega arith)
  ]);
  owned =
      rw
        (
          select-append is_active_owner users (u ∷ []),
          length-append (select is_active_owner users) _,
        )
        (omega (arith, v.owned));
}
