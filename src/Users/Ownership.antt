-- ===== src/Users/Ownership.antt =====
-- The workspace keeps an owner who can act, whatever is done to its users through
-- src/modules/users/user.service.ts and src/modules/auth/auth.service.ts.
use flagraft.Prelude.{
  ℕ, Bool, true, false, not, Option, none, some, List, [], ◌∷◌, ◌++◌, String, ◌==◌, ◌≡◌, refl,
  arith, find, any, update, eq_iff, eq_refl, Bool-cases, Option-cases, inl, inr, ◌⊎◌, subst, sym,
  before, if_both, length-select-remove-le, count-remove_apart,
}
use flagraft.Db.{Db, User}
use flagraft.Outcome.{Result, ok, err, unique_violation}
use flagraft.Users.Accounts.{
  Primitives, NewUser, PatchInput, has_id, is_active_owner, normal_email, new_user, create_user,
  stored_hash, validate_user, validate_credentials, patch_user, apply_reset, reset_password,
  delete_references, delete_user,
}
use flagraft.Users.Invites.{
  may_reissue, with_invite, reissue_invite, get_user_by_invite_token, is_invited, cancel_invite,
  activated, accept_invite, invite_user, add_memberships, has_duplicates, Invite,
}
use flagraft.Users.Owners.{
  IsOwned, IsPatchStatus, patch-owned, patch_unique, delete-owned, delete_unique, update-IsOwned,
  append-IsOwned,
}

-- What the service can do to the users.
pub data UserStep (prims : Primitives) (hash_token : String → String) (db : Db) : Db → Type 0 where
  patch :
      (now : ℕ) (id : String) (input : PatchInput)
      → IsPatchStatus input.status
      → UserStep prims hash_token db (patch_user prims now id input db).1
  delete : (id : String) → UserStep prims hash_token db (delete_user id db).1
  reset :
      (now : ℕ) (id password : String)
      → UserStep prims hash_token db (reset_password prims now id password db).1
  login :
      (now : ℕ) (email password : String)
      → UserStep prims hash_token db (validate_credentials prims now email password db).1
  accept :
      (now : ℕ) (token password : String)
      → UserStep prims hash_token db (accept_invite prims hash_token now token password db).1
  reissue :
      (now : ℕ) (token id : String)
      → UserStep prims hash_token db (reissue_invite hash_token now token id db).1
  cancel : (id : String) → UserStep prims hash_token db (cancel_invite id db).1
  -- The database draws a new id.
  invite :
      (now : ℕ) (fresh token password email role : String) (project_ids : List String)
      → find (has_id fresh) db.users ≡ none
      → UserStep prims hash_token db
          (invite_user prims hash_token now fresh token password email role project_ids db).1

reset-keeps :
    (prims : Primitives) (now : ℕ) (password : String) (b : Bool) (u : User)
    → is_active_owner u ≡ true
    → is_active_owner (apply_reset prims now password b u) ≡ true
unfolding apply_reset
reset-keeps prims now password true u h = ground arith
reset-keeps prims now password false u h = ground arith

activated-keeps :
    (prims : Primitives) (hash_token : String → String) (now : ℕ) (password : String) (u : User)
    → is_active_owner u ≡ true
    → is_active_owner (activated prims hash_token now password u) ≡ true
unfolding activated
activated-keeps prims hash_token now password u h = ground (arith, eq_refl "active")

invited-ne-active : (status : String) → (status == "invited") ≡ true → (status == "active") ≡ false
invited-ne-active status h = rw ((eq_iff status "invited").0 h)

-- An invited user is no active owner.
invited-apart : (id : String) (u : User) → is_invited id u ≡ true → is_active_owner u ≡ false
invited-apart id u h = ground (arith, invited-ne-active u.status)

-- The state that a call returns.
abbrev LeavesOwned {ℓ} : {A : Type ℓ} → A × Db → Type 0
LeavesOwned r = IsOwned r.1.users

create_cases :
    (prims : Primitives) (now : ℕ) (fresh : String) (input : NewUser) (db : Db)
    → (create_user prims now fresh input db ≡ (err unique_violation, db))
      ⊎ ((u : User) × (u.id ≡ fresh)
          × (create_user prims now fresh input db
              ≡ (ok u, record db { users = db.users ++ u ∷ [] })))
unfolding create_user
create_cases prims now fresh input db =
    elim (Bool-cases (any (λ (u : User). u.email == normal_email prims input.email) db.users)) [
      | inl taken ↦ inl (rw taken)
      | inr new ↦ inr (new_user prims now fresh input, refl, rw new)
    ]

module _ (prims : Primitives) (hash_token : String → String) (db : Db) (v : IsOwned db.users) where
  reset-IsOwned :
      (now : ℕ) (id password : String) → IsOwned (reset_password prims now id password db).1.users
  unfolding reset_password
  reset-IsOwned now id password = elim (Option-cases (find (has_id id) db.users)) [
    | inl missing ↦ rw (missing, reset_password) v
    | inr (user, found) ↦
        rw (found, reset_password)
          (update-IsOwned (has_id id) (apply_reset prims now password (user.status == "invited"))
            db.users (λ u. unfold apply_reset in refl)
            (λ u _ h. reset-keeps prims now password (user.status == "invited") u h) v)
  ]

  login-IsOwned :
      (now : ℕ) (valid : Bool) (found : Option User)
      → IsOwned (validate_user now valid found db).1.users
  unfolding validate_user
  login-IsOwned now valid none = v
  login-IsOwned now valid (some user) =
      let updated =
        update-IsOwned (has_id user.id) (λ (u : User). record u { last_login_at = some now })
          db.users (λ u. refl) (λ u _ h. h) v in
      if_both LeavesOwned (not valid) v (
        if_both LeavesOwned (user.status == "suspended") v
          (if_both LeavesOwned (not (user.status == "active")) v updated))

  credentials-IsOwned :
      (now : ℕ) (email password : String)
      → IsOwned (validate_credentials prims now email password db).1.users
  unfolding validate_credentials
  credentials-IsOwned now email password =
      let found = find (λ (u : User). u.email == normal_email prims email) db.users in
      login-IsOwned now (prims.verify (stored_hash found) password) found

  accept-IsOwned :
      (now : ℕ) (token password : String)
      → IsOwned (accept_invite prims hash_token now token password db).1.users
  unfolding accept_invite
  accept-IsOwned now token password =
      elim (Option-cases (get_user_by_invite_token hash_token now token db)) [
        | inl missing ↦ rw (missing, accept_invite) v
        | inr (user, found) ↦
            rw (found, accept_invite)
              (update-IsOwned (has_id user.id) (activated prims hash_token now password) db.users
                (λ u. unfold activated in refl)
                (λ u _ h. activated-keeps prims hash_token now password u h) v)
      ]

  reissue-IsOwned :
      (now : ℕ) (token id : String) → IsOwned (reissue_invite hash_token now token id db).1.users
  unfolding reissue_invite
  reissue-IsOwned now token id =
      update-IsOwned (may_reissue hash_token now id) (with_invite hash_token now token) db.users
        (λ u. refl) (λ u _ h. h) v

  cancel-IsOwned : (id : String) → IsOwned (cancel_invite id db).1.users
  unfolding cancel_invite delete_references
  cancel-IsOwned id =
      if_both LeavesOwned (any (is_invited id) db.users)
        (record {
          unique = λ i.
              let fewer = length-select-remove-le (has_id i) (is_invited id) db.users in
              omega (arith, fewer, v.unique i);
          owned = omega (
            arith,
            v.owned,
            count-remove_apart is_active_owner (is_invited id) db.users (invited-apart id),
          );
        })
        v

  invited-IsOwned :
      (now : ℕ) (token : String) (u : User)
      → IsOwned (db.users ++ u ∷ [])
      → IsOwned (update (has_id u.id) (with_invite hash_token now token) (db.users ++ u ∷ []))
  unfolding with_invite
  invited-IsOwned now token u v' =
      update-IsOwned (has_id u.id) (with_invite hash_token now token) (db.users ++ u ∷ [])
        (λ w. refl) (λ w _ h. h) v'

  abbrev invited_input : String → String → String → NewUser
  invited_input password email role = record {
    email = email;
    password = password;
    name = before b'@' email;
    role = some role;
    status = some "invited";
  }

  add_memberships-users :
      (made : Invite) (project_ids : List String) (d : Db)
      → (add_memberships made project_ids d).1.users ≡ d.users
  unfolding add_memberships
  add_memberships-users made project_ids d =
      if_both (λ (r : Result Invite × Db). r.1.users ≡ d.users) (has_duplicates project_ids) refl
        (if_both (λ (r : Result Invite × Db). r.1.users ≡ d.users)
          (any (λ p. not (any (λ q. q.id == p) d.projects)) project_ids) refl refl)

  invite-IsOwned :
      (now : ℕ) (fresh token password email role : String) (project_ids : List String)
      → find (has_id fresh) db.users ≡ none
      → IsOwned
          (invite_user prims hash_token now fresh token password email role project_ids db).1.users
  unfolding invite_user
  invite-IsOwned now fresh token password email role project_ids new =
      elim (create_cases prims now fresh (invited_input password email role) db) [
        | inl taken ↦ rw (taken, invite_user) v
        | inr (u, same, created) ↦
            let v' =
              append-IsOwned db.users u
                (subst (λ j. find (has_id j) db.users ≡ none) (sym same) new) v in
            rw (created, invite_user, add_memberships-users) (invited-IsOwned now token u v')
      ]

-- Every operation on users that keeps within patchUserSchema keeps the invariant: ids stay
-- unique, and at least one active user is an owner.
pub UserStep-IsOwned :
    (prims : Primitives) (hash_token : String → String) {db db' : Db}
    → UserStep prims hash_token db db'
    → IsOwned db.users
    → IsOwned db'.users
UserStep-IsOwned prims hash_token {db} (patch now id input s) v = record {
  unique = patch_unique prims now id input db v s;
  owned = patch-owned prims now id input db v s;
}
UserStep-IsOwned prims hash_token {db} (delete id) v = record {
  unique = delete_unique id db v;
  owned = delete-owned id db v;
}
UserStep-IsOwned prims hash_token {db} (reset now id password) v =
    reset-IsOwned prims hash_token db v now id password
UserStep-IsOwned prims hash_token {db} (login now email password) v =
    credentials-IsOwned prims hash_token db v now email password
UserStep-IsOwned prims hash_token {db} (accept now token password) v =
    accept-IsOwned prims hash_token db v now token password
UserStep-IsOwned prims hash_token {db} (reissue now token id) v =
    reissue-IsOwned prims hash_token db v now token id
UserStep-IsOwned prims hash_token {db} (cancel id) v = cancel-IsOwned prims hash_token db v id
UserStep-IsOwned prims hash_token {db} (invite now fresh token password email role ps new) v =
    invite-IsOwned prims hash_token db v now fresh token password email role ps new

-- Any number of operations.
pub data UserSteps (prims : Primitives) (hash_token : String → String) (db : Db) : Db → Type 0 where
  here : UserSteps prims hash_token db db
  next :
      {d e : Db}
      → UserSteps prims hash_token db d
      → UserStep prims hash_token d e
      → UserSteps prims hash_token db e

-- The workspace always keeps an active owner: from users with unique ids and an active owner, any
-- sequence of invites, resends, cancellations, acceptances, logins, password resets, patches that
-- patchUserSchema lets through and deletions leads to users with unique ids and an active owner.
pub UserSteps-IsOwned :
    (prims : Primitives) (hash_token : String → String) {db db' : Db}
    → UserSteps prims hash_token db db'
    → IsOwned db.users
    → IsOwned db'.users
UserSteps-IsOwned prims hash_token here v = v
UserSteps-IsOwned prims hash_token (next steps step) v =
    UserStep-IsOwned prims hash_token step (UserSteps-IsOwned prims hash_token steps v)
