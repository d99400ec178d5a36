-- ===== src/Users/Passwords.antt =====
-- Logging in after a password reset: `resetPassword` of src/modules/users/user.service.ts and
-- `validateCredentials` of src/modules/auth/auth.service.ts.
use flagraft.Prelude.{
  ℕ, true, some, String, ◌==◌, ◌≡◌, ◌⊎◌, inl, inr, refl, find, find-update, eq_refl, ◌∙◌,
}
use flagraft.Db.{Db, User}
use flagraft.Users.Accounts.{
  Primitives, granted, has_id, normal_email, validate_user, validate_credentials, apply_reset,
  reset_password,
}

module _ (prims : Primitives) (now : ℕ) (email password : String) (db : Db) (u : User) where
  abbrev renewed : User
  renewed = apply_reset prims now password (u.status == "invited") u

  -- The row that the login finds is the renewed one.
  find-reset :
      find (λ (x : User). x.email == normal_email prims email) db.users ≡ some u
      → find (has_id u.id) db.users ≡ some u
      → find
          (λ (x : User). x.email == normal_email prims email)
          (reset_password prims now u.id password db).1.users
        ≡ some renewed
  unfolding reset_password apply_reset
  find-reset by_email by_id =
      rw (by_id, reset_password)
        (find-update (λ (x : User). x.email == normal_email prims email) (has_id u.id)
            (apply_reset prims now password (u.status == "invited")) db.users (λ x. refl)
          ∙ rw (by_email, eq_refl u.id) refl)

  renewed_active : (u.status ≡ "active") ⊎ (u.status ≡ "invited") → renewed.status ≡ "active"
  unfolding apply_reset
  renewed_active (inl e) = rw e refl
  renewed_active (inr e) = rw e refl

  granted_active :
      (x : User) (d : Db)
      → x.status ≡ "active"
      → (validate_user now true (some x) d).0 ≡ granted (record x { last_login_at = some now })
  unfolding validate_user
  granted_active x d h = rw (h, validate_user) refl

-- After a reset the new password logs the user in, where the address finds the user, the user is
-- active or was only invited, and argon2 verifies a password against its own hash.
pub validate_credentials-reset_password :
    (prims : Primitives) (now : ℕ) (email password : String) (db : Db) (u : User)
    → find (λ (x : User). x.email == normal_email prims email) db.users ≡ some u
    → find (has_id u.id) db.users ≡ some u
    → (u.status ≡ "active") ⊎ (u.status ≡ "invited")
    → prims.verify (prims.hash password) password ≡ true
    → (validate_credentials prims now email password
        (reset_password prims now u.id password db).1).0
      ≡ granted (record (apply_reset prims now password (u.status == "invited") u) {
        last_login_at = some now;
      })
unfolding validate_credentials apply_reset
validate_credentials-reset_password prims now email password db u by_email by_id status works =
    rw (find-reset prims now email password db u by_email by_id, works)
      (granted_active prims now email password db u (renewed prims now email password db u)
        (reset_password prims now u.id password db).1
        (renewed_active prims now email password db u status))
