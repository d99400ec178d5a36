-- ===== src/Prelude/Rows.antt =====
-- Tables as lists of rows: the selects, updates and deletes that the services are written with,
-- and the loops `find`, `some`, `every` of the source.
use Prim.Native.Nat.{◌≤◌, ℕ, suc, ◌+◌}
use mathlib.Core.Path.{◌≡◌, refl}
use mathlib.Core.Logic.{◌↔◌, ◌⊎◌}
use mathlib.Core.Bool.{Bool, true, false, ◌&&◌, ◌||◌}
use mathlib.Core.Option.{Option, none, some}
use mathlib.Core.List.{List, [], ◌∷◌, ◌++◌}
use native.Mathlib.Omega.{arith}
use flagraft.Prelude.Tests.{is_some, if◌then◌else◌}

module _ {ℓ} {A : Type ℓ} where
  abbrev pub length : List A → ℕ
  length [] = 0
  length (x ∷ xs) = suc (length xs)

  -- `select … where p limit 1`, and `find`.
  abbrev pub find : (A → Bool) → List A → Option A
  find p [] = none
  find p (x ∷ xs) = if p x then some x else find p xs

  -- `select … where p`, and `filter`.
  abbrev pub select : (A → Bool) → List A → List A
  select p [] = []
  select p (x ∷ xs) = let rest = select p xs in if p x then x ∷ rest else rest

  abbrev pub any : (A → Bool) → List A → Bool
  any p [] = false
  any p (x ∷ xs) = p x || any p xs

  abbrev pub all : (A → Bool) → List A → Bool
  all p [] = true
  all p (x ∷ xs) = p x && all p xs

  -- `update … set f where p`.
  abbrev pub update : (A → Bool) → (A → A) → List A → List A
  update p f [] = []
  update p f (x ∷ xs) = (if p x then f x else x) ∷ update p f xs

  -- `delete … where p`.
  abbrev pub remove : (A → Bool) → List A → List A
  remove p [] = []
  remove p (x ∷ xs) = let rest = remove p xs in if p x then rest else x ∷ rest

  pub length-append : (xs ys : List A) → length (xs ++ ys) ≡ length xs + length ys
  length-append [] ys = omega arith
  length-append (x ∷ xs) ys = omega (arith, length-append xs ys)

  pub find-append :
      (p : A → Bool) (xs ys : List A) → find p xs ≡ none → find p (xs ++ ys) ≡ find p ys
  find-append p [] ys h = refl
  find-append p (x ∷ xs) ys h = ground (arith, find-append p xs ys)

  pub find-remove : (p : A → Bool) (xs : List A) → find p (remove p xs) ≡ none
  find-remove p [] = refl
  find-remove p (x ∷ xs) = ground (arith, find-remove p xs)

  -- What `find` returns passes the test.
  pub find_sound : (p : A → Bool) (xs : List A) (a : A) → find p xs ≡ some a → p a ≡ true
  find_sound p [] a h = cc
  find_sound p (x ∷ xs) a h = ground (arith, find_sound p xs a)

  pub any-append : (p : A → Bool) (xs ys : List A) → any p (xs ++ ys) ≡ (any p xs || any p ys)
  any-append p [] ys = refl
  any-append p (x ∷ xs) ys = ground (arith, any-append p xs ys)

  pub select-all : (p : A → Bool) (xs : List A) → all p (select p xs) ≡ true
  select-all p [] = refl
  select-all p (x ∷ xs) = ground (arith, select-all p xs)

module _ {ℓ κ} {A : Type ℓ} (P : A → Type κ) where
  abbrev pub All : List A → Type κ
  All [] = Unit
  All (x ∷ xs) = P x × All xs

module _ {ℓ} {A : Type ℓ} (P : A → Type 0) where
  abbrev pub Any : List A → Type 0
  Any [] = ⊥
  Any (x ∷ xs) = P x ⊎ Any xs

module _ {ℓ} {A : Type ℓ} where
  -- The loops decide the two predicates.
  pub all_iff : (p : A → Bool) (xs : List A) → (all p xs ≡ true) ↔ All (λ x. p x ≡ true) xs
  all_iff p [] = (λ _. tt, λ _. refl)
  all_iff p (x ∷ xs) = ground (arith, all_iff p xs)

  pub any_iff : (p : A → Bool) (xs : List A) → (any p xs ≡ true) ↔ Any (λ x. p x ≡ true) xs
  any_iff p [] = (λ h. cc, λ h. absurd h)
  any_iff p (x ∷ xs) = ground (arith, any_iff p xs)

module _ {ℓ κ} {A : Type ℓ} {B : Type κ} where
  -- The rows for which there is an answer, such as the rows of an inner join.
  abbrev pub filter_map : (A → Option B) → List A → List B
  filter_map f [] = []
  filter_map f (x ∷ xs) =
      let rest = filter_map f xs in elim (f x) [ none ↦ rest | some y ↦ y ∷ rest ]

  abbrev pub option_map : (A → B) → Option A → Option B
  option_map f none = none
  option_map f (some a) = some (f a)

module _ {ℓ} {A : Type ℓ} where
  pub select-append :
      (p : A → Bool) (xs ys : List A) → select p (xs ++ ys) ≡ select p xs ++ select p ys
  select-append p [] ys = refl
  select-append p (x ∷ xs) ys = ground (arith, select-append p xs ys)

  pub select-remove : (p : A → Bool) (xs : List A) → select p (remove p xs) ≡ []
  select-remove p [] = refl
  select-remove p (x ∷ xs) = ground (arith, select-remove p xs)

  pub remove-append :
      (p : A → Bool) (xs ys : List A) → remove p (xs ++ ys) ≡ remove p xs ++ remove p ys
  remove-append p [] ys = refl
  remove-append p (x ∷ xs) ys = ground (arith, remove-append p xs ys)

  pub remove-remove : (p : A → Bool) (xs : List A) → remove p (remove p xs) ≡ remove p xs
  remove-remove p [] = refl
  remove-remove p (x ∷ xs) = ground (arith, remove-remove p xs)

  -- Rows that all pass, or all fail, the test.
  pub select-of_all : (p : A → Bool) (xs : List A) → all p xs ≡ true → select p xs ≡ xs
  select-of_all p [] h = refl
  select-of_all p (x ∷ xs) h = ground (arith, select-of_all p xs)

  pub remove-of_all : (p : A → Bool) (xs : List A) → all p xs ≡ true → remove p xs ≡ []
  remove-of_all p [] h = refl
  remove-of_all p (x ∷ xs) h = ground (arith, remove-of_all p xs)

module _ {ℓ} {A : Type ℓ} where
  -- An update that keeps what the test reads.
  pub find-update :
      (p q : A → Bool) (f : A → A) (xs : List A)
      → ((x : A) → p (f x) ≡ p x)
      → find p (update q f xs) ≡ option_map (λ x. if q x then f x else x) (find p xs)
  find-update p q f [] keep = refl
  find-update p q f (x ∷ xs) keep = ground (arith, keep x, find-update p q f xs keep)

  pub find-remove-none :
      (p q : A → Bool) (xs : List A) → find p xs ≡ none → find p (remove q xs) ≡ none
  find-remove-none p q [] h = refl
  find-remove-none p q (x ∷ xs) h = ground (arith, find-remove-none p q xs)

  pub find-append_one :
      (p : A → Bool) (xs : List A) (y : A)
      → find p (xs ++ y ∷ [])
        ≡ (if is_some (find p xs) then find p xs else if p y then some y else none)
  find-append_one p [] y = refl
  find-append_one p (x ∷ xs) y = ground (arith, find-append_one p xs y)

  pub any-find : (p : A → Bool) (xs : List A) → any p xs ≡ is_some (find p xs)
  any-find p [] = refl
  any-find p (x ∷ xs) = ground (arith, any-find p xs)

  pub update-of_none :
      (p : A → Bool) (f : A → A) (xs : List A) → find p xs ≡ none → update p f xs ≡ xs
  update-of_none p f [] h = refl
  update-of_none p f (x ∷ xs) h = ground (arith, update-of_none p f xs)

  pub select-of_none : (p : A → Bool) (xs : List A) → find p xs ≡ none → select p xs ≡ []
  select-of_none p [] h = refl
  select-of_none p (x ∷ xs) h = ground (arith, select-of_none p xs)

  pub length-select-update :
      (p q : A → Bool) (f : A → A) (xs : List A)
      → ((x : A) → p (f x) ≡ p x)
      → length (select p (update q f xs)) ≡ length (select p xs)
  length-select-update p q f [] keep = refl
  length-select-update p q f (x ∷ xs) keep =
      ground (arith, keep x, length-select-update p q f xs keep)

  pub length-select-remove-le :
      (p q : A → Bool) (xs : List A) → length (select p (remove q xs)) ≤ length (select p xs)
  length-select-remove-le p q [] = omega arith
  length-select-remove-le p q (x ∷ xs) = ground (arith, length-select-remove-le p q xs)

  pub all-append :
      (p : A → Bool) (xs ys : List A) → all p xs ≡ true → all p ys ≡ true → all p (xs ++ ys) ≡ true
  all-append p [] ys h k = k
  all-append p (x ∷ xs) ys h k = ground (arith, all-append p xs ys)

  pub all-update :
      (p q : A → Bool) (f : A → A) (xs : List A)
      → ((x : A) → p (f x) ≡ true)
      → all p xs ≡ true
      → all p (update q f xs) ≡ true
  all-update p q f [] keep h = refl
  all-update p q f (x ∷ xs) keep h = ground (arith, keep x, all-update p q f xs keep)

  -- A row that is found is one of the rows.
  pub all-find :
      (p q : A → Bool) (xs : List A) (a : A) → all p xs ≡ true → find q xs ≡ some a → p a ≡ true
  all-find p q [] a h e = cc
  all-find p q (x ∷ xs) a h e = ground (arith, all-find p q xs a)

  pub all-remove : (p q : A → Bool) (xs : List A) → all p xs ≡ true → all p (remove q xs) ≡ true
  all-remove p q [] h = refl
  all-remove p q (x ∷ xs) h = ground (arith, all-remove p q xs)

-- How many rows pass a test, before and after a write.
module _ {ℓ} {A : Type ℓ} (p q : A → Bool) where
  pub count-update_le :
      (f : A → A) (xs : List A)
      → ((x : A) → q x ≡ true → p x ≡ true → p (f x) ≡ true)
      → length (select p xs) ≤ length (select p (update q f xs))
  count-update_le f [] keep = omega arith
  count-update_le f (x ∷ xs) keep = ground (arith, keep x, count-update_le f xs keep)

  pub count-update_untouched :
      (f : A → A) (xs : List A)
      → any q (select p xs) ≡ false
      → length (select p xs) ≤ length (select p (update q f xs))
  count-update_untouched f [] h = omega arith
  count-update_untouched f (x ∷ xs) h = ground (arith, count-update_untouched f xs)

  pub count-update_lost :
      (f : A → A) (xs : List A)
      → length (select p xs) ≤ length (select p (update q f xs)) + length (select q xs)
  count-update_lost f [] = omega arith
  count-update_lost f (x ∷ xs) = ground (arith, count-update_lost f xs)

  pub count-remove_untouched :
      (xs : List A)
      → any q (select p xs) ≡ false
      → length (select p xs) ≤ length (select p (remove q xs))
  count-remove_untouched [] h = omega arith
  count-remove_untouched (x ∷ xs) h = ground (arith, count-remove_untouched xs)

  pub count-remove_lost :
      (xs : List A) → length (select p xs) ≤ length (select p (remove q xs)) + length (select q xs)
  count-remove_lost [] = omega arith
  count-remove_lost (x ∷ xs) = ground (arith, count-remove_lost xs)

  pub count-remove_apart :
      (xs : List A)
      → ((x : A) → q x ≡ true → p x ≡ false)
      → length (select p xs) ≤ length (select p (remove q xs))
  count-remove_apart [] apart = omega arith
  count-remove_apart (x ∷ xs) apart = ground (arith, apart x, count-remove_apart xs apart)
