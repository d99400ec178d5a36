-- ===== src/Prelude/Keys.antt =====
-- Rows of a table under a key: at most one row passes a test.
use Prim.Native.Nat.{◌≤◌}
use mathlib.Core.Path.{◌≡◌, refl, sym, subst}
use mathlib.Core.Logic.{inl, inr}
use mathlib.Core.Bool.{Bool, true, false}
use mathlib.Core.Option.{none, some}
use mathlib.Core.List.{List, [], ◌∷◌}
use native.Mathlib.Omega.{arith}
use flagraft.Prelude.Tests.{Bool-cases}
use flagraft.Prelude.Rows.{length, find, select, remove, find-remove-none}

module _ {ℓ} {A : Type ℓ} where
  pub counted :
      (p q : A → Bool) (xs : List A) (a : A)
      → find p xs ≡ some a
      → q a ≡ true
      → 1 ≤ length (select q xs)
  counted p q [] a h k = cc
  counted p q (x ∷ xs) a h k = ground (arith, counted p q xs a)

  remove_absent : (p : A → Bool) (xs : List A) → length (select p xs) ≤ 0 → remove p xs ≡ xs
  remove_absent p [] h = refl
  remove_absent p (x ∷ xs) h = ground (arith, remove_absent p xs)

  find_absent : (p : A → Bool) (xs : List A) → length (select p xs) ≤ 0 → find p xs ≡ none
  find_absent p [] h = refl
  find_absent p (x ∷ xs) h = ground (arith, find_absent p xs)

  -- The key finds what any other test finds of it.
  pub find_only :
      (p q : A → Bool) (xs : List A) (a : A)
      → length (select q xs) ≤ 1
      → find p xs ≡ some a
      → q a ≡ true
      → find q xs ≡ some a
  find_only p q [] a one h k = cc
  find_only p q (x ∷ xs) a one h k = ground (arith, find_only p q xs a, counted p q xs a)

  pub find-remove_only :
      (p q : A → Bool) (xs : List A) (a : A)
      → length (select p xs) ≤ 1
      → find p xs ≡ some a
      → q a ≡ true
      → find p (remove q xs) ≡ none
  find-remove_only p q [] a one h k = refl
  find-remove_only p q (x ∷ xs) a one h k = elim (Bool-cases (p x)) [
    | inr other ↦ ground (arith, find-remove_only p q xs a)
    | inl first ↦
        let same : x ≡ a = ground arith in
        let gone : q x ≡ true = subst (λ y. q y ≡ true) (sym same) k in
        let rest = find-remove-none p q xs (find_absent p xs (ground arith)) in ground arith
  ]

  -- The one row of a key fails a second test: removing it changes nothing for that test.
  module _ (q r : A → Bool) where
    pub find-remove_other :
        (xs : List A) (a : A)
        → length (select q xs) ≤ 1
        → find q xs ≡ some a
        → r a ≡ false
        → find r (remove q xs) ≡ find r xs
    find-remove_other [] a one h k = refl
    find-remove_other (x ∷ xs) a one h k = elim (Bool-cases (q x)) [
      | inr other ↦ ground (arith, find-remove_other xs a)
      | inl first ↦
          let same : x ≡ a = ground arith in
          let off : r x ≡ false = subst (λ y. r y ≡ false) (sym same) k in
          let rest = remove_absent q xs (ground arith) in ground arith
    ]

    pub select-remove_other :
        (xs : List A) (a : A)
        → length (select q xs) ≤ 1
        → find q xs ≡ some a
        → r a ≡ false
        → select r (remove q xs) ≡ select r xs
    select-remove_other [] a one h k = refl
    select-remove_other (x ∷ xs) a one h k = elim (Bool-cases (q x)) [
      | inr other ↦ ground (arith, select-remove_other xs a)
      | inl first ↦
          let same : x ≡ a = ground arith in
          let off : r x ≡ false = subst (λ y. r y ≡ false) (sym same) k in
          let rest = remove_absent q xs (ground arith) in ground arith
    ]
