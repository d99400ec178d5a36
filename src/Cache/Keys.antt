-- ===== src/Cache/Keys.antt =====
-- Sets of cache keys, and the prefix of a project's keys: src/cache/index.ts and src/cache/keys.ts.
use Prim.Native.String
use text.Mathlib.TextLemmas.{nil-append, cons-append}
use flagraft.Prelude.{
  Bool, true, false, some, List, [], ◌∷◌, ◌==◌, ◌≡◌, refl, subst, ap, arith, select, remove,
  starts_with, strip_prefix, is_some, text_append, eq_iff, eq_refl, Bool-cases, inl, inr,
  any-append,
}
use flagraft.Evaluate.Constraint.{add_name, list_includes}
use flagraft.Cache.{flag_state_prefix, flag_state_key}

strip_prefix-append : (p s : String.String) → strip_prefix p (text_append p s) ≡ some s
unfolding strip_prefix
strip_prefix-append String.[] s = ap some (nil-append s)
strip_prefix-append (String.◌∷◌ c p) s =
    rw (cons-append c p s) (ground (arith, strip_prefix-append p s))

pub key_under_prefix :
    (project_id environment_id : String.String)
    → starts_with (flag_state_key project_id environment_id) (flag_state_prefix project_id) ≡ true
unfolding starts_with
key_under_prefix project_id environment_id =
    ap is_some (strip_prefix-append (flag_state_prefix project_id) environment_id)

pub includes-remove :
    (key k : String.String) (keys : List String.String)
    → (key == k) ≡ false
    → list_includes keys k ≡ true
    → list_includes (remove (λ x. x == key) keys) k ≡ true
includes-remove key k [] ne h = h
includes-remove key k (x ∷ keys) ne h =
    let rest = includes-remove key k keys ne in
    ground (arith, rest, eq_iff x key, eq_iff k x, eq_iff key k)

pub includes-add_name :
    (key : String.String) (keys : List String.String) → list_includes (add_name key keys) key ≡ true
includes-add_name key keys = elim (Bool-cases (list_includes keys key)) [
  | inl old ↦ rw (old, old)
  | inr new ↦ rw (new, any-append (λ x. key == x) keys (key ∷ [])) (ground (arith, eq_refl key))
]

pub includes-add_name_old :
    (key k : String.String) (keys : List String.String)
    → list_includes keys k ≡ true
    → list_includes (add_name key keys) k ≡ true
includes-add_name_old key k keys h = elim (Bool-cases (list_includes keys key)) [
  | inl old ↦ rw old h
  | inr new ↦ rw (new, any-append (λ x. k == x) keys (key ∷ []), h) refl
]

-- One more key in front keeps the others.
if_includes :
    (p : String.String → Bool) (k x : String.String) (keys : List String.String)
    → list_includes (select p keys) k ≡ true
    → list_includes (select p (x ∷ keys)) k ≡ true
if_includes p k x keys h = ground arith

pub includes-select :
    (p : String.String → Bool) (k : String.String) (keys : List String.String)
    → list_includes keys k ≡ true
    → p k ≡ true
    → list_includes (select p keys) k ≡ true
includes-select p k [] h q = h
includes-select p k (x ∷ keys) h q = elim (Bool-cases (k == x)) [
  | inl same ↦
      let passes = subst (λ y. p y ≡ true) ((eq_iff k x).0 same) q in rw (passes, same) refl
  | inr other ↦
      let rest = includes-select p k keys (ground (arith, other)) q in if_includes p k x keys rest
]
