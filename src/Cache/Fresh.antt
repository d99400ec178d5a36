-- ===== src/Cache/Fresh.antt =====
-- Invalidation: what src/cache/index.ts promises to the routes that change a project's flags.
use Prim.Native.String
use flagraft.Prelude.{
  true, none, some, List, [], ◌∷◌, ◌==◌, ◌≡◌, ◌⊎◌, sym, subst, ap, ◌∙◌, arith, select, or_else,
  starts_with, eq_iff, Bool-cases, Option-cases, inl, inr,
}
use flagraft.Evaluate.Constraint.{add_name, list_includes}
use flagraft.Cache.Keys.{
  key_under_prefix, includes-remove, includes-add_name, includes-add_name_old, includes-select,
}
use flagraft.Cache.{
  Bento, IsBento, Cache, create_cache, get_or_set, delete, delete_all, delete_by_prefix,
  flag_state_prefix, flag_state_key,
}

module _ {V : Type 0} (bento : Bento V) where
  -- What anyone can do to the cache; `expire` is the time that passes.
  pub data CacheStep : Cache bento.Store → Cache bento.Store → Type 0 where
    by_get_or_set :
        (k : String.String) (v : V) (c : Cache bento.Store) → CacheStep c (get_or_set bento k v c).1
    by_delete : (k : String.String) (c : Cache bento.Store) → CacheStep c (delete bento k c)
    by_prefix :
        (p : String.String) (c : Cache bento.Store) → CacheStep c (delete_by_prefix bento p c)
    expire :
        (c : Cache bento.Store) (s : bento.Store)
        → ((k : String.String) (v : V) → bento.held s k ≡ some v → bento.held c.store k ≡ some v)
        → CacheStep c (record c { store = s })

  pub data CacheSteps : Cache bento.Store → Cache bento.Store → Type 0 where
    stop : (c : Cache bento.Store) → CacheSteps c c
    step : (a b c : Cache bento.Store) → CacheStep a b → CacheSteps b c → CacheSteps a c

  -- Every key that is held is known.
  abbrev IsTracked : Cache bento.Store → Type 0
  IsTracked c =
      (k : String.String) (v : V)
      → bento.held c.store k ≡ some v
      → list_includes c.known_keys k ≡ true

  module _ (lawful : IsBento bento) where
    delete-IsTracked :
        (key : String.String) (c : Cache bento.Store) → IsTracked c → IsTracked (delete bento key c)
    unfolding delete
    delete-IsTracked key c tracked k v h = elim (Bool-cases (key == k)) [
      | inl same ↦
          let gone : bento.held (bento.delete key c.store) k ≡ none =
            subst (λ x. bento.held (bento.delete key c.store) x ≡ none) ((eq_iff key k).0 same)
              (lawful.held-delete key c.store) in
          cc
      | inr other ↦
          includes-remove key k c.known_keys other
            (tracked k v (sym (lawful.held-delete_ne key k c.store other) ∙ h))
    ]

    get_or_set-IsTracked :
        (key : String.String) (made : V) (c : Cache bento.Store)
        → IsTracked c
        → IsTracked (get_or_set bento key made c).1
    unfolding get_or_set
    get_or_set-IsTracked key made c tracked k v h = elim (Bool-cases (key == k)) [
      | inl same ↦
          subst (λ x. list_includes (add_name key c.known_keys) x ≡ true) ((eq_iff key k).0 same)
            (includes-add_name key c.known_keys)
      | inr other ↦
          includes-add_name_old key k c.known_keys
            (tracked k v (sym (lawful.held-get_or_set key k made c.store other) ∙ h))
    ]

    delete_all-IsTracked :
        (keys : List String.String) (c : Cache bento.Store)
        → IsTracked c
        → IsTracked (delete_all bento keys c)
    unfolding delete_all
    delete_all-IsTracked [] c tracked = tracked
    delete_all-IsTracked (k ∷ keys) c tracked =
        delete_all-IsTracked keys (delete bento k c) (delete-IsTracked k c tracked)

    CacheStep-IsTracked : (a b : Cache bento.Store) → CacheStep a b → IsTracked a → IsTracked b
    unfolding delete_by_prefix
    CacheStep-IsTracked a b (by_get_or_set k v c) tracked = get_or_set-IsTracked k v c tracked
    CacheStep-IsTracked a b (by_delete k c) tracked = delete-IsTracked k c tracked
    CacheStep-IsTracked a b (by_prefix p c) tracked =
        delete_all-IsTracked (select (λ k. starts_with k p) c.known_keys) c tracked
    CacheStep-IsTracked a b (expire c s fewer) tracked = λ k v h. tracked k v (fewer k v h)

    CacheSteps-IsTracked : (a b : Cache bento.Store) → CacheSteps a b → IsTracked a → IsTracked b
    CacheSteps-IsTracked a b (stop c) tracked = tracked
    CacheSteps-IsTracked a b (step c d e s rest) tracked =
        CacheSteps-IsTracked d e rest (CacheStep-IsTracked c d s tracked)

    -- A key that is to go is gone after a deletion, or is to go still.
    still :
        (x : String.String) (keys : List String.String) (k : String.String) (c : Cache bento.Store)
        → (list_includes (x ∷ keys) k ≡ true) ⊎ (bento.held c.store k ≡ none)
        → (list_includes keys k ≡ true) ⊎ (bento.held (delete bento x c).store k ≡ none)
    unfolding delete
    still x keys k c h = elim (Bool-cases (x == k)) [
      | inl same ↦ inr (
          subst (λ y. bento.held (bento.delete x c.store) y ≡ none) ((eq_iff x k).0 same)
            (lawful.held-delete x c.store))
      | inr other ↦ elim h [
        | inl listed ↦ inl (ground (arith, eq_iff x k, eq_iff k x))
        | inr gone ↦ inr (lawful.held-delete_ne x k c.store other ∙ gone)
      ]
    ]

    delete_all-held :
        (keys : List String.String) (k : String.String) (c : Cache bento.Store)
        → (list_includes keys k ≡ true) ⊎ (bento.held c.store k ≡ none)
        → bento.held (delete_all bento keys c).store k ≡ none
    unfolding delete_all delete
    delete_all-held [] k c (inl h) = cc
    delete_all-held [] k c (inr h) = h
    delete_all-held (x ∷ keys) k c h =
        delete_all-held keys k (delete bento x c) (still x keys k c h)

    delete_by_prefix-held :
        (c : Cache bento.Store) (p k : String.String)
        → IsTracked c
        → starts_with k p ≡ true
        → bento.held (delete_by_prefix bento p c).store k ≡ none
    unfolding delete_by_prefix
    delete_by_prefix-held c p k tracked under =
        let targets = select (λ x. starts_with x p) c.known_keys in
        delete_all-held targets k c (elim (Option-cases (bento.held c.store k)) [
          | inl nothing ↦ inr nothing
          | inr (v, found) ↦
              inl (includes-select (λ x. starts_with x p) k c.known_keys (tracked k v found) under)
        ])

-- A change of flags is seen. In any state that a cache comes to, once the keys of a project are
-- invalidated by their prefix, the next read of any of its environments takes what is loaded then,
-- and nothing that was stored before.
pub get_or_set-delete_by_prefix :
    {V : Type 0} (bento : Bento V) (c : Cache bento.Store)
    (project_id environment_id : String.String) (made : V)
    → IsBento bento
    → CacheSteps bento (create_cache bento) c
    → (get_or_set bento
        (flag_state_key project_id environment_id)
        made
        (delete_by_prefix bento (flag_state_prefix project_id) c)).0
      ≡ made
unfolding get_or_set
get_or_set-delete_by_prefix bento c project_id environment_id made lawful steps =
    let key = flag_state_key project_id environment_id in
    let tracked =
      CacheSteps-IsTracked bento lawful (create_cache bento) c steps
        (λ k v h. ground (arith, lawful.held-empty k, h)) in
    let after = delete_by_prefix bento (flag_state_prefix project_id) c in
    let gone : bento.held after.store key ≡ none =
      delete_by_prefix-held bento lawful c (flag_state_prefix project_id) key tracked
        (key_under_prefix project_id environment_id) in
    lawful.get_or_set-value key made after.store ∙ ap (λ o. or_else o made) gone
