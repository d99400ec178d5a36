-- ===== src/Cache.antt =====
-- The server's cache: `createCache` of src/cache/index.ts over the package bentocache, and `cacheKeys`
-- of src/cache/keys.ts. A factory that is still running when its key is deleted is not modelled.
pub mod Keys
pub mod Fresh
use flagraft.Prelude.{
  Bool, true, false, not, Option, none, some, List, [], ◌∷◌, String, ◌==◌, ◌≡◌, select, remove,
  or_else, starts_with, text_append, if◌then◌else◌,
}
use flagraft.Evaluate.Constraint.{add_name}

-- What the code relies on of BentoCache with its memory driver: `held` is what is stored under a key
-- and has not run out.
pub record Bento (V : Type 0) : Type 1 where
  pub Store : Type 0
  pub empty : Store
  pub held : Store → String → Option V
  pub get_or_set : String → V → Store → V × Store
  pub delete : String → Store → Store

pub record IsBento {V : Type 0} (bento : Bento V) : Type 0 where
  pub held-empty : (k : String) → bento.held bento.empty k ≡ none
  -- A value that is held is returned, else the factory's, which is then stored.
  pub get_or_set-value :
      (k : String) (v : V) (s : bento.Store)
      → (bento.get_or_set k v s).0 ≡ or_else (bento.held s k) v
  pub held-get_or_set :
      (k l : String) (v : V) (s : bento.Store)
      → (k == l) ≡ false
      → bento.held (bento.get_or_set k v s).1 l ≡ bento.held s l
  pub held-delete : (k : String) (s : bento.Store) → bento.held (bento.delete k s) k ≡ none
  pub held-delete_ne :
      (k l : String) (s : bento.Store)
      → (k == l) ≡ false
      → bento.held (bento.delete k s) l ≡ bento.held s l

-- The closure's variables: the store and the set of the keys that it may hold.
pub record Cache (Store : Type 0) : Type 0 where
  pub store : Store
  pub known_keys : List String

module _ {V : Type 0} (bento : Bento V) where
  abbrev pub create_cache : Cache bento.Store
  create_cache = record { store = bento.empty; known_keys = [] }

  unfoldable pub get_or_set : String → V → Cache bento.Store → V × Cache bento.Store
  get_or_set key made cache =
      let found = bento.get_or_set key made cache.store in
      (found.0, record { store = found.1; known_keys = add_name key cache.known_keys })

  unfoldable pub delete : String → Cache bento.Store → Cache bento.Store
  delete key cache = record {
    store = bento.delete key cache.store;
    known_keys = remove (λ k. k == key) cache.known_keys;
  }

  unfoldable pub delete_all : List String → Cache bento.Store → Cache bento.Store
  unfolding delete
  delete_all [] cache = cache
  delete_all (k ∷ keys) cache = delete_all keys (delete k cache)

  unfoldable pub delete_by_prefix : String → Cache bento.Store → Cache bento.Store
  unfolding delete_all starts_with
  delete_by_prefix prefix cache =
      delete_all (select (λ k. starts_with k prefix) cache.known_keys) cache

abbrev pub flag_state_prefix : String → String
flag_state_prefix project_id = text_append "flags:" (text_append project_id ":")

abbrev pub flag_state_key : String → String → String
flag_state_key project_id environment_id = text_append (flag_state_prefix project_id) environment_id

abbrev pub api_key_key : String → String
api_key_key key_hash = text_append "apikey:" key_hash
