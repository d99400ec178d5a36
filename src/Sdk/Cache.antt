-- ===== src/Sdk/Cache.antt =====
-- `TtlCache` of packages/sdk-js/src/cache.ts. The `Map` is the list of its entries in the order in
-- which they were inserted. Times are milliseconds, the two windows whole seconds; a clock that
-- goes back makes an entry's age 0 here and negative there, and every test is false of both.
pub mod Bounds
pub mod Reads
use flagraft.Prelude.{
  ℕ, ◌+◌, ◌-◌, ◌*◌, min, max, Bool, Option, none, some, List, [], ◌∷◌, ◌++◌, String, ◌==◌, find,
  remove, length, leb, ltb, eqb, if◌then◌else◌,
}

abbrev pub max_cache_entries : ℕ
max_cache_entries = 10000

pub record Entry (T : Type 0) : Type 0 where
  pub key : String
  pub value : T
  pub stored_at : ℕ

pub record StaleHit (T : Type 0) : Type 0 where
  pub value : T
  pub stored_at : ℕ

pub record TtlCache (T : Type 0) : Type 0 where
  pub store : List (Entry T)
  pub ttl_ms : ℕ
  pub stale_ttl_ms : ℕ
  pub max_entries : ℕ

pub record Hit (T : Type 0) : Type 0 where
  pub entry : Entry T
  pub age : ℕ

module _ {T : Type 0} where
  -- The constructor on natural numbers, to which `Math.max(0, …)` does nothing; fractions, NaN and
  -- the infinite number, which the source takes too, are not modelled.
  unfoldable pub new_cache : ℕ → ℕ → ℕ → TtlCache T
  new_cache ttl_seconds stale_ttl_seconds max_entries = record {
    store = [];
    ttl_ms = ttl_seconds * 1000;
    stale_ttl_ms = stale_ttl_seconds * 1000;
    max_entries = min max_cache_entries (max 1 max_entries);
  }

  abbrev pub has_key : String → Entry T → Bool
  has_key key e = e.key == key

  -- `this.store.delete(key)`
  unfoldable pub delete : String → TtlCache T → TtlCache T
  delete key c = record c { store = remove (has_key key) c.store }

  abbrev pub clear : TtlCache T → TtlCache T
  clear c = record c { store = [] }

  unfoldable pub read : ℕ → String → TtlCache T → Option (Hit T) × TtlCache T
  unfolding delete
  read now key c = if eqb c.ttl_ms 0 then (none, c) else elim (find (has_key key) c.store) [
    | none ↦ (none, c)
    | some entry ↦
        let age = now - entry.stored_at in
        if leb (c.ttl_ms + c.stale_ttl_ms) age
        then (none, delete key c)
        else (some (record { entry = entry; age = age }), c)
  ]

  -- `!hit || hit.age >= this.ttlMs`
  unfoldable pub fresh_value : ℕ → Option (Hit T) → Option T
  fresh_value ttl_ms none = none
  fresh_value ttl_ms (some hit) = if leb ttl_ms hit.age then none else some hit.entry.value

  -- `!hit || hit.age < this.ttlMs`
  unfoldable pub stale_value : ℕ → Option (Hit T) → Option (StaleHit T)
  stale_value ttl_ms none = none
  stale_value ttl_ms (some hit) =
      if ltb hit.age ttl_ms
      then none
      else some (record { value = hit.entry.value; stored_at = hit.entry.stored_at })

  unfoldable pub get : ℕ → String → TtlCache T → Option T × TtlCache T
  unfolding read fresh_value
  get now key c = let r = read now key c in (fresh_value c.ttl_ms r.0, r.1)

  unfoldable pub get_stale : ℕ → String → TtlCache T → Option (StaleHit T) × TtlCache T
  unfolding read stale_value
  get_stale now key c = let r = read now key c in (stale_value c.ttl_ms r.0, r.1)

  -- The first key of the `Map` is the one that was inserted first.
  abbrev pub drop_oldest : List (Entry T) → List (Entry T)
  drop_oldest [] = []
  drop_oldest (e ∷ entries) = entries

  unfoldable pub set : ℕ → String → T → TtlCache T → TtlCache T
  set now key value c =
      if eqb c.ttl_ms 0
      then c
      else let others = remove (has_key key) c.store in
        record c {
          store =
              (if leb c.max_entries (length others) then drop_oldest others else others)
              ++ record { key = key; value = value; stored_at = now } ∷ [];
        }
