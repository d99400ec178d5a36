-- ===== src/Sdk/Cache/Bounds.antt =====
-- The bound on the size of `TtlCache` and the uniqueness of its keys,
-- packages/sdk-js/src/cache.ts.
use flagraft.Prelude.{
  ℕ, suc, ◌+◌, ◌-◌, ◌≤◌, eq_iff, subst, Bool, false, Option, List, [], ◌∷◌, ◌++◌, String, ◌==◌, ◌≡◌,
  ap, arith, find, remove, select, length, leb, eqb, if◌then◌else◌, if_both, length-append,
  select-append, select-remove, length-select-remove-le, Option-cases, Bool-cases, inl, inr,
}
use flagraft.Sdk.Cache.{
  TtlCache, Entry, Hit, max_cache_entries, new_cache, has_key, delete, clear, read, get, get_stale,
  drop_oldest, set,
}

-- At most `maxEntries` entries, which is between 1 and the cap, and one entry for a key.
pub record IsBounded {T : Type 0} (c : TtlCache T) : Type 0 where
  pub some_room : 1 ≤ c.max_entries
  pub capped : c.max_entries ≤ max_cache_entries
  pub bounded : length c.store ≤ c.max_entries
  pub unique : (key : String) → length (select (has_key key) c.store) ≤ 1

-- One call on a cache.
pub data CacheStep {T : Type 0} : TtlCache T → TtlCache T → Type 0 where
  got : (now : ℕ) (key : String) {c : TtlCache T} → CacheStep c (get now key c).1
  got_stale : (now : ℕ) (key : String) {c : TtlCache T} → CacheStep c (get_stale now key c).1
  stored : (now : ℕ) (key : String) (value : T) {c : TtlCache T} → CacheStep c (set now key value c)
  deleted : (key : String) {c : TtlCache T} → CacheStep c (delete key c)
  cleared : {c : TtlCache T} → CacheStep c (clear c)

-- Any sequence of calls.
pub data CacheSteps {T : Type 0} : TtlCache T → TtlCache T → Type 0 where
  stop : {c : TtlCache T} → CacheSteps c c
  call : {c d e : TtlCache T} → CacheStep c d → CacheSteps d e → CacheSteps c e

module _ {ℓ} {A : Type ℓ} where
  length-remove-le : (p : A → Bool) (xs : List A) → length (remove p xs) ≤ length xs
  length-remove-le p [] = omega arith
  length-remove-le p (x ∷ xs) = ground (arith, length-remove-le p xs)

module _ {T : Type 0} where
  length-drop_oldest :
      (m : ℕ) (xs : List (Entry T)) → 1 ≤ m → length xs ≤ m → suc (length (drop_oldest xs)) ≤ m
  length-drop_oldest m [] h k = h
  length-drop_oldest m (x ∷ xs) h k = k

  select-drop_oldest :
      (p : Entry T → Bool) (xs : List (Entry T))
      → length (select p (drop_oldest xs)) ≤ length (select p xs)
  select-drop_oldest p [] = omega arith
  select-drop_oldest p (x ∷ xs) = ground arith

  delete-IsBounded : (key : String) (c : TtlCache T) → IsBounded c → IsBounded (delete key c)
  unfolding delete
  delete-IsBounded key c v = record {
    some_room = v.some_room;
    capped = v.capped;
    bounded = omega (arith, v.bounded, length-remove-le (has_key key) c.store);
    unique =
        λ k. omega (arith, v.unique k, length-select-remove-le (has_key k) (has_key key) c.store);
  }

  read-IsBounded :
      (now : ℕ) (key : String) (c : TtlCache T) → IsBounded c → IsBounded (read now key c).1
  unfolding read
  read-IsBounded now key c v = elim (Bool-cases (eqb c.ttl_ms 0)) [
    | inl off ↦ rw (off, read) v
    | inr on ↦ elim (Option-cases (find (has_key key) c.store)) [
      | inl e ↦ rw (on, e, read) v
      | inr (x, e) ↦
          rw (on, e, read)
            (if_both (λ (r : Option (Hit T) × TtlCache T). IsBounded r.1)
              (leb (c.ttl_ms + c.stale_ttl_ms) (now - x.stored_at)) (delete-IsBounded key c v) v)
    ]
  ]

  module _ (now : ℕ) (key : String) (value : T) (c : TtlCache T) (v : IsBounded c) where
    others : List (Entry T)
    others = remove (has_key key) c.store

    kept : List (Entry T)
    kept = if leb c.max_entries (length others) then drop_oldest others else others

    kept_room : suc (length kept) ≤ c.max_entries
    unfolding kept others
    kept_room =
        let shorter = length-remove-le (has_key key) c.store in
        elim (Bool-cases (leb c.max_entries (length (remove (has_key key) c.store)))) [
          | inl full ↦
              rw (full, kept)
                (length-drop_oldest c.max_entries (remove (has_key key) c.store) v.some_room
                  (omega (arith, shorter, v.bounded)))
          | inr free ↦ rw (free, kept) (ground (arith, free))
        ]

    kept-select : (p : Entry T → Bool) → length (select p kept) ≤ length (select p others)
    unfolding kept others
    kept-select p =
        if_both (λ xs. length (select p xs) ≤ length (select p others))
          (leb c.max_entries (length others)) (select-drop_oldest p others) (omega arith)

    select_one :
        (k : String)
        → length (select (has_key k) (record { key = key; value = value; stored_at = now } ∷ []))
          ≤ 1
    select_one k = ground arith

    select_new :
        (k : String)
        → (key == k) ≡ false
        → length
            (select (has_key {T = T} k) (record { key = key; value = value; stored_at = now } ∷ []))
          ≡ 0
    select_new k h = ground arith

    set_unique :
        (k : String)
        → length
            (select (has_key k) (kept ++ record { key = key; value = value; stored_at = now } ∷ []))
          ≤ 1
    unfolding others
    set_unique k =
        let e : Entry T = record { key = key; value = value; stored_at = now } in
        let parts = select-append (has_key k) kept (e ∷ []) in
        elim (Bool-cases (key == k)) [
          | inl same ↦
              rw (parts, length-append (select (has_key k) kept) (select (has_key k) (e ∷ [])))
                (omega (
                  arith,
                  select_one k,
                  kept-select (has_key k),
                  ap length (
                      subst (λ j. select (has_key j) others ≡ []) ((eq_iff key k).0 same)
                        (select-remove (has_key key) c.store)),
                ))
          | inr apart ↦
              rw (parts, length-append (select (has_key k) kept) (select (has_key k) (e ∷ [])))
                (omega (
                  arith,
                  select_new k apart,
                  kept-select (has_key k),
                  length-select-remove-le (has_key k) (has_key key) c.store,
                  v.unique k,
                ))
        ]

    set-IsBounded : IsBounded (set now key value c)
    unfolding set kept others
    set-IsBounded =
        let e : Entry T = record { key = key; value = value; stored_at = now } in
        if_both IsBounded (eqb c.ttl_ms 0) v (record {
          some_room = v.some_room;
          capped = v.capped;
          bounded = omega (arith, length-append kept (e ∷ []), kept_room);
          unique = set_unique;
        })

  step-IsBounded : {c d : TtlCache T} → CacheStep c d → IsBounded c → IsBounded d
  unfolding get get_stale
  step-IsBounded (got now key {c}) v = read-IsBounded now key c v
  step-IsBounded (got_stale now key {c}) v = read-IsBounded now key c v
  step-IsBounded (stored now key value {c}) v = set-IsBounded now key value c v
  step-IsBounded (deleted key {c}) v = delete-IsBounded key c v
  step-IsBounded cleared v = record {
    some_room = v.some_room;
    capped = v.capped;
    bounded = omega (arith, v.some_room);
    unique = λ k. omega arith;
  }

  steps-IsBounded : {c d : TtlCache T} → CacheSteps c d → IsBounded c → IsBounded d
  steps-IsBounded stop v = v
  steps-IsBounded (call step rest) v = steps-IsBounded rest (step-IsBounded step v)

-- Whatever natural numbers the constructor was given and whatever calls follow, the cache holds at
-- most `maxEntries` entries, which is between 1 and 10,000, and at most one entry for each key.
pub CacheSteps-IsBounded :
    {T : Type 0} (ttl stale_ttl entries : ℕ) {c : TtlCache T}
    → CacheSteps (new_cache ttl stale_ttl entries) c
    → IsBounded c
unfolding new_cache
CacheSteps-IsBounded ttl stale_ttl entries steps = steps-IsBounded steps (record {
  some_room = ground arith;
  capped = ground arith;
  bounded = ground arith;
  unique = λ k. omega arith;
})
