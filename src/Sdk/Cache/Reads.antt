-- ===== src/Sdk/Cache/Reads.antt =====
-- What `get` and `getStale` of packages/sdk-js/src/cache.ts return after a `set`.
use flagraft.Prelude.{
  ℕ, ◌+◌, ◌-◌, Bool, false, ◌&&◌, none, some, List, [], ◌∷◌, String, ◌≡◌, ◌∙◌, refl, arith, find,
  remove, length, leb, ltb, eqb, if◌then◌else◌, find-append, find-remove, Bool-cases, inl, inr,
  eq_refl,
}
use flagraft.Sdk.Cache.{
  TtlCache, Entry, has_key, read, fresh_value, stale_value, get, get_stale, drop_oldest, set,
}

module _ {T : Type 0} where
  find-drop_oldest :
      (p : Entry T → Bool) (xs : List (Entry T)) → find p xs ≡ none → find p (drop_oldest xs) ≡ none
  find-drop_oldest p [] h = refl
  find-drop_oldest p (x ∷ xs) h = ground arith

  read_found :
      (now : ℕ) (key : String) (d : TtlCache T) (x : Entry T) (ttl stale_ttl : ℕ)
      → d.ttl_ms ≡ ttl
      → d.stale_ttl_ms ≡ stale_ttl
      → eqb ttl 0 ≡ false
      → find (has_key key) d.store ≡ some x
      → (read now key d).0 ≡ (
          if leb (ttl + stale_ttl) (now - x.stored_at)
          then none
          else some (record { entry = x; age = now - x.stored_at }))
  unfolding read
  read_found now key d x ttl stale_ttl same stale_same on h =
      rw (same, stale_same, on, h, read) (ground arith)

  module _ (stored : ℕ) (key : String) (value : T) (c : TtlCache T)
      (on : eqb c.ttl_ms 0 ≡ false) where
    entry : Entry T
    entry = record { key = key; value = value; stored_at = stored }

    find_one : find (has_key key) (entry ∷ []) ≡ some entry
    unfolding entry
    find_one = rw (eq_refl key)

    find-set : find (has_key key) (set stored key value c).store ≡ some entry
    unfolding set entry
    find-set =
        let others = remove (has_key key) c.store in
        let gone = find-remove (has_key key) c.store in
        elim (Bool-cases (leb c.max_entries (length others))) [
          | inl full ↦
              rw (on, full)
                (find-append (has_key key) (drop_oldest others) (entry ∷ [])
                    (find-drop_oldest (has_key key) others gone)
                  ∙ find_one)
          | inr free ↦ rw (on, free) (find-append (has_key key) others (entry ∷ []) gone ∙ find_one)
        ]

    ttl-set : (set stored key value c).ttl_ms ≡ c.ttl_ms
    unfolding set
    ttl-set = rw on

    stale_ttl-set : (set stored key value c).stale_ttl_ms ≡ c.stale_ttl_ms
    unfolding set
    stale_ttl-set = rw on

    read-set :
        (now : ℕ)
        → (read now key (set stored key value c)).0 ≡ (
            if leb (c.ttl_ms + c.stale_ttl_ms) (now - stored)
            then none
            else some (record { entry = entry; age = now - stored }))
    unfolding entry
    read-set now =
        read_found now key (set stored key value c) entry c.ttl_ms c.stale_ttl_ms ttl-set
          stale_ttl-set on find-set

-- With caching on, what is stored is returned by `get` for as long as the time to live lasts, by
-- `getStale` in the stale window that follows, by neither in the other's window, and by none
-- after both.
pub get-set :
    {T : Type 0} (stored now : ℕ) (key : String) (value : T) (c : TtlCache T)
    → eqb c.ttl_ms 0 ≡ false
    → ((get now key (set stored key value c)).0
        ≡ (if ltb (now - stored) c.ttl_ms then some value else none))
      × ((get_stale now key (set stored key value c)).0 ≡ (
          if leb c.ttl_ms (now - stored) && ltb (now - stored) (c.ttl_ms + c.stale_ttl_ms)
          then some (record { value = value; stored_at = stored })
          else none))
unfolding get get_stale fresh_value stale_value entry
get-set stored now key value c on = (
  rw (read-set stored key value c on now, ttl-set stored key value c on, get) (ground arith),
  rw (read-set stored key value c on now, ttl-set stored key value c on, get_stale) (ground arith),
)
