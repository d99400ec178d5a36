-- ===== src/Tests/Cache.antt =====
-- The theorem on the server's cache, with a cache that is an association list.
use flagraft.Prelude.{
  Bool, true, false, Option, none, some, [], ◌∷◌, String, ◌==◌, ◌≡◌, refl, arith, eq_iff, or_else,
  remove,
}
use flagraft.Evaluate.Flag.{Dictionary, lookup}
use flagraft.Cache.{
  Bento, IsBento, create_cache, get_or_set, delete_by_prefix, flag_state_prefix, flag_state_key,
}
use flagraft.Cache.Fresh.{stop, step, by_get_or_set, get_or_set-delete_by_prefix}

abbrev without : String → Dictionary Bool → Dictionary Bool
without k = remove (λ (e : String × Bool). e.0 == k)

-- The value that is held, or the made one, which then stands in front.
abbrev read_or_store : String → Bool → Option Bool → Dictionary Bool → Bool × Dictionary Bool
read_or_store k v none s = (v, (k, v) ∷ s)
read_or_store k v (some w) s = (w, s)

abbrev sample_bento : Bento Bool
sample_bento = record {
  Store = Dictionary Bool;
  empty = [];
  held = λ s k. lookup k s;
  get_or_set = λ k v s. read_or_store k v (lookup k s) s;
  delete = without;
}

lookup-without : (k : String) (s : Dictionary Bool) → lookup k (without k s) ≡ none
unfolding lookup
lookup-without k [] = refl
lookup-without k ((l, v) ∷ s) = ground (arith, lookup-without k s)

lookup-without_ne :
    (k l : String) (s : Dictionary Bool) → (k == l) ≡ false → lookup l (without k s) ≡ lookup l s
unfolding lookup
lookup-without_ne k l [] ne = refl
lookup-without_ne k l ((m, v) ∷ s) ne =
    ground (arith, lookup-without_ne k l s ne, eq_iff m k, eq_iff m l, eq_iff k l)

read_or_store-lookup :
    (k l : String) (v : Bool) (o : Option Bool) (s : Dictionary Bool)
    → (k == l) ≡ false
    → lookup l (read_or_store k v o s).1 ≡ lookup l s
unfolding lookup
read_or_store-lookup k l v none s ne = rw ne refl
read_or_store-lookup k l v (some w) s ne = refl

read_or_store-or_else :
    (k : String) (v : Bool) (o : Option Bool) (s : Dictionary Bool)
    → (read_or_store k v o s).0 ≡ or_else o v
read_or_store-or_else k v none s = refl
read_or_store-or_else k v (some w) s = refl

sample_bento-IsBento : IsBento sample_bento
unfolding lookup
sample_bento-IsBento = record {
  held-empty = λ k. refl;
  get_or_set-value = λ k v s. read_or_store-or_else k v (lookup k s) s;
  held-get_or_set = λ k l v s ne. read_or_store-lookup k l v (lookup k s) s ne;
  held-delete = lookup-without;
  held-delete_ne = lookup-without_ne;
}

get_or_set-delete_by_prefix_example :
    (get_or_set sample_bento (flag_state_key "p" "e") true (
      delete_by_prefix sample_bento
        (flag_state_prefix "p")
        (get_or_set sample_bento (flag_state_key "p" "e") false (create_cache sample_bento)).1)).0
    ≡ true
get_or_set-delete_by_prefix_example =
    get_or_set-delete_by_prefix sample_bento
      (get_or_set sample_bento (flag_state_key "p" "e") false (create_cache sample_bento)).1 "p" "e"
      true sample_bento-IsBento
      (step _ _ _ (by_get_or_set (flag_state_key "p" "e") false (create_cache sample_bento))
        (stop _))
