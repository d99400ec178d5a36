-- ===== src/Evaluate/Version/Order.antt =====
-- The order that `compareTuple` of src/modules/client/evaluate.ts puts on versions.
use flagraft.Prelude.{
  true, false, not, some, List, [], ◌∷◌, String, ◌≡◌, refl, arith, any, map, Option-cases, inl, inr,
  trim, before, split,
}
use flagraft.Evaluate.Runtime.{Runtime, IsOrdered}
use flagraft.Evaluate.Version.{
  Comparison, below, same, above, Version, compare_part, compare_tuple, compare_versions, at_most,
  is_below, parse_version, pad,
}

-- The comparison of the two swapped: `-cmp`.
abbrev pub flip : Comparison → Comparison
flip below = above
flip same = same
flip above = below

module _ (rt : Runtime) where
  open rt use {Num, is_nan, is_finite, lt, eq}

  abbrev pub HasNumbers : Version Num → Type 0
  HasNumbers v = (is_nan v.major ≡ false) × (is_nan v.minor ≡ false) × (is_nan v.patch ≡ false)

module _ (rt : Runtime) (o : IsOrdered rt) where
  open rt use {Num, is_nan, is_finite, lt, eq}

  any-pad : (ns : List Num) → any (λ n. not (is_finite n)) ns ≡ false → HasNumbers rt (pad rt ns)
  unfolding pad
  any-pad [] h = ground (arith, o.finite rt.zero, o.zero_finite)
  any-pad (a ∷ []) h = ground (arith, o.finite rt.zero, o.zero_finite, o.finite a)
  any-pad (a ∷ b ∷ []) h = ground (arith, o.finite rt.zero, o.zero_finite, o.finite a, o.finite b)
  any-pad (a ∷ b ∷ c ∷ ns) h = ground (arith, o.finite a, o.finite b, o.finite c)

  -- A parsed version has no NaN among its parts.
  pub parse_version-HasNumbers :
      (s : String) (v : Version Num) → parse_version rt s ≡ some v → HasNumbers rt v
  unfolding parse_version
  parse_version-HasNumbers s v h =
      let nums = map rt.number (split b'.' (before b'-' (before b'+' (trim s)))) in
      ground (arith, any-pad nums)

  part-flip :
      (a b : Num) (r : Comparison)
      → is_nan a ≡ false
      → is_nan b ≡ false
      → compare_part rt b a (flip r) ≡ flip (compare_part rt a b r)
  part-flip a b r p q =
      ground (arith, o.eq_sym a b, o.eq_sym b a, o.total a b, o.lt_asymm a b, o.lt_asymm b a)

  pub compare_tuple-flip :
      (a b : Version Num)
      → HasNumbers rt a
      → HasNumbers rt b
      → compare_tuple rt b a ≡ flip (compare_tuple rt a b)
  unfolding compare_tuple
  compare_tuple-flip a b (p, q, r) (p', q', r') = rw (
    ← part-flip a.major b.major _ p p',
    ← part-flip a.minor b.minor _ q q',
    ← part-flip a.patch b.patch same r r',
  )

  -- One part of a lexicographic comparison keeps transitivity.
  part_trans :
      (a b c : Num) (r s t : Comparison)
      → (at_most r ≡ true → at_most s ≡ true → at_most t ≡ true)
      → at_most (compare_part rt a b r) ≡ true
      → at_most (compare_part rt b c s) ≡ true
      → at_most (compare_part rt a c t) ≡ true
  part_trans a b c r s t k h h' =
      ground
        (arith, k, o.eq_trans a b c, o.lt_trans a b c, o.lt_eq a b c, o.eq_lt a b c, o.lt-ne a c)

  pub at_most_trans :
      (a b c : Version Num)
      → at_most (compare_tuple rt a b) ≡ true
      → at_most (compare_tuple rt b c) ≡ true
      → at_most (compare_tuple rt a c) ≡ true
  unfolding compare_tuple
  at_most_trans a b c h k =
      part_trans a.major b.major c.major _ _ _
        (part_trans a.minor b.minor c.minor _ _ _
          (part_trans a.patch b.patch c.patch same same same (λ _ _. refl)))
        h k

  part_trans_below :
      (a b c : Num) (r s t : Comparison)
      → (is_below r ≡ true → at_most s ≡ true → is_below t ≡ true)
      → is_below (compare_part rt a b r) ≡ true
      → at_most (compare_part rt b c s) ≡ true
      → is_below (compare_part rt a c t) ≡ true
  part_trans_below a b c r s t k h h' =
      ground
        (arith, k, o.eq_trans a b c, o.lt_trans a b c, o.lt_eq a b c, o.eq_lt a b c, o.lt-ne a c)

  pub is_below_trans :
      (a b c : Version Num)
      → is_below (compare_tuple rt a b) ≡ true
      → at_most (compare_tuple rt b c) ≡ true
      → is_below (compare_tuple rt a c) ≡ true
  unfolding compare_tuple
  is_below_trans a b c h k =
      part_trans_below a.major b.major c.major _ _ _
        (part_trans_below a.minor b.minor c.minor _ _ _
          (part_trans_below a.patch b.patch c.patch same same same (λ h _. h)))
        h k

  pub compare_tuple_self : (v : Version Num) → HasNumbers rt v → compare_tuple rt v v ≡ same
  unfolding compare_tuple
  compare_tuple_self v h = ground (arith, o.eq_refl v.major, o.eq_refl v.minor, o.eq_refl v.patch)

-- A text that parses is the same as itself.
compare_versions_self :
    (rt : Runtime) (o : IsOrdered rt) (a b : String) (m : Comparison)
    → compare_versions rt a b ≡ some m
    → compare_versions rt b b ≡ some same
unfolding compare_versions
compare_versions_self rt o a b m h = elim (Option-cases (parse_version rt b)) [
  | inl q ↦ elim (Option-cases (parse_version rt a)) [
    | inl p ↦ ground arith
    | inr (va, p) ↦ ground arith
  ]
  | inr (vb, q) ↦ ground (arith, compare_tuple_self rt o vb (parse_version-HasNumbers rt o b vb q))
]

-- The two laws below, from one split.
order_parts :
    (rt : Runtime) (o : IsOrdered rt) (a b c : String) (m n : Comparison)
    → compare_versions rt a b ≡ some m
    → compare_versions rt b c ≡ some n
    → (compare_versions rt b a ≡ some (flip m))
      × (at_most m ≡ true
          → at_most n ≡ true
          → (k : Comparison) × (compare_versions rt a c ≡ some k) × (at_most k ≡ true))
unfolding compare_versions
order_parts rt o a b c m n h k = elim (Option-cases (parse_version rt a)) [
  | inl p ↦ ground arith
  | inr (va, p) ↦ elim (Option-cases (parse_version rt b)) [
    | inl q ↦ ground arith
    | inr (vb, q) ↦ elim (Option-cases (parse_version rt c)) [
      | inl r ↦ ground arith
      | inr (vc, r) ↦
          let fa = parse_version-HasNumbers rt o a va p in
          let fb = parse_version-HasNumbers rt o b vb q in
          (
            ground (arith, compare_tuple-flip rt o va vb),
            λ x y.
                (compare_tuple rt va vc, ground arith, ground (arith, at_most_trans rt o va vb vc)),
          )
    ]
  ]
]

-- Swapping two texts that parse as versions negates the answer of `compareVersions`.
pub compare_versions-flip :
    (rt : Runtime) (o : IsOrdered rt) (a b : String) (m : Comparison)
    → compare_versions rt a b ≡ some m
    → compare_versions rt b a ≡ some (flip m)
compare_versions-flip rt o a b m h =
    let self = compare_versions_self rt o a b m h in (order_parts rt o a b b m same h self).0

-- Where `compareVersions` answers -1 or 0 it is transitive.
pub compare_versions_trans :
    (rt : Runtime) (o : IsOrdered rt) (a b c : String) (m n : Comparison)
    → compare_versions rt a b ≡ some m
    → compare_versions rt b c ≡ some n
    → at_most m ≡ true
    → at_most n ≡ true
    → (k : Comparison) × (compare_versions rt a c ≡ some k) × (at_most k ≡ true)
compare_versions_trans rt o a b c m n h k = (order_parts rt o a b c m n h k).1
