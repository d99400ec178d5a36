-- ===== src/Evaluate/Version.antt =====
-- Versions and version ranges: `parseVersion`, `compareTuple`, `compareVersions` and
-- `versionSatisfies` of src/modules/client/evaluate.ts.
pub mod Order
pub mod Ranges
use flagraft.Prelude.{
  Bool, true, false, not, ◌&&◌, Option, none, some, List, [], ◌∷◌, String, ◌==◌, map, any,
  if◌then◌else◌, trim, before, split, strip_prefix, has_newline,
}
use flagraft.Evaluate.Runtime.{Runtime}

-- -1, 0 and 1 of the source.
pub data Comparison : Type 0 where
  below same above : Comparison

-- The operators of a range; `exact` is "=" or no operator.
pub data RangeOp : Type 0 where
  caret tilde ge le gt lt exact : RangeOp

-- The alternatives of the pattern in `versionSatisfies`, in its order; the last is the missing
-- operator.
abbrev pub range_ops : List (String × RangeOp)
range_ops =
    ("^", caret)
    ∷ ("~", tilde)
    ∷ (">=", ge)
    ∷ ("<=", le)
    ∷ (">", gt)
    ∷ ("<", lt)
    ∷ ("=", exact)
    ∷ ("", exact)
    ∷ []

-- `\s*(.+)$` on the rest of a trimmed text: nothing is left of a rest that is all white space.
after_space : String → Option String
after_space rest =
    let r = trim rest in if r == "" then none else if has_newline r then none else some r

-- The pattern `^(\^|~|>=|<=|>|<|=)?\s*(.+)$`: the first alternative with which the rest fits.
unfoldable pub match_range : List (String × RangeOp) → String → Option (RangeOp × String)
unfolding after_space
match_range [] s = none
match_range ((prefix, op) ∷ more) s =
    let later = match_range more s in
    elim (strip_prefix prefix s) [
      | none ↦ later
      | some rest ↦ elim (after_space rest) [ none ↦ later | some base ↦ some (op, base) ]
    ]

pub record Version {ℓ} (N : Type ℓ) : Type ℓ where
  pub major : N
  pub minor : N
  pub patch : N

-- `cmp >= 0`, `cmp <= 0`, `cmp > 0`, `cmp < 0`, `cmp === 0`
abbrev pub at_least : Comparison → Bool
at_least below = false
at_least same = true
at_least above = true

abbrev pub at_most : Comparison → Bool
at_most below = true
at_most same = true
at_most above = false

abbrev pub is_above : Comparison → Bool
is_above below = false
is_above same = false
is_above above = true

abbrev pub is_below : Comparison → Bool
is_below below = true
is_below same = false
is_below above = false

abbrev pub is_same : Comparison → Bool
is_same below = false
is_same same = true
is_same above = false

module _ (rt : Runtime) where
  open rt use {Num, number, is_finite, zero, next}

  -- `[nums[0] ?? 0, nums[1] ?? 0, nums[2] ?? 0]`
  pub pad : List Num → Version Num
  pad [] = record { major = zero; minor = zero; patch = zero }
  pad (a ∷ []) = record { major = a; minor = zero; patch = zero }
  pad (a ∷ b ∷ []) = record { major = a; minor = b; patch = zero }
  pad (a ∷ b ∷ c ∷ _) = record { major = a; minor = b; patch = c }

  unfoldable pub parse_version : String → Option (Version Num)
  unfolding pad
  parse_version v =
      let nums = map number (split b'.' (before b'-' (before b'+' (trim v)))) in
      if any (λ n. not (is_finite n)) nums then none else some (pad nums)

  -- One round of the loop in `compareTuple`.
  abbrev pub compare_part : Num → Num → Comparison → Comparison
  compare_part a b rest = if rt.eq a b then rest else if rt.lt a b then below else above

  unfoldable pub compare_tuple : Version Num → Version Num → Comparison
  compare_tuple a b =
      compare_part a.major b.major
        (compare_part a.minor b.minor (compare_part a.patch b.patch same))

  unfoldable pub compare_versions : String → String → Option Comparison
  compare_versions a b = elim (parse_version a) [
    | none ↦ none
    | some pa ↦ elim (parse_version b) [ none ↦ none | some pb ↦ some (compare_tuple pa pb) ]
  ]

  -- The exclusive upper end of a caret range and of a tilde range.
  unfoldable pub caret_upper : Version Num → Version Num
  caret_upper base =
      if rt.lt zero base.major
      then record { major = next base.major; minor = zero; patch = zero }
      else if rt.lt zero base.minor
      then record { major = zero; minor = next base.minor; patch = zero }
      else record { major = zero; minor = zero; patch = next base.patch }

  unfoldable pub tilde_upper : Version Num → Version Num
  tilde_upper base = record { major = base.major; minor = next base.minor; patch = zero }

  unfoldable pub in_range : RangeOp → Version Num → Version Num → Bool
  unfolding caret_upper tilde_upper
  in_range caret base ver =
      at_least (compare_tuple ver base) && is_below (compare_tuple ver (caret_upper base))
  in_range tilde base ver =
      at_least (compare_tuple ver base) && is_below (compare_tuple ver (tilde_upper base))
  in_range ge base ver = at_least (compare_tuple ver base)
  in_range le base ver = at_most (compare_tuple ver base)
  in_range gt base ver = is_above (compare_tuple ver base)
  in_range lt base ver = is_below (compare_tuple ver base)
  in_range exact base ver = is_same (compare_tuple ver base)

  unfoldable pub version_satisfies : String → String → Bool
  version_satisfies version range = elim (parse_version version) [
    | none ↦ false
    | some ver ↦ elim (match_range range_ops (trim range)) [
      | none ↦ false
      | some (op, text) ↦ elim (parse_version text) [
        | none ↦ false
        | some base ↦ in_range op base ver
      ]
    ]
  ]
