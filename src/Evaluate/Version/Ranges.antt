-- ===== src/Evaluate/Version/Ranges.antt =====
-- The ranges of `versionSatisfies` in src/modules/client/evaluate.ts.
use flagraft.Prelude.{true, ◌≡◌, arith}
use flagraft.Evaluate.Runtime.{Runtime, IsOrdered}
use flagraft.Evaluate.Version.{
  Version, caret, tilde, compare_tuple, at_most, in_range, caret_upper, tilde_upper,
}
use flagraft.Evaluate.Version.Order.{HasNumbers, is_below_trans}

module _ (rt : Runtime) (o : IsOrdered rt) where
  open rt use {Num, is_nan, lt, next, zero}

  tilde_upper-le-caret_upper :
      (base : Version Num)
      → HasNumbers rt base
      → lt zero base.major ≡ true
      → lt base.major (next base.major) ≡ true
      → at_most (compare_tuple rt (tilde_upper rt base) (caret_upper rt base)) ≡ true
  unfolding compare_tuple tilde_upper caret_upper
  tilde_upper-le-caret_upper base f p q = ground (arith, o.lt-ne base.major (next base.major))

  -- Above major version 0, what a tilde range accepts the caret range of the same base accepts.
  pub tilde-le-caret :
      (base ver : Version Num)
      → HasNumbers rt base
      → lt zero base.major ≡ true
      → lt base.major (next base.major) ≡ true
      → in_range rt tilde base ver ≡ true
      → in_range rt caret base ver ≡ true
  unfolding in_range
  tilde-le-caret base ver f p q h = ground (
    arith,
    tilde_upper-le-caret_upper base,
    is_below_trans rt o ver (tilde_upper rt base) (caret_upper rt base),
  )
