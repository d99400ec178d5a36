-- ===== src/Prelude/Text.antt =====
-- Texts as the source handles them: trimming, lower case, splitting, containment.
use Prim.Native.Nat.{ℕ, ◌+◌}
use Prim.Native.Char.{Char, code}
use Prim.Native.String.{String, [], ◌∷◌, ◌++◌}
use mathlib.Core.Bool.{Bool, true, false, ◌||◌, ◌&&◌}
use mathlib.Core.List.{List}
use mathlib.Core.Option.{Option, none, some}
use flagraft.Prelude.Tests.{leb, eqb, is_some, if◌then◌else◌}

-- The white space that `String.prototype.trim` removes.
is_space : Char → Bool
is_space c =
    let n = code c in
    (leb 9 n && leb n 13)
    || eqb n 32
    || eqb n 0xa0
    || eqb n 0x1680
    || (leb 0x2000 n && leb n 0x200a)
    || eqb n 0x2028
    || eqb n 0x2029
    || eqb n 0x202f
    || eqb n 0x205f
    || eqb n 0x3000
    || eqb n 0xfeff

trim_start : String → String
trim_start [] = []
trim_start (c ∷ s) = let rest = trim_start s in if is_space c then rest else c ∷ s

-- A trailing run of spaces is dropped: `c` stays if it or something behind it is no space.
keep_end : Char → String → String
keep_end c [] = if is_space c then [] else c ∷ []
keep_end c (d ∷ s) = c ∷ d ∷ s

trim_end : String → String
trim_end [] = []
trim_end (c ∷ s) = keep_end c (trim_end s)

unfoldable pub trim : String → String
unfolding trim_start keep_end trim_end is_space
trim s = trim_end (trim_start s)

-- The part of a text before the first `sep`: `s.split(sep)[0]`.
unfoldable pub before : ℕ → String → String
before sep [] = []
before sep (c ∷ s) = let rest = before sep s in if eqb (code c) sep then [] else c ∷ rest

push_head : Char → List String → List String
push_head c List.[] = List.[]
push_head c (List.◌∷◌ w ws) = List.◌∷◌ (c ∷ w) ws

-- `s.split(sep)`: one part more than there are separators.
unfoldable pub split : ℕ → String → List String
unfolding push_head
split sep [] = List.◌∷◌ [] List.[]
split sep (c ∷ s) =
    let rest = split sep s in if eqb (code c) sep then List.◌∷◌ [] rest else push_head c rest

-- The text behind a prefix, if it starts with it.
unfoldable pub strip_prefix : String → String → Option String
strip_prefix [] s = some s
strip_prefix (c ∷ p) [] = none
strip_prefix (c ∷ p) (d ∷ s) = if eqb (code c) (code d) then strip_prefix p s else none

-- `s.startsWith(p)`
unfoldable pub starts_with : String → String → Bool
unfolding strip_prefix
starts_with s p = is_some (strip_prefix p s)

-- `s.includes(t)`
unfoldable pub includes : String → String → Bool
unfolding starts_with
includes [] t = starts_with [] t
includes (c ∷ s) t = starts_with (c ∷ s) t || includes s t

-- A line terminator, which `.` of a regular expression does not match.
is_newline : Char → Bool
is_newline c = let n = code c in eqb n 10 || eqb n 13 || eqb n 0x2028 || eqb n 0x2029

unfoldable pub has_newline : String → Bool
unfolding is_newline
has_newline [] = false
has_newline (c ∷ s) = is_newline c || has_newline s

-- Each capital letter of ASCII in lower case, any other character as it is.
lower : ℕ → ℕ
lower n = if leb b'A' n && leb n b'Z' then n + 32 else n

-- `s.toLowerCase() === t` for a text `t` of ASCII: no character outside ASCII has one of the
-- letters of "true" for its lower case.
unfoldable pub lower_equals : String → String → Bool
unfolding lower
lower_equals [] [] = true
lower_equals (c ∷ s) (d ∷ t) = eqb (lower (code c)) (code d) && lower_equals s t
lower_equals _ _ = false

abbrev pub text_append : String → String → String
text_append a b = a ++ b
