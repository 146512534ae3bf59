-- ===== src/Common/Text.antt =====
-- What the program uses of Go's `strings`, on texts as sequences of code points. A Go string
-- that is not valid UTF-8 has no counterpart here.
use Prim.Native.Nat.{ℕ, ◌+◌}
use Prim.Native.Char.{Char, code}
use Prim.Native.String.{String}
use mathlib.Core.Bool.{Bool, true, false, ◌&&◌, ◌||◌}
use mathlib.Core.Option.{Option, none, some}
use mathlib.Core.List.{List, [], ◌∷◌}
use nvsentinel_capi_remediat.Common.Tests.{leb, if◌then◌else◌}

abbrev pub same_code : ℕ → ℕ → Bool
same_code a b = leb a b && leb b a

abbrev pub is_blank : String → Bool
is_blank String.[] = true
is_blank (String.◌∷◌ c s) = false

abbrev in_range : ℕ → ℕ → ℕ → Bool
in_range lo hi c = leb lo c && leb c hi

-- `unicode.IsSpace`
unfoldable pub is_space : Char → Bool
is_space c =
    in_range 9 13 n
    || same_code n 0x20
    || same_code n 0x85
    || same_code n 0xa0
    || same_code n 0x1680
    || in_range 0x2000 0x200a n
    || in_range 0x2028 0x2029 n
    || same_code n 0x202f
    || same_code n 0x205f
    || same_code n 0x3000
  where
    n : ℕ
    n = code c

unfoldable pub trim_left : String → String
trim_left String.[] = ""
trim_left (String.◌∷◌ c s) = if is_space c then trim_left s else String.◌∷◌ c s

unfoldable pub trim_right : String → String
trim_right String.[] = ""
trim_right (String.◌∷◌ c s) =
    let rest = trim_right s in if is_blank rest && is_space c then "" else String.◌∷◌ c rest

-- `strings.TrimSpace`
unfoldable pub trim : String → String
unfolding trim_left trim_right is_space
trim s = trim_right (trim_left s)

-- puts a character in front of the first field
abbrev pub extend_first : Char → List String → List String
extend_first c [] = String.◌∷◌ c "" ∷ []
extend_first c (f ∷ fs) = String.◌∷◌ c f ∷ fs

-- `strings.Split` by a separator of one character
unfoldable pub split : ℕ → String → List String
split sep String.[] = "" ∷ []
split sep (String.◌∷◌ c s) =
    let rest = split sep s in if same_code (code c) sep then "" ∷ rest else extend_first c rest

abbrev pub extend_before : Char → Option (String × String) → Option (String × String)
extend_before c none = none
extend_before c (some (before, after)) = some (String.◌∷◌ c before, after)

-- `strings.Cut` by a separator of one character: the parts before and after its first place
unfoldable pub cut : ℕ → String → Option (String × String)
cut sep String.[] = none
cut sep (String.◌∷◌ c s) =
    let rest = cut sep s in if same_code (code c) sep then some ("", s) else extend_before c rest

-- `strings.CutPrefix`
unfoldable pub cut_prefix : String → String → Option String
cut_prefix String.[] s = some s
cut_prefix (String.◌∷◌ p ps) String.[] = none
cut_prefix (String.◌∷◌ p ps) (String.◌∷◌ c s) =
    if same_code (code p) (code c) then cut_prefix ps s else none

-- simple case folding, for a comparison with ASCII text: the letters, the long s and the Kelvin sign
abbrev fold_case : ℕ → ℕ
fold_case n =
    if in_range b'A' b'Z' n
    then n + 32
    else if same_code n 0x17f
    then b's'
    else if same_code n 0x212a
    then b'k'
    else n

-- `strings.EqualFold` where the second text is ASCII
unfoldable pub equal_fold : String → String → Bool
equal_fold String.[] String.[] = true
equal_fold String.[] (String.◌∷◌ d t) = false
equal_fold (String.◌∷◌ c s) String.[] = false
equal_fold (String.◌∷◌ c s) (String.◌∷◌ d t) =
    same_code (fold_case (code c)) (fold_case (code d)) && equal_fold s t

-- Go's `<` on strings: bytewise, which on UTF-8 is the order of the code points
unfoldable pub str_lt : String → String → Bool
str_lt String.[] String.[] = false
str_lt String.[] (String.◌∷◌ d t) = true
str_lt (String.◌∷◌ c s) String.[] = false
str_lt (String.◌∷◌ c s) (String.◌∷◌ d t) =
    if same_code (code c) (code d) then str_lt s t else leb (code c) (code d)
