-- ===== src/Prelude/Text.antt =====
-- Strings as the source uses them: `includes`, `startsWith`, `trim` and truthiness, over the native
-- `String`, whose characters are code points.
use Prim.Native.Nat.{ℕ, zero, suc, ◌+◌, ◌/◌, ◌%◌}
use Prim.Native.Char.{code}
use Prim.Native.String.{String, ◌++◌}
use mathlib.Core.Path.{◌≡◌, refl}
use mathlib.Core.Bool.{Bool, true, false, not, ◌&&◌, ◌||◌}
use mathlib.Core.List.{List, [], ◌∷◌}
use elastic_ops.Prelude.Tests.{◌==◌, leb, if◌then◌else◌, get_or}
use elastic_ops.Prelude.Lists.{get_elem?}

-- `s !== ""`: a text used as a condition
abbrev pub truthy : String → Bool
truthy String.[] = false
truthy (String.◌∷◌ c s) = true

abbrev pub codes : String → List ℕ
codes String.[] = []
codes (String.◌∷◌ c s) = code c ∷ codes s

abbrev pub is_digit_code : ℕ → Bool
is_digit_code c = leb 48 c && leb c 57

abbrev pub all_digits : List ℕ → Bool
all_digits [] = true
all_digits (c ∷ cs) = is_digit_code c && all_digits cs

abbrev pub is_prefix : List ℕ → List ℕ → Bool
is_prefix [] ys = true
is_prefix (x ∷ xs) [] = false
is_prefix (x ∷ xs) (y ∷ ys) = x == y && is_prefix xs ys

abbrev pub is_infix : List ℕ → List ℕ → Bool
is_infix xs [] = is_prefix xs []
is_infix xs (y ∷ ys) = is_prefix xs (y ∷ ys) || is_infix xs ys

-- `s.includes(t)`
abbrev pub includes : String → String → Bool
includes s t = is_infix (codes t) (codes s)

-- `s.startsWith(t)`
abbrev pub starts_with : String → String → Bool
starts_with s t = is_prefix (codes t) (codes s)

abbrev pub in_range : ℕ → ℕ → ℕ → Bool
in_range lo hi c = leb lo c && leb c hi

-- White space and line ends of ECMAScript.
abbrev pub is_space : ℕ → Bool
is_space c =
    in_range 9 13 c
    || c == 32
    || c == 160
    || c == 0x1680
    || in_range 0x2000 0x200a c
    || in_range 0x2028 0x2029 c
    || c == 0x202f
    || c == 0x205f
    || c == 0x3000
    || c == 0xfeff

unfoldable pub trim_start : String → String
trim_start String.[] = ""
trim_start (String.◌∷◌ c s) = if is_space (code c) then trim_start s else String.◌∷◌ c s

unfoldable pub trim_end : String → String
trim_end String.[] = ""
trim_end (String.◌∷◌ c s) =
    let rest = trim_end s in
    if is_space (code c) && not (truthy rest) then "" else String.◌∷◌ c rest

-- `s.trim()`
unfoldable pub trim : String → String
unfolding trim_start trim_end
trim s = trim_end (trim_start s)

abbrev pub digit : ℕ → String
digit d = get_or (get_elem? ("0" ∷ "1" ∷ "2" ∷ "3" ∷ "4" ∷ "5" ∷ "6" ∷ "7" ∷ "8" ∷ "9" ∷ []) d) ""

-- One round writes one digit; `n + 1` rounds are enough, since each divides `n` by ten.
unfoldable pub print : ℕ → ℕ → String → String
print zero n out = out
print (suc f) n out =
    let more = print f (n / 10) (digit (n % 10) ++ out) in
    if n / 10 == 0 then digit (n % 10) ++ out else more

-- `String(n)` of a natural number
unfoldable pub show : ℕ → String
unfolding print
show n = print (n + 1) n ""

show_tests : (show 0 ≡ "0") × (show 7050 ≡ "7050")
unfolding show
show_tests = (refl, refl)

trim_tests : (trim " a b " ≡ "a b") × (trim "  " ≡ "")
unfolding trim
trim_tests = (refl, refl)
