-- ===== src/Prelude/Text.antt =====
-- `toLowerCase` and `trim` of JavaScript, as far as the program compares their results: on code
-- points, for the letters of ASCII and Latin-1 (product names are Portuguese) and their spaces.
use Prim.Native.Nat.{ℕ, ◌+◌}
use Prim.Native.Char.{Char, code}
use Prim.Native.String.{String, ◌++◌ as ◌<>◌}
use mathlib.Core.Bool.{Bool, true, false, not, ◌&&◌, ◌||◌}
use mathlib.Core.List.{List, [], ◌∷◌, map, reverse}
use mathlib.Core.Option.{Option, none, some}
use text.Mathlib.Text.{◌==◌, starts_with}
use allas_code_blueprint.Prelude.Tests.{leb, nat_eq, if◌then◌else◌, is_some}
use allas_code_blueprint.Prelude.Lists.{is_empty}

abbrev pub codes : String → List ℕ
codes String.[] = []
codes (String.◌∷◌ c s) = code c ∷ codes s

unfoldable pub lower_code : ℕ → ℕ
lower_code c =
    if leb 65 c && leb c 90 || leb 192 c && leb c 222 && not (nat_eq c 215) then c + 32 else c

abbrev pub to_lower : List ℕ → List ℕ
to_lower = map lower_code

unfoldable pub is_space : ℕ → Bool
is_space c = leb 9 c && leb c 13 || nat_eq c 32 || nat_eq c 160

unfoldable pub trim_start : List ℕ → List ℕ
trim_start [] = []
trim_start (c ∷ s) = if is_space c then trim_start s else c ∷ s

unfoldable pub trim : List ℕ → List ℕ
unfolding trim_start is_space
trim s = reverse (trim_start (reverse (trim_start s)))

unfoldable pub same_codes : List ℕ → List ℕ → Bool
same_codes [] [] = true
same_codes (c ∷ s) (d ∷ t) = nat_eq c d && same_codes s t
same_codes _ _ = false

-- `words.join(separator)`.
unfoldable pub join : String → List String → String
join separator [] = ""
join separator (word ∷ words) =
    if is_empty words then word else word <> separator <> join separator words

unfoldable pub is_code : ℕ → Char → Bool
is_code n c = nat_eq n (code c)

-- `s.split(separator)` for a separator of one character: the part before the first one, and the part
-- between it and the next, if there is one.
unfoldable pub before_code : ℕ → String → String
unfolding is_code
before_code n String.[] = ""
before_code n (String.◌∷◌ c s) = if is_code n c then "" else String.◌∷◌ c (before_code n s)

unfoldable pub after_code : ℕ → String → Option String
unfolding is_code
after_code n String.[] = none
after_code n (String.◌∷◌ c s) = if is_code n c then some s else after_code n s

-- `s.split(separator).at(-1)`.
unfoldable pub last_part : ℕ → String → String
unfolding is_code
last_part n String.[] = ""
last_part n (String.◌∷◌ c s) =
    if is_code n c || is_some (after_code n s) then last_part n s else String.◌∷◌ c s

unfoldable pub ends_with : String → String → Bool
ends_with String.[] t = t == ""
ends_with (String.◌∷◌ c s) t = (String.◌∷◌ c s == t) || ends_with s t

unfoldable pub contains : String → String → Bool
contains String.[] t = t == ""
contains (String.◌∷◌ c s) t = starts_with (String.◌∷◌ c s) t || contains s t
