-- ===== src/Evidence/Requirements/Names.antt =====
-- Texts that `compileRequirements` derives: `slug`, `replaceAll` of one character and `slice`.
-- Upper and lower case are those of ASCII, in which the labels of actions are written.
use Prim.Native.Char.{Char, code}
use allas_code_blueprint.Prelude.{
  String, ◌<>◌, ◌≡◌, refl, Bool, false, ◌&&◌, ◌||◌, ℕ, zero, suc, leb, nat_eq, if◌then◌else◌,
}

abbrev pub is_upper : Char → Bool
is_upper c = leb 65 (code c) && leb (code c) 90

abbrev pub is_lower_or_digit : Char → Bool
is_lower_or_digit c = leb 97 (code c) && leb (code c) 122 || leb 48 (code c) && leb (code c) 57

-- The letter of `lower_case` at the place that `c` has in `upper_case`.
unfoldable pub counterpart : (upper_case lower_case : String) → Char → Char
counterpart (String.◌∷◌ a s) (String.◌∷◌ b t) c =
    if nat_eq (code a) (code c) then b else counterpart s t c
counterpart s t c = c

abbrev pub lower_char : Char → Char
lower_char = counterpart "ABCDEFGHIJKLMNOPQRSTUVWXYZ" "abcdefghijklmnopqrstuvwxyz"

unfoldable pub lower : String → String
unfolding counterpart
lower String.[] = ""
lower (String.◌∷◌ c s) = String.◌∷◌ (lower_char c) (lower s)

unfoldable pub replace_all : (from to : Char) → String → String
replace_all from to String.[] = ""
replace_all from to (String.◌∷◌ c s) =
    String.◌∷◌ (if nat_eq (code from) (code c) then to else c) (replace_all from to s)

unfoldable pub drop_chars : ℕ → String → String
drop_chars zero s = s
drop_chars (suc n) String.[] = ""
drop_chars (suc n) (String.◌∷◌ c s) = drop_chars n s

-- `replace(/([a-z0-9])([A-Z])/g, "$1-$2")`; `joined` says that the letter before is of the first kind.
unfoldable pub split_words : Bool → String → String
split_words joined String.[] = ""
split_words joined (String.◌∷◌ c s) =
    let rest = String.◌∷◌ c (split_words (is_lower_or_digit c) s) in
    if joined && is_upper c then "-" <> rest else rest

abbrev pub starts_lower : String → Bool
starts_lower String.[] = false
starts_lower (String.◌∷◌ c s) = leb 97 (code c) && leb (code c) 122

-- `replace(/([A-Z])([A-Z][a-z])/g, "$1-$2")`.
unfoldable pub split_acronyms : Bool → String → String
split_acronyms upper String.[] = ""
split_acronyms upper (String.◌∷◌ c s) =
    let rest = String.◌∷◌ c (split_acronyms (is_upper c) s) in
    if upper && is_upper c && starts_lower s then "-" <> rest else rest

unfoldable pub slug : String → String
unfolding split_words split_acronyms lower
slug v = lower (split_acronyms false (split_words false v))

slug_runs : slug "DecreaseSKUStock2Verified" <> "" ≡ "decrease-sku-stock2-verified"
unfolding slug
slug_runs = refl
