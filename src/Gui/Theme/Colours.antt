-- ===== src/Gui/Theme/Colours.antt =====
-- The texts of colours (gui/src-tauri/src/theme.rs).
use nicewatch.Prelude.{
  ℕ, nat_eq, ◌+◌, ◌-◌, ◌*◌, ◌/◌, ◌%◌, Bool, true, false, ◌&&◌, ◌||◌, List, [], ◌∷◌, ◌++◌, Option,
  none, some, map, reverse, if◌then◌else◌, eqb, leb, ltb, all, length,
}
use nicewatch.Prelude.Int.{ℤ, pos, negsuc}
use nicewatch.Prelude.Text.{Text, is_digit, lower, strip_prefix, codes}
use nicewatch.Prelude.Scan.{trim, split_on, split_whitespace, trim_start_char, drop}
use nicewatch.Prelude.Scan.Numbers.{parse_i64}

-- `trim_start_matches` with a test.
unfoldable pub trim_start_where : (ℕ → Bool) → Text → Text
trim_start_where p [] = []
trim_start_where p (c ∷ s) = let rest = trim_start_where p s in if p c then rest else c ∷ s

abbrev is_quote : ℕ → Bool
is_quote c = eqb c 39 || eqb c 34 || eqb c 40

unfoldable pub unquote : Text → Text
unfolding trim_start_where
unquote s =
    trim (reverse (trim_start_where is_quote (reverse (trim_start_where is_quote (trim s)))))

unfoldable pub hex_digit : ℕ → ℕ
hex_digit n = if ltb n 10 then 48 + n else 87 + n

-- `{:02x}` of a number below 256.
abbrev pub hex2 : ℕ → Text
hex2 n = hex_digit (n / 16) ∷ hex_digit (n % 16) ∷ []

unfoldable pub rgb : ℕ → ℕ → ℕ → Text
rgb r g b = b'#' ∷ (hex2 r ++ (hex2 g ++ hex2 b))

-- All of them, if each parses.
unfoldable pub parse_all : List Text → Option (List ℤ)
parse_all [] = some []
parse_all (t ∷ ts) = elim (parse_i64 (trim t)) [
  | none ↦ none
  | some n ↦ elim (parse_all ts) [ none ↦ none | some ns ↦ some (n ∷ ns) ]
]

abbrev pub is_byte : ℤ → Bool
is_byte (pos n) = leb n 255
is_byte (negsuc n) = false

abbrev pub byte : ℤ → ℕ
byte (pos n) = n
byte (negsuc n) = 0

unfoldable pub first_three : List ℤ → Option Text
unfolding rgb
first_three (r ∷ g ∷ b ∷ rest) =
    if all is_byte (r ∷ g ∷ b ∷ rest) then some (rgb (byte r) (byte g) (byte b)) else none
first_three _ = none

unfoldable pub tuple_hex : Option (List ℤ) → Option Text
unfolding first_three
tuple_hex none = none
tuple_hex (some ns) = first_three ns

unfoldable pub rgb_tuple_to_hex : Text → Option Text
unfolding tuple_hex parse_all
rgb_tuple_to_hex t = tuple_hex (parse_all (split_on (λ c. eqb c b',') t))

abbrev pub is_hexdigit : ℕ → Bool
is_hexdigit c = is_digit c || (leb 97 c && leb c 102) || (leb 65 c && leb c 70)

abbrev hex_value : ℕ → ℕ
hex_value c = if is_digit c then c - 48 else if leb 97 c then c - 87 else c - 55

-- `u8::from_str_radix(_, 16)` of two characters, the first of which may be a sign.
abbrev from_hex2 : ℕ → ℕ → Option ℕ
from_hex2 c d =
    if is_hexdigit c && is_hexdigit d
    then some (16 * hex_value c + hex_value d)
    else if eqb c b'+' && is_hexdigit d
    then some (hex_value d)
    else none

dark_of : (ℕ → ℕ → ℕ → Bool) → Option ℕ → Option ℕ → Option ℕ → Bool
dark_of is_dim (some r) (some g) (some b) = is_dim r g b
dark_of is_dim _ g b = true

dark_hex : (ℕ → ℕ → ℕ → Bool) → Text → Bool
unfolding dark_of
dark_hex is_dim (a ∷ b ∷ c ∷ d ∷ e ∷ f ∷ []) =
    dark_of is_dim (from_hex2 a b) (from_hex2 c d) (from_hex2 e f)
dark_hex is_dim _ = true

-- Of a text of ASCII; `is_dim` is the test of the luminance, in floating point.
unfoldable pub is_dark : (ℕ → ℕ → ℕ → Bool) → Text → Bool
unfolding dark_hex
is_dark is_dim hex = dark_hex is_dim (trim_start_char b'#' hex)

-- A hash and six digits, which get a colour if they are digits.
abbrev pub hex_colour : Text → Option Text
hex_colour digits =
    if eqb (length digits) 6 && all is_hexdigit digits then some (b'#' ∷ map lower digits) else none

-- On the text backwards: `trim_end_matches("ff")`.
unfoldable pub without_ff : Text → Text
without_ff (c ∷ d ∷ s) =
    let rest = without_ff s in if eqb c b'f' && eqb d b'f' then rest else c ∷ d ∷ s
without_ff s = s

-- The slice is by bytes in the source, which panics where it would split a character; where it does
-- not, six hexadecimal digits are the same six characters.
abbrev pub last_six : Text → Text
last_six s = if leb 6 (length s) then drop (length s - 6) s else s

unfoldable pub first_hex : List Text → Option Text
first_hex [] = none
first_hex (t ∷ ts) =
    let rest = first_hex ts in elim (strip_prefix t (codes "0x")) [ some h ↦ some h | none ↦ rest ]

unfoldable pub border_colour : Option Text → Option Text
unfolding without_ff
border_colour none = none
border_colour (some hex) = hex_colour (last_six (reverse (without_ff (reverse hex))))

-- `hyprland_accent`, of the output of hyprctl.
unfoldable pub border_accent : Text → Option Text
unfolding first_hex border_colour
border_accent out = border_colour (first_hex (split_whitespace out))
