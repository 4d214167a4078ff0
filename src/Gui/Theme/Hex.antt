-- ===== src/Gui/Theme/Hex.antt =====
-- What is read as a colour (gui/src-tauri/src/theme.rs).
use nicewatch.Prelude.{
  ℕ, nat_eq, suc, ◌/◌, ◌%◌, ◌≤◌, ◌<◌, ◌≡◌, refl, ap, Bool, true, false, ◌&&◌, ◌||◌, List, [], ◌∷◌,
  Option, none, some, map, eqb, leb, all, length, arith, Bool-cases, inl, inr,
}
use nicewatch.Prelude.Int.{ℤ, pos, negsuc}
use nicewatch.Prelude.Text.{Text, is_digit, lower}
use nicewatch.Prelude.Scan.{split_on, split_whitespace}
use nicewatch.Gui.Theme.Colours.{
  hex_digit, rgb, parse_all, is_byte, byte, first_three, tuple_hex, rgb_tuple_to_hex, is_hexdigit,
  hex_colour, first_hex, border_colour, border_accent,
}

abbrev pub is_low_hex : ℕ → Bool
is_low_hex c = is_digit c || (leb 97 c && leb c 102)

-- A hash and six digits, the letters of which are small.
unfoldable pub is_colour : Text → Bool
is_colour [] = false
is_colour (c ∷ s) = eqb c b'#' && eqb (length s) 6 && all is_low_hex s

abbrev pub all_colour : Option Text → Bool
all_colour none = true
all_colour (some t) = is_colour t

hex_digit-low : (n : ℕ) → n < 16 → is_low_hex (hex_digit n) ≡ true
unfolding hex_digit
hex_digit-low n b = ground arith

pub rgb-colour : (r g b : ℕ) → r ≤ 255 → g ≤ 255 → b ≤ 255 → is_colour (rgb r g b) ≡ true
unfolding rgb is_colour all
rgb-colour r g b hr hg hb = ground (
  arith,
  hex_digit-low (r / 16) (omega arith),
  hex_digit-low (r % 16) (omega arith),
  hex_digit-low (g / 16) (omega arith),
  hex_digit-low (g % 16) (omega arith),
  hex_digit-low (b / 16) (omega arith),
  hex_digit-low (b % 16) (omega arith),
)

lower-low : (c : ℕ) → is_hexdigit c ≡ true → is_low_hex (lower c) ≡ true
lower-low c h = ground arith

all-lower : (s : Text) → all is_hexdigit s ≡ true → all is_low_hex (map lower s) ≡ true
unfolding all
all-lower [] h = refl
all-lower (c ∷ s) h = ground (arith, lower-low c, all-lower s)

length-lower : (s : Text) → length (map lower s) ≡ length s
length-lower [] = refl
length-lower (c ∷ s) = ap suc (length-lower s)

pub hex_colour-colour : (s : Text) → all_colour (hex_colour s) ≡ true
unfolding is_colour
hex_colour-colour s = ground (arith, all-lower s, length-lower s)

byte-bounded : (z : ℤ) → is_byte z ≡ true → byte z ≤ 255
byte-bounded (pos n) h = ground (arith, h)
byte-bounded (negsuc n) h = ground arith

first_three-colour : (ns : List ℤ) → all_colour (first_three ns) ≡ true
unfolding first_three all
first_three-colour [] = refl
first_three-colour (r ∷ []) = refl
first_three-colour (r ∷ g ∷ []) = refl
first_three-colour (r ∷ g ∷ b ∷ ns) = elim (Bool-cases (all is_byte (r ∷ g ∷ b ∷ ns))) [
  | inl bytes ↦ rw bytes (
      rgb-colour (byte r) (byte g) (byte b) (byte-bounded r (ground (arith, bytes)))
        (byte-bounded g (ground (arith, bytes))) (byte-bounded b (ground (arith, bytes))))
  | inr not_all ↦ rw not_all refl
]

pub rgb_tuple_to_hex-colour : (t : Text) → all_colour (rgb_tuple_to_hex t) ≡ true
unfolding rgb_tuple_to_hex tuple_hex
rgb_tuple_to_hex-colour t = tuple_hex-colour (parse_all (split_on (λ c. eqb c b',') t))
  where
    tuple_hex-colour : (o : Option (List ℤ)) → all_colour (tuple_hex o) ≡ true
    tuple_hex-colour none = refl
    tuple_hex-colour (some ns) = first_three-colour ns

border_colour-colour : (o : Option Text) → all_colour (border_colour o) ≡ true
unfolding border_colour
border_colour-colour none = refl
border_colour-colour (some hex) = hex_colour-colour _

pub border_accent-colour : (out : Text) → all_colour (border_accent out) ≡ true
unfolding border_accent
border_accent-colour out = border_colour-colour (first_hex (split_whitespace out))
