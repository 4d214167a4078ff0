-- ===== src/Gui/Theme/Ini.antt =====
-- The entries of an INI file (`parse_ini`, gui/src-tauri/src/theme.rs).
use nicewatch.Prelude.{
  ℕ, nat_eq, ◌+◌, ◌-◌, ◌≡◌, ◌↔◌, Bool, true, ◌&&◌, List, [], ◌∷◌, Option, none, some, if◌then◌else◌,
  Eq, length, arith,
}
use nicewatch.Prelude.Text.{Text, text_eq, text_beq, text_beq_iff, codes, is_empty, starts_with}
use nicewatch.Prelude.Scan.{trim, lines, ends_with, find_char, take, drop, slice}
use nicewatch.Prelude.Paths.{path_eq}
use nicewatch.Prelude.Maps.{Map, insert}
use nicewatch.Gui.Theme.Colours.{unquote}

abbrev pub pair_beq : Text × Text → Text × Text → Bool
pair_beq (a, b) (c, d) = text_beq a c && text_beq b d

pub pair_beq_iff : (p q : Text × Text) → (pair_beq p q ≡ true) ↔ (p ≡ q)
pair_beq_iff (a, b) (c, d) = ground (arith, text_beq_iff a c, text_beq_iff b d)

instance abbrev pub pair_eq : Eq (Text × Text)
pair_eq = record { partial_eq = pair_beq; decides = pair_beq_iff }

split_at : Text → Option ℕ → Option (Text × Text)
split_at s none = none
split_at s (some i) = some (take i s, drop (i + 1) s)

-- `split_once`
unfoldable pub split_once : ℕ → Text → Option (Text × Text)
unfolding split_at
split_once c s = split_at s (find_char c s)

abbrev pub is_heading : Text → Bool
is_heading line = starts_with line (codes "[") && ends_with line (codes "]")

abbrev pub Ini : Type 0
Ini = Map (Text × Text) Text

set_entry : Text → Option (Text × Text) → Ini → Ini
set_entry section none ini = ini
set_entry section (some (k, v)) ini = insert (section, trim k) (unquote v) ini

unfoldable pub ini_lines : List Text → Text → Ini → Ini
unfolding set_entry
ini_lines [] section ini = ini
ini_lines (l ∷ ls) section ini =
    let line = trim l in
    if is_heading line
    then ini_lines ls (slice 1 (length line - 1) line) ini
    else ini_lines ls section
        (if is_empty line then ini else set_entry section (split_once b'=' line) ini)

-- Of the text of the file, if it can be read.
unfoldable pub parse_ini : Option Text → Ini
unfolding ini_lines
parse_ini none = []
parse_ini (some raw) = ini_lines (lines raw) [] []
