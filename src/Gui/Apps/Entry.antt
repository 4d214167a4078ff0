-- ===== src/Gui/Apps/Entry.antt =====
-- A desktop entry, and the program that it runs (`parse_desktop` and `exec_program`,
-- gui/src-tauri/src/apps.rs).
use nicewatch.Prelude.{
  nat_eq, Bool, false, ◌||◌, not, List, [], ◌∷◌, Option, none, some, if◌then◌else◌, ◌==◌, find,
}
use nicewatch.Prelude.Text.{Text, text_eq, codes, is_empty, starts_with, strip_prefix}
use nicewatch.Prelude.Scan.{trim, lines, split_whitespace, find_char}
use nicewatch.Prelude.Paths.{path_eq, file_name, path_of}
use nicewatch.Prelude.Maps.{is_some}

pub record DesktopEntry : Type 0 where
  pub name : Text
  pub exec : Text
  pub try_exec : Option Text
  pub icon : Option Text

-- The keys read so far.
pub record Keys : Type 0 where
  pub name : Option Text
  pub exec : Option Text
  pub try_exec : Option Text
  pub icon : Option Text
  pub no_display : Bool

abbrev pub no_keys : Keys
no_keys = record { name = none; exec = none; try_exec = none; icon = none; no_display = false }

-- What one line sets.
pub data Key : Type 0 where
  name_is exec_is try_exec_is icon_is no_display_is : Text → Key
  other : Key

unfoldable pub key_of : Text → Key
key_of line = elim (strip_prefix line (codes "Name=")) [
  | some v ↦ name_is v
  | none ↦ elim (strip_prefix line (codes "Exec=")) [
    | some v ↦ exec_is v
    | none ↦ elim (strip_prefix line (codes "TryExec=")) [
      | some v ↦ try_exec_is v
      | none ↦ elim (strip_prefix line (codes "Icon=")) [
        | some v ↦ icon_is v
        | none ↦ elim (strip_prefix line (codes "NoDisplay=")) [
          | some v ↦ no_display_is v
          | none ↦ other
        ]
      ]
    ]
  ]
]

unfoldable pub set_key : Key → Keys → Keys
set_key (name_is v) k = record k { name = some (trim v) }
set_key (exec_is v) k = record k { exec = some (trim v) }
set_key (try_exec_is v) k = record k { try_exec = some (trim v) }
set_key (icon_is v) k = record k { icon = some (trim v) }
set_key (no_display_is v) k = record k { no_display = v == codes "true" }
set_key other k = k

-- Blank lines, comments and the headings of sections are passed over.
abbrev pub is_skipped : Text → Bool
is_skipped line = is_empty line || starts_with line (codes "#") || starts_with line (codes "[")

unfoldable pub read_keys : List Text → Keys → Keys
unfolding key_of set_key
read_keys [] k = k
read_keys (l ∷ ls) k =
    let line = trim l in read_keys ls (if is_skipped line then k else set_key (key_of line) k)

abbrev pub entry_from :
    Option Text → Option Text → Option Text → Option Text → Bool → Option DesktopEntry
entry_from (some name) (some exec) try_exec icon false =
    some (record { name = name; exec = exec; try_exec = try_exec; icon = icon })
entry_from _ _ try_exec icon _ = none

abbrev entry_of_keys : Keys → Option DesktopEntry
entry_of_keys k = entry_from k.name k.exec k.try_exec k.icon k.no_display

-- Of the text of the file, if it can be read.
unfoldable pub parse_desktop : Option Text → Option DesktopEntry
unfolding read_keys
parse_desktop none = none
parse_desktop (some text) = entry_of_keys (read_keys (lines text) no_keys)

abbrev pub is_assignment : Text → Bool
is_assignment t = is_some (find_char b'=' t)

abbrev or_token : Option Text → Text → Text
or_token none t = t
or_token (some u) t = u

abbrev without_dir : Text → Option Text
without_dir t = if starts_with t (codes "/") then file_name (path_of t) else some t

unfoldable pub program_of : List Text → Option Text
program_of [] = none
program_of (t ∷ ts) =
    without_dir (if t == codes "env" then or_token (find (λ u. not (is_assignment u)) ts) t else t)

unfoldable pub exec_program : Text → Option Text
unfolding program_of
exec_program exec = program_of (split_whitespace exec)
