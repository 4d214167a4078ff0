-- ===== src/Gui/Apps/Parsed.antt =====
-- Which lines of a file make a desktop entry (`parse_desktop`, gui/src-tauri/src/apps.rs).
use nicewatch.Prelude.{
  nat_eq, ◌≡◌, Bool, true, false, ◌&&◌, ◌||◌, not, List, [], ◌∷◌, Option, none, some, map, ◌⊎◌,
  ◌==◌, eqb, retain,
}
use nicewatch.Prelude.Text.{Text, text_eq, codes, strip_prefix}
use nicewatch.Prelude.Scan.{trim}
use nicewatch.Gui.Apps.Entry.{
  DesktopEntry, Keys, Key, name_is, exec_is, try_exec_is, icon_is, no_display_is, other, is_skipped,
}

-- The value that a line gives to a key, or the one before.
abbrev pub value_of : Text → Text → Option Text → Option Text
value_of key line old = elim (strip_prefix line key) [ none ↦ old | some v ↦ some (trim v) ]

-- The value that the last line with the key gives.
unfoldable pub last_value : Text → List Text → Option Text → Option Text
last_value key [] old = old
last_value key (line ∷ ls) old = last_value key ls (value_of key line old)

-- `NoDisplay` is not trimmed.
abbrev pub hides : Text → Bool → Bool
hides line old = elim (strip_prefix line (codes "NoDisplay=")) [
  | none ↦ old
  | some v ↦ v == codes "true"
]

unfoldable pub last_hides : List Text → Bool → Bool
last_hides [] old = old
last_hides (line ∷ ls) old = last_hides ls (hides line old)

-- Neither text starts the other.
apart : Text → Text → Bool
apart [] q = false
apart (a ∷ p) [] = false
apart (a ∷ p) (b ∷ q) = not (eqb a b) || apart p q

all_apart : Text → List Text → Bool
all_apart p [] = true
all_apart p (q ∷ qs) = apart p q && all_apart p qs

pairwise_apart : List Text → Bool
pairwise_apart [] = true
pairwise_apart (p ∷ ps) = all_apart p ps && pairwise_apart ps

all_none : List (Option Text) → Bool
all_none [] = true
all_none (none ∷ os) = all_none os
all_none (some v ∷ os) = false

-- At most one of them is there.
at_most_one : List (Option Text) → Bool
at_most_one [] = true
at_most_one (none ∷ os) = at_most_one os
at_most_one (some v ∷ os) = all_none os

abbrev updated : Text → Keys → Keys
updated line k = record {
  name = value_of (codes "Name=") line k.name;
  exec = value_of (codes "Exec=") line k.exec;
  try_exec = value_of (codes "TryExec=") line k.try_exec;
  icon = value_of (codes "Icon=") line k.icon;
  no_display = hides line k.no_display;
}

abbrev entry_keys : List Text
entry_keys =
    codes "Name=" ∷ codes "Exec=" ∷ codes "TryExec=" ∷ codes "Icon=" ∷ codes "NoDisplay=" ∷ []

-- The chain of tests of a line, on their results.
abbrev chosen : Option Text → Option Text → Option Text → Option Text → Option Text → Key
chosen a b c d e = elim a [
  | some v ↦ name_is v
  | none ↦ elim b [
    | some v ↦ exec_is v
    | none ↦ elim c [
      | some v ↦ try_exec_is v
      | none ↦ elim d [
        | some v ↦ icon_is v
        | none ↦ elim e [ some v ↦ no_display_is v | none ↦ other ]
      ]
    ]
  ]
]

abbrev or_before : Option Text → Option Text → Option Text
or_before found old = elim found [ none ↦ old | some v ↦ some (trim v) ]

-- The lines that can set a key, trimmed.
abbrev pub key_lines : List Text → List Text
key_lines ls = retain (λ line. not (is_skipped line)) (map trim ls)

-- What a file gives, by the values of its keys: an entry of them, or none where the name or the
-- command is missing or the entry hides itself.
abbrev pub IsEntryOf :
    Option Text → Option Text → Option Text → Option Text → Bool → Option DesktopEntry → Type 0
IsEntryOf name exec try_exec icon hidden entry =
    ((n : Text) × (e : Text) × (name ≡ some n)
      × (exec ≡ some e)
      × (hidden ≡ false)
      × (entry ≡ some (record { name = n; exec = e; try_exec = try_exec; icon = icon })))
    ⊎ (((name ≡ none) ⊎ (exec ≡ none) ⊎ (hidden ≡ true)) × (entry ≡ none))
