-- ===== src/Gui/Theme/Accent.antt =====
-- The text of the accent (gui/src-tauri/src/theme.rs).
use nicewatch.Prelude.{
  ℕ, ◌≡◌, refl, Bool, true, false, ◌&&◌, List, [], ◌∷◌, Option, none, some, leb, all, find, arith,
  Bool-cases, inl, inr,
}
use nicewatch.Prelude.Text.{Text, text_eq, is_empty}
use nicewatch.Prelude.Scan.{trim_start_char}
use nicewatch.Gui.Theme.Colours.{hex_digit, rgb}
use nicewatch.Gui.Theme.Hex.{
  is_colour, all_colour, rgb-colour, hex_colour-colour, rgb_tuple_to_hex-colour,
  border_accent-colour,
}
use nicewatch.Gui.Theme.Palettes.{gtk_presets}
use nicewatch.Gui.Theme.Backends.{gsettings_get}
use nicewatch.Gui.Theme.Ini.{pair_eq}
use nicewatch.Gui.Theme.Surroundings.{NativeTheme, Desk}
use nicewatch.Gui.Theme.{
  portal_colour, portal_of, portal_accent, preset_or, preset_of, gsetting_preset_or_hex, kde_of,
  kde_accent, border_of, hyprland_accent, first_some, or_fallback, accents, get_accent, with_accent,
  get_native_theme, behind_each,
}

abbrev fits : Text × ℕ × ℕ × ℕ → Bool
fits (name, r, g, b) = leb r 255 && (leb g 255 && leb b 255)

preset_or-colour :
    (val : Text) (p : Text × ℕ × ℕ × ℕ → Bool) (ps : List (Text × ℕ × ℕ × ℕ))
    → all fits ps ≡ true
    → all_colour (preset_or val (find p ps)) ≡ true
unfolding preset_or all find
preset_or-colour val p [] h = hex_colour-colour (trim_start_char b'#' val)
preset_or-colour val p ((name, r, g, b) ∷ ps) h = elim (Bool-cases (p (name, r, g, b))) [
  | inl this ↦
      rw this (rgb-colour r g b (ground (arith, h)) (ground (arith, h)) (ground (arith, h)))
  | inr other ↦ rw other (preset_or-colour val p ps (ground (arith, h)))
]

presets_fit : all fits gtk_presets ≡ true
unfolding all
presets_fit = refl

preset_of-colour : (o : Option Text) → all_colour (preset_of o) ≡ true
unfolding preset_of
preset_of-colour none = refl
preset_of-colour (some val) = preset_or-colour val _ gtk_presets presets_fit

portal_colour-colour : (x : Desk) (ts : List Text) → all_colour (portal_colour x ts) ≡ true
unfolding portal_colour
portal_colour-colour x [] = refl
portal_colour-colour x (r ∷ []) = refl
portal_colour-colour x (r ∷ g ∷ []) = refl
portal_colour-colour x (r ∷ g ∷ b ∷ rest) =
    rgb-colour _ _ _ (omega arith) (omega arith) (omega arith)

portal_of-colour : (x : Desk) (o : Option Text) → all_colour (portal_of x o) ≡ true
unfolding portal_of
portal_of-colour x none = refl
portal_of-colour x (some out) = portal_colour-colour x (behind_each out)

kde_of-colour : (o : Option Text) → all_colour (kde_of o) ≡ true
unfolding kde_of
kde_of-colour none = refl
kde_of-colour (some out) = rgb_tuple_to_hex-colour _

border_of-colour : (o : Option Text) → all_colour (border_of o) ≡ true
unfolding border_of
border_of-colour none = refl
border_of-colour (some out) = border_accent-colour out

first_some-colour :
    (os : List (Option Text)) → all all_colour os ≡ true → all_colour (first_some os) ≡ true
unfolding first_some all
first_some-colour [] h = refl
first_some-colour (none ∷ os) h = first_some-colour os h
first_some-colour (some t ∷ os) h = ground (arith, h)

portal_accent-colour : (x : Desk) → all_colour (portal_accent x) ≡ true
unfolding portal_accent
portal_accent-colour x = portal_of-colour x _

gsetting-colour :
    (x : Desk) (schema key : Text) → all_colour (gsetting_preset_or_hex x schema key) ≡ true
unfolding gsetting_preset_or_hex
gsetting-colour x schema key = preset_of-colour (gsettings_get x schema key)

kde_accent-colour : (x : Desk) (bin : Text) → all_colour (kde_accent x bin) ≡ true
unfolding kde_accent
kde_accent-colour x bin = kde_of-colour _

hyprland_accent-colour : (x : Desk) → all_colour (hyprland_accent x) ≡ true
unfolding hyprland_accent
hyprland_accent-colour x = border_of-colour _

pub both : {a b : Bool} → a ≡ true → b ≡ true → (a && b) ≡ true
both ha hb = ground (arith, ha, hb)

accents-colour : (x : Desk) → all all_colour (accents x) ≡ true
unfolding all
accents-colour x = both (portal_accent-colour x) (
    both (gsetting-colour x _ _) (
      both (gsetting-colour x _ _) (
        both (gsetting-colour x _ _) (
          both (gsetting-colour x _ _) (
            both (kde_accent-colour x _)
              (both (kde_accent-colour x _) (both (hyprland_accent-colour x) refl)))))))

or_fallback-colour : (o : Option Text) → all_colour o ≡ true → is_colour (or_fallback o) ≡ true
unfolding rgb hex_digit is_colour all
or_fallback-colour none h = refl
or_fallback-colour (some t) h = h

-- The accent cascade ends in a colour of six small hexadecimal digits, whatever the desktop's
-- settings and the output of its commands are.
pub get_accent-colour : (x : Desk) → is_colour (get_accent x) ≡ true
unfolding get_accent
get_accent-colour x =
    or_fallback-colour (first_some (accents x)) (first_some-colour (accents x) (accents-colour x))

colour-some_text : (t : Text) → is_colour t ≡ true → is_empty t ≡ false
unfolding is_colour is_empty
colour-some_text [] h = cc
colour-some_text (c ∷ s) h = refl

-- A theme has an accent, whichever desktop it is from.
pub get_native_theme-accent : (x : Desk) → is_empty (get_native_theme x).accent ≡ false
unfolding get_native_theme with_accent
get_native_theme-accent x = with_accent-some_text _
  where
    with_accent-some_text : (t : NativeTheme) → is_empty (with_accent x t).accent ≡ false
    with_accent-some_text t = elim (Bool-cases (is_empty t.accent)) [
      | inl blank ↦ rw blank (colour-some_text (get_accent x) (get_accent-colour x))
      | inr there ↦ rw there there
    ]
