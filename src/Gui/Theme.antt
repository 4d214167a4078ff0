-- ===== src/Gui/Theme.antt =====
-- The colours of the desktop (gui/src-tauri/src/theme.rs): the accent, from the first place that
-- has one, and the theme.
pub mod Colours
pub mod Palettes
pub mod Surroundings
pub mod Ini
pub mod Kde
pub mod KdeColours
pub mod Backends
pub mod Hex
pub mod Accent
use nicewatch.Prelude.{
  ℕ, nat_eq, Bool, true, false, List, [], ◌∷◌, Option, none, some, map, if◌then◌else◌, ◌==◌, leb,
  find, min, length,
}
use nicewatch.Prelude.Text.{Text, text_eq, codes, is_empty, starts_with}
use nicewatch.Prelude.Scan.{split_whitespace, trim_start_char, drop}
use Colours.{unquote, rgb, rgb_tuple_to_hex, hex_colour, border_accent}
use Palettes.{gtk_presets}
use Surroundings.{NativeTheme, Desk}
use Backends.{get_kde_theme, gsettings_get, get_gtk_theme, get_bare_theme}

abbrev pub or_next : Option Text → Option Text → Option Text
or_next none o = o
or_next (some t) o = some t

-- The texts behind each "double ".
unfoldable pub behind_each : Text → List Text
behind_each [] = []
behind_each (c ∷ s) =
    let rest = behind_each s in
    if starts_with (c ∷ s) (codes "double ") then drop 7 (c ∷ s) ∷ rest else rest

abbrev first_of : List Text → Option Text
first_of [] = none
first_of (t ∷ ts) = some t

-- `(v * 255.0).round() as u8`, which stops at 255.
abbrev channel : Desk → Text → ℕ
channel x t = min 255 (x.scaled (first_of (split_whitespace t)))

unfoldable pub portal_colour : Desk → List Text → Option Text
portal_colour x (r ∷ g ∷ b ∷ rest) = some (rgb (channel x r) (channel x g) (channel x b))
portal_colour x _ = none

unfoldable pub portal_of : Desk → Option Text → Option Text
unfolding portal_colour
portal_of x none = none
portal_of x (some out) = portal_colour x (behind_each out)

unfoldable pub portal_accent : Desk → Option Text
unfolding portal_of behind_each
portal_accent x = portal_of x (
    x.run (codes "dbus-send") (
      codes "--session"
      ∷ codes "--print-reply"
      ∷ codes "--dest=org.freedesktop.portal.Desktop"
      ∷ codes "/org/freedesktop/portal/desktop"
      ∷ codes "org.freedesktop.portal.Settings.ReadOne"
      ∷ codes "string:org.freedesktop.appearance"
      ∷ codes "string:accent-color"
      ∷ []))

unfoldable pub preset_or : Text → Option (Text × ℕ × ℕ × ℕ) → Option Text
preset_or val (some (name, r, g, b)) = some (rgb r g b)
preset_or val none = hex_colour (trim_start_char b'#' val)

unfoldable pub preset_of : Option Text → Option Text
unfolding preset_or
preset_of none = none
preset_of (some val) = preset_or val (find (λ (p : Text × ℕ × ℕ × ℕ). p.0 == val) gtk_presets)

unfoldable pub gsetting_preset_or_hex : Desk → Text → Text → Option Text
unfolding preset_of
gsetting_preset_or_hex x schema key = preset_of (gsettings_get x schema key)

unfoldable pub kde_of : Option Text → Option Text
kde_of none = none
kde_of (some out) = rgb_tuple_to_hex (unquote out)

unfoldable pub kde_accent : Desk → Text → Option Text
unfolding kde_of
kde_accent x bin = kde_of (
    x.run bin (
      codes "--file"
      ∷ codes "kdeglobals"
      ∷ codes "--group"
      ∷ codes "General"
      ∷ codes "--key"
      ∷ codes "AccentColor"
      ∷ []))

unfoldable pub border_of : Option Text → Option Text
border_of none = none
border_of (some out) = border_accent out

unfoldable pub hyprland_accent : Desk → Option Text
unfolding border_of
hyprland_accent x =
    border_of
      (x.run (codes "hyprctl") (codes "getoption" ∷ codes "decoration:col.active_border" ∷ []))

abbrev pub fallback_accent : Text
unfolding rgb
fallback_accent = rgb 53 132 228

abbrev accent_key : Text
accent_key = codes "accent-color"

abbrev pub or_fallback : Option Text → Text
or_fallback none = fallback_accent
or_fallback (some t) = t

-- The first that there is.
unfoldable pub first_some : List (Option Text) → Option Text
first_some [] = none
first_some (o ∷ os) = or_next o (first_some os)

abbrev pub accents : Desk → List (Option Text)
accents x =
    portal_accent x
    ∷ gsetting_preset_or_hex x (codes "org.gnome.desktop.interface") accent_key
    ∷ gsetting_preset_or_hex x (codes "org.cinnamon.desktop.interface") accent_key
    ∷ gsetting_preset_or_hex x (codes "org.mate.interface") accent_key
    ∷ gsetting_preset_or_hex x (codes "com.system76.CosmicSettings") accent_key
    ∷ kde_accent x (codes "kreadconfig6")
    ∷ kde_accent x (codes "kreadconfig5")
    ∷ hyprland_accent x
    ∷ []

unfoldable pub get_accent : Desk → Text
unfolding first_some
get_accent x = or_fallback (first_some (accents x))

abbrev or_theme : Option NativeTheme → Option NativeTheme → Option NativeTheme
or_theme none o = o
or_theme (some t) o = some t

abbrev default_theme : NativeTheme
default_theme = record {
  bg = codes "#1e1e1e";
  sidebar = codes "#252526";
  surface = codes "#2d2d30";
  surface_hover = codes "#3e3e42";
  text = codes "#d4d4d4";
  muted = codes "#808080";
  muted2 = codes "#555555";
  border = codes "#404040";
  accent = fallback_accent;
  dark = true;
}

abbrev or_default : Option NativeTheme → NativeTheme
or_default none = default_theme
or_default (some t) = t

unfoldable pub with_accent : Desk → NativeTheme → NativeTheme
with_accent x t = if is_empty t.accent then record t { accent = get_accent x } else t

unfoldable pub get_native_theme : Desk → NativeTheme
unfolding with_accent
get_native_theme x =
    with_accent x
      (or_default (or_theme (get_kde_theme x) (or_theme (get_gtk_theme x) (get_bare_theme x))))
