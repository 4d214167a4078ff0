-- ===== src/Gui/Theme/Kde.antt =====
-- The theme of KDE (`get_kde_theme`, gui/src-tauri/src/theme.rs).
use nicewatch.Prelude.{ℕ, nat_eq, Bool, [], Option, none, some}
use nicewatch.Prelude.Text.{Text, text_eq, codes}
use nicewatch.Prelude.Paths.{path_eq}
use nicewatch.Prelude.Maps.{get}
use nicewatch.Gui.Theme.Colours.{rgb_tuple_to_hex, is_dark}
use nicewatch.Gui.Theme.Surroundings.{NativeTheme}
use nicewatch.Gui.Theme.Ini.{pair_eq, Ini}

abbrev pub or_text : Option Text → Text → Text
or_text none t = t
or_text (some u) t = u

unfoldable pub colour_in : Option Text → Option Text
colour_in none = none
colour_in (some v) = rgb_tuple_to_hex v

unfoldable pub ini_colour : Ini → Text → Text → Option Text
unfolding colour_in
ini_colour ini section key = colour_in (get (section, key) ini)

module _ (is_dim : ℕ → ℕ → ℕ → Bool) (ini : Ini) where
  unfoldable pub kde_with : Option Text → Option Text → Option NativeTheme
  kde_with (some bg) (some surface) =
      let muted =
        or_text (ini_colour ini (codes "Colors:Window") (codes "ForegroundInactive"))
          (codes "#888888") in
      some (record {
        bg = bg;
        sidebar = or_text (ini_colour ini (codes "Colors:View") (codes "BackgroundNormal")) bg;
        surface = surface;
        surface_hover = surface;
        text =
            or_text (ini_colour ini (codes "Colors:Window") (codes "ForegroundNormal"))
              (codes "#ffffff");
        muted = muted;
        muted2 = muted;
        border =
            or_text (ini_colour ini (codes "Colors:View") (codes "BackgroundAlternate")) surface;
        accent = or_text (ini_colour ini (codes "Colors:Selection") (codes "BackgroundNormal")) [];
        dark = is_dark is_dim bg;
      })
  kde_with _ surface = none

  unfoldable pub kde_theme : Option NativeTheme
  unfolding kde_with
  kde_theme =
      kde_with (ini_colour ini (codes "Colors:Window") (codes "BackgroundNormal"))
        (ini_colour ini (codes "Colors:Button") (codes "BackgroundNormal"))
