-- ===== src/Gui/Theme/KdeColours.antt =====
-- The colours of a KDE theme (gui/src-tauri/src/theme.rs).
use nicewatch.Prelude.{
  ℕ, ◌≡◌, refl, sym, ap, ◌∙◌, Bool, true, ◌&&◌, ◌||◌, List, [], ◌∷◌, Option, none, some, all, arith,
  Bool-cases, inl, inr,
}
use nicewatch.Prelude.Text.{Text, text_eq, codes, is_empty}
use nicewatch.Prelude.Maps.{get}
use nicewatch.Gui.Theme.Hex.{is_colour, all_colour, rgb_tuple_to_hex-colour}
use nicewatch.Gui.Theme.Backends.{kde_file, kde_in, get_kde_theme}
use nicewatch.Gui.Theme.Kde.{ini_colour, colour_in, kde_with, kde_theme, or_text}
use nicewatch.Gui.Theme.Ini.{Ini, parse_ini, pair_eq}
use nicewatch.Gui.Theme.Surroundings.{NativeTheme, Desk}
use nicewatch.Gui.Theme.{with_accent, get_native_theme}
use nicewatch.Gui.Theme.Accent.{get_accent-colour, both}

-- The colours of a theme but its accent.
abbrev pub surfaces_of : NativeTheme → List Text
surfaces_of t =
    t.bg ∷ t.sidebar ∷ t.surface ∷ t.surface_hover ∷ t.text ∷ t.muted ∷ t.muted2 ∷ t.border ∷ []

abbrev kde_colours : Option NativeTheme → Bool
kde_colours none = true
kde_colours (some t) = all is_colour (surfaces_of t) && (is_empty t.accent || is_colour t.accent)

or_text-colour :
    (o : Option Text) (d : Text)
    → all_colour o ≡ true
    → is_colour d ≡ true
    → is_colour (or_text o d) ≡ true
or_text-colour none d h hd = hd
or_text-colour (some t) d h hd = h

ini_colour-colour :
    (ini : Ini) (section key : Text) → all_colour (ini_colour ini section key) ≡ true
unfolding ini_colour colour_in
ini_colour-colour ini section key = colour_in-colour (get (section, key) ini)
  where
    colour_in-colour : (o : Option Text) → all_colour (colour_in o) ≡ true
    colour_in-colour none = refl
    colour_in-colour (some v) = rgb_tuple_to_hex-colour v

white : is_colour (codes "#ffffff") ≡ true
unfolding is_colour all
white = refl

grey : is_colour (codes "#888888") ≡ true
unfolding is_colour all
grey = refl

or_empty :
    (o : Option Text)
    → all_colour o ≡ true
    → (is_empty (or_text o []) || is_colour (or_text o [])) ≡ true
unfolding is_empty
or_empty none h = refl
or_empty (some t) h = ground (arith, h)

kde_with-colours :
    (is_dim : ℕ → ℕ → ℕ → Bool) (ini : Ini) (bg surface : Option Text)
    → all_colour bg ≡ true
    → all_colour surface ≡ true
    → kde_colours (kde_with is_dim ini bg surface) ≡ true
unfolding kde_with all
kde_with-colours is_dim ini none surface hb hs = refl
kde_with-colours is_dim ini (some bg) none hb hs = refl
kde_with-colours is_dim ini (some bg) (some surface) hb hs =
    let inactive =
      or_text-colour _ _
        (ini_colour-colour ini (codes "Colors:Window") (codes "ForegroundInactive")) grey in
    let sidebar =
      or_text-colour _ bg (ini_colour-colour ini (codes "Colors:View") (codes "BackgroundNormal"))
        hb in
    let text =
      or_text-colour _ _ (ini_colour-colour ini (codes "Colors:Window") (codes "ForegroundNormal"))
        white in
    let border =
      or_text-colour _ surface
        (ini_colour-colour ini (codes "Colors:View") (codes "BackgroundAlternate")) hs in
    both
      (both hb (
        both sidebar
          (both hs (both hs (both text (both inactive (both inactive (both border refl))))))))
      (or_empty _ (ini_colour-colour ini (codes "Colors:Selection") (codes "BackgroundNormal")))

kde_file-colours : (x : Desk) (o : Option Text) → kde_colours (kde_file x o) ≡ true
unfolding kde_file kde_theme
kde_file-colours x none = refl
kde_file-colours x (some raw) =
    kde_with-colours x.is_dim (parse_ini (some raw)) _ _ (ini_colour-colour _ _ _)
      (ini_colour-colour _ _ _)

get_kde_theme-colours : (x : Desk) → kde_colours (get_kde_theme x) ≡ true
unfolding get_kde_theme
get_kde_theme-colours x = kde_in-colours x.home
  where
    kde_in-colours : (o : Option Text) → kde_colours (kde_in x o) ≡ true
    kde_in-colours none = refl
    kde_in-colours (some home) = kde_file-colours x _

accented :
    (x : Desk) (t : NativeTheme)
    → kde_colours (some t) ≡ true
    → all is_colour ((with_accent x t).accent ∷ surfaces_of (with_accent x t)) ≡ true
unfolding with_accent all
accented x t h = elim (Bool-cases (is_empty t.accent)) [
  | inl blank ↦ rw blank (both (get_accent-colour x) (ground (arith, h)))
  | inr there ↦ rw there (ground (arith, h, there))
]

-- Where there is a KDE theme, the client's theme has only colours of six small hexadecimal digits,
-- the accent included, whatever the file of KDE, the settings and the commands give.
pub get_native_theme-colours :
    (x : Desk) {t : NativeTheme}
    → get_kde_theme x ≡ some t
    → all is_colour ((get_native_theme x).accent ∷ surfaces_of (get_native_theme x)) ≡ true
unfolding get_native_theme
get_native_theme-colours x {t} kde =
    rw kde (accented x t (ap kde_colours (sym kde) ∙ get_kde_theme-colours x))
