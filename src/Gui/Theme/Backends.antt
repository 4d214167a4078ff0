-- ===== src/Gui/Theme/Backends.antt =====
-- The themes of KDE, GTK and bare window managers (gui/src-tauri/src/theme.rs).
use nicewatch.Prelude.{
  nat_eq, Bool, true, false, ◌||◌, List, [], ◌∷◌, Option, none, some, if◌then◌else◌, ◌==◌, find,
}
use nicewatch.Prelude.Text.{Text, text_eq, codes, is_empty, starts_with}
use nicewatch.Prelude.Scan.{trim, lines, contains_text}
use nicewatch.Prelude.Paths.{path_eq, join, path_of}
use nicewatch.Sync.Disk.{read_file}
use nicewatch.Gui.Theme.Colours.{unquote, is_dark}
use nicewatch.Gui.Theme.Palettes.{GtkPalette, adwaita_dark, adwaita, gtk_palettes}
use nicewatch.Gui.Theme.Surroundings.{NativeTheme, Desk}
use nicewatch.Gui.Theme.Ini.{pair_eq, split_once, parse_ini}
use nicewatch.Gui.Theme.Kde.{or_text, kde_theme}

abbrev of_palette : GtkPalette → Bool → NativeTheme
of_palette p dark = record {
  bg = p.bg;
  sidebar = p.sidebar;
  surface = p.surface;
  surface_hover = p.hover;
  text = p.text;
  muted = p.muted;
  muted2 = p.muted;
  border = p.border;
  accent = p.accent;
  dark = dark;
}

-- What `.Xresources` says, each the first time.
pub record Resources : Type 0 where
  pub background : Option Text
  pub foreground : Option Text
  pub color8 : Option Text
  pub color4 : Option Text

abbrev no_resources : Resources
no_resources = record { background = none; foreground = none; color8 = none; color4 = none }

abbrev get_or_insert : Option Text → Text → Option Text
get_or_insert none v = some v
get_or_insert (some u) v = some u

abbrev set_resource : Text → Text → Resources → Resources
set_resource key v r =
    if key == codes "background"
    then record r { background = get_or_insert r.background v }
    else if key == codes "foreground"
    then record r { foreground = get_or_insert r.foreground v }
    else if key == codes "color8" || key == codes "color 8"
    then record r { color8 = get_or_insert r.color8 v }
    else if key == codes "color4" || key == codes "color 4"
    then record r { color4 = get_or_insert r.color4 v }
    else r

module _ (x : Desk) where
  unfoldable pub kde_file : Option Text → Option NativeTheme
  kde_file none = none
  kde_file (some raw) = kde_theme x.is_dim (parse_ini (some raw))

  unfoldable pub kde_in : Option Text → Option NativeTheme
  unfolding kde_file
  kde_in none = none
  kde_in (some home) =
      kde_file
        (read_file x.host (join (join (path_of home) (codes ".config")) (codes "kdeglobals")))

  unfoldable pub get_kde_theme : Option NativeTheme
  unfolding kde_in
  get_kde_theme = kde_in x.home

  unquoted : Option Text → Option Text
  unquoted none = none
  unquoted (some out) = some (unquote out)

  unfoldable pub gsettings_get : Text → Text → Option Text
  unfolding unquoted
  gsettings_get schema key = unquoted (x.run (codes "gsettings") (codes "get" ∷ schema ∷ key ∷ []))

  abbrev is_value : Option Text → Text → Bool
  is_value none t = false
  is_value (some u) t = u == t

  gtk_default : Text → Bool → Option NativeTheme
  gtk_default theme dark =
      if dark
      then some (of_palette adwaita_dark true)
      else if is_empty theme
      then none
      else some (of_palette adwaita false)

  gtk_of : Text → Option (Text × GtkPalette) → Bool → Option NativeTheme
  unfolding gtk_default
  gtk_of theme (some (needle, p)) dark = some (of_palette p (is_dark x.is_dim p.bg))
  gtk_of theme none dark = gtk_default theme dark

  abbrev interface : Text
  interface = codes "org.gnome.desktop.interface"

  unfoldable pub get_gtk_theme : Option NativeTheme
  unfolding gtk_of
  get_gtk_theme =
      let theme = x.to_lowercase (or_text (gsettings_get interface (codes "gtk-theme")) []) in
      let scheme = gsettings_get interface (codes "color-scheme") in
      gtk_of theme (find (λ (p : Text × GtkPalette). contains_text p.0 theme) gtk_palettes)
        (is_value scheme (codes "prefer-dark") || contains_text (codes "dark") theme)

  resource_line : Text → Resources → Resources
  resource_line line r = elim (split_once b':' line) [
    | none ↦ r
    | some kv ↦ set_resource (x.to_lowercase (trim kv.0)) (trim kv.1) r
  ]

  resource_lines : List Text → Resources → Resources
  unfolding resource_line
  resource_lines [] r = r
  resource_lines (l ∷ ls) r =
      let line = trim l in
      resource_lines ls
        (if is_empty line || starts_with line (codes "!") then r else resource_line line r)

  theme_of : Option Text → Option Text → Resources → Option NativeTheme
  theme_of (some bg) (some text) r =
      let muted = or_text r.color8 (codes "#444444") in
      some (record {
        bg = bg;
        sidebar = bg;
        surface = bg;
        surface_hover = bg;
        text = text;
        muted = muted;
        muted2 = muted;
        border = muted;
        accent = or_text r.color4 (codes "#8b5cf6");
        dark = is_dark x.is_dim bg;
      })
  theme_of _ text r = none

  resources_in : Option Text → Option NativeTheme
  unfolding resource_lines theme_of
  resources_in none = none
  resources_in (some raw) =
      let r = resource_lines (lines raw) no_resources in theme_of r.background r.foreground r

  home_resources : Option Text → Option NativeTheme
  unfolding resources_in
  home_resources none = none
  home_resources (some home) =
      resources_in (read_file x.host (join (path_of home) (codes ".Xresources")))

  unfoldable pub parse_xresources : Option NativeTheme
  unfolding home_resources
  parse_xresources = home_resources x.home

  abbrev portal_dark : NativeTheme
  portal_dark = record {
    bg = codes "#1e1e1e";
    sidebar = codes "#1a1a1a";
    surface = codes "#252526";
    surface_hover = codes "#333333";
    text = codes "#ffffff";
    muted = codes "#888888";
    muted2 = codes "#555555";
    border = codes "#333333";
    accent = codes "#8b5cf6";
    dark = true;
  }

  abbrev prefers_dark : Option Text → Bool
  prefers_dark none = false
  prefers_dark (some out) = contains_text (codes "1") (trim out)

  unfoldable pub get_bare_theme : Option NativeTheme
  unfolding parse_xresources
  get_bare_theme =
      if prefers_dark (
        x.run (codes "dbus-send") (
          codes "--print-reply=literal"
          ∷ codes "--dest=org.freedesktop.portal.Desktop"
          ∷ codes "/org/freedesktop/portal/desktop"
          ∷ codes "org.freedesktop.portal.Settings.Read"
          ∷ codes "string:org.freedesktop.appearance"
          ∷ codes "string:color-scheme"
          ∷ []))
      then some portal_dark
      else parse_xresources
