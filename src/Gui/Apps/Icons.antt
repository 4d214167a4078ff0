-- ===== src/Gui/Apps/Icons.antt =====
-- The icon of a name (`icon_lookup` and `icon_theme_path`, gui/src-tauri/src/apps.rs).
use nicewatch.Prelude.{
  ℕ, nat_eq, Bool, List, [], ◌∷◌, ◌++◌, Option, none, some, map, if◌then◌else◌, find,
}
use nicewatch.Prelude.Text.{Text, text_eq, codes, is_empty, starts_with}
use nicewatch.Prelude.Scan.{ends_with}
use nicewatch.Prelude.Paths.{FilePath, path_eq, path_of, push, display}
use nicewatch.Prelude.Maps.{get, is_some}
use nicewatch.Sync.Disk.{Host, read_file}

-- What the client finds: the disk, its directories, `HOME`, the base64 crate, and the capital of a
-- character.
pub record Desktop : Type 0 where
  pub host : Host
  pub read_dir : FilePath → Option (List FilePath)
  pub home : Option Text
  pub encode : Text → Text
  pub to_uppercase : ℕ → Text

abbrev pub home_dirs : Option Text → List Text → List FilePath
home_dirs none rels = []
home_dirs (some h) rels = map (push (path_of h)) rels

abbrev icon_dirs : Option Text → List FilePath
icon_dirs home =
    map path_of (
      codes "/usr/share/icons/hicolor/128x128/apps"
      ∷ codes "/usr/share/icons/hicolor/256x256/apps"
      ∷ codes "/usr/share/icons/hicolor/64x64/apps"
      ∷ codes "/usr/share/icons/hicolor/48x48/apps"
      ∷ codes "/usr/share/icons/Adwaita/128x128/apps"
      ∷ codes "/usr/share/pixmaps"
      ∷ [])
    ++ (home_dirs home (
          codes ".local/share/icons/hicolor/128x128/apps"
          ∷ codes ".local/share/icons/hicolor/256x256/apps"
          ∷ codes ".local/share/flatpak/exports/share/icons/hicolor/128x128/apps"
          ∷ codes ".var/app"
          ∷ [])
        ++ (path_of (codes "/var/lib/flatpak/exports/share/icons/hicolor/128x128/apps") ∷ []))

module _ (x : Desktop) where
  abbrev is_file : FilePath → Bool
  is_file path = is_some (get path x.host.files)

  -- The first candidate that is a file.
  abbrev candidates_in : Text → FilePath → List FilePath
  candidates_in name dir =
      push dir (name ++ codes ".png") ∷ push dir (name ++ codes ".svg") ∷ push dir name ∷ []

  icon_in : Text → List FilePath → Option Text
  icon_in name [] = none
  icon_in name (dir ∷ dirs) =
      let rest = icon_in name dirs in
      elim (find is_file (candidates_in name dir)) [ some p ↦ some (display p) | none ↦ rest ]

  unfoldable pub icon_theme_path : Text → Option Text
  unfolding icon_in
  icon_theme_path name = icon_in name (icon_dirs x.home)

  abbrev data_url : Text → Option Text → Option Text
  data_url file none = none
  data_url file (some bytes) =
      let mime =
        if ends_with file (codes ".svg") then codes "image/svg+xml" else codes "image/png" in
      some (codes "data:" ++ (mime ++ (codes ";base64," ++ x.encode bytes)))

  icon_at : Option Text → Option Text
  icon_at none = none
  icon_at (some file) = data_url file (read_file x.host (path_of file))

  unfoldable pub icon_lookup : Text → Option Text
  unfolding icon_at
  icon_lookup name =
      if is_empty name
      then none
      else icon_at (
          if starts_with name (codes "/")
          then (if is_file (path_of name) then some name else none)
          else icon_theme_path name)
