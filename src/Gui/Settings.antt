-- ===== src/Gui/Settings.antt =====
-- The settings of the desktop client and their file (gui/src-tauri/src/settings.rs).
use nicewatch.Prelude.{◌≡◌, Bool, true, false, Option, none, some, if◌then◌else◌, arith, eq_refl}
use nicewatch.Prelude.Text.{Text, codes}
use nicewatch.Prelude.Paths.{FilePath, path_eq, join}
use nicewatch.Prelude.Maps.{get-insert}
use nicewatch.Sync.Disk.{read_file, content_of, create_dir_all, write_file, parent_or_dot}
use nicewatch.Setup.Places.{local_config_path}
use nicewatch.Setup.Machine.{
  Session, Machine, Result, ok, err, M, cannot_write, ◌>>=◌, ◌>>◌, make_dir, write,
}
use nicewatch.Ipc.Framing.{Json}

pub record GuiSettings : Type 0 where
  pub start_in_tray : Bool
  pub minimize_to_tray : Bool

abbrev pub default_settings : GuiSettings
default_settings = record { start_in_tray = false; minimize_to_tray = false }

unfoldable pub settings_path : Session → FilePath
settings_path s = join (parent_or_dot (local_config_path s)) (codes "gui-settings.json")

abbrev settings_dir : Session → FilePath
settings_dir s = parent_or_dot (local_config_path s)

module _ (s : Session) (j : Json GuiSettings) where
  settings_of : Option Text → GuiSettings
  settings_of none = default_settings
  settings_of (some text) = elim (j.from_json text) [ none ↦ default_settings | some g ↦ g ]

  unfoldable pub load : Machine → GuiSettings
  unfolding settings_of
  load m = settings_of (read_file m.host (settings_path s))

  unfoldable pub save : GuiSettings → M (Unit {0})
  save g = do
    make_dir s (settings_dir s)
    write s (cannot_write (settings_path s)) (settings_path s) (j.to_json g)

  abbrev pub succeeded : Machine × Result (Unit {0}) → Bool
  succeeded (m, ok _) = true
  succeeded (m, err _) = false

  -- Settings that are saved are those loaded next, where their text decodes to them; a save that
  -- fails leaves those that were there.
  pub load-save :
      (g : GuiSettings) (m : Machine)
      → j.from_json (j.to_json g) ≡ some g
      → load (save g m).0 ≡ (if succeeded (save g m) then g else load m)
  unfolding load save ◌>>=◌ make_dir write create_dir_all write_file read_file content_of
      settings_of
  load-save g m json = ground (
    arith,
    json,
    eq_refl (settings_path s),
    get-insert (settings_path s) (settings_path s)
        (record { content = j.to_json g; mtime = m.host.wall; is_readable = true }) m.host.files,
  )
