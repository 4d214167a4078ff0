-- ===== src/Setup.antt =====
-- The installation of the daemon as a service, and its removal (daemon/src/setup.rs).
pub mod Machine
pub mod Places
pub mod Traces
pub mod Removal
pub mod Installing
pub mod Outcome
pub mod Copied
pub mod Runs
pub mod Written
use nicewatch.Prelude.{
  ℕ, Bool, true, false, ◌&&◌, not, List, [], ◌∷◌, ◌++◌, Option, none, some, if◌then◌else◌, ◌==◌,
}
use nicewatch.Prelude.Text.{Text, text_eq, codes, is_empty}
use nicewatch.Prelude.Paths.{FilePath, path_eq, root_dir, join, path_of, display}
use nicewatch.Sync.Disk.{parent_or_dot}
use Machine.{
  Session, Failure, no_exe, cannot_create, cannot_replace, cannot_copy, cannot_chmod, cannot_write,
  no_home, systemctl_failed, cannot_remove, Result, ok, err, M, ◌>>=◌, ◌>>◌, give, fail, exists,
  chmod, make_dir, write, remove_file, systemctl, attempt,
}
use Places.{
  config_dir_name, app_name, local_config_path, root_config_path, install_dir, systemd_user_dir,
  autostart_dir, systemd_user_available, binary_path, unit_in, entry_in, system_unit, unit_contents,
  autostart_contents,
}

module _ (s : Session) where
  unfoldable pub replace_old : Bool → FilePath → M (Unit {0})
  replace_old true dest = remove_file s (cannot_replace dest) dest
  replace_old false dest = give tt

  unfoldable pub copy_to : FilePath → M FilePath
  unfolding replace_old
  copy_to dest = do
    make_dir s (parent_or_dot dest)
    there ← exists dest
    replace_old there dest
    write s (cannot_copy dest) dest s.binary
    chmod s (cannot_chmod dest) dest
    give dest

  unfoldable pub install_from : Option FilePath → M FilePath
  unfolding copy_to
  install_from none = fail no_exe
  install_from (some src) =
      if src == binary_path s then give (binary_path s) else copy_to (binary_path s)

  unfoldable pub install_binary_copy : M FilePath
  unfolding install_from
  install_binary_copy = install_from s.exe

  unfoldable pub default_local : Bool → M (Unit {0})
  default_local true = give tt
  default_local false = do
    make_dir s (parent_or_dot (local_config_path s))
    write s (cannot_write (local_config_path s)) (local_config_path s) s.default_rules

  -- A refused write is only warned of.
  unfoldable pub default_root : Bool → M (Unit {0})
  default_root true m = (m, ok tt)
  default_root false m =
      ((write s (cannot_write root_config_path) root_config_path s.default_rules m).0, ok tt)

  unfoldable pub ensure_default_config : M (Unit {0})
  unfolding default_local default_root
  ensure_default_config = do
    local ← exists (local_config_path s)
    default_local local
    root ← exists root_config_path
    default_root root

-- What was installed, with the file that was written.
pub data Installed : Type 0 where
  user_service : FilePath → Installed
  system_service : FilePath → Installed
  autostart_entry : FilePath → Installed

abbrev enable_now : List Text
enable_now = codes "enable" ∷ codes "--now" ∷ app_name ∷ []

abbrev restart_args : List Text
restart_args = codes "restart" ∷ app_name ∷ []

abbrev pub reload_args : List Text
reload_args = codes "daemon-reload" ∷ []

module _ (s : Session) where
  unfoldable pub install_user : Option FilePath → FilePath → M Installed
  install_user none binary = fail no_home
  install_user (some dir) binary = do
    make_dir s dir
    write s (cannot_write (unit_in dir)) (unit_in dir) (unit_contents s binary false)
    systemctl s true reload_args
    enabled ← attempt (systemctl s true enable_now)
    restarted ← attempt (systemctl s true restart_args)
    give (user_service (unit_in dir))

  install_autostart : Option FilePath → FilePath → M Installed
  install_autostart none binary = fail no_home
  install_autostart (some dir) binary = do
    make_dir s dir
    write s (cannot_write (entry_in dir)) (entry_in dir) (autostart_contents binary)
    give (autostart_entry (entry_in dir))

  -- After the unit is written, `systemctl` is only asked to go on where it reloads.
  started_system : Bool → M Installed
  started_system false = give (system_service system_unit)
  started_system true = do
    enabled ← attempt (systemctl s false enable_now)
    restarted ← attempt (systemctl s false restart_args)
    give (system_service system_unit)

  after_system_unit : Bool → FilePath → M Installed
  unfolding started_system install_autostart
  after_system_unit false binary = install_autostart (autostart_dir s) binary
  after_system_unit true binary = do
    reloaded ← attempt (systemctl s false reload_args)
    started_system reloaded

  -- `UID` unset, or "0".
  abbrev may_be_root : Option Text → Bool
  may_be_root none = true
  may_be_root (some u) = u == codes "0"

  install_elsewhere : Bool → FilePath → M Installed
  unfolding after_system_unit
  install_elsewhere false binary = install_autostart (autostart_dir s) binary
  install_elsewhere true binary = do
    written ← attempt (write s (cannot_write system_unit) system_unit (unit_contents s binary true))
    after_system_unit written binary

  unfoldable pub install_service : Bool → FilePath → M Installed
  unfolding install_user install_elsewhere
  install_service true binary = install_user (systemd_user_dir s) binary
  install_service false binary = install_elsewhere (may_be_root (s.var (codes "UID"))) binary

  unfoldable pub install : M Installed
  unfolding install_binary_copy ensure_default_config install_service
  install = do
    binary ← install_binary_copy s
    ensure_default_config s
    install_service (systemd_user_available s) binary

  -- A file that is removed if it is there; the result lists it.
  unfoldable pub remove_if : Bool → FilePath → M (List FilePath)
  remove_if false path = give []
  remove_if true path = do remove_file s (cannot_remove path) path; give (path ∷ [])

  unfoldable pub stop_service : Bool → M Bool
  stop_service false = give false
  stop_service true = attempt (systemctl s true (codes "disable" ∷ codes "--now" ∷ app_name ∷ []))

  unfoldable pub remove_unit : Option FilePath → M (List FilePath)
  unfolding stop_service remove_if
  remove_unit none = give []
  remove_unit (some dir) = do
    there ← exists (unit_in dir)
    stopped ← stop_service there
    remove_if there (unit_in dir)

  unfoldable pub remove_entry : Option FilePath → M (List FilePath)
  unfolding remove_if
  remove_entry none = give []
  remove_entry (some dir) = do there ← exists (entry_in dir); remove_if there (entry_in dir)

  abbrev pub unit_dir : Bool → Option FilePath
  unit_dir true = systemd_user_dir s
  unit_dir false = none

  -- The result lists what was removed.
  unfoldable pub uninstall : M (List FilePath)
  unfolding remove_unit remove_entry
  uninstall = do
    units ← remove_unit (unit_dir (systemd_user_available s))
    entries ← remove_entry (autostart_dir s)
    give (units ++ entries)
