-- ===== src/Tests/SetupRuns.antt =====
-- Runs of the installation.
use nicewatch.Prelude.{
  ◌≡◌, refl, true, false, [], ◌∷◌, none, some, if◌then◌else◌, ◌==◌, ◌++◌, contains, retain,
}
use nicewatch.Prelude.Text.{Text, codes, text_eq}
use nicewatch.Prelude.Paths.{FilePath, path_eq, root_dir, join}
use nicewatch.Setup.{install, uninstall}
use nicewatch.Setup.Places.{system_unit, app_name, binary_path}
use nicewatch.Setup.Machine.{Session, Machine, ok}
use nicewatch.Setup.Traces.{file_at, removable, targets}
use nicewatch.Setup.Removal.{uninstall-exact}
use nicewatch.Setup.Installing.{install_spares}
use nicewatch.Tests.Data.{an_env, a_host, root_path}

abbrev home : FilePath
home = join (join root_dir (codes "home")) (codes "u")

abbrev user_unit : FilePath
user_unit =
    join (join (join (join home (codes ".config")) (codes "systemd")) (codes "user"))
      (app_name ++ codes ".service")

-- A desktop session with a systemd for its user.
abbrev a_session : Session
a_session = record {
  var = λ v.
      if v == codes "HOME"
      then some (codes "/home/u")
      else if v == codes "XDG_CONFIG_HOME"
      then none
      else some (codes "/run");
  exe = some (join (join root_dir (codes "tmp")) (codes "nicewatch"));
  binary = codes "ELF";
  systemd_booted = true;
  default_rules = codes "g";
  env = an_env;
  may_remove = λ path. true;
  may_chmod = λ path. true;
  accepts = λ user args. true;
}

abbrev an_installed : Machine
an_installed = record {
  host = record a_host {
    files =
        (user_unit, record { content = codes "u"; mtime = 3; is_readable = true })
        ∷ (system_unit, record { content = codes "s"; mtime = 4; is_readable = true })
        ∷ [];
  };
  calls = [];
}

uninstalled : (uninstall a_session an_installed).1 ≡ ok (user_unit ∷ [])
unfolding uninstall nicewatch.Prelude.Text.is_empty nicewatch.Setup.remove_unit
    nicewatch.Setup.remove_entry nicewatch.Setup.stop_service nicewatch.Setup.remove_if
    nicewatch.Setup.Places.systemd_user_dir nicewatch.Setup.Places.autostart_dir
    nicewatch.Setup.Places.systemd_user_available nicewatch.Setup.Machine.exists
    nicewatch.Setup.Machine.remove_file nicewatch.Setup.Machine.systemctl
    nicewatch.Setup.Machine.◌>>=◌ nicewatch.Prelude.Maps.get nicewatch.Prelude.Maps.remove
    nicewatch.Prelude.Paths.path_beq nicewatch.Prelude.Text.text_beq nicewatch.Prelude.Paths.path_of
    nicewatch.Prelude.Text.starts_with nicewatch.Prelude.Scan.split_on retain
uninstalled = refl

etc_apart : contains (targets a_session) root_path ≡ false
unfolding contains nicewatch.Prelude.Text.is_empty nicewatch.Prelude.Paths.path_beq
    nicewatch.Prelude.Text.text_beq nicewatch.Setup.Places.install_dir
    nicewatch.Setup.Places.local_config_path nicewatch.Setup.Places.root_config_path
    nicewatch.Setup.Places.systemd_user_dir nicewatch.Setup.Places.autostart_dir
    nicewatch.Prelude.Paths.path_of nicewatch.Prelude.Text.starts_with
    nicewatch.Prelude.Scan.split_on retain nicewatch.Prelude.Paths.parent
etc_apart = refl

uninstall-exact_example :
    file_at user_unit (uninstall a_session an_installed).0
    ≡ (if contains (removable a_session) user_unit then none else file_at user_unit an_installed)
uninstall-exact_example =
    uninstall-exact a_session user_unit an_installed (user_unit ∷ []) uninstalled

install_spares_example :
    file_at root_path (install a_session an_installed).0 ≡ file_at root_path an_installed
install_spares_example = install_spares a_session root_path etc_apart an_installed
