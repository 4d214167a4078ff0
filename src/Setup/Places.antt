-- ===== src/Setup/Places.antt =====
-- Where an installation puts its files, and what it writes there (daemon/src/setup.rs, and the
-- paths of common/src/lib.rs).
use nicewatch.Prelude.{Bool, true, false, ◌&&◌, [], ◌∷◌, ◌++◌, Option, none, some, if◌then◌else◌}
use nicewatch.Prelude.Text.{Text, text_eq, codes, is_empty}
use nicewatch.Prelude.Paths.{FilePath, path_eq, root_dir, join, path_of, display}
use nicewatch.Sync.Disk.{parent_or_dot}
use nicewatch.Setup.Machine.{Session}

-- A variable that is set and not empty.
abbrev set_var : Option Text → Option Text
set_var none = none
set_var (some t) = if is_empty t then none else some t

abbrev pub config_dir_name : Text
config_dir_name = codes "proc-priority-daemon"

abbrev pub app_name : Text
app_name = codes "nicewatch"

local_config_from : Option Text → Option Text → FilePath
local_config_from (some d) home = join (join (path_of d) config_dir_name) (codes "rules.toml")
local_config_from none (some h) =
    join (join (join (path_of h) (codes ".config")) config_dir_name) (codes "rules.toml")
local_config_from none none = join (config_dir_name ∷ []) (codes "rules.toml")

unfoldable pub local_config_path : Session → FilePath
unfolding local_config_from
local_config_path s =
    local_config_from (set_var (s.var (codes "XDG_CONFIG_HOME"))) (set_var (s.var (codes "HOME")))

unfoldable pub root_config_path : FilePath
root_config_path = join (join (join root_dir (codes "etc")) config_dir_name) (codes "rules.toml")

unfoldable pub install_dir : Session → FilePath
install_dir s = parent_or_dot (local_config_path s)

-- `XDG_CONFIG_HOME`, also where it is empty, or `.config` in `HOME`.
config_base : Option Text → Option Text → Option FilePath
config_base (some d) home = some (path_of d)
config_base none (some h) = some (join (path_of h) (codes ".config"))
config_base none none = none

systemd_under : Option FilePath → Option FilePath
systemd_under none = none
systemd_under (some base) = some (join (join base (codes "systemd")) (codes "user"))

autostart_under : Option FilePath → Option FilePath
autostart_under none = none
autostart_under (some base) = some (join base (codes "autostart"))

unfoldable pub systemd_user_dir : Session → Option FilePath
unfolding config_base systemd_under
systemd_user_dir s =
    systemd_under (config_base (s.var (codes "XDG_CONFIG_HOME")) (s.var (codes "HOME")))

unfoldable pub autostart_dir : Session → Option FilePath
unfolding config_base autostart_under
autostart_dir s =
    autostart_under (config_base (s.var (codes "XDG_CONFIG_HOME")) (s.var (codes "HOME")))

abbrev is_set : Option Text → Bool
is_set none = false
is_set (some t) = true

unfoldable pub systemd_user_available : Session → Bool
systemd_user_available s =
    s.systemd_booted
    && is_set (s.var (codes "XDG_RUNTIME_DIR"))
    && is_set (s.var (codes "DBUS_SESSION_BUS_ADDRESS"))

-- The files that an installation may leave.
abbrev pub binary_path : Session → FilePath
binary_path s = join (install_dir s) (app_name ++ codes ".bin")

abbrev pub unit_in : FilePath → FilePath
unit_in dir = join dir (app_name ++ codes ".service")

abbrev pub entry_in : FilePath → FilePath
entry_in dir = join dir (app_name ++ codes ".desktop")

abbrev pub system_unit : FilePath
system_unit = unit_in (join (join (join root_dir (codes "etc")) (codes "systemd")) (codes "system"))

unfoldable pub exec_line : FilePath → FilePath → FilePath → Bool → Text
exec_line binary root local system =
    let configs =
      display binary
      ++ (codes " --root-config "
          ++ (display root ++ (codes " --local-config " ++ display local))) in
    if system then configs else configs ++ codes " --socket %t/nicewatch.sock"

abbrev line : Text → Text
line t = t ++ (10 ∷ [])

unfoldable pub unit_contents : Session → FilePath → Bool → Text
unfolding exec_line
unit_contents s binary system =
    line (codes "[Unit]")
    ++ (line (codes "Description=Nicewatch CPU/IO priority daemon")
        ++ (line (codes "After=graphical-session.target")
            ++ (line (codes "Wants=graphical-session.target")
                ++ (line []
                    ++ (line (codes "[Service]")
                        ++ (line (codes "Type=simple")
                            ++ (line (
                                  codes "ExecStart="
                                  ++ exec_line binary root_config_path (local_config_path s) system)
                                ++ (line (codes "Restart=on-failure")
                                    ++ (line (codes "RestartSec=3")
                                        ++ (line []
                                            ++ (line (codes "[Install]")
                                                ++ line (codes "WantedBy=default.target"))))))))))))

unfoldable pub autostart_contents : FilePath → Text
autostart_contents binary =
    line (codes "[Desktop Entry]")
    ++ (line (codes "Type=Application")
        ++ (line (codes "Name=Nicewatch")
            ++ (line (codes "Comment=CPU/IO scheduling priority daemon")
                ++ (line (codes "Exec=" ++ display binary)
                    ++ line (codes "X-GNOME-Autostart-enabled=true")))))
