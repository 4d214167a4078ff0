-- ===== src/Setup/Runs.antt =====
-- What the unit and the autostart entry run (`unit_contents` and `autostart_contents`,
-- daemon/src/setup.rs).
use nicewatch.Prelude.{◌≡◌, refl, ap, ◌∙◌, sym, Bool, true, false, [], ◌∷◌, ◌++◌}
use mathlib.Core.List.{append_assoc, append-nil}
use nicewatch.Prelude.Text.{Text, codes}
use nicewatch.Prelude.Paths.{FilePath, display}
use nicewatch.Setup.Places.{
  exec_line, unit_contents, autostart_contents, local_config_path, root_config_path,
}
use nicewatch.Setup.Machine.{Session}

-- The text has a line that starts so.
abbrev pub HasLine : Text → Text → Type 0
HasLine start text = (before : Text) × (after : Text) × (text ≡ before ++ (10 ∷ (start ++ after)))

-- The command of a unit: the program with the paths of the two rule files.
abbrev pub command : Session → FilePath → Text
command s binary =
    display binary
    ++ (codes " --root-config "
        ++ (display root_config_path
            ++ (codes " --local-config " ++ display (local_config_path s))))

regroup : (a b c d : Text) → ((a ++ b) ++ c) ++ d ≡ a ++ (b ++ (c ++ d))
regroup a b c d = append_assoc (a ++ b) c d ∙ append_assoc a b (c ++ d)

exec_line-command :
    (s : Session) (binary : FilePath) (system : Bool)
    → (options : Text) × (exec_line binary root_config_path (local_config_path s) system
        ≡ command s binary ++ options)
unfolding exec_line
exec_line-command s binary true = ([], sym (append-nil (command s binary)))
exec_line-command s binary false = (codes " --socket %t/nicewatch.sock", refl)

abbrev ended : Text → Text → Text
ended t rest = t ++ (10 ∷ rest)

-- The unit before and after the line of the command.
abbrev unit_head : Text
unit_head = ended (codes "[Unit]") (
    ended (codes "Description=Nicewatch CPU/IO priority daemon") (
      ended (codes "After=graphical-session.target") (
        ended (codes "Wants=graphical-session.target")
          (ended [] (ended (codes "[Service]") (codes "Type=simple"))))))

abbrev unit_tail : Text
unit_tail = ended (codes "Restart=on-failure") (
    ended (codes "RestartSec=3")
      (ended [] (ended (codes "[Install]") (ended (codes "WantedBy=default.target") []))))

started :
    (exec cmd options : Text)
    → exec ≡ cmd ++ options
    → (exec ++ (10 ∷ [])) ++ unit_tail ≡ cmd ++ ended options unit_tail
started exec cmd options e =
    ap (λ t. (t ++ (10 ∷ [])) ++ unit_tail) e ∙ regroup cmd options (10 ∷ []) unit_tail

-- A unit starts the program with the paths of the rule files.
pub unit_contents-HasLine :
    (s : Session) (binary : FilePath) (system : Bool)
    → HasLine (codes "ExecStart=" ++ command s binary) (unit_contents s binary system)
unfolding unit_contents
unit_contents-HasLine s binary system =
    let (options, e) = exec_line-command s binary system in
    (
      unit_head,
      ended options unit_tail,
      ap (λ t. unit_head ++ (10 ∷ (codes "ExecStart=" ++ t)))
          (started (exec_line binary root_config_path (local_config_path s) system)
            (command s binary) options e),
    )

-- The autostart entry runs the program.
pub autostart_contents-HasLine :
    (binary : FilePath)
    → HasLine (codes "Exec=" ++ (display binary ++ (10 ∷ []))) (autostart_contents binary)
unfolding autostart_contents
autostart_contents-HasLine binary = (
  ended (codes "[Desktop Entry]") (
      ended (codes "Type=Application")
        (ended (codes "Name=Nicewatch") (codes "Comment=CPU/IO scheduling priority daemon"))),
  ended (codes "X-GNOME-Autostart-enabled=true") [],
  refl,
)
