-- ===== src/Setup/Written.antt =====
-- What an installation leaves (`install`, daemon/src/setup.rs).
use nicewatch.Prelude.{◌≡◌, Bool, true, false}
use nicewatch.Prelude.Text.{Text}
use nicewatch.Prelude.Paths.{FilePath, path_eq}
use nicewatch.Setup.{Installed, user_service, system_service, autostart_entry}
use nicewatch.Setup.Places.{binary_path, system_unit, unit_contents, autostart_contents}
use nicewatch.Setup.Machine.{Session, Machine, Result, ok, err}
use nicewatch.Setup.Outcome.{Has}
use nicewatch.Setup.Runs.{HasLine, command}
use nicewatch.Prelude.Text.{codes}
use nicewatch.Prelude.Paths.{display}
use nicewatch.Prelude.{◌++◌, ◌∷◌, []}

module _ (s : Session) where
  -- What an installation reports is on the disk.
  abbrev IsInstalled : FilePath → Installed → Machine → Type 0
  IsInstalled binary (user_service path) m = Has path (unit_contents s binary false) m
  IsInstalled binary (system_service path) m = Has path (unit_contents s binary true) m
  IsInstalled binary (autostart_entry path) m = Has path (autostart_contents binary) m

  -- Where the system-wide unit could be written, it is there.
  AfterWrite : FilePath → Bool → Machine → Type 0
  AfterWrite binary false m = Unit {0}
  AfterWrite binary true m = Has system_unit (unit_contents s binary true) m

  abbrev is_ok : Result (Unit {0}) → Bool
  is_ok (ok a) = true
  is_ok (err e) = false

  abbrev IsBinary : FilePath → Machine → Type 0
  IsBinary binary m = binary ≡ binary_path s

  -- A file with a line that starts so.
  abbrev pub HasStart : FilePath → Text → Machine → Type 0
  HasStart path start m = (text : Text) × Has path text m × HasLine start text

  -- The file that was reported runs the installed copy: a unit with the paths of the rule files, the
  -- autostart entry with no arguments.
  abbrev pub IsStarting : Installed → Machine → Type 0
  IsStarting (user_service path) m =
      HasStart path (codes "ExecStart=" ++ command s (binary_path s)) m
  IsStarting (system_service path) m =
      HasStart path (codes "ExecStart=" ++ command s (binary_path s)) m
  IsStarting (autostart_entry path) m =
      HasStart path (codes "Exec=" ++ (display (binary_path s) ++ (10 ∷ []))) m
