-- ===== src/Gui/Theme/Surroundings.antt =====
-- A theme, and what the client finds for it (gui/src-tauri/src/theme.rs).
use nicewatch.Prelude.{ℕ, nat_eq, Bool, List, Option}
use nicewatch.Prelude.Text.{Text, text_eq}
use nicewatch.Prelude.Paths.{path_eq}
use nicewatch.Sync.Disk.{Host}

pub record NativeTheme : Type 0 where
  pub bg : Text
  pub sidebar : Text
  pub surface : Text
  pub surface_hover : Text
  pub text : Text
  pub muted : Text
  pub muted2 : Text
  pub border : Text
  pub accent : Text
  pub dark : Bool

-- What the client finds: `HOME`, the disk, the output of a command that succeeds, and of the
-- standard library `to_lowercase` and what is floating point: the test of the luminance, and 255
-- times the number that a text gives, or 0, rounded, and 0 where that is below.
pub record Desk : Type 0 where
  pub home : Option Text
  pub host : Host
  pub run : Text → List Text → Option Text
  pub to_lowercase : Text → Text
  pub is_dim : ℕ → ℕ → ℕ → Bool
  pub scaled : Option Text → ℕ
