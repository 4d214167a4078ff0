-- ===== src/Gui/Theme/Palettes.antt =====
-- The known palettes and accents (gui/src-tauri/src/theme.rs).
use nicewatch.Prelude.{ℕ, List, [], ◌∷◌}
use nicewatch.Prelude.Text.{Text, codes}

pub record GtkPalette : Type 0 where
  pub bg : Text
  pub sidebar : Text
  pub surface : Text
  pub hover : Text
  pub text : Text
  pub muted : Text
  pub border : Text
  pub accent : Text

abbrev pub adwaita_dark : GtkPalette
adwaita_dark = record {
  bg = codes "#242424";
  sidebar = codes "#1e1e1e";
  surface = codes "#303030";
  hover = codes "#3c3c3c";
  text = codes "#ffffff";
  muted = codes "#9a9996";
  border = codes "#1e1e1e";
  accent = codes "#3584e4";
}

abbrev pub adwaita : GtkPalette
adwaita = record {
  bg = codes "#fafafa";
  sidebar = codes "#f0f0f0";
  surface = codes "#ffffff";
  hover = codes "#f5f5f5";
  text = codes "#000000";
  muted = codes "#77767b";
  border = codes "#e6e6e6";
  accent = codes "#3584e4";
}

abbrev pub yaru_dark : GtkPalette
yaru_dark = record {
  bg = codes "#1e1e1e";
  sidebar = codes "#111111";
  surface = codes "#2d2d2d";
  hover = codes "#3d3d3d";
  text = codes "#f7f7f7";
  muted = codes "#b3b3b3";
  border = codes "#1e1e1e";
  accent = codes "#e95420";
}

abbrev pub mint_y_dark : GtkPalette
mint_y_dark = record {
  bg = codes "#2f3032";
  sidebar = codes "#2a2b2d";
  surface = codes "#383a3c";
  hover = codes "#424446";
  text = codes "#dfdfdf";
  muted = codes "#a0a0a0";
  border = codes "#252627";
  accent = codes "#62a05f";
}

abbrev pub pop_dark : GtkPalette
pop_dark = record {
  bg = codes "#333132";
  sidebar = codes "#292728";
  surface = codes "#413e3f";
  hover = codes "#4d4a4b";
  text = codes "#f2f2f2";
  muted = codes "#b0afb0";
  border = codes "#292728";
  accent = codes "#f6d32d";
}

abbrev pub gtk_palettes : List (Text × GtkPalette)
gtk_palettes =
    (codes "adwaita-dark", adwaita_dark)
    ∷ (codes "adwaita", adwaita)
    ∷ (codes "yaru-dark", yaru_dark)
    ∷ (codes "mint-y-dark", mint_y_dark)
    ∷ (codes "pop-dark", pop_dark)
    ∷ []

abbrev pub gtk_presets : List (Text × ℕ × ℕ × ℕ)
gtk_presets =
    (codes "blue", 53, 132, 228)
    ∷ (codes "teal", 25, 162, 155)
    ∷ (codes "green", 51, 171, 80)
    ∷ (codes "yellow", 242, 185, 53)
    ∷ (codes "orange", 245, 135, 31)
    ∷ (codes "red", 207, 73, 73)
    ∷ (codes "purple", 130, 90, 209)
    ∷ (codes "pink", 222, 82, 150)
    ∷ (codes "slate", 120, 120, 130)
    ∷ []
