-- ===== src/Detect.antt =====
-- daemon/src/game_detect.rs: the game-detection heuristic.
pub mod Known
pub mod Exclusions
pub mod Environ
use nicewatch.Prelude.{
  ℕ, Bool, true, false, ◌&&◌, ◌||◌, List, [], ◌∷◌, Option, none, some, map, any, if◌then◌else◌, eqb,
  ◌==◌,
}
use nicewatch.Prelude.Text.{Text, text_eq, codes, starts_with, lower}
use nicewatch.Prelude.Scan.{contains_text, split_on}
use nicewatch.Proc.{ProcEntry}

abbrev pub steam_env_prefixes : List Text
steam_env_prefixes =
    codes "STEAM_COMPAT_DATA_PATH=" ∷ codes "SteamAppId=" ∷ codes "SteamGameId=" ∷ []

abbrev pub de_critical : List Text
de_critical =
    codes "kwin_wayland"
    ∷ codes "kwin_x11"
    ∷ codes "kwin_wayland_wrapper"
    ∷ codes "plasmashell"
    ∷ codes "kded6"
    ∷ codes "kded5"
    ∷ codes "kglobalaccel"
    ∷ codes "ksmserver"
    ∷ codes "kscreenlocker"
    ∷ codes "krunner"
    ∷ codes "Xwayland"
    ∷ codes "xdg-desktop-portal"
    ∷ codes "xdg-desktop-portal-kde"
    ∷ codes "org_kde_*"
    ∷ []

abbrev cons_some : ℕ → Option Text → Option Text
cons_some c none = none
cons_some c (some s) = some (c ∷ s)

-- `strip_suffix('*')`
unfoldable pub strip_star : Text → Option Text
strip_star [] = none
strip_star (c ∷ []) = if eqb c b'*' then some [] else none
strip_star (c ∷ d ∷ s) = cons_some c (strip_star (d ∷ s))

unfoldable pub pattern_hits : Text → Text → Bool
unfolding strip_star
pattern_hits name pat = elim (strip_star pat) [
  | some prefix ↦ starts_with name prefix
  | none ↦ name == pat
]

unfoldable pub is_de_critical : Text → Bool
unfolding pattern_hits
is_de_critical name = any (pattern_hits name) de_critical

pub record GameFlags : Type 0 where
  pub steam_env : Bool
  pub dri_fd : Bool
  pub fullscreen : Bool
  pub known : Bool

abbrev pub no_flags : GameFlags
no_flags = record { steam_env = false; dri_fd = false; fullscreen = false; known = false }

unfoldable pub is_game : GameFlags → Bool
is_game f = f.known || f.dri_fd && (f.steam_env || f.fullscreen)

abbrev has_drive : Option Text → Bool
has_drive none = false
has_drive (some exe) = contains_text (codes "/drive_c/") exe

abbrev wine_argv : Option (List ℕ) → Bool
wine_argv none = false
wine_argv (some cmdline) =
    let low = map lower cmdline in
    contains_text (codes "\\windows\\system32\\") low || contains_text (codes "pressure-vessel") low

unfoldable pub is_wine_internal : ProcEntry → Bool
is_wine_internal entry = if has_drive entry.exe then true else wine_argv entry.cmdline

-- The environment is cut at the NUL bytes.
unfoldable pub environ_has_steam : Option (List ℕ) → Bool
environ_has_steam none = false
environ_has_steam (some env) =
    any (λ entry. any (λ prefix. starts_with entry prefix) steam_env_prefixes)
      (split_on (λ b. eqb b 0) env)

-- `is_fullscreen` is the method of the `FullscreenDetector` in use.
unfoldable pub detect_game : (ProcEntry → Bool) → ProcEntry → GameFlags
detect_game is_fullscreen entry =
    if is_de_critical entry.name || is_wine_internal entry then no_flags else record {
      steam_env = environ_has_steam entry.environ;
      dri_fd = entry.has_dri_fd;
      fullscreen = is_fullscreen entry;
      known = false;
    }

-- `NoopFullscreenDetector::is_fullscreen`, the one that the daemon runs.
unfoldable pub noop_is_fullscreen : ProcEntry → Bool
noop_is_fullscreen entry = false

-- `SELF_BINARY_NAMES`
abbrev pub self_binary_names : List Text
self_binary_names = codes "nicewatch" ∷ codes "nicewatch-gui" ∷ []

unfoldable pub is_self_binary : Text → Bool
is_self_binary name = any (λ n. n == name) self_binary_names
