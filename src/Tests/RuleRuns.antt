-- ===== src/Tests/RuleRuns.antt =====
-- Runs of the rules, the heuristic, the scanner and the values that are handed to the kernel.
use nicewatch.Prelude.{
  ℕ, ◌-◌, ◌^◌, ◌≡◌, ◌≤◌, ◌<◌, ◌≢◌, ◌↔◌, ◌⊎◌, inl, inr, refl, Bool, true, false, ◌&&◌, not, List, [],
  ◌∷◌, ◌++◌, Option, none, some, arith, All, any, all, length, get_elem?, eqb,
}
use nicewatch.Prelude.Int.{negsuc}
use nicewatch.Prelude.Text.{Text, codes, is_empty, text_eq}
use nicewatch.Prelude.Maps.{values}
use nicewatch.Config.{Rule, validate}
use nicewatch.Config.Warnings.{IsInRange, validate_quiet_iff}
use nicewatch.Rules.{resolve, from_config, untouched}
use nicewatch.Rules.Lookup.{last_match}
use nicewatch.Rules.Precedence.{HasWaited, resolve_untouched_iff}
use nicewatch.Detect.{
  is_game, detect_game, noop_is_fullscreen, is_de_critical, is_wine_internal, no_flags,
}
use nicewatch.Detect.Environ.{environ_block, NulFree, is_steam_entry}
use nicewatch.Proc.{ProcEntry}
use nicewatch.Detect.Exclusions.{detect_game_iff}
use nicewatch.Proc.{StatLine, parse_stat}
use nicewatch.Proc.Stat.{stat_line, IsKernelLine, parse_stat_line}
use nicewatch.Tests.Data.{a_config, an_entry}

resolve_untouched_iff_example :
    (resolve (from_config a_config) (codes "b") no_flags 3 ≡ untouched) ↔ (
      ((last_match (codes "b") (values a_config.rules) ≡ none) × (is_game no_flags ≡ false))
      ⊎ ((r : Rule) × (last_match (codes "b") (values a_config.rules) ≡ some r)
          × (¬ HasWaited r.delay 3)))
resolve_untouched_iff_example = resolve_untouched_iff a_config (codes "b") no_flags 3

validate_quiet_iff_example : (validate a_config ≡ []) ↔ All IsInRange (values a_config.rules)
validate_quiet_iff_example = validate_quiet_iff a_config

abbrev variables : List Text
variables = codes "A=SteamAppId=1" ∷ codes "SteamGameId=7" ∷ []

abbrev a_game : ProcEntry
a_game = record an_entry { has_dri_fd = true; environ = some (environ_block variables) }

variables-NulFree : All NulFree variables
unfolding all
variables-NulFree = (refl, (refl, tt))

detect_game_iff_example : (is_game (detect_game noop_is_fullscreen a_game) ≡ true) ↔ (
    (is_de_critical a_game.name ≡ false)
    × (is_wine_internal a_game ≡ false)
    × (a_game.has_dri_fd ≡ true)
    × (any is_steam_entry variables ≡ true))
detect_game_iff_example = detect_game_iff a_game variables refl variables-NulFree

abbrev catalog : List Text
catalog = codes " Portal2 " ∷ codes "org.x.Game" ∷ []

-- A name with brackets and a space.
abbrev odd_line : StatLine
odd_line = record {
  comm = codes "a) (b";
  state = b'R';
  ppid = 1;
  utime = 20;
  stime = 30;
  nice = negsuc 4;
  starttime = 400;
}

odd_is_line : IsKernelLine odd_line
unfolding nicewatch.Prelude.Scan.trim nicewatch.Prelude.Text.is_space
    nicewatch.Prelude.Scan.trim_start
odd_is_line = record {
  trimmed = refl;
  visible = refl;
  no_bracket = ground arith;
  ppid_fits = omega arith;
  utime_fits = omega arith;
  stime_fits = omega arith;
  nice_low = omega arith;
  nice_high = omega arith;
  starttime_fits = omega arith;
}

parse_stat_line_example :
    parse_stat (stat_line 77 odd_line (λ i. negsuc i) (negsuc 3 ∷ [])) ≡ some odd_line
parse_stat_line_example = parse_stat_line 77 odd_line (λ i. negsuc i) (negsuc 3 ∷ []) odd_is_line
