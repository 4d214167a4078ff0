-- ===== src/Detect/Exclusions.antt =====
-- What the heuristic of daemon/src/game_detect.rs can flag.
use mathlib.Core.Path.{subst}
use nicewatch.Prelude.{◌≡◌, ◌↔◌, ◌∙◌, ap, Bool, true, false, List, some, any, All, arith}
use nicewatch.Prelude.Text.{Text}
use nicewatch.Detect.Environ.{environ_block, NulFree, is_steam_entry, environ_has_steam-block}
use nicewatch.Proc.{ProcEntry}
use nicewatch.Detect.{
  detect_game, is_game, is_de_critical, is_wine_internal, environ_has_steam, noop_is_fullscreen,
}

flagged_iff :
    (e : ProcEntry)
    → (is_game (detect_game noop_is_fullscreen e) ≡ true) ↔ (
        (is_de_critical e.name ≡ false)
        × (is_wine_internal e ≡ false)
        × (e.has_dri_fd ≡ true)
        × (environ_has_steam e.environ ≡ true))
unfolding detect_game is_game noop_is_fullscreen
flagged_iff e = ground arith

-- Under the daemon's own detector the heuristic flags a process with a given environment exactly if
-- it is no compositor or desktop process and no Wine helper, holds a file under /dev/dri, and some
-- entry of the environment begins with the assignment of a Steam variable: the variable alone is not
-- enough.
pub detect_game_iff :
    (e : ProcEntry) (es : List Text)
    → e.environ ≡ some (environ_block es)
    → All NulFree es
    → (is_game (detect_game noop_is_fullscreen e) ≡ true) ↔ (
        (is_de_critical e.name ≡ false)
        × (is_wine_internal e ≡ false)
        × (e.has_dri_fd ≡ true)
        × (any is_steam_entry es ≡ true))
detect_game_iff e es block h =
    subst
      (λ steam. (is_game (detect_game noop_is_fullscreen e) ≡ true) ↔ (
        (is_de_critical e.name ≡ false)
        × (is_wine_internal e ≡ false)
        × (e.has_dri_fd ≡ true)
        × (steam ≡ true)))
      (ap environ_has_steam block ∙ environ_has_steam-block es h) (flagged_iff e)

-- Whatever a detector of fullscreen windows says, a flagged process renders: it holds a file under
-- /dev/dri, and is no compositor or desktop process and no Wine helper.
pub flagged_renders :
    (is_fullscreen : ProcEntry → Bool) (e : ProcEntry)
    → is_game (detect_game is_fullscreen e) ≡ true
    → (e.has_dri_fd ≡ true) × (is_de_critical e.name ≡ false) × (is_wine_internal e ≡ false)
unfolding detect_game is_game
flagged_renders is_fullscreen e h = ground arith
