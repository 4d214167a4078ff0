-- ===== src/Gui/Apps/Programs.antt =====
-- Which program a command line runs (`exec_program`, gui/src-tauri/src/apps.rs).
use mathlib.Core.List.{append-nil}
use nicewatch.Prelude.{
  ◌≡◌, refl, sym, ap, ◌∙◌, Bool, true, false, not, List, [], ◌∷◌, ◌++◌, Option, some, arith, find,
  all, All, if◌then◌else◌,
}
use nicewatch.Prelude.Text.{Text, codes, starts_with, is_space}
use nicewatch.Prelude.Scan.{split_whitespace}
use nicewatch.Prelude.Scan.Words.{IsWord, unwords, split_whitespace-line}
use nicewatch.Prelude.Paths.{file_name, path_of}
use nicewatch.Gui.Apps.Entry.{is_assignment, exec_program, program_of}

find_behind :
    (assigns : List Text) (prog : Text) (args : List Text)
    → all is_assignment assigns ≡ true
    → is_assignment prog ≡ false
    → find (λ t. not (is_assignment t)) (assigns ++ prog ∷ args) ≡ some prog
unfolding find all
find_behind [] prog args a n = ground (arith, n)
find_behind (t ∷ assigns) prog args a n = ground (arith, a, find_behind assigns prog args)

env-IsWord : IsWord (codes "env")
unfolding all is_space
env-IsWord = refl

split-All :
    (w : Text) (ws : List Text)
    → IsWord w
    → All IsWord ws
    → split_whitespace (w ++ unwords ws) ≡ w ∷ ws
unfolding split_whitespace
split-All w ws i is =
    ap (λ s. split_whitespace (w ++ s)) (sym (append-nil (unwords ws)))
    ∙ (split_whitespace-line w ws [] i is tt ∙ ap (◌∷◌ w) (append-nil ws))

-- Behind `env` and its assignments, the program is the first word that assigns nothing, by its name
-- if it is a path, whatever arguments follow it.
pub exec_program-env :
    (assigns : List Text) (prog : Text) (args : List Text)
    → All IsWord (assigns ++ prog ∷ args)
    → all is_assignment assigns ≡ true
    → is_assignment prog ≡ false
    → exec_program (codes "env" ++ unwords (assigns ++ prog ∷ args))
      ≡ (if starts_with prog (codes "/") then file_name (path_of prog) else some prog)
unfolding exec_program program_of nicewatch.Prelude.Text.text_beq
exec_program-env assigns prog args words a n =
    rw (split-All (codes "env") (assigns ++ prog ∷ args) env-IsWord words)
      (rw (find_behind assigns prog args a n) refl)
