-- ===== src/Applier/Scheduling.antt =====
-- `is_rt_scheduled` of daemon/src/applier.rs counts the words of the line of `/proc/<pid>/stat`.
use nicewatch.Prelude.{
  ℕ, zero, suc, ◌-◌, ◌≤◌, ◌≡◌, refl, ap, ◌∙◌, List, [], ◌∷◌, ◌++◌, some, arith, length, get_elem?,
  All,
}
use mathlib.Core.List.{append-nil}
use nicewatch.Prelude.Text.{Text, is_space}
use nicewatch.Prelude.Scan.{split_whitespace}
use nicewatch.Prelude.Scan.Words.{IsWord, unwords, split_whitespace-line}
use nicewatch.Applier.{is_rt_scheduled, is_rt_policy}

get_elem?-append {ℓ} :
    {A : Type ℓ} (xs ys : List A) (k : ℕ)
    → length xs ≤ k
    → get_elem? (xs ++ ys) k ≡ get_elem? ys (k - length xs)
get_elem?-append [] ys k h = ap (get_elem? ys) (omega arith)
get_elem?-append (x ∷ xs) ys zero h = absurd (omega arith)
get_elem?-append (x ∷ xs) ys (suc k) h =
    get_elem?-append xs ys k (omega arith) ∙ ap (get_elem? ys) (omega arith)

-- The line of a process: its pid, the words of its name in brackets, and the fields behind it.
abbrev pub stat_text : Text → List Text → List Text → Text
stat_text pid name fields = pid ++ (unwords (name ++ fields) ++ (10 ∷ []))

split_newline : split_whitespace (10 ∷ []) ≡ []
unfolding split_whitespace is_space
split_newline = refl

words_of_line :
    (pid : Text) (name fields : List Text)
    → IsWord pid
    → All IsWord (name ++ fields)
    → split_whitespace (stat_text pid name fields) ≡ pid ∷ (name ++ fields)
words_of_line pid name fields p w =
    split_whitespace-line pid (name ++ fields) (10 ∷ []) p w (unfold is_space in refl)
    ∙ ap (λ r. pid ∷ ((name ++ fields) ++ r)) split_newline
    ∙ ap (◌∷◌ pid) (append-nil (name ++ fields))

-- Where the name in its brackets is `n` words, the daemon takes for the scheduling policy the
-- field of index `39 - n` behind the name. The policy is the field of index 38, so it is read if
-- the name is one word, and a field before it if the name holds white space.
pub is_rt_scheduled_words :
    (pid : Text) (name fields : List Text)
    → IsWord pid
    → All IsWord (name ++ fields)
    → length name ≤ 39
    → is_rt_scheduled (some (stat_text pid name fields))
      ≡ is_rt_policy (get_elem? fields (39 - length name))
unfolding is_rt_scheduled
is_rt_scheduled_words pid name fields p w h =
    ap (λ ws. is_rt_policy (get_elem? ws 40)) (words_of_line pid name fields p w)
    ∙ ap is_rt_policy (get_elem?-append name fields 39 h)
