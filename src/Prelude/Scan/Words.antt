-- ===== src/Prelude/Scan/Words.antt =====
-- How the pieces that `split` and `split_whitespace` give are found again, and the places that
-- `find` and `rfind` give.
use nicewatch.Prelude.Scan.{find_char, rfind_char, take, drop, split_whitespace}
use Prim.Native.Nat.{ℕ, suc}
use mathlib.Core.Path.{◌≡◌, refl, ap, ◌∙◌}
use mathlib.Core.Bool.{true, not}
use mathlib.Core.List.{List, [], ◌∷◌, ◌++◌, append_assoc}
use mathlib.Core.Option.{none, some}
use native.Mathlib.Omega.{arith}
use nicewatch.Prelude.Tests.{eqb}
use nicewatch.Prelude.Lists.{all, length, All}
use nicewatch.Prelude.Text.{Text, is_space}

abbrev pub Lacks : ℕ → Text → Type 0
Lacks c s = all (λ d. not (eqb d c)) s ≡ true

pub find_char-append :
    (c : ℕ) (pre s : Text) → Lacks c pre → find_char c (pre ++ c ∷ s) ≡ some (length pre)
unfolding find_char all
find_char-append c [] s h = ground arith
find_char-append c (d ∷ pre) s h = ground (arith, find_char-append c pre s)

rfind_char-none : (c : ℕ) (s : Text) → Lacks c s → rfind_char c s ≡ none
unfolding rfind_char all
rfind_char-none c [] h = refl
rfind_char-none c (d ∷ s) h = ground (arith, rfind_char-none c s)

pub rfind_char-append :
    (c : ℕ) (pre s : Text) → Lacks c s → rfind_char c (pre ++ c ∷ s) ≡ some (length pre)
unfolding rfind_char
rfind_char-append c [] s h = ground (arith, rfind_char-none c s h)
rfind_char-append c (d ∷ pre) s h = ground (arith, rfind_char-append c pre s h)

pub take-append_length : (s t : Text) → take (length s) (s ++ t) ≡ s
take-append_length [] t = refl
take-append_length (c ∷ s) t = ap (◌∷◌ c) (take-append_length s t)

pub drop-append_length : (s t : Text) → drop (length s) (s ++ t) ≡ t
drop-append_length [] t = refl
drop-append_length (c ∷ s) t = drop-append_length s t

-- A word has a character, and no white space.
abbrev pub IsWord : Text → Type 0
IsWord [] = ⊥
IsWord (c ∷ s) = all (λ d. not (is_space d)) (c ∷ s) ≡ true

-- The words, each behind a space.
unfoldable pub unwords : List Text → Text
unwords [] = []
unwords (w ∷ ws) = (32 ∷ w) ++ unwords ws

abbrev StartsClear : Text → Type 0
StartsClear [] = Unit
StartsClear (c ∷ s) = is_space c ≡ true

split_word :
    (c : ℕ) (w rest : Text)
    → all (λ d. not (is_space d)) (c ∷ w) ≡ true
    → StartsClear rest
    → split_whitespace ((c ∷ w) ++ rest) ≡ (c ∷ w) ∷ split_whitespace rest
unfolding split_whitespace all
split_word c [] [] h r = ground arith
split_word c [] (d ∷ rest) h r = ground arith
split_word c (d ∷ w) rest h r = ground (arith, split_word d w rest)

skip_space : (s : Text) → split_whitespace (32 ∷ s) ≡ split_whitespace s
unfolding split_whitespace is_space
skip_space s = refl

unwords_clear : (ws : List Text) (tail : Text) → StartsClear tail → StartsClear (unwords ws ++ tail)
unfolding unwords is_space
unwords_clear [] tail r = r
unwords_clear (w ∷ ws) tail r = refl

pub split_whitespace-unwords :
    (ws : List Text) (tail : Text)
    → All IsWord ws
    → StartsClear tail
    → split_whitespace (unwords ws ++ tail) ≡ ws ++ split_whitespace tail
unfolding unwords
split_whitespace-unwords [] tail h r = refl
split_whitespace-unwords ([] ∷ ws) tail h r = absurd h.0
split_whitespace-unwords ((c ∷ w) ∷ ws) tail h r = rw (append_assoc (c ∷ w) (unwords ws) tail) (
    skip_space _
    ∙ split_word c w _ h.0 (unwords_clear ws tail r)
    ∙ ap (◌∷◌ (c ∷ w)) (split_whitespace-unwords ws tail h.1 r))

-- A line of words with a space between each two.
pub split_whitespace-line :
    (w : Text) (ws : List Text) (tail : Text)
    → IsWord w
    → All IsWord ws
    → StartsClear tail
    → split_whitespace (w ++ (unwords ws ++ tail)) ≡ w ∷ (ws ++ split_whitespace tail)
split_whitespace-line [] ws tail h k r = absurd h
split_whitespace-line (c ∷ w) ws tail h k r =
    split_word c w _ h (unwords_clear ws tail r)
    ∙ ap (◌∷◌ (c ∷ w)) (split_whitespace-unwords ws tail k r)

pub drop-suc-length : (s : Text) (c : ℕ) (t : Text) → drop (suc (length s)) (s ++ c ∷ t) ≡ t
drop-suc-length [] c t = refl
drop-suc-length (d ∷ s) c t = drop-suc-length s c t
