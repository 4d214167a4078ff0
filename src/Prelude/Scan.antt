-- ===== src/Prelude/Scan.antt =====
-- The functions of `str` and slices by which the program takes text apart.
pub mod Words
pub mod Numbers
use nicewatch.Prelude.Tests.{eqb, leb, ltb, if◌then◌else◌}
use Prim.Native.Nat.{ℕ, zero, suc, ◌+◌, ◌-◌, ◌*◌, ◌≤◌, ◌<◌}
use mathlib.Core.Path.{◌≡◌, refl}
use mathlib.Core.Bool.{Bool, true, false, ◌&&◌, ◌||◌, not}
use mathlib.Core.List.{List, [], ◌∷◌, ◌++◌, map, reverse}
use mathlib.Core.Option.{Option, none, some}
use native.Mathlib.Omega.{arith}
use nicewatch.Prelude.Lists.{length}
use nicewatch.Prelude.Text.{Text, codes, starts_with, is_space, is_digit}

abbrev pub take : ℕ → Text → Text
take zero s = []
take (suc n) [] = []
take (suc n) (c ∷ s) = c ∷ take n s

abbrev pub drop : ℕ → Text → Text
drop zero s = s
drop (suc n) [] = []
drop (suc n) (c ∷ s) = drop n s

-- `s[a..b]`
abbrev pub slice : ℕ → ℕ → Text → Text
slice a b s = take (b - a) (drop a s)

abbrev pub bump : Option ℕ → Option ℕ
bump none = none
bump (some i) = some (suc i)

-- `s.find(c)`, the first place, and `s.rfind(c)`, the last.
unfoldable pub find_char : ℕ → Text → Option ℕ
find_char c [] = none
find_char c (d ∷ s) = let later = bump (find_char c s) in if eqb d c then some 0 else later

abbrev or_here : Bool → Option ℕ → Option ℕ
or_here here (some i) = some (suc i)
or_here true none = some 0
or_here false none = none

unfoldable pub rfind_char : ℕ → Text → Option ℕ
rfind_char c [] = none
rfind_char c (d ∷ s) = or_here (eqb d c) (rfind_char c s)

-- `s.find(pattern)`
unfoldable pub find_text : Text → Text → Option ℕ
find_text pat [] = if starts_with [] pat then some 0 else none
find_text pat (c ∷ s) =
    let later = bump (find_text pat s) in if starts_with (c ∷ s) pat then some 0 else later

-- `s.contains(pattern)`, and `windows(n).any(|w| w == pattern)`.
unfoldable pub contains_text : Text → Text → Bool
contains_text pat [] = starts_with [] pat
contains_text pat (c ∷ s) = starts_with (c ∷ s) pat || contains_text pat s

unfoldable pub ends_with : Text → Text → Bool
ends_with s suffix = starts_with (reverse s) (reverse suffix)

unfoldable pub trim_start : Text → Text
trim_start [] = []
trim_start (c ∷ s) = let rest = trim_start s in if is_space c then rest else c ∷ s

unfoldable pub trim_end : Text → Text
trim_end s = reverse (trim_start (reverse s))

-- `str::trim`
unfoldable pub trim : Text → Text
unfolding trim_end
trim s = trim_end (trim_start s)

-- `trim_start_matches('/')` and its like.
unfoldable pub trim_start_char : ℕ → Text → Text
trim_start_char p [] = []
trim_start_char p (c ∷ s) = let rest = trim_start_char p s in if eqb c p then rest else c ∷ s

abbrev cons_first : ℕ → List Text → List Text
cons_first c [] = (c ∷ []) ∷ []
cons_first c (w ∷ ws) = (c ∷ w) ∷ ws

-- `split(test)`: one piece more than there are separators.
unfoldable pub split_on : (ℕ → Bool) → Text → List Text
split_on sep [] = [] ∷ []
split_on sep (c ∷ s) = let rest = split_on sep s in if sep c then [] ∷ rest else cons_first c rest

abbrev starts_space : Text → Bool
starts_space [] = true
starts_space (c ∷ s) = is_space c

unfoldable pub split_whitespace : Text → List Text
split_whitespace [] = []
split_whitespace (c ∷ s) =
    let rest = split_whitespace s in
    if is_space c then rest else if starts_space s then (c ∷ []) ∷ rest else cons_first c rest

abbrev drop_return : Text → Text
drop_return [] = []
drop_return (c ∷ []) = if eqb c 13 then [] else c ∷ []
drop_return (c ∷ d ∷ s) = c ∷ drop_return (d ∷ s)

abbrev map_lines : List Text → List Text
map_lines [] = []
map_lines ([] ∷ []) = []
map_lines (l ∷ []) = l ∷ []
map_lines (l ∷ m ∷ ls) = drop_return l ∷ map_lines (m ∷ ls)

-- `str::lines`: cut at each line feed, with a carriage return before it dropped.
unfoldable pub lines : Text → List Text
unfolding split_on
lines s = map_lines (split_on (λ c. eqb c 10) s)
