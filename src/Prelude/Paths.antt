-- ===== src/Prelude/Paths.antt =====
-- `std::path`: a path is its components, the last one first; the root is a component of its own.
use mathlib.Core.Path.{◌≡◌, refl}
use mathlib.Core.Logic.{◌↔◌}
use mathlib.Core.Bool.{Bool, true, false, ◌&&◌, ◌||◌, not}
use mathlib.Core.List.{List, [], ◌∷◌, ◌++◌, reverse}
use mathlib.Core.Option.{Option, none, some}
use native.Mathlib.Omega.{arith}
use nicewatch.Prelude.Tests.{Eq, ◌==◌, eqb, if◌then◌else◌}
use nicewatch.Prelude.Lists.{retain}
use nicewatch.Prelude.Text.{Text, text_eq, text_beq, text_beq_iff, codes, is_empty, starts_with}
use nicewatch.Prelude.Scan.{split_on}

abbrev pub FilePath : Type 0
FilePath = List Text

unfoldable pub path_beq : FilePath → FilePath → Bool
path_beq [] [] = true
path_beq (a ∷ p) (b ∷ q) = text_beq a b && path_beq p q
path_beq _ _ = false

pub path_beq_iff : (p q : FilePath) → (path_beq p q ≡ true) ↔ (p ≡ q)
unfolding path_beq
path_beq_iff [] [] = (λ _. refl, λ _. refl)
path_beq_iff [] (b ∷ q) = (λ h. cc, λ h. cc)
path_beq_iff (a ∷ p) [] = (λ h. cc, λ h. cc)
path_beq_iff (a ∷ p) (b ∷ q) = ground (arith, text_beq_iff a b, path_beq_iff p q)

instance abbrev pub path_eq : Eq FilePath
path_eq = record { partial_eq = path_beq; decides = path_beq_iff }

abbrev pub root_dir : FilePath
root_dir = codes "/" ∷ []

-- `base.join(name)` for a name with no separator.
abbrev pub join : FilePath → Text → FilePath
join base name = name ∷ base

-- `parent`, and `pop`, which fails where there is none.
unfoldable pub parent : FilePath → Option FilePath
parent [] = none
parent (c ∷ p) = if c == codes "/" then none else some p

unfoldable pub file_name : FilePath → Option Text
file_name [] = none
file_name (c ∷ p) = if c == codes "/" || c == codes ".." then none else some c

-- `path.starts_with(base)`, by whole components.
unfoldable pub path_starts_with : FilePath → FilePath → Bool
path_starts_with [] base = path_beq [] base
path_starts_with (c ∷ p) base = path_beq (c ∷ p) base || path_starts_with p base

abbrev is_plain : Text → Bool
is_plain piece = not (is_empty piece || piece == codes ".")

-- The named components of a text, in order.
unfoldable pub pieces : Text → List Text
pieces s = retain is_plain (split_on (λ c. eqb c b'/') s)

-- `PathBuf::from`, but that a leading `.` of a relative path is dropped.
unfoldable pub path_of : Text → FilePath
unfolding pieces
path_of s = if starts_with s (codes "/") then reverse (pieces s) ++ root_dir else reverse (pieces s)

-- `p.push(rel)` for a relative text.
unfoldable pub push : FilePath → Text → FilePath
unfolding pieces
push p rel = reverse (pieces rel) ++ p

-- `display`: the components behind slashes.
unfoldable pub display : FilePath → Text
display [] = []
display (c ∷ []) = c
display (c ∷ d ∷ p) =
    let front = display (d ∷ p) in if d == codes "/" then front ++ c else front ++ (codes "/" ++ c)
