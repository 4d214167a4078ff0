-- ===== src/Prelude/Text.antt =====
-- Text as the list of its characters' code points; the raw bytes of a file are such a list too.
use Prim.Native.Nat.{ℕ, ◌+◌}
use Prim.Native.Char.{code}
use Prim.Native.String.{String}
use mathlib.Core.Path.{◌≡◌, refl}
use mathlib.Core.Logic.{◌↔◌}
use mathlib.Core.Bool.{Bool, true, false, ◌&&◌, ◌||◌}
use mathlib.Core.List.{List, [], ◌∷◌, ◌++◌}
use mathlib.Core.Option.{Option, none, some}
use native.Mathlib.Omega.{arith}
use nicewatch.Prelude.Tests.{Eq, ltb, leb, eqb, if◌then◌else◌}

abbrev pub Text : Type 0
Text = List ℕ

abbrev pub codes : String → Text
codes String.[] = []
codes (String.◌∷◌ c s) = code c ∷ codes s

unfoldable pub text_beq : Text → Text → Bool
text_beq [] [] = true
text_beq (a ∷ s) (b ∷ t) = eqb a b && text_beq s t
text_beq _ _ = false

pub text_beq_iff : (s t : Text) → (text_beq s t ≡ true) ↔ (s ≡ t)
unfolding text_beq
text_beq_iff [] [] = (λ _. refl, λ _. refl)
text_beq_iff [] (b ∷ t) = (λ h. cc, λ h. cc)
text_beq_iff (a ∷ s) [] = (λ h. cc, λ h. cc)
text_beq_iff (a ∷ s) (b ∷ t) = ground (arith, text_beq_iff s t)

instance abbrev pub text_eq : Eq Text
text_eq = record { partial_eq = text_beq; decides = text_beq_iff }

-- The order of `String`: by code points, which agrees with the order of the bytes.
unfoldable pub text_lt : Text → Text → Bool
text_lt _ [] = false
text_lt [] (b ∷ t) = true
text_lt (a ∷ s) (b ∷ t) = ltb a b || (eqb a b && text_lt s t)

unfoldable pub is_empty : Text → Bool
is_empty [] = true
is_empty (c ∷ s) = false

unfoldable pub starts_with : Text → Text → Bool
starts_with s [] = true
starts_with [] (p ∷ pre) = false
starts_with (c ∷ s) (p ∷ pre) = eqb c p && starts_with s pre

-- `strip_prefix`
unfoldable pub strip_prefix : Text → Text → Option Text
strip_prefix s [] = some s
strip_prefix [] (p ∷ pre) = none
strip_prefix (c ∷ s) (p ∷ pre) = let rest = strip_prefix s pre in if eqb c p then rest else none

abbrev pub is_digit : ℕ → Bool
is_digit c = leb b'0' c && leb c b'9'

abbrev pub is_upper : ℕ → Bool
is_upper c = leb b'A' c && leb c b'Z'

abbrev pub is_lower : ℕ → Bool
is_lower c = leb b'a' c && leb c b'z'

-- `u8::to_ascii_lowercase`
abbrev pub lower : ℕ → ℕ
lower c = if is_upper c then c + 32 else c

-- `char::is_whitespace`: the code points of the property White_Space.
unfoldable pub is_space : ℕ → Bool
is_space c =
    eqb c 32
    || (leb 9 c && leb c 13)
    || (eqb c 0x85 || eqb c 0xa0 || eqb c 0x1680 || (leb 0x2000 c && leb c 0x200a))
    || (eqb c 0x2028 || eqb c 0x2029 || eqb c 0x202f || eqb c 0x205f || eqb c 0x3000)

pub starts_with-append : (pre s : Text) → starts_with (pre ++ s) pre ≡ true
unfolding starts_with
starts_with-append [] [] = refl
starts_with-append [] (c ∷ s) = refl
starts_with-append (p ∷ pre) s = ground (arith, starts_with-append pre s)
