-- ===== src/Prelude/Scan/Numbers.antt =====
-- `str::parse` at the integer types: an optional sign, digits, and an error where the value does
-- not fit; and the decimal digits that `to_string` writes.
use Prim.Native.Nat.{ℕ, zero, suc, ◌+◌, ◌-◌, ◌*◌, ◌/◌, ◌%◌, ◌^◌, ◌<◌}
use mathlib.Core.Path.{◌≡◌, refl, sym, ap, ◌∙◌}
use mathlib.Core.Bool.{true}
use mathlib.Core.List.{[], ◌∷◌}
use mathlib.Core.Option.{Option, none, some}
use native.Mathlib.Omega.{arith}
use nicewatch.Prelude.Tests.{eqb, leb, ltb, if◌then◌else◌}
use nicewatch.Prelude.Lists.{all}
use nicewatch.Prelude.Int.{ℤ, pos, negsuc, ◌≤ℤ◌}
use nicewatch.Prelude.Text.{Text, is_digit}

unfoldable pub digits_value : ℕ → Text → Option ℕ
digits_value n [] = some n
digits_value n (c ∷ s) =
    let rest = digits_value (n * 10 + (c - b'0')) s in if is_digit c then rest else none

abbrev at_most : ℕ → Option ℕ → Option ℕ
at_most top none = none
at_most top (some n) = if leb n top then some n else none

-- A sign alone is an error, as the empty text is.
abbrev digits_only : Text → Option ℕ
digits_only [] = none
digits_only (c ∷ s) = digits_value 0 (c ∷ s)

abbrev unsigned : Text → Option ℕ
unsigned [] = none
unsigned (c ∷ s) = if eqb c b'+' then digits_only s else digits_only (c ∷ s)

unfoldable pub parse_u32 : Text → Option ℕ
unfolding digits_value
parse_u32 s = at_most (2 ^ 32 - 1) (unsigned s)

unfoldable pub parse_u64 : Text → Option ℕ
unfolding digits_value
parse_u64 s = at_most (2 ^ 64 - 1) (unsigned s)

abbrev negate : Option ℕ → Option ℤ
negate none = none
negate (some zero) = some (pos 0)
negate (some (suc n)) = some (negsuc n)

abbrev non_negative : Option ℕ → Option ℤ
non_negative none = none
non_negative (some n) = some (pos n)

unfoldable pub parse_i32 : Text → Option ℤ
unfolding digits_value
parse_i32 [] = none
parse_i32 (c ∷ s) =
    if eqb c b'-'
    then negate (at_most (2 ^ 31) (digits_only s))
    else non_negative (at_most (2 ^ 31 - 1) (unsigned (c ∷ s)))

unfoldable pub parse_i64 : Text → Option ℤ
unfolding digits_value
parse_i64 [] = none
parse_i64 (c ∷ s) =
    if eqb c b'-'
    then negate (at_most (2 ^ 63) (digits_only s))
    else non_negative (at_most (2 ^ 63 - 1) (unsigned (c ∷ s)))

-- `to_string`: fuel bounds the number of digits, and a number is below its own power of ten.
digits_from : ℕ → ℕ → Text → Text
digits_from zero n out = out
digits_from (suc fuel) n out =
    let more = digits_from fuel (n / 10) ((b'0' + n % 10) ∷ out) in
    if ltb n 10 then (b'0' + n) ∷ out else more

unfoldable pub show : ℕ → Text
unfolding digits_from
show n = digits_from (suc n) n []

digits_value-digits_from :
    (fuel n : ℕ) (out : Text)
    → n < fuel
    → digits_value 0 (digits_from fuel n out) ≡ digits_value n out
unfolding digits_from digits_value
digits_value-digits_from zero n out h = elim h [ ]
digits_value-digits_from (suc fuel) n out h =
    ground (arith, digits_value-digits_from fuel (n / 10) ((b'0' + n % 10) ∷ out))

-- What `to_string` writes is digits, at least one.
abbrev pub IsNumeral : Text → Type 0
IsNumeral [] = ⊥
IsNumeral (c ∷ s) = all (λ c. is_digit c) (c ∷ s) ≡ true

digits_from-IsNumeral :
    (fuel n : ℕ) (out : Text)
    → n < fuel
    → all (λ c. is_digit c) out ≡ true
    → IsNumeral (digits_from fuel n out)
unfolding digits_from all
digits_from-IsNumeral zero n out h d = elim h [ ]
digits_from-IsNumeral (suc fuel) n out h d =
    ground (arith, digits_from-IsNumeral fuel (n / 10) ((b'0' + n % 10) ∷ out))

pub show-IsNumeral : (n : ℕ) → IsNumeral (show n)
unfolding show all
show-IsNumeral n = digits_from-IsNumeral (suc n) n [] (omega arith) refl

digits_value-show : (n : ℕ) → digits_value 0 (show n) ≡ some n
unfolding show digits_value
digits_value-show n = digits_value-digits_from (suc n) n [] (omega arith)

unsigned-numeral :
    (s : Text) (n : ℕ) → IsNumeral s → digits_value 0 s ≡ some n → unsigned s ≡ some n
unfolding all
unsigned-numeral [] n h e = absurd h
unsigned-numeral (c ∷ s) n h e = ground arith

pub unsigned-show : (n : ℕ) → unsigned (show n) ≡ some n
unsigned-show n = unsigned-numeral (show n) n (show-IsNumeral n) (digits_value-show n)

-- Reading back what was written.
pub parse_u32-show : (n : ℕ) → n < 2 ^ 32 → parse_u32 (show n) ≡ some n
unfolding parse_u32
parse_u32-show n h = ground (arith, unsigned-show n)

pub parse_u64-show : (n : ℕ) → n < 2 ^ 64 → parse_u64 (show n) ≡ some n
unfolding parse_u64
parse_u64-show n h = ground (arith, unsigned-show n)

-- `i32::to_string`
unfoldable pub show_i32 : ℤ → Text
show_i32 (pos n) = show n
show_i32 (negsuc n) = b'-' ∷ show (suc n)

parse_i32-numeral :
    (s : Text) (n : ℕ) → IsNumeral s → n < 2 ^ 31 → unsigned s ≡ some n → parse_i32 s ≡ some (pos n)
unfolding parse_i32 all
parse_i32-numeral [] n h b e = absurd h
parse_i32-numeral (c ∷ s) n h b e = ground arith

digits_only-numeral : (s : Text) → IsNumeral s → digits_only s ≡ unsigned s
unfolding all
digits_only-numeral [] h = absurd h
digits_only-numeral (c ∷ s) h = ground arith

pub parse_i32-show_i32 :
    (z : ℤ) → negsuc (2 ^ 31 - 1) ≤ℤ z → z ≤ℤ pos (2 ^ 31 - 1) → parse_i32 (show_i32 z) ≡ some z
unfolding show_i32
parse_i32-show_i32 (pos n) lo hi =
    parse_i32-numeral (show n) n (show-IsNumeral n) (omega arith) (unsigned-show n)
parse_i32-show_i32 (negsuc n) lo hi =
    unfold parse_i32 in
    ground
      (arith, digits_only-numeral (show (suc n)) (show-IsNumeral (suc n)), unsigned-show (suc n))

pub show_injective : (n m : ℕ) → show n ≡ show m → n ≡ m
show_injective n m e = some_injective (sym (unsigned-show n) ∙ (ap unsigned e ∙ unsigned-show m))
  where
    some_injective : {a b : ℕ} → some a ≡ some b → a ≡ b
    some_injective h = cc
