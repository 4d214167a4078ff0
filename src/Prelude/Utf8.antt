-- ===== src/Prelude/Utf8.antt =====
-- `String::from_utf8_lossy`: each maximal ill-formed piece becomes one U+FFFD.
use Prim.Native.Nat.{ℕ, ◌+◌, ◌*◌, ◌%◌}
use mathlib.Core.Bool.{Bool, ◌&&◌, ◌||◌, not}
use mathlib.Core.List.{List, [], ◌∷◌}
use nicewatch.Prelude.Tests.{ltb, leb, eqb, if◌then◌else◌}
use nicewatch.Prelude.Text.{Text}

abbrev replacement : ℕ
replacement = 0xfffd

abbrev between : ℕ → ℕ → ℕ → Bool
between lo hi b = leb lo b && leb b hi

-- The number of bytes that a lead byte announces; 0 for a byte that leads nothing.
width : ℕ → ℕ
width b =
    if between 0xc2 0xdf b
    then 2
    else if between 0xe0 0xef b
    then 3
    else if between 0xf0 0xf4 b
    then 4
    else 0

-- The second byte that may follow a lead byte.
second : ℕ → ℕ → Bool
second lead b =
    if eqb lead 0xe0
    then between 0xa0 0xbf b
    else if eqb lead 0xed
    then between 0x80 0x9f b
    else if eqb lead 0xf0
    then between 0x90 0xbf b
    else if eqb lead 0xf4
    then between 0x80 0x8f b
    else between 0x80 0xbf b

abbrev continues : ℕ → Bool
continues b = between 0x80 0xbf b

abbrev low6 : ℕ → ℕ
low6 b = b % 64

unfoldable pub from_utf8_lossy : List ℕ → Text
unfolding width second
from_utf8_lossy [] = []
from_utf8_lossy (a ∷ []) = (if ltb a 0x80 then a else replacement) ∷ []
from_utf8_lossy (a ∷ b ∷ []) =
    let from_b = from_utf8_lossy (b ∷ []) in
    if ltb a 0x80
    then a ∷ from_b
    else if eqb (width a) 0 || not (second a b)
    then replacement ∷ from_b
    else if eqb (width a) 2
    then (a % 32 * 64 + low6 b) ∷ []
    else replacement ∷ []
from_utf8_lossy (a ∷ b ∷ c ∷ []) =
    let from_b = from_utf8_lossy (b ∷ c ∷ []) in
    let from_c = from_utf8_lossy (c ∷ []) in
    if ltb a 0x80
    then a ∷ from_b
    else if eqb (width a) 0 || not (second a b)
    then replacement ∷ from_b
    else if eqb (width a) 2
    then (a % 32 * 64 + low6 b) ∷ from_c
    else if not (continues c)
    then replacement ∷ from_c
    else if eqb (width a) 3
    then (a % 16 * 4096 + low6 b * 64 + low6 c) ∷ []
    else replacement ∷ []
from_utf8_lossy (a ∷ b ∷ c ∷ d ∷ s) =
    let from_b = from_utf8_lossy (b ∷ c ∷ d ∷ s) in
    let from_c = from_utf8_lossy (c ∷ d ∷ s) in
    let from_d = from_utf8_lossy (d ∷ s) in
    let from_s = from_utf8_lossy s in
    if ltb a 0x80
    then a ∷ from_b
    else if eqb (width a) 0 || not (second a b)
    then replacement ∷ from_b
    else if eqb (width a) 2
    then (a % 32 * 64 + low6 b) ∷ from_c
    else if not (continues c)
    then replacement ∷ from_c
    else if eqb (width a) 3
    then (a % 16 * 4096 + low6 b * 64 + low6 c) ∷ from_d
    else if not (continues d)
    then replacement ∷ from_d
    else (a % 8 * 262144 + low6 b * 4096 + low6 c * 64 + low6 d) ∷ from_s
