-- ===== src/Proc/Stat.antt =====
-- `parse_stat` of daemon/src/proc_scan.rs on the line that the kernel writes.
use nicewatch.Prelude.{
  ℕ, suc, ◌+◌, ◌-◌, ◌<◌, ◌^◌, ◌≡◌, refl, true, not, List, [], ◌∷◌, ◌++◌, some, arith, eqb, all,
  all-append, all_mono, All, map, length, length-append, sym, ap, ◌∙◌,
}
use nicewatch.Prelude.Int.{ℤ, pos, negsuc, ◌≤ℤ◌}
use nicewatch.Prelude.Text.{Text, is_space, is_digit}
use mathlib.Core.List.{append_assoc, append-nil}
use mathlib.Core.Bool.{false}
use mathlib.Core.Logic.{◌≢◌}
use nicewatch.Prelude.Scan.{rfind_char, trim, split_whitespace, take, drop}
use nicewatch.Prelude.Scan.Words.{
  Lacks, find_char-append, rfind_char-append, take-append_length, drop-suc-length, IsWord, unwords,
  split_whitespace-unwords,
}
use nicewatch.Prelude.Scan.Numbers.{
  show, show_i32, IsNumeral, show-IsNumeral, parse_u32-show, parse_u64-show, parse_i32-show_i32,
}
use nicewatch.Proc.{StatLine, parse_stat, name_and_fields, stat_fields}

module _ (pre comm tail : Text) where
  abbrev line : Text
  line = pre ++ (b'(' ∷ (comm ++ (b')' ∷ tail)))

  regroup : line ≡ (pre ++ (b'(' ∷ comm)) ++ (b')' ∷ tail)
  regroup = sym (append_assoc pre (b'(' ∷ comm) (b')' ∷ tail))

  abbrev rparen : ℕ
  rparen = length pre + suc (length comm)

  drop_name : drop (suc rparen) line ≡ tail
  drop_name =
      rw (regroup, ← length-append pre (b'(' ∷ comm))
        (drop-suc-length (pre ++ (b'(' ∷ comm)) b')' tail)

  slice_name : take (rparen - suc (length pre)) (drop (suc (length pre)) line) ≡ comm
  slice_name =
      let e : rparen - suc (length pre) ≡ length comm = omega arith in
      rw (e, drop-suc-length pre b'(' (comm ++ (b')' ∷ tail)))
        (take-append_length comm (b')' ∷ tail))

  split_name :
      name_and_fields rparen (length pre) line ≡ stat_fields (trim comm) (split_whitespace tail)
  unfolding name_and_fields
  split_name = ground (arith, drop_name, slice_name)

  -- The name begins behind the first `(` and ends at the last `)`.
  parse_stat-split :
      Lacks b'(' pre
      → Lacks b')' tail
      → parse_stat line ≡ stat_fields (trim comm) (split_whitespace tail)
  unfolding parse_stat
  parse_stat-split h k =
      let first = find_char-append b'(' pre (comm ++ (b')' ∷ tail)) h in
      let last : rfind_char b')' line ≡ some rparen =
        rw (regroup, ← length-append pre (b'(' ∷ comm))
          (rfind_char-append b')' (pre ++ (b'(' ∷ comm)) tail k) in
      rw (first, last) split_name

-- The line of `/proc/<pid>/stat`: `other i` is the number in the field of index `i` behind the name,
-- which may be negative, and `more` are the numbers of the fields behind those that are read.
abbrev stat_words : StatLine → (ℕ → ℤ) → List ℤ → List Text
stat_words s other more =
    (s.state ∷ [])
    ∷ show s.ppid
    ∷ show_i32 (other 2)
    ∷ show_i32 (other 3)
    ∷ show_i32 (other 4)
    ∷ show_i32 (other 5)
    ∷ show_i32 (other 6)
    ∷ show_i32 (other 7)
    ∷ show_i32 (other 8)
    ∷ show_i32 (other 9)
    ∷ show_i32 (other 10)
    ∷ show s.utime
    ∷ show s.stime
    ∷ show_i32 (other 13)
    ∷ show_i32 (other 14)
    ∷ show_i32 (other 15)
    ∷ show_i32 s.nice
    ∷ show_i32 (other 17)
    ∷ show_i32 (other 18)
    ∷ show s.starttime
    ∷ map show_i32 more

abbrev pub stat_line : ℕ → StatLine → (ℕ → ℤ) → List ℤ → Text
stat_line pid s other more =
    (show pid ++ (32 ∷ []))
    ++ (b'(' ∷ (s.comm ++ (b')' ∷ (unwords (stat_words s other more) ++ (10 ∷ [])))))

-- What a line of the kernel satisfies: a name with no white space at its ends, a visible state
-- other than `)`, and numbers of their types.
pub record IsKernelLine (s : StatLine) : Type 0 where
  pub trimmed : trim s.comm ≡ s.comm
  pub visible : is_space s.state ≡ false
  pub no_bracket : s.state ≢ b')'
  pub ppid_fits : s.ppid < 2 ^ 32
  pub utime_fits : s.utime < 2 ^ 64
  pub stime_fits : s.stime < 2 ^ 64
  pub nice_low : negsuc (2 ^ 31 - 1) ≤ℤ s.nice
  pub nice_high : s.nice ≤ℤ pos (2 ^ 31 - 1)
  pub starttime_fits : s.starttime < 2 ^ 64

-- A field holds no white space, and no bracket that ends the name.
abbrev IsField : Text → Type 0
IsField w = IsWord w × Lacks b')' w

digit_visible : (c : ℕ) → is_digit c ≡ true → not (is_space c) ≡ true
unfolding is_space
digit_visible c h = ground arith

IsField-numeral : (w : Text) → IsNumeral w → IsField w
IsField-numeral [] h = absurd h
IsField-numeral (c ∷ w) h =
    (all_mono _ _ (c ∷ w) digit_visible h, all_mono _ _ (c ∷ w) (λ d k. ground arith) h)

numeral_Lacks : (w : Text) → IsNumeral w → Lacks b'(' w
numeral_Lacks [] h = absurd h
numeral_Lacks (c ∷ w) h = all_mono _ _ (c ∷ w) (λ d k. ground arith) h

newline_Lacks : Lacks b')' (10 ∷ [])
unfolding all
newline_Lacks = refl

newline_space : is_space 10 ≡ true
unfolding is_space
newline_space = refl

split_newline : split_whitespace (10 ∷ []) ≡ []
unfolding split_whitespace is_space
split_newline = refl

IsField-show : (n : ℕ) → IsField (show n)
IsField-show n = IsField-numeral (show n) (show-IsNumeral n)

sign_IsField : (w : Text) → IsField w → IsField (b'-' ∷ w)
unfolding all is_space
sign_IsField [] h = absurd h.0
sign_IsField (c ∷ w) h = (h.0, h.1)

IsField-show_i32 : (z : ℤ) → IsField (show_i32 z)
unfolding show_i32
IsField-show_i32 (pos n) = IsField-show n
IsField-show_i32 (negsuc n) = sign_IsField (show (suc n)) (IsField-show (suc n))

IsField-char : (c : ℕ) → is_space c ≡ false → c ≢ b')' → IsField (c ∷ [])
unfolding all
IsField-char c h k = ground arith

IsField-numbers : (more : List ℤ) → All IsField (map show_i32 more)
IsField-numbers [] = tt
IsField-numbers (z ∷ more) = (IsField-show_i32 z, IsField-numbers more)

IsField-words :
    (s : StatLine) (other : ℕ → ℤ) (more : List ℤ)
    → IsKernelLine s
    → All IsField (stat_words s other more)
IsField-words s other more v =
    let n = IsField-show in
    let z = IsField-show_i32 in
    (
      IsField-char s.state v.visible v.no_bracket,
      (
        n s.ppid,
        (
          z (other 2),
          (
            z (other 3),
            (
              z (other 4),
              (
                z (other 5),
                (
                  z (other 6),
                  (
                    z (other 7),
                    (
                      z (other 8),
                      (
                        z (other 9),
                        (
                          z (other 10),
                          (
                            n s.utime,
                            (
                              n s.stime,
                              (
                                z (other 13),
                                (
                                  z (other 14),
                                  (
                                    z (other 15),
                                    (
                                      IsField-show_i32 s.nice,
                                      (
                                        z (other 17),
                                        (z (other 18), (n s.starttime, IsField-numbers more)),
                                      ),
                                    ),
                                  ),
                                ),
                              ),
                            ),
                          ),
                        ),
                      ),
                    ),
                  ),
                ),
              ),
            ),
          ),
        ),
      ),
    )

fields_words : (ws : List Text) → All IsField ws → All IsWord ws
fields_words [] h = tt
fields_words (w ∷ ws) h = (h.0.0, fields_words ws h.1)

unwords-Lacks :
    (ws : List Text) (tail : Text)
    → All IsField ws
    → Lacks b')' tail
    → Lacks b')' (unwords ws ++ tail)
unfolding unwords all
unwords-Lacks [] tail h k = k
unwords-Lacks (w ∷ ws) tail h k =
    rw
      (
        append_assoc w (unwords ws) tail,
        all-append (λ d. not (eqb d b')')) w (unwords ws ++ tail),
        h.0.1,
      )
      (unwords-Lacks ws tail h.1 k)

pid_Lacks : (pid : ℕ) → Lacks b'(' (show pid ++ (32 ∷ []))
unfolding all
pid_Lacks pid =
    rw
      (
        all-append (λ d. not (eqb d b'(')) (show pid) (32 ∷ []),
        numeral_Lacks (show pid) (show-IsNumeral pid),
      )
      refl

stat_fields-words :
    (s : StatLine) (other : ℕ → ℤ) (more : List ℤ)
    → IsKernelLine s
    → stat_fields s.comm (stat_words s other more) ≡ some s
unfolding stat_fields
stat_fields-words s other more v =
    rw
      (
        parse_u32-show s.ppid v.ppid_fits,
        parse_u64-show s.utime v.utime_fits,
        parse_u64-show s.stime v.stime_fits,
        parse_i32-show_i32 s.nice v.nice_low v.nice_high,
        parse_u64-show s.starttime v.starttime_fits,
      )
      refl

-- The line that the kernel writes for a process is parsed into the process's fields, where the name
-- has no white space at its ends and the fields that are read are in the ranges of their types,
-- whatever brackets and inner white space the name holds, whatever numbers, negative ones too, stand in the
-- other fields, and however many fields follow.
pub parse_stat_line :
    (pid : ℕ) (s : StatLine) (other : ℕ → ℤ) (more : List ℤ)
    → IsKernelLine s
    → parse_stat (stat_line pid s other more) ≡ some s
parse_stat_line pid s other more v =
    let ws = stat_words s other more in
    let fields = IsField-words s other more v in
    let split : split_whitespace (unwords ws ++ (10 ∷ [])) ≡ ws =
      split_whitespace-unwords ws (10 ∷ []) (fields_words ws fields) newline_space
      ∙ ap (◌++◌ ws) split_newline
      ∙ append-nil ws in
    parse_stat-split (show pid ++ (32 ∷ [])) s.comm (unwords ws ++ (10 ∷ [])) (pid_Lacks pid)
      (unwords-Lacks ws (10 ∷ []) fields newline_Lacks)
    ∙ ap (λ c. stat_fields c (split_whitespace (unwords ws ++ (10 ∷ [])))) v.trimmed
    ∙ ap (stat_fields s.comm) split
    ∙ stat_fields-words s other more v
