-- ===== src/Applier.antt =====
-- daemon/src/applier.rs, the part without state: io priorities, niceness, limit values and names.
-- Its cgroup manager is in Cgroup.antt.
pub mod Ioprio
pub mod Limits
pub mod Scheduling
use nicewatch.Prelude.{
  ℕ, ◌+◌, ◌-◌, ◌*◌, ◌/◌, ◌^◌, Bool, true, false, ◌&&◌, ◌||◌, not, List, [], ◌∷◌, ◌++◌, Option, none,
  some, map, all, min, max, if◌then◌else◌, eqb, ltb, leb, ◌==◌, get_elem?, contains, insert_new,
  discard, nat_eq,
}
use Prim.Native.Nat.{bit_and, bit_or}
use nicewatch.Prelude.Int.{ℤ, pos, negsuc, ltb_ℤ}
use nicewatch.Prelude.Text.{Text, text_eq, codes, is_digit, is_upper, is_lower}
use nicewatch.Prelude.Scan.{trim, split_whitespace}
use nicewatch.Prelude.Scan.Numbers.{show}
use nicewatch.Priority.{IoniceClass}

pub record CurrentIoprio : Type 0 where
  pub class : IoniceClass
  pub priority : ℕ

abbrev pub ioprio_class_shift : ℕ
ioprio_class_shift = 13

-- The constants `IOPRIO_CLASS_*`.
unfoldable pub class_bits : IoniceClass → ℕ
class_bits IoniceClass.none_class = 0
class_bits IoniceClass.realtime_class = 1
class_bits IoniceClass.best_effort = 2
class_bits IoniceClass.idle = 3

-- The value that `set_ioprio` hands to the kernel.
unfoldable pub ioprio_value : IoniceClass → ℕ → ℕ
unfolding class_bits
ioprio_value class priority =
    bit_or (class_bits class * 2 ^ ioprio_class_shift) (bit_and priority 0xff)

unfoldable pub class_of_bits : ℕ → IoniceClass
class_of_bits b =
    if eqb b 0
    then IoniceClass.none_class
    else if eqb b 1
    then IoniceClass.realtime_class
    else if eqb b 2
    then IoniceClass.best_effort
    else IoniceClass.idle

-- `get_ioprio` on what the kernel returns; `none` is a negative return code.
unfoldable pub get_ioprio : Option ℕ → Option CurrentIoprio
unfolding class_of_bits
get_ioprio none = none
get_ioprio (some v) = some (record {
  class = class_of_bits (bit_and (v / 2 ^ ioprio_class_shift) 7);
  priority = bit_and v 0xff;
})

-- The niceness that `apply_nice` hands to `setpriority`.
unfoldable pub clamp_nice : Bool → ℤ → ℤ
clamp_nice can_apply_negative nice =
    if ltb_ℤ nice (pos 0) && not can_apply_negative then pos 0 else nice

-- `FailureTracker::first_failure`: whether to log, and the pids warned of.
unfoldable pub first_failure : ℕ → List ℕ → Bool × List ℕ
first_failure pid warned = (not (contains warned pid), insert_new pid warned)

-- `FailureTracker::forget`
unfoldable pub forget_failure : ℕ → List ℕ → List ℕ
forget_failure pid warned = discard pid warned

-- The field of number 41 in the line, counted over the whole of it.
abbrev pub is_rt_policy : Option Text → Bool
is_rt_policy none = false
is_rt_policy (some f) = f == codes "1" || f == codes "2"

unfoldable pub is_rt_scheduled : Option Text → Bool
is_rt_scheduled none = false
is_rt_scheduled (some stat) = is_rt_policy (get_elem? (split_whitespace stat) 40)

abbrev pub cgroup_period_us : ℕ
cgroup_period_us = 100000

abbrev pub max_cap_percent : ℕ
max_cap_percent = 3200

-- The quota that `apply_limits` writes for a cap, in µs of each period.
unfoldable pub quota : ℕ → ℕ
quota pct = max (min pct max_cap_percent) 1 * (cgroup_period_us / 100)

abbrev is_suffix : ℕ → Bool
is_suffix b =
    eqb b b'k'
    || eqb b b'K'
    || (eqb b b'm' || eqb b b'M')
    || (eqb b b'g' || eqb b b'G' || (eqb b b't' || eqb b b'T'))

-- All but the last byte, if that is a suffix.
size_digits : Text → Text
size_digits [] = []
size_digits (b ∷ []) = if is_suffix b then [] else b ∷ []
size_digits (b ∷ c ∷ s) = b ∷ size_digits (c ∷ s)

some_digits : Text → Bool
some_digits [] = false
some_digits (b ∷ s) = all (λ c. is_digit c) (b ∷ s)

unfoldable pub cgroup_size_valid : Text → Bool
unfolding size_digits some_digits
cgroup_size_valid s = let t = trim s in t == codes "max" || some_digits (size_digits t)

unfoldable pub is_safe_char : ℕ → Bool
is_safe_char c = is_digit c || is_upper c || is_lower c || (eqb c b'-' || eqb c b'_' || eqb c b'.')

unfoldable pub safe_char : ℕ → ℕ
safe_char c = if is_safe_char c then c else b'_'

unfoldable pub sanitize_dir : Text → Text
sanitize_dir = map safe_char
