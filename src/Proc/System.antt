-- ===== src/Proc/System.antt =====
-- The readings of daemon/src/proc_scan.rs that concern the whole system.
use nicewatch.Prelude.{
  ℕ, ◌+◌, ◌-◌, ◌%◌, ◌^◌, ◌≤◌, Bool, false, ◌&&◌, ◌||◌, List, [], ◌∷◌, Option, none, some, arith,
  if◌then◌else◌, ltb, eqb, all, find, min, length, get_elem?, Option-cases, inl, inr, ◌==◌,
}
use nicewatch.Prelude.Text.{Text, text_eq, codes, starts_with, strip_prefix, is_digit}
use nicewatch.Prelude.Scan.{drop, trim, split_whitespace, lines}
use nicewatch.Prelude.Scan.Numbers.{parse_u64}

abbrev pub or_zero : Option ℕ → ℕ
or_zero none = 0
or_zero (some n) = n

-- The first line `btime N` whose number parses, or 0.
unfoldable pub btime_in : List Text → ℕ
btime_in [] = 0
btime_in (l ∷ ls) =
    let later = btime_in ls in
    elim (strip_prefix l (codes "btime ")) [
      | none ↦ later
      | some rest ↦ elim (parse_u64 (trim rest)) [ none ↦ later | some v ↦ v ]
    ]

unfoldable pub read_btime : Option Text → ℕ
unfolding btime_in
read_btime none = 0
read_btime (some text) = btime_in (lines text)

-- `filter_map(|v| v.parse().ok())`
unfoldable pub numbers : List Text → List ℕ
numbers [] = []
numbers (w ∷ ws) = elim (parse_u64 w) [ none ↦ numbers ws | some v ↦ v ∷ numbers ws ]

unfoldable pub sum : List ℕ → ℕ
sum [] = 0
sum (n ∷ ns) = n + sum ns

-- Sums of `u64` wrap in a release build.
abbrev wrap : ℕ → ℕ
wrap n = n % 2 ^ 64

abbrev tail_of : List Text → List Text
tail_of [] = []
tail_of (w ∷ ws) = ws

-- (busy, total) of the fields; fewer than four fields give (0, 0).
unfoldable pub busy_total : List ℕ → ℕ × ℕ
unfolding sum
busy_total nums =
    let idle = wrap (or_zero (get_elem? nums 3) + or_zero (get_elem? nums 4)) in
    let total = wrap (sum nums) in if ltb (length nums) 4 then (0, 0) else (total - idle, total)

unfoldable pub read_cpu_busy : Option Text → ℕ × ℕ
unfolding busy_total numbers
read_cpu_busy none = (0, 0)
read_cpu_busy (some text) = elim (find (λ l. starts_with l (codes "cpu ")) (lines text)) [
  | none ↦ (0, 0)
  | some line ↦ busy_total (numbers (tail_of (split_whitespace line)))
]

unfoldable pub parse_meminfo_kb : Text → ℕ
parse_meminfo_kb rest = elim (get_elem? (split_whitespace rest) 0) [
  | none ↦ 0
  | some v ↦ or_zero (parse_u64 v)
]

-- The loop over the lines carries (total, available): the last line of each name counts.
unfoldable pub mem_lines : ℕ → ℕ → List Text → ℕ × ℕ
mem_lines total available [] = (total, available)
mem_lines total available (l ∷ ls) =
    let t = strip_prefix l (codes "MemTotal:") in
    let a = strip_prefix l (codes "MemAvailable:") in
    mem_lines (elim t [ none ↦ total | some rest ↦ parse_meminfo_kb rest ])
      (elim t [
        | some rest ↦ available
        | none ↦ elim a [ none ↦ available | some rest ↦ parse_meminfo_kb rest ]
      ])
      ls

-- (total, used); used = total - min(available, total).
unfoldable pub total_used : ℕ × ℕ → ℕ × ℕ
total_used (total, available) = if eqb total 0 then (0, 0) else (total, total - min available total)

unfoldable pub read_system_mem : Option Text → ℕ × ℕ
unfolding mem_lines total_used
read_system_mem none = (0, 0)
read_system_mem (some text) = total_used (mem_lines 0 0 (lines text))

-- An entry of /sys/class/drm: its name, if it is UTF-8, and its performance level, if readable.
pub record DrmEntry : Type 0 where
  pub name : Option Text
  pub level : Option Text

abbrev is_card : Text → Bool
is_card name = starts_with name (codes "card") && all (λ c. is_digit c) (drop 4 name)

abbrev level_low : Option Text → Bool
level_low none = false
level_low (some level) = trim level == codes "low"

unfoldable pub card_low : DrmEntry → Bool
card_low e = elim e.name [ none ↦ false | some name ↦ is_card name && level_low e.level ]

unfoldable pub gpu_perf_level_low : Option (List DrmEntry) → Bool
unfolding card_low
gpu_perf_level_low none = false
gpu_perf_level_low (some []) = false
gpu_perf_level_low (some (e ∷ es)) = card_low e || gpu_perf_level_low (some es)

busy_total-le : (nums : List ℕ) → (busy_total nums).0 ≤ (busy_total nums).1
unfolding busy_total
busy_total-le nums = ground arith

total_used-le : (p : ℕ × ℕ) → (total_used p).1 ≤ (total_used p).0
unfolding total_used
total_used-le p = ground arith

read_cpu_busy-le : (stat : Option Text) → (read_cpu_busy stat).0 ≤ (read_cpu_busy stat).1
unfolding read_cpu_busy
read_cpu_busy-le none = omega arith
read_cpu_busy-le (some text) =
    elim (Option-cases (find (λ l. starts_with l (codes "cpu ")) (lines text))) [
      | inl e ↦ rw (e, read_cpu_busy) (omega arith)
      | inr (line, e) ↦ rw (e, read_cpu_busy) (busy_total-le _)
    ]

read_system_mem-le : (m : Option Text) → (read_system_mem m).1 ≤ (read_system_mem m).0
unfolding read_system_mem
read_system_mem-le none = omega arith
read_system_mem-le (some text) = total_used-le (mem_lines 0 0 (lines text))

-- The busy ticks never exceed the total, and the used memory never exceeds the physical memory,
-- whatever the files hold.
pub system_readings_bounded :
    (stat meminfo : Option Text)
    → ((read_cpu_busy stat).0 ≤ (read_cpu_busy stat).1)
      × ((read_system_mem meminfo).1 ≤ (read_system_mem meminfo).0)
system_readings_bounded stat meminfo = (read_cpu_busy-le stat, read_system_mem-le meminfo)
