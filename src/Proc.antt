-- ===== src/Proc.antt =====
-- daemon/src/proc_scan.rs: one process as the scan of /proc reads it, from the texts of its files.
pub mod Stat
pub mod Scanner
pub mod System
use nicewatch.Prelude.{
  ℕ, suc, ◌+◌, ◌*◌, ◌/◌, ◌-◌, ◌^◌, Bool, true, false, ◌&&◌, ◌||◌, not, List, [], ◌∷◌, ◌++◌, Option,
  none, some, arith, if◌then◌else◌, leb, ltb, get_elem?, all, any, find, min,
}
use nicewatch.Prelude.Int.{ℤ}
use nicewatch.Prelude.Text.{Text, codes, starts_with, strip_prefix, is_digit}
use nicewatch.Prelude.Scan.{find_char, rfind_char, slice, drop, take, trim, split_whitespace, lines}
use nicewatch.Prelude.Scan.Numbers.{parse_u32, parse_u64, parse_i32}

infixl 5 ◌>>=◌
abbrev ◌>>=◌ {ℓ κ} : {A : Type ℓ} {B : Type κ} → Option A → (A → Option B) → Option B
none >>= f = none
some a >>= f = f a

abbrev pub u32_max : ℕ
u32_max = 2 ^ 32 - 1

abbrev pub u64_max : ℕ
u64_max = 2 ^ 64 - 1

-- `u64::saturating_add`
abbrev pub saturating_add : ℕ → ℕ → ℕ
saturating_add a b = min (a + b) u64_max

abbrev pub saturating_mul : ℕ → ℕ → ℕ
saturating_mul a b = min (a * b) u64_max

pub record ProcEntry : Type 0 where
  pub pid : ℕ
  pub ppid : ℕ
  pub name : Text
  pub state : ℕ  -- a `char`
  pub utime : ℕ
  pub stime : ℕ
  pub nice : ℤ
  pub rss_kb : ℕ
  pub uid : ℕ
  pub start_secs : ℕ
  pub exe : Option Text
  pub environ : Option (List ℕ)
  pub cmdline : Option (List ℕ)
  pub has_dri_fd : Bool
  pub cgroup : Option Text

-- The tuple that `parse_stat` returns.
pub record StatLine : Type 0 where
  pub comm : Text
  pub state : ℕ
  pub ppid : ℕ
  pub utime : ℕ
  pub stime : ℕ
  pub nice : ℤ
  pub starttime : ℕ

abbrev first_char : Text → Option ℕ
first_char [] = none
first_char (c ∷ s) = some c

-- The fields behind the name; the indices are the `STAT_IDX` constants. `starttime` has the
-- highest, so the test on the number of fields is the last lookup.
unfoldable pub stat_fields : Text → List Text → Option StatLine
stat_fields comm fields = do
  starttime_text ← get_elem? fields 19
  state_text ← get_elem? fields 0
  state ← first_char state_text
  ppid_text ← get_elem? fields 1
  ppid ← parse_u32 ppid_text
  utime_text ← get_elem? fields 11
  utime ← parse_u64 utime_text
  stime_text ← get_elem? fields 12
  stime ← parse_u64 stime_text
  nice_text ← get_elem? fields 16
  nice ← parse_i32 nice_text
  starttime ← parse_u64 starttime_text
  some (record {
    comm = comm;
    state = state;
    ppid = ppid;
    utime = utime;
    stime = stime;
    nice = nice;
    starttime = starttime;
  })

name_and_fields : ℕ → ℕ → Text → Option StatLine
name_and_fields rparen open_at line =
    if leb rparen open_at
    then none
    else stat_fields (trim (slice (suc open_at) rparen line))
        (split_whitespace (drop (suc rparen) line))

unfoldable pub parse_stat : Text → Option StatLine
unfolding name_and_fields
parse_stat line = do
  open_at ← find_char b'(' line
  rparen ← rfind_char b')' line
  name_and_fields rparen open_at line

-- The name between the first `(` and the first `)` behind it.
unfoldable pub comm_of : Option Text → Option Text
comm_of stat = do
  text ← stat
  open_at ← find_char b'(' text
  close ← find_char b')' (drop open_at text)
  some (slice (suc open_at) (open_at + close) text)

-- The files of one directory of /proc, `none` where a read fails; `fds` are the targets of the
-- links under `fd`, and `exe` that of the link `exe`.
pub record ProcDir : Type 0 where
  pub stat : Option Text
  pub statm : Option Text
  pub status : Option Text
  pub exe : Option Text
  pub environ : Option (List ℕ)
  pub cmdline : Option (List ℕ)
  pub fds : Option (List (Option Text))
  pub cgroup : Option Text

abbrev or_zero : Option ℕ → ℕ
or_zero none = 0
or_zero (some n) = n

-- The second field of `statm`, in pages; `page_kb` is `sysconf(_SC_PAGESIZE) / 1024`.
unfoldable pub read_rss_kb : ℕ → Option Text → ℕ
read_rss_kb page_kb none = 0
read_rss_kb page_kb (some text) =
    let pages = or_zero (do field ← get_elem? (split_whitespace text) 1; parse_u64 field) in
    saturating_mul pages page_kb

abbrev or_max : Option ℕ → ℕ
or_max none = u32_max
or_max (some n) = n

abbrev first_word : Text → Option Text
first_word s = get_elem? (split_whitespace s) 0

-- The loop of `read_uid`: a line with the prefix and no field behind it is passed over.
unfoldable pub uid_in : List Text → ℕ
uid_in [] = u32_max
uid_in (line ∷ ls) =
    let later = uid_in ls in
    elim (strip_prefix line (codes "Uid:") >>= first_word) [
      | none ↦ later
      | some word ↦ or_max (parse_u32 word)
    ]

unfoldable pub read_uid : Option Text → ℕ
unfolding uid_in
read_uid none = u32_max
read_uid (some text) = uid_in (lines text)

unified_line : List Text → Option Text
unified_line [] = none
unified_line (l ∷ ls) =
    let rest = unified_line ls in if starts_with (trim l) (codes "0::") then some (trim l) else rest

unfoldable pub read_cgroup : Option Text → Option Text
unfolding unified_line
read_cgroup none = none
read_cgroup (some text) = unified_line (lines text)

-- `ENVIRON_MAX_BYTES`
abbrev pub environ_max_bytes : ℕ
environ_max_bytes = 256 * 1024

abbrev is_dri : Option Text → Bool
is_dri none = false
is_dri (some t) = starts_with t (codes "/dev/dri/")

unfoldable pub has_dri_fd : Option (List (Option Text)) → Bool
has_dri_fd none = false
has_dri_fd (some targets) = any is_dri targets

-- `read_environ` and `read_file_opt`: one read into a buffer of the capped size.
unfoldable pub capped_read : Option (List ℕ) → Option (List ℕ)
capped_read none = none
capped_read (some bytes) = some (take environ_max_bytes bytes)

unfoldable pub read_proc_entry : ℕ → ProcDir → ℕ → ℕ → ℕ → Option ProcEntry
read_proc_entry page_kb dir pid btime ticks = do
  stat ← dir.stat
  line ← parse_stat stat
  some (record {
    pid = pid;
    ppid = line.ppid;
    name = line.comm;
    state = line.state;
    utime = line.utime;
    stime = line.stime;
    nice = line.nice;
    rss_kb = read_rss_kb page_kb dir.statm;
    uid = read_uid dir.status;
    start_secs = saturating_add btime (line.starttime / ticks);
    exe = none;
    environ = none;
    cmdline = none;
    has_dri_fd = false;
    cgroup = none;
  })
