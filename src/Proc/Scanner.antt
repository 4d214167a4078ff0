-- ===== src/Proc/Scanner.antt =====
-- `scan_proc` of daemon/src/proc_scan.rs: which directories are processes, and their order.
use nicewatch.Prelude.{ℕ, ◌≤◌, List, [], ◌∷◌, Option, none, some, arith, if◌then◌else◌, leb, all}
use nicewatch.Prelude.Text.{Text, is_digit}
use nicewatch.Prelude.Scan.Numbers.{parse_u32}
use nicewatch.Proc.{ProcEntry, ProcDir, read_proc_entry, has_dri_fd, capped_read, read_cgroup}

-- One round of the loop: a name that is not all digits, or no `u32`, is passed over.
unfoldable pub scan_dir : ℕ → ℕ → ℕ → Text → ProcDir → Option ProcEntry
scan_dir page_kb btime ticks name dir =
    if all (λ c. is_digit c) name
    then elim (parse_u32 name) [
      | none ↦ none
      | some pid ↦ elim (read_proc_entry page_kb dir pid btime ticks) [
        | none ↦ none
        | some entry ↦ some (record entry {
          exe = dir.exe;
          environ = capped_read dir.environ;
          cmdline = capped_read dir.cmdline;
          has_dri_fd = has_dri_fd dir.fds;
          cgroup = read_cgroup dir.cgroup;
        })
      ]
    ]
    else none

-- The stable `sort_by_key` on the pid.
unfoldable pub insert_by_pid : ProcEntry → List ProcEntry → List ProcEntry
insert_by_pid e [] = e ∷ []
insert_by_pid e (x ∷ xs) =
    let later = insert_by_pid e xs in if leb e.pid x.pid then e ∷ x ∷ xs else x ∷ later

unfoldable pub add_found : Option ProcEntry → List ProcEntry → List ProcEntry
unfolding insert_by_pid
add_found none out = out
add_found (some e) out = insert_by_pid e out

-- `entries` are the names of the directory's entries with their files; `none` if it is unreadable.
unfoldable pub scan_entries : ℕ → ℕ → ℕ → List (Text × ProcDir) → List ProcEntry
unfolding add_found
scan_entries page_kb btime ticks [] = []
scan_entries page_kb btime ticks ((name, dir) ∷ rest) =
    add_found (scan_dir page_kb btime ticks name dir) (scan_entries page_kb btime ticks rest)

unfoldable pub scan_proc : ℕ → ℕ → ℕ → Option (List (Text × ProcDir)) → List ProcEntry
unfolding scan_entries
scan_proc page_kb btime ticks none = []
scan_proc page_kb btime ticks (some entries) = scan_entries page_kb btime ticks entries

-- The pids do not fall along the list.
abbrev pub From : ℕ → List ProcEntry → Type 0
From n [] = Unit
From n (e ∷ es) = (n ≤ e.pid) × From e.pid es

From-insert :
    (n : ℕ) (e : ProcEntry) (es : List ProcEntry)
    → n ≤ e.pid
    → From n es
    → From n (insert_by_pid e es)
unfolding insert_by_pid
From-insert n e [] h f = (h, tt)
From-insert n e (x ∷ xs) h f = ground (arith, From-insert x.pid e xs)

add_found-From :
    (found : Option ProcEntry) (es : List ProcEntry) → From 0 es → From 0 (add_found found es)
unfolding add_found
add_found-From none es f = f
add_found-From (some e) es f = From-insert 0 e es (omega arith) f

scan_entries-From :
    (page_kb btime ticks : ℕ) (es : List (Text × ProcDir))
    → From 0 (scan_entries page_kb btime ticks es)
unfolding scan_entries
scan_entries-From page_kb btime ticks [] = tt
scan_entries-From page_kb btime ticks ((name, dir) ∷ rest) =
    add_found-From (scan_dir page_kb btime ticks name dir) _
      (scan_entries-From page_kb btime ticks rest)

-- The scan lists the processes by pid, whatever order the directory was read in.
pub scan_proc_sorted :
    (page_kb btime ticks : ℕ) (listing : Option (List (Text × ProcDir)))
    → From 0 (scan_proc page_kb btime ticks listing)
unfolding scan_proc
scan_proc_sorted page_kb btime ticks none = tt
scan_proc_sorted page_kb btime ticks (some es) = scan_entries-From page_kb btime ticks es
