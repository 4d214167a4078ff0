-- ===== src/Cgroup.antt =====
-- The cgroup manager of daemon/src/applier.rs: its state, and what it does to the files of a cgroup.
pub mod Manager
pub mod Base
use nicewatch.Prelude.{
  ℕ, Bool, true, false, ◌&&◌, ◌||◌, not, List, [], ◌∷◌, ◌++◌, Option, none, some, if◌then◌else◌,
  eqb, ◌==◌, contains, insert_new, discard, find,
}
use nicewatch.Prelude.Text.{Text, text_eq, codes, is_empty, starts_with}
use nicewatch.Prelude.Scan.{trim, drop, lines, trim_start_char}
use nicewatch.Prelude.Scan.Numbers.{show}
use nicewatch.Prelude.Paths.{FilePath, path_eq, join, path_of, push, display}
use nicewatch.Prelude.Maps.{Map}
use nicewatch.Config.{CgroupLimits}
use nicewatch.Applier.{quota, cgroup_period_us, cgroup_size_valid}

-- What an operation on the kernel's files gives: `none` for `Ok(())` or the error's text, and the
-- kernel afterwards.
abbrev pub Done : Type 0 → Type 0
Done K = Option Text × K

-- `std::fs` on cgroupfs and /proc, `serde_json` on the state file, and `{:?}`. A path of a process
-- is given by its pid.
pub record Fs (K : Type 0) : Type 0 where
  pub create_dir_all : FilePath → K → Done K
  pub create_dir : FilePath → K → Done K
  pub remove_dir : FilePath → K → Done K
  pub remove_dir_all : FilePath → K → Done K
  pub remove_file : FilePath → K → Done K
  pub write : FilePath → Text → K → Done K
  pub read_to_string : FilePath → K → Option Text
  pub read_dir : FilePath → K → Option (List Text)
  pub proc_cgroup : ℕ → K → Option Text
  pub proc_stat : ℕ → K → Option Text
  pub to_json : Map ℕ (Text × Text) → Text
  pub from_json : Text → Option (Map ℕ (Text × Text))
  pub debug_limits : CgroupLimits → Text
  pub debug_path : FilePath → Text
  pub debug_text : Text → Text

abbrev pub cgroup_root : FilePath
cgroup_root = codes "cgroup" ∷ codes "fs" ∷ codes "sys" ∷ codes "/" ∷ []

abbrev pub procs_of : FilePath → FilePath
procs_of dir = join dir (codes "cgroup.procs")

-- `proc_cgroup_of`, on the text of /proc/<pid>/cgroup
unfoldable pub cgroup_line : Option Text → Option Text
cgroup_line none = none
cgroup_line (some text) = elim (find (λ l. starts_with l (codes "0::")) (lines text)) [
  | none ↦ none
  | some line ↦ some (drop 3 line)
]

-- The absolute directory of a relative cgroup.
abbrev pub under_root : Text → FilePath
under_root rel = push cgroup_root (trim_start_char b'/' rel)

module _ {K : Type 0} (fs : Fs K) where
  -- The error's text behind the path's, as `map_err` makes it.
  abbrev pub labelled : FilePath → Done K → Done K
  labelled path (none, k) = (none, k)
  labelled path (some e, k) = (some (display path ++ (codes ": " ++ e)), k)

  -- `?`
  abbrev pub and_then : Done K → (K → Done K) → Done K
  and_then (none, k) f = f k
  and_then (some e, k) f = (some e, k)

  unfoldable pub write_cgroup_file : FilePath → Text → K → Done K
  write_cgroup_file path value k = labelled path (fs.write path value k)

  unfoldable pub move_pid : ℕ → FilePath → K → Done K
  move_pid pid dir k = labelled (procs_of dir) (fs.write (procs_of dir) (show pid) k)

  unfoldable pub apply_cap : FilePath → Option ℕ → K → Done K
  apply_cap dir none k = (none, k)
  apply_cap dir (some pct) k =
      write_cgroup_file (join dir (codes "cpu.max"))
        (show (quota pct) ++ (codes " " ++ show cgroup_period_us)) k

  -- The idle flag; the weight is written only where there is none.
  unfoldable pub apply_weight : FilePath → Option Bool → Option ℕ → K → Done K
  apply_weight dir (some idle) w k =
      write_cgroup_file (join dir (codes "cpu.idle")) (if idle then codes "1" else codes "0") k
  apply_weight dir none (some w) k = write_cgroup_file (join dir (codes "cpu.weight")) (show w) k
  apply_weight dir none none k = (none, k)

  -- The two memory limits, `file` with a dot and `field` with an underscore.
  unfoldable pub apply_size : FilePath → Text → Text → Option Text → K → Done K
  apply_size dir file field none k = (none, k)
  apply_size dir file field (some s) k =
      let value = trim s in
      if cgroup_size_valid value then write_cgroup_file (join dir file) value k else (
        some (
            field
            ++ (codes " "
                ++ (fs.debug_text value
                    ++ codes
                        " is not a cgroup byte size (integer with optional K/M/G/T suffix, or \"max\")"))),
        k,
      )

  unfoldable pub apply_limits : FilePath → CgroupLimits → K → Done K
  unfolding apply_cap apply_weight apply_size
  apply_limits dir limits k = and_then (apply_cap dir limits.cpu_cap_percent k) (λ k1.
      and_then (apply_weight dir limits.cpu_idle limits.cpu_weight k1) (λ k2.
        and_then (apply_size dir (codes "memory.high") (codes "memory_high") limits.memory_high k2)
          (λ k3. apply_size dir (codes "memory.max") (codes "memory_max") limits.memory_max k3)))

  unfoldable pub enroll : ℕ → FilePath → CgroupLimits → K → Done K
  enroll pid dir limits k =
      and_then (labelled dir (fs.create_dir_all dir k))
        (λ k1. and_then (apply_limits dir limits k1) (λ k2. move_pid pid dir k2))
