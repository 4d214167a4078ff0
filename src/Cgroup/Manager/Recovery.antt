-- ===== src/Cgroup/Manager/Recovery.antt =====
-- The start of the cgroup manager and its care for pids that a crashed run has left
-- (`new`, `recover_orphans` and `sweep_strays`, daemon/src/applier.rs).
use nicewatch.Prelude.{
  ℕ, nat_eq, Bool, false, ◌||◌, not, List, [], ◌∷◌, Option, none, some, if◌then◌else◌, ◌==◌,
  contains, insert_new,
}
use nicewatch.Prelude.Text.{Text, text_eq, codes, starts_with}
use nicewatch.Prelude.Scan.{trim, lines}
use nicewatch.Prelude.Scan.Numbers.{parse_u32}
use nicewatch.Prelude.Paths.{FilePath, path_eq, path_of, join}
use nicewatch.Prelude.Maps.{Map, contains_key}
use nicewatch.Proc.{comm_of}
use nicewatch.Detect.{is_de_critical}
use nicewatch.Cgroup.{Fs, cgroup_line, under_root, procs_of, move_pid}
use nicewatch.Cgroup.Base.{discover_cgroup_base}
use nicewatch.Cgroup.Manager.{persisted, prune_dir, ignored, place, ensure_controllers}
use nicewatch.Cgroup.Manager.State.{Manager, reporting}

abbrev is_at : FilePath → Option Text → Bool
is_at dir none = false
is_at dir (some rel) = under_root rel == dir

abbrev pub is_critical : Option Text → Bool
is_critical none = false
is_critical (some comm) = is_de_critical comm

module _ {K : Type 0} (fs : Fs K) where
  -- Whether the pid lives in the directory right now.
  abbrev pub lives_in : FilePath → ℕ → K → Bool
  lives_in dir pid k = is_at dir (cgroup_line (fs.proc_cgroup pid k))

  -- One entry of the table of a crashed run.
  repatriate : ℕ → Text → Text → Manager K → Manager K
  repatriate pid dir origin m =
      if lives_in (path_of dir) pid m.kernel
      then prune_dir fs (path_of dir)
          (record m { kernel = ignored fs (move_pid fs pid (path_of origin) m.kernel) })
      else m

  repatriate_all : Map ℕ (Text × Text) → Manager K → Manager K
  unfolding repatriate
  repatriate_all [] m = m
  repatriate_all ((pid, e) ∷ entries) m = repatriate_all entries (repatriate pid e.0 e.1 m)

  abbrev forget_file : FilePath → Manager K → Manager K
  forget_file path m = record m { kernel = ignored fs (fs.remove_file path m.kernel) }

  -- An empty table is left on the disk.
  recover_from : FilePath → Option (Map ℕ (Text × Text)) → Manager K → Manager K
  unfolding repatriate_all
  recover_from path none m = forget_file path m
  recover_from path (some []) m = m
  recover_from path (some (e ∷ entries)) m = forget_file path (repatriate_all (e ∷ entries) m)

  recover_at : Option FilePath → Manager K → Manager K
  unfolding recover_from
  recover_at none m = m
  recover_at (some path) m = recover_from path (persisted fs (some path) m.kernel) m

  unfoldable pub recover_orphans : Manager K → Manager K
  unfolding recover_at
  recover_orphans m = recover_at m.state_path m

  -- `CgroupManager::new`, with the path of the state file.
  unfoldable pub new_manager : ℕ → FilePath → K → Manager K
  new_manager our_pid state_path k =
      let (base, k1) = discover_cgroup_base fs our_pid (place fs our_pid k) k in
      ensure_controllers fs (
        recover_orphans (record {
          kernel = k1;
          base = base;
          enrolled = [];
          created_dirs = [];
          warned = [];
          controllers_reasserted = false;
          state_path = some state_path;
        }))

  -- Parks a pid that is in a managed directory, but that was not moved in.
  unfoldable pub park : FilePath → FilePath → ℕ → Manager K → Manager K
  park stray_dir dir pid m =
      if contains_key pid m.enrolled
        || not (lives_in dir pid m.kernel)
        || is_critical (comm_of (fs.proc_stat pid m.kernel))
      then m
      else (let k = ignored fs (fs.create_dir_all stray_dir m.kernel) in
          reporting pid (move_pid fs pid stray_dir k) (record m { kernel = k }))

  unfoldable pub park_line : FilePath → FilePath → Option ℕ → Manager K → Manager K
  unfolding park
  park_line stray_dir dir none m = m
  park_line stray_dir dir (some pid) m = park stray_dir dir pid m

  unfoldable pub park_lines : FilePath → FilePath → List Text → Manager K → Manager K
  unfolding park_line
  park_lines stray_dir dir [] m = m
  park_lines stray_dir dir (line ∷ rest) m =
      park_lines stray_dir dir rest (park_line stray_dir dir (parse_u32 (trim line)) m)

  unfoldable pub sweep_dir : FilePath → FilePath → Option Text → Manager K → Manager K
  unfolding park_lines
  sweep_dir stray_dir dir none m = m
  sweep_dir stray_dir dir (some procs) m =
      prune_dir fs stray_dir (prune_dir fs dir (park_lines stray_dir dir (lines procs) m))

  unfoldable pub sweep_dirs : FilePath → List FilePath → Manager K → Manager K
  unfolding sweep_dir
  sweep_dirs stray_dir [] m = m
  sweep_dirs stray_dir (dir ∷ dirs) m =
      sweep_dirs stray_dir dirs
        (sweep_dir stray_dir dir (fs.read_to_string (procs_of dir) m.kernel) m)

  -- Takes over the managed directories of an earlier run.
  unfoldable pub adopt : FilePath → List Text → Manager K → Manager K
  adopt base [] m = m
  adopt base (name ∷ names) m =
      let rest = adopt base names in
      let path = join base name in
      if not (starts_with name (codes "nw-")) || contains m.created_dirs path
      then rest m
      else rest (prune_dir fs path (record m { created_dirs = insert_new path m.created_dirs }))

  unfoldable pub adopt_listed : FilePath → Option (List Text) → Manager K → Manager K
  unfolding adopt
  adopt_listed base none m = m
  adopt_listed base (some names) m = adopt base names m

  unfoldable pub sweep_at : Option FilePath → Manager K → Manager K
  unfolding sweep_dirs adopt_listed
  sweep_at none m = m
  sweep_at (some base) m =
      let swept = sweep_dirs (join base (codes "_strays")) m.created_dirs m in
      adopt_listed base (fs.read_dir base swept.kernel) swept

  unfoldable pub sweep_strays : Manager K → Manager K
  unfolding sweep_at
  sweep_strays m = sweep_at m.base m
