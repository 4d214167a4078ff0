-- ===== src/Tests/CgroupRuns.antt =====
-- Runs of the cgroup manager over a kernel that is a map of files.
use nicewatch.Prelude.{
  contains, Bool, true, eq_refl, if◌then◌else◌, ◌==◌, sym, ap, ◌∙◌, Bool-cases, inl, inr, arith, ℕ,
  nat_eq, ◌≡◌, ◌≢◌, refl, false, [], ◌∷◌, none, some,
}
use nicewatch.Prelude.Text.{Text, codes, text_eq}
use nicewatch.Prelude.Paths.{FilePath, path_eq, path_beq_iff}
use nicewatch.Prelude.Maps.{Map, get, insert, remove}
use nicewatch.Config.{CgroupLimits}
use nicewatch.Prelude.Scan.Numbers.{IsNumeral, show-IsNumeral, show}
use nicewatch.Cgroup.Base.{discover_cgroup_base, allowed, candidates, base_allowed}
use nicewatch.Cgroup.Manager.Moves.{IsCgroupFs, is_procs, is_procs_path}
use nicewatch.Cgroup.Manager.Returning.{limits_undone}
use nicewatch.Cgroup.{Done, Fs, cgroup_root, procs_of, enroll, move_pid}
use nicewatch.Cgroup.Manager.{unenroll, place, is_managed, origin_of, sync_pid}
use nicewatch.Cgroup.Manager.State.{Manager, Enrolled, dir_for}
use nicewatch.Cgroup.Manager.Reconcile.{IsReconciled, sync_pid_reconciles}

abbrev Files : Type 0
Files = Map FilePath Text

-- Every write succeeds, and every process is in one cgroup.
abbrev a_fs : Fs Files
a_fs = record {
  create_dir_all = λ dir k. (none, k);
  create_dir = λ dir k. (none, k);
  remove_dir = λ dir k. (none, k);
  remove_dir_all = λ dir k. (none, k);
  remove_file = λ path k. (none, remove path k);
  write = λ path text k. (none, insert path text k);
  read_to_string = λ path k. get path k;
  read_dir = λ dir k. none;
  proc_cgroup = λ pid k. some (codes "0::/app.slice/x.scope");
  proc_stat = λ pid k. none;
  to_json = λ entries. codes "{}";
  from_json = λ text. none;
  debug_limits = λ lims. codes "limits";
  debug_path = λ path. codes "path";
  debug_text = λ text. text;
}

abbrev pub base_dir : FilePath
base_dir = codes "app.slice" ∷ cgroup_root

abbrev half_core : CgroupLimits
half_core = record {
  path = none;
  cpu_weight = none;
  cpu_cap_percent = some 50;
  memory_high = none;
  memory_max = none;
  cpu_idle = none;
}

abbrev enrolled : Enrolled
enrolled = record {
  dir = dir_for base_dir (codes "b") half_core;
  origin = codes "x.scope" ∷ base_dir;
  limits = some half_core;
}

abbrev a_manager : Manager Files
a_manager = record {
  kernel = [];
  base = some base_dir;
  enrolled = (7, enrolled) ∷ [];
  created_dirs = [];
  warned = [];
  controllers_reasserted = false;
  state_path = some (codes "s.json" ∷ codes "/" ∷ []);
}

apart : ◌≢◌ {A = ℕ} 8 7
apart h = omega arith

sync_pid_reconciles_example :
    (get 7 (sync_pid a_fs 8 (codes "b") (some half_core) a_manager).enrolled
      ≡ get 7 a_manager.enrolled)
    × IsReconciled a_fs base_dir 8
        (codes "b")
        (some half_core)
        (unenroll a_fs 8 a_manager).kernel
        (get 8 (sync_pid a_fs 8 (codes "b") (some half_core) a_manager).enrolled)
sync_pid_reconciles_example =
    sync_pid_reconciles a_fs base_dir 8 7 (codes "b") (some half_core) a_manager refl apart

abbrev pub managed_dir : FilePath
managed_dir = codes "nw-b" ∷ base_dir

abbrev pub scope_dir : FilePath
scope_dir = codes "x.scope" ∷ base_dir

-- A kernel with two cgroups: every process is in one of them, `true` for the managed one, and
-- whatever is written to the list of a cgroup moves them there.
abbrev two_write : FilePath → Text → Bool → Done Bool
two_write path [] k = (none, k)
two_write path (c ∷ text) k =
    if is_procs path
    then (if path == procs_of scope_dir
        then (none, false)
        else if path == procs_of managed_dir
        then (none, true)
        else (some (codes "refused"), k))
    else (none, k)

abbrev two_fs : Fs Bool
two_fs = record {
  create_dir_all = λ dir k. (none, k);
  create_dir = λ dir k. (none, k);
  remove_dir = λ dir k. (none, k);
  remove_dir_all = λ dir k. (none, k);
  remove_file = λ path k. (none, k);
  write = two_write;
  read_to_string = λ path k. none;
  read_dir = λ dir k. none;
  proc_cgroup =
      λ pid k. some (if k then codes "0::/app.slice/nw-b" else codes "0::/app.slice/x.scope");
  proc_stat = λ pid k. none;
  to_json = λ entries. codes "{}";
  from_json = λ text. none;
  debug_limits = λ lims. codes "limits";
  debug_path = λ path. codes "path";
  debug_text = λ text. text;
}

place_at : (pid : ℕ) (k : Bool) → place two_fs pid k ≡ (if k then managed_dir else scope_dir)
unfolding place nicewatch.Cgroup.cgroup_line nicewatch.Prelude.find nicewatch.Prelude.Scan.lines
    nicewatch.Prelude.Text.starts_with nicewatch.Prelude.Paths.push nicewatch.Prelude.retain
    nicewatch.Prelude.Scan.trim_start_char nicewatch.Prelude.Text.is_empty
    nicewatch.Prelude.Text.text_beq
place_at pid true = refl
place_at pid false = refl

pub same_dir_of : (a b : FilePath) → procs_of a ≡ procs_of b → a ≡ b
same_dir_of a b h = cc

two_moved :
    (pid : ℕ) (text : Text) (dir : FilePath) (k : Bool)
    → IsNumeral text
    → (two_write (procs_of dir) text k).0 ≡ none
    → place two_fs pid (two_write (procs_of dir) text k).1 ≡ dir
two_moved pid [] dir k n ok = absurd n
two_moved pid (c ∷ text) dir k n ok = elim (Bool-cases (procs_of dir == procs_of scope_dir)) [
  | inl back ↦
      rw (eq_refl (codes "cgroup.procs"), back)
        (place_at pid false ∙ sym (same_dir_of dir scope_dir ((path_beq_iff _ _).0 back)))
  | inr other ↦ elim (Bool-cases (procs_of dir == procs_of managed_dir)) [
    | inl limited ↦
        rw (eq_refl (codes "cgroup.procs"), other, limited)
          (place_at pid true ∙ sym (same_dir_of dir managed_dir ((path_beq_iff _ _).0 limited)))
    | inr neither ↦ absurd (ground (arith, eq_refl (codes "cgroup.procs")))
  ]
]

two_written :
    (path : FilePath) (text : Text) (k : Bool)
    → is_procs path ≡ false
    → (two_write path text k).1 ≡ k
two_written path [] k p = refl
two_written path (c ∷ text) k p = rw p refl

two_laws : IsCgroupFs two_fs
two_laws = record {
  moved = λ pid dir k ok. two_moved pid (show pid) dir k (show-IsNumeral pid) ok;
  cleared = λ pid dir k. refl;
  removed = λ pid dir k. refl;
  removed_all = λ pid dir k. refl;
  written = λ pid path text k p. ap (place two_fs pid) (two_written path text k p);
}

abbrev two_manager : Manager Bool
two_manager = record {
  kernel = false;
  base = some base_dir;
  enrolled = [];
  created_dirs = [];
  warned = [];
  controllers_reasserted = false;
  state_path = some (codes "s.json" ∷ codes "/" ∷ []);
}

is_new : get 7 two_manager.enrolled ≡ none
unfolding get
is_new = refl

not_managed : is_managed two_fs base_dir (origin_of two_fs 7 two_manager) two_manager ≡ false
unfolding nicewatch.Prelude.contains nicewatch.Prelude.any nicewatch.Prelude.Maps.values
not_managed = rw (place_at 7 false) (ground arith)

not_procs : is_procs_path two_manager.state_path ≡ false
unfolding nicewatch.Prelude.Text.text_beq
not_procs = refl

takes_limits :
    (enroll two_fs 7 (dir_for base_dir (codes "b") half_core) half_core two_manager.kernel).0 ≡ none
unfolding nicewatch.Cgroup.enroll nicewatch.Cgroup.apply_limits nicewatch.Cgroup.apply_cap
    nicewatch.Cgroup.apply_weight nicewatch.Cgroup.apply_size nicewatch.Cgroup.write_cgroup_file
    nicewatch.Prelude.Text.text_beq nicewatch.Prelude.Paths.path_beq nicewatch.Applier.quota show
    dir_for move_pid nicewatch.Applier.sanitize_dir nicewatch.Applier.safe_char
    nicewatch.Applier.is_safe_char
takes_limits = refl

takes_back :
    (move_pid two_fs 7
      (place two_fs 7 two_manager.kernel)
      (sync_pid two_fs 7 (codes "b") (some half_core) two_manager).kernel).0
    ≡ none
unfolding move_pid nicewatch.Cgroup.enroll nicewatch.Cgroup.apply_limits nicewatch.Cgroup.apply_cap
    nicewatch.Cgroup.apply_weight nicewatch.Cgroup.apply_size nicewatch.Cgroup.write_cgroup_file
    nicewatch.Prelude.Text.text_beq nicewatch.Prelude.Paths.path_beq nicewatch.Applier.quota show
    dir_for
takes_back = rw (place_at 7 false) refl

limits_undone_example :
    (place two_fs 7 (sync_pid two_fs 7 (codes "b") (some half_core) two_manager).kernel
      ≡ dir_for base_dir (codes "b") half_core)
    × (place two_fs 7
          (sync_pid two_fs 7
            (codes "b")
            none
            (sync_pid two_fs 7 (codes "b") (some half_core) two_manager)).kernel
        ≡ place two_fs 7 two_manager.kernel)
limits_undone_example =
    limits_undone two_fs two_laws 7 base_dir (codes "b") half_core two_manager refl is_new
      not_managed not_procs takes_limits takes_back

finds_base : (discover_cgroup_base a_fs 9 scope_dir []).0 ≡ some scope_dir
unfolding discover_cgroup_base candidates nicewatch.Prelude.Text.text_beq
    nicewatch.Cgroup.Base.is_forbidden_base nicewatch.Prelude.Paths.file_name
    nicewatch.Prelude.Text.starts_with nicewatch.Prelude.Paths.path_beq
finds_base = refl

base_allowed_example : contains (allowed (candidates scope_dir)) scope_dir ≡ true
base_allowed_example = base_allowed a_fs 9 scope_dir scope_dir [] finds_base
