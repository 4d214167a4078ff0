-- ===== src/Cgroup/Manager.antt =====
-- The cgroup manager's operations (`CgroupManager`, daemon/src/applier.rs).
pub mod State
pub mod Enrolment
pub mod Reconcile
pub mod Recovery
pub mod Moves
pub mod Sweep
pub mod Returning
use nicewatch.Prelude.{
  ℕ, nat_eq, Bool, true, false, ◌&&◌, ◌||◌, not, List, [], ◌∷◌, ◌++◌, Option, none, some, any,
  if◌then◌else◌, eqb, ltb, ◌==◌, contains, insert_new, discard,
}
use nicewatch.Prelude.Text.{Text, text_eq, codes, is_empty}
use nicewatch.Prelude.Scan.{trim, split_whitespace}
use nicewatch.Prelude.Scan.Numbers.{show}
use nicewatch.Prelude.Paths.{FilePath, path_eq, join, path_of, path_starts_with, display}
use nicewatch.Prelude.Maps.{Map, get, insert, insert_sorted, remove, keys, is_some, values}
use nicewatch.Config.{CgroupLimits}
use nicewatch.Applier.{sanitize_dir}
use nicewatch.Cgroup.{
  Done, Fs, cgroup_root, procs_of, cgroup_line, under_root, move_pid, apply_limits, enroll,
}
use State.{
  Enrolled, Manager, same_limits, has_limits, from_manager, warn_key, warn_once, reporting, dir_for,
  blank_text,
}

abbrev or_empty : Option Text → Text
or_empty none = []
or_empty (some s) = s

module _ {K : Type 0} (fs : Fs K) where
  -- A result that is dropped.
  abbrev pub ignored : Done K → K
  ignored (e, k) = k

  pub persist_at : Option FilePath → Manager K → Manager K
  persist_at none m = m
  persist_at (some path) m = record m {
    kernel = ignored (fs.write path (fs.to_json (from_manager m.enrolled)) m.kernel);
  }

  unfoldable pub persist : Manager K → Manager K
  unfolding persist_at
  persist m = persist_at m.state_path m

  -- The file's entries, where it can be read and decoded.
  pub persisted : Option FilePath → K → Option (Map ℕ (Text × Text))
  persisted none k = none
  persisted (some path) k = elim (fs.read_to_string path k) [
    | none ↦ none
    | some s ↦ fs.from_json s
  ]

  unfoldable pub persisted_origin : ℕ → Manager K → Option FilePath
  unfolding persisted
  persisted_origin pid m = elim (persisted m.state_path m.kernel) [
    | none ↦ none
    | some entries ↦ elim (get pid entries) [ none ↦ none | some e ↦ some (path_of e.1) ]
  ]

  abbrev pub pruned : FilePath → Done K → Manager K → Bool × Manager K
  pruned dir (none, k) m =
      (true, record m { kernel = k; created_dirs = discard dir m.created_dirs })
  pruned dir (some e, k) m = (false, record m { kernel = k })

  abbrev pub or_prune_all : FilePath → Bool × Manager K → Manager K
  or_prune_all dir (true, m) = m
  or_prune_all dir (false, m) = (pruned dir (fs.remove_dir_all dir m.kernel) m).1

  -- `prune_dir`: the process list is read after the write of nothing to it.
  unfoldable pub prune_dir : FilePath → Manager K → Manager K
  prune_dir dir m =
      let k = ignored (fs.write (procs_of dir) [] m.kernel) in
      if blank_text (fs.read_to_string (procs_of dir) k)
      then or_prune_all dir (pruned dir (fs.remove_dir dir k) m)
      else record m { kernel = k }

  pub release : ℕ → Option Enrolled → Manager K → Manager K
  unfolding prune_dir persist
  release pid none m = m
  release pid (some en) m =
      let gone = record m { enrolled = remove pid m.enrolled } in
      let moved = reporting pid (move_pid fs pid en.origin m.kernel) gone in
      persist (prune_dir en.dir moved)

  unfoldable pub unenroll : ℕ → Manager K → Manager K
  unfolding release
  unenroll pid m = release pid (get pid m.enrolled) m

  pub forget_entry : ℕ → Option Enrolled → Manager K → Manager K
  forget_entry pid none m = m
  forget_entry pid (some en) m =
      persist (prune_dir en.dir (record m { enrolled = remove pid m.enrolled }))

  unfoldable pub forget : ℕ → Manager K → Manager K
  unfolding forget_entry
  forget pid m = forget_entry pid (get pid m.enrolled) m

  abbrev within : FilePath → Option Text → FilePath
  within p none = p
  within p (some rel) = under_root rel

  -- The directory that a process lives in.
  unfoldable pub place : ℕ → K → FilePath
  place pid k = within cgroup_root (cgroup_line (fs.proc_cgroup pid k))

  abbrev pub origin_of : ℕ → Manager K → FilePath
  origin_of pid m = place pid m.kernel

  abbrev pub is_managed : FilePath → FilePath → Manager K → Bool
  is_managed base origin m =
      not (origin == base)
      && path_starts_with origin base
      && (contains m.created_dirs origin
          || any (λ (e : Enrolled). e.dir == origin) (values m.enrolled))

  abbrev pub or_saved : ℕ → FilePath → Option FilePath → Manager K → FilePath × Manager K
  or_saved pid origin none m = (origin, warn_key (show pid ++ codes ":orphan-origin") m)
  or_saved pid origin (some saved) m = (saved, m)

  -- Where a pid that is to be enrolled comes from.
  unfoldable pub find_origin : FilePath → ℕ → Manager K → FilePath × Manager K
  find_origin base pid m =
      let origin = origin_of pid m in
      if is_managed base origin m
      then or_saved pid origin (persisted_origin pid m) m
      else (origin, m)

  pub enrolled_as : ℕ → FilePath → FilePath → CgroupLimits → Done K → Manager K → Manager K
  enrolled_as pid dir origin lims (some msg, k) m =
      warn_once pid (some msg) (record m { kernel = k })
  enrolled_as pid dir origin lims (none, k) m = persist (record m {
    kernel = k;
    enrolled = insert pid (record { dir = dir; origin = origin; limits = some lims }) m.enrolled;
    created_dirs = insert_new dir m.created_dirs;
  })

  unfoldable pub enroll_new : FilePath → ℕ → FilePath → CgroupLimits → Manager K → Manager K
  unfolding enrolled_as
  enroll_new base pid dir lims m =
      let (origin, m') = find_origin base pid m in
      enrolled_as pid dir origin lims (enroll fs pid dir lims m'.kernel) m'

  -- The limits of an enrolled pid's directory are written only where they have changed, or where the
  -- controllers have been set anew.
  unfoldable pub refresh : ℕ → FilePath → CgroupLimits → Enrolled → Manager K → Manager K
  refresh pid dir lims en m =
      if not (has_limits en.limits lims) || m.controllers_reasserted
      then (let written = reporting pid (apply_limits fs dir lims m.kernel) m in
          record written { enrolled = insert pid (record en { limits = some lims }) m.enrolled })
      else m

  pub sync_enrolled :
      FilePath → ℕ → FilePath → CgroupLimits → Option Enrolled → Manager K → Manager K
  unfolding enroll_new
  sync_enrolled base pid dir lims none m = enroll_new base pid dir lims m
  sync_enrolled base pid dir lims (some en) m =
      if en.dir == dir
      then refresh pid dir lims en m
      else enroll_new base pid dir lims (unenroll pid m)

  pub sync_at : Option FilePath → ℕ → Text → Option CgroupLimits → Manager K → Manager K
  unfolding sync_enrolled
  sync_at none pid key none m = m
  sync_at none pid key (some lims) m = warn_key (key ++ (codes ":" ++ fs.debug_limits lims)) m
  sync_at (some base) pid key none m = unenroll pid m
  sync_at (some base) pid key (some lims) m =
      sync_enrolled base pid (dir_for base key lims) lims (get pid m.enrolled) m

  unfoldable pub sync_pid : ℕ → Text → Option CgroupLimits → Manager K → Manager K
  unfolding sync_at
  sync_pid pid key limits m = sync_at m.base pid key limits m

  unfoldable pub is_capped : ℕ → Manager K → Bool
  is_capped pid m = is_some (get pid m.enrolled)

  asserted : FilePath → Bool → Done K → Manager K → Manager K
  asserted path had_cpu (some e, k) m =
      warn_key (codes "subtree:" ++ fs.debug_path path) (record m { kernel = k })
  asserted path had_cpu (none, k) m = record m {
    kernel = k;
    controllers_reasserted = if had_cpu then m.controllers_reasserted else true;
  }

  controllers_at : Option FilePath → Manager K → Manager K
  unfolding asserted
  controllers_at none m = m
  controllers_at (some base) m =
      let path = join base (codes "cgroup.subtree_control") in
      let names = split_whitespace (or_empty (fs.read_to_string path m.kernel)) in
      asserted path (any (λ c. c == codes "cpu") names)
        (fs.write path (codes "+cpu +memory +pids") m.kernel) m

  unfoldable pub ensure_controllers : Manager K → Manager K
  unfolding controllers_at
  ensure_controllers m = controllers_at m.base m

  abbrev pub clear_controllers_reasserted : Manager K → Manager K
  clear_controllers_reasserted m = record m { controllers_reasserted = false }

  unfoldable pub unenroll_all : List ℕ → Manager K → Manager K
  unenroll_all [] m = m
  unenroll_all (pid ∷ pids) m = unenroll_all pids (unenroll pid m)

  pub drop_state : Option FilePath → Manager K → Manager K
  drop_state none m = m
  drop_state (some path) m = record m { kernel = ignored (fs.remove_file path m.kernel) }

  unfoldable pub shutdown : Manager K → Manager K
  unfolding drop_state
  shutdown m = drop_state m.state_path (unenroll_all (keys m.enrolled) m)
