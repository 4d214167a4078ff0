-- ===== src/Cgroup/Manager/Enrolment.antt =====
-- Which pids the cgroup manager has enrolled (daemon/src/applier.rs).
use nicewatch.Prelude.{
  ℕ, nat_eq, ◌≡◌, ◌≢◌, inl, inr, refl, ap, sym, ◌∙◌, Bool, true, false, ◌||◌, not, [], Option, none,
  some, arith, if◌then◌else◌, eqb, eqb_iff, ◌==◌, eq_refl, Bool-cases, Option-cases,
}
use nicewatch.Prelude.Text.{Text, text_eq}
use nicewatch.Prelude.Paths.{FilePath, path_eq}
use nicewatch.Prelude.Maps.{get, insert, remove, get-insert, get-remove}
use nicewatch.Config.{CgroupLimits}
use nicewatch.Cgroup.{Done, Fs, procs_of, move_pid, enroll}
use nicewatch.Cgroup.Manager.{
  persist, prune_dir, release, unenroll, refresh, enroll_new, enrolled_as, find_origin, is_managed,
  origin_of, persisted_origin, or_saved, persist_at, pruned, or_prune_all,
}
use nicewatch.Cgroup.Manager.State.{
  same_option, same_flag, Manager, Enrolled, has_limits, same_limits, reporting, blank_text,
}

same_texts : (o : Option Text) → same_option (λ x y. x == y) o o ≡ true
unfolding same_option
same_texts none = refl
same_texts (some t) = eq_refl t

same_numbers : (o : Option ℕ) → same_option eqb o o ≡ true
unfolding same_option
same_numbers none = refl
same_numbers (some n) = ground arith

same_flags : (o : Option Bool) → same_option same_flag o o ≡ true
unfolding same_option same_flag
same_flags none = refl
same_flags (some true) = refl
same_flags (some false) = refl

same_limits_refl : (l : CgroupLimits) → same_limits l l ≡ true
unfolding same_limits
same_limits_refl l = ground (
  arith,
  same_texts l.path,
  same_numbers l.cpu_weight,
  same_numbers l.cpu_cap_percent,
  same_texts l.memory_high,
  same_texts l.memory_max,
  same_flags l.cpu_idle,
)

module _ {K : Type 0} (fs : Fs K) where
  pub persist-enrolled : (m : Manager K) → (persist fs m).enrolled ≡ m.enrolled
  unfolding persist persist_at
  persist-enrolled m = elim (Option-cases m.state_path) [
    | inl e ↦ rw e refl
    | inr (p, e) ↦ rw e refl
  ]

  pruned-enrolled :
      (dir : FilePath) (d : Done K) (m : Manager K) → (pruned fs dir d m).1.enrolled ≡ m.enrolled
  pruned-enrolled dir (none, k) m = refl
  pruned-enrolled dir (some e, k) m = refl

  or_prune_all-enrolled :
      (dir : FilePath) (r : Bool × Manager K) → (or_prune_all fs dir r).enrolled ≡ r.1.enrolled
  or_prune_all-enrolled dir (true, m) = refl
  or_prune_all-enrolled dir (false, m) = pruned-enrolled dir (fs.remove_dir_all dir m.kernel) m

  pub prune_dir-enrolled :
      (dir : FilePath) (m : Manager K) → (prune_dir fs dir m).enrolled ≡ m.enrolled
  unfolding prune_dir
  prune_dir-enrolled dir m =
      let k = (fs.write (procs_of dir) [] m.kernel).1 in
      let d = fs.remove_dir dir k in
      elim (Bool-cases (blank_text (fs.read_to_string (procs_of dir) k))) [
        | inl empty ↦
            rw empty (or_prune_all-enrolled dir (pruned fs dir d m) ∙ pruned-enrolled dir d m)
        | inr full ↦ rw full refl
      ]

  pub reporting-enrolled :
      (pid : ℕ) (d : Done K) (m : Manager K) → (reporting pid d m).enrolled ≡ m.enrolled
  reporting-enrolled pid (none, k) m = refl
  reporting-enrolled pid (some msg, k) m = refl

  pub release-enrolled :
      (pid : ℕ) (en : Enrolled) (m : Manager K)
      → (release fs pid (some en) m).enrolled ≡ remove pid m.enrolled
  unfolding release
  release-enrolled pid en m =
      let gone : Manager K = record m { enrolled = remove pid m.enrolled } in
      let moved = reporting pid (move_pid fs pid en.origin m.kernel) gone in
      persist-enrolled (prune_dir fs en.dir moved)
      ∙ prune_dir-enrolled en.dir moved
      ∙ reporting-enrolled pid (move_pid fs pid en.origin m.kernel) gone

  -- Unenrolling takes the pid away and leaves the others.
  pub unenroll-get :
      (pid other : ℕ) (m : Manager K)
      → get other (unenroll fs pid m).enrolled
        ≡ (if pid == other then none else get other m.enrolled)
  unfolding unenroll release
  unenroll-get pid other m = elim (Option-cases (get pid m.enrolled)) [
    | inl e ↦ rw e (ground (arith, eqb_iff pid other, e))
    | inr (en, e) ↦
        rw e (ap (get other) (release-enrolled pid en m) ∙ get-remove pid other m.enrolled)
  ]

  -- What syncing a pid to limits may leave of its enrolment: one in the directory with exactly these
  -- limits, or none, where the given kernel refuses to enrol it.
  abbrev pub IsSynced : ℕ → FilePath → CgroupLimits → K → Option Enrolled → Type 0
  IsSynced pid dir lims k none = (msg : Text) × ((enroll fs pid dir lims k).0 ≡ some msg)
  IsSynced pid dir lims k (some en) = (en.dir ≡ dir) × (has_limits en.limits lims ≡ true)

  or_saved-enrolled :
      (pid : ℕ) (origin : FilePath) (saved : Option FilePath) (m : Manager K)
      → (or_saved fs pid origin saved m).1.enrolled ≡ m.enrolled
  or_saved-enrolled pid origin none m = refl
  or_saved-enrolled pid origin (some p) m = refl

  find_origin-enrolled :
      (base : FilePath) (pid : ℕ) (m : Manager K)
      → (find_origin fs base pid m).1.enrolled ≡ m.enrolled
  unfolding find_origin
  find_origin-enrolled base pid m = elim (Bool-cases (is_managed fs base (origin_of fs pid m) m)) [
    | inl managed ↦
        rw managed (or_saved-enrolled pid (origin_of fs pid m) (persisted_origin fs pid m) m)
    | inr other ↦ rw other refl
  ]

  enrolled_as-get :
      (pid other : ℕ) (dir origin : FilePath) (lims : CgroupLimits) (d : Done K) (m : Manager K)
      → pid ≢ other
      → get other (enrolled_as fs pid dir origin lims d m).enrolled ≡ get other m.enrolled
  unfolding enrolled_as
  enrolled_as-get pid other dir origin lims (some msg, k) m n = refl
  enrolled_as-get pid other dir origin lims (none, k) m n =
      ap (get other) (persist-enrolled _)
      ∙ (get-insert pid other _ m.enrolled ∙ ground (arith, eqb_iff pid other))

  enrolled_as-IsSynced :
      (pid : ℕ) (dir origin : FilePath) (lims : CgroupLimits) (k0 : K) (d : Done K) (m : Manager K)
      → (enroll fs pid dir lims k0).0 ≡ d.0
      → get pid m.enrolled ≡ none
      → IsSynced pid dir lims k0 (get pid (enrolled_as fs pid dir origin lims d m).enrolled)
  unfolding enrolled_as
  enrolled_as-IsSynced pid dir origin lims k0 (some msg, k) m r e = rw e (msg, r)
  enrolled_as-IsSynced pid dir origin lims k0 (none, k) m r e =
      let new : Enrolled = record { dir = dir; origin = origin; limits = some lims } in
      let g : get pid (insert pid new m.enrolled) ≡ some new =
        get-insert pid pid new m.enrolled ∙ ground (arith, eqb_iff pid pid) in
      rw (persist-enrolled _, g) (refl, same_limits_refl lims)

  or_saved-kernel :
      (pid : ℕ) (origin : FilePath) (saved : Option FilePath) (m : Manager K)
      → (or_saved fs pid origin saved m).1.kernel ≡ m.kernel
  or_saved-kernel pid origin none m = refl
  or_saved-kernel pid origin (some p) m = refl

  find_origin-kernel :
      (base : FilePath) (pid : ℕ) (m : Manager K) → (find_origin fs base pid m).1.kernel ≡ m.kernel
  unfolding find_origin
  find_origin-kernel base pid m = elim (Bool-cases (is_managed fs base (origin_of fs pid m) m)) [
    | inl managed ↦
        rw managed (or_saved-kernel pid (origin_of fs pid m) (persisted_origin fs pid m) m)
    | inr other ↦ rw other refl
  ]

  pub enroll_new-get :
      (base : FilePath) (pid other : ℕ) (dir : FilePath) (lims : CgroupLimits) (m : Manager K)
      → pid ≢ other
      → get other (enroll_new fs base pid dir lims m).enrolled ≡ get other m.enrolled
  unfolding enroll_new
  enroll_new-get base pid other dir lims m n =
      let (origin, m') = find_origin fs base pid m in
      enrolled_as-get pid other dir origin lims (enroll fs pid dir lims m'.kernel) m' n
      ∙ ap (get other) (find_origin-enrolled base pid m)

  pub enroll_new-IsSynced :
      (base : FilePath) (pid : ℕ) (dir : FilePath) (lims : CgroupLimits) (m : Manager K)
      → get pid m.enrolled ≡ none
      → IsSynced pid dir lims m.kernel (get pid (enroll_new fs base pid dir lims m).enrolled)
  unfolding enroll_new
  enroll_new-IsSynced base pid dir lims m e =
      let (origin, m') = find_origin fs base pid m in
      enrolled_as-IsSynced pid dir origin lims m.kernel (enroll fs pid dir lims m'.kernel) m'
        (ap (λ k. (enroll fs pid dir lims k).0) (sym (find_origin-kernel base pid m)))
        (ap (get pid) (find_origin-enrolled base pid m) ∙ e)

  pub refresh-get :
      (pid other : ℕ) (dir : FilePath) (lims : CgroupLimits) (en : Enrolled) (m : Manager K)
      → pid ≢ other
      → get other (refresh fs pid dir lims en m).enrolled ≡ get other m.enrolled
  unfolding refresh
  refresh-get pid other dir lims en m n =
      elim (Bool-cases (not (has_limits en.limits lims) || m.controllers_reasserted)) [
        | inl write ↦
            rw write (get-insert pid other _ m.enrolled ∙ ground (arith, eqb_iff pid other))
        | inr keep ↦ rw keep refl
      ]

  -- A pid that stays in its directory keeps its origin.
  pub refresh-kept :
      (pid : ℕ) (dir : FilePath) (lims : CgroupLimits) (en : Enrolled) (m : Manager K)
      → get pid m.enrolled ≡ some en
      → (limits : Option CgroupLimits) × (has_limits limits lims ≡ true)
        × (get pid (refresh fs pid dir lims en m).enrolled ≡ some (record en { limits = limits }))
  unfolding refresh
  refresh-kept pid dir lims en m e =
      elim (Bool-cases (not (has_limits en.limits lims) || m.controllers_reasserted)) [
        | inl write ↦ (
          some lims,
          same_limits_refl lims,
          rw write (get-insert pid pid _ m.enrolled ∙ ground (arith, eqb_iff pid pid)),
        )
        | inr keep ↦ (en.limits, ground arith, rw keep e)
      ]
