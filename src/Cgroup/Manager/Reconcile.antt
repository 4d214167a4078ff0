-- ===== src/Cgroup/Manager/Reconcile.antt =====
-- What reconciling a process with its limits leaves enrolled (daemon/src/applier.rs).
use nicewatch.Prelude.{
  ℕ, nat_eq, ◌≡◌, ◌≢◌, inl, inr, refl, sym, ap, ◌∙◌, true, List, [], ◌∷◌, Option, none, some, arith,
  if◌then◌else◌, eqb_iff, ◌==◌, eq_iff, Bool-cases, contains,
}
use mathlib.Core.Path.{subst}
use nicewatch.Prelude.Text.{Text, text_eq}
use nicewatch.Prelude.Paths.{FilePath, path_eq}
use nicewatch.Prelude.Maps.{Map, get, keys, is_some}
use nicewatch.Config.{CgroupLimits}
use nicewatch.Cgroup.{Fs}
use nicewatch.Cgroup.Manager.{
  unenroll, release, enroll_new, refresh, sync_enrolled, sync_at, sync_pid, unenroll_all, shutdown,
  drop_state,
}
use nicewatch.Cgroup.Manager.State.{Manager, Enrolled, has_limits, dir_for}
use nicewatch.Cgroup.Manager.Enrolment.{
  IsSynced, unenroll-get, enroll_new-get, enroll_new-IsSynced, refresh-get, refresh-kept,
}

module _ {K : Type 0} (fs : Fs K) where
  unenrolled : (pid : ℕ) (m : Manager K) → get pid (unenroll fs pid m).enrolled ≡ none
  unenrolled pid m = unenroll-get fs pid pid m ∙ ground (arith, eqb_iff pid pid)

  others_kept :
      (pid other : ℕ) (m : Manager K)
      → pid ≢ other
      → get other (unenroll fs pid m).enrolled ≡ get other m.enrolled
  others_kept pid other m n = unenroll-get fs pid other m ∙ ground (arith, eqb_iff pid other)

  not_enrolled : (pid : ℕ) (m : Manager K) → get pid m.enrolled ≡ none → unenroll fs pid m ≡ m
  unfolding unenroll release
  not_enrolled pid m e = rw e refl

  sync_enrolled-get :
      (base : FilePath) (pid other : ℕ) (dir : FilePath) (lims : CgroupLimits)
      (already : Option Enrolled) (m : Manager K)
      → pid ≢ other
      → get other (sync_enrolled fs base pid dir lims already m).enrolled ≡ get other m.enrolled
  unfolding sync_enrolled
  sync_enrolled-get base pid other dir lims none m n = enroll_new-get fs base pid other dir lims m n
  sync_enrolled-get base pid other dir lims (some en) m n = elim (Bool-cases (en.dir == dir)) [
    | inl same ↦ rw same (refresh-get fs pid other dir lims en m n)
    | inr moves ↦ rw moves (
        enroll_new-get fs base pid other dir lims (unenroll fs pid m) n ∙ others_kept pid other m n)
  ]

  refresh-IsSynced :
      (k : K) (pid : ℕ) (dir : FilePath) (lims : CgroupLimits) (en : Enrolled) (m : Manager K)
      → get pid m.enrolled ≡ some en
      → en.dir ≡ dir
      → IsSynced fs pid dir lims k (get pid (refresh fs pid dir lims en m).enrolled)
  refresh-IsSynced k pid dir lims en m e d =
      let (limits, h, g) = refresh-kept fs pid dir lims en m e in rw g (d, h)

  sync_enrolled-IsSynced :
      (base : FilePath) (pid : ℕ) (dir : FilePath) (lims : CgroupLimits) (already : Option Enrolled)
      (m : Manager K)
      → get pid m.enrolled ≡ already
      → IsSynced fs pid dir lims
          (unenroll fs pid m).kernel
          (get pid (sync_enrolled fs base pid dir lims already m).enrolled)
  unfolding sync_enrolled
  sync_enrolled-IsSynced base pid dir lims none m e =
      subst
        (λ (x : Manager K).
          IsSynced fs pid dir lims x.kernel (get pid (enroll_new fs base pid dir lims m).enrolled))
        (sym (not_enrolled pid m e)) (enroll_new-IsSynced fs base pid dir lims m e)
  sync_enrolled-IsSynced base pid dir lims (some en) m e = elim (Bool-cases (en.dir == dir)) [
    | inl same ↦ rw same (
        refresh-IsSynced (unenroll fs pid m).kernel pid dir lims en m e
          ((eq_iff en.dir dir).0 same))
    | inr moves ↦
        rw moves (enroll_new-IsSynced fs base pid dir lims (unenroll fs pid m) (unenrolled pid m))
  ]

  -- What syncing a pid leaves of its enrolment, by the limits that its rule asks for and the kernel
  -- that may refuse them.
  unfoldable pub IsReconciled :
      FilePath → ℕ → Text → Option CgroupLimits → K → Option Enrolled → Type 0
  IsReconciled base pid key none k after = after ≡ none
  IsReconciled base pid key (some lims) k after =
      IsSynced fs pid (dir_for base key lims) lims k after

  sync_at-reconciles :
      (base : FilePath) (pid other : ℕ) (key : Text) (limits : Option CgroupLimits) (m : Manager K)
      → pid ≢ other
      → (get other (sync_at fs (some base) pid key limits m).enrolled ≡ get other m.enrolled)
        × IsReconciled base pid key limits
            (unenroll fs pid m).kernel
            (get pid (sync_at fs (some base) pid key limits m).enrolled)
  unfolding sync_at IsReconciled
  sync_at-reconciles base pid other key none m n = (others_kept pid other m n, unenrolled pid m)
  sync_at-reconciles base pid other key (some lims) m n = (
    sync_enrolled-get base pid other (dir_for base key lims) lims (get pid m.enrolled) m n,
    sync_enrolled-IsSynced base pid (dir_for base key lims) lims (get pid m.enrolled) m refl,
  )

  -- With a base, syncing a pid to no limits leaves it not enrolled, and syncing it to limits leaves
  -- it enrolled in the directory of its rule with exactly those limits, whatever it was enrolled in
  -- before, or not enrolled where the kernel, as it is once the pid is taken out of an earlier
  -- enrolment, refuses to enrol it; the enrolment of every other pid is as it was.
  pub sync_pid_reconciles :
      (base : FilePath) (pid other : ℕ) (key : Text) (limits : Option CgroupLimits) (m : Manager K)
      → m.base ≡ some base
      → pid ≢ other
      → (get other (sync_pid fs pid key limits m).enrolled ≡ get other m.enrolled)
        × IsReconciled base pid key limits
            (unenroll fs pid m).kernel
            (get pid (sync_pid fs pid key limits m).enrolled)
  unfolding sync_pid
  sync_pid_reconciles base pid other key limits m b n =
      subst
        (λ (o : Option FilePath).
          (get other (sync_at fs o pid key limits m).enrolled ≡ get other m.enrolled)
          × IsReconciled base pid key limits (unenroll fs pid m).kernel
              (get pid (sync_at fs o pid key limits m).enrolled))
        (sym b) (sync_at-reconciles base pid other key limits m n)

  -- The pid's entry, with limits that are those asked for.
  abbrev pub IsRefreshed : CgroupLimits → Enrolled → Option Enrolled → Type 0
  IsRefreshed lims en after =
      (limits : Option CgroupLimits) × (has_limits limits lims ≡ true)
      × (after ≡ some (record en { limits = limits }))

  sync_enrolled-IsRefreshed :
      (base : FilePath) (pid : ℕ) (dir : FilePath) (lims : CgroupLimits) (en : Enrolled)
      (m : Manager K)
      → get pid m.enrolled ≡ some en
      → en.dir ≡ dir
      → IsRefreshed lims en (get pid (sync_enrolled fs base pid dir lims (some en) m).enrolled)
  unfolding sync_enrolled
  sync_enrolled-IsRefreshed base pid dir lims en m e d =
      rw ((eq_iff en.dir dir).1 d) (refresh-kept fs pid dir lims en m e)

  -- A pid whose rule keeps its directory keeps the origin that it is to go back to, also where its
  -- limits have changed.
  pub sync_pid_origin :
      (base : FilePath) (pid : ℕ) (key : Text) (lims : CgroupLimits) (en : Enrolled) (m : Manager K)
      → m.base ≡ some base
      → get pid m.enrolled ≡ some en
      → en.dir ≡ dir_for base key lims
      → IsRefreshed lims en (get pid (sync_pid fs pid key (some lims) m).enrolled)
  unfolding sync_pid sync_at
  sync_pid_origin base pid key lims en m b e d =
      let dir = dir_for base key lims in
      subst
        (λ (o : Option FilePath).
          IsRefreshed lims en (get pid (sync_at fs o pid key (some lims) m).enrolled))
        (sym b)
        (subst
          (λ (o : Option Enrolled).
            IsRefreshed lims en (get pid (sync_enrolled fs base pid dir lims o m).enrolled))
          (sym e) (sync_enrolled-IsRefreshed base pid dir lims en m e d))

  unenroll_all-get :
      (pids : List ℕ) (pid : ℕ) (m : Manager K)
      → get pid (unenroll_all fs pids m).enrolled
        ≡ (if contains pids pid then none else get pid m.enrolled)
  unfolding unenroll_all contains
  unenroll_all-get [] pid m = refl
  unenroll_all-get (p ∷ pids) pid m =
      ground (arith, unenroll_all-get pids pid (unenroll fs p m), unenroll-get fs p pid m)

  drop_state-enrolled :
      (path : Option FilePath) (m : Manager K) → (drop_state fs path m).enrolled ≡ m.enrolled
  unfolding drop_state
  drop_state-enrolled none m = refl
  drop_state-enrolled (some p) m = refl

  contains-keys :
      {V : Type 0} → (m : Map ℕ V) (pid : ℕ) → contains (keys m) pid ≡ is_some (get pid m)
  unfolding contains keys get
  contains-keys [] pid = refl
  contains-keys ((p, v) ∷ m) pid = ground (arith, contains-keys m pid)

  all_gone : (o : Option Enrolled) → (if is_some o then none else o) ≡ none
  all_gone none = refl
  all_gone (some en) = refl

  -- A shutdown leaves no pid enrolled.
  pub shutdown_releases : (pid : ℕ) (m : Manager K) → get pid (shutdown fs m).enrolled ≡ none
  unfolding shutdown
  shutdown_releases pid m =
      let rest = unenroll_all fs (keys m.enrolled) m in
      ap (get pid) (drop_state-enrolled m.state_path rest)
      ∙ (unenroll_all-get (keys m.enrolled) pid m
          ∙ rw (contains-keys m.enrolled pid) (all_gone (get pid m.enrolled)))
