-- ===== src/Cgroup/Manager/Returning.antt =====
-- Where a process is after its limits are undone (`sync_pid`, daemon/src/applier.rs).
use nicewatch.Prelude.{
  ℕ, nat_eq, ◌≡◌, refl, sym, ap, ◌∙◌, false, Option, none, some, arith, eqb_iff, insert_new,
}
use mathlib.Core.Path.{subst}
use nicewatch.Prelude.Text.{Text, text_eq}
use nicewatch.Prelude.Paths.{FilePath, path_eq}
use nicewatch.Prelude.Maps.{get, insert, get-insert}
use nicewatch.Config.{CgroupLimits}
use nicewatch.Cgroup.{Done, Fs, move_pid, enroll}
use nicewatch.Cgroup.Manager.{
  persist, persist_at, unenroll, place, origin_of, sync_pid, sync_at, sync_enrolled, enroll_new,
  enrolled_as, find_origin, is_managed,
}
use nicewatch.Cgroup.Manager.State.{Manager, Enrolled, dir_for}
use nicewatch.Cgroup.Manager.Moves.{
  IsCgroupFs, is_procs_path, no_error, persist-place, unenroll-place, enroll-place,
}

module _ {K : Type 0} (fs : Fs K) (laws : IsCgroupFs fs) (pid : ℕ) where
  -- What enrolling a process leaves.
  record IsLimited (m m1 : Manager K) (dir : FilePath) : Type 0 where
    there : place fs pid m1.kernel ≡ dir
    entry : (en : Enrolled) × (get pid m1.enrolled ≡ some en) × (en.origin ≡ place fs pid m.kernel)
    same_base : m1.base ≡ m.base
    same_state : m1.state_path ≡ m.state_path

  persist_at-fields :
      (path : Option FilePath) (m : Manager K)
      → ((persist_at fs path m).enrolled ≡ m.enrolled)
        × ((persist_at fs path m).base ≡ m.base)
        × ((persist_at fs path m).state_path ≡ m.state_path)
  unfolding persist_at
  persist_at-fields none m = (refl, refl, refl)
  persist_at-fields (some p) m = (refl, refl, refl)

  enrolled_as-IsLimited :
      (dir : FilePath) (lims : CgroupLimits) (d : Done K) (m : Manager K)
      → d.0 ≡ none
      → place fs pid d.1 ≡ dir
      → is_procs_path m.state_path ≡ false
      → IsLimited m (enrolled_as fs pid dir (place fs pid m.kernel) lims d m) dir
  unfolding enrolled_as persist
  enrolled_as-IsLimited dir lims (some e, k) m ok at p = absurd (no_error ok)
  enrolled_as-IsLimited dir lims (none, k) m ok at p =
      let en : Enrolled = record {
        dir = dir;
        origin = place fs pid m.kernel;
        limits = some lims;
      } in
      let new : Manager K = record m {
        kernel = k;
        enrolled = insert pid en m.enrolled;
        created_dirs = insert_new dir m.created_dirs;
      } in
      let (table, base, state) = persist_at-fields m.state_path new in
      record {
        there = persist-place fs laws pid m.state_path new p ∙ at;
        entry = (
          en,
          ap (get pid) table ∙ (get-insert pid pid en m.enrolled ∙ ground (arith, eqb_iff pid pid)),
          refl,
        );
        same_base = base;
        same_state = state;
      }

  unmanaged_origin :
      (base : FilePath) (m : Manager K)
      → is_managed fs base (origin_of fs pid m) m ≡ false
      → find_origin fs base pid m ≡ (origin_of fs pid m, m)
  unfolding find_origin
  unmanaged_origin base m h = rw h refl

  sync_pid-fresh :
      (base : FilePath) (key : Text) (lims : CgroupLimits) (m : Manager K)
      → m.base ≡ some base
      → get pid m.enrolled ≡ none
      → is_managed fs base (origin_of fs pid m) m ≡ false
      → sync_pid fs pid key (some lims) m
        ≡ enrolled_as fs pid
            (dir_for base key lims)
            (place fs pid m.kernel)
            lims
            (enroll fs pid (dir_for base key lims) lims m.kernel)
            m
  unfolding sync_pid sync_at sync_enrolled enroll_new
  sync_pid-fresh base key lims m b e u =
      let dir = dir_for base key lims in
      ap (λ (o : Option FilePath). sync_at fs o pid key (some lims) m) b
      ∙ (ap (λ (o : Option Enrolled). sync_enrolled fs base pid dir lims o m) e
          ∙ ap
              (λ (f : FilePath × Manager K).
                enrolled_as fs pid dir f.0 lims (enroll fs pid dir lims f.1.kernel) f.1)
              (unmanaged_origin base m u))

  sync_pid-none :
      (base : FilePath) (key : Text) (m : Manager K)
      → m.base ≡ some base
      → sync_pid fs pid key none m ≡ unenroll fs pid m
  unfolding sync_pid sync_at
  sync_pid-none base key m b = ap (λ (o : Option FilePath). sync_at fs o pid key none m) b

  undone :
      (base : FilePath) (key : Text) (m m1 : Manager K) (dir : FilePath)
      → m.base ≡ some base
      → IsLimited m m1 dir
      → (move_pid fs pid (place fs pid m.kernel) m1.kernel).0 ≡ none
      → is_procs_path m.state_path ≡ false
      → place fs pid (sync_pid fs pid key none m1).kernel ≡ place fs pid m.kernel
  undone base key m m1 dir b l back p =
      let (en, e, o) = l.entry in
      ap (λ (x : Manager K). place fs pid x.kernel) (sync_pid-none base key m1 (l.same_base ∙ b))
      ∙ (unenroll-place fs laws pid en m1 e
            (subst (λ (q : FilePath). (move_pid fs pid q m1.kernel).0 ≡ none) (sym o) back)
            (ap is_procs_path l.same_state ∙ p)
          ∙ o)

  -- Limits take hold and are undone: a process that is in no managed directory is moved into the
  -- directory of its rule, and once the rule asks for no limits any more it is moved back to where
  -- it was, where the kernel accepts the operations.
  pub limits_undone :
      (base : FilePath) (key : Text) (lims : CgroupLimits) (m : Manager K)
      → m.base ≡ some base
      → get pid m.enrolled ≡ none
      → is_managed fs base (origin_of fs pid m) m ≡ false
      → is_procs_path m.state_path ≡ false
      → (enroll fs pid (dir_for base key lims) lims m.kernel).0 ≡ none
      → (move_pid fs pid (place fs pid m.kernel) (sync_pid fs pid key (some lims) m).kernel).0
        ≡ none
      → (place fs pid (sync_pid fs pid key (some lims) m).kernel ≡ dir_for base key lims)
        × (place fs pid (sync_pid fs pid key none (sync_pid fs pid key (some lims) m)).kernel
            ≡ place fs pid m.kernel)
  limits_undone base key lims m b e u p ok back =
      let dir = dir_for base key lims in
      let l =
        subst (λ (x : Manager K). IsLimited m x dir) (sym (sync_pid-fresh base key lims m b e u))
          (enrolled_as-IsLimited dir lims (enroll fs pid dir lims m.kernel) m ok
            (enroll-place fs laws pid dir lims m.kernel ok) p) in
      (l.there, undone base key m (sync_pid fs pid key (some lims) m) dir b l back p)
