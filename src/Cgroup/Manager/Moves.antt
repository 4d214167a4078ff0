-- ===== src/Cgroup/Manager/Moves.antt =====
-- Which directory a process is in after the steps of the cgroup manager (daemon/src/applier.rs).
use nicewatch.Prelude.{
  ℕ, nat_eq, ◌≡◌, inl, inr, refl, sym, ap, ◌∙◌, Bool, true, false, [], ◌∷◌, Option, none, some,
  ◌==◌, Bool-cases,
}
use mathlib.Core.Path.{subst}
use nicewatch.Prelude.Text.{Text, text_eq, codes}
use nicewatch.Prelude.Scan.Numbers.{show}
use nicewatch.Prelude.Paths.{FilePath, path_eq}
use nicewatch.Prelude.Maps.{get, remove}
use nicewatch.Config.{CgroupLimits}
use nicewatch.Cgroup.{Done, Fs, labelled, and_then, apply_limits, procs_of, move_pid, enroll}
use nicewatch.Cgroup.Manager.{
  persist, persist_at, prune_dir, pruned, or_prune_all, ignored, release, unenroll, place,
}
use nicewatch.Cgroup.Manager.State.{Manager, Enrolled, blank_text, reporting}

abbrev pub is_procs : FilePath → Bool
is_procs [] = false
is_procs (c ∷ p) = c == codes "cgroup.procs"

abbrev pub is_procs_path : Option FilePath → Bool
is_procs_path none = false
is_procs_path (some p) = is_procs p

-- What cgroupfs documents of moves: a pid that is written to the list of a directory moves there;
-- the write of nothing moves no process, nor does the removal of a directory or any other write.
pub record IsCgroupFs {K : Type 0} (fs : Fs K) : Type 0 where
  pub moved :
      (pid : ℕ) (dir : FilePath) (k : K)
      → (fs.write (procs_of dir) (show pid) k).0 ≡ none
      → place fs pid (fs.write (procs_of dir) (show pid) k).1 ≡ dir
  pub cleared :
      (pid : ℕ) (dir : FilePath) (k : K)
      → place fs pid (fs.write (procs_of dir) [] k).1 ≡ place fs pid k
  pub removed :
      (pid : ℕ) (dir : FilePath) (k : K) → place fs pid (fs.remove_dir dir k).1 ≡ place fs pid k
  pub removed_all :
      (pid : ℕ) (dir : FilePath) (k : K) → place fs pid (fs.remove_dir_all dir k).1 ≡ place fs pid k
  pub written :
      (pid : ℕ) (path : FilePath) (text : Text) (k : K)
      → is_procs path ≡ false
      → place fs pid (fs.write path text k).1 ≡ place fs pid k

pub no_error : {e : Text} → some e ≡ none → ⊥
no_error h = cc

module _ {K : Type 0} (fs : Fs K) (laws : IsCgroupFs fs) (pid : ℕ) where
  pub pruned-place :
      (dir : FilePath) (d : Done K) (m : Manager K) → (pruned fs dir d m).1.kernel ≡ d.1
  pruned-place dir (none, k) m = refl
  pruned-place dir (some e, k) m = refl

  or_prune_all-place :
      (dir : FilePath) (r : Bool × Manager K)
      → place fs pid (or_prune_all fs dir r).kernel ≡ place fs pid r.1.kernel
  or_prune_all-place dir (true, m) = refl
  or_prune_all-place dir (false, m) =
      ap (place fs pid) (pruned-place dir (fs.remove_dir_all dir m.kernel) m)
      ∙ laws.removed_all pid dir m.kernel

  pub prune_dir-place :
      (dir : FilePath) (m : Manager K)
      → place fs pid (prune_dir fs dir m).kernel ≡ place fs pid m.kernel
  unfolding prune_dir
  prune_dir-place dir m =
      let k = ignored fs (fs.write (procs_of dir) [] m.kernel) in
      let d = fs.remove_dir dir k in
      elim (Bool-cases (blank_text (fs.read_to_string (procs_of dir) k))) [
        | inl empty ↦ rw empty (
            or_prune_all-place dir (pruned fs dir d m)
            ∙ ap (place fs pid) (pruned-place dir d m)
            ∙ laws.removed pid dir k
            ∙ laws.cleared pid dir m.kernel)
        | inr full ↦ rw full (laws.cleared pid dir m.kernel)
      ]

  pub persist-place :
      (path : Option FilePath) (m : Manager K)
      → is_procs_path path ≡ false
      → place fs pid (persist_at fs path m).kernel ≡ place fs pid m.kernel
  unfolding persist_at
  persist-place none m p = refl
  persist-place (some path) m p = laws.written pid path _ m.kernel p

  pub labelled-kernel : (path : FilePath) (d : Done K) → (labelled fs path d).1 ≡ d.1
  labelled-kernel path (none, k) = refl
  labelled-kernel path (some e, k) = refl

  labelled_ok : (path : FilePath) (d : Done K) → (labelled fs path d).0 ≡ none → d.0 ≡ none
  labelled_ok path (none, k) h = refl
  labelled_ok path (some e, k) h = cc

  move_pid-place :
      (dir : FilePath) (k : K)
      → (move_pid fs pid dir k).0 ≡ none
      → place fs pid (move_pid fs pid dir k).1 ≡ dir
  unfolding move_pid
  move_pid-place dir k ok =
      let d = fs.write (procs_of dir) (show pid) k in
      ap (place fs pid) (labelled-kernel (procs_of dir) d)
      ∙ laws.moved pid dir k (labelled_ok (procs_of dir) d ok)

  pub reporting-kernel : (d : Done K) (m : Manager K) → (reporting pid d m).kernel ≡ d.1
  reporting-kernel (none, k) m = refl
  reporting-kernel (some e, k) m = refl

  reporting-state : (d : Done K) (m : Manager K) → (reporting pid d m).state_path ≡ m.state_path
  reporting-state (none, k) m = refl
  reporting-state (some e, k) m = refl

  pruned-state :
      (dir : FilePath) (d : Done K) (m : Manager K)
      → (pruned fs dir d m).1.state_path ≡ m.state_path
  pruned-state dir (none, k) m = refl
  pruned-state dir (some e, k) m = refl

  or_prune_all-state :
      (dir : FilePath) (r : Bool × Manager K) → (or_prune_all fs dir r).state_path ≡ r.1.state_path
  or_prune_all-state dir (true, m) = refl
  or_prune_all-state dir (false, m) = pruned-state dir (fs.remove_dir_all dir m.kernel) m

  prune_dir-state :
      (dir : FilePath) (m : Manager K) → (prune_dir fs dir m).state_path ≡ m.state_path
  unfolding prune_dir
  prune_dir-state dir m =
      let k = ignored fs (fs.write (procs_of dir) [] m.kernel) in
      let d = fs.remove_dir dir k in
      elim (Bool-cases (blank_text (fs.read_to_string (procs_of dir) k))) [
        | inl empty ↦ rw empty (or_prune_all-state dir (pruned fs dir d m) ∙ pruned-state dir d m)
        | inr full ↦ rw full refl
      ]

  release-place :
      (en : Enrolled) (m : Manager K)
      → (move_pid fs pid en.origin m.kernel).0 ≡ none
      → is_procs_path m.state_path ≡ false
      → place fs pid (release fs pid (some en) m).kernel ≡ en.origin
  unfolding release persist
  release-place en m ok p =
      let d = move_pid fs pid en.origin m.kernel in
      let gone : Manager K = record m { enrolled = remove pid m.enrolled } in
      let moved = reporting pid d gone in
      let left = prune_dir fs en.dir moved in
      let same = prune_dir-state en.dir moved ∙ reporting-state d gone in
      persist-place left.state_path left (ap is_procs_path same ∙ p)
      ∙ (prune_dir-place en.dir moved
          ∙ (ap (place fs pid) (reporting-kernel d gone) ∙ move_pid-place en.origin m.kernel ok))

  pub unenroll-place :
      (en : Enrolled) (m : Manager K)
      → get pid m.enrolled ≡ some en
      → (move_pid fs pid en.origin m.kernel).0 ≡ none
      → is_procs_path m.state_path ≡ false
      → place fs pid (unenroll fs pid m).kernel ≡ en.origin
  unfolding unenroll
  unenroll-place en m e ok p =
      subst (λ (o : Option Enrolled). place fs pid (release fs pid o m).kernel ≡ en.origin) (sym e)
        (release-place en m ok p)

  and_then-done :
      (P : K → Type 0) (d : Done K) (f : K → Done K)
      → ((k : K) → (f k).0 ≡ none → P (f k).1)
      → (and_then fs d f).0 ≡ none
      → P (and_then fs d f).1
  and_then-done P (none, k) f step ok = step k ok
  and_then-done P (some e, k) f step ok = absurd (no_error ok)

  pub enroll-place :
      (dir : FilePath) (lims : CgroupLimits) (k : K)
      → (enroll fs pid dir lims k).0 ≡ none
      → place fs pid (enroll fs pid dir lims k).1 ≡ dir
  unfolding enroll
  enroll-place dir lims k ok =
      let P : K → Type 0 = λ k'. place fs pid k' ≡ dir in
      and_then-done P (labelled fs dir (fs.create_dir_all dir k)) _
        (λ k1.
          and_then-done P (apply_limits fs dir lims k1) (λ k2. move_pid fs pid dir k2)
            (λ k2. move_pid-place dir k2))
        ok
