-- ===== src/Cgroup/Manager/Sweep.antt =====
-- Which processes the sweep leaves where they are (`sweep_strays`, daemon/src/applier.rs).
use nicewatch.Prelude.{
  ℕ, nat_eq, ◌≡◌, ◌≢◌, refl, sym, ap, ◌∙◌, Bool, true, false, ◌||◌, not, List, [], ◌∷◌, Option,
  none, some, contains, insert_new, arith, Bool-cases, inl, inr,
}
use nicewatch.Prelude.Text.{Text, codes, starts_with}
use nicewatch.Prelude.Scan.{trim, lines}
use nicewatch.Prelude.Scan.Numbers.{show, parse_u32}
use nicewatch.Prelude.Paths.{FilePath, path_eq, join}
use nicewatch.Prelude.Maps.{contains_key}
use nicewatch.Proc.{comm_of}
use nicewatch.Cgroup.{Fs, procs_of, move_pid, labelled}
use nicewatch.Cgroup.Manager.{prune_dir, pruned, or_prune_all, ignored, place}
use nicewatch.Cgroup.Manager.State.{Manager, reporting, blank_text}
use nicewatch.Cgroup.Manager.Moves.{
  IsCgroupFs, prune_dir-place, pruned-place, labelled-kernel, reporting-kernel,
}
use nicewatch.Cgroup.Manager.Enrolment.{prune_dir-enrolled, reporting-enrolled}
use nicewatch.Cgroup.Manager.Recovery.{
  is_critical, lives_in, park, park_line, park_lines, sweep_dir, sweep_dirs, adopt, adopt_listed,
  sweep_at, sweep_strays,
}

-- What else the kernel documents, for one process: the write of another pid does not move it, nor
-- does the making of a directory, and no operation on cgroupfs changes what /proc says of its name.
pub record IsSteady {K : Type 0} (fs : Fs K) (pid : ℕ) : Type 0 where
  pub others :
      (q : ℕ) (dir : FilePath) (k : K)
      → q ≢ pid
      → place fs pid (fs.write (procs_of dir) (show q) k).1 ≡ place fs pid k
  pub created : (dir : FilePath) (k : K) → place fs pid (fs.create_dir_all dir k).1 ≡ place fs pid k
  pub named :
      (path : FilePath) (text : Text) (k : K)
      → comm_of (fs.proc_stat pid (fs.write path text k).1) ≡ comm_of (fs.proc_stat pid k)
  pub named_created :
      (dir : FilePath) (k : K)
      → comm_of (fs.proc_stat pid (fs.create_dir_all dir k).1) ≡ comm_of (fs.proc_stat pid k)
  pub named_removed :
      (dir : FilePath) (k : K)
      → comm_of (fs.proc_stat pid (fs.remove_dir dir k).1) ≡ comm_of (fs.proc_stat pid k)
  pub named_removed_all :
      (dir : FilePath) (k : K)
      → comm_of (fs.proc_stat pid (fs.remove_dir_all dir k).1) ≡ comm_of (fs.proc_stat pid k)

module _ {K : Type 0} (fs : Fs K) (laws : IsCgroupFs fs) (pid : ℕ) (steady : IsSteady fs pid) where
  -- An enrolled process, or one that the desktop depends on.
  abbrev pub is_protected : Manager K → Bool
  is_protected m = contains_key pid m.enrolled || is_critical (comm_of (fs.proc_stat pid m.kernel))

  record IsKept (m m' : Manager K) : Type 0 where
    at_place : place fs pid m'.kernel ≡ place fs pid m.kernel
    enrolled_same : m'.enrolled ≡ m.enrolled
    stat_same : comm_of (fs.proc_stat pid m'.kernel) ≡ comm_of (fs.proc_stat pid m.kernel)

  kept : (m : Manager K) → IsKept m m
  kept m = record { at_place = refl; enrolled_same = refl; stat_same = refl }

  kept_twice : (a b c : Manager K) → IsKept a b → IsKept b c → IsKept a c
  kept_twice a b c f g = record {
    at_place = g.at_place ∙ f.at_place;
    enrolled_same = g.enrolled_same ∙ f.enrolled_same;
    stat_same = g.stat_same ∙ f.stat_same;
  }

  protected_same : (m m' : Manager K) → IsKept m m' → is_protected m' ≡ is_protected m
  protected_same m m' v = rw v.enrolled_same (rw v.stat_same refl)

  or_prune_all-stat :
      (dir : FilePath) (r : Bool × Manager K)
      → comm_of (fs.proc_stat pid (or_prune_all fs dir r).kernel)
        ≡ comm_of (fs.proc_stat pid r.1.kernel)
  or_prune_all-stat dir (true, m) = refl
  or_prune_all-stat dir (false, m) =
      ap (λ (k : K). comm_of (fs.proc_stat pid k))
        (pruned-place fs laws pid dir (fs.remove_dir_all dir m.kernel) m)
      ∙ steady.named_removed_all dir m.kernel

  prune_dir-stat :
      (dir : FilePath) (m : Manager K)
      → comm_of (fs.proc_stat pid (prune_dir fs dir m).kernel) ≡ comm_of (fs.proc_stat pid m.kernel)
  unfolding prune_dir
  prune_dir-stat dir m =
      let k = ignored fs (fs.write (procs_of dir) [] m.kernel) in
      let d = fs.remove_dir dir k in
      let cleared = steady.named (procs_of dir) [] m.kernel in
      elim (Bool-cases (blank_text (fs.read_to_string (procs_of dir) k))) [
        | inl empty ↦ rw empty (
            or_prune_all-stat dir (pruned fs dir d m)
            ∙ ap (λ (k : K). comm_of (fs.proc_stat pid k)) (pruned-place fs laws pid dir d m)
            ∙ steady.named_removed dir k
            ∙ cleared)
        | inr full ↦ rw full cleared
      ]

  prune_dir-IsKept : (dir : FilePath) (m : Manager K) → IsKept m (prune_dir fs dir m)
  prune_dir-IsKept dir m = record {
    at_place = prune_dir-place fs laws pid dir m;
    enrolled_same = prune_dir-enrolled fs dir m;
    stat_same = prune_dir-stat dir m;
  }

  -- Another process is moved.
  moved-IsKept :
      (q : ℕ) (stray_dir : FilePath) (m : Manager K)
      → q ≢ pid
      → let k = ignored fs (fs.create_dir_all stray_dir m.kernel) in
        IsKept m (reporting q (move_pid fs q stray_dir k) (record m { kernel = k }))
  unfolding move_pid
  moved-IsKept q stray_dir m other =
      let k = ignored fs (fs.create_dir_all stray_dir m.kernel) in
      let d = fs.write (procs_of stray_dir) (show q) k in
      let at : (reporting q (labelled fs (procs_of stray_dir) d) (record m { kernel = k })).kernel
          ≡ d.1 =
        reporting-kernel fs laws q (labelled fs (procs_of stray_dir) d) (record m { kernel = k })
        ∙ labelled-kernel fs laws q (procs_of stray_dir) d in
      record {
        at_place =
            ap (place fs pid) at
            ∙ (steady.others q stray_dir k other ∙ steady.created stray_dir m.kernel);
        enrolled_same =
            reporting-enrolled fs q (labelled fs (procs_of stray_dir) d) (record m { kernel = k });
        stat_same =
            ap (λ (k : K). comm_of (fs.proc_stat pid k)) at
            ∙ (steady.named (procs_of stray_dir) (show q) k
                ∙ steady.named_created stray_dir m.kernel);
      }

  -- The test of the sweep.
  abbrev is_passed : Manager K → FilePath → ℕ → Bool
  is_passed m dir q =
      contains_key q m.enrolled
      || not (lives_in fs dir q m.kernel)
      || is_critical (comm_of (fs.proc_stat q m.kernel))

  not_taken :
      (m : Manager K) (dir : FilePath) (q : ℕ)
      → is_protected m ≡ true
      → is_passed m dir q ≡ false
      → q ≢ pid
  not_taken m dir q p taken e = ground (arith, p, sym (ap (is_passed m dir) e) ∙ taken)

  park-IsKept :
      (stray_dir dir : FilePath) (q : ℕ) (m : Manager K)
      → is_protected m ≡ true
      → IsKept m (park fs stray_dir dir q m)
  unfolding park
  park-IsKept stray_dir dir q m p = elim (Bool-cases (is_passed m dir q)) [
    | inl passed ↦ rw passed (kept m)
    | inr taken ↦ rw taken (moved-IsKept q stray_dir m (not_taken m dir q p taken))
  ]

  park_line-IsKept :
      (stray_dir dir : FilePath) (q : Option ℕ) (m : Manager K)
      → is_protected m ≡ true
      → IsKept m (park_line fs stray_dir dir q m)
  unfolding park_line
  park_line-IsKept stray_dir dir none m p = kept m
  park_line-IsKept stray_dir dir (some q) m p = park-IsKept stray_dir dir q m p

  park_lines-IsKept :
      (stray_dir dir : FilePath) (ls : List Text) (m : Manager K)
      → is_protected m ≡ true
      → IsKept m (park_lines fs stray_dir dir ls m)
  unfolding park_lines
  park_lines-IsKept stray_dir dir [] m p = kept m
  park_lines-IsKept stray_dir dir (l ∷ ls) m p =
      let first = park_line-IsKept stray_dir dir (parse_u32 (trim l)) m p in
      kept_twice m _ _ first (park_lines-IsKept stray_dir dir ls _ (protected_same m _ first ∙ p))

  sweep_dir-IsKept :
      (stray_dir dir : FilePath) (procs : Option Text) (m : Manager K)
      → is_protected m ≡ true
      → IsKept m (sweep_dir fs stray_dir dir procs m)
  unfolding sweep_dir
  sweep_dir-IsKept stray_dir dir none m p = kept m
  sweep_dir-IsKept stray_dir dir (some procs) m p =
      let parked = park_lines-IsKept stray_dir dir (lines procs) m p in
      kept_twice m _ _ parked (
        kept_twice _ (prune_dir fs dir (park_lines fs stray_dir dir (lines procs) m)) _
          (prune_dir-IsKept dir _) (prune_dir-IsKept stray_dir _))

  sweep_dirs-IsKept :
      (stray_dir : FilePath) (dirs : List FilePath) (m : Manager K)
      → is_protected m ≡ true
      → IsKept m (sweep_dirs fs stray_dir dirs m)
  unfolding sweep_dirs
  sweep_dirs-IsKept stray_dir [] m p = kept m
  sweep_dirs-IsKept stray_dir (dir ∷ dirs) m p =
      let first = sweep_dir-IsKept stray_dir dir (fs.read_to_string (procs_of dir) m.kernel) m p in
      kept_twice m _ _ first (sweep_dirs-IsKept stray_dir dirs _ (protected_same m _ first ∙ p))

  pruned_in-IsKept :
      (path : FilePath) (m : Manager K)
      → IsKept m (prune_dir fs path (record m { created_dirs = insert_new path m.created_dirs }))
  pruned_in-IsKept path m =
      let v = prune_dir-IsKept path (record m { created_dirs = insert_new path m.created_dirs }) in
      record { at_place = v.at_place; enrolled_same = v.enrolled_same; stat_same = v.stat_same }

  adopt-IsKept :
      (base : FilePath) (names : List Text) (m : Manager K) → IsKept m (adopt fs base names m)
  unfolding adopt
  adopt-IsKept base [] m = kept m
  adopt-IsKept base (name ∷ names) m =
      let path = join base name in
      elim (Bool-cases (not (starts_with name (codes "nw-")) || contains m.created_dirs path)) [
        | inl known ↦ rw known (adopt-IsKept base names m)
        | inr new ↦ rw new (kept_twice m _ _ (pruned_in-IsKept path m) (adopt-IsKept base names _))
      ]

  adopt_listed-IsKept :
      (base : FilePath) (names : Option (List Text)) (m : Manager K)
      → IsKept m (adopt_listed fs base names m)
  unfolding adopt_listed
  adopt_listed-IsKept base none m = kept m
  adopt_listed-IsKept base (some names) m = adopt-IsKept base names m

  sweep_at-IsKept :
      (base : Option FilePath) (m : Manager K)
      → is_protected m ≡ true
      → IsKept m (sweep_at fs base m)
  unfolding sweep_at
  sweep_at-IsKept none m p = kept m
  sweep_at-IsKept (some base) m p =
      kept_twice m _ _ (sweep_dirs-IsKept (join base (codes "_strays")) m.created_dirs m p)
        (adopt_listed-IsKept base _ _)

  -- The sweep leaves every process that is enrolled, and every process that the desktop depends on,
  -- in the directory that it is in, and forgets no enrolment.
  pub sweep_spares :
      (m : Manager K)
      → is_protected m ≡ true
      → (place fs pid (sweep_strays fs m).kernel ≡ place fs pid m.kernel)
        × ((sweep_strays fs m).enrolled ≡ m.enrolled)
  unfolding sweep_strays
  sweep_spares m p = let v = sweep_at-IsKept m.base m p in (v.at_place, v.enrolled_same)
