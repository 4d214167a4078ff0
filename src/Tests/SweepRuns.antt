-- ===== src/Tests/SweepRuns.antt =====
-- Runs of the sweep of stray processes.
use nicewatch.Prelude.{
  ℕ, nat_eq, ◌≡◌, ◌≢◌, refl, sym, ap, ◌∙◌, Bool, true, false, ◌||◌, [], ◌∷◌, Option, none, some,
  if◌then◌else◌, ◌==◌, eqb, eqb_iff, eq_refl, arith, Bool-cases, inl, inr,
}
use nicewatch.Prelude.Text.{Text, codes, text_eq, text_beq_iff}
use nicewatch.Prelude.Scan.Numbers.{show, show-IsNumeral, IsNumeral, show_injective}
use nicewatch.Prelude.Paths.{FilePath, path_eq, path_beq_iff}
use nicewatch.Cgroup.{Done, Fs, procs_of}
use nicewatch.Cgroup.Manager.{place}
use nicewatch.Cgroup.Manager.State.{Manager}
use nicewatch.Cgroup.Manager.Moves.{IsCgroupFs, is_procs}
use nicewatch.Cgroup.Manager.Recovery.{sweep_strays}
use nicewatch.Cgroup.Manager.Sweep.{IsSteady, is_protected, sweep_spares}
use nicewatch.Tests.CgroupRuns.{base_dir, managed_dir, scope_dir, same_dir_of}

-- Whether the process with the number is in the managed cgroup.
abbrev Where : Type 0
Where = Text → Bool

abbrev put : Text → Bool → Where → Where
put text b k number = if number == text then b else k number

abbrev where_write : FilePath → Text → Where → Done Where
where_write path [] k = (none, k)
where_write path (c ∷ text) k =
    if is_procs path
    then (if path == procs_of scope_dir
        then (none, put (c ∷ text) false k)
        else if path == procs_of managed_dir
        then (none, put (c ∷ text) true k)
        else (some (codes "refused"), k))
    else (none, k)

abbrev where_fs : Fs Where
where_fs = record {
  create_dir_all = λ dir k. (none, k);
  create_dir = λ dir k. (none, k);
  remove_dir = λ dir k. (none, k);
  remove_dir_all = λ dir k. (none, k);
  remove_file = λ path k. (none, k);
  write = where_write;
  read_to_string = λ path k. if path == procs_of managed_dir then some (codes "8") else none;
  read_dir = λ dir k. none;
  proc_cgroup = λ pid k.
      some (if k (show pid) then codes "0::/app.slice/nw-b" else codes "0::/app.slice/x.scope");
  proc_stat = λ pid k. none;
  to_json = λ entries. codes "{}";
  from_json = λ text. none;
  debug_limits = λ lims. codes "limits";
  debug_path = λ path. codes "path";
  debug_text = λ text. text;
}

where_is :
    (pid : ℕ) (k : Where) (b : Bool)
    → k (show pid) ≡ b
    → place where_fs pid k ≡ (if b then managed_dir else scope_dir)
unfolding place nicewatch.Cgroup.cgroup_line nicewatch.Prelude.find nicewatch.Prelude.Scan.lines
    nicewatch.Prelude.Text.starts_with nicewatch.Prelude.Paths.push nicewatch.Prelude.retain
    nicewatch.Prelude.Scan.trim_start_char nicewatch.Prelude.Text.is_empty
    nicewatch.Prelude.Text.text_beq
where_is pid k true e = rw e refl
where_is pid k false e = rw e refl

where_same :
    (pid : ℕ) (k k' : Where)
    → k' (show pid) ≡ k (show pid)
    → place where_fs pid k' ≡ place where_fs pid k
where_same pid k k' e = where_is pid k' (k (show pid)) e ∙ sym (where_is pid k (k (show pid)) refl)

put_own : (number text : Text) (b : Bool) (k : Where) → text ≡ number → put text b k number ≡ b
put_own number text b k e = ground (arith, e, text_beq_iff number text)

where_moved :
    (pid : ℕ) (text : Text) (dir : FilePath) (k : Where)
    → IsNumeral text
    → text ≡ show pid
    → (where_write (procs_of dir) text k).0 ≡ none
    → place where_fs pid (where_write (procs_of dir) text k).1 ≡ dir
where_moved pid [] dir k n e ok = absurd n
where_moved pid (c ∷ text) dir k n e ok = elim (Bool-cases (procs_of dir == procs_of scope_dir)) [
  | inl back ↦
      rw (eq_refl (codes "cgroup.procs"), back)
        (where_is pid _ false (put_own (show pid) (c ∷ text) false k e)
          ∙ sym (same_dir_of dir scope_dir ((path_beq_iff _ _).0 back)))
  | inr other ↦ elim (Bool-cases (procs_of dir == procs_of managed_dir)) [
    | inl limited ↦
        rw (eq_refl (codes "cgroup.procs"), other, limited)
          (where_is pid _ true (put_own (show pid) (c ∷ text) true k e)
            ∙ sym (same_dir_of dir managed_dir ((path_beq_iff _ _).0 limited)))
    | inr neither ↦ absurd (ground (arith, eq_refl (codes "cgroup.procs")))
  ]
]

where_written :
    (path : FilePath) (text : Text) (k : Where)
    → is_procs path ≡ false
    → (where_write path text k).1 ≡ k
where_written path [] k p = refl
where_written path (c ∷ text) k p = rw p refl

where_laws : IsCgroupFs where_fs
where_laws = record {
  moved = λ pid dir k ok. where_moved pid (show pid) dir k (show-IsNumeral pid) refl ok;
  cleared = λ pid dir k. refl;
  removed = λ pid dir k. refl;
  removed_all = λ pid dir k. refl;
  written = λ pid path text k p. ap (place where_fs pid) (where_written path text k p);
}

other_number : (q pid : ℕ) → q ≢ pid → (show pid == show q) ≡ false
other_number q pid other = elim (Bool-cases (show pid == show q)) [
  | inl same ↦ absurd (other (sym (show_injective pid q ((text_beq_iff _ _).0 same))))
  | inr apart ↦ apart
]

where_others :
    (pid : ℕ) (text : Text) (dir : FilePath) (k : Where)
    → (show pid == text) ≡ false
    → (where_write (procs_of dir) text k).1 (show pid) ≡ k (show pid)
where_others pid [] dir k apart = refl
where_others pid (c ∷ text) dir k apart = ground (arith, apart)

where_steady : IsSteady where_fs 7
where_steady = record {
  others =
      λ q dir k other. where_same 7 k _ (where_others 7 (show q) dir k (other_number q 7 other));
  created = λ dir k. refl;
  named = λ path text k. refl;
  named_created = λ dir k. refl;
  named_removed = λ dir k. refl;
  named_removed_all = λ dir k. refl;
}

-- Pid 7 is enrolled in the managed directory, and pid 8 has strayed into it.
abbrev where_manager : Manager Where
where_manager = record {
  kernel = λ number. true;
  base = some base_dir;
  enrolled = (7, record { dir = managed_dir; origin = scope_dir; limits = none }) ∷ [];
  created_dirs = managed_dir ∷ [];
  warned = [];
  controllers_reasserted = false;
  state_path = none;
}

seven_protected : is_protected where_fs where_laws 7 where_steady where_manager ≡ true
unfolding nicewatch.Prelude.Maps.contains_key nicewatch.Prelude.Maps.get
seven_protected = refl

sweep_spares_example :
    (place where_fs 7 (sweep_strays where_fs where_manager).kernel
      ≡ place where_fs 7 where_manager.kernel)
    × ((sweep_strays where_fs where_manager).enrolled ≡ where_manager.enrolled)
sweep_spares_example = sweep_spares where_fs where_laws 7 where_steady where_manager seven_protected
