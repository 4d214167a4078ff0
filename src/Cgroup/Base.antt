-- ===== src/Cgroup/Base.antt =====
-- Where the managed cgroups may be (`discover_cgroup_base`, daemon/src/applier.rs).
use nicewatch.Prelude.{
  ℕ, zero, suc, ◌≡◌, Bool, true, false, ◌&&◌, ◌||◌, List, [], ◌∷◌, ◌++◌, Option, none, some, arith,
  if◌then◌else◌, ◌==◌, eq_refl, contains, Bool-cases, inl, inr,
}
use mathlib.Core.Path.{subst}
use nicewatch.Prelude.Text.{text_eq, codes, starts_with}
use nicewatch.Prelude.Scan.{ends_with}
use nicewatch.Prelude.Scan.Numbers.{show}
use nicewatch.Prelude.Paths.{FilePath, path_eq, join, file_name}
use nicewatch.Cgroup.{Fs, cgroup_root}

unfoldable pub is_forbidden_base : FilePath → Bool
is_forbidden_base cand = elim (file_name cand) [
  | none ↦ true
  | some name ↦
      name == codes "session.slice"
      || name == codes "user.slice"
      || (starts_with name (codes "user@") && ends_with name (codes ".service"))
      || (starts_with name (codes "user-") && ends_with name (codes ".slice"))
      || cand == cgroup_root
]

-- The directory itself and those above it, up to the root.
unfoldable pub candidates : FilePath → List FilePath
candidates [] = [] ∷ []
candidates (c ∷ p) =
    let above = candidates p in if c == codes "/" then (c ∷ p) ∷ [] else (c ∷ p) ∷ above

abbrev pub attempts : ℕ
attempts = 5

-- What the probes of a candidate show.
pub data Probe : Type 0 where
  hosts_nothing takes_writes refuses_writes : Probe

-- What a walk over the candidates ends with.
pub data Walk : Type 0 where
  found : FilePath → Walk
  forbidden again : Walk

-- The candidates below the first forbidden one.
unfoldable pub allowed : List FilePath → List FilePath
allowed [] = []
allowed (c ∷ cs) = let rest = allowed cs in if is_forbidden_base c then [] else c ∷ rest

abbrev IsAllowed : List FilePath → Walk → Type 0
IsAllowed cands (found b) = contains (allowed cands) b ≡ true
IsAllowed cands forbidden = Unit
IsAllowed cands again = Unit

IsAllowed-cons :
    (c : FilePath) (cs : List FilePath) (w : Walk)
    → is_forbidden_base c ≡ false
    → IsAllowed cs w
    → IsAllowed (c ∷ cs) w
unfolding allowed contains
IsAllowed-cons c cs (found b) f h = ground arith
IsAllowed-cons c cs forbidden f h = tt
IsAllowed-cons c cs again f h = tt

abbrev IsBase : List FilePath → Option FilePath → Type 0
IsBase cands none = Unit
IsBase cands (some b) = contains (allowed cands) b ≡ true

module _ {K : Type 0} (fs : Fs K) (our_pid : ℕ) where
  abbrev probe_dir : FilePath → FilePath
  probe_dir cand = join cand (codes ".nw-probe-" ++ show our_pid)

  abbrev not_created : Bool → Probe
  not_created true = refuses_writes
  not_created false = hosts_nothing

  -- The write of `memory.high` in the new directory, which is removed again.
  probe_write : FilePath → K → Bool × K
  probe_write cand k =
      let (e, k1) = fs.write (join (probe_dir cand) (codes "memory.high")) (codes "max") k in
      let (r, k2) = fs.remove_dir (probe_dir cand) k1 in
      (elim e [ none ↦ true | some msg ↦ false ], k2)

  -- The inner loop, with the attempts that are left and whether one has been made.
  probe : ℕ → Bool → FilePath → K → Probe × K
  unfolding probe_write
  probe zero probed cand k = (not_created probed, k)
  probe (suc n) probed cand k =
      let (e, k1) = fs.create_dir (probe_dir cand) k in
      let (ok, k2) = probe_write cand k1 in
      let rest = probe n true cand k2 in
      elim e [
        | some msg ↦ (not_created probed, k1)
        | none ↦ if ok then (takes_writes, k2) else rest
      ]

  after_probe : Bool → FilePath → Probe × K → Walk × K → Walk × K
  after_probe own cand (takes_writes, k) rest = (found cand, k)
  after_probe own cand (hosts_nothing, k) rest = rest
  after_probe own cand (refuses_writes, k) rest = if own then rest else (again, k)

  -- One walk up the candidates; `own` is whether the first is the daemon's own cgroup.
  walk : Bool → List FilePath → K → Walk × K
  unfolding after_probe
  walk own [] k = (again, k)
  walk own (cand ∷ cands) k =
      let p = probe attempts false cand k in
      let rest = walk false cands p.1 in
      if is_forbidden_base cand then (forbidden, k) else after_probe own cand p rest

  after_walk : Walk × K → Option FilePath × K → Option FilePath × K
  after_walk (found b, k) rest = (some b, k)
  after_walk (forbidden, k) rest = (none, k)
  after_walk (again, k) rest = rest

  rounds : ℕ → List FilePath → K → Option FilePath × K
  unfolding walk after_walk
  rounds zero cands k = (none, k)
  rounds (suc n) cands k =
      let w = walk true cands k in let rest = rounds n cands w.1 in after_walk w rest

  -- `own` is the daemon's own cgroup under the root of cgroupfs.
  unfoldable pub discover_cgroup_base : FilePath → K → Option FilePath × K
  unfolding rounds probe
  discover_cgroup_base own k = rounds 3 (candidates own) k

  after_probe-IsAllowed :
      (own : Bool) (c : FilePath) (cs : List FilePath) (p : Probe × K) (rest : Walk × K)
      → is_forbidden_base c ≡ false
      → IsAllowed cs rest.0
      → IsAllowed (c ∷ cs) (after_probe own c p rest).0
  unfolding after_probe allowed contains
  after_probe-IsAllowed own c cs (takes_writes, k) rest f h = ground (arith, eq_refl c)
  after_probe-IsAllowed own c cs (hosts_nothing, k) rest f h = IsAllowed-cons c cs rest.0 f h
  after_probe-IsAllowed true c cs (refuses_writes, k) rest f h = IsAllowed-cons c cs rest.0 f h
  after_probe-IsAllowed false c cs (refuses_writes, k) rest f h = tt

  walk-IsAllowed :
      (own : Bool) (cands : List FilePath) (k : K) → IsAllowed cands (walk own cands k).0
  unfolding walk
  walk-IsAllowed own [] k = tt
  walk-IsAllowed own (c ∷ cs) k =
      let p = probe attempts false c k in
      elim (Bool-cases (is_forbidden_base c)) [
        | inl bad ↦ rw bad tt
        | inr good ↦ rw good (
            after_probe-IsAllowed own c cs p (walk false cs p.1) good (walk-IsAllowed false cs p.1))
      ]

  after_walk-IsBase :
      (cands : List FilePath) (w : Walk × K) (rest : Option FilePath × K)
      → IsAllowed cands w.0
      → IsBase cands rest.0
      → IsBase cands (after_walk w rest).0
  unfolding after_walk
  after_walk-IsBase cands (found b, k) rest h r = h
  after_walk-IsBase cands (forbidden, k) rest h r = tt
  after_walk-IsBase cands (again, k) rest h r = r

  rounds-IsBase : (n : ℕ) (cands : List FilePath) (k : K) → IsBase cands (rounds n cands k).0
  unfolding rounds
  rounds-IsBase zero cands k = tt
  rounds-IsBase (suc n) cands k =
      let w = walk true cands k in
      after_walk-IsBase cands w (rounds n cands w.1) (walk-IsAllowed true cands k)
        (rounds-IsBase n cands w.1)

  -- The base of the managed cgroups is the daemon's own cgroup or one above it, and neither it nor
  -- any directory between the two is a boundary of the session or the root of cgroupfs, whatever
  -- the kernel answers to the probes.
  pub base_allowed :
      (own b : FilePath) (k : K)
      → (discover_cgroup_base own k).0 ≡ some b
      → contains (allowed (candidates own)) b ≡ true
  unfolding discover_cgroup_base
  base_allowed own b k h = subst (IsBase (candidates own)) h (rounds-IsBase 3 (candidates own) k)
