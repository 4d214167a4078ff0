-- ===== src/Cgroup/Manager/State.antt =====
-- What the cgroup manager keeps (`CgroupManager`, daemon/src/applier.rs).
use nicewatch.Prelude.{
  ℕ, nat_eq, Bool, true, false, ◌&&◌, not, List, [], ◌∷◌, ◌++◌, Option, none, some, if◌then◌else◌,
  eqb, ltb, ◌==◌, insert_new,
}
use nicewatch.Prelude.Text.{Text, text_eq, codes, is_empty}
use nicewatch.Prelude.Scan.{trim}
use nicewatch.Prelude.Scan.Numbers.{show}
use nicewatch.Prelude.Paths.{FilePath, path_eq, join, path_of, display}
use nicewatch.Prelude.Maps.{Map, insert_sorted}
use nicewatch.Config.{CgroupLimits}
use nicewatch.Applier.{sanitize_dir}
use nicewatch.Cgroup.{Done}

pub record Enrolled : Type 0 where
  pub dir : FilePath
  pub origin : FilePath
  pub limits : Option CgroupLimits

-- `CgroupManager`, and the kernel it works on.
pub record Manager (K : Type 0) : Type 0 where
  pub kernel : K
  pub base : Option FilePath
  pub enrolled : Map ℕ Enrolled
  pub created_dirs : List FilePath
  pub warned : List Text
  pub controllers_reasserted : Bool
  pub state_path : Option FilePath

-- The derived `PartialEq` of the limits.
unfoldable pub same_option {ℓ} : {A : Type ℓ} → (A → A → Bool) → Option A → Option A → Bool
same_option beq none none = true
same_option beq (some a) (some b) = beq a b
same_option beq _ _ = false

unfoldable pub same_flag : Bool → Bool → Bool
same_flag a b = if a then b else not b

unfoldable pub same_limits : CgroupLimits → CgroupLimits → Bool
unfolding same_option same_flag
same_limits a b =
    same_option (λ x y. x == y) a.path b.path
    && same_option eqb a.cpu_weight b.cpu_weight
    && same_option eqb a.cpu_cap_percent b.cpu_cap_percent
    && same_option (λ x y. x == y) a.memory_high b.memory_high
    && same_option (λ x y. x == y) a.memory_max b.memory_max
    && same_option same_flag a.cpu_idle b.cpu_idle

abbrev pub has_limits : Option CgroupLimits → CgroupLimits → Bool
has_limits none lims = false
has_limits (some l) lims = same_limits l lims

-- `EnrolledState::from_manager`: a `BTreeMap` of the pids.
unfoldable pub from_manager : Map ℕ Enrolled → Map ℕ (Text × Text)
from_manager [] = []
from_manager ((pid, en) ∷ m) =
    insert_sorted ltb pid (display en.dir, display en.origin) (from_manager m)

module _ {K : Type 0} where
  -- `warned.insert`
  abbrev pub warn_key : Text → Manager K → Manager K
  warn_key key m = record m { warned = insert_new key m.warned }

  abbrev pub warn_once : ℕ → Option Text → Manager K → Manager K
  warn_once pid none m = m
  warn_once pid (some msg) m = warn_key (show pid ++ (codes ":" ++ msg)) m

  -- The outcome of a step on the kernel; a message is reported for the pid.
  abbrev pub reporting : ℕ → Done K → Manager K → Manager K
  reporting pid (msg, k) m = warn_once pid msg (record m { kernel = k })

-- The directory for a rule's limits.
unfoldable pub dir_for : FilePath → Text → CgroupLimits → FilePath
dir_for base key lims = elim lims.path [
  | none ↦ join base (codes "nw-" ++ sanitize_dir key)
  | some p ↦ path_of p
]

abbrev pub blank_text : Option Text → Bool
blank_text none = false
blank_text (some s) = is_empty (trim s)
