-- ===== src/Daemon.antt =====
-- The main loop of daemon/src/main.rs: what it decides for a process, what it applies, what it
-- tells its clients, and how it serves their requests.
pub mod Tables
pub mod Decision
pub mod Effect
pub mod Prompts
pub mod Client
pub mod Poll
pub mod Cycle
pub mod Turn
use nicewatch.Prelude.{
  ℕ, ◌-◌, nat_eq, Bool, true, false, ◌&&◌, ◌||◌, not, List, [], ◌∷◌, ◌++◌, Option, none, some, max,
  min, map, if◌then◌else◌, eqb, ◌==◌, contains, find, retain,
}
use nicewatch.Prelude.Int.{ℤ, max_ℤ, int_eq}
use nicewatch.Prelude.Text.{Text, text_eq, text_lt, codes}
use nicewatch.Prelude.Maps.{Map, get, insert, is_some, values}
use nicewatch.Priority.{Tier, IoniceClass, class_beq}
use nicewatch.Config.{AppConfig, CgroupLimits, unwrap_or}
use nicewatch.Proc.{ProcEntry}
use nicewatch.Detect.{GameFlags, no_flags, detect_game, is_de_critical, is_self_binary}
use nicewatch.Detect.Known.{KnownGames, is_known_name, is_known_entry}
use nicewatch.Rules.{
  RuleSet, Resolved, untouched, apply, ApplyTarget, resolve, has_rule, auto_target,
}
use nicewatch.Applier.{
  CurrentIoprio, ioprio_value, get_ioprio, clamp_nice, first_failure, is_rt_scheduled,
}
use nicewatch.Wire.{ProcessInfo}

abbrev pub min_poll_interval_ms : ℕ
min_poll_interval_ms = 250

abbrev pub max_poll_interval_ms : ℕ
max_poll_interval_ms = 60000

abbrev pub default_poll_interval_ms : ℕ
default_poll_interval_ms = 2000

-- `v.clamp(MIN_POLL_INTERVAL_MS, 60_000)`
abbrev pub clamp_poll : ℕ → ℕ
clamp_poll v = min (max v min_poll_interval_ms) max_poll_interval_ms

abbrev or_else {ℓ} : {A : Type ℓ} → Option A → Option A → Option A
or_else none b = b
or_else (some a) b = some a

-- `poll_ms` is the command line's.
unfoldable pub effective_poll_interval : Option ℕ → AppConfig → ℕ
effective_poll_interval poll_ms cfg =
    clamp_poll (unwrap_or (or_else cfg.poll_interval_ms poll_ms) default_poll_interval_ms)

unfoldable pub status_label : ℕ → Text
status_label state =
    if eqb state b'R'
    then codes "running"
    else if eqb state b'S'
    then codes "sleeping"
    else if eqb state b'D'
    then codes "io-wait"
    else if eqb state b'Z'
    then codes "zombie"
    else if eqb state b'T'
    then codes "stopped"
    else if eqb state b'I'
    then codes "idle"
    else codes "other"

-- What the loop remembers of process names: those it has prompted for, those answered "not now",
-- and those that it must not prompt for until they exit.
pub record Memory : Type 0 where
  pub prompted_names : List Text
  pub instance_games : List Text
  pub suppressed_until_exit : List Text

unfoldable pub is_undecided : RuleSet → Memory → Text → Bool
is_undecided set m name =
    not (has_rule set name)
    && not (contains m.prompted_names name)
    && not (contains m.suppressed_until_exit name)

-- Who runs the daemon; `privileged` is `can_apply_negative_nice()`.
pub record Identity : Type 0 where
  pub our_pid : ℕ
  pub our_uid : ℕ
  pub privileged : Bool

unfoldable pub is_ours : Identity → ProcEntry → Bool
is_ours who e = eqb e.pid who.our_pid || is_self_binary e.name

unfoldable pub is_untouchable : Identity → ProcEntry → Bool
is_untouchable who e = not (eqb e.uid who.our_uid) && not who.privileged

-- The flags of an earlier poll, if the process is decided, or else new ones, which are remembered.
abbrev cached_flags :
    Option GameFlags → Bool → GameFlags → Map ℕ GameFlags → ℕ → GameFlags × Map ℕ GameFlags
cached_flags (some f) false new cache pid = (f, cache)
cached_flags (some f) true new cache pid = (new, insert pid new cache)
cached_flags none undecided new cache pid = (new, insert pid new cache)

abbrev with_catalog : KnownGames → ProcEntry → GameFlags → GameFlags
with_catalog known e f =
    if is_de_critical e.name then f else record f { known = is_known_entry known e }

-- The flags of a process in the poll loop, and the remembered ones afterwards.
unfoldable pub poll_flags :
    KnownGames
    → (ProcEntry → Bool)
    → Identity
    → RuleSet
    → Memory
    → Map ℕ GameFlags
    → ProcEntry
    → GameFlags × Map ℕ GameFlags
poll_flags known is_fullscreen who set m cache e =
    if is_ours who e || is_untouchable who e
    then (no_flags, cache)
    else (let (f, cache') =
          cached_flags (get e.pid cache) (is_undecided set m e.name) (detect_game is_fullscreen e)
            cache e.pid in
        (with_catalog known e f, cache'))

abbrev or_instance : Bool → RuleSet → Resolved → Resolved
or_instance true set untouched = apply (auto_target set.auto_game)
or_instance false set untouched = untouched
or_instance is_instance set (apply t) = apply t

-- What the poll loop does to a process: its rule or the heuristic, then the hard exclusion, the
-- games of this run, and the processes of other users.
unfoldable pub decide : Identity → RuleSet → Memory → ProcEntry → GameFlags → ℕ → Resolved
decide who set m e flags now_secs =
    let resolved = resolve set e.name flags (now_secs - e.start_secs) in
    let kept = if is_de_critical e.name then untouched else resolved in
    let game = or_instance (contains m.instance_games e.name) set kept in
    if is_untouchable who e then untouched else game

unfoldable pub tier_of : Resolved → Option Tier
tier_of untouched = none
tier_of (apply t) = t.tier

-- The key and the limits that are passed to the cgroup manager.
unfoldable pub cgroup_request : Resolved → Text × Option CgroupLimits
cgroup_request untouched = ([], none)
cgroup_request (apply t) = (unwrap_or t.rule (codes "game"), t.cgroup)

pub data Call : Type 0 where
  setpriority : ℕ → ℤ → Call
  ioprio_set : ℕ → ℕ → Call

-- The kernel, as far as scheduling goes: the stat line, the value of `ioprio_get` after the calls
-- made so far (`none` for an error), and whether it accepts a new niceness and a new io priority.
pub record Kernel : Type 0 where
  pub stat : ℕ → Option Text
  pub ioprio_get : List Call → ℕ → Option ℕ
  pub accepts_nice : ℕ → ℤ → Bool
  pub accepts_ioprio : ℕ → ℕ → Bool

-- What applying targets has done: the calls made, newest first, the pids that a failure was reported
-- for, and the refused calls that the clients are warned of, newest first.
pub record Effects : Type 0 where
  pub calls : List Call
  pub warned : List ℕ
  pub reports : List Call

-- A call, and the report of its first failure for the pid.
unfoldable pub made : Call → Bool → ℕ → Effects → Effects
made call true pid s = record s { calls = call ∷ s.calls }
made call false pid s =
    let (first, warned) = first_failure pid s.warned in
    record s {
      calls = call ∷ s.calls;
      warned = warned;
      reports = if first then call ∷ s.reports else s.reports;
    }

unfoldable pub io_differs : Option CurrentIoprio → IoniceClass → ℕ → Bool
io_differs none class priority = true
io_differs (some cur) class priority = not (class_beq cur.class class && eqb cur.priority priority)

unfoldable pub effective_nice : Bool → ℤ → ℤ → ℤ
effective_nice privileged wanted current = if privileged then wanted else max_ℤ wanted current

unfoldable pub apply_io : Kernel → ℕ → IoniceClass → ℕ → Effects → Effects
apply_io k pid class priority s =
    if not (class_beq class IoniceClass.none_class)
      && io_differs (get_ioprio (k.ioprio_get s.calls pid)) class priority
    then (let v = ioprio_value class priority in
        made (ioprio_set pid v) (k.accepts_ioprio pid v) pid s)
    else s

unfoldable pub apply_niceness : Kernel → Bool → ℕ → ℤ → ℤ → Effects → Effects
apply_niceness k privileged pid current nice s =
    if current == nice
    then s
    else (let v = clamp_nice privileged nice in
        made (setpriority pid v) (k.accepts_nice pid v) pid s)

unfoldable pub apply_target : Kernel → Bool → ProcEntry → ApplyTarget → Effects → Effects
unfolding made
apply_target k privileged e t s =
    if is_rt_scheduled (k.stat e.pid)
    then s
    else apply_io k e.pid t.ionice_class t.ionice_priority
        (apply_niceness k privileged e.pid e.nice (effective_nice privileged t.nice e.nice) s)
