-- ===== src/Daemon/Poll.antt =====
-- One round of the poll loop over the processes of a scan (`run`, daemon/src/main.rs).
pub mod Calls
pub mod Table
use nicewatch.Prelude.{ℕ, nat_eq, Bool, List, [], ◌∷◌, Option, none, some, insert_new}
use nicewatch.Prelude.Text.{Text, text_eq}
use nicewatch.Prelude.Maps.{Map, get, insert}
use nicewatch.Priority.{IoniceClass}
use nicewatch.Proc.{ProcEntry}
use nicewatch.Detect.{GameFlags, is_game}
use nicewatch.Detect.Known.{KnownGames}
use nicewatch.Rules.{RuleSet, Resolved, untouched, apply}
use nicewatch.Applier.{CurrentIoprio, get_ioprio}
use nicewatch.Cgroup.{Fs}
use nicewatch.Cgroup.Manager.{sync_pid, is_capped}
use nicewatch.Cgroup.Manager.State.{Manager}
use nicewatch.Wire.{ProcessInfo}
use nicewatch.Daemon.{
  Identity, Memory, Kernel, Call, Effects, poll_flags, decide, tier_of, cgroup_request,
  apply_target, status_label,
}

-- What a poll reads: `user_of` and `cpu_percent` are `uid_to_user` and `compute_cpu_percent`, and
-- `refusal` is the text of the warning of a refused call, with the system's words for the error.
pub record Setting (F : Type 0) : Type 0 where
  pub known : KnownGames
  pub is_fullscreen : ProcEntry → Bool
  pub who : Identity
  pub set : RuleSet
  pub memory : Memory
  pub kernel : Kernel
  pub now_secs : ℕ
  pub user_of : ℕ → Text
  pub refusal : Call → Text
  pub cpu_percent : Option (ℕ × ℕ) → ℕ × ℕ → F

-- What the loop changes.
pub record Polled (K F : Type 0) : Type 0 where
  pub manager : Manager K
  pub effects : Effects
  pub flag_cache : Map ℕ GameFlags
  pub prev_ticks : Map ℕ (ℕ × ℕ)
  pub cur_info : Map ℕ (ProcessInfo F)
  pub names_seen : List Text

abbrev io_class_of : Option CurrentIoprio → IoniceClass
io_class_of none = IoniceClass.none_class
io_class_of (some io) = io.class

abbrev io_priority_of : Option CurrentIoprio → ℕ
io_priority_of none = 0
io_priority_of (some io) = io.priority

unfoldable pub apply_resolved : Kernel → Bool → ProcEntry → Resolved → Effects → Effects
apply_resolved k privileged e untouched s = s
apply_resolved k privileged e (apply t) s = apply_target k privileged e t s

module _ {K F : Type 0} (fs : Fs K) (c : Setting F) where
  -- What the poll has decided of a process.
  abbrev pub decision : ProcEntry → Polled K F → Resolved
  decision e p =
      decide c.who c.set c.memory e
        (poll_flags c.known c.is_fullscreen c.who c.set c.memory p.flag_cache e).0 c.now_secs

  unfoldable pub info_for :
      ProcEntry → Resolved → GameFlags → Manager K → Effects → Polled K F → ProcessInfo F
  info_for e resolved flags manager effects p =
      let io = get_ioprio (c.kernel.ioprio_get effects.calls e.pid) in
      record {
        pid = e.pid;
        ppid = e.ppid;
        name = e.name;
        user = c.user_of e.uid;
        cpu_percent = c.cpu_percent (get e.pid p.prev_ticks) (e.utime, e.stime);
        mem_kb = e.rss_kb;
        status = status_label e.state;
        nice = e.nice;
        ionice_class = io_class_of io;
        ionice_priority = io_priority_of io;
        tier = tier_of resolved;
        capped = is_capped fs e.pid manager;
        game_detected = is_game flags;
        exe = e.exe;
        start_secs = e.start_secs;
      }

  -- The body of the loop.
  unfoldable pub poll_process : ProcEntry → Polled K F → Polled K F
  poll_process e p =
      let (flags, cache) = poll_flags c.known c.is_fullscreen c.who c.set c.memory p.flag_cache e in
      let resolved = decision e p in
      let (key, limits) = cgroup_request resolved in
      let manager = sync_pid fs e.pid key limits p.manager in
      let effects = apply_resolved c.kernel c.who.privileged e resolved p.effects in
      record {
        manager = manager;
        effects = effects;
        flag_cache = cache;
        prev_ticks = insert e.pid (e.utime, e.stime) p.prev_ticks;
        cur_info = insert e.pid (info_for e resolved flags manager effects p) p.cur_info;
        names_seen = insert_new e.name p.names_seen;
      }

  unfoldable pub poll_processes : List ProcEntry → Polled K F → Polled K F
  poll_processes [] p = p
  poll_processes (e ∷ entries) p = poll_processes entries (poll_process e p)
