-- ===== src/Daemon/Turn.antt =====
-- One round of the daemon's main loop: requests, changed files, the tick of the sync and the poll
-- (`run`, daemon/src/main.rs).
pub mod Polling
pub mod State
pub mod Quiet
pub mod Sound
pub mod Due
pub mod Edits
use nicewatch.Prelude.{
  ℕ, ◌-◌, ◌+◌, ◌%◌, ◌^◌, Bool, true, false, ◌&&◌, ◌||◌, not, List, [], ◌∷◌, ◌++◌, Option, none,
  some, map, if◌then◌else◌, leb,
}
use nicewatch.Prelude.Text.{Text, codes}
use nicewatch.Prelude.Paths.{FilePath}
use nicewatch.Proc.{ProcEntry}
use nicewatch.Rules.{RuleSet, from_config}
use nicewatch.Cgroup.{Fs}
use nicewatch.Cgroup.Manager.{ensure_controllers}
use nicewatch.Cgroup.Manager.State.{Manager}
use nicewatch.Sync.{Sync, Notice, initial_load, on_path_changed, poll_mtimes}
use nicewatch.Sync.Disk.{Env, Host}
use nicewatch.Sync.Writing.{tick}
use nicewatch.Wire.{ServerMsg, ClientMsg}
use nicewatch.Daemon.{Kernel, effective_poll_interval}
use nicewatch.Daemon.Client.{Server, Context, handle_client_msg, snapshot_of}
use nicewatch.Daemon.Poll.{Setting, Polled, poll_processes}
use nicewatch.Daemon.Cycle.{Loop, Readings, finish_poll}
use State.{Daemon, FileEvent, Round, Fixed}
use Polling.{setting_of, polled_of, gpu_told, readings_of, drained, polled_once, poll, is_due}

-- The paths of one event; the result is whether the configuration was read again.
unfoldable pub on_paths : Env → Host → ℕ → List FilePath → Bool × Sync → Bool × Sync
on_paths env h now [] (changed, s) = (changed, s)
on_paths env h now (path ∷ paths) (changed, s) =
    let (reloaded, s') = on_path_changed env h path now s in
    on_paths env h now paths (changed || reloaded, s')

-- The loop over the events; reads of the files are skipped.
unfoldable pub on_events : Env → Host → ℕ → List FileEvent → Bool × Sync → Bool × Sync
unfolding on_paths
on_events env h now [] s = s
on_events env h now (ev ∷ events) s =
    on_events env h now events (if ev.is_access then s else on_paths env h now ev.paths s)

module _ {K F : Type 0} (x : Fixed K F) where
  -- The loop over the requests.
  unfoldable pub serve_all : Context F → List ClientMsg → Server F → Server F
  serve_all c [] s = s
  serve_all c (msg ∷ msgs) s = serve_all c msgs (handle_client_msg c msg s)

  -- What a request is handed.
  abbrev pub context_of : Round F → Daemon K F → Context F
  context_of t d = record {
    host = t.host;
    kernel = t.setting.kernel;
    privileged = t.setting.who.privileged;
    poll_interval = effective_poll_interval x.poll_ms d.sync.active;
    system_cpu = d.system_cpu;
    system_mem = d.system_mem;
  }

  abbrev pub server_of : Daemon K F → Server F
  server_of d = record {
    sync = d.sync;
    set = d.set;
    full_info = d.loop.full_info;
    pending_prompts = d.loop.pending_prompts;
    memory = d.loop.memory;
    outbox = d.loop.outbox;
    calls = d.loop.effects.calls;
  }

  unfoldable pub serve : Round F → Daemon K F → Daemon K F
  unfolding serve_all
  serve t d =
      let s = serve_all (context_of t d) t.requests (server_of d) in
      record d {
        sync = s.sync;
        set = s.set;
        poll_interval = effective_poll_interval x.poll_ms d.sync.active;
        loop = record d.loop {
          effects = record d.loop.effects { calls = s.calls };
          memory = s.memory;
          pending_prompts = s.pending_prompts;
          outbox = s.outbox;
        };
      }

  -- `broadcast_snapshot`
  abbrev pub tell_snapshot : Daemon K F → Daemon K F
  tell_snapshot d = record d {
    loop = record d.loop {
      outbox =
          ServerMsg.snapshot (
            snapshot_of d.loop.full_info d.set d.loop.pending_prompts d.poll_interval d.system_cpu
              d.system_mem)
          ∷ d.loop.outbox;
    };
  }

  -- The rules in force are read again where the configuration was.
  unfoldable pub reloaded : Bool × Sync → Daemon K F → Daemon K F
  reloaded (false, sync) d = record d { sync = sync }
  reloaded (true, sync) d = tell_snapshot (record d { sync = sync; set = from_config sync.active })

  -- The events, and then the files' modification times.
  unfoldable pub changes_of : Round F → Daemon K F → Bool × Sync
  unfolding on_events
  changes_of t d =
      let (changed, s) = on_events x.env t.host t.now t.events (false, d.sync) in
      let (polled, s') = poll_mtimes x.env t.host t.now s in (changed || polled, s')

  unfoldable pub watch : Round F → Daemon K F → Daemon K F
  unfolding changes_of reloaded
  watch t d = reloaded (changes_of t d) d

  unfoldable pub told_promotion : Bool × Host × Sync → Daemon K F → Host × Daemon K F
  told_promotion (false, h, sync) d = (h, record d { sync = sync })
  told_promotion (true, h, sync) d = (h, tell_snapshot (record d { sync = sync }))

  unfoldable pub write_back : Round F → Daemon K F → Host × Daemon K F
  unfolding told_promotion
  write_back t d = told_promotion (tick x.env t.host t.now d.sync) d

  unfoldable pub poll_if_due : Round F → Host × Daemon K F → Host × Daemon K F
  unfolding poll
  poll_if_due t (h, d) = (h, if is_due x t d then poll x t d else d)

  -- The round up to the poll.
  unfoldable pub before_poll : Round F → Daemon K F → Host × Daemon K F
  unfolding serve watch write_back
  before_poll t d = write_back t (watch t (serve t d))

  -- One round of the loop, with the disk that it leaves.
  unfoldable pub turn : Round F → Daemon K F → Host × Daemon K F
  unfolding before_poll poll_if_due
  turn t d = poll_if_due t (before_poll t d)

  -- Before the loop; `manager` is the new cgroup manager. The first poll is due at once, if the
  -- clock has run for that long.
  unfoldable pub booted : Manager K → Sync → Host → ℕ → Daemon K F
  booted manager sync h now =
      let loaded : Sync = record (initial_load x.env h now sync) { warnings = [] } in
      let interval = effective_poll_interval x.poll_ms loaded.active in
      record {
        sync = loaded;
        set = from_config loaded.active;
        poll_interval = interval;
        last_poll = if leb interval now then now - interval else now;
        loop = record {
          manager = manager;
          effects = record { calls = []; warned = []; reports = [] };
          flag_cache = [];
          prev_ticks = [];
          full_info = [];
          memory = record { prompted_names = []; instance_games = []; suppressed_until_exit = [] };
          pending_prompts = [];
          sent_initial_snapshot = false;
          outbox = [];
        };
        prev_cpu_busy = none;
        system_cpu = x.zero_percent;
        system_cpu_samples = 0;
        system_mem = (0, 0);
        gpu_low_prev = false;
      }

-- The states that the loop reaches, whatever each round finds.
pub data Reach {K F : Type 0} (x : Fixed K F) (first : Daemon K F) : Daemon K F → Type 0 where
  begun : Reach x first first
  turned : {d : Daemon K F} → Reach x first d → (t : Round F) → Reach x first (turn x t d).1
