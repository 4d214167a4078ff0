-- ===== src/Tests/TurnRuns.antt =====
-- Runs of the rounds of the main loop.
use nicewatch.Prelude.{
  ℕ, nat_eq, ◌-◌, ◌≡◌, Bool, true, List, [], ◌∷◌, ◌||◌, none, some, leb, eqb, any, if◌then◌else◌,
}
use nicewatch.Prelude.Text.{codes}
use nicewatch.Prelude.Maps.{contains_key}
use nicewatch.Proc.{ProcEntry}
use nicewatch.Wire.{ClientMsg}
use nicewatch.Daemon.{effective_poll_interval}
use nicewatch.Daemon.Turn.{Reach, begun, turned, booted, turn}
use nicewatch.Daemon.Turn.State.{Daemon, Round, Fixed}
use nicewatch.Daemon.Turn.Sound.{IsSound, Reach-IsSound}
use nicewatch.Daemon.Turn.Due.{turn-polls}
use nicewatch.Tests.Data.{a_sync, a_host, an_env, root_path, local_path}
use nicewatch.Prelude.Paths.{path_eq}
use nicewatch.Tests.PollRuns.{no_fs, a_setting, at_start, a_scan, moved}

abbrev pub fixed : Fixed Bool ℕ
fixed = record {
  env = an_env;
  fs = no_fs;
  moved = moved;
  zero_percent = 0;
  compute_system_cpu = λ before now. 7;
  notice_text = λ n. codes "n";
  gpu_notice = codes "low";
  poll_ms = none;
}

-- A client says hello, and two processes run.
abbrev pub a_round : Round ℕ
a_round = record {
  now = 40000;
  host = a_host;
  requests = ClientMsg.hello (codes "gui") ∷ [];
  events = [];
  client_count = 1;
  setting = a_setting;
  entries = a_scan;
  gpu_low = true;
  cpu_busy = (1, 2);
  system_mem = (8, 4);
}

-- A daemon that has last seen another local file.
abbrev a_daemon : Daemon Bool ℕ
a_daemon = record (booted fixed at_start.manager a_sync a_host 3) {
  sync = record a_sync { known_mtimes = (root_path, some 5000) ∷ (local_path, some 1) ∷ [] };
}

Reach-IsSound_example :
    IsSound fixed (turn fixed a_round (booted fixed at_start.manager a_sync a_host 3)).1
Reach-IsSound_example = Reach-IsSound fixed at_start.manager a_sync a_host 3 (turned begun a_round)

turn-polls_example :
    let due =
      leb (effective_poll_interval none a_daemon.sync.active) (40000 - a_daemon.last_poll) in
    ((turn fixed a_round a_daemon).1.last_poll ≡ (if due then 40000 else a_daemon.last_poll))
    × (contains_key 5 (turn fixed a_round a_daemon).1.loop.full_info ≡ (
        if due
        then any (λ (e : ProcEntry). eqb e.pid 5) a_scan
        else contains_key 5 a_daemon.loop.full_info))
turn-polls_example = turn-polls fixed a_round a_daemon 5
