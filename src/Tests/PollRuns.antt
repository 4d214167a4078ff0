-- ===== src/Tests/PollRuns.antt =====
-- Runs of the loop over the processes of a scan.
use nicewatch.Prelude.{
  ℕ, nat_eq, ◌≡◌, refl, Bool, true, false, ◌||◌, List, [], ◌∷◌, none, All, any, ltb,
}
use nicewatch.Prelude.Text.{codes}
use nicewatch.Proc.{ProcEntry}
use nicewatch.Detect.Known.{no_games}
use nicewatch.Cgroup.{Fs}
use nicewatch.Daemon.{Call}
use nicewatch.Daemon.Tables.{IsTable}
use nicewatch.Daemon.Poll.{Setting, Polled, poll_processes}
use nicewatch.Daemon.Cycle.{Loop, Readings, IsTold, finish_poll, finish_poll-IsTold}
use nicewatch.Daemon.Poll.Calls.{callee, touches, poll_processes-touches}
use nicewatch.Daemon.Poll.Table.{poll_processes-IsTable}
use nicewatch.Tests.Data.{an_entry, a_user, a_ruleset, a_memory, a_kernel, no_effects}

-- A kernel without a unified cgroup.
abbrev pub no_fs : Fs Bool
no_fs = record {
  create_dir_all = λ dir k. (none, k);
  create_dir = λ dir k. (none, k);
  remove_dir = λ dir k. (none, k);
  remove_dir_all = λ dir k. (none, k);
  remove_file = λ path k. (none, k);
  write = λ path text k. (none, k);
  read_to_string = λ path k. none;
  read_dir = λ dir k. none;
  proc_cgroup = λ pid k. none;
  proc_stat = λ pid k. none;
  to_json = λ entries. [];
  from_json = λ text. none;
  debug_limits = λ lims. [];
  debug_path = λ path. [];
  debug_text = λ text. text;
}

abbrev pub a_setting : Setting ℕ
a_setting = record {
  known = no_games;
  is_fullscreen = λ e. true;
  who = a_user;
  set = a_ruleset;
  memory = a_memory;
  kernel = a_kernel;
  now_secs = 100;
  user_of = λ uid. codes "u";
  refusal = λ call. [];
  cpu_percent = λ before now. 0;
}

abbrev pub at_start : Polled Bool ℕ
at_start = record {
  manager = record {
    kernel = false;
    base = none;
    enrolled = [];
    created_dirs = [];
    warned = [];
    controllers_reasserted = false;
    state_path = none;
  };
  effects = no_effects;
  flag_cache = [];
  prev_ticks = [];
  cur_info = [];
  names_seen = [];
}

-- A process with a rule, and one of another user that the same rule matches.
abbrev pub a_scan : List ProcEntry
a_scan =
    record an_entry { pid = 5; name = codes "b" }
    ∷ record an_entry { pid = 6; name = codes "b"; uid = 0 }
    ∷ []

poll_processes-touches_example :
    All
      (λ (call : Call). any (touches a_setting.who (callee call)) a_scan ≡ true)
      (poll_processes no_fs a_setting a_scan at_start).effects.calls
poll_processes-touches_example = poll_processes-touches no_fs a_setting a_scan at_start refl

abbrev pub moved : ℕ → ℕ → Bool
moved a b = ltb a b || ltb b a

starts-IsTable : IsTable moved at_start.cur_info
unfolding IsTable
starts-IsTable = tt

-- A daemon that has sent its snapshot and knows of no process.
abbrev pub a_loop : Loop Bool ℕ
a_loop = record {
  manager = at_start.manager;
  effects = no_effects;
  flag_cache = [];
  prev_ticks = [];
  full_info = [];
  memory = a_memory;
  pending_prompts = [];
  sent_initial_snapshot = true;
  outbox = [];
}

abbrev some_readings : Readings ℕ
some_readings = record {
  poll_interval = 1000;
  system_cpu = 7;
  report_cpu = 7;
  system_mem = (8, 4);
  client_count = 1;
}

abbrev a_poll : Polled Bool ℕ
a_poll = poll_processes no_fs a_setting a_scan at_start

a_poll-IsTable : IsTable moved a_poll.cur_info
a_poll-IsTable = (poll_processes-IsTable moved no_fs a_setting a_scan at_start 6 starts-IsTable).0

finish_poll-IsTold_example :
    ((finish_poll moved no_fs a_setting some_readings a_poll a_loop).full_info ≡ a_poll.cur_info)
    × IsTold moved no_fs a_setting some_readings 5 a_poll a_loop
        (finish_poll moved no_fs a_setting some_readings a_poll a_loop)
finish_poll-IsTold_example =
    finish_poll-IsTold moved no_fs a_setting some_readings 5 a_poll a_loop a_poll-IsTable
