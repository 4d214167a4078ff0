-- ===== src/Tests/Data.antt =====
-- Test data: a host with both configuration files, and a few processes and rules.
use nicewatch.Prelude.{ℕ, true, false, [], ◌∷◌, none, some, if◌then◌else◌, ◌==◌}
use nicewatch.Prelude.Int.{pos}
use nicewatch.Prelude.Text.{Text, codes, text_eq}
use nicewatch.Prelude.Paths.{FilePath}
use nicewatch.Priority.{Tier, IoniceClass}
use nicewatch.Config.{AppConfig, Rule, default_config}
use nicewatch.Proc.{ProcEntry}
use nicewatch.Sync.Disk.{Env, Host}
use nicewatch.Sync.{Sync, missing}
use nicewatch.Rules.{RuleSet}
use nicewatch.Daemon.{Identity, Memory, Kernel, Effects}
use nicewatch.Wire.{ProcessInfo}

abbrev pub root_path : FilePath
root_path = codes "rules.toml" ∷ codes "etc" ∷ codes "/" ∷ []

abbrev pub local_path : FilePath
local_path = codes "local.toml" ∷ codes "home" ∷ codes "/" ∷ []

abbrev pub a_rule : Rule
a_rule = record {
  name = codes "b";
  match_name = codes "b";
  tier = some Tier.game;
  nice = none;
  ionice_class = none;
  ionice_priority = none;
  delay = some 10;
  cgroup = none;
}

abbrev pub a_config : AppConfig
a_config = record {
  poll_interval_ms = some 500;
  rules = (codes "b", a_rule) ∷ [];
  auto_game = none;
}

-- A parser that knows one text.
abbrev pub an_env : Env
an_env = record {
  from_str = λ t. if t == codes "g" then some a_config else none;
  to_string = λ cfg. codes "g";
  may_create_dir = λ dir. true;
  may_write = λ path. true;
  may_rename = λ path. true;
}

abbrev pub a_host : Host
a_host = record {
  files =
      (root_path, record { content = codes "old"; mtime = 5000; is_readable = true })
      ∷ (local_path, record { content = codes "g"; mtime = 9000; is_readable = true })
      ∷ [];
  dirs = [];
  instant = 100000;
  wall = 100000;
}

-- A host whose local file does not parse.
abbrev pub a_broken_host : Host
a_broken_host = record a_host {
  files = (local_path, record { content = codes "x"; mtime = 9500; is_readable = true }) ∷ [];
}

abbrev pub a_sync : Sync
a_sync = record {
  root = root_path;
  local = local_path;
  active = default_config;
  active_source = missing;
  promote_debounce = 30000;
  local_write_debounce = 1000;
  pending_promote = true;
  local_changed_at = some 1000;
  local_mtime_at_change = some 9000;
  pending_local_write = false;
  local_write_at = none;
  self_writes = [];
  known_mtimes = [];
  warnings = [];
}

abbrev pub an_entry : ProcEntry
an_entry = record {
  pid = 42;
  ppid = 1;
  name = codes "kwin_x11";
  state = b'S';
  utime = 1;
  stime = 2;
  nice = pos 0;
  rss_kb = 100;
  uid = 1000;
  start_secs = 7;
  exe = none;
  environ = none;
  cmdline = none;
  has_dri_fd = true;
  cgroup = none;
}

abbrev pub a_user : Identity
a_user = record { our_pid = 9; our_uid = 1000; privileged = false }

abbrev pub a_ruleset : RuleSet
a_ruleset = record {
  by_match = (codes "b", a_rule) ∷ [];
  auto_game = record { tier = none; nice = none; ionice_class = none; ionice_priority = none };
}

abbrev pub a_memory : Memory
a_memory = record {
  prompted_names = codes "p" ∷ [];
  instance_games = [];
  suppressed_until_exit = [];
}

abbrev pub a_kernel : Kernel
a_kernel = record {
  stat = λ pid. none;
  ioprio_get = λ calls pid. some 16384;
  accepts_nice = λ pid n. true;
  accepts_ioprio = λ pid v. true;
}

abbrev pub no_effects : Effects
no_effects = record { calls = []; warned = []; reports = [] }

abbrev pub info_of : ℕ → Text → ℕ → ProcessInfo ℕ
info_of pid name cpu = record {
  pid = pid;
  ppid = 1;
  name = name;
  user = codes "u";
  cpu_percent = cpu;
  mem_kb = 5;
  status = codes "running";
  nice = pos 0;
  ionice_class = IoniceClass.none_class;
  ionice_priority = 0;
  tier = none;
  capped = false;
  game_detected = false;
  exe = none;
  start_secs = 0;
}
