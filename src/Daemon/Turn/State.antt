-- ===== src/Daemon/Turn/State.antt =====
-- The state of the main loop, and what a round of it finds (`run`, daemon/src/main.rs).
use nicewatch.Prelude.{ℕ, Bool, List, Option}
use nicewatch.Prelude.Text.{Text}
use nicewatch.Prelude.Paths.{FilePath}
use nicewatch.Proc.{ProcEntry}
use nicewatch.Rules.{RuleSet}
use nicewatch.Cgroup.{Fs}
use nicewatch.Sync.{Sync, Notice}
use nicewatch.Sync.Disk.{Env, Host}
use nicewatch.Wire.{ClientMsg}
use nicewatch.Daemon.Poll.{Setting}
use nicewatch.Daemon.Cycle.{Loop}

-- What the loop keeps from round to round.
pub record Daemon (K F : Type 0) : Type 0 where
  pub sync : Sync
  pub set : RuleSet
  pub poll_interval : ℕ
  pub last_poll : ℕ
  pub loop : Loop K F
  pub prev_cpu_busy : Option (ℕ × ℕ)
  pub system_cpu : F
  pub system_cpu_samples : ℕ
  pub system_mem : ℕ × ℕ
  pub gpu_low_prev : Bool

-- An event of the file watcher.
pub record FileEvent : Type 0 where
  pub is_access : Bool
  pub paths : List FilePath

-- What one round finds: the instant, the disk, the requests and events that wait, and what a poll
-- reads. The rules and the memory of `setting` are those that the round has by then.
pub record Round (F : Type 0) : Type 0 where
  pub now : ℕ
  pub host : Host
  pub requests : List ClientMsg
  pub events : List FileEvent
  pub client_count : ℕ
  pub setting : Setting F
  pub entries : List ProcEntry
  pub gpu_low : Bool
  pub cpu_busy : ℕ × ℕ
  pub system_mem : ℕ × ℕ

-- What is fixed for the run of the daemon. `zero_percent` is `0.0`, `compute_system_cpu` the
-- percentage between two readings, `notice_text` the prose of a warning, and `gpu_notice` that of
-- the notice on the GPU.
pub record Fixed (K F : Type 0) : Type 0 where
  pub env : Env
  pub fs : Fs K
  pub moved : F → F → Bool
  pub zero_percent : F
  pub compute_system_cpu : Option (ℕ × ℕ) → ℕ × ℕ → F
  pub notice_text : Notice → Text
  pub gpu_notice : Text
  pub poll_ms : Option ℕ
