-- ===== src/Daemon/Turn/Polling.antt =====
-- The poll of a round of the main loop (`run`, daemon/src/main.rs).
use nicewatch.Prelude.{
  ◌-◌, ◌+◌, ◌%◌, ◌^◌, Bool, ◌&&◌, not, [], ◌∷◌, ◌++◌, some, map, if◌then◌else◌, leb,
}
use nicewatch.Cgroup.Manager.{ensure_controllers}
use nicewatch.Wire.{ServerMsg}
use nicewatch.Daemon.Poll.{Setting, Polled, poll_processes}
use nicewatch.Daemon.Cycle.{Loop, Readings, finish_poll}
use nicewatch.Daemon.Turn.State.{Daemon, Round, Fixed}
use nicewatch.Daemon.Turn.State.{Daemon, Round, Fixed}

module _ {K F : Type 0} (x : Fixed K F) where
  abbrev pub setting_of : Round F → Daemon K F → Setting F
  setting_of t d = record t.setting { set = d.set; memory = d.loop.memory }

  -- The loop over the entries, and what it starts from.
  abbrev pub polled_of : Round F → Daemon K F → Polled K F
  polled_of t d = poll_processes x.fs (setting_of t d) t.entries (record {
    manager = ensure_controllers x.fs d.loop.manager;
    effects = record d.loop.effects { reports = [] };
    flag_cache = d.loop.flag_cache;
    prev_ticks = d.loop.prev_ticks;
    cur_info = [];
    names_seen = [];
  })

  -- The notice on the GPU, once for each time that it is slow.
  unfoldable pub gpu_told : Round F → Daemon K F → Loop K F
  gpu_told t d =
      if t.gpu_low && not d.gpu_low_prev
      then record d.loop { outbox = ServerMsg.warning x.gpu_notice ∷ d.loop.outbox }
      else d.loop

  -- The warnings that `apply_target` broadcasts in the loop over the entries.
  unfoldable pub refusals_told : Round F → Daemon K F → Loop K F
  unfolding gpu_told
  refusals_told t d =
      let l = gpu_told t d in
      record l {
        outbox =
            map (λ call. ServerMsg.warning (t.setting.refusal call)) (polled_of t d).effects.reports
            ++ l.outbox;
      }

  abbrev pub readings_of : Round F → Daemon K F → Readings F
  readings_of t d =
      let cpu = x.compute_system_cpu d.prev_cpu_busy t.cpu_busy in
      record {
        poll_interval = d.poll_interval;
        system_cpu = cpu;
        report_cpu = if leb 2 ((d.system_cpu_samples + 1) % 2 ^ 32) then cpu else x.zero_percent;
        system_mem = t.system_mem;
        client_count = t.client_count;
      }

  -- `sync.warnings.drain(..)`, each of which is broadcast.
  unfoldable pub drained : Daemon K F → Daemon K F
  drained d = record d {
    sync = record d.sync { warnings = [] };
    loop = record d.loop {
      outbox = map (λ n. ServerMsg.warning (x.notice_text n)) d.sync.warnings ++ d.loop.outbox;
    };
  }

  -- A poll up to the warnings.
  unfoldable pub polled_once : Round F → Daemon K F → Daemon K F
  unfolding refusals_told
  polled_once t d =
      let r = readings_of t d in
      record d {
        last_poll = t.now;
        loop = finish_poll x.moved x.fs (setting_of t d) r (polled_of t d) (refusals_told t d);
        prev_cpu_busy = some t.cpu_busy;
        system_cpu = r.system_cpu;
        system_cpu_samples = (d.system_cpu_samples + 1) % 2 ^ 32;
        system_mem = t.system_mem;
        gpu_low_prev = t.gpu_low;
      }

  unfoldable pub poll : Round F → Daemon K F → Daemon K F
  unfolding polled_once drained
  poll t d = drained (polled_once t d)

  -- `now.duration_since(last_poll)` is 0 where the last poll is later.
  abbrev pub is_due : Round F → Daemon K F → Bool
  is_due t d = leb d.poll_interval (t.now - d.last_poll)
