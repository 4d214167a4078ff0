-- ===== src/Daemon/Turn/Sound.antt =====
-- What holds in every round of the main loop (`run`, daemon/src/main.rs).
use nicewatch.Prelude.{
  ℕ, ◌≡◌, ◌≤◌, refl, sym, ap, ◌∙◌, Bool, true, false, ◌||◌, List, [], ◌∷◌, arith, inl, inr,
  Bool-cases, Option, any, eqb, nat_eq,
}
use nicewatch.Config.{AppConfig}
use nicewatch.Rules.{from_config}
use nicewatch.Sync.{Sync, initial_load}
use nicewatch.Sync.Disk.{Host}
use nicewatch.Sync.Writing.{tick}
use nicewatch.Wire.{ClientMsg}
use nicewatch.Daemon.{effective_poll_interval}
use nicewatch.Daemon.Client.{Server, Context, handle_client_msg}
use nicewatch.Daemon.Client.Requests.{rules_follow}
use nicewatch.Prelude.Maps.{get, contains_key}
use nicewatch.Proc.{ProcEntry}
use nicewatch.Daemon.Poll.Table.{poll_processes-IsTable}
use nicewatch.Daemon.Cycle.{finish_poll-IsTold}
use nicewatch.Cgroup.Manager.State.{Manager}
use nicewatch.Daemon.Tables.{IsTable}
use nicewatch.Daemon.Turn.{
  context_of, server_of, serve_all, serve, reloaded, watch, write_back, poll_if_due, turn, booted,
  Reach, begun, turned, before_poll, changes_of, on_events, told_promotion,
}
use nicewatch.Daemon.Turn.Polling.{
  polled_once, drained, poll, is_due, polled_of, setting_of, readings_of,
}
use nicewatch.Daemon.Turn.State.{Daemon, Round, Fixed}
use nicewatch.Daemon.Turn.Quiet.{IsQuiet, on_events-IsQuiet, poll_mtimes-IsQuiet, tick-active}

module _ {K F : Type 0} (x : Fixed K F) where
  -- The rules in force are those of the configuration, the table has one entry for each pid, and the
  -- interval is within its bounds.
  pub record IsSound (d : Daemon K F) : Type 0 where
    pub follows : d.set ≡ from_config d.sync.active
    pub table : IsTable x.moved d.loop.full_info
    pub at_least : 250 ≤ d.poll_interval
    pub at_most : d.poll_interval ≤ 60000

  interval_bounded :
      (poll_ms : Option ℕ) (a : AppConfig)
      → (250 ≤ effective_poll_interval poll_ms a) × (effective_poll_interval poll_ms a ≤ 60000)
  unfolding effective_poll_interval
  interval_bounded poll_ms a = (ground arith, ground arith)

  serve_all-follows :
      (c : Context F) (msgs : List ClientMsg) (s : Server F)
      → s.set ≡ from_config s.sync.active
      → (serve_all x c msgs s).set ≡ from_config (serve_all x c msgs s).sync.active
  unfolding serve_all
  serve_all-follows c [] s e = e
  serve_all-follows c (msg ∷ msgs) s e =
      serve_all-follows c msgs (handle_client_msg c msg s) (rules_follow c msg s e)

  pub serve-IsSound : (t : Round F) (d : Daemon K F) → IsSound d → IsSound (serve x t d)
  unfolding serve
  serve-IsSound t d v = record {
    follows = serve_all-follows (context_of x t d) t.requests (server_of x d) v.follows;
    table = v.table;
    at_least = (interval_bounded x.poll_ms d.sync.active).0;
    at_most = (interval_bounded x.poll_ms d.sync.active).1;
  }

  reloaded-IsSound :
      (r : Bool × Sync) (d : Daemon K F)
      → IsQuiet d.sync.active r
      → IsSound d
      → IsSound (reloaded x r d)
  unfolding reloaded
  reloaded-IsSound (false, s) d q v = record {
    follows = v.follows ∙ ap from_config (sym (q refl));
    table = v.table;
    at_least = v.at_least;
    at_most = v.at_most;
  }
  reloaded-IsSound (true, s) d q v = record {
    follows = refl;
    table = v.table;
    at_least = v.at_least;
    at_most = v.at_most;
  }

  pub watch-IsSound : (t : Round F) (d : Daemon K F) → IsSound d → IsSound (watch x t d)
  unfolding watch changes_of
  watch-IsSound t d v =
      reloaded-IsSound (changes_of x t d) d
        (poll_mtimes-IsQuiet x.env t.host t.now d.sync.active
          (on_events x.env t.host t.now t.events (false, d.sync))
          (on_events-IsQuiet x.env t.host t.now t.events d.sync.active (false, d.sync) (λ _. refl)))
        v

  told_promotion-IsSound :
      (r : Bool × Host × Sync) (d : Daemon K F)
      → r.2.active ≡ d.sync.active
      → IsSound d
      → IsSound (told_promotion x r d).1
  unfolding told_promotion
  told_promotion-IsSound (false, h, s) d e v = record {
    follows = v.follows ∙ ap from_config (sym e);
    table = v.table;
    at_least = v.at_least;
    at_most = v.at_most;
  }
  told_promotion-IsSound (true, h, s) d e v = record {
    follows = v.follows ∙ ap from_config (sym e);
    table = v.table;
    at_least = v.at_least;
    at_most = v.at_most;
  }

  pub write_back-IsSound : (t : Round F) (d : Daemon K F) → IsSound d → IsSound (write_back x t d).1
  unfolding write_back
  write_back-IsSound t d v =
      told_promotion-IsSound (tick x.env t.host t.now d.sync) d
        (tick-active x.env t.host t.now d.sync) v

  pub polled-IsTable :
      (t : Round F) (d : Daemon K F) (pid : ℕ)
      → IsTable x.moved (polled_of x t d).cur_info
        × (contains_key pid (polled_of x t d).cur_info
            ≡ (any (λ (e : ProcEntry). eqb e.pid pid) t.entries || false))
  unfolding IsTable contains_key get
  polled-IsTable t d pid = poll_processes-IsTable x.moved x.fs (setting_of x t d) t.entries _ pid tt

  pub poll-full_info :
      (t : Round F) (d : Daemon K F) → (poll x t d).loop.full_info ≡ (polled_of x t d).cur_info
  unfolding poll polled_once drained
  poll-full_info t d =
      (finish_poll-IsTold x.moved x.fs (setting_of x t d) (readings_of x t d) 0 (polled_of x t d) _
        (polled-IsTable t d 0).0).0

  poll-IsSound : (t : Round F) (d : Daemon K F) → IsSound d → IsSound (poll x t d)
  unfolding poll polled_once drained
  poll-IsSound t d v = record {
    follows = v.follows;
    table = rw (poll-full_info t d) (polled-IsTable t d 0).0;
    at_least = v.at_least;
    at_most = v.at_most;
  }

  poll_if_due-IsSound :
      (t : Round F) (r : Host × Daemon K F) → IsSound r.1 → IsSound (poll_if_due x t r).1
  unfolding poll_if_due
  poll_if_due-IsSound t (h, d) v = elim (Bool-cases (is_due x t d)) [
    | inl due ↦ rw due (poll-IsSound t d v)
    | inr early ↦ rw early v
  ]

  turn-IsSound : (t : Round F) (d : Daemon K F) → IsSound d → IsSound (turn x t d).1
  unfolding turn before_poll
  turn-IsSound t d v =
      poll_if_due-IsSound t (before_poll x t d)
        (write_back-IsSound t _ (watch-IsSound t _ (serve-IsSound t d v)))

  booted-IsSound :
      (manager : Manager K) (sync : Sync) (h : Host) (now : ℕ)
      → IsSound (booted x manager sync h now)
  unfolding booted IsTable
  booted-IsSound manager sync h now = record {
    follows = refl;
    table = tt;
    at_least = (interval_bounded x.poll_ms (initial_load x.env h now sync).active).0;
    at_most = (interval_bounded x.poll_ms (initial_load x.env h now sync).active).1;
  }

  -- In every state that the loop reaches, whatever requests, changed files and processes its rounds
  -- find, the rules in force are those of the configuration in force, the table has one entry for
  -- each pid, and the interval is between 250 ms and a minute.
  pub Reach-IsSound :
      (manager : Manager K) (sync : Sync) (h : Host) (now : ℕ) {d : Daemon K F}
      → Reach x (booted x manager sync h now) d
      → IsSound d
  Reach-IsSound manager sync h now begun = booted-IsSound manager sync h now
  Reach-IsSound manager sync h now (turned r t) =
      turn-IsSound t _ (Reach-IsSound manager sync h now r)
