-- ===== src/Daemon/Turn/Edits.antt =====
-- How an edit of the local file comes into force in a round (`run`, daemon/src/main.rs).
use nicewatch.Prelude.{ℕ, ◌≡◌, ◌≢◌, refl, true, false, some, eq_false}
use nicewatch.Prelude.Paths.{path_eq}
use nicewatch.Prelude.Maps.{get, insert, get-insert}
use nicewatch.Config.{AppConfig}
use nicewatch.Rules.{from_config}
use nicewatch.Sync.{
  Sync, local_source, config, load_file, is_self_write, poll_path, poll_mtimes, same_mtime,
}
use nicewatch.Sync.Disk.{Env, Host, file_mtime}
use nicewatch.Sync.OwnWrites.{edit_registered}
use nicewatch.Daemon.Turn.{serve}
use nicewatch.Daemon.Turn.State.{Daemon, Round, Fixed}

module _ (env : Env) (h : Host) (now : ℕ) (s : Sync) {cfg : AppConfig} (apart : s.local ≢ s.root)
    (root_known : same_mtime (get s.root s.known_mtimes) (file_mtime h s.root) ≡ true)
    (edited : same_mtime (get s.local s.known_mtimes) (file_mtime h s.local) ≡ false)
    (foreign : is_self_write h s.local s ≡ false)
    (loads : load_file env h s.local ≡ config cfg) where
  seen : Sync
  seen = record s { known_mtimes = insert s.local (file_mtime h s.local) s.known_mtimes }

  foreign_seen : is_self_write h s.local seen ≡ false
  unfolding is_self_write seen
  foreign_seen = foreign

  -- The state after the modification time of the local file was seen.
  taken : Sync
  taken = record s {
    known_mtimes = insert s.local (file_mtime h s.local) s.known_mtimes;
    active = cfg;
    active_source = local_source;
    local_changed_at = some now;
    local_mtime_at_change = file_mtime h s.local;
    pending_promote = true;
  }

  local_taken : poll_path env h now s.local (false, s) ≡ (true, taken)
  unfolding poll_path seen taken
  local_taken = rw edited (rw (edit_registered env h now seen foreign_seen loads) refl)

  root_still_known : same_mtime (get taken.root taken.known_mtimes) (file_mtime h taken.root) ≡ true
  unfolding taken
  root_still_known =
      rw (get-insert s.local s.root (file_mtime h s.local) s.known_mtimes)
        (rw (eq_false s.local s.root apart) root_known)

  root_skipped : poll_path env h now s.root (true, taken) ≡ (true, taken)
  unfolding poll_path taken
  root_skipped = rw root_still_known refl

  pub edit_polled : (poll_mtimes env h now s).0 ≡ true
  unfolding poll_mtimes
  edit_polled = rw local_taken (rw root_skipped refl)

  pub edit_polled-active : (poll_mtimes env h now s).1.active ≡ cfg
  unfolding poll_mtimes taken
  edit_polled-active = rw local_taken (rw root_skipped refl)

module _ {K F : Type 0} (x : Fixed K F) where
  -- The configuration that the rules are read from.
  abbrev pub IsInForce : AppConfig → Daemon K F → Type 0
  IsInForce cfg d = (d.sync.active ≡ cfg) × (d.set ≡ from_config cfg)

  -- The files as the requests of a round leave them.
  abbrev pub served_sync : Round F → Daemon K F → Sync
  served_sync t d = (serve x t d).sync
