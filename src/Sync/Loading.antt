-- ===== src/Sync/Loading.antt =====
-- Which file is in force after a load (daemon/src/sync.rs).
use nicewatch.Prelude.{
  ℕ, ◌≡◌, Bool, true, false, ◌||◌, Option, none, some, arith, if◌then◌else◌, ltb,
}
use nicewatch.Prelude.Paths.{path_eq}
use nicewatch.Config.{AppConfig, default_config}
use nicewatch.Sync.Disk.{Env, Host, file_mtime}
use nicewatch.Sync.{
  Sync, Loaded, config, failed, load_file, load_root, load_local, initial_load, snapshot_mtimes,
}

-- The file that wins at the start, from the two modification times.
pub data Winner : Type 0 where
  neither root_wins local_wins : Winner

abbrev pub winner : Option ℕ → Option ℕ → Winner
winner none none = neither
winner (some r) none = root_wins
winner none (some l) = local_wins
winner (some r) (some l) = if ltb r l then local_wins else root_wins

abbrev pub or_kept : Loaded → AppConfig → AppConfig
or_kept (config cfg) kept = cfg
or_kept (failed n) kept = kept

abbrev pub loaded_from : Winner → Env → Host → Sync → AppConfig
loaded_from neither env h s = default_config
loaded_from root_wins env h s = or_kept (load_file env h s.root) s.active
loaded_from local_wins env h s = or_kept (load_file env h s.local) s.active

abbrev pub promotes : Winner → Bool
promotes local_wins = true
promotes _ = false

-- At the start the local file is in force if it is there and the root file is missing or strictly
-- older; otherwise the root file, and the defaults where both are missing. A file that cannot be
-- read or parsed leaves the previous configuration, also where the other file is good. A
-- promotion is pending afterwards exactly if the local file won or one was pending before.
pub initial_load-winner :
    (env : Env) (h : Host) (now : ℕ) (s : Sync)
    → ((initial_load env h now s).active
        ≡ loaded_from (winner (file_mtime h s.root) (file_mtime h s.local)) env h s)
      × ((initial_load env h now s).pending_promote
          ≡ (promotes (winner (file_mtime h s.root) (file_mtime h s.local)) || s.pending_promote))
unfolding initial_load snapshot_mtimes load_root load_local
initial_load-winner env h now s = ground arith
