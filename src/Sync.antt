-- ===== src/Sync.antt =====
-- daemon/src/sync.rs: the two configuration files, their precedence and the promotion of the
-- local file over the root file. Instants and modification times are in milliseconds.
pub mod Disk
pub mod Writing
pub mod Edit
pub mod Loading
pub mod LocalWrite
pub mod Promotion
pub mod OwnWrites
pub mod Upsert
use nicewatch.Prelude.{
  ℕ, ◌+◌, ◌-◌, max, Bool, true, false, ◌&&◌, ◌||◌, List, [], ◌∷◌, Option, none, some, if◌then◌else◌,
  leb, ltb, eqb, ◌==◌,
}
use nicewatch.Prelude.Text.{Text}
use nicewatch.Prelude.Paths.{FilePath, path_eq, parent}
use nicewatch.Prelude.Maps.{Map, get, insert}
use nicewatch.Config.{AppConfig, default_config, parse}
use Disk.{Env, Host, read_file, file_mtime, create_dir_all, atomic_write}

pub data Source : Type 0 where
  root_source local_source missing : Source

-- The warnings, without their prose.
pub data Notice : Type 0 where
  no_config : Notice
  cannot_read : FilePath → Notice
  invalid : FilePath → Notice
  root_kept : FilePath → Notice
  cannot_create : FilePath → Notice
  cannot_write_local : FilePath → Notice
  cannot_read_for_promotion : Notice
  cannot_write_root : FilePath → Notice

pub record Sync : Type 0 where
  pub root : FilePath
  pub local : FilePath
  pub active : AppConfig
  pub active_source : Source
  pub promote_debounce : ℕ
  pub local_write_debounce : ℕ
  pub pending_promote : Bool
  pub local_changed_at : Option ℕ
  pub local_mtime_at_change : Option ℕ
  pub pending_local_write : Bool
  pub local_write_at : Option ℕ
  pub self_writes : Map FilePath ℕ
  pub known_mtimes : Map FilePath (Option ℕ)
  pub warnings : List Notice

abbrev pub min_promote_debounce : ℕ
min_promote_debounce = 50

abbrev pub self_write_tolerance : ℕ
self_write_tolerance = 1000

unfoldable pub new : FilePath → FilePath → ℕ → ℕ → Sync
new root local promote_debounce local_write_debounce = record {
  root = root;
  local = local;
  active = default_config;
  active_source = missing;
  promote_debounce = max promote_debounce min_promote_debounce;
  local_write_debounce = local_write_debounce;
  pending_promote = false;
  local_changed_at = none;
  local_mtime_at_change = none;
  pending_local_write = false;
  local_write_at = none;
  self_writes = [];
  known_mtimes = [];
  warnings = [];
}

-- `warnings.push`, the newest first.
abbrev pub warn : Notice → Sync → Sync
warn n s = record s { warnings = n ∷ s.warnings }

-- `load_file`: the configuration, if the file can be read and parsed, and the warning if not.
pub data Loaded : Type 0 where
  config : AppConfig → Loaded
  failed : Notice → Loaded

unfoldable pub load_file : Env → Host → FilePath → Loaded
load_file env h path = elim (read_file h path) [
  | none ↦ failed (cannot_read path)
  | some text ↦ elim (parse env.from_str text) [
    | none ↦ failed (invalid path)
    | some (cfg, complaints) ↦ config cfg
  ]
]

load_root_with : Loaded → Sync → Sync
load_root_with (config cfg) s = record s { active = cfg; active_source = root_source }
load_root_with (failed n) s = warn (root_kept s.root) (warn n s)

unfoldable pub load_root : Env → Host → Sync → Sync
unfolding load_root_with
load_root env h s = load_root_with (load_file env h s.root) s

load_local_with : Loaded → Host → ℕ → Sync → Sync
load_local_with (config cfg) h now s = record s {
  active = cfg;
  active_source = local_source;
  local_changed_at = some now;
  local_mtime_at_change = file_mtime h s.local;
}
load_local_with (failed n) h now s = warn n s

unfoldable pub load_local : Env → Host → ℕ → Sync → Sync
unfolding load_local_with
load_local env h now s = load_local_with (load_file env h s.local) h now s

unfoldable pub snapshot_mtimes : Host → Sync → Sync
snapshot_mtimes h s =
    let first = insert s.local (file_mtime h s.local) s.known_mtimes in
    record s { known_mtimes = insert s.root (file_mtime h s.root) first }

-- The cases of `initial_load` on the two modification times.
load_newest : Option ℕ → Option ℕ → Env → Host → ℕ → Sync → Sync
load_newest none none env h now s =
    warn no_config (record s { active = default_config; active_source = missing })
load_newest (some r) none env h now s = load_root env h s
load_newest none (some l) env h now s = record (load_local env h now s) { pending_promote = true }
load_newest (some r) (some l) env h now s =
    if ltb r l
    then record (load_local env h now s) { pending_promote = true }
    else load_root env h s

unfoldable pub initial_load : Env → Host → ℕ → Sync → Sync
unfolding load_newest
initial_load env h now s = snapshot_mtimes h (
    load_newest (file_mtime h s.root) (file_mtime h s.local) env h now (record s { warnings = [] }))

-- `cur.duration_since(recorded)` is an error where the clock went back.
within_tolerance : ℕ → ℕ → Bool
within_tolerance cur recorded =
    (leb recorded cur && ltb (cur - recorded) self_write_tolerance) || eqb cur recorded

written_by_us : Option ℕ → Option ℕ → Bool
unfolding within_tolerance
written_by_us none m = false
written_by_us (some recorded) none = false
written_by_us (some recorded) (some cur) = within_tolerance cur recorded

unfoldable pub is_self_write : Host → FilePath → Sync → Bool
unfolding written_by_us
is_self_write h path s = written_by_us (get path s.self_writes) (file_mtime h path)

-- The result is whether the active configuration may have changed.
unfoldable pub on_path_changed : Env → Host → FilePath → ℕ → Sync → Bool × Sync
on_path_changed env h path now s =
    if path == s.local
    then (if is_self_write h path s
        then (false, s)
        else (true, record (load_local env h now s) { pending_promote = true }))
    else if path == s.root
    then (if is_self_write h path s
        then (false, s)
        else (true, record (load_root env h s) { pending_promote = false }))
    else (false, s)

abbrev pub same_mtime : Option (Option ℕ) → Option ℕ → Bool
same_mtime none cur = false
same_mtime (some none) none = true
same_mtime (some (some a)) (some b) = eqb a b
same_mtime (some _) _ = false

-- One round of the loop of `poll_mtimes`.
unfoldable pub poll_path : Env → Host → ℕ → FilePath → Bool × Sync → Bool × Sync
poll_path env h now path (changed, s) =
    let cur = file_mtime h path in
    if same_mtime (get path s.known_mtimes) cur
    then (changed, s)
    else (let seen = record s { known_mtimes = insert path cur s.known_mtimes } in
        let (reloaded, s') = on_path_changed env h path now seen in (changed || reloaded, s'))

unfoldable pub poll_mtimes : Env → Host → ℕ → Sync → Bool × Sync
unfolding poll_path
poll_mtimes env h now s = poll_path env h now s.root (poll_path env h now s.local (false, s))
