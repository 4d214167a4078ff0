-- ===== src/Sync/Writing.antt =====
-- The debounced write of the local file and its promotion over the root file (daemon/src/sync.rs).
use nicewatch.Prelude.{
  ℕ, ◌+◌, ◌-◌, Bool, true, false, ◌&&◌, Option, none, some, if◌then◌else◌, leb, eqb,
}
use nicewatch.Prelude.Text.{Text}
use nicewatch.Prelude.Paths.{FilePath, path_eq, parent}
use nicewatch.Prelude.Maps.{Map, insert}
use nicewatch.Sync.Disk.{Env, Host, read_file, file_mtime, create_dir_all, atomic_write}
use nicewatch.Sync.{
  Sync, warn, root_source, cannot_create, cannot_write_local, cannot_read_for_promotion,
  cannot_write_root,
}

unfoldable pub schedule_local_write : Host → Sync → Sync
schedule_local_write h s = record s {
  pending_local_write = true;
  local_write_at = some (h.instant + s.local_write_debounce);
}

unfoldable pub prepare_parent : Env → Option FilePath → Host × Sync → Host × Sync
prepare_parent env none (h, s) = (h, s)
prepare_parent env (some dir) (h, s) =
    let (made, h') = create_dir_all env dir h in
    if made then (h', s) else (h', warn (cannot_create dir) s)

unfoldable pub record_write : Option ℕ → FilePath → Map FilePath ℕ → Map FilePath ℕ
record_write none path m = m
record_write (some t) path m = insert path t m

unfoldable pub written_local : Bool × Host → Sync → Host × Sync
unfolding record_write
written_local (true, h) s = (
  h,
  record s {
    self_writes = record_write (file_mtime h s.local) s.local s.self_writes;
    local_changed_at = some h.instant;
    local_mtime_at_change = file_mtime h s.local;
    pending_promote = true;
  },
)
written_local (false, h) s = (h, warn (cannot_write_local s.local) s)

unfoldable pub write_local : Env → Host → Sync → Host × Sync
unfolding prepare_parent written_local
write_local env h s =
    let (h', s') = prepare_parent env (parent s.local) (h, s) in
    written_local (atomic_write env s'.local (env.to_string s'.active) h') s'

unfoldable pub promoted : Bool × Host → Sync → Bool × Host × Sync
unfolding record_write
promoted (true, h) s = (
  true,
  h,
  record s {
    self_writes = record_write (file_mtime h s.root) s.root s.self_writes;
    pending_promote = false;
    active_source = root_source;
  },
)
promoted (false, h) s =
    (false, h, record (warn (cannot_write_root s.root) s) { pending_promote = false })

unfoldable pub promote_bytes : Option Text → Env → Host → Sync → Bool × Host × Sync
unfolding promoted
promote_bytes none env h s = (false, h, warn cannot_read_for_promotion s)
promote_bytes (some bytes) env h s = promoted (atomic_write env s.root bytes h) s

unfoldable pub promote : Env → Host → Sync → Bool × Host × Sync
unfolding promote_bytes
promote env h s = promote_bytes (read_file h s.local) env h s

unfoldable pub unchanged_since : Option ℕ → Option ℕ → Bool
unchanged_since (some cur) (some at) = eqb cur at
unchanged_since _ _ = false

-- `local_still_unchanged`
abbrev pub still_unchanged : Host → Sync → Bool
still_unchanged h s = unchanged_since (file_mtime h s.local) s.local_mtime_at_change

abbrev reached : Option ℕ → ℕ → Bool
reached none now = false
reached (some t) now = leb t now

-- `now.duration_since(t)` is 0 where `t` is later.
abbrev pub settled : Option ℕ → ℕ → ℕ → Bool
settled none now debounce = false
settled (some t) now debounce = leb debounce (now - t)

unfoldable pub flush : Env → Host → ℕ → Sync → Host × Sync
flush env h now s =
    if s.pending_local_write && reached s.local_write_at now
    then (let (h', s') = write_local env h s in (h', record s' { pending_local_write = false }))
    else (h, s)

unfoldable pub try_promote : Env → ℕ → Host × Sync → Bool × Host × Sync
unfolding unchanged_since
try_promote env now (h, s) =
    if s.pending_promote
      && (settled s.local_changed_at now s.promote_debounce && still_unchanged h s)
    then promote env h s
    else (false, h, s)

unfoldable pub tick : Env → Host → ℕ → Sync → Bool × Host × Sync
unfolding flush try_promote
tick env h now s = try_promote env now (flush env h now s)
