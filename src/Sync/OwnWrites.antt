-- ===== src/Sync/OwnWrites.antt =====
-- How daemon/src/sync.rs tells its own writes from edits, and what an edit does to a promotion.
use nicewatch.Prelude.{
  ℕ, ◌+◌, ◌≤◌, ◌<◌, ◌≡◌, ◌≢◌, refl, ap, Bool, true, false, Option, none, some, arith, eq_refl,
}
use nicewatch.Prelude.Paths.{FilePath, path_eq, path_beq_iff, parent}
use nicewatch.Prelude.Maps.{get, get-insert}
use nicewatch.Config.{AppConfig}
use nicewatch.Sync.Disk.{
  Env, Host, File, file_mtime, mtime_of, create_dir_all, write_file, rename, tmp_of, parent_or_dot,
  atomic_write,
}
use nicewatch.Sync.Disk.Writes.{atomic_write-get}
use nicewatch.Prelude.Text.{Text}
use nicewatch.Sync.Promotion.{tick_idle}
use nicewatch.Sync.{
  Sync, Notice, local_source, warn, failed, config, load_file, load_local, load_root,
  on_path_changed, is_self_write, poll_path, self_write_tolerance,
}
use nicewatch.Sync.Writing.{prepare_parent, written_local, write_local, tick, unchanged_since}

-- A changed file that cannot be read or parsed leaves the configuration in force.
pub broken_file_kept :
    (env : Env) (h : Host) (path : FilePath) (now : ℕ) (s : Sync) {n : Notice}
    → load_file env h path ≡ failed n
    → ((on_path_changed env h path now s).1.active ≡ s.active)
      × ((on_path_changed env h path now s).1.active_source ≡ s.active_source)
unfolding on_path_changed load_local load_root
broken_file_kept env h path now s bad =
    ground (arith, path_beq_iff path s.local, path_beq_iff path s.root)

-- An edit of the local file that loads is in force at once.
pub edit_registered :
    (env : Env) (h : Host) (now : ℕ) (s : Sync) {cfg : AppConfig}
    → is_self_write h s.local s ≡ false
    → load_file env h s.local ≡ config cfg
    → on_path_changed env h s.local now s ≡ (
      true,
      record s {
        active = cfg;
        active_source = local_source;
        local_changed_at = some now;
        local_mtime_at_change = file_mtime h s.local;
        pending_promote = true;
      },
    )
unfolding on_path_changed load_local
edit_registered env h now s ours loads = ground (arith, eq_refl s.local)

-- An edit of the local file that loads and is not taken for a write of the daemon is in force at
-- once, and restarts the settle window: no tick sooner than the debounce after it promotes anything,
-- where no local write is pending.
pub edit_restarts_window :
    (env : Env) (h : Host) (now later : ℕ) (s : Sync) {cfg : AppConfig}
    → is_self_write h s.local s ≡ false
    → load_file env h s.local ≡ config cfg
    → s.pending_local_write ≡ false
    → now ≤ later
    → later < now + s.promote_debounce
    → ((on_path_changed env h s.local now s).1.active ≡ cfg)
      × ((tick env h later (on_path_changed env h s.local now s).1).0 ≡ false)
edit_restarts_window env h now later s ours loads idle order soon =
    let e = edit_registered env h now s ours loads in
    rw e (refl, ap (λ (r : Bool × Host × Sync). r.0) (tick_idle env h later _ idle (ground arith)))

-- What a local edit that does not load leaves.
broken_edit :
    (env : Env) (h : Host) (now : ℕ) (s : Sync) {n : Notice}
    → load_file env h s.local ≡ failed n
    → is_self_write h s.local s ≡ false
    → on_path_changed env h s.local now s ≡ (true, record (warn n s) { pending_promote = true })
unfolding on_path_changed load_local
broken_edit env h now s bad ours = ground (arith, eq_refl s.local)

changed_since : (cur at : Option ℕ) → cur ≢ at → unchanged_since cur at ≡ false
unfolding unchanged_since
changed_since none none d = refl
changed_since none (some b) d = refl
changed_since (some a) none d = refl
changed_since (some a) (some b) d = ground arith

-- A local edit that does not load is not promoted either, as long as the file's modification time
-- is not the one of the last good load and no local write is pending.
pub broken_local_not_promoted :
    (env : Env) (h : Host) (now later : ℕ) (s : Sync) {n : Notice}
    → load_file env h s.local ≡ failed n
    → is_self_write h s.local s ≡ false
    → file_mtime h s.local ≢ s.local_mtime_at_change
    → s.pending_local_write ≡ false
    → (tick env h later (on_path_changed env h s.local now s).1).0 ≡ false
broken_local_not_promoted env h now later s bad ours moved idle =
    let e = broken_edit env h now s bad ours in
    let c = changed_since (file_mtime h s.local) s.local_mtime_at_change moved in
    rw e (ap (λ (r : Bool × Host × Sync). r.0) (tick_idle env h later _ idle (ground arith)))

-- A host that refuses nothing.
pub record Permits (env : Env) : Type 0 where
  pub dirs_made : (dir : FilePath) → env.may_create_dir dir ≡ true
  pub written : (path : FilePath) → env.may_write path ≡ true
  pub renamed : (path : FilePath) → env.may_rename path ≡ true

atomic_write_permitted :
    (env : Env) (path : FilePath) (bytes : Text) (h : Host)
    → Permits env
    → (atomic_write env path bytes h).0 ≡ true
unfolding atomic_write create_dir_all write_file rename
atomic_write_permitted env path bytes h p =
    let stamped : File = record { content = bytes; mtime = h.wall; is_readable = true } in
    ground (
      arith,
      p.dirs_made (parent_or_dot path),
      p.written (tmp_of path),
      p.renamed path,
      get-insert (tmp_of path) (tmp_of path) stamped h.files,
      eq_refl (tmp_of path),
    )

prepare_parent-permitted :
    (env : Env) (dir : Option FilePath) (h : Host) (s : Sync)
    → Permits env
    → (prepare_parent env dir (h, s)).1 ≡ s
unfolding prepare_parent create_dir_all
prepare_parent-permitted env none h s p = refl
prepare_parent-permitted env (some dir) h s p = ground (arith, p.dirs_made dir)

written_local-recorded :
    (h : Host) (s : Sync) {f : File}
    → get s.local h.files ≡ some f
    → is_self_write h s.local (written_local (true, h) s).1 ≡ true
unfolding is_self_write written_local file_mtime mtime_of
written_local-recorded h s {f} g =
    rw g (ground (arith, get-insert s.local s.local f.mtime s.self_writes, eq_refl s.local))

-- What `on_path_changed` makes of the daemon's own write of the local file.
own_write_skipped_lem :
    (env : Env) (h : Host) (now : ℕ) (s : Sync)
    → is_self_write h s.local s ≡ true
    → on_path_changed env h s.local now s ≡ (false, s)
unfolding on_path_changed
own_write_skipped_lem env h now s ours = ground (arith, eq_refl s.local)

not_written : false ≡ true → ⊥
not_written h = cc

written_skipped :
    (env : Env) (r : Bool × Host) (now : ℕ) (s : Sync) {f : File}
    → r.0 ≡ true
    → get s.local r.1.files ≡ some f
    → on_path_changed env (written_local r s).0 s.local now (written_local r s).1
      ≡ (false, (written_local r s).1)
unfolding written_local
written_skipped env (true, h) now s ok g =
    own_write_skipped_lem env h now (written_local (true, h) s).1 (written_local-recorded h s g)
written_skipped env (false, h) now s ok g = absurd (not_written ok)

written_pending :
    (r : Bool × Host) (s : Sync) → r.0 ≡ true → (written_local r s).1.pending_promote ≡ true
unfolding written_local
written_pending (true, h) s ok = refl
written_pending (false, h) s ok = absurd (not_written ok)

-- On a host that refuses nothing, writing the local file registers a local change, and the event
-- for that write reloads nothing and changes nothing.
pub own_write_skipped :
    (env : Env) (h : Host) (now : ℕ) (s : Sync)
    → Permits env
    → ((write_local env h s).1.pending_promote ≡ true)
      × (on_path_changed env (write_local env h s).0 s.local now (write_local env h s).1
          ≡ (false, (write_local env h s).1))
unfolding write_local
own_write_skipped env h now s p =
    let same = prepare_parent-permitted env (parent s.local) h s p in
    let h' = (prepare_parent env (parent s.local) (h, s)).0 in
    let ok = atomic_write_permitted env s.local (env.to_string s.active) h' p in
    rw same (
      written_pending (atomic_write env s.local (env.to_string s.active) h') s ok,
      written_skipped env (atomic_write env s.local (env.to_string s.active) h') now s ok
          (atomic_write-get env s.local (env.to_string s.active) h' ok),
    )

-- An edit of the local file within the tolerance after a write of the daemon is not taken over:
-- the poll that sees it keeps the configuration in force and marks the modification time as known,
-- so that no later poll of the unchanged file reloads it.
pub early_edit_lost :
    (env : Env) (h : Host) (now later : ℕ) (s : Sync) {wrote edited : ℕ}
    → get s.local s.self_writes ≡ some wrote
    → file_mtime h s.local ≡ some edited
    → wrote ≤ edited
    → edited < wrote + self_write_tolerance
    → ((poll_path env h now s.local (false, s)).1.active ≡ s.active)
      × (poll_path env h later s.local (false, (poll_path env h now s.local (false, s)).1)
          ≡ (false, (poll_path env h now s.local (false, s)).1))
unfolding poll_path on_path_changed is_self_write
early_edit_lost env h now later s {wrote} {edited} w e before soon =
    ground
      (arith, eq_refl s.local, get-insert s.local s.local (file_mtime h s.local) s.known_mtimes)
