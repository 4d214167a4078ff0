-- ===== src/Sync/Disk/Writes.antt =====
-- What an atomic write leaves on the disk (daemon/src/sync.rs).
use nicewatch.Prelude.{◌≡◌, ◌≢◌, true, false, some, arith, eq_refl}
use nicewatch.Prelude.Text.{Text}
use nicewatch.Prelude.Paths.{FilePath, path_eq, path_beq_iff}
use nicewatch.Prelude.Maps.{get, insert, remove, get-insert, get-remove}
use nicewatch.Sync.Disk.{Env, Host, File, create_dir_all, write_file, rename, tmp_of, atomic_write}

module _ (env : Env) (path : FilePath) (bytes : Text) (h : Host) where
  abbrev stamped : File
  stamped = record { content = bytes; mtime = h.wall; is_readable = true }

  -- A successful write leaves the bytes and the time of the write under the path.
  pub atomic_write-get :
      (atomic_write env path bytes h).0 ≡ true
      → get path (atomic_write env path bytes h).1.files ≡ some stamped
  unfolding atomic_write create_dir_all write_file rename
  atomic_write-get ok =
      let stamp = insert (tmp_of path) stamped h.files in
      ground (
        arith,
        get-insert (tmp_of path) (tmp_of path) stamped h.files,
        eq_refl (tmp_of path),
        eq_refl path,
        get-insert path path stamped (remove (tmp_of path) stamp),
      )

  -- Every other file but the temporary one is as before.
  pub atomic_write-other :
      (q : FilePath)
      → q ≢ path
      → q ≢ tmp_of path
      → get q (atomic_write env path bytes h).1.files ≡ get q h.files
  unfolding atomic_write create_dir_all write_file rename
  atomic_write-other q n t =
      let stamp = insert (tmp_of path) stamped h.files in
      ground (
        arith,
        get-insert (tmp_of path) (tmp_of path) stamped h.files,
        eq_refl (tmp_of path),
        get-insert (tmp_of path) q stamped h.files,
        path_beq_iff (tmp_of path) q,
        path_beq_iff path q,
        get-remove (tmp_of path) q stamp,
        get-insert path q stamped (remove (tmp_of path) stamp),
      )

  -- A failed write leaves every file but the temporary one.
  pub atomic_write_failed :
      (q : FilePath)
      → q ≢ tmp_of path
      → (atomic_write env path bytes h).0 ≡ false
      → get q (atomic_write env path bytes h).1.files ≡ get q h.files
  unfolding atomic_write create_dir_all write_file rename
  atomic_write_failed q t bad =
      let stamp = insert (tmp_of path) stamped h.files in
      ground (
        arith,
        get-insert (tmp_of path) (tmp_of path) stamped h.files,
        eq_refl (tmp_of path),
        get-insert (tmp_of path) q stamped h.files,
        path_beq_iff (tmp_of path) q,
        path_beq_iff path q,
        get-remove (tmp_of path) q stamp,
        get-insert path q stamped (remove (tmp_of path) stamp),
      )

  pub atomic_write_clocks :
      ((atomic_write env path bytes h).1.instant ≡ h.instant)
      × ((atomic_write env path bytes h).1.wall ≡ h.wall)
  unfolding atomic_write create_dir_all write_file rename
  atomic_write_clocks = ground arith
