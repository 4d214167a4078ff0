-- ===== src/Sync/LocalWrite.antt =====
-- What `write_local` of daemon/src/sync.rs changes.
use nicewatch.Prelude.{◌≡◌, ◌≢◌, refl, ap, ◌∙◌, Bool, true, false, Option, none, some, arith}
use nicewatch.Prelude.Text.{Text}
use nicewatch.Prelude.Paths.{FilePath, path_eq, parent}
use nicewatch.Prelude.Maps.{get}
use nicewatch.Sync.Disk.{Env, Host, atomic_write, tmp_of, create_dir_all}
use nicewatch.Sync.Disk.Writes.{atomic_write-other}
use nicewatch.Sync.{Sync}
use nicewatch.Sync.Writing.{prepare_parent, write_local, written_local}

-- Preparing the directory and writing touch nothing that a promotion reads but the local file.
prepare_parent-keeps :
    (env : Env) (dir : Option FilePath) (h : Host) (s : Sync)
    → ((prepare_parent env dir (h, s)).0.files ≡ h.files)
      × ((prepare_parent env dir (h, s)).1.root ≡ s.root)
      × ((prepare_parent env dir (h, s)).1.local ≡ s.local)
unfolding prepare_parent create_dir_all
prepare_parent-keeps env none h s = (refl, refl, refl)
prepare_parent-keeps env (some dir) h s = ground arith

written_local-keeps :
    (r : Bool × Host) (s : Sync)
    → ((written_local r s).0 ≡ r.1) × ((written_local r s).1.root ≡ s.root)
unfolding written_local
written_local-keeps (true, h) s = (refl, refl)
written_local-keeps (false, h) s = (refl, refl)

written-root :
    (env : Env) (h h' : Host) (s s' : Sync) (bytes : Text)
    → h'.files ≡ h.files
    → s'.root ≡ s.root
    → s'.local ≡ s.local
    → s.root ≢ s.local
    → s.root ≢ tmp_of s.local
    → (get s.root (written_local (atomic_write env s'.local bytes h') s').0.files
        ≡ get s.root h.files)
      × ((written_local (atomic_write env s'.local bytes h') s').1.root ≡ s.root)
written-root env h h' s s' bytes files root local a b =
    let a' : s.root ≢ s'.local = λ e. a (e ∙ local) in
    let b' : s.root ≢ tmp_of s'.local = λ e. b (e ∙ ap tmp_of local) in
    let other = atomic_write-other env s'.local bytes h' s.root a' b' in
    let (same, kept) = written_local-keeps (atomic_write env s'.local bytes h') s' in
    (ap (λ (x : Host). get s.root x.files) same ∙ other ∙ ap (get s.root) files, kept ∙ root)

-- Writing the local file leaves the root file.
pub write_local-root :
    (env : Env) (h : Host) (s : Sync)
    → s.root ≢ s.local
    → s.root ≢ tmp_of s.local
    → (get s.root (write_local env h s).0.files ≡ get s.root h.files)
      × ((write_local env h s).1.root ≡ s.root)
unfolding write_local
write_local-root env h s a b =
    let (files, root, local) = prepare_parent-keeps env (parent s.local) h s in
    let p = prepare_parent env (parent s.local) (h, s) in
    written-root env h p.0 s p.1 (env.to_string p.1.active) files root local a b
