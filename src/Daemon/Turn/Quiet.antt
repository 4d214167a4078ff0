-- ===== src/Daemon/Turn/Quiet.antt =====
-- The configuration in force and the reloads that are reported (daemon/src/sync.rs).
use nicewatch.Prelude.{
  ℕ, ◌≡◌, refl, ◌∙◌, Bool, true, false, ◌||◌, List, [], ◌∷◌, arith, inl, inr, Bool-cases, Option,
  none, some, nat_eq,
}
use nicewatch.Prelude.Paths.{FilePath, parent}
use nicewatch.Config.{AppConfig}
use nicewatch.Sync.{Sync, on_path_changed, poll_path, poll_mtimes}
use nicewatch.Prelude.Text.{Text}
use nicewatch.Sync.Disk.{Env, Host, read_file, atomic_write}
use nicewatch.Sync.Writing.{
  tick, flush, write_local, prepare_parent, written_local, try_promote, promote, promote_bytes,
  promoted,
}
use nicewatch.Daemon.Turn.{on_paths, on_events}
use nicewatch.Daemon.Turn.State.{FileEvent}

-- As long as no reload is reported, the configuration is still `a`.
abbrev pub IsQuiet : AppConfig → Bool × Sync → Type 0
IsQuiet a p = p.0 ≡ false → p.1.active ≡ a

module _ (env : Env) (h : Host) (now : ℕ) where
  on_path-IsQuiet :
      (path : FilePath) (a : AppConfig) (changed : Bool) (s : Sync)
      → IsQuiet a (changed, s)
      → (changed || (on_path_changed env h path now s).0) ≡ false
      → (on_path_changed env h path now s).1.active ≡ a
  unfolding on_path_changed
  on_path-IsQuiet path a changed s q e = ground (arith, q)

  on_paths-IsQuiet :
      (paths : List FilePath) (a : AppConfig) (p : Bool × Sync)
      → IsQuiet a p
      → IsQuiet a (on_paths env h now paths p)
  unfolding on_paths
  on_paths-IsQuiet [] a (changed, s) q = q
  on_paths-IsQuiet (path ∷ paths) a (changed, s) q =
      on_paths-IsQuiet paths a _ (on_path-IsQuiet path a changed s q)

  pub on_events-IsQuiet :
      (events : List FileEvent) (a : AppConfig) (p : Bool × Sync)
      → IsQuiet a p
      → IsQuiet a (on_events env h now events p)
  unfolding on_events
  on_events-IsQuiet [] a p q = q
  on_events-IsQuiet (ev ∷ events) a p q = elim (Bool-cases ev.is_access) [
    | inl read ↦ rw read (on_events-IsQuiet events a p q)
    | inr written ↦ rw written (on_events-IsQuiet events a _ (on_paths-IsQuiet ev.paths a p q))
  ]

  poll_path-IsQuiet :
      (path : FilePath) (a : AppConfig) (p : Bool × Sync)
      → IsQuiet a p
      → IsQuiet a (poll_path env h now path p)
  unfolding poll_path on_path_changed
  poll_path-IsQuiet path a (changed, s) q e = ground (arith, q)

  pub poll_mtimes-IsQuiet :
      (a : AppConfig) (p : Bool × Sync)
      → IsQuiet a p
      → (p.0 || (poll_mtimes env h now p.1).0) ≡ false
      → (poll_mtimes env h now p.1).1.active ≡ a
  unfolding poll_mtimes
  poll_mtimes-IsQuiet a (changed, s) q e =
      poll_path-IsQuiet s.root a (poll_path env h now s.local (false, s))
        (poll_path-IsQuiet s.local a (false, s) (λ _. q (ground arith))) (ground arith)

  written_local-active : (w : Bool × Host) (s : Sync) → (written_local w s).1.active ≡ s.active
  unfolding written_local
  written_local-active (true, h') s = refl
  written_local-active (false, h') s = refl

  prepare_parent-active :
      (dir : Option FilePath) (s : Sync) → (prepare_parent env dir (h, s)).1.active ≡ s.active
  unfolding prepare_parent
  prepare_parent-active none s = refl
  prepare_parent-active (some dir) s = ground arith

  flush-active : (s : Sync) → (flush env h now s).1.active ≡ s.active
  unfolding flush write_local
  flush-active s = ground (
    arith,
    written_local-active
        (atomic_write env (prepare_parent env (parent s.local) (h, s)).1.local
          (env.to_string (prepare_parent env (parent s.local) (h, s)).1.active)
          (prepare_parent env (parent s.local) (h, s)).0)
        (prepare_parent env (parent s.local) (h, s)).1,
    prepare_parent-active (parent s.local) s,
  )

  promoted-active : (w : Bool × Host) (s : Sync) → (promoted w s).2.active ≡ s.active
  unfolding promoted
  promoted-active (true, h') s = refl
  promoted-active (false, h') s = refl

  promote_bytes-active :
      (bytes : Option Text) (h' : Host) (s : Sync)
      → (promote_bytes bytes env h' s).2.active ≡ s.active
  unfolding promote_bytes
  promote_bytes-active none h' s = refl
  promote_bytes-active (some bytes) h' s = promoted-active (atomic_write env s.root bytes h') s

  try_promote-active : (p : Host × Sync) → (try_promote env now p).2.active ≡ p.1.active
  unfolding try_promote promote
  try_promote-active (h', s) = ground (arith, promote_bytes-active (read_file h' s.local) h' s)

  pub tick-active : (s : Sync) → (tick env h now s).2.active ≡ s.active
  unfolding tick
  tick-active s = try_promote-active (flush env h now s) ∙ flush-active s
