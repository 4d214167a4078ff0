-- ===== src/Setup/Copied.antt =====
-- That the installed copy is there after an installation (`install`, daemon/src/setup.rs).
use nicewatch.Prelude.{
  ◌≡◌, ◌⊎◌, inl, inr, refl, ap, ◌∙◌, Bool, true, false, List, Option, none, some, arith, ◌==◌,
  eq_iff, if◌then◌else◌,
}
use nicewatch.Prelude.Text.{Text}
use nicewatch.Prelude.Paths.{FilePath, path_eq}
use nicewatch.Prelude.Maps.{get-insert, is_some}
use nicewatch.Sync.Disk.{write_file}
use nicewatch.Setup.{
  Installed, copy_to, install_from, install_binary_copy, default_local, default_root,
  ensure_default_config, install_user, install_autostart, started_system, after_system_unit,
  install_elsewhere, install_service, install, reload_args,
}
use nicewatch.Setup.Places.{
  local_config_path, root_config_path, binary_path, systemd_user_available, systemd_user_dir,
  autostart_dir,
}
use nicewatch.Setup.Machine.{
  Session, Failure, Machine, Result, ok, err, M, next, ◌>>=◌, give, write, systemctl, attempt,
  make_dir, chmod, exists, cannot_chmod,
}
use nicewatch.Setup.Traces.{
  file_at, Spares, Spares-chmod, Spares-exists, Spares-systemctl, Spares-make_dir,
}
use nicewatch.Setup.Outcome.{Ensures, Ensures-bind, Anything}

abbrev pub IsThere : FilePath → Machine → Type 0
IsThere path m = is_some (file_at path m) ≡ true

-- A program that does not take the file away.
abbrev Keeps : {A : Type 0} → FilePath → M A → Type 0
Keeps path p = (m : Machine) → IsThere path m → IsThere path (p m).0

module _ (path : FilePath) where
  Keeps-Spares : {A : Type 0} → (p : M A) → Spares path p → Keeps path p
  Keeps-Spares p sp m h = ap is_some (sp m) ∙ h

  Keeps-next :
      {A B : Type 0}
      → (r : Machine × Result A) (f : A → M B) → ((a : A) → Keeps path (f a))
      → IsThere path r.0
      → IsThere path (next f r).0
  Keeps-next (m, ok a) f kf h = kf a m h
  Keeps-next (m, err e) f kf h = h

  Keeps-bind :
      {A B : Type 0}
      → (p : M A) (f : A → M B) → Keeps path p
      → ((a : A) → Keeps path (f a))
      → Keeps path (p >>= f)
  unfolding ◌>>=◌
  Keeps-bind p f kp kf m h = Keeps-next (p m) f kf (kp m h)

  Keeps-write :
      (s : Session) (e : Failure) (q : FilePath) (text : Text) → Keeps path (write s e q text)
  unfolding write write_file
  Keeps-write s e q text m h = ground (
    arith,
    get-insert q path (record { content = text; mtime = m.host.wall; is_readable = true })
        m.host.files,
  )

  module _ (s : Session) where
    -- A step that touches no file, and one that writes one, before the rest.
    after_dir :
        {B : Type 0}
        → (dir : FilePath) (f : Unit {0} → M B) → ((a : Unit {0}) → Keeps path (f a))
        → Keeps path (make_dir s dir >>= f)
    after_dir dir f kf =
        Keeps-bind _ f (Keeps-Spares (make_dir s dir) (Spares-make_dir path s dir)) kf

    after_write :
        {B : Type 0}
        → (e : Failure) (q : FilePath) (text : Text) (f : Unit {0} → M B)
        → ((a : Unit {0}) → Keeps path (f a))
        → Keeps path (write s e q text >>= f)
    after_write e q text f kf = Keeps-bind _ f (Keeps-write s e q text) kf

    after_attempt :
        {B : Type 0}
        → (user : Bool) (args : List Text) (f : Bool → M B) → ((a : Bool) → Keeps path (f a))
        → Keeps path (attempt (systemctl s user args) >>= f)
    after_attempt user args f kf =
        Keeps-bind _ f (Keeps-Spares (systemctl s user args) (Spares-systemctl path s user args)) kf

    default_local-Keeps : (there : Bool) → Keeps path (default_local s there)
    unfolding default_local
    default_local-Keeps true = λ m h. h
    default_local-Keeps false = after_dir _ _ (λ _. Keeps-write s _ _ _)

    default_root-Keeps : (there : Bool) → Keeps path (default_root s there)
    unfolding default_root
    default_root-Keeps true = λ m h. h
    default_root-Keeps false = λ m h. Keeps-write s _ _ _ m h

    exists-Keeps : (q : FilePath) → Keeps path (exists q)
    exists-Keeps q = Keeps-Spares (exists q) (Spares-exists path q)

    ensure_default_config-Keeps : Keeps path (ensure_default_config s)
    unfolding ensure_default_config
    ensure_default_config-Keeps = Keeps-bind _ _ (exists-Keeps (local_config_path s)) (λ local.
        Keeps-bind _ _ (default_local-Keeps local)
          (λ _. Keeps-bind _ _ (exists-Keeps root_config_path) default_root-Keeps))

    install_user-Keeps :
        (o : Option FilePath) (binary : FilePath) → Keeps path (install_user s o binary)
    unfolding install_user
    install_user-Keeps none binary = λ m h. h
    install_user-Keeps (some dir) binary = after_dir _ _ (λ _. after_write _ _ _ _ (λ _.
        Keeps-bind _ _
          (Keeps-Spares (systemctl s true reload_args) (Spares-systemctl path s true reload_args))
          (λ _. after_attempt _ _ _ (λ _. after_attempt _ _ _ (λ _ m h. h)))))

    install_autostart-Keeps :
        (o : Option FilePath) (binary : FilePath) → Keeps path (install_autostart s o binary)
    unfolding install_autostart
    install_autostart-Keeps none binary = λ m h. h
    install_autostart-Keeps (some dir) binary =
        after_dir _ _ (λ _. after_write _ _ _ _ (λ _ m h. h))

    started_system-Keeps : (b : Bool) → Keeps path (started_system s b)
    unfolding started_system
    started_system-Keeps false = λ m h. h
    started_system-Keeps true = after_attempt _ _ _ (λ _. after_attempt _ _ _ (λ _ m h. h))

    after_system_unit-Keeps :
        (b : Bool) (binary : FilePath) → Keeps path (after_system_unit s b binary)
    unfolding after_system_unit
    after_system_unit-Keeps false binary = install_autostart-Keeps (autostart_dir s) binary
    after_system_unit-Keeps true binary = after_attempt _ _ _ started_system-Keeps

    install_elsewhere-Keeps :
        (b : Bool) (binary : FilePath) → Keeps path (install_elsewhere s b binary)
    unfolding install_elsewhere
    install_elsewhere-Keeps false binary = install_autostart-Keeps (autostart_dir s) binary
    install_elsewhere-Keeps true binary =
        Keeps-bind _ _ (λ m h. Keeps-write s _ _ _ m h) (λ b. after_system_unit-Keeps b binary)

    install_service-Keeps : (b : Bool) (binary : FilePath) → Keeps path (install_service s b binary)
    unfolding install_service
    install_service-Keeps true binary = install_user-Keeps (systemd_user_dir s) binary
    install_service-Keeps false binary = install_elsewhere-Keeps _ binary

    write-IsThere :
        (e : Failure) (text : Text) → Ensures Anything (write s e path text) (λ _ m. IsThere path m)
    unfolding write write_file
    write-IsThere e text m a pre done = ground (
      arith,
      (eq_iff path path).1 refl,
      get-insert path path (record { content = text; mtime = m.host.wall; is_readable = true })
          m.host.files,
    )

module _ (s : Session) where
  abbrev Copied : {A : Type 0} → A → Machine → Type 0
  Copied a m = IsThere (binary_path s) m

  before_copy :
      {A : Type 0}
      → (p : M A) (f : A → M FilePath) → ((a : A) → Ensures Anything (f a) Copied)
      → Ensures Anything (p >>= f) Copied
  before_copy p f h = Ensures-bind Anything (λ _. Anything) Copied p f (λ m a pre done. tt) h

  copy_to-Copied : Ensures Anything (copy_to s (binary_path s)) Copied
  unfolding copy_to
  copy_to-Copied = before_copy _ _ (λ _. before_copy _ _ (λ _. before_copy _ _ (λ _.
      Ensures-bind Anything Copied Copied _ _ (write-IsThere (binary_path s) s _ s.binary) (λ _.
        Ensures-bind (IsThere (binary_path s)) Copied Copied _ _
          (λ m a pre done.
            Keeps-Spares (binary_path s) (chmod s (cannot_chmod (binary_path s)) (binary_path s))
              (Spares-chmod (binary_path s) s _ _) m pre)
          (λ _ m a pre done. pre)))))

  -- The program runs from the installed copy, or the copy is on the disk.
  abbrev pub IsInPlace : Machine → Type 0
  IsInPlace m = (s.exe ≡ some (binary_path s)) ⊎ IsThere (binary_path s) m

  abbrev Placed : {A : Type 0} → A → Machine → Type 0
  Placed a m = IsInPlace m

  chosen-Placed :
      (src : FilePath) (same : Bool)
      → (src == binary_path s) ≡ same
      → s.exe ≡ some src
      → Ensures Anything (if same then give (binary_path s) else copy_to s (binary_path s)) Placed
  chosen-Placed src true same e m a pre done =
      inl (e ∙ ap (λ (p : FilePath). some p) ((eq_iff src (binary_path s)).0 same))
  chosen-Placed src false other e m a pre done = inr (copy_to-Copied m a pre done)

  install_from-Placed :
      (exe : Option FilePath) → s.exe ≡ exe → Ensures Anything (install_from s exe) Placed
  unfolding install_from
  install_from-Placed none e = λ m a pre done. cc
  install_from-Placed (some src) e = chosen-Placed src (src == binary_path s) refl e

  kept-IsInPlace : {A : Type 0} → (p : M A) → Keeps (binary_path s) p → Ensures IsInPlace p Placed
  kept-IsInPlace p kp m a (inl same) done = inl same
  kept-IsInPlace p kp m a (inr there) done = inr (kp m there)

  pub install-IsInPlace :
      (m : Machine) (what : Installed) → (install s m).1 ≡ ok what → IsInPlace (install s m).0
  unfolding install install_binary_copy
  install-IsInPlace m what done =
      Ensures-bind Anything Placed Placed _ _ (install_from-Placed s.exe refl)
        (λ binary.
          Ensures-bind IsInPlace Placed Placed _ _
            (kept-IsInPlace (ensure_default_config s)
              (ensure_default_config-Keeps (binary_path s) s))
            (λ _.
              kept-IsInPlace (install_service s (systemd_user_available s) binary)
                (install_service-Keeps (binary_path s) s (systemd_user_available s) binary)))
        m what tt done
