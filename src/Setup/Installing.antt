-- ===== src/Setup/Installing.antt =====
-- Which files an installation may write (`install`, daemon/src/setup.rs).
use nicewatch.Prelude.{
  ◌≡◌, refl, Bool, true, false, List, ◌++◌, Option, none, some, ◌==◌, contains, arith,
}
use nicewatch.Prelude.Text.{Text}
use nicewatch.Prelude.Paths.{FilePath, path_eq}
use nicewatch.Setup.{
  replace_old, copy_to, install_from, install_binary_copy, default_local, default_root,
  ensure_default_config, install_user, install_autostart, started_system, after_system_unit,
  install_elsewhere, install_service, install,
}
use nicewatch.Setup.Places.{
  local_config_path, root_config_path, binary_path, system_unit, systemd_user_dir, autostart_dir,
}
use nicewatch.Setup.Machine.{Session, Machine, M, ◌>>=◌, write, systemctl, attempt}
use nicewatch.Setup.Traces.{
  contains-split, file_at, Spares, unit_of, entry_of, targets, Spares-bind, Spares-chmod,
  Spares-exists, Spares-systemctl, Spares-make_dir, Spares-write, Spares-remove_file,
  Spares-attempt,
}

module _ (s : Session) (path : FilePath) (other : contains (targets s) path ≡ false) where
  not_binary : (binary_path s == path) ≡ false
  unfolding contains
  not_binary = ground (arith, other)

  not_local : (local_config_path s == path) ≡ false
  unfolding contains
  not_local = ground (arith, other)

  not_root : (root_config_path == path) ≡ false
  unfolding contains
  not_root = ground (arith, other)

  not_system : (system_unit == path) ≡ false
  unfolding contains
  not_system = ground (arith, other)

  replace_old-Spares : (there : Bool) → Spares path (replace_old s there (binary_path s))
  unfolding replace_old
  replace_old-Spares true = Spares-remove_file path s _ (binary_path s) not_binary
  replace_old-Spares false = λ m. refl

  copy_to-Spares : Spares path (copy_to s (binary_path s))
  unfolding copy_to
  copy_to-Spares = Spares-bind path _ _ (Spares-make_dir path s _) (λ _.
      Spares-bind path _ _ (Spares-exists path _) (λ there.
        Spares-bind path _ _ (replace_old-Spares there) (λ _.
          Spares-bind path _ _ (Spares-write path s _ _ s.binary not_binary)
            (λ _. Spares-bind path _ _ (Spares-chmod path s _ _) (λ _ m. refl)))))

  install_from-Spares : (exe : Option FilePath) → Spares path (install_from s exe)
  unfolding install_from
  install_from-Spares none = λ m. refl
  install_from-Spares (some src) = λ m. ground (arith, copy_to-Spares m)

  default_local-Spares : (there : Bool) → Spares path (default_local s there)
  unfolding default_local
  default_local-Spares true = λ m. refl
  default_local-Spares false =
      Spares-bind path _ _ (Spares-make_dir path s _)
        (λ _. Spares-write path s _ _ s.default_rules not_local)

  default_root-Spares : (there : Bool) → Spares path (default_root s there)
  unfolding default_root
  default_root-Spares true m = refl
  default_root-Spares false m = Spares-write path s _ root_config_path s.default_rules not_root m

  ensure_default_config-Spares : Spares path (ensure_default_config s)
  unfolding ensure_default_config
  ensure_default_config-Spares = Spares-bind path _ _ (Spares-exists path _) (λ local.
      Spares-bind path _ _ (default_local-Spares local)
        (λ _. Spares-bind path _ _ (Spares-exists path _) default_root-Spares))

  not_files : contains (unit_of (systemd_user_dir s) ++ entry_of (autostart_dir s)) path ≡ false
  unfolding contains
  not_files = ground (arith, other)

  not_units : contains (unit_of (systemd_user_dir s)) path ≡ false
  not_units = ground (
    arith,
    not_files,
    contains-split (unit_of (systemd_user_dir s)) (entry_of (autostart_dir s)) path,
  )

  not_entries : contains (entry_of (autostart_dir s)) path ≡ false
  not_entries = ground (
    arith,
    not_files,
    contains-split (unit_of (systemd_user_dir s)) (entry_of (autostart_dir s)) path,
  )

  Spares-attempted :
      {B : Type 0}
      → (user : Bool) (args : List Text) (f : Bool → M B) → ((b : Bool) → Spares path (f b))
      → Spares path (attempt (systemctl s user args) >>= f)
  Spares-attempted user args f sf =
      Spares-bind path _ f
        (Spares-attempt path (systemctl s user args) (Spares-systemctl path s user args)) sf

  install_user-Spares :
      (o : Option FilePath) (binary : FilePath)
      → contains (unit_of o) path ≡ false
      → Spares path (install_user s o binary)
  unfolding install_user contains
  install_user-Spares none binary e = λ m. refl
  install_user-Spares (some dir) binary e = Spares-bind path _ _ (Spares-make_dir path s _) (λ _.
      Spares-bind path _ _ (Spares-write path s _ _ _ (ground (arith, e))) (λ _.
        Spares-bind path _ _ (Spares-systemctl path s _ _)
          (λ _. Spares-attempted _ _ _ (λ _. Spares-attempted _ _ _ (λ _ m. refl)))))

  install_autostart-Spares :
      (o : Option FilePath) (binary : FilePath)
      → contains (entry_of o) path ≡ false
      → Spares path (install_autostart s o binary)
  unfolding install_autostart contains
  install_autostart-Spares none binary e = λ m. refl
  install_autostart-Spares (some dir) binary e =
      Spares-bind path _ _ (Spares-make_dir path s _)
        (λ _. Spares-bind path _ _ (Spares-write path s _ _ _ (ground (arith, e))) (λ _ m. refl))

  started_system-Spares : (b : Bool) → Spares path (started_system s b)
  unfolding started_system
  started_system-Spares false = λ m. refl
  started_system-Spares true = Spares-attempted _ _ _ (λ _. Spares-attempted _ _ _ (λ _ m. refl))

  after_system_unit-Spares :
      (b : Bool) (binary : FilePath) → Spares path (after_system_unit s b binary)
  unfolding after_system_unit
  after_system_unit-Spares false binary = install_autostart-Spares _ binary not_entries
  after_system_unit-Spares true binary = Spares-attempted _ _ _ started_system-Spares

  install_elsewhere-Spares :
      (b : Bool) (binary : FilePath) → Spares path (install_elsewhere s b binary)
  unfolding install_elsewhere
  install_elsewhere-Spares false binary = install_autostart-Spares _ binary not_entries
  install_elsewhere-Spares true binary =
      Spares-bind path _ _
        (Spares-attempt path (write s _ system_unit _) (Spares-write path s _ _ _ not_system))
        (λ b. after_system_unit-Spares b binary)

  install_service-Spares : (b : Bool) (binary : FilePath) → Spares path (install_service s b binary)
  unfolding install_service
  install_service-Spares true binary = install_user-Spares _ binary not_units
  install_service-Spares false binary = install_elsewhere-Spares _ binary

  -- An installation, also one that fails midway, leaves every file alone but the installed binary,
  -- the two rule files, the system-wide unit, the user's unit and the autostart entry.
  pub install_spares : (m : Machine) → file_at path (install s m).0 ≡ file_at path m
  unfolding install install_binary_copy
  install_spares = Spares-bind path _ _ (install_from-Spares s.exe) (λ binary.
      Spares-bind path _ _ ensure_default_config-Spares (λ _. install_service-Spares _ binary))
