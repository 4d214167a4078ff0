-- ===== src/Setup/Traces.antt =====
-- What the steps of an installation leave alone (daemon/src/setup.rs).
use nicewatch.Prelude.{true}
use nicewatch.Prelude.{
  ◌≡◌, refl, ◌∙◌, Bool, false, ◌||◌, contains, List, [], ◌∷◌, ◌++◌, Option, none, some, ◌==◌, arith,
}
use nicewatch.Prelude.Text.{Text}
use nicewatch.Prelude.Paths.{FilePath, path_eq}
use nicewatch.Prelude.Maps.{get, get-insert, get-remove}
use nicewatch.Sync.Disk.{File, create_dir_all, write_file}
use nicewatch.Setup.{unit_dir}
use nicewatch.Setup.Places.{
  local_config_path, root_config_path, binary_path, unit_in, entry_in, system_unit,
  systemd_user_dir, autostart_dir, systemd_user_available,
}
use nicewatch.Setup.Machine.{
  Session, Failure, Machine, Result, ok, err, M, next, ◌>>=◌, exists, chmod, make_dir, write,
  remove_file, systemctl, attempt,
}

abbrev pub file_at : FilePath → Machine → Option File
file_at path m = get path m.host.files

-- A program leaves the file alone.
abbrev pub Spares : {A : Type 0} → FilePath → M A → Type 0
Spares path p = (m : Machine) → file_at path (p m).0 ≡ file_at path m

module _ (path : FilePath) where
  pub Spares-next :
      {A B : Type 0}
      → (r : Machine × Result A) (f : A → M B) → ((a : A) → Spares path (f a))
      → file_at path (next f r).0 ≡ file_at path r.0
  Spares-next (m, ok a) f sf = sf a m
  Spares-next (m, err e) f sf = refl

  pub Spares-bind :
      {A B : Type 0}
      → (p : M A) (f : A → M B) → Spares path p
      → ((a : A) → Spares path (f a))
      → Spares path (p >>= f)
  unfolding ◌>>=◌
  Spares-bind p f sp sf m = Spares-next (p m) f sf ∙ sp m

  pub Spares-exists : (q : FilePath) → Spares path (exists q)
  unfolding exists
  Spares-exists q m = refl

  pub Spares-systemctl :
      (s : Session) (user : Bool) (args : List Text) → Spares path (systemctl s user args)
  unfolding systemctl
  Spares-systemctl s user args m = refl

  pub Spares-chmod : (s : Session) (e : Failure) (q : FilePath) → Spares path (chmod s e q)
  unfolding chmod
  Spares-chmod s e q m = refl

  pub Spares-make_dir : (s : Session) (dir : FilePath) → Spares path (make_dir s dir)
  unfolding make_dir create_dir_all
  Spares-make_dir s dir m = ground arith

  pub Spares-write :
      (s : Session) (e : Failure) (q : FilePath) (text : Text)
      → (q == path) ≡ false
      → Spares path (write s e q text)
  unfolding write write_file
  Spares-write s e q text other m = ground (
    arith,
    get-insert q path (record { content = text; mtime = m.host.wall; is_readable = true })
        m.host.files,
  )

  pub Spares-remove_file :
      (s : Session) (e : Failure) (q : FilePath)
      → (q == path) ≡ false
      → Spares path (remove_file s e q)
  unfolding remove_file
  Spares-remove_file s e q other m = ground (arith, get-remove q path m.host.files)

  pub Spares-attempt : {A : Type 0} → (p : M A) → Spares path p → Spares path (attempt p)
  Spares-attempt p sp m = sp m

-- The files that an installation writes.
abbrev pub unit_of : Option FilePath → List FilePath
unit_of none = []
unit_of (some dir) = unit_in dir ∷ []

abbrev pub entry_of : Option FilePath → List FilePath
entry_of none = []
entry_of (some dir) = entry_in dir ∷ []

abbrev pub removable : Session → List FilePath
removable s = unit_of (unit_dir s (systemd_user_available s)) ++ entry_of (autostart_dir s)

abbrev pub targets : Session → List FilePath
targets s =
    binary_path s
    ∷ local_config_path s
    ∷ root_config_path
    ∷ system_unit
    ∷ (unit_of (systemd_user_dir s) ++ entry_of (autostart_dir s))

pub contains-split :
    (xs ys : List FilePath) (path : FilePath)
    → contains (xs ++ ys) path ≡ (contains xs path || contains ys path)
unfolding contains
contains-split [] ys path = refl
contains-split (x ∷ xs) ys path = ground (arith, contains-split xs ys path)
