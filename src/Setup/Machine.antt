-- ===== src/Setup/Machine.antt =====
-- What daemon/src/setup.rs uses of the system: files, and `systemctl`. A failed step keeps what the
-- steps before it did.
use nicewatch.Prelude.{Bool, true, false, List, ◌∷◌, Option, if◌then◌else◌}
use nicewatch.Prelude.Text.{Text}
use nicewatch.Prelude.Paths.{FilePath, path_eq}
use nicewatch.Prelude.Maps.{get, remove, is_some}
use nicewatch.Sync.Disk.{Env, Host, create_dir_all, write_file}

-- What the process finds: its environment, its executable and that file's content, whether
-- `/run/systemd/system` is there, the example rules, and what the system permits.
pub record Session : Type 0 where
  pub var : Text → Option Text
  pub exe : Option FilePath
  pub binary : Text
  pub systemd_booted : Bool
  pub default_rules : Text
  pub env : Env
  pub may_remove : FilePath → Bool
  pub may_chmod : FilePath → Bool
  pub accepts : Bool → List Text → Bool

pub data Failure : Type 0 where
  no_exe no_home : Failure
  cannot_create cannot_replace cannot_copy cannot_chmod cannot_write cannot_remove :
      FilePath → Failure
  systemctl_failed : List Text → Failure

pub data Result (A : Type 0) : Type 0 where
  ok : A → Result A
  err : Failure → Result A

-- The disk, and the calls of `systemctl`, the newest first, each with whether it is for the user.
pub record Machine : Type 0 where
  pub host : Host
  pub calls : List (Bool × List Text)

abbrev pub M : Type 0 → Type 0
M A = Machine → Machine × Result A

abbrev pub next : {A B : Type 0} → (A → M B) → Machine × Result A → Machine × Result B
next f (m, ok a) = f a m
next f (m, err e) = (m, err e)

infixl 5 ◌>>=◌ ◌>>◌
unfoldable pub ◌>>=◌ : {A B : Type 0} → M A → (A → M B) → M B
◌>>=◌ p f m = next f (p m)

abbrev pub ◌>>◌ : {B : Type 0} → M (Unit {0}) → M B → M B
p >> q = p >>= λ _. q

abbrev pub give : {A : Type 0} → A → M A
give a m = (m, ok a)

abbrev pub fail : {A : Type 0} → Failure → M A
fail e m = (m, err e)

-- `path.exists()`, of a file.
unfoldable pub exists : FilePath → M Bool
exists path m = (m, ok (is_some (get path m.host.files)))

abbrev outcome : Failure → Bool × Host → Machine → Machine × Result (Unit {0})
outcome e (done, h) m = (record m { host = h }, if done then ok tt else err e)

unfoldable pub make_dir : Session → FilePath → M (Unit {0})
make_dir s dir m = outcome (cannot_create dir) (create_dir_all s.env dir m.host) m

unfoldable pub write : Session → Failure → FilePath → Text → M (Unit {0})
write s e path text m = outcome e (write_file s.env path text m.host) m

unfoldable pub remove_file : Session → Failure → FilePath → M (Unit {0})
remove_file s e path m =
    if s.may_remove path
    then (record m { host = record m.host { files = remove path m.host.files } }, ok tt)
    else (m, err e)

-- `set_permissions`; the model keeps no modes.
unfoldable pub chmod : Session → Failure → FilePath → M (Unit {0})
chmod s e path m = (m, if s.may_chmod path then ok tt else err e)

unfoldable pub systemctl : Session → Bool → List Text → M (Unit {0})
systemctl s user args m = (
  record m { calls = (user, args) ∷ m.calls },
  if s.accepts user args then ok tt else err (systemctl_failed args),
)

-- A step whose result is dropped.
abbrev pub attempt : {A : Type 0} → M A → M Bool
attempt p m = let (m', r) = p m in (m', ok (elim r [ ok a ↦ true | err e ↦ false ]))
