-- ===== src/Sync/Disk.antt =====
-- What daemon/src/sync.rs uses of `std::fs` and `std::time`, and its atomic write.
pub mod Writes
use nicewatch.Prelude.{
  ℕ, Bool, true, false, ◌&&◌, List, [], ◌∷◌, ◌++◌, Option, none, some, if◌then◌else◌, contains,
  insert_new,
}
use nicewatch.Prelude.Text.{Text, codes}
use nicewatch.Prelude.Paths.{FilePath, path_eq, join, parent, file_name}
use nicewatch.Prelude.Maps.{Map, get, insert, remove}
use nicewatch.Config.{AppConfig}

-- The `toml` crate, and what the system permits; a refused operation changes nothing.
pub record Env : Type 0 where
  pub from_str : Text → Option AppConfig
  pub to_string : AppConfig → Text
  pub may_create_dir : FilePath → Bool
  pub may_write : FilePath → Bool
  pub may_rename : FilePath → Bool

-- `is_readable` where it can be read, and its bytes are text.
pub record File : Type 0 where
  pub content : Text
  pub mtime : ℕ
  pub is_readable : Bool

-- `instant` is what `Instant::now()` gives, and `wall` the time that a write stamps on its file.
pub record Host : Type 0 where
  pub files : Map FilePath File
  pub dirs : List FilePath
  pub instant : ℕ
  pub wall : ℕ

unfoldable pub content_of : Option File → Option Text
content_of none = none
content_of (some f) = if f.is_readable then some f.content else none

unfoldable pub mtime_of : Option File → Option ℕ
mtime_of none = none
mtime_of (some f) = some f.mtime

-- `fs::read` and `fs::read_to_string`
unfoldable pub read_file : Host → FilePath → Option Text
read_file h path = content_of (get path h.files)

unfoldable pub file_mtime : Host → FilePath → Option ℕ
file_mtime h path = mtime_of (get path h.files)

-- `fs::create_dir_all`; the directories above are not tracked.
unfoldable pub create_dir_all : Env → FilePath → Host → Bool × Host
create_dir_all env dir h =
    if contains h.dirs dir
    then (true, h)
    else if env.may_create_dir dir
    then (true, record h { dirs = insert_new dir h.dirs })
    else (false, h)

unfoldable pub write_file : Env → FilePath → Text → Host → Bool × Host
write_file env path bytes h =
    if env.may_write path
    then (
      true,
      record h {
        files =
            insert path (record { content = bytes; mtime = h.wall; is_readable = true }) h.files;
      },
    )
    else (false, h)

rename_file : Option File → FilePath → FilePath → Host → Bool × Host
rename_file none from to h = (false, h)
rename_file (some f) from to h = (true, record h { files = insert to f (remove from h.files) })

unfoldable pub rename : Env → FilePath → FilePath → Host → Bool × Host
unfolding rename_file
rename env from to h =
    if env.may_rename to then rename_file (get from h.files) from to h else (false, h)

-- `file_name_of`
unfoldable pub file_name_of : FilePath → Text
file_name_of path = elim (file_name path) [ none ↦ codes "rules.toml" | some n ↦ n ]

abbrev pub parent_or_dot : FilePath → FilePath
parent_or_dot path = elim (parent path) [ none ↦ codes "." ∷ [] | some p ↦ p ]

-- The temporary file beside the target.
unfoldable pub tmp_of : FilePath → FilePath
tmp_of path = join (parent_or_dot path) (file_name_of path ++ codes ".tmp")

then_rename : Env → FilePath → Bool × Host → Bool × Host
then_rename env path (true, h) = rename env (tmp_of path) path h
then_rename env path (false, h) = (false, h)

then_write : Env → FilePath → Text → Bool × Host → Bool × Host
unfolding then_rename
then_write env path bytes (true, h) = then_rename env path (write_file env (tmp_of path) bytes h)
then_write env path bytes (false, h) = (false, h)

unfoldable pub atomic_write : Env → FilePath → Text → Host → Bool × Host
unfolding then_write
atomic_write env path bytes h =
    then_write env path bytes (create_dir_all env (parent_or_dot path) h)
