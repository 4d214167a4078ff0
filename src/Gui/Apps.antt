-- ===== src/Gui/Apps.antt =====
-- The name and icon of an executable, from the desktop entries (gui/src-tauri/src/apps.rs).
pub mod Entry
pub mod Parsed
pub mod Programs
pub mod Icons
pub mod Cache
use nicewatch.Prelude.{
  ℕ, nat_eq, ◌+◌, Bool, true, false, ◌&&◌, ◌||◌, not, List, [], ◌∷◌, ◌++◌, Option, none, some, map,
  reverse, if◌then◌else◌, ◌==◌, eqb, contains, retain, find,
}
use nicewatch.Prelude.Text.{Text, text_eq, codes, is_empty, starts_with, strip_prefix}
use nicewatch.Prelude.Scan.{
  trim, lines, split_on, split_whitespace, find_char, rfind_char, drop, ends_with,
}
use nicewatch.Prelude.Paths.{FilePath, path_eq, file_name, path_of, push, display}
use nicewatch.Prelude.Maps.{Map, get, insert, is_some}
use nicewatch.Sync.Disk.{Host, read_file}
use Entry.{DesktopEntry, parse_desktop, exec_program}
use Icons.{Desktop, home_dirs, icon_lookup}

pub record AppMeta : Type 0 where
  pub name : Text
  pub icon : Option Text

pub record Resolver : Type 0 where
  pub entries : List DesktopEntry
  pub cache : Map Text AppMeta

abbrev entry_dirs : Option Text → List FilePath
entry_dirs home =
    (path_of (codes "/usr/share/applications")
      ∷ path_of (codes "/usr/local/share/applications")
      ∷ [])
    ++ (home_dirs home (
          codes ".local/share/applications"
          ∷ codes ".local/share/flatpak/exports/share/applications"
          ∷ codes ".var/app"
          ∷ [])
        ++ (path_of (codes "/var/lib/flatpak/exports/share/applications") ∷ []))

extension_at : Text → Option ℕ → Option Text
extension_at name none = none
extension_at name (some i) = if eqb i 0 then none else some (drop (i + 1) name)

-- `path.extension()`
unfoldable pub extension : FilePath → Option Text
unfolding extension_at
extension path = elim (file_name path) [ none ↦ none | some n ↦ extension_at n (rfind_char b'.' n) ]

abbrev is_desktop : FilePath → Bool
is_desktop path = elim (extension path) [ none ↦ false | some e ↦ e == codes "desktop" ]

capitalise : (ℕ → Text) → Text → Text
capitalise up [] = []
capitalise up (c ∷ w) = up c ++ w

join_spaced : List Text → Text
join_spaced [] = []
join_spaced (w ∷ []) = w
join_spaced (w ∷ v ∷ ws) = w ++ (32 ∷ join_spaced (v ∷ ws))

abbrev is_break : ℕ → Bool
is_break c = eqb c b'-' || eqb c b'_' || eqb c b'+' || eqb c b'.'

unfoldable pub prettify : (ℕ → Text) → Text → Text
unfolding capitalise join_spaced
prettify up basename =
    join_spaced (map (capitalise up) (retain (λ w. not (is_empty w)) (split_on is_break basename)))

module _ (x : Desktop) where
  abbrev entries_at : FilePath → List DesktopEntry
  entries_at path = elim (parse_desktop (read_file x.host path)) [ none ↦ [] | some e ↦ e ∷ [] ]

  scan_files : List FilePath → List FilePath → List FilePath × List DesktopEntry
  scan_files [] seen = (seen, [])
  scan_files (p ∷ ps) seen =
      let fresh = is_desktop p && not (contains seen p) in
      let (seen', out) = scan_files ps (if fresh then p ∷ seen else seen) in
      (seen', if fresh then entries_at p ++ out else out)

  -- A directory that cannot be read is passed over.
  scan_dir : Option (List FilePath) → List FilePath → List FilePath × List DesktopEntry
  unfolding scan_files
  scan_dir none seen = (seen, [])
  scan_dir (some ps) seen = scan_files ps seen

  scan_dirs : List FilePath → List FilePath → List DesktopEntry
  unfolding scan_dir
  scan_dirs [] seen = []
  scan_dirs (d ∷ ds) seen =
      let (seen', out) = scan_dir (x.read_dir d) seen in out ++ scan_dirs ds seen'

  unfoldable pub scan_desktop_files : List DesktopEntry
  unfolding scan_dirs
  scan_desktop_files = scan_dirs (entry_dirs x.home) []

  abbrev base_of : Text → Text
  base_of exe = elim (file_name (path_of exe)) [ none ↦ [] | some b ↦ b ]

  abbrev is_text : Option Text → Text → Bool
  is_text none t = false
  is_text (some u) t = u == t

  abbrev and_program : Option Text → Option Text
  and_program none = none
  and_program (some t) = exec_program t

  abbrev first_token : List Text → Option Text
  first_token [] = none
  first_token (t ∷ ts) = some t

  abbrev pub matches : Text → DesktopEntry → Bool
  matches exe e =
      is_text (exec_program e.exec) (base_of exe)
      || is_text (and_program e.try_exec) (base_of exe)
      || is_text (first_token (split_whitespace e.exec)) exe

  abbrev and_icon : Option Text → Option Text
  and_icon none = none
  and_icon (some t) = icon_lookup x t

  unfoldable pub resolve : List DesktopEntry → Text → AppMeta
  resolve [] exe = record { name = prettify x.to_uppercase (base_of exe); icon = none }
  resolve (e ∷ es) exe =
      let rest = resolve es exe in
      if matches exe e then record { name = e.name; icon = and_icon e.icon } else rest

  abbrev started : Option Resolver → Resolver
  started none = record { entries = scan_desktop_files; cache = [] }
  started (some r) = r

  answer : Text → Resolver → Option AppMeta → AppMeta × Resolver
  answer exe r (some m) = (m, r)
  answer exe r none =
      let meta = resolve r.entries exe in (meta, record r { cache = insert exe meta r.cache })

  -- With the resolver, which the first call makes.
  unfoldable pub app_meta : Text → Option Resolver → AppMeta × Option Resolver
  unfolding answer
  app_meta exe o =
      let r = started o in let (meta, r') = answer exe r (get exe r.cache) in (meta, some r')
