-- ===== src/Detect/Known.antt =====
-- daemon/src/known_games.rs: the catalog of known games.
pub mod Catalog
use nicewatch.Prelude.{
  ℕ, suc, ◌+◌, Bool, true, false, ◌&&◌, ◌||◌, not, List, [], ◌∷◌, ◌++◌, Option, none, some, map,
  reverse, any, retain, find, if◌then◌else◌, eqb, leb, length, contains, insert_new,
}
use nicewatch.Prelude.Text.{Text, text_eq, codes, is_empty, lower}
use nicewatch.Prelude.Scan.{find_text, rfind_char, split_on, slice, drop, take, trim}
use nicewatch.Prelude.Utf8.{from_utf8_lossy}
use nicewatch.Proc.{ProcEntry}

pub record KnownGames : Type 0 where
  pub names : List Text
  pub flatpak : List Text

abbrev pub no_games : KnownGames
no_games = record { names = []; flatpak = [] }

abbrev pub to_ascii_lowercase : Text → Text
to_ascii_lowercase = map lower

-- At least two dots.
unfoldable pub is_flatpak_id : Text → Bool
is_flatpak_id token = leb 2 (length (retain (λ b. eqb b b'.') token))

-- One round of the loop of `embedded`.
unfoldable pub add_token : KnownGames → Text → KnownGames
add_token out raw =
    let token = to_ascii_lowercase (trim raw) in
    if is_empty token
    then out
    else if is_flatpak_id token
    then record out { flatpak = insert_new token out.flatpak }
    else record out { names = insert_new token out.names }

unfoldable pub add_tokens : KnownGames → List Text → KnownGames
unfolding add_token
add_tokens out [] = out
add_tokens out (t ∷ ts) = add_tokens (add_token out t) ts

-- `embedded`: `parsed` is what the JSON parser makes of the catalog's tokens, `none` on an error.
unfoldable pub embedded : Option (List Text) → KnownGames
unfolding add_tokens
embedded none = no_games
embedded (some tokens) = add_tokens no_games tokens

unfoldable pub is_known_name : KnownGames → Text → Bool
is_known_name games comm = not (is_empty comm) && contains games.names (to_ascii_lowercase comm)

abbrev last_piece : List Text → Text
last_piece [] = []
last_piece (p ∷ []) = p
last_piece (p ∷ q ∷ ps) = last_piece (q ∷ ps)

-- The last piece between slashes, if it is not empty.
unfoldable pub basename : Text → Option Text
basename path =
    let base = last_piece (split_on (λ c. eqb c b'/') path) in
    if is_empty base then none else some base

-- `trim_end_matches` of a suffix of four characters, on the reversed text.
strip_all : ℕ → ℕ → ℕ → ℕ → Text → Text
strip_all p q r s (a ∷ b ∷ c ∷ d ∷ t) =
    let rest = strip_all p q r s t in
    if eqb a p && eqb b q && eqb c r && eqb d s then rest else a ∷ b ∷ c ∷ d ∷ t
strip_all p q r s t = t

unfoldable pub trim_exe : Text → Text
unfolding strip_all
trim_exe s = reverse (strip_all b'E' b'X' b'E' b'.' (strip_all b'e' b'x' b'e' b'.' (reverse s)))

abbrev is_separator : ℕ → Bool
is_separator b = eqb b b'/' || eqb b b'\\' || eqb b b':' || eqb b 32

unfoldable pub segment_known : KnownGames → List ℕ → Bool
segment_known games segment =
    let clean = trim_exe (from_utf8_lossy segment) in
    not (is_empty clean) && is_known_name games clean

abbrev flatpak_marker : Text
flatpak_marker = codes "app-flatpak-"

-- `app-flatpak-<appid>-<hash>.scope`: the text behind the marker, up to its last dash.
before_hash : Text → Text
before_hash inner = elim (rfind_char b'-' inner) [
  | none ↦ inner
  | some idx ↦ if eqb idx 0 then inner else take idx inner
]

behind_marker : ℕ → Text → Option Text
unfolding before_hash
behind_marker start low = elim (find_text (codes ".scope") (drop start low)) [
  | none ↦ none
  | some len ↦ some (before_hash (slice start (len + start) low))
]

unfoldable pub flatpak_id_from_cgroup : Text → Option Text
unfolding behind_marker
flatpak_id_from_cgroup cgroup =
    let low = to_ascii_lowercase cgroup in
    elim (find_text flatpak_marker low) [
      | none ↦ none
      | some at ↦ behind_marker (at + length flatpak_marker) low
    ]

abbrev holds {ℓ} : {A : Type ℓ} → Option A → (A → Bool) → Bool
holds none p = false
holds (some a) p = p a

abbrev exe_known : KnownGames → Text → Bool
exe_known games exe = holds (basename exe) (is_known_name games)

abbrev cmdline_known : KnownGames → List ℕ → Bool
cmdline_known games cmdline =
    any (segment_known games) (retain (λ s. not (is_empty s)) (split_on is_separator cmdline))

abbrev cgroup_known : KnownGames → Text → Bool
cgroup_known games cgroup = holds (flatpak_id_from_cgroup cgroup) (contains games.flatpak)

-- Name, basename of the executable, segments of the command line, Flatpak scope, in this order.
unfoldable pub is_known_entry : KnownGames → ProcEntry → Bool
is_known_entry games entry =
    is_known_name games entry.name
    || (holds entry.exe (exe_known games)
        || (holds entry.cmdline (cmdline_known games) || holds entry.cgroup (cgroup_known games)))
