-- ===== src/Detect/Known/Catalog.antt =====
-- What the catalog of daemon/src/known_games.rs makes known.
use nicewatch.Prelude.{
  ◌≡◌, ◌∙◌, refl, Bool, false, ◌&&◌, ◌||◌, not, List, [], ◌∷◌, some, arith, any, contains,
  contains-insert_new, ◌==◌, eq_iff, Bool-cases, inl, inr,
}
use nicewatch.Prelude.Text.{Text, text_eq, is_empty}
use nicewatch.Prelude.Scan.{trim}
use nicewatch.Detect.Known.{
  KnownGames, no_games, to_ascii_lowercase, is_flatpak_id, add_token, add_tokens, embedded,
  is_known_name,
}

-- A token lists a name if it is the name but for case and outer white space.
abbrev pub lists : Text → Text → Bool
lists name token = to_ascii_lowercase (trim token) == name

-- The names that a token adds: none for a reverse-DNS id.
add_token-names :
    (g : KnownGames) (token name : Text)
    → is_empty name ≡ false
    → contains (add_token g token).names name
      ≡ (contains g.names name || (not (is_flatpak_id name) && lists name token))
unfolding add_token
add_token-names g token name h =
    let t = to_ascii_lowercase (trim token) in
    ground (arith, eq_iff t name, contains-insert_new t name g.names)

add_tokens-names :
    (g : KnownGames) (tokens : List Text) (name : Text)
    → is_empty name ≡ false
    → contains (add_tokens g tokens).names name
      ≡ (contains g.names name || (not (is_flatpak_id name) && any (lists name) tokens))
unfolding add_tokens any
add_tokens-names g [] name h = ground arith
add_tokens-names g (t ∷ ts) name h =
    ground (arith, add_token-names g t name h, add_tokens-names (add_token g t) ts name h)

lower_empty : (s : Text) → is_empty (to_ascii_lowercase s) ≡ is_empty s
unfolding is_empty
lower_empty [] = refl
lower_empty (c ∷ s) = refl

-- Whatever the catalog holds, a process name is known exactly if it is not empty, is no
-- reverse-DNS id, and some token of the catalog is that name but for case and outer white space.
pub is_known_name-embedded :
    (tokens : List Text) (comm : Text)
    → is_known_name (embedded (some tokens)) comm ≡ (
        not (is_empty comm)
        && (not (is_flatpak_id (to_ascii_lowercase comm))
            && any (lists (to_ascii_lowercase comm)) tokens))
unfolding is_known_name embedded
is_known_name-embedded tokens comm = elim (Bool-cases (is_empty comm)) [
  | inl empty ↦ rw empty
  | inr filled ↦
      rw
        (
          filled,
          add_tokens-names no_games tokens (to_ascii_lowercase comm) (lower_empty comm ∙ filled),
        )
        (unfold contains in refl)
]
