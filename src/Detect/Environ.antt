-- ===== src/Detect/Environ.antt =====
-- The Steam variables in an environment block (daemon/src/game_detect.rs).
use nicewatch.Prelude.{
  ℕ, ◌≡◌, refl, ap, Bool, true, false, not, ◌||◌, List, [], ◌∷◌, ◌++◌, some, arith, all, any, All,
  eqb,
}
use nicewatch.Prelude.Text.{Text, starts_with}
use nicewatch.Prelude.Scan.{split_on}
use nicewatch.Detect.{environ_has_steam, steam_env_prefixes}

-- An environment block, as the kernel gives it: the entries, with a NUL behind each.
unfoldable pub environ_block : List Text → List ℕ
environ_block [] = []
environ_block (e ∷ es) = e ++ (0 ∷ environ_block es)

abbrev pub NulFree : Text → Type 0
NulFree e = all (λ c. not (eqb c 0)) e ≡ true

split-entry :
    (e : Text) (rest : List ℕ)
    → NulFree e
    → split_on (λ b. eqb b 0) (e ++ (0 ∷ rest)) ≡ e ∷ split_on (λ b. eqb b 0) rest
unfolding split_on all
split-entry [] rest h = refl
split-entry (c ∷ e) rest h = ground (arith, split-entry e rest)

abbrev pub is_steam_entry : Text → Bool
is_steam_entry e = any (λ prefix. starts_with e prefix) steam_env_prefixes

block_any :
    (p : Text → Bool) (es : List Text)
    → p [] ≡ false
    → All NulFree es
    → any p (split_on (λ b. eqb b 0) (environ_block es)) ≡ any p es
unfolding environ_block any split_on
block_any p [] n h = rw n
block_any p (e ∷ es) n h =
    rw (split-entry e (environ_block es) h.0) (ap (◌||◌ (p e)) (block_any p es n h.1))

empty_entry : is_steam_entry [] ≡ false
unfolding any starts_with
empty_entry = refl

-- On a block of NUL-terminated entries the test is whether some entry begins with the assignment
-- of a Steam variable: no variable is missed, and no value is mistaken for one.
pub environ_has_steam-block :
    (es : List Text)
    → All NulFree es
    → environ_has_steam (some (environ_block es)) ≡ any is_steam_entry es
unfolding environ_has_steam
environ_has_steam-block es h = block_any is_steam_entry es empty_entry h
