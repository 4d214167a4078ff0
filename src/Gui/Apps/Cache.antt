-- ===== src/Gui/Apps/Cache.antt =====
-- The cache of the resolver (`app_meta`, gui/src-tauri/src/apps.rs).
use nicewatch.Prelude.{◌≡◌, refl, ap, List, [], ◌∷◌, Option, none, some, arith, eq_iff}
use nicewatch.Prelude.Text.{Text, text_eq}
use nicewatch.Prelude.Maps.{get, get-insert}
use nicewatch.Gui.Apps.Icons.{Desktop}
use nicewatch.Gui.Apps.{AppMeta, Resolver, scan_desktop_files, resolve, answer, app_meta}

module _ (x : Desktop) where
  -- The resolver after a list of earlier calls.
  abbrev pub after : List Text → Option Resolver → Option Resolver
  after [] o = o
  after (exe ∷ exes) o = after exes (app_meta x exe o).1

  -- What is cached is what would be resolved.
  abbrev IsSoundCache : Option Resolver → Type 0
  IsSoundCache none = Unit {0}
  IsSoundCache (some r) =
      (r.entries ≡ scan_desktop_files x)
      × ((exe : Text) (m : AppMeta)
          → get exe r.cache ≡ some m
          → m ≡ resolve x (scan_desktop_files x) exe)

  answer_sound :
      (exe : Text) (r : Resolver) (cached : Option AppMeta)
      → get exe r.cache ≡ cached
      → IsSoundCache (some r)
      → ((answer x exe r cached).0 ≡ resolve x (scan_desktop_files x) exe)
        × IsSoundCache (some (answer x exe r cached).1)
  unfolding answer
  answer_sound exe r (some m) h (same, sound) = (sound exe m h, (same, sound))
  answer_sound exe r none h (same, sound) = (
    ap (λ es. resolve x es exe) same,
    (
      same,
      λ k m g. ground (
        arith,
        get-insert exe k (resolve x r.entries exe) r.cache,
        sound k m,
        eq_iff exe k,
        same,
      ),
    ),
  )

  app_meta_sound :
      (exe : Text) (o : Option Resolver)
      → IsSoundCache o
      → ((app_meta x exe o).0 ≡ resolve x (scan_desktop_files x) exe)
        × IsSoundCache (app_meta x exe o).1
  unfolding app_meta get
  app_meta_sound exe none v =
      answer_sound exe (record { entries = scan_desktop_files x; cache = [] }) none refl
        (refl, λ k m g. cc)
  app_meta_sound exe (some r) v = answer_sound exe r _ refl v

  after_sound :
      (exes : List Text) (o : Option Resolver) → IsSoundCache o → IsSoundCache (after exes o)
  after_sound [] o v = v
  after_sound (exe ∷ exes) o v = after_sound exes _ (app_meta_sound exe o v).1

  -- Whatever was asked before, the cache and the single scan do not show: on a disk that stays as it
  -- is, the answer for an executable is what a fresh scan and lookup would give.
  pub app_meta-resolve :
      (exes : List Text) (exe : Text)
      → (app_meta x exe (after exes none)).0 ≡ resolve x (scan_desktop_files x) exe
  app_meta-resolve exes exe = (app_meta_sound exe (after exes none) (after_sound exes none tt)).0
