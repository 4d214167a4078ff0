-- ===== src/Sync/Promotion.antt =====
-- When and how the local configuration is promoted over the root file (daemon/src/sync.rs).
use nicewatch.Prelude.{
  ℕ, ◌-◌, ◌≤◌, ◌≡◌, ◌≢◌, ◌⊎◌, refl, sym, ap, ◌∙◌, Bool, true, false, ◌&&◌, Option, none, some,
  arith, inl, inr, Bool-cases,
}
use mathlib.Core.Path.{subst}
use nicewatch.Prelude.Text.{Text}
use nicewatch.Prelude.Paths.{path_eq}
use nicewatch.Prelude.Maps.{get}
use nicewatch.Sync.Disk.{Env, Host, read_file, content_of, tmp_of}
use nicewatch.Sync.Disk.Writes.{atomic_write-get, atomic_write_failed}
use nicewatch.Sync.LocalWrite.{write_local-root}
use nicewatch.Sync.{Sync, root_source}
use nicewatch.Sync.Writing.{
  promote, promote_bytes, tick, flush, try_promote, settled, still_unchanged,
}

-- A local change that was registered at least the debounce before `now`.
abbrev pub HasSettled : Sync → ℕ → Type 0
HasSettled s now = (t : ℕ) × (s.local_changed_at ≡ some t) × (s.promote_debounce ≤ now - t)

settled_since :
    (changed : Option ℕ) (now d : ℕ)
    → settled changed now d ≡ true
    → (t : ℕ) × (changed ≡ some t) × (d ≤ now - t)
settled_since none now d h = cc
settled_since (some t) now d h = (t, refl, ground arith)

-- What a successful promotion leaves.
record IsPromoted (r : Bool × Host × Sync) (s : Sync) (content : Option Text) : Type 0 where
  root_content : read_file r.1 s.root ≡ content
  not_pending : r.2.pending_promote ≡ false
  from_root : r.2.active_source ≡ root_source

promote_bytes-IsPromoted :
    (content : Option Text) (env : Env) (h : Host) (s : Sync)
    → (promote_bytes content env h s).0 ≡ true
    → IsPromoted (promote_bytes content env h s) s content
unfolding promote_bytes read_file content_of
promote_bytes-IsPromoted none env h s ok = cc
promote_bytes-IsPromoted (some bytes) env h s ok =
    ground (arith, atomic_write-get env s.root bytes h)

promote_bytes-failed :
    (content : Option Text) (env : Env) (h : Host) (s : Sync)
    → s.root ≢ tmp_of s.root
    → (promote_bytes content env h s).0 ≡ false
    → get s.root (promote_bytes content env h s).1.files ≡ get s.root h.files
unfolding promote_bytes
promote_bytes-failed none env h s t bad = refl
promote_bytes-failed (some bytes) env h s t bad =
    ground (arith, atomic_write_failed env s.root bytes h s.root)

-- The test of `tick` for a promotion.
abbrev pub due : Host → ℕ → Sync → Bool
due h now s =
    s.pending_promote && (settled s.local_changed_at now s.promote_debounce && still_unchanged h s)

pub try_promote_cases :
    (env : Env) (h : Host) (now : ℕ) (s : Sync)
    → ((due h now s ≡ true) × (try_promote env now (h, s) ≡ promote env h s))
      ⊎ ((due h now s ≡ false) × (try_promote env now (h, s) ≡ (false, h, s)))
unfolding try_promote
try_promote_cases env h now s = elim (Bool-cases (due h now s)) [
  | inl d ↦ inl (d, rw d)
  | inr d ↦ inr (d, rw d)
]

pub flush_idle :
    (env : Env) (h : Host) (now : ℕ) (s : Sync)
    → s.pending_local_write ≡ false
    → flush env h now s ≡ (h, s)
unfolding flush
flush_idle env h now s idle = rw idle

not_promoted : false ≡ true → ⊥
not_promoted h = cc

-- A tick that has no local write and no promotion due does nothing.
pub tick_idle :
    (env : Env) (h : Host) (now : ℕ) (s : Sync)
    → s.pending_local_write ≡ false
    → due h now s ≡ false
    → tick env h now s ≡ (false, h, s)
unfolding tick
tick_idle env h now s idle early =
    ap (try_promote env now) (flush_idle env h now s idle) ∙ (elim (try_promote_cases env h now s) [
      | inl (d, e) ↦ absurd (not_promoted (sym early ∙ d))
      | inr (d, e) ↦ e
    ])

abbrev Outcome : Type 0
Outcome = Bool × Host × Sync

try_promote-due :
    (env : Env) (h : Host) (now : ℕ) (s : Sync)
    → (try_promote env now (h, s)).0 ≡ true
    → (due h now s ≡ true) × IsPromoted (try_promote env now (h, s)) s (read_file h s.local)
try_promote-due env h now s ok = elim (try_promote_cases env h now s) [
  | inl (d, e) ↦ (
    d,
    subst (λ (r : Outcome). IsPromoted r s (read_file h s.local)) (sym e)
        (unfold promote in
          promote_bytes-IsPromoted (read_file h s.local) env h s
            (ap (λ (r : Outcome). r.0) (sym e) ∙ ok)),
  )
  | inr (d, e) ↦ absurd (not_promoted (ap (λ (r : Outcome). r.0) (sym e) ∙ ok))
]

due-settled :
    (h : Host) (now : ℕ) (s : Sync)
    → due h now s ≡ true
    → (s.pending_promote ≡ true) × HasSettled s now × (still_unchanged h s ≡ true)
due-settled h now s d = (
  ground arith,
  settled_since s.local_changed_at now s.promote_debounce (ground arith),
  ground arith,
)

-- A tick with no local write due promotes only what was pending, had settled for the whole
-- debounce and still had the registered modification time; then the root file holds the local
-- file's content, nothing is pending, and the root is the source in force.
pub tick_promotes_settled :
    (env : Env) (h : Host) (now : ℕ) (s : Sync)
    → s.pending_local_write ≡ false
    → (tick env h now s).0 ≡ true
    → (s.pending_promote ≡ true)
      × HasSettled s now
      × (still_unchanged h s ≡ true)
      × (read_file (tick env h now s).1 s.root ≡ read_file h s.local)
      × ((tick env h now s).2.pending_promote ≡ false)
      × ((tick env h now s).2.active_source ≡ root_source)
unfolding tick
tick_promotes_settled env h now s idle ok =
    let e = flush_idle env h now s idle in
    let (d, p) =
      try_promote-due env h now s
        (ap (λ (f : Host × Sync). (try_promote env now f).0) (sym e) ∙ ok) in
    let (a, b, c) = due-settled h now s d in
    rw e (a, b, c, p.root_content, p.not_pending, p.from_root)

flush-root :
    (env : Env) (h : Host) (now : ℕ) (s : Sync)
    → s.root ≢ s.local
    → s.root ≢ tmp_of s.local
    → (get s.root (flush env h now s).0.files ≡ get s.root h.files)
      × ((flush env h now s).1.root ≡ s.root)
unfolding flush
flush-root env h now s a b = ground (arith, write_local-root env h s a b)

try_promote-failed :
    (env : Env) (h : Host) (now : ℕ) (s : Sync)
    → s.root ≢ tmp_of s.root
    → (try_promote env now (h, s)).0 ≡ false
    → get s.root (try_promote env now (h, s)).1.files ≡ get s.root h.files
unfolding promote
try_promote-failed env h now s t bad =
    ground
      (arith, try_promote_cases env h now s, promote_bytes-failed (read_file h s.local) env h s t)

-- A tick that does not report a promotion leaves the root file as it was, where the root file is
-- neither the local file nor a temporary file of the two.
pub tick_root_kept :
    (env : Env) (h : Host) (now : ℕ) (s : Sync)
    → s.root ≢ s.local
    → s.root ≢ tmp_of s.local
    → s.root ≢ tmp_of s.root
    → (tick env h now s).0 ≡ false
    → get s.root (tick env h now s).1.files ≡ get s.root h.files
unfolding tick
tick_root_kept env h now s a b c kept =
    let (same_file, same_root) = flush-root env h now s a b in
    let f = flush env h now s in
    let apart : f.1.root ≢ tmp_of f.1.root = λ e. c (sym same_root ∙ e ∙ ap tmp_of same_root) in
    let left = try_promote-failed env f.0 now f.1 apart kept in
    subst (λ r. get r (tick env h now s).1.files ≡ get r f.0.files) same_root left ∙ same_file
