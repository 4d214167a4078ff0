-- ===== src/Daemon/Tables.antt =====
-- The difference of two polls (`diff_tables`, daemon/src/main.rs).
use nicewatch.Prelude.{
  ℕ, nat_eq, ◌≡◌, ◌≢◌, ◌⊎◌, inl, inr, refl, sym, ap, ◌∙◌, Bool, true, false, ◌&&◌, ◌||◌, not, List,
  [], ◌∷◌, Option, none, some, arith, if◌then◌else◌, eqb, ◌==◌, contains, find,
}
use nicewatch.Prelude.Int.{int_eq}
use nicewatch.Prelude.Text.{text_eq}
use nicewatch.Prelude.Maps.{Map, get, keys, contains_key, is_some}
use nicewatch.Priority.{Tier, tier_eq, class_eq}
use nicewatch.Wire.{ProcessInfo, Diff, diff_is_empty, no_items}

abbrev pub same_tier : Option Tier → Option Tier → Bool
same_tier none none = true
same_tier (some a) (some b) = a == b
same_tier _ _ = false

no_items_none : {A : Type 0} → (xs : List A) → no_items xs ≡ true → xs ≡ []
no_items_none [] h = refl
no_items_none (x ∷ xs) h = cc

empty_parts :
    {F : Type 0}
    → (d : Diff F) → diff_is_empty d ≡ true
    → (d.added ≡ []) × (d.updated ≡ []) × (d.removed ≡ [])
unfolding diff_is_empty
empty_parts d e = (
  no_items_none d.added (ground arith),
  no_items_none d.updated (ground arith),
  no_items_none d.removed (ground arith),
)

nat_cases : (a b : ℕ) → (a ≡ b) ⊎ (a ≢ b)
nat_cases a b = ground arith

-- `moved` is whether two percentages differ by more than 0.05.
module _ {F : Type 0} (moved : F → F → Bool) where
  unfoldable pub process_changed : ProcessInfo F → ProcessInfo F → Bool
  process_changed a b =
      not (a.ppid == b.ppid)
      || not (a.name == b.name)
      || not (a.user == b.user)
      || moved a.cpu_percent b.cpu_percent
      || not (a.mem_kb == b.mem_kb)
      || not (a.status == b.status)
      || not (a.nice == b.nice)
      || not (a.ionice_class == b.ionice_class)
      || not (a.ionice_priority == b.ionice_priority)
      || not (same_tier a.tier b.tier)
      || (if a.capped then not b.capped else b.capped)
      || (if a.game_detected then not b.game_detected else b.game_detected)

  -- The first loop of `diff_tables`: the added and the updated processes.
  unfoldable pub added_in : Map ℕ (ProcessInfo F) → Map ℕ (ProcessInfo F) → List (ProcessInfo F)
  added_in prev [] = []
  added_in prev ((pid, info) ∷ cur) =
      let rest = added_in prev cur in elim (get pid prev) [ none ↦ info ∷ rest | some old ↦ rest ]

  unfoldable pub updated_in : Map ℕ (ProcessInfo F) → Map ℕ (ProcessInfo F) → List (ProcessInfo F)
  updated_in prev [] = []
  updated_in prev ((pid, info) ∷ cur) =
      let rest = updated_in prev cur in
      elim (get pid prev) [
        | none ↦ rest
        | some old ↦ if process_changed old info then info ∷ rest else rest
      ]

  unfoldable pub removed_in : List ℕ → Map ℕ (ProcessInfo F) → List ℕ
  removed_in [] cur = []
  removed_in (pid ∷ pids) cur =
      let rest = removed_in pids cur in if not (contains_key pid cur) then pid ∷ rest else rest

  unfoldable pub diff_tables : Map ℕ (ProcessInfo F) → Map ℕ (ProcessInfo F) → F → ℕ × ℕ → Diff F
  unfolding added_in updated_in removed_in
  diff_tables prev cur system_cpu (total, used) = record {
    added = added_in prev cur;
    updated = updated_in prev cur;
    removed = removed_in (keys prev) cur;
    system_cpu = system_cpu;
    system_mem_total_kb = total;
    system_mem_used_kb = used;
  }

  -- Each entry is under its pid, and no pid has two.
  unfoldable pub IsTable : Map ℕ (ProcessInfo F) → Type 0
  IsTable [] = Unit
  IsTable ((pid, info) ∷ m) = (info.pid ≡ pid) × (get pid m ≡ none) × IsTable m

  -- The entry of a pid in a part of a difference.
  abbrev pub entry_of : ℕ → List (ProcessInfo F) → Option (ProcessInfo F)
  entry_of pid = find (λ (i : ProcessInfo F). eqb i.pid pid)

  abbrev pub if_new : Option (ProcessInfo F) → Option (ProcessInfo F) → Option (ProcessInfo F)
  if_new none cur = cur
  if_new (some old) cur = none

  abbrev pub if_changed : Option (ProcessInfo F) → Option (ProcessInfo F) → Option (ProcessInfo F)
  if_changed none cur = none
  if_changed (some old) none = none
  if_changed (some old) (some new) = if process_changed old new then some new else none

  pub if_new-none : (old : Option (ProcessInfo F)) → if_new old none ≡ none
  if_new-none none = refl
  if_new-none (some o) = refl

  pub if_changed-none : (old : Option (ProcessInfo F)) → if_changed old none ≡ none
  if_changed-none none = refl
  if_changed-none (some o) = refl

  pub entry_of-added_in :
      (prev cur : Map ℕ (ProcessInfo F)) (pid : ℕ)
      → IsTable cur
      → entry_of pid (added_in prev cur) ≡ if_new (get pid prev) (get pid cur)
  unfolding added_in find get IsTable
  entry_of-added_in prev [] pid t = rw (if_new-none (get pid prev)) refl
  entry_of-added_in prev ((p, info) ∷ cur) pid (e, n, t) =
      let ih = entry_of-added_in prev cur pid t in
      elim (nat_cases p pid) [
        | inl same ↦ ground (arith, ih, if_new-none (get pid prev))
        | inr differ ↦ ground (arith, ih)
      ]

  pub entry_of-updated_in :
      (prev cur : Map ℕ (ProcessInfo F)) (pid : ℕ)
      → IsTable cur
      → entry_of pid (updated_in prev cur) ≡ if_changed (get pid prev) (get pid cur)
  unfolding updated_in find get IsTable
  entry_of-updated_in prev [] pid t = rw (if_changed-none (get pid prev)) refl
  entry_of-updated_in prev ((p, info) ∷ cur) pid (e, n, t) =
      let ih = entry_of-updated_in prev cur pid t in
      elim (nat_cases p pid) [
        | inl same ↦ ground (arith, ih, if_changed-none (get pid prev))
        | inr differ ↦ ground (arith, ih)
      ]

  contains-removed_in :
      (prev cur : Map ℕ (ProcessInfo F)) (pid : ℕ)
      → contains (removed_in (keys prev) cur) pid
        ≡ (contains_key pid prev && not (contains_key pid cur))
  unfolding removed_in keys contains_key get contains
  contains-removed_in [] cur pid = refl
  contains-removed_in ((p, info) ∷ prev) cur pid =
      let ih = contains-removed_in prev cur pid in
      elim (nat_cases p pid) [ inl same ↦ ground (arith, ih) | inr differ ↦ ground (arith, ih) ]

  -- The difference of two polls lists as added the processes of the current poll that the previous
  -- one has not, as updated those of both whose entries differ by the comparison `process_changed`,
  -- which passes over the executable, the start time and small moves of the percentage, with their
  -- current entries, and as removed the pids of the previous poll that are gone.
  pub diff_tables-exact :
      (prev cur : Map ℕ (ProcessInfo F)) (cpu : F) (mem : ℕ × ℕ) (pid : ℕ)
      → IsTable cur
      → (entry_of pid (diff_tables prev cur cpu mem).added ≡ if_new (get pid prev) (get pid cur))
        × (entry_of pid (diff_tables prev cur cpu mem).updated
            ≡ if_changed (get pid prev) (get pid cur))
        × (contains (diff_tables prev cur cpu mem).removed pid
            ≡ (contains_key pid prev && not (contains_key pid cur)))
  unfolding diff_tables
  diff_tables-exact prev cur cpu mem pid t = (
    entry_of-added_in prev cur pid t,
    entry_of-updated_in prev cur pid t,
    contains-removed_in prev cur pid,
  )

  -- Two entries that a client need not be told apart.
  abbrev pub IsSame : Option (ProcessInfo F) → Option (ProcessInfo F) → Type 0
  IsSame none none = Unit
  IsSame none (some new) = ⊥
  IsSame (some old) none = ⊥
  IsSame (some old) (some new) = process_changed old new ≡ false

  nothing_new :
      (old new : Option (ProcessInfo F))
      → if_new old new ≡ none
      → if_changed old new ≡ none
      → (is_some old && not (is_some new)) ≡ false
      → IsSame old new
  nothing_new none none a b c = tt
  nothing_new none (some n) a b c = cc
  nothing_new (some o) none a b c = cc
  nothing_new (some o) (some n) a b c = ground arith

  -- A poll whose difference is not sent, as it is empty, has the same pids as the one before, and
  -- no entry of it has changed.
  pub diff_is_empty-IsSame :
      (prev cur : Map ℕ (ProcessInfo F)) (cpu : F) (mem : ℕ × ℕ) (pid : ℕ)
      → IsTable cur
      → diff_is_empty (diff_tables prev cur cpu mem) ≡ true
      → IsSame (get pid prev) (get pid cur)
  unfolding diff_is_empty find contains contains_key
  diff_is_empty-IsSame prev cur cpu mem pid t e =
      let (a, u, r) = diff_tables-exact prev cur cpu mem pid t in
      let (x, y, z) = empty_parts (diff_tables prev cur cpu mem) e in
      nothing_new (get pid prev) (get pid cur) (sym a ∙ ap (entry_of pid) x)
        (sym u ∙ ap (entry_of pid) y) (sym r ∙ ap (λ l. contains l pid) z)
