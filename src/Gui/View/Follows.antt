-- ===== src/Gui/View/Follows.antt =====
-- The shown entries and the daemon's table under a difference (daemon/src/main.rs,
-- gui/src/lib/store.svelte.ts).
use nicewatch.Prelude.{
  ℕ, nat_eq, ◌≡◌, refl, sym, ap, ◌∙◌, Bool, not, ◌&&◌, List, [], ◌∷◌, Option, none, some, arith,
  inl, inr, if◌then◌else◌, eqb, Bool-cases, eqb_iff,
}
use nicewatch.Prelude.Int.{int_eq}
use nicewatch.Prelude.Text.{text_eq}
use nicewatch.Prelude.Maps.{Map, get, values, contains_key, is_some}
use nicewatch.Priority.{tier_eq, class_eq}
use nicewatch.Wire.{ProcessInfo, Diff}
use nicewatch.Daemon.Client.{sort_by_pid}
use nicewatch.Daemon.Tables.{
  IsTable, diff_tables, if_new, if_changed, process_changed, diff_tables-exact, IsSame,
}
use nicewatch.Gui.View.{set_all, delete_all, changed_map, apply_diff}
use nicewatch.Gui.View.Entries.{
  shown_at, IsDistinct, or_get, get-set_all, get-delete_all, shown-sort_by_pid,
  sort_by_pid-IsDistinct, shown-values, values-IsDistinct, delete_all-IsTable, set_all-IsTable,
}
use nicewatch.Gui.View.Fields.{core_of, unchanged-core}
use nicewatch.Gui.View.Parts.{added-IsDistinct, updated-IsDistinct}

module _ {F : Type 0} (moved : F → F → Bool) where
  -- What the client shows of a pid, and what the daemon has.
  abbrev pub IsShown : List (ProcessInfo F) → Map ℕ (ProcessInfo F) → Type 0
  IsShown view table = (pid : ℕ) → core_of (shown_at pid view) ≡ core_of (get pid table)

  if_new-cur : (old cur : Option (ProcessInfo F)) → old ≡ none → if_new moved old cur ≡ cur
  if_new-cur none cur e = refl
  if_new-cur (some o) cur e = cc

  -- The entry after a difference, from the entries before and now and the one that was shown.
  next_entry : (old cur shown : Option (ProcessInfo F)) → Option (ProcessInfo F)
  next_entry old cur shown =
      or_get (if_changed moved old cur)
        (or_get (if_new moved old cur) (if is_some old && not (is_some cur) then none else shown))

  next_entry-core :
      (pid : ℕ) (old cur shown : Option (ProcessInfo F))
      → ((i : ProcessInfo F) → old ≡ some i → i.pid ≡ pid)
      → ((i : ProcessInfo F) → cur ≡ some i → i.pid ≡ pid)
      → core_of shown ≡ core_of old
      → core_of (next_entry old cur shown) ≡ core_of cur
  unfolding next_entry
  next_entry-core pid none none shown p q e = e
  next_entry-core pid none (some c) shown p q e = refl
  next_entry-core pid (some o) none shown p q e = refl
  next_entry-core pid (some o) (some c) shown p q e =
      elim (Bool-cases (process_changed moved o c)) [
        | inl changed ↦ rw changed refl
        | inr same ↦
            rw same
              (e ∙ ap (λ k. some k) (unchanged-core moved o c (p o refl ∙ sym (q c refl)) same))
      ]

  table_pid :
      (m : Map ℕ (ProcessInfo F)) (pid : ℕ)
      → IsTable moved m
      → (i : ProcessInfo F) → get pid m ≡ some i
      → i.pid ≡ pid
  unfolding IsTable get
  table_pid [] pid t i g = cc
  table_pid ((k, j) ∷ m) pid (e, n, t) i g = elim (Bool-cases (eqb k pid)) [
    | inl same ↦ ground (arith, g, e, eqb_iff k pid)
    | inr other ↦ table_pid m pid t i (ground (arith, g))
  ]

  or_get-none : (o : Option (ProcessInfo F)) → or_get o none ≡ o
  or_get-none none = refl
  or_get-none (some i) = refl

  kept_entry :
      (pid : ℕ) (prev cur : Map ℕ (ProcessInfo F)) (shown : Option (ProcessInfo F))
      → (if contains_key pid prev && not (contains_key pid cur)
          then none
          else or_get shown (get {V = ProcessInfo F} pid []))
        ≡ (if is_some (get pid prev) && not (is_some (get pid cur)) then none else shown)
  unfolding contains_key get
  kept_entry pid prev cur shown = rw (or_get-none shown) refl

  changed_map-get :
      (prev cur : Map ℕ (ProcessInfo F)) (cpu : F) (mem : ℕ × ℕ) (view : List (ProcessInfo F))
      (pid : ℕ)
      → IsTable moved cur
      → IsDistinct view
      → get pid (changed_map (diff_tables moved prev cur cpu mem) view)
        ≡ next_entry (get pid prev) (get pid cur) (shown_at pid view)
  unfolding changed_map next_entry
  changed_map-get prev cur cpu mem view pid t d =
      let df = diff_tables moved prev cur cpu mem in
      let (a, u, r) = diff_tables-exact moved prev cur cpu mem pid t in
      let kept = set_all view [] in
      let left = delete_all df.removed kept in
      get-set_all df.updated (set_all df.added left) pid
        (updated-IsDistinct moved prev cur cpu mem t)
      ∙ (ap (λ o. or_get o (get pid (set_all df.added left))) u
          ∙ ap (or_get (if_changed moved (get pid prev) (get pid cur))) (
              get-set_all df.added left pid (added-IsDistinct moved prev cur cpu mem t)
              ∙ (ap (λ o. or_get o (get pid left)) a
                  ∙ ap (or_get (if_new moved (get pid prev) (get pid cur))) (
                      get-delete_all df.removed kept pid
                      ∙ rw (r, get-set_all view [] pid d)
                          (kept_entry pid prev cur (shown_at pid view))))))

  -- The view has each pid once, and shows the table.
  pub record IsFollowed (view : List (ProcessInfo F)) (table : Map ℕ (ProcessInfo F)) : Type 0 where
    pub distinct : IsDistinct view
    pub shown : IsShown view table

  nothing-IsTable : IsTable moved []
  unfolding IsTable
  nothing-IsTable = tt

  changed_map-IsTable :
      (d : Diff F) (view : List (ProcessInfo F)) → IsTable moved (changed_map d view)
  unfolding changed_map
  changed_map-IsTable d view = set_all-IsTable moved d.updated _ (
      set_all-IsTable moved d.added _
        (delete_all-IsTable moved d.removed _ (set_all-IsTable moved view [] nothing-IsTable)))

  pub apply_diff-IsFollowed :
      (prev cur : Map ℕ (ProcessInfo F)) (cpu : F) (mem : ℕ × ℕ) (view : List (ProcessInfo F))
      → IsTable moved prev
      → IsTable moved cur
      → IsFollowed view prev
      → IsFollowed (apply_diff (diff_tables moved prev cur cpu mem) view) cur
  unfolding apply_diff
  apply_diff-IsFollowed prev cur cpu mem view tp tc f =
      let m = changed_map (diff_tables moved prev cur cpu mem) view in
      let t = changed_map-IsTable (diff_tables moved prev cur cpu mem) view in
      record {
        distinct = sort_by_pid-IsDistinct (values m) (values-IsDistinct moved m t);
        shown = λ pid.
            ap core_of (
              shown-sort_by_pid (values m) pid (values-IsDistinct moved m t)
              ∙ (shown-values moved m pid t
                  ∙ changed_map-get prev cur cpu mem view pid tc f.distinct))
            ∙ next_entry-core pid (get pid prev) (get pid cur) (shown_at pid view)
                (table_pid prev pid tp) (table_pid cur pid tc) (f.shown pid);
      }

  -- A snapshot shows the table.
  pub snapshot-IsFollowed :
      (table : Map ℕ (ProcessInfo F))
      → IsTable moved table
      → IsFollowed (sort_by_pid (values table)) table
  snapshot-IsFollowed table t = record {
    distinct = sort_by_pid-IsDistinct (values table) (values-IsDistinct moved table t);
    shown = λ pid. ap core_of (
        shown-sort_by_pid (values table) pid (values-IsDistinct moved table t)
        ∙ shown-values moved table pid t);
  }

  same-core :
      (pid : ℕ) (old cur : Option (ProcessInfo F))
      → ((i : ProcessInfo F) → old ≡ some i → i.pid ≡ pid)
      → ((i : ProcessInfo F) → cur ≡ some i → i.pid ≡ pid)
      → IsSame moved old cur
      → core_of old ≡ core_of cur
  same-core pid none none p q e = refl
  same-core pid none (some c) p q e = absurd e
  same-core pid (some o) none p q e = absurd e
  same-core pid (some o) (some c) p q e =
      ap (λ k. some k) (unchanged-core moved o c (p o refl ∙ sym (q c refl)) e)

  -- Nothing need be sent where no entry counts as changed.
  pub unsent-IsFollowed :
      (prev cur : Map ℕ (ProcessInfo F)) (view : List (ProcessInfo F))
      → IsTable moved prev
      → IsTable moved cur
      → ((pid : ℕ) → IsSame moved (get pid prev) (get pid cur))
      → IsFollowed view prev
      → IsFollowed view cur
  unsent-IsFollowed prev cur view tp tc same f = record {
    distinct = f.distinct;
    shown = λ pid.
        f.shown pid
        ∙ same-core pid (get pid prev) (get pid cur) (table_pid prev pid tp) (table_pid cur pid tc)
            (same pid);
  }
