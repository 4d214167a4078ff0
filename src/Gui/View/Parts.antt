-- ===== src/Gui/View/Parts.antt =====
-- The pids in the parts of a difference (`diff_tables`, daemon/src/main.rs).
use nicewatch.Prelude.{
  ℕ, nat_eq, ◌≡◌, ap, ◌∙◌, Bool, [], ◌∷◌, none, some, arith, inl, inr, if◌then◌else◌, Bool-cases,
  Option-cases,
}
use nicewatch.Prelude.Int.{int_eq}
use nicewatch.Prelude.Text.{text_eq}
use nicewatch.Prelude.Maps.{Map, get}
use nicewatch.Priority.{tier_eq, class_eq}
use nicewatch.Wire.{ProcessInfo}
use nicewatch.Daemon.Tables.{
  IsTable, diff_tables, process_changed, added_in, updated_in, entry_of-added_in,
  entry_of-updated_in, if_new-none, if_changed-none,
}
use nicewatch.Gui.View.Entries.{shown_at, IsDistinct}

module _ {F : Type 0} (moved : F → F → Bool) where
  added_in-nothing : (prev : Map ℕ (ProcessInfo F)) → IsDistinct (added_in moved prev [])
  unfolding added_in
  added_in-nothing prev = tt

  updated_in-nothing : (prev : Map ℕ (ProcessInfo F)) → IsDistinct (updated_in moved prev [])
  unfolding updated_in
  updated_in-nothing prev = tt

  absent_added :
      (prev cur : Map ℕ (ProcessInfo F)) (pid : ℕ)
      → IsTable moved cur
      → get pid cur ≡ none
      → shown_at pid (added_in moved prev cur) ≡ none
  absent_added prev cur pid t n =
      entry_of-added_in moved prev cur pid t ∙ rw n (if_new-none moved (get pid prev))

  absent_updated :
      (prev cur : Map ℕ (ProcessInfo F)) (pid : ℕ)
      → IsTable moved cur
      → get pid cur ≡ none
      → shown_at pid (updated_in moved prev cur) ≡ none
  absent_updated prev cur pid t n =
      entry_of-updated_in moved prev cur pid t ∙ rw n (if_changed-none moved (get pid prev))

  added_in-new :
      (prev cur : Map ℕ (ProcessInfo F)) (p : ℕ) (i : ProcessInfo F)
      → get p prev ≡ none
      → added_in moved prev ((p, i) ∷ cur) ≡ i ∷ added_in moved prev cur
  unfolding added_in
  added_in-new prev cur p i e = ground (arith, e)

  added_in-old :
      (prev cur : Map ℕ (ProcessInfo F)) (p : ℕ) (i o : ProcessInfo F)
      → get p prev ≡ some o
      → added_in moved prev ((p, i) ∷ cur) ≡ added_in moved prev cur
  unfolding added_in
  added_in-old prev cur p i o e = ground (arith, e)

  updated_in-new :
      (prev cur : Map ℕ (ProcessInfo F)) (p : ℕ) (i : ProcessInfo F)
      → get p prev ≡ none
      → updated_in moved prev ((p, i) ∷ cur) ≡ updated_in moved prev cur
  unfolding updated_in
  updated_in-new prev cur p i e = ground (arith, e)

  updated_in-old :
      (prev cur : Map ℕ (ProcessInfo F)) (p : ℕ) (i o : ProcessInfo F)
      → get p prev ≡ some o
      → updated_in moved prev ((p, i) ∷ cur) ≡ (
          if process_changed moved o i
          then i ∷ updated_in moved prev cur
          else updated_in moved prev cur)
  unfolding updated_in
  updated_in-old prev cur p i o e = ground (arith, e)

  added_in-IsDistinct :
      (prev cur : Map ℕ (ProcessInfo F)) → IsTable moved cur → IsDistinct (added_in moved prev cur)
  unfolding IsTable
  added_in-IsDistinct prev [] t = added_in-nothing prev
  added_in-IsDistinct prev ((p, i) ∷ cur) (e, n, t) = elim (Option-cases (get p prev)) [
    | inl new ↦
        rw (added_in-new prev cur p i new) (
          absent_added prev cur i.pid t (ap (λ k. get k cur) e ∙ n),
          added_in-IsDistinct prev cur t,
        )
    | inr (o, old) ↦ rw (added_in-old prev cur p i o old) (added_in-IsDistinct prev cur t)
  ]

  updated_in-IsDistinct :
      (prev cur : Map ℕ (ProcessInfo F))
      → IsTable moved cur
      → IsDistinct (updated_in moved prev cur)
  unfolding IsTable
  updated_in-IsDistinct prev [] t = updated_in-nothing prev
  updated_in-IsDistinct prev ((p, i) ∷ cur) (e, n, t) = elim (Option-cases (get p prev)) [
    | inl new ↦ rw (updated_in-new prev cur p i new) (updated_in-IsDistinct prev cur t)
    | inr (o, old) ↦
        rw (updated_in-old prev cur p i o old) (elim (Bool-cases (process_changed moved o i)) [
          | inl changed ↦ rw changed (
            absent_updated prev cur i.pid t (ap (λ k. get k cur) e ∙ n),
            updated_in-IsDistinct prev cur t,
          )
          | inr same ↦ rw same (updated_in-IsDistinct prev cur t)
        ])
  ]

  pub updated-IsDistinct :
      (prev cur : Map ℕ (ProcessInfo F)) (cpu : F) (mem : ℕ × ℕ)
      → IsTable moved cur
      → IsDistinct (diff_tables moved prev cur cpu mem).updated
  unfolding diff_tables
  updated-IsDistinct prev cur cpu mem t = updated_in-IsDistinct prev cur t

  pub added-IsDistinct :
      (prev cur : Map ℕ (ProcessInfo F)) (cpu : F) (mem : ℕ × ℕ)
      → IsTable moved cur
      → IsDistinct (diff_tables moved prev cur cpu mem).added
  unfolding diff_tables
  added-IsDistinct prev cur cpu mem t = added_in-IsDistinct prev cur t
