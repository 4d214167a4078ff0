-- ===== src/Gui/View/Entries.antt =====
-- The entry of a pid under the steps of the client's view.
use nicewatch.Prelude.{
  ℕ, nat_eq, ◌≡◌, refl, sym, ap, ◌∙◌, Bool, List, [], ◌∷◌, Option, none, some, arith, inl, inr,
  if◌then◌else◌, eqb, ltb, find, contains, Bool-cases, eqb_iff,
}
use nicewatch.Prelude.Maps.{Map, get, insert, remove, values, get-insert, get-remove}
use nicewatch.Wire.{ProcessInfo}
use nicewatch.Daemon.Client.{insert_by_pid, sort_by_pid}
use nicewatch.Daemon.Tables.{IsTable}
use nicewatch.Daemon.Poll.Table.{IsTable-insert}
use nicewatch.Gui.View.{set_all, delete_all}

module _ {F : Type 0} where
  -- The first entry of a pid.
  abbrev pub shown_at : ℕ → List (ProcessInfo F) → Option (ProcessInfo F)
  shown_at pid = find (λ (i : ProcessInfo F). eqb i.pid pid)

  abbrev pub IsDistinct : List (ProcessInfo F) → Type 0
  IsDistinct [] = Unit {0}
  IsDistinct (i ∷ is) = (shown_at i.pid is ≡ none) × IsDistinct is

  abbrev pub or_get : Option (ProcessInfo F) → Option (ProcessInfo F) → Option (ProcessInfo F)
  or_get none old = old
  or_get (some new) old = some new

  pub get-set_all :
      (ps : List (ProcessInfo F)) (m : Map ℕ (ProcessInfo F)) (pid : ℕ)
      → IsDistinct ps
      → get pid (set_all ps m) ≡ or_get (shown_at pid ps) (get pid m)
  unfolding set_all find
  get-set_all [] m pid d = refl
  get-set_all (p ∷ ps) m pid (fresh, d) = elim (Bool-cases (eqb p.pid pid)) [
    | inl same ↦
        let e : p.pid ≡ pid = (eqb_iff p.pid pid).0 same in
        let n : shown_at pid ps ≡ none = ap (λ k. shown_at k ps) (sym e) ∙ fresh in
        get-set_all ps (insert p.pid p m) pid d ∙ rw (get-insert p.pid pid p m, n, same) refl
    | inr other ↦
        get-set_all ps (insert p.pid p m) pid d ∙ rw (get-insert p.pid pid p m, other) refl
  ]

  pub get-delete_all :
      (pids : List ℕ) (m : Map ℕ (ProcessInfo F)) (pid : ℕ)
      → get pid (delete_all pids m) ≡ (if contains pids pid then none else get pid m)
  unfolding delete_all contains
  get-delete_all [] m pid = refl
  get-delete_all (p ∷ pids) m pid =
      ground (arith, get-delete_all pids (remove p m) pid, get-remove p pid m)

  shown-insert_by_pid :
      (i : ProcessInfo F) (is : List (ProcessInfo F)) (pid : ℕ)
      → shown_at i.pid is ≡ none
      → shown_at pid (insert_by_pid i is) ≡ (if eqb i.pid pid then some i else shown_at pid is)
  unfolding insert_by_pid find
  shown-insert_by_pid i [] pid n = refl
  shown-insert_by_pid i (k ∷ is) pid n = ground (
    arith,
    shown-insert_by_pid i is pid,
    eqb_iff k.pid i.pid,
    eqb_iff i.pid pid,
    eqb_iff k.pid pid,
  )

  pub shown-sort_by_pid :
      (is : List (ProcessInfo F)) (pid : ℕ)
      → IsDistinct is
      → shown_at pid (sort_by_pid is) ≡ shown_at pid is
  unfolding sort_by_pid find
  shown-sort_by_pid [] pid d = refl
  shown-sort_by_pid (i ∷ is) pid (fresh, d) =
      shown-insert_by_pid i (sort_by_pid is) pid (shown-sort_by_pid is i.pid d ∙ fresh)
      ∙ rw (shown-sort_by_pid is pid d) refl

  insert_by_pid-IsDistinct :
      (i : ProcessInfo F) (is : List (ProcessInfo F))
      → shown_at i.pid is ≡ none
      → IsDistinct is
      → IsDistinct (insert_by_pid i is)
  unfolding insert_by_pid find
  insert_by_pid-IsDistinct i [] n d = (refl, tt)
  insert_by_pid-IsDistinct i (k ∷ is) n (fresh, d) = elim (Bool-cases (ltb k.pid i.pid)) [
    | inl less ↦ rw less (
      shown-insert_by_pid i is k.pid (ground (arith, n)) ∙ ground (arith, fresh),
      insert_by_pid-IsDistinct i is (ground (arith, n)) d,
    )
    | inr more ↦ rw more (n, (fresh, d))
  ]

  pub sort_by_pid-IsDistinct :
      (is : List (ProcessInfo F)) → IsDistinct is → IsDistinct (sort_by_pid is)
  unfolding sort_by_pid
  sort_by_pid-IsDistinct [] d = tt
  sort_by_pid-IsDistinct (i ∷ is) (fresh, d) =
      insert_by_pid-IsDistinct i (sort_by_pid is) (shown-sort_by_pid is i.pid d ∙ fresh)
        (sort_by_pid-IsDistinct is d)

  module _ (moved : F → F → Bool) where
    pub shown-values :
        (m : Map ℕ (ProcessInfo F)) (pid : ℕ)
        → IsTable moved m
        → shown_at pid (values m) ≡ get pid m
    unfolding values get IsTable find
    shown-values [] pid t = refl
    shown-values ((k, i) ∷ m) pid (e, n, t) = rw (e, shown-values m pid t) refl

    pub values-IsDistinct : (m : Map ℕ (ProcessInfo F)) → IsTable moved m → IsDistinct (values m)
    unfolding values IsTable
    values-IsDistinct [] t = tt
    values-IsDistinct ((k, i) ∷ m) (e, n, t) =
        (shown-values m i.pid t ∙ (ap (λ q. get q m) e ∙ n), values-IsDistinct m t)

    remove-IsTable :
        (pid : ℕ) (m : Map ℕ (ProcessInfo F)) → IsTable moved m → IsTable moved (remove pid m)
    unfolding remove IsTable
    remove-IsTable pid [] t = t
    remove-IsTable pid ((k, i) ∷ m) (e, n, t) = elim (Bool-cases (eqb k pid)) [
      | inl same ↦ rw same (remove-IsTable pid m t)
      | inr other ↦ rw other (e, get-remove pid k m ∙ ground (arith, n), remove-IsTable pid m t)
    ]

    pub delete_all-IsTable :
        (pids : List ℕ) (m : Map ℕ (ProcessInfo F))
        → IsTable moved m
        → IsTable moved (delete_all pids m)
    unfolding delete_all
    delete_all-IsTable [] m t = t
    delete_all-IsTable (pid ∷ pids) m t =
        delete_all-IsTable pids (remove pid m) (remove-IsTable pid m t)

    pub set_all-IsTable :
        (ps : List (ProcessInfo F)) (m : Map ℕ (ProcessInfo F))
        → IsTable moved m
        → IsTable moved (set_all ps m)
    unfolding set_all
    set_all-IsTable [] m t = t
    set_all-IsTable (p ∷ ps) m t =
        set_all-IsTable ps (insert p.pid p m) (IsTable-insert moved p.pid p m refl t)
