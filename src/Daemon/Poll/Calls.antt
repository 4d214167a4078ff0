-- ===== src/Daemon/Poll/Calls.antt =====
-- Which processes a poll makes system calls for (daemon/src/main.rs).
use nicewatch.Prelude.{
  ℕ, ◌≡◌, ◌⊎◌, inl, inr, refl, sym, Bool, true, false, ◌&&◌, not, List, [], ◌∷◌, arith, eqb,
  eqb_iff, any, All, Bool-cases, ◌==◌,
}
use mathlib.Core.Path.{subst}
use nicewatch.Priority.{IoniceClass, class_beq}
use nicewatch.Prelude.Int.{ℤ, int_eq}
use nicewatch.Proc.{ProcEntry}
use nicewatch.Rules.{Resolved, untouched, apply}
use nicewatch.Applier.{clamp_nice, ioprio_value, get_ioprio, is_rt_scheduled}
use nicewatch.Cgroup.{Fs}
use nicewatch.Daemon.{
  Kernel, Call, setpriority, ioprio_set, Effects, made, apply_io, apply_niceness, apply_target,
  effective_nice, io_differs, Identity, is_untouchable, decide,
}
use nicewatch.Daemon.Poll.{Setting, Polled, apply_resolved, decision, poll_process, poll_processes}

-- The process that a call is for.
abbrev pub callee : Call → ℕ
callee (setpriority pid v) = pid
callee (ioprio_set pid v) = pid

module _ (P : ℕ → Type 0) where
  abbrev IsFor : Effects → Type 0
  IsFor s = All (λ (call : Call). P (callee call)) s.calls

  made-IsFor :
      (call : Call) (ok : Bool) (pid : ℕ) (s : Effects)
      → P (callee call)
      → IsFor s
      → IsFor (made call ok pid s)
  unfolding made
  made-IsFor call true pid s c a = (c, a)
  made-IsFor call false pid s c a = (c, a)

  apply_niceness-IsFor :
      (k : Kernel) (privileged : Bool) (pid : ℕ) (current nice : ℤ) (s : Effects)
      → P pid
      → IsFor s
      → IsFor (apply_niceness k privileged pid current nice s)
  unfolding apply_niceness
  apply_niceness-IsFor k privileged pid current nice s c a = elim (Bool-cases (current == nice)) [
    | inl same ↦ rw same a
    | inr other ↦
        let v = clamp_nice privileged nice in
        rw other (made-IsFor (setpriority pid v) (k.accepts_nice pid v) pid s c a)
  ]

  apply_io-IsFor :
      (k : Kernel) (pid : ℕ) (class : IoniceClass) (priority : ℕ) (s : Effects)
      → P pid
      → IsFor s
      → IsFor (apply_io k pid class priority s)
  unfolding apply_io
  apply_io-IsFor k pid class priority s c a =
      let v = ioprio_value class priority in
      elim (Bool-cases (
        not (class_beq class IoniceClass.none_class)
        && io_differs (get_ioprio (k.ioprio_get s.calls pid)) class priority)) [
          | inl differs ↦
              rw differs (made-IsFor (ioprio_set pid v) (k.accepts_ioprio pid v) pid s c a)
          | inr same ↦ rw same a
        ]

  apply_resolved-IsFor :
      (k : Kernel) (privileged : Bool) (e : ProcEntry) (r : Resolved) (s : Effects)
      → (r ≡ untouched) ⊎ P e.pid
      → IsFor s
      → IsFor (apply_resolved k privileged e r s)
  unfolding apply_resolved apply_target
  apply_resolved-IsFor k privileged e untouched s c a = a
  apply_resolved-IsFor k privileged e (apply t) s (inl c) a = cc
  apply_resolved-IsFor k privileged e (apply t) s (inr c) a =
      let nice = effective_nice privileged t.nice e.nice in
      elim (Bool-cases (is_rt_scheduled (k.stat e.pid))) [
        | inl rt ↦ rw rt a
        | inr other ↦ rw other (
            apply_io-IsFor k e.pid t.ionice_class t.ionice_priority
              (apply_niceness k privileged e.pid e.nice nice s) c
              (apply_niceness-IsFor k privileged e.pid e.nice nice s c a))
      ]

  module _ {K F : Type 0} (fs : Fs K) (c : Setting F) where
    untouchable_or :
        (e : ProcEntry) (p : Polled K F)
        → (is_untouchable c.who e ≡ true) ⊎ P e.pid
        → (decision fs c e p ≡ untouched) ⊎ P e.pid
    unfolding decide
    untouchable_or e p (inl u) = inl (rw u refl)
    untouchable_or e p (inr q) = inr q

    poll_processes-IsFor :
        (entries : List ProcEntry) (p : Polled K F)
        → All (λ (e : ProcEntry). (is_untouchable c.who e ≡ true) ⊎ P e.pid) entries
        → IsFor p.effects
        → IsFor (poll_processes fs c entries p).effects
    unfolding poll_processes poll_process
    poll_processes-IsFor [] p h a = a
    poll_processes-IsFor (e ∷ entries) p (u, h) a =
        poll_processes-IsFor entries (poll_process fs c e p) h (
          apply_resolved-IsFor c.kernel c.who.privileged e (decision fs c e p) p.effects
            (untouchable_or e p u) a)

-- A process with that pid that the daemon may touch.
abbrev pub touches : Identity → ℕ → ProcEntry → Bool
touches who pid e = eqb e.pid pid && not (is_untouchable who e)

abbrev Covered : Identity → List ProcEntry → ProcEntry → Type 0
Covered who entries e = (is_untouchable who e ≡ true) ⊎ (any (touches who e.pid) entries ≡ true)

weaken :
    (who : Identity) (e x : ProcEntry) (xs : List ProcEntry)
    → Covered who xs e
    → Covered who (x ∷ xs) e
unfolding any
weaken who e x xs (inl u) = inl u
weaken who e x xs (inr h) = inr (ground arith)

weaken-All :
    (who : Identity) (x : ProcEntry) (xs ys : List ProcEntry)
    → All (Covered who xs) ys
    → All (Covered who (x ∷ xs)) ys
weaken-All who x xs [] h = tt
weaken-All who x xs (y ∷ ys) (c, h) = (weaken who y x xs c, weaken-All who x xs ys h)

Covered-first : (who : Identity) (e : ProcEntry) (es : List ProcEntry) → Covered who (e ∷ es) e
unfolding any
Covered-first who e es = ground (arith, eqb_iff e.pid e.pid)

Covered-All : (who : Identity) (es : List ProcEntry) → All (Covered who es) es
Covered-All who [] = tt
Covered-All who (e ∷ es) = (Covered-first who e es, weaken-All who e es es (Covered-All who es))

-- Every scheduling call that a whole poll makes is for a process of the scan that is the daemon's
-- own user's, unless the daemon is privileged.
pub poll_processes-touches :
    {K F : Type 0}
    → (fs : Fs K) (c : Setting F) (entries : List ProcEntry) (p : Polled K F) → p.effects.calls ≡ []
    → All
        (λ (call : Call). any (touches c.who (callee call)) entries ≡ true)
        (poll_processes fs c entries p).effects.calls
poll_processes-touches fs c entries p none_yet =
    let P : ℕ → Type 0 = λ pid. any (touches c.who pid) entries ≡ true in
    poll_processes-IsFor P fs c entries p (Covered-All c.who entries) (
      subst (λ (calls : List Call). All (λ (call : Call). P (callee call)) calls) (sym none_yet) tt)
