-- ===== src/Daemon/Effect.antt =====
-- What applying a target does to a process (`apply_target`, daemon/src/main.rs).
use nicewatch.Prelude.{
  ℕ, ◌<◌, ◌≡◌, sym, ap, ◌∙◌, Bool, true, false, ◌&&◌, not, some, arith, eq_iff, ◌==◌, inl, inr,
  Bool-cases, All,
}
use nicewatch.Prelude.Int.{ℤ, ◌≤ℤ◌, max_ℤ, int_eq}
use nicewatch.Priority.{IoniceClass, class_beq, class_beq_iff}
use nicewatch.Proc.{ProcEntry}
use nicewatch.Rules.{ApplyTarget}
use nicewatch.Applier.{clamp_nice, ioprio_value, get_ioprio, is_rt_scheduled}
use nicewatch.Applier.Ioprio.{get_ioprio-ioprio_value}
use nicewatch.Daemon.{
  Kernel, Call, setpriority, ioprio_set, Effects, made, io_differs, effective_nice, apply_io,
  apply_niceness, apply_target,
}

max_above : (a b : ℤ) → b ≤ℤ max_ℤ a b
max_above a b = ground arith

clamp_above : (privileged : Bool) (n : ℤ) → n ≤ℤ clamp_nice privileged n
unfolding clamp_nice
clamp_above privileged n = ground arith

le_trans : (a b c : ℤ) → a ≤ℤ b → b ≤ℤ c → a ≤ℤ c
le_trans a b c h k = ground arith

-- A call that does not lower the niceness below the given one.
unfoldable pub IsRaise : ℤ → Call → Type 0
IsRaise current (setpriority pid v) = current ≤ℤ v
IsRaise current (ioprio_set pid v) = Unit

made-IsRaise :
    (current : ℤ) (call : Call) (ok : Bool) (pid : ℕ) (s : Effects)
    → IsRaise current call
    → All (IsRaise current) s.calls
    → All (IsRaise current) (made call ok pid s).calls
unfolding made
made-IsRaise current call true pid s c a = (c, a)
made-IsRaise current call false pid s c a = (c, a)

raise_by : (current wanted : ℤ) → current ≤ℤ clamp_nice false (effective_nice false wanted current)
unfolding effective_nice
raise_by current wanted =
    le_trans current (max_ℤ wanted current) (clamp_nice false (max_ℤ wanted current))
      (max_above wanted current) (clamp_above false (max_ℤ wanted current))

apply_niceness-IsRaise :
    (k : Kernel) (pid : ℕ) (current wanted : ℤ) (s : Effects)
    → All (IsRaise current) s.calls
    → All
        (IsRaise current)
        (apply_niceness k false pid current (effective_nice false wanted current) s).calls
unfolding apply_niceness
apply_niceness-IsRaise k pid current wanted s a =
    let nice = effective_nice false wanted current in
    elim (Bool-cases (current == nice)) [
      | inl same ↦ rw same a
      | inr other ↦
          let v = clamp_nice false nice in
          rw other (
            made-IsRaise current (setpriority pid v) (k.accepts_nice pid v) pid s
              (unfold IsRaise in raise_by current wanted) a)
    ]

apply_io-IsRaise :
    (k : Kernel) (pid : ℕ) (class : IoniceClass) (priority : ℕ) (current : ℤ) (s : Effects)
    → All (IsRaise current) s.calls
    → All (IsRaise current) (apply_io k pid class priority s).calls
unfolding apply_io
apply_io-IsRaise k pid class priority current s a =
    let v = ioprio_value class priority in
    let call =
      made-IsRaise current (ioprio_set pid v) (k.accepts_ioprio pid v) pid s (unfold IsRaise in tt)
        a in
    elim (Bool-cases (
      not (class_beq class IoniceClass.none_class)
      && io_differs (get_ioprio (k.ioprio_get s.calls pid)) class priority)) [
        | inl differs ↦ rw differs call
        | inr same ↦ rw same a
      ]

-- A daemon without privileges never lowers the niceness of a process it applies a target to: every
-- niceness it sets is at least the current one.
pub unprivileged_raises :
    (k : Kernel) (e : ProcEntry) (t : ApplyTarget) (s : Effects)
    → All (IsRaise e.nice) s.calls
    → All (IsRaise e.nice) (apply_target k false e t s).calls
unfolding apply_target
unprivileged_raises k e t s a =
    let nice = effective_nice false t.nice e.nice in
    elim (Bool-cases (is_rt_scheduled (k.stat e.pid))) [
      | inl rt ↦ rw rt a
      | inr other ↦ rw other (
          apply_io-IsRaise k e.pid t.ionice_class t.ionice_priority e.nice
            (apply_niceness k false e.pid e.nice nice s)
            (apply_niceness-IsRaise k e.pid e.nice t.nice s a))
    ]

-- The niceness that is set for a process is the one it would be given again.
renice_stable :
    (privileged : Bool) (wanted current : ℤ)
    → effective_nice privileged wanted
        (clamp_nice privileged (effective_nice privileged wanted current))
      ≡ clamp_nice privileged (effective_nice privileged wanted current)
unfolding effective_nice clamp_nice
renice_stable true wanted current = ground arith
renice_stable false wanted current = ground arith

apply_niceness-same :
    (k : Kernel) (privileged : Bool) (pid : ℕ) (current nice : ℤ) (s : Effects)
    → nice ≡ current
    → apply_niceness k privileged pid current nice s ≡ s
unfolding apply_niceness
apply_niceness-same k privileged pid current nice s h = ground (arith, eq_iff current nice)

apply_io-same :
    (k : Kernel) (pid : ℕ) (class : IoniceClass) (priority : ℕ) (s : Effects)
    → priority < 256
    → k.ioprio_get s.calls pid ≡ some (ioprio_value class priority)
    → apply_io k pid class priority s ≡ s
unfolding apply_io io_differs
apply_io-same k pid class priority s small e =
    rw (e, get_ioprio-ioprio_value class priority small) (ground (arith, class_beq_iff class class))

-- Applying a target settles: on a process with the niceness that the daemon sets for the target and
-- the io priority of the target, applying it again makes no call and no report.
pub apply_target_settles :
    (k : Kernel) (privileged : Bool) (e : ProcEntry) (t : ApplyTarget) (before : ℤ) (s : Effects)
    → e.nice ≡ clamp_nice privileged (effective_nice privileged t.nice before)
    → t.ionice_priority < 256
    → k.ioprio_get s.calls e.pid ≡ some (ioprio_value t.ionice_class t.ionice_priority)
    → apply_target k privileged e t s ≡ s
unfolding apply_target
apply_target_settles k privileged e t before s nice small io =
    let again =
      apply_niceness-same k privileged e.pid e.nice (effective_nice privileged t.nice e.nice) s (
        ap (effective_nice privileged t.nice) nice
        ∙ renice_stable privileged t.nice before
        ∙ sym nice) in
    let io' = apply_io-same k e.pid t.ionice_class t.ionice_priority s small io in
    ground (arith, again, io')
