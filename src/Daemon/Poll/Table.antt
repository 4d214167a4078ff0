-- ===== src/Daemon/Poll/Table.antt =====
-- The table of processes that a poll leaves (daemon/src/main.rs).
use nicewatch.Prelude.{
  ℕ, nat_eq, ◌≡◌, ◌∙◌, ap, sym, refl, Bool, ◌||◌, List, [], ◌∷◌, arith, eqb, eqb_iff, any,
  Bool-cases, inl, inr,
}
use nicewatch.Prelude.Maps.{Map, get, insert, contains_key, is_some, get-insert}
use nicewatch.Proc.{ProcEntry}
use nicewatch.Cgroup.{Fs}
use nicewatch.Wire.{ProcessInfo}
use nicewatch.Daemon.Tables.{IsTable}
use nicewatch.Daemon.Poll.{Setting, Polled, info_for, poll_process, poll_processes}

module _ {F : Type 0} (moved : F → F → Bool) where
  pub IsTable-insert :
      (pid : ℕ) (info : ProcessInfo F) (m : Map ℕ (ProcessInfo F))
      → info.pid ≡ pid
      → IsTable moved m
      → IsTable moved (insert pid info m)
  unfolding IsTable insert get
  IsTable-insert pid info [] e t = (e, refl, tt)
  IsTable-insert pid info ((p, old) ∷ m) e (o, n, t) = elim (Bool-cases (eqb p pid)) [
    | inl same ↦ rw same (e, ap (λ q. get q m) (sym ((eqb_iff p pid).0 same)) ∙ n, t)
    | inr other ↦ rw other (
      o,
      get-insert pid p info m ∙ ground (arith, n, eqb_iff p pid),
      IsTable-insert pid info m e t,
    )
  ]

  module _ {K : Type 0} (fs : Fs K) (c : Setting F) where
    poll_process-IsTable :
        (e : ProcEntry) (p : Polled K F)
        → IsTable moved p.cur_info
        → IsTable moved (poll_process fs c e p).cur_info
    unfolding poll_process info_for
    poll_process-IsTable e p t = IsTable-insert e.pid _ p.cur_info refl t

    poll_process-pids :
        (e : ProcEntry) (p : Polled K F) (pid : ℕ)
        → contains_key pid (poll_process fs c e p).cur_info
          ≡ (eqb e.pid pid || contains_key pid p.cur_info)
    unfolding poll_process contains_key
    poll_process-pids e p pid = ap is_some (get-insert e.pid pid _ p.cur_info) ∙ ground arith

    -- A poll leaves a table with one entry for each pid, under that pid, and with exactly the pids
    -- of the scan beside those it started from, whatever it decides of the processes.
    pub poll_processes-IsTable :
        (entries : List ProcEntry) (p : Polled K F) (pid : ℕ)
        → IsTable moved p.cur_info
        → IsTable moved (poll_processes fs c entries p).cur_info
          × (contains_key pid (poll_processes fs c entries p).cur_info
              ≡ (any (λ (e : ProcEntry). eqb e.pid pid) entries || contains_key pid p.cur_info))
    unfolding poll_processes any
    poll_processes-IsTable [] p pid t = (t, refl)
    poll_processes-IsTable (e ∷ entries) p pid t =
        let next = poll_process fs c e p in
        let (table, pids) = poll_processes-IsTable entries next pid (poll_process-IsTable e p t) in
        (table, ground (arith, pids, poll_process-pids e p pid))
