-- ===== src/Daemon/Turn/Due.antt =====
-- When a round of the main loop polls (`run`, daemon/src/main.rs).
use nicewatch.Prelude.{
  ℕ, nat_eq, ◌-◌, ◌≡◌, refl, ap, ◌∙◌, Bool, true, false, inl, inr, Bool-cases, leb, eqb, any, ◌||◌,
  if◌then◌else◌,
}
use nicewatch.Prelude.Maps.{contains_key}
use nicewatch.Proc.{ProcEntry}
use nicewatch.Sync.{Sync}
use nicewatch.Sync.Disk.{Host}
use nicewatch.Sync.Writing.{tick}
use nicewatch.Daemon.{effective_poll_interval}
use nicewatch.Daemon.Turn.{
  serve, changes_of, reloaded, watch, told_promotion, write_back, before_poll, poll_if_due, turn,
}
use nicewatch.Daemon.Turn.Polling.{polled_once, drained, is_due, poll}
use nicewatch.Daemon.Turn.State.{Daemon, Round, Fixed}
use nicewatch.Daemon.Turn.Sound.{polled-IsTable, poll-full_info}

module _ {K F : Type 0} (x : Fixed K F) where
  -- What decides whether a poll is due, and the table.
  abbrev IsSameClock : Daemon K F → Daemon K F → Type 0
  IsSameClock d d' =
      (d'.last_poll ≡ d.last_poll)
      × (d'.poll_interval ≡ d.poll_interval)
      × (d'.loop.full_info ≡ d.loop.full_info)

  reloaded-IsSameClock : (r : Bool × Sync) (d : Daemon K F) → IsSameClock d (reloaded x r d)
  unfolding reloaded
  reloaded-IsSameClock (false, s) d = (refl, refl, refl)
  reloaded-IsSameClock (true, s) d = (refl, refl, refl)

  told_promotion-IsSameClock :
      (r : Bool × Host × Sync) (d : Daemon K F) → IsSameClock d (told_promotion x r d).1
  unfolding told_promotion
  told_promotion-IsSameClock (false, h, s) d = (refl, refl, refl)
  told_promotion-IsSameClock (true, h, s) d = (refl, refl, refl)

  before_poll-IsSameClock :
      (t : Round F) (d : Daemon K F) → IsSameClock (serve x t d) (before_poll x t d).1
  unfolding before_poll watch write_back
  before_poll-IsSameClock t d =
      let s = serve x t d in
      let w = watch x t s in
      let (last, interval, table) = reloaded-IsSameClock (changes_of x t s) s in
      let (last', interval', table') =
        told_promotion-IsSameClock (tick x.env t.host t.now w.sync) w in
      (last' ∙ last, interval' ∙ interval, table' ∙ table)

  or_false : (b : Bool) → (b || false) ≡ b
  or_false true = refl
  or_false false = refl

  abbrev IsPolled : Round F → ℕ → ℕ → ℕ → Bool → Daemon K F → Type 0
  IsPolled t pid interval last listed d =
      let due = leb interval (t.now - last) in
      (d.last_poll ≡ (if due then t.now else last))
      × (contains_key pid d.loop.full_info
          ≡ (if due then any (λ (e : ProcEntry). eqb e.pid pid) t.entries else listed))

  poll-last_poll : (t : Round F) (d : Daemon K F) → (poll x t d).last_poll ≡ t.now
  unfolding poll polled_once drained
  poll-last_poll t d = refl

  serve-IsSameClock :
      (t : Round F) (d : Daemon K F)
      → ((serve x t d).last_poll ≡ d.last_poll)
        × ((serve x t d).poll_interval ≡ effective_poll_interval x.poll_ms d.sync.active)
        × ((serve x t d).loop.full_info ≡ d.loop.full_info)
  unfolding serve
  serve-IsSameClock t d = (refl, refl, refl)

  moved_clock :
      (t : Round F) (pid : ℕ) (last interval : ℕ) (listed : Bool) (b e : Daemon K F)
      → b.last_poll ≡ last
      → b.poll_interval ≡ interval
      → contains_key pid b.loop.full_info ≡ listed
      → IsPolled t pid b.poll_interval b.last_poll (contains_key pid b.loop.full_info) e
      → IsPolled t pid interval last listed e
  moved_clock t pid last interval listed b e l i f p = rw (← l, ← i, ← f) p

  poll_if_due-IsPolled :
      (t : Round F) (h : Host) (d : Daemon K F) (pid : ℕ)
      → IsPolled t pid d.poll_interval d.last_poll
          (contains_key pid d.loop.full_info)
          (poll_if_due x t (h, d)).1
  unfolding poll_if_due
  poll_if_due-IsPolled t h d pid = elim (Bool-cases (is_due x t d)) [
    | inl due ↦ rw due (
      poll-last_poll t d,
      ap (contains_key pid) (poll-full_info x t d) ∙ ((polled-IsTable x t d pid).1 ∙ or_false _),
    )
    | inr early ↦ rw early (refl, refl)
  ]

  -- A poll is due in a round exactly if the interval of the configuration at its start has passed
  -- since the last poll. Then the table has exactly the pids of the scan and the clock starts again;
  -- otherwise neither changes, whatever the requests and the files.
  pub turn-polls :
      (t : Round F) (d : Daemon K F) (pid : ℕ)
      → let due = leb (effective_poll_interval x.poll_ms d.sync.active) (t.now - d.last_poll) in
        ((turn x t d).1.last_poll ≡ (if due then t.now else d.last_poll))
        × (contains_key pid (turn x t d).1.loop.full_info ≡ (
            if due
            then any (λ (e : ProcEntry). eqb e.pid pid) t.entries
            else contains_key pid d.loop.full_info))
  unfolding turn
  turn-polls t d pid =
      let b = before_poll x t d in
      let (last, interval, table) = before_poll-IsSameClock t d in
      let (last', interval', table') = serve-IsSameClock t d in
      moved_clock t pid _ _ _ b.1 (turn x t d).1 (last ∙ last') (interval ∙ interval')
        (ap (contains_key pid) (table ∙ table')) (poll_if_due-IsPolled t b.0 b.1 pid)
