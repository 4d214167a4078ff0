-- ===== src/Gui/View/Reached.antt =====
-- What a client that gets every broadcast shows (gui/src/lib/store.svelte.ts,
-- daemon/src/main.rs).
use nicewatch.Prelude.{
  ℕ, nat_eq, ◌≡◌, refl, sym, ap, ◌∙◌, Bool, true, false, List, ◌∷◌, ◌≢◌, length, arith, not, find,
  ◌&&◌, inl, inr, Bool-cases,
}
use nicewatch.Prelude.Maps.{Map, get}
use nicewatch.Cgroup.Manager.State.{Manager}
use nicewatch.Sync.{Sync}
use nicewatch.Sync.Disk.{Host}
use nicewatch.Sync.Writing.{tick}
use nicewatch.Wire.{ProcessInfo, ServerMsg}
use nicewatch.Daemon.Client.{snapshot_of}
use nicewatch.Daemon.Tables.{IsTable, IsSame}
use nicewatch.Daemon.Cycle.{Loop, finish_poll, IsTold, finish_poll-IsTold, asked_first}
use nicewatch.Daemon.Turn.{
  serve, changes_of, reloaded, watch, told_promotion, write_back, before_poll, poll_if_due, turn,
  booted, Reach, begun, turned, context_of, server_of,
}
use nicewatch.Daemon.Turn.Polling.{
  is_due, poll, polled_of, setting_of, readings_of, gpu_told, refusals_told, drained, polled_once,
}
use nicewatch.Daemon.Turn.State.{Daemon, Round, Fixed}
use nicewatch.Daemon.Turn.Sound.{
  IsSound, polled-IsTable, serve-IsSound, watch-IsSound, write_back-IsSound, Reach-IsSound,
}
use nicewatch.Gui.View.{view_of}
use nicewatch.Gui.View.Follows.{
  IsFollowed, apply_diff-IsFollowed, snapshot-IsFollowed, unsent-IsFollowed,
}
use nicewatch.Gui.View.Served.{view_of-prompts, view_of-warnings, serve_all-IsServed}

longer : {A : Type 0} (a : A) (xs : List A) → a ∷ xs ≢ xs
longer a xs e = absurd (omega (arith, ap length e))

-- The invariant of the rounds: what a client sees is the table.
module _ {K F : Type 0} (x : Fixed K F) where
  abbrev pub IsWatched : Daemon K F → Type 0
  IsWatched d = IsFollowed x.moved (view_of d.loop.outbox) d.loop.full_info

  module _ (t : Round F) (d : Daemon K F) (s s' : Loop K F) where
    abbrev asked : List (ServerMsg F)
    asked = asked_first x.moved x.fs (setting_of x t d) (readings_of x t d) (polled_of x t d) s

    abbrev Told : ℕ → Type 0
    Told pid = IsTold x.moved x.fs (setting_of x t d) (readings_of x t d) pid (polled_of x t d) s s'

    sent_nothing :
        (pid : ℕ)
        → s.sent_initial_snapshot ≡ true
        → s'.outbox ≡ asked
        → Told pid
        → IsSame x.moved (get pid s.full_info) (get pid s'.full_info)
    sent_nothing pid sent o (inl (unsent, o')) = cc
    sent_nothing pid sent o (inr (inl (sent', o'))) = absurd (longer _ _ (sym o' ∙ o))
    sent_nothing pid sent o (inr (inr (sent', o', same))) = same

    view_of-asked : view_of asked ≡ view_of s.outbox
    view_of-asked = view_of-prompts x.moved _ s.outbox

    Told-IsWatched :
        s'.full_info ≡ (polled_of x t d).cur_info
        → IsTable x.moved s.full_info
        → IsTable x.moved (polled_of x t d).cur_info
        → ((pid : ℕ) → Told pid)
        → Told 0
        → IsFollowed x.moved (view_of s.outbox) s.full_info
        → IsFollowed x.moved (view_of s'.outbox) s'.full_info
    unfolding view_of snapshot_of
    Told-IsWatched kept ts tp told (inl (unsent, o)) v =
        rw o (snapshot-IsFollowed x.moved s'.full_info (rw kept tp))
    Told-IsWatched kept ts tp told (inr (inl (sent, o))) v =
        rw (o, kept)
          (apply_diff-IsFollowed x.moved s.full_info (polled_of x t d).cur_info _ _ (view_of asked)
            ts tp (rw view_of-asked v))
    Told-IsWatched kept ts tp told (inr (inr (sent, o, same))) v = rw o (
        rw view_of-asked (
          unsent-IsFollowed x.moved s.full_info s'.full_info (view_of s.outbox) ts (rw kept tp)
            (λ pid. sent_nothing pid sent o (told pid)) v))

  same_table :
      (view : List (ProcessInfo F)) (a b : Map ℕ (ProcessInfo F))
      → a ≡ b
      → IsFollowed x.moved view a
      → IsFollowed x.moved view b
  same_table view a b e v = rw (← e) v

  serve-IsWatched :
      (t : Round F) (d : Daemon K F) → IsSound x d → IsWatched d → IsWatched (serve x t d)
  unfolding serve
  serve-IsWatched t d v w =
      let (kept, seen) =
        serve_all-IsServed x.moved x (context_of x t d) t.requests (server_of x d) v.table w in
      same_table _ _ d.loop.full_info kept seen

  reloaded-IsWatched :
      (r : Bool × Sync) (d : Daemon K F) → IsSound x d → IsWatched d → IsWatched (reloaded x r d)
  unfolding reloaded view_of snapshot_of
  reloaded-IsWatched (false, s) d v w = w
  reloaded-IsWatched (true, s) d v w = snapshot-IsFollowed x.moved d.loop.full_info v.table

  told_promotion-IsWatched :
      (r : Bool × Host × Sync) (d : Daemon K F)
      → IsSound x d
      → IsWatched d
      → IsWatched (told_promotion x r d).1
  unfolding told_promotion view_of snapshot_of
  told_promotion-IsWatched (false, h, s) d v w = w
  told_promotion-IsWatched (true, h, s) d v w = snapshot-IsFollowed x.moved d.loop.full_info v.table

  gpu_told-view :
      (t : Round F) (d : Daemon K F)
      → (view_of (gpu_told x t d).outbox ≡ view_of d.loop.outbox)
        × ((gpu_told x t d).full_info ≡ d.loop.full_info)
  unfolding gpu_told view_of
  gpu_told-view t d = elim (Bool-cases (t.gpu_low && not d.gpu_low_prev)) [
    | inl low ↦ rw low (refl, refl)
    | inr quiet ↦ rw quiet (refl, refl)
  ]

  refusals_told-view :
      (t : Round F) (d : Daemon K F)
      → (view_of (refusals_told x t d).outbox ≡ view_of d.loop.outbox)
        × ((refusals_told x t d).full_info ≡ d.loop.full_info)
  unfolding refusals_told
  refusals_told-view t d =
      let (view, table) = gpu_told-view t d in
      (
        view_of-warnings x.moved t.setting.refusal (polled_of x t d).effects.reports
              (gpu_told x t d).outbox
            ∙ view,
        table,
      )

  drained-IsWatched : (d : Daemon K F) → IsWatched d → IsWatched (drained x d)
  unfolding drained
  drained-IsWatched d w =
      rw (view_of-warnings x.moved x.notice_text d.sync.warnings d.loop.outbox) w

  polled_once-IsWatched :
      (t : Round F) (d : Daemon K F) → IsSound x d → IsWatched d → IsWatched (polled_once x t d)
  unfolding polled_once
  polled_once-IsWatched t d v w =
      let (view, table) = refusals_told-view t d in
      let told = λ (pid : ℕ).
        finish_poll-IsTold x.moved x.fs (setting_of x t d) (readings_of x t d) pid (polled_of x t d)
          (refusals_told x t d) (polled-IsTable x t d pid).0 in
      Told-IsWatched t d (refusals_told x t d)
        (finish_poll x.moved x.fs (setting_of x t d) (readings_of x t d) (polled_of x t d)
          (refusals_told x t d))
        (told 0).0 (rw table v.table) (polled-IsTable x t d 0).0 (λ pid. (told pid).1) (told 0).1
        (rw (view, table) w)

  poll-IsWatched :
      (t : Round F) (d : Daemon K F) → IsSound x d → IsWatched d → IsWatched (poll x t d)
  unfolding poll
  poll-IsWatched t d v w = drained-IsWatched (polled_once x t d) (polled_once-IsWatched t d v w)

  poll_if_due-IsWatched :
      (t : Round F) (r : Host × Daemon K F)
      → IsSound x r.1
      → IsWatched r.1
      → IsWatched (poll_if_due x t r).1
  unfolding poll_if_due
  poll_if_due-IsWatched t (h, d) v w = elim (Bool-cases (is_due x t d)) [
    | inl due ↦ rw due (poll-IsWatched t d v w)
    | inr early ↦ rw early w
  ]

  turn-IsWatched :
      (t : Round F) (d : Daemon K F) → IsSound x d → IsWatched d → IsWatched (turn x t d).1
  unfolding turn before_poll watch write_back
  turn-IsWatched t d v w =
      let served = serve x t d in
      let sound = serve-IsSound x t d v in
      let seen =
        reloaded-IsWatched (changes_of x t served) served sound (serve-IsWatched t d v w) in
      let watched = watch x t served in
      let sound' = watch-IsSound x t served sound in
      poll_if_due-IsWatched t (before_poll x t d) (write_back-IsSound x t watched sound')
        (told_promotion-IsWatched (tick x.env t.host t.now watched.sync) watched sound' seen)

  booted-IsWatched :
      (manager : Manager K) (sync : Sync) (h : Host) (now : ℕ)
      → IsWatched (booted x manager sync h now)
  unfolding booted view_of get find
  booted-IsWatched manager sync h now = record { distinct = tt; shown = λ pid. refl }

  -- A client that has got every broadcast since the start shows what the daemon has: in every state
  -- that the loop reaches, each pid once, exactly the pids of the daemon's table, and of each entry
  -- all but the percentage, the executable and the start time.
  pub Reach-IsWatched :
      (manager : Manager K) (sync : Sync) (h : Host) (now : ℕ) {d : Daemon K F}
      → Reach x (booted x manager sync h now) d
      → IsWatched d
  Reach-IsWatched manager sync h now begun = booted-IsWatched manager sync h now
  Reach-IsWatched manager sync h now (turned {d} r t) =
      turn-IsWatched t d (Reach-IsSound x manager sync h now r)
        (Reach-IsWatched manager sync h now r)
