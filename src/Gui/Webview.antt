-- ===== src/Gui/Webview.antt =====
-- What the webview shows of the daemon's processes (gui/src/lib/store.svelte.ts, behind connect_loop
-- of gui/src-tauri/src/lib.rs).
use nicewatch.Prelude.{
  ℕ, ◌≡◌, refl, sym, ap, ◌∙◌, Bool, true, false, List, [], ◌∷◌, ◌++◌, some, any, retain, map,
}
use nicewatch.Wire.{ProcessInfo, ServerMsg, Snapshot}
use nicewatch.Cgroup.Manager.State.{Manager}
use nicewatch.Sync.{Sync}
use nicewatch.Sync.Disk.{Host}
use nicewatch.Daemon.Turn.{Reach, booted}
use nicewatch.Daemon.Turn.State.{Daemon, Fixed}
use nicewatch.Ipc.Framing.{Json, IsJson, AllJson, is_snapshot}
use nicewatch.Gui.Connection.{Event, evt_snapshot, evt_diff, Step, read_frame, state_after}
use nicewatch.Gui.Connection.{evt_hello, evt_prompt, evt_warn}
use nicewatch.Gui.Connection.Told.{events_of, decoded, step_events, told, heard-told}
use mathlib.Core.List.{append_assoc, map-append}
use nicewatch.Gui.View.{apply_diff, view_of}
use nicewatch.Gui.View.Follows.{IsFollowed}
use nicewatch.Gui.View.Reached.{Reach-IsWatched}

-- What the page that shows the processes gets: an event, once it listens, or the answer to the
-- `get_state` that it has asked for when it started.
pub data PageStep (F : Type 0) : Type 0 where
  heard : Event F → PageStep F
  answered : Snapshot F → PageStep F

module _ {F : Type 0} where
  -- The answer is used only where nothing is shown yet.
  abbrev pub or_answer : Snapshot F → List (ProcessInfo F) → List (ProcessInfo F)
  or_answer s [] = s.processes
  or_answer s (p ∷ ps) = p ∷ ps

  -- The processes of the store after the page's steps, the newest first.
  unfoldable pub processes_of : List (PageStep F) → List (ProcessInfo F)
  processes_of [] = []
  processes_of (heard (evt_snapshot s) ∷ earlier) = s.processes
  processes_of (heard (evt_diff d) ∷ earlier) = apply_diff d (processes_of earlier)
  processes_of (heard (evt_hello live interval) ∷ earlier) = processes_of earlier
  processes_of (heard (evt_prompt p) ∷ earlier) = processes_of earlier
  processes_of (heard (evt_warn msg) ∷ earlier) = processes_of earlier
  processes_of (answered s ∷ earlier) = or_answer s (processes_of earlier)

  -- All messages but the greetings.
  abbrev pub is_told : ServerMsg F → Bool
  is_told (ServerMsg.hello app version poll_interval_ms) = false
  is_told _ = true

  view_of-told : (got : List (ServerMsg F)) → view_of (retain is_told got) ≡ view_of got
  unfolding view_of retain
  view_of-told [] = refl
  view_of-told (ServerMsg.hello app version interval ∷ got) = view_of-told got
  view_of-told (ServerMsg.snapshot s ∷ got) = refl
  view_of-told (ServerMsg.diff d ∷ got) = ap (apply_diff d) (view_of-told got)
  view_of-told (ServerMsg.prompt_game p ∷ got) = view_of-told got
  view_of-told (ServerMsg.warning msg ∷ got) = view_of-told got

module _ {F : Type 0} (j : Json (ServerMsg F)) where
  -- A snapshot hides what was told before it.
  view_of-late :
      (newer older : List (ServerMsg F))
      → any (is_snapshot j) newer ≡ true
      → view_of (newer ++ older) ≡ view_of newer
  unfolding view_of any
  view_of-late [] older h = cc
  view_of-late (ServerMsg.snapshot s ∷ newer) older h = refl
  view_of-late (ServerMsg.hello app version interval ∷ newer) older h = view_of-late newer older h
  view_of-late (ServerMsg.diff d ∷ newer) older h = ap (apply_diff d) (view_of-late newer older h)
  view_of-late (ServerMsg.prompt_game p ∷ newer) older h = view_of-late newer older h
  view_of-late (ServerMsg.warning msg ∷ newer) older h = view_of-late newer older h

  any-told :
      (got : List (ServerMsg F))
      → any (is_snapshot j) got ≡ true
      → any (is_snapshot j) (retain is_told got) ≡ true
  unfolding any retain
  any-told [] h = h
  any-told (ServerMsg.snapshot s ∷ got) h = refl
  any-told (ServerMsg.hello app version interval ∷ got) h = any-told got h
  any-told (ServerMsg.diff d ∷ got) h = any-told got h
  any-told (ServerMsg.prompt_game p ∷ got) h = any-told got h
  any-told (ServerMsg.warning msg ∷ got) h = any-told got h

  -- The steps that read the frames of messages, the newest first.
  unfoldable pub frames_read : List (ServerMsg F) → List Step
  frames_read [] = []
  frames_read (m ∷ got) = read_frame (j.to_json m) ∷ frames_read got

  message_heard :
      (m : ServerMsg F) (got : List (ServerMsg F)) (later before : List (PageStep F))
      → (any (is_snapshot j) got ≡ true → processes_of later ≡ view_of got)
      → any (is_snapshot j) (m ∷ got) ≡ true
      → processes_of (map heard (events_of (some m)) ++ later) ≡ view_of (m ∷ got)
  unfolding events_of processes_of view_of any
  message_heard (ServerMsg.snapshot s) got later before ih h = refl
  message_heard (ServerMsg.hello app version interval) got later before ih h = ih h
  message_heard (ServerMsg.diff d) got later before ih h = ap (apply_diff d) (ih h)
  message_heard (ServerMsg.prompt_game p) got later before ih h = ih h
  message_heard (ServerMsg.warning msg) got later before ih h = ih h

  decoded-message : (m : ServerMsg F) → IsJson j m → decoded j (j.to_json m) ≡ some m
  decoded-message m json = rw json.trimmed (rw json.some_text json.decodes)

  -- What the page shows once it has heard the frames, whatever it has shown before.
  frames_heard :
      (got : List (ServerMsg F)) (before : List (PageStep F))
      → AllJson j got
      → any (is_snapshot j) got ≡ true
      → processes_of (map heard (told j (frames_read got)) ++ before) ≡ view_of got
  unfolding frames_read any told step_events
  frames_heard [] before js h = cc
  frames_heard (m ∷ got) before (json, js) h =
      let later = told j (frames_read got) in
      ap (λ o. processes_of (map heard (events_of o ++ later) ++ before)) (decoded-message m json)
      ∙ (ap (λ xs. processes_of (xs ++ before)) (map-append heard (events_of (some m)) later)
          ∙ (ap processes_of
                (append_assoc (map heard (events_of (some m))) (map heard later) before)
              ∙ message_heard m got (map heard later ++ before) before (frames_heard got before js)
                  h))

  -- A page that has heard a snapshot shows the daemon's processes, whatever it has shown before: in
  -- every state that the daemon's loop reaches, a page that has listened while the client has read
  -- some frames, with a snapshot among them, and has got the answer to `get_state`, if at all, before
  -- them, shows each pid once, exactly the pids of the daemon's table, and of each entry all but the
  -- percentage, the executable and the start time, where the frames, but for greetings, are all that
  -- the daemon has broadcast since some time, its warnings included.
  pub client_shows_table :
      {K : Type 0} (x : Fixed K F) (manager : Manager K) (sync : Sync) (h : Host) (now : ℕ)
      {d : Daemon K F} (got older : List (ServerMsg F)) (earlier : List Step)
      (events : List (Event F)) (before : List (PageStep F))
      → Reach x (booted x manager sync h now) d
      → d.loop.outbox ≡ retain is_told got ++ older
      → any (is_snapshot j) got ≡ true
      → AllJson j got
      → (state_after j (frames_read got ++ earlier)).emitted
        ≡ events ++ (state_after j earlier).emitted
      → IsFollowed x.moved (processes_of (map heard events ++ before)) d.loop.full_info
  client_shows_table x manager sync h now {d} got older earlier events before reached sent has json
        emitted =
      let watched = Reach-IsWatched x manager sync h now reached in
      let shown =
        ap (λ es. processes_of (map heard es ++ before))
          (heard-told j (frames_read got) earlier events emitted)
        ∙ frames_heard got before json has in
      let daemon =
        ap view_of sent
        ∙ (view_of-late (retain is_told got) older (any-told got has) ∙ view_of-told got) in
      rw (shown ∙ sym daemon) watched
