-- ===== src/Gui/Connection/Shown.antt =====
-- What the webview shows of the connection (`connect_loop` and `get_state`,
-- gui/src-tauri/src/lib.rs).
use nicewatch.Prelude.{
  ◌≡◌, refl, ◌∙◌, Bool, true, false, List, [], ◌∷◌, Option, none, some, arith, any, any-append,
  ◌++◌, sym, ap, inl, inr, Bool-cases,
}
use nicewatch.Prelude.Maps.{is_some}
use nicewatch.Wire.{Snapshot, ServerMsg, ClientMsg}
use nicewatch.Ipc.Framing.{Json}
use nicewatch.Gui.Connection.{
  Event, evt_hello, evt_snapshot, evt_diff, evt_prompt, evt_warn, writer_ended, command, UiState,
  Sender, Step, connected, read_frame, disconnected, connect, disconnect, on_message, get_state,
  send_on_open, send_command, closed, step, state_after, Trace, started, attach, hear, stall,
  detach, ask,
}
use nicewatch.Gui.Connection.Told.{
  events_of, decoded, on_line-decoded, step_events, told, heard-told,
}

module _ {F : Type 0} (j : Json (ServerMsg F)) where
  -- The connection that the newest hello tells of.
  unfoldable pub shows_connected : List (Event F) → Bool
  shows_connected [] = false
  shows_connected (evt_hello live interval ∷ earlier) = live
  shows_connected (_ ∷ earlier) = shows_connected earlier

  snapshot_or : Option (ServerMsg F) → Option (Snapshot F) → Option (Snapshot F)
  snapshot_or (some (ServerMsg.snapshot s)) before = some s
  snapshot_or _ before = before

  -- The last snapshot that was read since the last connection was made.
  unfoldable pub last_snapshot : List Step → Option (Snapshot F)
  unfolding snapshot_or
  last_snapshot [] = none
  last_snapshot (connected ∷ earlier) = none
  last_snapshot (disconnected ∷ earlier) = none
  last_snapshot (read_frame line ∷ earlier) = snapshot_or (decoded j line) (last_snapshot earlier)
  last_snapshot (_ ∷ earlier) = last_snapshot earlier

  -- All events tell of the connection, and the state is that of it.
  abbrev IsShown : Bool → List Step → UiState F → Type 0
  IsShown live ss u =
      (is_some u.send ≡ live)
      × (shows_connected u.emitted ≡ live)
      × (get_state u ≡ last_snapshot ss)
      × ((live ≡ false) → last_snapshot ss ≡ none)

  heard-IsShown :
      (o : Option (ServerMsg F)) (ss : List Step) (u : UiState F)
      → IsShown true ss u
      → (is_some (on_message o u).send ≡ true)
        × (shows_connected (on_message o u).emitted ≡ true)
        × (get_state (on_message o u) ≡ snapshot_or o (last_snapshot ss))
  unfolding on_message shows_connected get_state snapshot_or
  heard-IsShown none ss u (sent, shown, same, idle) = (sent, shown, same)
  heard-IsShown (some (ServerMsg.snapshot s)) ss u (sent, shown, same, idle) = (sent, refl, refl)
  heard-IsShown (some (ServerMsg.diff d)) ss u (sent, shown, same, idle) = (sent, refl, same)
  heard-IsShown (some (ServerMsg.prompt_game p)) ss u (sent, shown, same, idle) =
      (sent, shown, same)
  heard-IsShown (some (ServerMsg.warning msg)) ss u (sent, shown, same, idle) = (sent, shown, same)
  heard-IsShown (some (ServerMsg.hello app version interval)) ss u (sent, shown, same, idle) =
      (sent, refl, same)

  closed-some : (o : Option Sender) → is_some (closed o) ≡ is_some o
  unfolding closed
  closed-some none = refl
  closed-some (some tx) = refl

  send_on_open-some :
      (msg : ClientMsg) (o : Option Sender) → is_some (send_on_open msg o).1 ≡ is_some o
  unfolding send_on_open
  send_on_open-some msg none = refl
  send_on_open-some msg (some tx) = ground arith

  Trace-emitted :
      {live : Bool} {ss : List Step} → Trace live ss → IsShown live ss (state_after j ss)
  unfolding state_after step connect disconnect get_state shows_connected last_snapshot send_command
  Trace-emitted started = (refl, refl, refl, λ _. refl)
  Trace-emitted (attach {ss} t) =
      let (sent, shown, same, idle) = Trace-emitted t in (refl, refl, same ∙ idle refl, λ h. cc)
  Trace-emitted (hear {ss} t line) =
      let (sent, shown, same) =
        heard-IsShown (decoded j line) ss (state_after j ss) (Trace-emitted t) in
      rw (on_line-decoded j line (state_after j ss)) (sent, shown, same, λ h. cc)
  Trace-emitted (stall {ss} t) =
      let (sent, shown, same, idle) = Trace-emitted t in
      (closed-some (state_after j ss).send ∙ sent, shown, same, idle)
  Trace-emitted (detach t) = (refl, refl, refl, λ _. refl)
  Trace-emitted (ask {ss = ss} t msg) =
      let (sent, shown, same, idle) = Trace-emitted t in
      (send_on_open-some msg (state_after j ss).send ∙ sent, shown, same, idle)

  -- The steps that tell the webview whether there is a connection: it is made or lost, or the frame
  -- of a snapshot, a difference or a hello is read.
  abbrev is_beat_message : Option (ServerMsg F) → Bool
  is_beat_message (some (ServerMsg.snapshot s)) = true
  is_beat_message (some (ServerMsg.diff d)) = true
  is_beat_message (some (ServerMsg.hello app version interval)) = true
  is_beat_message _ = false

  abbrev pub is_beat : Step → Bool
  is_beat connected = true
  is_beat disconnected = true
  is_beat (read_frame line) = is_beat_message (decoded j line)
  is_beat _ = false

  abbrev is_hello : Event F → Bool
  is_hello (evt_hello live interval) = true
  is_hello _ = false

  events_of-hello :
      (o : Option (ServerMsg F)) → is_beat_message o ≡ true → any is_hello (events_of o) ≡ true
  unfolding events_of any
  events_of-hello none h = cc
  events_of-hello (some (ServerMsg.snapshot s)) h = refl
  events_of-hello (some (ServerMsg.diff d)) h = refl
  events_of-hello (some (ServerMsg.prompt_game p)) h = cc
  events_of-hello (some (ServerMsg.warning msg)) h = cc
  events_of-hello (some (ServerMsg.hello app version interval)) h = refl

  step_events-hello : (s : Step) → is_beat s ≡ true → any is_hello (step_events j s) ≡ true
  unfolding step_events any
  step_events-hello connected h = refl
  step_events-hello (read_frame line) h = events_of-hello (decoded j line) h
  step_events-hello disconnected h = refl
  step_events-hello writer_ended h = cc
  step_events-hello (command msg) h = cc

  told-hello : (ss : List Step) → any is_beat ss ≡ true → any is_hello (told j ss) ≡ true
  unfolding told any
  told-hello [] h = cc
  told-hello (s ∷ ss) h = elim (Bool-cases (is_beat s)) [
    | inl beat ↦
        any-append is_hello (step_events j s) (told j ss) ∙ rw (step_events-hello s beat) refl
    | inr quiet ↦
        any-append is_hello (step_events j s) (told j ss)
        ∙ ground (arith, told-hello ss (ground (arith, h, quiet)))
  ]

  -- The newest hello is among the events that are heard.
  shows_connected-late :
      (heard missed : List (Event F))
      → any is_hello heard ≡ true
      → shows_connected (heard ++ missed) ≡ shows_connected heard
  unfolding shows_connected any
  shows_connected-late [] missed h = cc
  shows_connected-late (evt_hello live interval ∷ heard) missed h = refl
  shows_connected-late (evt_snapshot s ∷ heard) missed h = shows_connected-late heard missed h
  shows_connected-late (evt_diff d ∷ heard) missed h = shows_connected-late heard missed h
  shows_connected-late (evt_prompt p ∷ heard) missed h = shows_connected-late heard missed h
  shows_connected-late (evt_warn msg ∷ heard) missed h = shows_connected-late heard missed h

  -- A page that listens only since some step, and so may have missed that the connection was made,
  -- shows a connection exactly while there is one, once the connection has been made or lost or a
  -- snapshot, a difference or a hello has been read since; the last snapshot that was read since the
  -- connection was made is what `get_state` serves, and none where there is no connection.
  pub Trace-IsShown :
      {live : Bool} (newer older : List Step) (heard : List (Event F))
      → Trace live (newer ++ older)
      → any is_beat newer ≡ true
      → (state_after j (newer ++ older)).emitted ≡ heard ++ (state_after j older).emitted
      → (shows_connected heard ≡ live)
        × (get_state (state_after j (newer ++ older)) ≡ last_snapshot (newer ++ older))
        × (is_some (state_after j (newer ++ older)).send ≡ live)
  Trace-IsShown newer older heard t beat e =
      let (sent, shown, same, idle) = Trace-emitted t in
      let fresh : any is_hello heard ≡ true =
        ap (any is_hello) (heard-told j newer older heard e) ∙ told-hello newer beat in
      (
        sym (shows_connected-late heard (state_after j older).emitted fresh)
            ∙ (ap shows_connected (sym e) ∙ shown),
        same,
        sent,
      )
