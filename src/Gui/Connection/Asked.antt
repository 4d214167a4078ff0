-- ===== src/Gui/Connection/Asked.antt =====
-- Which commands reach the daemon's connection (the commands of gui/src-tauri/src/lib.rs).
use nicewatch.Prelude.{
  ℕ, ◌≡◌, refl, ap, ◌∙◌, Bool, true, false, List, [], ◌∷◌, ◌++◌, Option, none, some, if◌then◌else◌,
  arith, Bool-cases, inl, inr,
}
use nicewatch.Prelude.Text.{Text}
use nicewatch.Wire.{ServerMsg, ClientMsg}
use nicewatch.Ipc.Framing.{Json}
use nicewatch.Gui.Connection.{
  UiState, Sender, CommandError, not_connected, cannot_reach, Step, connected, disconnected,
  writer_ended, command, connect, disconnect, on_message, on_line, send_on_open, send_command,
  closed, step, state_after, Trace, started, attach, hear, stall, detach, ask,
}

-- Whether the writer thread of the present connection still reads.
unfoldable pub is_read : List Step → Bool
is_read [] = false
is_read (connected ∷ earlier) = true
is_read (disconnected ∷ earlier) = false
is_read (writer_ended ∷ earlier) = false
is_read (_ ∷ earlier) = is_read earlier

-- The messages of the commands since the last connection was made, while its writer thread read.
unfoldable pub requested : List Step → List ClientMsg
requested [] = []
requested (connected ∷ earlier) = []
requested (command msg ∷ earlier) =
    let before = requested earlier in if is_read earlier then before ++ (msg ∷ []) else before
requested (_ ∷ earlier) = requested earlier

abbrev pub channel_of : Bool → List Step → Option Sender
channel_of false ss = none
channel_of true ss = some (record { sent = requested ss; is_open = is_read ss })

abbrev pub error_of : Bool → Bool → Option CommandError
error_of false reading = some not_connected
error_of true false = some cannot_reach
error_of true true = none

module _ {F : Type 0} (j : Json (ServerMsg F)) where
  on_message-send : (o : Option (ServerMsg F)) (u : UiState F) → (on_message o u).send ≡ u.send
  unfolding on_message
  on_message-send none u = refl
  on_message-send (some (ServerMsg.snapshot s)) u = refl
  on_message-send (some (ServerMsg.diff d)) u = refl
  on_message-send (some (ServerMsg.prompt_game p)) u = refl
  on_message-send (some (ServerMsg.warning msg)) u = refl
  on_message-send (some (ServerMsg.hello app version interval)) u = refl

  on_line-send : (line : Text) (u : UiState F) → (on_line j line u).send ≡ u.send
  unfolding on_line
  on_line-send line u =
      ground (arith, on_message-send (j.from_json (nicewatch.Prelude.Scan.trim line)) u)

  asked-channel :
      (live : Bool) (ss : List Step) (msg : ClientMsg)
      → ((send_on_open msg (channel_of live ss)).1 ≡ channel_of live (command msg ∷ ss))
        × ((send_on_open msg (channel_of live ss)).0 ≡ error_of live (is_read ss))
  unfolding send_on_open requested is_read
  asked-channel false ss msg = (refl, refl)
  asked-channel true ss msg = elim (Bool-cases (is_read ss)) [
    | inl reads ↦ rw reads (refl, refl)
    | inr ended ↦ rw ended (refl, refl)
  ]

  Trace-channel :
      {live : Bool} {ss : List Step} → Trace live ss → (state_after j ss).send ≡ channel_of live ss
  unfolding state_after step connect disconnect requested is_read send_command closed
  Trace-channel started = refl
  Trace-channel (attach t) = refl
  Trace-channel (hear {ss} t line) = on_line-send line (state_after j ss) ∙ Trace-channel t
  Trace-channel (stall t) = ap closed (Trace-channel t)
  Trace-channel (detach t) = refl
  Trace-channel (ask {live} {ss} t msg) =
      ap (λ o. (send_on_open msg o).1) (Trace-channel t) ∙ (asked-channel live ss msg).0

  -- A command fails exactly where there is no connection or its writer thread has ended, and the
  -- channel of the connection has got the messages of the commands since it was made that did not
  -- fail, in order.
  pub Trace-commands :
      {live : Bool} {ss : List Step} (msg : ClientMsg)
      → Trace live ss
      → ((send_command msg (state_after j ss)).0 ≡ error_of live (is_read ss))
        × ((state_after j (command msg ∷ ss)).send ≡ channel_of live (command msg ∷ ss))
  unfolding send_command
  Trace-commands {live} {ss} msg t = (
    ap (λ o. (send_on_open msg o).0) (Trace-channel t) ∙ (asked-channel live ss msg).1,
    Trace-channel (ask t msg),
  )
