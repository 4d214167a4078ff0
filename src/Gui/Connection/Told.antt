-- ===== src/Gui/Connection/Told.antt =====
-- What each step of the connection tells the webview (`connect_loop`, gui/src-tauri/src/lib.rs), and
-- what a page hears that listens only since some step.
use nicewatch.Prelude.{
  ◌≡◌, refl, sym, ap, ◌∙◌, true, false, List, [], ◌∷◌, ◌++◌, Option, none, some, if◌then◌else◌,
  arith,
}
use mathlib.Core.List.{append_assoc, append_cancel_right}
use nicewatch.Prelude.Text.{Text, is_empty}
use nicewatch.Prelude.Scan.{trim}
use nicewatch.Wire.{ServerMsg}
use nicewatch.Ipc.Framing.{Json}
use nicewatch.Gui.Connection.{
  Event, evt_hello, evt_snapshot, evt_diff, evt_prompt, evt_warn, UiState, Step, connected,
  read_frame, disconnected, writer_ended, command, connect, disconnect, on_message, on_line,
  send_command, step, state_after,
}

module _ {F : Type 0} where
  -- The events of a frame, the newest first.
  unfoldable pub events_of : Option (ServerMsg F) → List (Event F)
  events_of none = []
  events_of (some (ServerMsg.snapshot s)) = evt_hello true none ∷ evt_snapshot s ∷ []
  events_of (some (ServerMsg.diff d)) = evt_hello true none ∷ evt_diff d ∷ []
  events_of (some (ServerMsg.prompt_game p)) = evt_prompt p ∷ []
  events_of (some (ServerMsg.warning msg)) = evt_warn msg ∷ []
  events_of (some (ServerMsg.hello app version interval)) = evt_hello true (some interval) ∷ []

  on_message-emitted :
      (o : Option (ServerMsg F)) (u : UiState F)
      → (on_message o u).emitted ≡ events_of o ++ u.emitted
  unfolding on_message events_of
  on_message-emitted none u = refl
  on_message-emitted (some (ServerMsg.snapshot s)) u = refl
  on_message-emitted (some (ServerMsg.diff d)) u = refl
  on_message-emitted (some (ServerMsg.prompt_game p)) u = refl
  on_message-emitted (some (ServerMsg.warning msg)) u = refl
  on_message-emitted (some (ServerMsg.hello app version interval)) u = refl

module _ {F : Type 0} (j : Json (ServerMsg F)) where
  abbrev pub decoded : Text → Option (ServerMsg F)
  decoded line = if is_empty (trim line) then none else j.from_json (trim line)

  pub on_line-decoded :
      (line : Text) (u : UiState F) → on_line j line u ≡ on_message (decoded line) u
  unfolding on_line on_message
  on_line-decoded line u = ground arith

  -- The events of a step.
  unfoldable pub step_events : Step → List (Event F)
  step_events connected = evt_hello true none ∷ []
  step_events (read_frame line) = events_of (decoded line)
  step_events disconnected = evt_hello false none ∷ []
  step_events writer_ended = []
  step_events (command msg) = []

  step-emitted : (s : Step) (u : UiState F) → (step j s u).emitted ≡ step_events s ++ u.emitted
  unfolding step step_events connect disconnect send_command
  step-emitted connected u = refl
  step-emitted (read_frame line) u =
      ap (λ (v : UiState F). v.emitted) (on_line-decoded line u)
      ∙ on_message-emitted (decoded line) u
  step-emitted disconnected u = refl
  step-emitted writer_ended u = refl
  step-emitted (command msg) u = refl

  -- The events of some steps, the newest first.
  unfoldable pub told : List Step → List (Event F)
  told [] = []
  told (s ∷ earlier) = step_events s ++ told earlier

  pub state_after-emitted :
      (newer older : List Step)
      → (state_after j (newer ++ older)).emitted ≡ told newer ++ (state_after j older).emitted
  unfolding state_after told
  state_after-emitted [] older = refl
  state_after-emitted (s ∷ newer) older =
      step-emitted s (state_after j (newer ++ older))
      ∙ (ap (◌++◌ (step_events s)) (state_after-emitted newer older)
          ∙ sym (append_assoc (step_events s) (told newer) (state_after j older).emitted))

  -- What a page hears that listens since the older steps.
  pub heard-told :
      (newer older : List Step) (heard : List (Event F))
      → (state_after j (newer ++ older)).emitted ≡ heard ++ (state_after j older).emitted
      → heard ≡ told newer
  heard-told newer older heard e =
      append_cancel_right heard (told newer) (state_after j older).emitted
        (sym e ∙ state_after-emitted newer older)
