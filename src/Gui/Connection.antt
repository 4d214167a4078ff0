-- ===== src/Gui/Connection.antt =====
-- The desktop client's connection to the daemon, and its commands (`connect_loop`, `UiState` and the
-- commands of gui/src-tauri/src/lib.rs).
pub mod Told
pub mod Shown
pub mod Asked
use nicewatch.Prelude.{ℕ, Bool, true, false, List, [], ◌∷◌, ◌++◌, Option, none, some, if◌then◌else◌}
use nicewatch.Prelude.Text.{Text, is_empty}
use nicewatch.Prelude.Scan.{trim}
use nicewatch.Wire.{Snapshot, Diff, GamePrompt, ServerMsg, ClientMsg}
use nicewatch.Ipc.Framing.{Json}

-- The channel to the writer thread: what was sent on it, and whether the thread still reads.
pub record Sender : Type 0 where
  pub sent : List ClientMsg
  pub is_open : Bool

-- What the webview is told; a hello says whether there is a connection, and may bring the interval.
pub data Event (F : Type 0) : Type 0 where
  evt_hello : Bool → Option ℕ → Event F
  evt_snapshot : Snapshot F → Event F
  evt_diff : Diff F → Event F
  evt_prompt : GamePrompt → Event F
  evt_warn : Text → Event F

-- With the events, the newest first.
pub record UiState (F : Type 0) : Type 0 where
  pub latest : Option (Snapshot F)
  pub send : Option Sender
  pub emitted : List (Event F)

pub data CommandError : Type 0 where
  not_connected cannot_reach : CommandError

-- What happens to the client: it is connected, reads a line, loses the connection, the writer thread
-- ends, or the webview calls a command that sends a message.
pub data Step : Type 0 where
  connected : Step
  read_frame : Text → Step
  disconnected : Step
  writer_ended : Step
  command : ClientMsg → Step

abbrev pub opened : Sender
opened = record { sent = []; is_open = true }

send_on_open : ClientMsg → Option Sender → Option CommandError × Option Sender
send_on_open msg none = (some not_connected, none)
send_on_open msg (some tx) =
    if tx.is_open
    then (none, some (record tx { sent = tx.sent ++ (msg ∷ []) }))
    else (some cannot_reach, some tx)

closed : Option Sender → Option Sender
closed none = none
closed (some tx) = some (record tx { is_open = false })

module _ {F : Type 0} where
  abbrev pub no_state : UiState F
  no_state = record { latest = none; send = none; emitted = [] }

  unfoldable pub connect : UiState F → UiState F
  connect u = record u { send = some opened; emitted = evt_hello true none ∷ u.emitted }

  unfoldable pub disconnect : UiState F → UiState F
  disconnect u = record u { latest = none; send = none; emitted = evt_hello false none ∷ u.emitted }

  -- A frame that does not decode is passed over.
  unfoldable pub on_message : Option (ServerMsg F) → UiState F → UiState F
  on_message none u = u
  on_message (some (ServerMsg.snapshot s)) u = record u {
    latest = some s;
    emitted = evt_hello true none ∷ evt_snapshot s ∷ u.emitted;
  }
  on_message (some (ServerMsg.diff d)) u = record u {
    emitted = evt_hello true none ∷ evt_diff d ∷ u.emitted;
  }
  on_message (some (ServerMsg.prompt_game p)) u = record u { emitted = evt_prompt p ∷ u.emitted }
  on_message (some (ServerMsg.warning msg)) u = record u { emitted = evt_warn msg ∷ u.emitted }
  on_message (some (ServerMsg.hello app version poll_interval_ms)) u = record u {
    emitted = evt_hello true (some poll_interval_ms) ∷ u.emitted;
  }

  unfoldable pub on_line : Json (ServerMsg F) → Text → UiState F → UiState F
  unfolding on_message
  on_line j line u =
      let trimmed = trim line in if is_empty trimmed then u else on_message (j.from_json trimmed) u

  unfoldable pub get_state : UiState F → Option (Snapshot F)
  get_state u = u.latest

  -- `set_tier`, `confirm_game`, `set_cap` and `set_poll_interval`, each with its message; the result
  -- is the error, if any.
  unfoldable pub send_command : ClientMsg → UiState F → Option CommandError × UiState F
  unfolding send_on_open
  send_command msg u = let (e, tx) = send_on_open msg u.send in (e, record u { send = tx })

  unfoldable pub step : Json (ServerMsg F) → Step → UiState F → UiState F
  unfolding connect disconnect on_line send_command closed
  step j connected u = connect u
  step j (read_frame line) u = on_line j line u
  step j disconnected u = disconnect u
  step j writer_ended u = record u { send = closed u.send }
  step j (command msg) u = (send_command msg u).1

  -- The state after a list of steps, the newest first.
  unfoldable pub state_after : Json (ServerMsg F) → List Step → UiState F
  unfolding step
  state_after j [] = no_state
  state_after j (s ∷ earlier) = step j s (state_after j earlier)

-- The steps that the loop makes, by whether it is connected: it connects, reads lines until the
-- connection is lost, and connects again; commands come at any time.
pub data Trace : Bool → List Step → Type 0 where
  started : Trace false []
  attach : {ss : List Step} → Trace false ss → Trace true (connected ∷ ss)
  hear : {ss : List Step} → Trace true ss → (line : Text) → Trace true (read_frame line ∷ ss)
  stall : {ss : List Step} → Trace true ss → Trace true (writer_ended ∷ ss)
  detach : {ss : List Step} → Trace true ss → Trace false (disconnected ∷ ss)
  ask :
      {live : Bool} {ss : List Step}
      → Trace live ss
      → (msg : ClientMsg) → Trace live (command msg ∷ ss)
