-- ===== src/Tests/IpcRuns.antt =====
-- Runs of the daemon's server and of the frames on its socket.
use nicewatch.Prelude.{
  ℕ, nat_eq, ◌≡◌, refl, Bool, true, false, ◌&&◌, List, [], ◌∷◌, ◌++◌, none, some, arith,
  if◌then◌else◌, ◌==◌, contains,
}
use nicewatch.Prelude.Text.{Text, codes, text_eq}
use nicewatch.Prelude.Maps.{get}
use nicewatch.Wire.{ServerMsg, ClientMsg, Snapshot}
use nicewatch.Ipc.{
  Ipc, new_channel, fresh_ipc, broadcast, hello_frame, Action, accept, greet_client, cast, write,
  hang_up, leave, run,
}
use nicewatch.Ipc.Table.{is_open_at, stream_at, sent_on, broadcast-exact}
use nicewatch.Ipc.Steps.{heard}
use nicewatch.Ipc.Delivery.{joined, delivered}
use nicewatch.Ipc.Framing.{
  Json, IsJson, encode_msg, encode_all, read_lines, forward, read_snapshot, got, Frame, message,
  noise, broken, wire, messages, requests_received, first_snapshot_read,
}

abbrev note : ServerMsg ℕ
note = ServerMsg.warning (codes "t")

-- Client 1 is there, and client 2 has hung up.
abbrev two_clients : Ipc ℕ
two_clients = record {
  clients = 1 ∷ 2 ∷ [];
  next_id = 3;
  channels = (1, new_channel ℕ) ∷ (2, record (new_channel ℕ) { is_open = false }) ∷ [];
}

broadcast-exact_example :
    (contains (broadcast note two_clients).clients 2
      ≡ (contains two_clients.clients 2 && is_open_at (get 2 two_clients.channels)))
    × (get 2 (broadcast note two_clients).channels ≡ (
        if contains two_clients.clients 2
        then sent_on note (get 2 two_clients.channels)
        else get 2 two_clients.channels))
unfolding contains
broadcast-exact_example = broadcast-exact note two_clients 2 (refl, (refl, tt))

-- A client that came before and has left.
abbrev earlier : List (Action ℕ)
earlier = accept ∷ greet_client 1 ∷ hang_up 1 ∷ leave 1 ∷ []

abbrev served : Ipc ℕ
served = run (codes "1") earlier fresh_ipc

served-next_id : served.next_id ≡ 2
unfolding run nicewatch.Ipc.act nicewatch.Ipc.register nicewatch.Ipc.unregister
served-next_id = refl

abbrev later : List (Action ℕ)
later = greet_client 2 ∷ accept ∷ cast note ∷ write 2 ∷ leave 3 ∷ []

later-stays : nicewatch.Ipc.Steps.stays served.next_id later ≡ true
later-stays = rw served-next_id refl

delivered_example :
    (stream_at (get served.next_id (run (codes "1") later (joined (codes "1") served)).channels)
      ≡ heard (codes "1") served.next_id later)
    × (contains (run (codes "1") later (joined (codes "1") served)).clients served.next_id ≡ true)
delivered_example = delivered (codes "1") earlier later served refl later-stays (omega arith)

-- A codec that knows a request.
abbrev request_json : Json ClientMsg
request_json = record {
  to_json = λ m. codes "r";
  from_json = λ t. if t == codes "r" then some ClientMsg.request_snapshot else none;
}

abbrev frames : List (Frame ClientMsg)
frames =
    noise []
    ∷ message ClientMsg.request_snapshot
    ∷ noise (codes "x")
    ∷ broken (0x110000 ∷ [])
    ∷ message ClientMsg.request_snapshot
    ∷ []

request_IsJson : IsJson request_json ClientMsg.request_snapshot
unfolding nicewatch.Prelude.all nicewatch.Prelude.Scan.trim nicewatch.Prelude.Scan.trim_end
    nicewatch.Prelude.Scan.trim_start nicewatch.Prelude.Text.is_space
    nicewatch.Prelude.Text.is_empty nicewatch.Prelude.Text.text_beq
request_IsJson = record {
  decodes = refl;
  one_line = refl;
  trimmed = refl;
  some_text = refl;
  utf8 = refl;
}

frames-IsFair : nicewatch.Ipc.Framing.IsFair request_json frames
unfolding nicewatch.Prelude.all nicewatch.Prelude.Scan.trim nicewatch.Prelude.Scan.trim_end
    nicewatch.Prelude.Scan.trim_start nicewatch.Prelude.Text.is_space
    nicewatch.Prelude.Text.is_empty nicewatch.Prelude.Text.text_beq
frames-IsFair = (refl, refl, refl, (request_IsJson, (refl, refl, refl, (refl, refl))))

requests_received_example :
    forward request_json (read_lines (wire request_json frames)) ≡ messages request_json frames
requests_received_example = requests_received request_json frames frames-IsFair

abbrev a_snapshot : Snapshot ℕ
a_snapshot = record {
  processes = [];
  rules = [];
  prompts = [];
  poll_interval_ms = 1000;
  system_cpu = 7;
  system_mem_total_kb = 8;
  system_mem_used_kb = 4;
}

abbrev code_of : ServerMsg ℕ → Text
code_of (ServerMsg.snapshot s) = codes "s"
code_of _ = codes "n"

-- A codec that knows one note and one snapshot.
abbrev pub server_json : Json (ServerMsg ℕ)
server_json = record {
  to_json = code_of;
  from_json = λ t.
      if t == codes "s"
      then some (ServerMsg.snapshot a_snapshot)
      else if t == codes "n"
      then some note
      else none;
}
