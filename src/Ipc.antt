-- ===== src/Ipc.antt =====
-- The daemon's clients and what each is sent (`IpcHandle` and `spawn_client`, daemon/src/ipc.rs).
-- A client has a channel, which its writer thread empties; the threads' steps are actions, in any
-- order.
pub mod Table
pub mod Steps
pub mod Delivery
pub mod Framing
use nicewatch.Prelude.{
  ℕ, nat_eq, ◌+◌, ◌%◌, ◌^◌, Bool, true, false, List, [], ◌∷◌, ◌++◌, Option, none, some,
  if◌then◌else◌, ltb, eqb, length, contains, insert_new, discard,
}
use nicewatch.Prelude.Text.{Text, codes}
use nicewatch.Prelude.Maps.{Map, get, insert}
use nicewatch.Wire.{ServerMsg}

-- The channel of one client: all that was sent on it, how much of that the writer thread has written
-- to the socket, and whether the receiver is still there.
pub record Channel (F : Type 0) : Type 0 where
  pub stream : List (ServerMsg F)
  pub written : ℕ
  pub is_open : Bool

abbrev pub new_channel : (F : Type 0) → Channel F
new_channel F = record { stream = []; written = 0; is_open = true }

-- `clients` are the ids in the table of the handle. A channel lives on without its entry.
pub record Ipc (F : Type 0) : Type 0 where
  pub clients : List ℕ
  pub next_id : ℕ
  pub channels : Map ℕ (Channel F)

unfoldable pub forget_dead : List ℕ → List ℕ → List ℕ
forget_dead [] clients = clients
forget_dead (id ∷ dead) clients = forget_dead dead (discard id clients)

module _ {F : Type 0} where
  abbrev pub fresh_ipc : Ipc F
  fresh_ipc = record { clients = []; next_id = 1; channels = [] }

  unfoldable pub send_on :
      ServerMsg F → ℕ → Option (Channel F) → Map ℕ (Channel F) → Bool × Map ℕ (Channel F)
  send_on msg id none m = (false, m)
  send_on msg id (some c) m =
      if c.is_open
      then (true, insert id (record c { stream = c.stream ++ (msg ∷ []) }) m)
      else (false, m)

  -- `tx.send`: an error where the receiver is gone.
  unfoldable pub send : ServerMsg F → ℕ → Map ℕ (Channel F) → Bool × Map ℕ (Channel F)
  unfolding send_on
  send msg id m = send_on msg id (get id m) m

  -- The loop over the clients; the result is the ids that are dead.
  unfoldable pub send_all : ServerMsg F → List ℕ → Map ℕ (Channel F) → List ℕ × Map ℕ (Channel F)
  unfolding send
  send_all msg [] m = ([], m)
  send_all msg (id ∷ ids) m =
      let (sent, m') = send msg id m in
      let (dead, m'') = send_all msg ids m' in (if sent then dead else id ∷ dead, m'')

  unfoldable pub broadcast : ServerMsg F → Ipc F → Ipc F
  unfolding send_all forget_dead
  broadcast msg s =
      let (dead, channels) = send_all msg s.clients s.channels in
      record s { clients = forget_dead dead s.clients; channels = channels }

  unfoldable pub client_count : Ipc F → ℕ
  client_count s = length s.clients

  -- With the channel that `spawn_client` makes for the client.
  unfoldable pub register : Ipc F → Ipc F
  register s = record {
    next_id = (s.next_id + 1) % 2 ^ 64;
    clients = insert_new s.next_id s.clients;
    channels = insert s.next_id (new_channel F) s.channels;
  }

  unfoldable pub unregister : ℕ → Ipc F → Ipc F
  unregister id s = record s { clients = discard id s.clients }

  -- The frame that `spawn_client` sends after it has registered the client, on its own sender.
  abbrev pub hello_frame : Text → ServerMsg F
  hello_frame version = ServerMsg.hello (codes "nicewatch") version 0

  unfoldable pub greet : Text → ℕ → Ipc F → Ipc F
  unfolding send
  greet version id s = record s { channels = (send (hello_frame version) id s.channels).1 }

  write_next : ℕ → Option (Channel F) → Map ℕ (Channel F) → Map ℕ (Channel F)
  write_next id none m = m
  write_next id (some c) m =
      if ltb c.written (length c.stream)
      then insert id (record c { written = c.written + 1 }) m
      else m

  drop_receiver : ℕ → Option (Channel F) → Map ℕ (Channel F) → Map ℕ (Channel F)
  drop_receiver id none m = m
  drop_receiver id (some c) m = insert id (record c { is_open = false }) m

-- What the threads do: the accept loop registers a client and then greets it, the daemon broadcasts,
-- a writer thread writes a frame, drops its receiver when it ends, and a thread that ends
-- unregisters its client.
pub data Action (F : Type 0) : Type 0 where
  accept : Action F
  greet_client : ℕ → Action F
  cast : ServerMsg F → Action F
  write : ℕ → Action F
  hang_up : ℕ → Action F
  leave : ℕ → Action F

module _ {F : Type 0} (version : Text) where
  unfoldable pub act : Action F → Ipc F → Ipc F
  unfolding register unregister greet broadcast write_next drop_receiver
  act accept s = register s
  act (greet_client id) s = greet version id s
  act (cast msg) s = broadcast msg s
  act (write id) s = record s { channels = write_next id (get id s.channels) s.channels }
  act (hang_up id) s = record s { channels = drop_receiver id (get id s.channels) s.channels }
  act (leave id) s = unregister id s

  unfoldable pub run : List (Action F) → Ipc F → Ipc F
  unfolding act
  run [] s = s
  run (a ∷ actions) s = run actions (act a s)
