-- ===== src/Ipc/Table.antt =====
-- What each action does to the table of clients and to the channels (daemon/src/ipc.rs).
use nicewatch.Prelude.{
  ℕ, nat_eq, ◌≡◌, refl, ap, ◌∙◌, Bool, false, not, ◌&&◌, List, [], ◌∷◌, ◌++◌, Option, none, some,
  if◌then◌else◌, eqb, ◌==◌, contains, insert_new, discard, contains-discard, eq_refl, arith, inl,
  inr, Bool-cases, eqb_iff,
}
use nicewatch.Prelude.Maps.{Map, get, get-insert}
use nicewatch.Wire.{ServerMsg}
use nicewatch.Ipc.{Channel, Ipc, send_on, send, send_all, forget_dead, broadcast}

-- No id stands twice.
abbrev pub IsDistinct : List ℕ → Type 0
IsDistinct [] = Unit {0}
IsDistinct (id ∷ ids) = (contains ids id ≡ false) × IsDistinct ids

module _ {F : Type 0} where
  abbrev pub is_open_at : Option (Channel F) → Bool
  is_open_at none = false
  is_open_at (some c) = c.is_open

  abbrev pub stream_at : Option (Channel F) → List (ServerMsg F)
  stream_at none = []
  stream_at (some c) = c.stream

  -- A channel after a send on it.
  abbrev pub sent_on : ServerMsg F → Option (Channel F) → Option (Channel F)
  sent_on msg none = none
  sent_on msg (some c) =
      if c.is_open then some (record c { stream = c.stream ++ (msg ∷ []) }) else some c

  get-send_on :
      (msg : ServerMsg F) (id j : ℕ) (m : Map ℕ (Channel F)) (o : Option (Channel F))
      → get id m ≡ o
      → get j (send_on msg id o m).1 ≡ (if id == j then sent_on msg o else get j m)
  unfolding send_on
  get-send_on msg id j m none e = ground (arith, ap (λ k. get k m), eqb_iff id j)
  get-send_on msg id j m (some c) e =
      ground (arith, get-insert id j (record c { stream = c.stream ++ (msg ∷ []) }) m, eqb_iff id j)

  -- Only the channel that is sent on changes.
  pub get-send :
      (msg : ServerMsg F) (id j : ℕ) (m : Map ℕ (Channel F))
      → get j (send msg id m).1 ≡ (if id == j then sent_on msg (get id m) else get j m)
  unfolding send
  get-send msg id j m = get-send_on msg id j m (get id m) refl

  pub sent-is_open :
      (msg : ServerMsg F) (o : Option (Channel F)) → is_open_at (sent_on msg o) ≡ is_open_at o
  sent-is_open msg none = refl
  sent-is_open msg (some c) = ground arith

  send_on-is_open :
      (msg : ServerMsg F) (id : ℕ) (m : Map ℕ (Channel F)) (o : Option (Channel F))
      → (send_on msg id o m).0 ≡ is_open_at o
  unfolding send_on
  send_on-is_open msg id m none = refl
  send_on-is_open msg id m (some c) = ground arith

  send-is_open :
      (msg : ServerMsg F) (id : ℕ) (m : Map ℕ (Channel F))
      → (send msg id m).0 ≡ is_open_at (get id m)
  unfolding send
  send-is_open msg id m = send_on-is_open msg id m (get id m)

  pub get-send_all :
      (msg : ServerMsg F) (ids : List ℕ) (j : ℕ) (m : Map ℕ (Channel F))
      → IsDistinct ids
      → get j (send_all msg ids m).1 ≡ (if contains ids j then sent_on msg (get j m) else get j m)
  unfolding send_all contains
  get-send_all msg [] j m d = refl
  get-send_all msg (id ∷ ids) j m (fresh, d) = elim (Bool-cases (eqb id j)) [
    | inl same ↦
        let p : id ≡ j = (eqb_iff id j).0 same in
        rw (← p, eq_refl id)
          (get-send_all msg ids id (send msg id m).1 d
            ∙ rw fresh (get-send msg id id m ∙ rw (eq_refl id) refl))
    | inr other ↦
        rw other
          (get-send_all msg ids j (send msg id m).1 d ∙ rw (get-send msg id j m) (rw other refl))
  ]

  -- The dead are the clients whose receiver is gone.
  pub contains-dead :
      (msg : ServerMsg F) (ids : List ℕ) (j : ℕ) (m : Map ℕ (Channel F))
      → IsDistinct ids
      → contains (send_all msg ids m).0 j ≡ (contains ids j && not (is_open_at (get j m)))
  unfolding send_all contains
  contains-dead msg [] j m d = refl
  contains-dead msg (id ∷ ids) j m (fresh, d) = ground (
    arith,
    contains-dead msg ids j (send msg id m).1 d,
    get-send msg id j m,
    send-is_open msg id m,
    sent-is_open msg (get id m),
    eqb_iff id j,
    ap (λ k. get k m),
  )

contains-forget_dead :
    (dead clients : List ℕ) (j : ℕ)
    → contains (forget_dead dead clients) j ≡ (contains clients j && not (contains dead j))
unfolding forget_dead contains
contains-forget_dead [] clients j = ground arith
contains-forget_dead (id ∷ dead) clients j =
    ground (arith, contains-forget_dead dead (discard id clients) j, contains-discard id j clients)

pub discard-IsDistinct : (id : ℕ) (ids : List ℕ) → IsDistinct ids → IsDistinct (discard id ids)
unfolding discard contains
discard-IsDistinct id [] d = tt
discard-IsDistinct id (x ∷ ids) (fresh, d) =
    let rest = discard-IsDistinct id ids d in
    elim (Bool-cases (eqb x id)) [
      | inl same ↦ rw same rest
      | inr other ↦ rw other (ground (arith, contains-discard id x ids), rest)
    ]

pub insert_new-IsDistinct :
    (id : ℕ) (ids : List ℕ) → IsDistinct ids → IsDistinct (insert_new id ids)
unfolding insert_new
insert_new-IsDistinct id ids d = elim (Bool-cases (contains ids id)) [
  | inl old ↦ rw old d
  | inr new ↦ rw new (new, d)
]

pub forget_dead-IsDistinct :
    (dead clients : List ℕ) → IsDistinct clients → IsDistinct (forget_dead dead clients)
unfolding forget_dead
forget_dead-IsDistinct [] clients d = d
forget_dead-IsDistinct (id ∷ dead) clients d =
    forget_dead-IsDistinct dead (discard id clients) (discard-IsDistinct id clients d)

-- After a broadcast the table holds exactly the clients whose receiver is still there, and the
-- channel of each client in the table that is still there, and no other, has got the message as
-- its last.
pub broadcast-exact :
    {F : Type 0}
    → (msg : ServerMsg F) (s : Ipc F) (id : ℕ) → IsDistinct s.clients
    → (contains (broadcast msg s).clients id
        ≡ (contains s.clients id && is_open_at (get id s.channels)))
      × (get id (broadcast msg s).channels
          ≡ (if contains s.clients id then sent_on msg (get id s.channels) else get id s.channels))
unfolding broadcast
broadcast-exact msg s id d = (
  contains-forget_dead (send_all msg s.clients s.channels).0 s.clients id
      ∙ ground (arith, contains-dead msg s.clients id s.channels d),
  get-send_all msg s.clients id s.channels d,
)
