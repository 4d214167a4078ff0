-- ===== src/Ipc/Steps.antt =====
-- What one step does to the table and to a client's channel (daemon/src/ipc.rs).
use nicewatch.Prelude.{
  ℕ, nat_eq, ◌+◌, ◌^◌, ◌<◌, ◌≡◌, refl, sym, ◌∙◌, Bool, true, false, not, ◌&&◌, List, [], ◌∷◌, ◌++◌,
  Option, none, some, if◌then◌else◌, ltb, eqb, length, contains, contains-discard,
  contains-insert_new, arith, inl, inr, Bool-cases, eqb_iff,
}
use mathlib.Core.List.{append-nil}
use nicewatch.Prelude.Text.{Text}
use nicewatch.Prelude.Maps.{Map, get, get-insert}
use nicewatch.Wire.{ServerMsg}
use nicewatch.Ipc.{
  Channel, Ipc, new_channel, send_all, broadcast, register, unregister, greet, hello_frame,
  write_next, drop_receiver, Action, accept, greet_client, cast, write, hang_up, leave, act,
}
use nicewatch.Ipc.Table.{
  IsDistinct, is_open_at, stream_at, sent_on, get-send, sent-is_open, broadcast-exact,
  discard-IsDistinct, insert_new-IsDistinct, forget_dead-IsDistinct,
}

-- The table has no id twice, and only ids that were given out.
pub record IsTidy {F : Type 0} (s : Ipc F) : Type 0 where
  pub distinct : IsDistinct s.clients
  pub given : (id : ℕ) → contains s.clients id ≡ true → id < s.next_id

-- A client that is in the table and whose receiver is there.
pub record IsLive {F : Type 0} (id : ℕ) (s : Ipc F) : Type 0 where
  pub listed : contains s.clients id ≡ true
  pub open_end : is_open_at (get id s.channels) ≡ true

module _ {F : Type 0} where
  -- Client `id` does not end.
  abbrev pub stays_in : ℕ → Action F → Bool
  stays_in id (hang_up j) = not (eqb j id)
  stays_in id (leave j) = not (eqb j id)
  stays_in id _ = true

  abbrev pub stays : ℕ → List (Action F) → Bool
  stays id [] = true
  stays id (a ∷ actions) = stays_in id a && stays id actions

module _ {F : Type 0} (version : Text) where
  pub act-next_id :
      (a : Action F) (s : Ipc F)
      → s.next_id + 1 < 2 ^ 64
      → (act version a s).next_id < s.next_id + 2
  unfolding act register unregister greet broadcast
  act-next_id accept s b = omega arith
  act-next_id (greet_client id) s b = omega arith
  act-next_id (cast msg) s b = omega arith
  act-next_id (write id) s b = omega arith
  act-next_id (hang_up id) s b = omega arith
  act-next_id (leave id) s b = omega arith

  cast-IsDistinct :
      (msg : ServerMsg F) (s : Ipc F) → IsDistinct s.clients → IsDistinct (broadcast msg s).clients
  unfolding broadcast
  cast-IsDistinct msg s d = forget_dead-IsDistinct (send_all msg s.clients s.channels).0 s.clients d

  cast-given :
      (msg : ServerMsg F) (s : Ipc F) (id : ℕ)
      → IsTidy s
      → contains (broadcast msg s).clients id ≡ true
      → id < (broadcast msg s).next_id
  unfolding broadcast
  cast-given msg s id v h = v.given id (ground (arith, (broadcast-exact msg s id v.distinct).0))

  pub act-IsTidy :
      (a : Action F) (s : Ipc F) → s.next_id + 1 < 2 ^ 64 → IsTidy s → IsTidy (act version a s)
  unfolding act register unregister greet
  act-IsTidy accept s b v = record {
    distinct = insert_new-IsDistinct s.next_id s.clients v.distinct;
    given = λ id h.
        ground
          (arith, contains-insert_new s.next_id id s.clients, v.given id, eqb_iff s.next_id id);
  }
  act-IsTidy (greet_client id) s b v = record { distinct = v.distinct; given = v.given }
  act-IsTidy (cast msg) s b v = record {
    distinct = cast-IsDistinct msg s v.distinct;
    given = λ id h. cast-given msg s id v h;
  }
  act-IsTidy (write id) s b v = record { distinct = v.distinct; given = v.given }
  act-IsTidy (hang_up id) s b v = record { distinct = v.distinct; given = v.given }
  act-IsTidy (leave id) s b v = record {
    distinct = discard-IsDistinct id s.clients v.distinct;
    given = λ j h. ground (arith, contains-discard id j s.clients, v.given j);
  }

  -- What client `id` is sent by an action.
  abbrev pub heard_of : ℕ → Action F → List (ServerMsg F)
  heard_of id (greet_client j) = if eqb j id then hello_frame version ∷ [] else []
  heard_of id (cast msg) = msg ∷ []
  heard_of id _ = []

  -- The broadcasts and the greeting of client `id`, in order.
  abbrev pub heard : ℕ → List (Action F) → List (ServerMsg F)
  heard id [] = []
  heard id (a ∷ actions) = heard_of id a ++ heard id actions

  sent-stream :
      (msg : ServerMsg F) (o : Option (Channel F))
      → is_open_at o ≡ true
      → stream_at (sent_on msg o) ≡ stream_at o ++ (msg ∷ [])
  sent-stream msg none e = cc
  sent-stream msg (some c) e = ground arith

  -- What a step makes of a channel: as open as before, with `more` sent on it.
  abbrev Grows : List (ServerMsg F) → Option (Channel F) → Option (Channel F) → Type 0
  Grows more o o' = (is_open_at o' ≡ is_open_at o) × (stream_at o' ≡ stream_at o ++ more)

  unchanged : (o : Option (Channel F)) → Grows [] o o
  unchanged o = (refl, sym (append-nil (stream_at o)))

  write_next-Grows :
      (j id : ℕ) (o : Option (Channel F)) (m : Map ℕ (Channel F))
      → get j m ≡ o
      → Grows [] (get id m) (get id (write_next j o m))
  unfolding write_next
  write_next-Grows j id none m e = unchanged (get id m)
  write_next-Grows j id (some c) m e = elim (Bool-cases (ltb c.written (length c.stream))) [
    | inl more ↦ rw more (
        rw (get-insert j id (record c { written = c.written + 1 }) m)
          (elim (Bool-cases (eqb j id)) [
            | inl same ↦
                let p : j ≡ id = (eqb_iff j id).0 same in
                rw same (rw (← p, e) (refl, sym (append-nil c.stream)))
            | inr other ↦ rw other (unchanged (get id m))
          ]))
    | inr done ↦ rw done (unchanged (get id m))
  ]

  drop_receiver-other :
      (j id : ℕ) (o : Option (Channel F)) (m : Map ℕ (Channel F))
      → eqb j id ≡ false
      → get id (drop_receiver j o m) ≡ get id m
  unfolding drop_receiver
  drop_receiver-other j id none m e = refl
  drop_receiver-other j id (some c) m e =
      ground (arith, get-insert j id (record c { is_open = false }) m)

  greet-Grows :
      (j id : ℕ) (s : Ipc F)
      → is_open_at (get id s.channels) ≡ true
      → Grows
          (heard_of id (greet_client j))
          (get id s.channels)
          (get id (greet version j s).channels)
  unfolding greet
  greet-Grows j id s alive =
      rw (get-send (hello_frame version) j id s.channels) (elim (Bool-cases (eqb j id)) [
        | inl same ↦
            let p : j ≡ id = (eqb_iff j id).0 same in
            rw (same, p)
              (
                sent-is_open (hello_frame version) (get id s.channels),
                sent-stream (hello_frame version) (get id s.channels) alive,
              )
        | inr other ↦ rw other (unchanged (get id s.channels))
      ])

  greet-listed :
      (j id : ℕ) (s : Ipc F)
      → contains s.clients id ≡ true
      → contains (greet version j s).clients id ≡ true
  unfolding greet
  greet-listed j id s h = h

  accept-Grows :
      (id : ℕ) (s : Ipc F)
      → eqb s.next_id id ≡ false
      → Grows [] (get id s.channels) (get id (register s).channels)
  unfolding register
  accept-Grows id s other =
      rw (get-insert s.next_id id (new_channel F) s.channels)
        (rw other (unchanged (get id s.channels)))

  grown :
      (id : ℕ) (s s' : Ipc F) (more : List (ServerMsg F))
      → IsLive id s
      → contains s'.clients id ≡ true
      → Grows more (get id s.channels) (get id s'.channels)
      → IsLive id s' × (stream_at (get id s'.channels) ≡ stream_at (get id s.channels) ++ more)
  grown id s s' more l listed (same, stream) =
      (record { listed = listed; open_end = same ∙ l.open_end }, stream)

  cast-Grows :
      (msg : ServerMsg F) (id : ℕ) (s : Ipc F)
      → IsTidy s
      → IsLive id s
      → Grows (msg ∷ []) (get id s.channels) (get id (broadcast msg s).channels)
  cast-Grows msg id s v l = rw (broadcast-exact msg s id v.distinct).1 (
      rw l.listed
        (sent-is_open msg (get id s.channels), sent-stream msg (get id s.channels) l.open_end))

  pub act-Live :
      (a : Action F) (id : ℕ) (s : Ipc F)
      → IsTidy s
      → IsLive id s
      → stays_in id a ≡ true
      → IsLive id (act version a s)
        × (stream_at (get id (act version a s).channels)
            ≡ stream_at (get id s.channels) ++ heard_of id a)
  unfolding act register unregister
  act-Live accept id s v l e =
      let other : eqb s.next_id id ≡ false = ground (arith, v.given id l.listed) in
      grown id s (act version accept s) [] l
        (ground (arith, contains-insert_new s.next_id id s.clients, l.listed))
        (accept-Grows id s other)
  act-Live (greet_client j) id s v l e =
      grown id s (act version (greet_client j) s) _ l (greet-listed j id s l.listed)
        (greet-Grows j id s l.open_end)
  act-Live (cast msg) id s v l e =
      grown id s (act version (cast msg) s) _ l
        (ground (arith, (broadcast-exact msg s id v.distinct).0, l.listed, l.open_end))
        (cast-Grows msg id s v l)
  act-Live (write j) id s v l e =
      grown id s (act version (write j) s) [] l l.listed
        (write_next-Grows j id (get j s.channels) s.channels refl)
  act-Live (hang_up j) id s v l e = grown id s (act version (hang_up j) s) [] l l.listed (
      rw (drop_receiver-other j id (get j s.channels) s.channels (ground (arith, e)))
        (unchanged (get id s.channels)))
  act-Live (leave j) id s v l e =
      grown id s (act version (leave j) s) [] l
        (ground (arith, contains-discard j id s.clients, l.listed)) (unchanged (get id s.channels))
