-- ===== src/Ipc/Delivery.antt =====
-- What a client receives, whatever the other threads do (daemon/src/ipc.rs).
use nicewatch.Prelude.{
  ℕ, nat_eq, ◌+◌, ◌^◌, ◌<◌, ◌≡◌, refl, sym, ap, ◌∙◌, true, List, [], ◌∷◌, ◌++◌, map, ◌≤◌, some,
  length, contains, contains-insert_new, arith, eq_refl,
}
use mathlib.Core.List.{append-nil, append_assoc}
use nicewatch.Prelude.Text.{Text}
use nicewatch.Prelude.Maps.{get, insert, get-insert}
use nicewatch.Wire.{ServerMsg}
use nicewatch.Ipc.{
  Ipc, new_channel, fresh_ipc, register, hello_frame, Action, accept, greet_client, cast, act, run,
}
use nicewatch.Ipc.Table.{is_open_at, stream_at}
use nicewatch.Ipc.Steps.{IsTidy, IsLive, heard_of, heard, stays, act-next_id, act-IsTidy, act-Live}

module _ {F : Type 0} where
  abbrev pub casts : List (ServerMsg F) → List (Action F)
  casts msgs = map (λ m. cast m) msgs

module _ {F : Type 0} (version : Text) where
  run-Live :
      (actions : List (Action F)) (id : ℕ) (s : Ipc F)
      → IsTidy s
      → IsLive id s
      → stays id actions ≡ true
      → s.next_id + length actions < 2 ^ 64
      → IsLive id (run version actions s)
        × (stream_at (get id (run version actions s).channels)
            ≡ stream_at (get id s.channels) ++ heard version id actions)
  unfolding run
  run-Live [] id s v l e b = (l, sym (append-nil (stream_at (get id s.channels))))
  run-Live (a ∷ actions) id s v l e b =
      let s' = act version a s in
      let (l', grew) = act-Live version a id s v l (ground (arith, e)) in
      let (l'', grew') =
        run-Live actions id s' (act-IsTidy version a s (omega arith) v) l' (ground (arith, e))
          (omega (arith, act-next_id version a s (omega arith))) in
      (
        l'',
        grew'
            ∙ (ap (λ (k : List (ServerMsg F)). k ++ heard version id actions) grew
                ∙ append_assoc (stream_at (get id s.channels)) (heard_of version id a)
                    (heard version id actions)),
      )

  run-IsTidy :
      (actions : List (Action F)) (s : Ipc F)
      → IsTidy s
      → s.next_id + length actions < 2 ^ 64
      → IsTidy (run version actions s)
        × ((run version actions s).next_id ≤ s.next_id + length actions)
  unfolding run
  run-IsTidy [] s v b = (v, omega arith)
  run-IsTidy (a ∷ actions) s v b =
      let next = act-next_id version a s (omega arith) in
      let (v', below) =
        run-IsTidy actions (act version a s) (act-IsTidy version a s (omega arith) v)
          (omega arith) in
      (v', omega (arith, next, below))

  fresh-IsTidy : IsTidy (fresh_ipc {F = F})
  unfolding contains
  fresh-IsTidy = record { distinct = tt; given = λ id h. cc }

  -- The server after it has accepted a client, which has the id `next_id` of the server before.
  abbrev pub joined : Ipc F → Ipc F
  joined s = act version accept s

  joined-IsLive :
      (s : Ipc F)
      → IsLive s.next_id (joined s) × (stream_at (get s.next_id (joined s).channels) ≡ [])
  unfolding act register
  joined-IsLive s =
      let got : get s.next_id (insert s.next_id (new_channel F) s.channels) ≡ some (new_channel F) =
        rw (get-insert s.next_id s.next_id (new_channel F) s.channels)
          (rw (eq_refl s.next_id) refl) in
      (
        record {
          listed = contains-insert_new s.next_id s.next_id s.clients ∙ rw (eq_refl s.next_id) refl;
          open_end = ap is_open_at got;
        },
        ap stream_at got,
      )

  started :
      (before : List (Action F)) (s : Ipc F)
      → s ≡ run version before fresh_ipc
      → 1 + length before < 2 ^ 64
      → IsTidy s × (s.next_id ≤ 1 + length before)
  started before s start b = rw start (run-IsTidy before fresh_ipc fresh-IsTidy b)

  -- Whatever clients came and went before, a client that stays gets on its channel, from when it was
  -- accepted, each later broadcast and its greeting, once each and in order, and nothing else,
  -- whatever the other threads do, and stays in the table; for fewer than 2^64 steps.
  pub delivered :
      (before after : List (Action F)) (s : Ipc F)
      → s ≡ run version before fresh_ipc
      → stays s.next_id after ≡ true
      → length before + length after + 2 < 2 ^ 64
      → (stream_at (get s.next_id (run version after (joined s)).channels)
          ≡ heard version s.next_id after)
        × (contains (run version after (joined s)).clients s.next_id ≡ true)
  delivered before after s start e b =
      let (tidy, below) = started before s start (omega arith) in
      let next = act-next_id version accept s (omega arith) in
      let (live, silent) = joined-IsLive s in
      let (live', got) =
        run-Live after s.next_id (joined s) (act-IsTidy version accept s (omega arith) tidy) live e
          (omega arith) in
      (
        got ∙ ap (λ (k : List (ServerMsg F)). k ++ heard version s.next_id after) silent,
        live'.listed,
      )

  stays-casts :
      (id : ℕ) (msgs : List (ServerMsg F)) (rest : List (Action F))
      → stays id (casts msgs ++ rest) ≡ stays id rest
  stays-casts id [] rest = refl
  stays-casts id (m ∷ msgs) rest = stays-casts id msgs rest

  heard-casts :
      (id : ℕ) (msgs : List (ServerMsg F)) (rest : List (Action F))
      → heard version id (casts msgs ++ rest) ≡ msgs ++ heard version id rest
  heard-casts id [] rest = refl
  heard-casts id (m ∷ msgs) rest = ap (◌∷◌ m) (heard-casts id msgs rest)

  -- A client is greeted behind all that is broadcast between its registration and its greeting.
  greeted_behind :
      (before rest : List (Action F)) (msgs : List (ServerMsg F)) (s : Ipc F)
      → s ≡ run version before fresh_ipc
      → stays s.next_id rest ≡ true
      → length before + length (casts msgs ++ greet_client s.next_id ∷ rest) + 2 < 2 ^ 64
      → stream_at (
          get s.next_id
            (run version (casts msgs ++ greet_client s.next_id ∷ rest) (joined s)).channels)
        ≡ msgs ++ hello_frame version ∷ heard version s.next_id rest
  greeted_behind before rest msgs s start e b =
      (delivered before (casts msgs ++ greet_client s.next_id ∷ rest) s start
        (stays-casts s.next_id msgs (greet_client s.next_id ∷ rest) ∙ e) b).0
      ∙ (heard-casts s.next_id msgs (greet_client s.next_id ∷ rest) ∙ rw (eq_refl s.next_id) refl)
