-- ===== src/Gui/View/Served.antt =====
-- What a client shows under requests, questions and warnings (gui/src/lib/store.svelte.ts,
-- daemon/src/main.rs).
use nicewatch.Prelude.{
  ℕ, nat_eq, ◌≡◌, refl, ◌∙◌, Bool, List, [], ◌∷◌, ◌++◌, map, Option, none, some,
}
use nicewatch.Prelude.Text.{Text}
use nicewatch.Prelude.Maps.{Map, get}
use nicewatch.Priority.{Tier}
use nicewatch.Wire.{ProcessInfo, GamePrompt, GameAnswer, ServerMsg, ClientMsg}
use nicewatch.Daemon.Client.{
  Server, Context, handle_client_msg, broadcast_snapshot, snapshot_of, confirm_game, answer_game,
  set_tier_of,
}
use nicewatch.Daemon.Tables.{IsTable}
use nicewatch.Daemon.Turn.{serve_all}
use nicewatch.Daemon.Turn.State.{Fixed}
use nicewatch.Gui.View.{view_of}
use nicewatch.Gui.View.Follows.{IsFollowed, snapshot-IsFollowed}

module _ {F : Type 0} (moved : F → F → Bool) where
  -- The outbox brings a client to the table.
  abbrev pub IsSeen : List (ServerMsg F) → Map ℕ (ProcessInfo F) → Type 0
  IsSeen outbox table = IsFollowed moved (view_of outbox) table

  pub snapshot-IsSeen :
      (c : Context F) (ms : ℕ) (s : Server F)
      → IsTable moved s.full_info
      → IsSeen (broadcast_snapshot c ms s).outbox s.full_info
  unfolding broadcast_snapshot snapshot_of view_of
  snapshot-IsSeen c ms s t = snapshot-IsFollowed moved s.full_info t

  abbrev pub IsServed : Server F → Type 0
  IsServed s = IsSeen s.outbox s.full_info

  tier-IsServed :
      (c : Context F) (o : Option (ProcessInfo F)) (tier : Tier) (s : Server F)
      → IsTable moved s.full_info
      → IsServed s
      → ((set_tier_of c o tier s).full_info ≡ s.full_info) × IsServed (set_tier_of c o tier s)
  unfolding set_tier_of broadcast_snapshot snapshot_of view_of
  tier-IsServed c none tier s t v = (refl, v)
  tier-IsServed c (some info) tier s t v = (refl, snapshot-IsFollowed moved s.full_info t)

  answer-IsServed :
      (c : Context F) (name : Text) (answer : GameAnswer) (s : Server F)
      → IsTable moved s.full_info
      → ((confirm_game c name answer s).full_info ≡ s.full_info)
        × IsServed (confirm_game c name answer s)
  unfolding confirm_game answer_game broadcast_snapshot snapshot_of view_of
  answer-IsServed c name GameAnswer.yes s t = (refl, snapshot-IsFollowed moved s.full_info t)
  answer-IsServed c name GameAnswer.no s t = (refl, snapshot-IsFollowed moved s.full_info t)
  answer-IsServed c name GameAnswer.not_now s t = (refl, snapshot-IsFollowed moved s.full_info t)

  pub handled-IsServed :
      (c : Context F) (msg : ClientMsg) (s : Server F)
      → IsTable moved s.full_info
      → IsServed s
      → ((handle_client_msg c msg s).full_info ≡ s.full_info) × IsServed (handle_client_msg c msg s)
  unfolding handle_client_msg broadcast_snapshot snapshot_of view_of
  handled-IsServed c (ClientMsg.hello kind) s t v = (refl, snapshot-IsFollowed moved s.full_info t)
  handled-IsServed c ClientMsg.request_snapshot s t v =
      (refl, snapshot-IsFollowed moved s.full_info t)
  handled-IsServed c (ClientMsg.set_poll_interval ms) s t v =
      (refl, snapshot-IsFollowed moved s.full_info t)
  handled-IsServed c (ClientMsg.set_tier pid tier) s t v =
      tier-IsServed c (get pid s.full_info) tier s t v
  handled-IsServed c (ClientMsg.set_cap name pct) s t v =
      (refl, snapshot-IsFollowed moved s.full_info t)
  handled-IsServed c (ClientMsg.confirm_game name answer) s t v = answer-IsServed c name answer s t

  -- Questions and warnings change nothing that is shown.
  pub view_of-prompts :
      (qs : List GamePrompt) (rest : List (ServerMsg F))
      → view_of (map (λ q. ServerMsg.prompt_game q) qs ++ rest) ≡ view_of rest
  unfolding view_of
  view_of-prompts [] rest = refl
  view_of-prompts (q ∷ qs) rest = view_of-prompts qs rest

  pub view_of-warnings {ℓ} :
      {A : Type ℓ} (text : A → Text) (ws : List A) (rest : List (ServerMsg F))
      → view_of (map (λ w. ServerMsg.warning (text w)) ws ++ rest) ≡ view_of rest
  unfolding view_of
  view_of-warnings text [] rest = refl
  view_of-warnings text (w ∷ ws) rest = view_of-warnings text ws rest

  IsSeen-again :
      (outbox outbox' : List (ServerMsg F)) (table : Map ℕ (ProcessInfo F))
      → view_of outbox' ≡ view_of outbox
      → IsSeen outbox table
      → IsSeen outbox' table
  IsSeen-again outbox outbox' table e v = rw e v

  pub serve_all-IsServed :
      {K : Type 0} (x : Fixed K F) (c : Context F) (msgs : List ClientMsg) (s : Server F)
      → IsTable moved s.full_info
      → IsServed s
      → ((serve_all x c msgs s).full_info ≡ s.full_info) × IsServed (serve_all x c msgs s)
  unfolding serve_all
  serve_all-IsServed x c [] s t v = (refl, v)
  serve_all-IsServed x c (msg ∷ msgs) s t v =
      let (kept, v') = handled-IsServed c msg s t v in
      let (kept', v'') = serve_all-IsServed x c msgs (handle_client_msg c msg s) (rw kept t) v' in
      (kept' ∙ kept, v'')
