-- ===== src/Daemon/Client/Requests.antt =====
-- What a client's request makes of the daemon (`handle_client_msg`, daemon/src/main.rs).
use nicewatch.Prelude.{ℕ, ◌≡◌, ◌≤◌, refl, true, Option, none, some, arith, nat_eq, min, max}
use nicewatch.Prelude.Text.{Text, text_eq}
use nicewatch.Prelude.Maps.{get}
use nicewatch.Priority.{Tier}
use nicewatch.Config.{from_preset}
use nicewatch.Rules.{from_config}
use nicewatch.Sync.Writing.{schedule_local_write}
use nicewatch.Sync.Edit.{set_poll_interval, cgroup_of}
use nicewatch.Sync.Upsert.{IsSorted, IsOnly, set_tier_in_force}
use nicewatch.Wire.{ProcessInfo, ClientMsg, GameAnswer}
use nicewatch.Daemon.{effective_poll_interval, clamp_poll}
use nicewatch.Daemon.Client.{
  Server, Context, confirm_game, broadcast_snapshot, handle_client_msg, set_tier_of,
}

poll_kept :
    {F : Type 0}
    → (c : Context F) (ms : ℕ) (s : Server F) → s.set ≡ from_config s.sync.active
    → s.set ≡ from_config (set_poll_interval c.host (clamp_poll ms) s.sync).active
unfolding set_poll_interval schedule_local_write from_config
poll_kept c ms s h = h

tier_kept :
    {F : Type 0}
    → (c : Context F) (info : Option (ProcessInfo F)) (tier : Tier) (s : Server F)
    → s.set ≡ from_config s.sync.active
    → (set_tier_of c info tier s).set ≡ from_config (set_tier_of c info tier s).sync.active
unfolding set_tier_of broadcast_snapshot
tier_kept c none tier s h = h
tier_kept c (some info) tier s h = refl

answer_kept :
    {F : Type 0}
    → (c : Context F) (name : Text) (answer : GameAnswer) (s : Server F)
    → (confirm_game c name answer s).set ≡ from_config (confirm_game c name answer s).sync.active
unfolding confirm_game broadcast_snapshot
answer_kept c name answer s = refl

-- The rules in force are those of the configuration, whatever a client asks.
pub rules_follow :
    {F : Type 0}
    → (c : Context F) (msg : ClientMsg) (s : Server F) → s.set ≡ from_config s.sync.active
    → (handle_client_msg c msg s).set ≡ from_config (handle_client_msg c msg s).sync.active
unfolding handle_client_msg broadcast_snapshot
rules_follow c (ClientMsg.hello kind) s h = h
rules_follow c ClientMsg.request_snapshot s h = h
rules_follow c (ClientMsg.set_poll_interval ms) s h = poll_kept c ms s h
rules_follow c (ClientMsg.set_tier pid tier) s h = tier_kept c (get pid s.full_info) tier s h
rules_follow c (ClientMsg.set_cap name pct) s h = refl
rules_follow c (ClientMsg.confirm_game name answer) s h = answer_kept c name answer s

-- A client that sets the tier of a running process sets what the rules in force say of its name,
-- where the rules are in the order of their keys and no rule under another key matches the name,
-- and the local file is due to be written.
pub set_tier_served :
    {F : Type 0}
    → (c : Context F) (pid : ℕ) (tier : Tier) (s : Server F) (info : ProcessInfo F)
    → get pid s.full_info ≡ some info
    → IsSorted s.sync.active.rules
    → IsOnly info.name s.sync.active.rules
    → (get info.name (handle_client_msg c (ClientMsg.set_tier pid tier) s).set.by_match
        ≡ some (record (from_preset info.name tier) {
          cgroup = cgroup_of (get info.name s.sync.active.rules);
        }))
      × ((handle_client_msg c (ClientMsg.set_tier pid tier) s).sync.pending_local_write ≡ true)
unfolding handle_client_msg set_tier_of broadcast_snapshot
set_tier_served c pid tier s info e sorted only =
    let (in_force, kept, due) =
      set_tier_in_force c.host info.name tier s.sync info.name sorted only in
    rw e (in_force, due)

-- A request for a poll interval is clamped to between 250 ms and a minute, and is the interval of the
-- next poll, whatever the command line says.
pub poll_interval_served :
    {F : Type 0}
    → (c : Context F) (ms : ℕ) (s : Server F) (poll_ms : Option ℕ)
    → (effective_poll_interval poll_ms
          (handle_client_msg c (ClientMsg.set_poll_interval ms) s).sync.active
        ≡ min (max ms 250) 60000)
      × (250 ≤ effective_poll_interval poll_ms s.sync.active)
      × (effective_poll_interval poll_ms s.sync.active ≤ 60000)
unfolding handle_client_msg broadcast_snapshot set_poll_interval schedule_local_write
    effective_poll_interval
poll_interval_served c ms s poll_ms = (ground arith, ground arith, ground arith)
