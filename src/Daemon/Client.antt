-- ===== src/Daemon/Client.antt =====
-- How the daemon serves a client's request (`handle_client_msg`, daemon/src/main.rs).
pub mod Answers
pub mod Requests
use nicewatch.Prelude.{
  ℕ, nat_eq, Bool, true, false, ◌&&◌, not, List, [], ◌∷◌, Option, none, some, map, if◌then◌else◌,
  ltb, eqb, ◌==◌, retain, insert_new,
}
use nicewatch.Prelude.Int.{int_eq}
use nicewatch.Prelude.Text.{Text, text_eq}
use nicewatch.Prelude.Maps.{Map, get, values}
use nicewatch.Priority.{Tier, Preset, preset, IoniceClass, class_beq}
use nicewatch.Config.{Rule, cap_of}
use nicewatch.Rules.{RuleSet, from_config, rules}
use nicewatch.Applier.{clamp_nice, ioprio_value, get_ioprio}
use nicewatch.Sync.{Sync}
use nicewatch.Sync.Disk.{Host}
use nicewatch.Sync.Edit.{upsert_preset_rule, upsert_cap_rule, set_poll_interval}
use nicewatch.Wire.{ProcessInfo, RuleInfo, GamePrompt, Snapshot, ServerMsg, ClientMsg, GameAnswer}
use nicewatch.Daemon.{Memory, Kernel, Call, setpriority, ioprio_set, io_differs, clamp_poll}

-- What a request can change: `outbox` are the messages broadcast, and `calls` the system calls, the
-- newest first.
pub record Server (F : Type 0) : Type 0 where
  pub sync : Sync
  pub set : RuleSet
  pub full_info : Map ℕ (ProcessInfo F)
  pub pending_prompts : List GamePrompt
  pub memory : Memory
  pub outbox : List (ServerMsg F)
  pub calls : List Call

-- What the loop hands to a request.
pub record Context (F : Type 0) : Type 0 where
  pub host : Host
  pub kernel : Kernel
  pub privileged : Bool
  pub poll_interval : ℕ
  pub system_cpu : F
  pub system_mem : ℕ × ℕ

unfoldable pub rule_info : Rule → RuleInfo
rule_info r = record {
  name = r.name;
  match_name = r.match_name;
  tier = r.tier;
  nice = r.nice;
  cpu_cap_percent = cap_of r.cgroup;
}

-- `apply_preset_now`, on the calls made before; their results are ignored.
unfoldable pub preset_nice_now :
    Bool → {F : Type 0} → ProcessInfo F → Preset → List Call → List Call
preset_nice_now privileged info p calls =
    if info.nice == p.nice
    then calls
    else setpriority info.pid (clamp_nice privileged p.nice) ∷ calls

unfoldable pub apply_preset_now :
    Kernel → Bool → {F : Type 0} → ProcessInfo F → Preset → List Call → List Call
unfolding preset_nice_now
apply_preset_now k privileged info p calls =
    let reniced = preset_nice_now privileged info p calls in
    if not (class_beq p.ionice_class IoniceClass.none_class)
      && io_differs (get_ioprio (k.ioprio_get reniced info.pid)) p.ionice_class p.ionice_priority
    then ioprio_set info.pid (ioprio_value p.ionice_class p.ionice_priority) ∷ reniced
    else reniced

-- The loop over the running instances of a name.
unfoldable pub apply_to_named :
    Kernel → Bool → {F : Type 0} → Text → Preset → List (ProcessInfo F) → List Call → List Call
apply_to_named k privileged name p [] calls = calls
apply_to_named k privileged name p (info ∷ infos) calls =
    let later = apply_to_named k privileged name p infos in
    if info.name == name then later (apply_preset_now k privileged info p calls) else later calls

-- The prompts for other names.
unfoldable pub drop_prompts : Text → List GamePrompt → List GamePrompt
drop_prompts name prompts = retain (λ p. not (p.name == name)) prompts

module _ {F : Type 0} where
  unfoldable pub insert_by_pid : ProcessInfo F → List (ProcessInfo F) → List (ProcessInfo F)
  insert_by_pid i [] = i ∷ []
  insert_by_pid i (j ∷ js) =
      let rest = insert_by_pid i js in if ltb j.pid i.pid then j ∷ rest else i ∷ j ∷ js

  -- `sort_by_key(|p| p.pid)`
  unfoldable pub sort_by_pid : List (ProcessInfo F) → List (ProcessInfo F)
  unfolding insert_by_pid
  sort_by_pid [] = []
  sort_by_pid (i ∷ is) = insert_by_pid i (sort_by_pid is)

  -- The message of `broadcast_snapshot`.
  unfoldable pub snapshot_of :
      Map ℕ (ProcessInfo F) → RuleSet → List GamePrompt → ℕ → F → ℕ × ℕ → Snapshot F
  unfolding sort_by_pid
  snapshot_of full_info set prompts poll_interval cpu (total, used) = record {
    processes = sort_by_pid (values full_info);
    rules = map rule_info (rules set);
    prompts = prompts;
    poll_interval_ms = poll_interval;
    system_cpu = cpu;
    system_mem_total_kb = total;
    system_mem_used_kb = used;
  }

  unfoldable pub broadcast_snapshot : Context F → ℕ → Server F → Server F
  broadcast_snapshot c poll_interval s = record s {
    outbox =
        ServerMsg.snapshot
          (snapshot_of s.full_info s.set s.pending_prompts poll_interval c.system_cpu c.system_mem)
        ∷ s.outbox;
  }

  -- The rules in force are read again from the configuration.
  abbrev pub with_config : Sync → Server F → Server F
  with_config sync s = record s { sync = sync; set = from_config sync.active }

  unfoldable pub set_tier_of : Context F → Option (ProcessInfo F) → Tier → Server F → Server F
  set_tier_of c none tier s = s
  set_tier_of c (some info) tier s =
      broadcast_snapshot c c.poll_interval
        (record (with_config (upsert_preset_rule c.host info.name tier s.sync) s) {
          calls =
              apply_to_named c.kernel c.privileged info.name (preset tier) (values s.full_info)
                s.calls;
        })

  unfoldable pub answer_game : Context F → Text → GameAnswer → Server F → Server F
  answer_game c name GameAnswer.yes s = record s {
    sync = upsert_preset_rule c.host name Tier.game s.sync;
  }
  answer_game c name GameAnswer.no s = record s {
    sync = upsert_preset_rule c.host name Tier.software s.sync;
  }
  answer_game c name GameAnswer.not_now s = record s {
    memory = record s.memory {
      instance_games = insert_new name s.memory.instance_games;
      suppressed_until_exit = insert_new name s.memory.suppressed_until_exit;
    };
  }

  unfoldable pub confirm_game : Context F → Text → GameAnswer → Server F → Server F
  confirm_game c name answer s =
      let answered =
        answer_game c name answer
          (record s { pending_prompts = drop_prompts name s.pending_prompts }) in
      broadcast_snapshot c c.poll_interval (with_config answered.sync answered)

  unfoldable pub handle_client_msg : Context F → ClientMsg → Server F → Server F
  unfolding set_tier_of
  handle_client_msg c (ClientMsg.hello kind) s = broadcast_snapshot c c.poll_interval s
  handle_client_msg c ClientMsg.request_snapshot s = broadcast_snapshot c c.poll_interval s
  handle_client_msg c (ClientMsg.set_poll_interval ms) s =
      broadcast_snapshot c (clamp_poll ms)
        (record s { sync = set_poll_interval c.host (clamp_poll ms) s.sync })
  handle_client_msg c (ClientMsg.set_tier pid tier) s = set_tier_of c (get pid s.full_info) tier s
  handle_client_msg c (ClientMsg.set_cap name pct) s =
      broadcast_snapshot c c.poll_interval (with_config (upsert_cap_rule c.host name pct s.sync) s)
  handle_client_msg c (ClientMsg.confirm_game name answer) s = confirm_game c name answer s
