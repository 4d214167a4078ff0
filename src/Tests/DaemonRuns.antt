-- ===== src/Tests/DaemonRuns.antt =====
-- Runs of the poll loop's decisions and of the requests of clients.
use nicewatch.Prelude.{
  ℕ, nat_eq, ◌≡◌, ◌≤◌, ◌<◌, ◌≢◌, refl, Bool, true, false, ◌&&◌, ◌||◌, not, List, [], ◌∷◌, Option,
  none, some, arith, All, contains, ltb, min, max, ◌==◌,
}
use nicewatch.Prelude.Int.{negsuc}
use nicewatch.Prelude.Text.{Text, codes, text_eq}
use nicewatch.Prelude.Maps.{Map, get, contains_key}
use nicewatch.Priority.{Tier, IoniceClass}
use nicewatch.Rules.{from_config, ApplyTarget}
use nicewatch.Detect.Known.{no_games}
use nicewatch.Applier.{clamp_nice, ioprio_value}
use nicewatch.Proc.{ProcEntry}
use nicewatch.Wire.{ProcessInfo, GameAnswer, ClientMsg}
use nicewatch.Daemon.{
  cgroup_request, poll_flags, apply_target, effective_nice, effective_poll_interval, Effects,
  Identity, Memory,
}
use nicewatch.Daemon.Tables.{IsTable, diff_tables, entry_of, if_new, if_changed, diff_tables-exact}
use nicewatch.Daemon.Effect.{IsRaise, unprivileged_raises, apply_target_settles}
use nicewatch.Daemon.Prompts.{Asking, Named, names_of, fresh_game_names, prompt_all, prune}
use nicewatch.Daemon.Prompts.Asked.{now, after_prune, after_request, asked_once}
use nicewatch.Daemon.Client.{Server, Context, confirm_game, handle_client_msg}
use nicewatch.Daemon.Client.Answers.{is_prompted, answer_settles}
use nicewatch.Tests.Data.{
  an_entry, a_ruleset, a_memory, a_kernel, no_effects, info_of, a_sync, a_config, a_host,
}

abbrev Table : Type 0
Table = Map ℕ (ProcessInfo ℕ)

abbrev before : Table
before = (1, info_of 1 (codes "a") 0) ∷ (2, info_of 2 (codes "b") 0) ∷ []

abbrev after : Table
after = (2, info_of 2 (codes "b") 9) ∷ (3, info_of 3 (codes "c") 0) ∷ []

abbrev moved : ℕ → ℕ → Bool
moved a b = ltb a b || ltb b a

after-IsTable : IsTable moved after
unfolding IsTable get
after-IsTable = (refl, refl, (refl, refl, tt))

diff_tables-exact_example :
    (entry_of moved 2 (diff_tables moved before after 0 (8, 4)).added
      ≡ if_new moved (get 2 before) (get 2 after))
    × (entry_of moved 2 (diff_tables moved before after 0 (8, 4)).updated
        ≡ if_changed moved (get 2 before) (get 2 after))
    × (contains (diff_tables moved before after 0 (8, 4)).removed 2
        ≡ (contains_key 2 before && not (contains_key 2 after)))
diff_tables-exact_example = diff_tables-exact moved before after 0 (8, 4) 2 after-IsTable

-- A client has answered "not now" for the compositor.
abbrev misled : Memory
misled = record a_memory { instance_games = codes "kwin_x11" ∷ [] }

abbrev own : ProcEntry
own = record an_entry { name = codes "nicewatch-gui" }

not_instance : contains a_memory.instance_games own.name ≡ false
unfolding contains
not_instance = refl

abbrev a_target : ApplyTarget
a_target = record {
  tier = some Tier.game;
  nice = negsuc 9;
  ionice_class = IoniceClass.best_effort;
  ionice_priority = 0;
  rule = none;
  cgroup = none;
}

unprivileged_raises_example :
    All (IsRaise an_entry.nice) (apply_target a_kernel false an_entry a_target no_effects).calls
unprivileged_raises_example = unprivileged_raises a_kernel an_entry a_target no_effects tt

nice_reached : an_entry.nice ≡ clamp_nice false (effective_nice false a_target.nice (negsuc 4))
unfolding clamp_nice effective_nice
nice_reached = refl

reads_back :
    a_kernel.ioprio_get no_effects.calls an_entry.pid
    ≡ some (ioprio_value a_target.ionice_class a_target.ionice_priority)
unfolding ioprio_value nicewatch.Applier.class_bits
reads_back = refl

apply_target_settles_example : apply_target a_kernel false an_entry a_target no_effects ≡ no_effects
apply_target_settles_example =
    apply_target_settles a_kernel false an_entry a_target (negsuc 4) no_effects nice_reached
      (omega arith) reads_back

abbrev asking : Asking
asking = record { memory = a_memory; pending_prompts = []; asked = [] }

abbrev fresh : List Named
fresh = (codes "g", 3) ∷ []

is_asked : contains (names_of fresh) (codes "g") ≡ true
unfolding contains nicewatch.Prelude.Text.text_beq
is_asked = refl

abbrev playing : Table
playing = (3, record (info_of 3 (codes "g") 0) { game_detected = true }) ∷ []

abbrev a_context : Context ℕ
a_context = record {
  host = a_host;
  kernel = a_kernel;
  privileged = false;
  poll_interval = 500;
  system_cpu = 3;
  system_mem = (8, 4);
}

abbrev a_server : Server ℕ
a_server = record {
  sync = record a_sync { active = a_config };
  set = from_config a_config;
  full_info = before;
  pending_prompts = record { name = codes "g"; pid = 3 } ∷ [];
  memory = a_memory;
  outbox = [];
  calls = [];
}

answer_settles_example :
    (is_prompted
        (codes "g")
        (confirm_game a_context (codes "g") GameAnswer.no a_server).pending_prompts
      ≡ (not (codes "g" == codes "g") && is_prompted (codes "g") a_server.pending_prompts))
    × (contains
          (names_of (
            fresh_game_names
              (confirm_game a_context (codes "g") GameAnswer.no a_server).set
              (confirm_game a_context (codes "g") GameAnswer.no a_server).memory
              no_games
              playing))
          (codes "g")
        ≡ false)
answer_settles_example =
    answer_settles a_context (codes "g") GameAnswer.no a_server no_games playing (codes "g")

abbrev first_asked : Memory
first_asked = (prompt_all 1 fresh asking).memory

seen : contains (codes "g" ∷ []) (codes "g") ≡ true
unfolding contains nicewatch.Prelude.Text.text_beq
seen = refl

asked_once_example :
    contains
      (names_of (
        fresh_game_names a_ruleset
          (handle_client_msg a_context ClientMsg.request_snapshot
            (record a_server { memory = prune (codes "g" ∷ []) first_asked })).memory
          no_games
          playing))
      (codes "g")
    ≡ false
asked_once_example = asked_once a_ruleset no_games 1 fresh asking (codes "g") playing is_asked (
    after_request (after_prune now (codes "g" ∷ []) seen) a_context ClientMsg.request_snapshot
      (record a_server { memory = prune (codes "g" ∷ []) first_asked }) refl)
