-- ===== src/Daemon/Cycle.antt =====
-- The end of a poll: what is forgotten, asked and broadcast (`run`, daemon/src/main.rs).
use nicewatch.Prelude.{
  ℕ, nat_eq, ◌≡◌, ap, ◌∙◌, ◌⊎◌, inl, inr, refl, Bool, true, false, List, [], ◌∷◌, ◌++◌, map,
  if◌then◌else◌, Bool-cases,
}
use nicewatch.Prelude.Text.{text_eq}
use nicewatch.Prelude.Maps.{Map, get, remove}
use nicewatch.Detect.{GameFlags}
use nicewatch.Cgroup.{Fs}
use nicewatch.Cgroup.Manager.{forget, clear_controllers_reasserted}
use nicewatch.Cgroup.Manager.State.{Manager}
use nicewatch.Cgroup.Manager.Recovery.{sweep_strays}
use nicewatch.Applier.{forget_failure}
use nicewatch.Wire.{ProcessInfo, GamePrompt, ServerMsg, Diff, diff_is_empty}
use nicewatch.Daemon.{Memory, Effects}
use nicewatch.Daemon.Tables.{diff_tables, IsTable, IsSame, diff_is_empty-IsSame}
use nicewatch.Daemon.Prompts.{Asking, fresh_game_names, prompt_all, prune}
use nicewatch.Daemon.Client.{snapshot_of}
use nicewatch.Daemon.Poll.{Setting, Polled}

-- What the loop keeps from poll to poll.
pub record Loop (K F : Type 0) : Type 0 where
  pub manager : Manager K
  pub effects : Effects
  pub flag_cache : Map ℕ GameFlags
  pub prev_ticks : Map ℕ (ℕ × ℕ)
  pub full_info : Map ℕ (ProcessInfo F)
  pub memory : Memory
  pub pending_prompts : List GamePrompt
  pub sent_initial_snapshot : Bool
  pub outbox : List (ServerMsg F)

-- The readings that go with a broadcast: the percentage of a snapshot, and that of a difference,
-- which is 0 for the first sample.
pub record Readings (F : Type 0) : Type 0 where
  pub poll_interval : ℕ
  pub system_cpu : F
  pub report_cpu : F
  pub system_mem : ℕ × ℕ
  pub client_count : ℕ

module _ {K F : Type 0} (moved : F → F → Bool) (fs : Fs K) (c : Setting F) (r : Readings F) where
  -- A pid that is gone.
  forget_pid : ℕ → Loop K F → Loop K F
  forget_pid pid s = record s {
    manager = forget fs pid s.manager;
    effects = record s.effects { warned = forget_failure pid s.effects.warned };
    flag_cache = remove pid s.flag_cache;
    prev_ticks = remove pid s.prev_ticks;
  }

  forget_pids : List ℕ → Loop K F → Loop K F
  unfolding forget_pid
  forget_pids [] s = s
  forget_pids (pid ∷ pids) s = forget_pids pids (forget_pid pid s)

  -- The snapshot after the first poll, and later the difference, if there is any.
  announce : Bool → Diff F → Loop K F → Loop K F
  announce false d s = record s {
    sent_initial_snapshot = true;
    outbox =
        ServerMsg.snapshot (
          snapshot_of s.full_info c.set s.pending_prompts r.poll_interval r.system_cpu r.system_mem)
        ∷ s.outbox;
  }
  announce true d s =
      if diff_is_empty d then s else record s { outbox = ServerMsg.diff d ∷ s.outbox }

  -- The questions to the clients, from the names that are fresh after the pruning.
  unfoldable pub asking_after : Polled K F → Loop K F → Asking
  asking_after p s =
      let pruned = prune p.names_seen s.memory in
      prompt_all r.client_count (fresh_game_names c.set pruned c.known p.cur_info)
        (record { memory = pruned; pending_prompts = s.pending_prompts; asked = [] })

  abbrev pub diff_of : Polled K F → Loop K F → Diff F
  diff_of p s = diff_tables moved s.full_info p.cur_info r.report_cpu r.system_mem

  abbrev pub asked_first : Polled K F → Loop K F → List (ServerMsg F)
  asked_first p s = map (λ q. ServerMsg.prompt_game q) (asking_after p s).asked ++ s.outbox

  -- What the daemon forgets and asks after the loop over the entries, which ends in `p`.
  settle_poll : Polled K F → Loop K F → Loop K F
  unfolding forget_pids
  settle_poll p s =
      let polled : Loop K F = record s {
        manager = clear_controllers_reasserted fs (sweep_strays fs p.manager);
        effects = p.effects;
        flag_cache = p.flag_cache;
        prev_ticks = p.prev_ticks;
        full_info = p.cur_info;
      } in
      let asking = asking_after p s in
      record (forget_pids (diff_of p s).removed polled) {
        memory = asking.memory;
        pending_prompts = asking.pending_prompts;
        outbox = asked_first p s;
      }

  -- From the loop over the entries to the broadcast of the snapshot or the difference.
  unfoldable pub finish_poll : Polled K F → Loop K F → Loop K F
  unfolding settle_poll announce
  finish_poll p s = announce s.sent_initial_snapshot (diff_of p s) (settle_poll p s)

  -- What the clients are told of a poll.
  abbrev pub IsTold : ℕ → Polled K F → Loop K F → Loop K F → Type 0
  IsTold pid p s s' =
      ((s.sent_initial_snapshot ≡ false)
        × (s'.outbox
            ≡ ServerMsg.snapshot (
                snapshot_of s'.full_info c.set s'.pending_prompts r.poll_interval r.system_cpu
                  r.system_mem)
              ∷ asked_first p s))
      ⊎ (((s.sent_initial_snapshot ≡ true)
            × (s'.outbox ≡ ServerMsg.diff (diff_of p s) ∷ asked_first p s))
          ⊎ ((s.sent_initial_snapshot ≡ true)
              × (s'.outbox ≡ asked_first p s)
              × IsSame moved (get pid s.full_info) (get pid s'.full_info)))

  announce-IsTold :
      (sent : Bool) (pid : ℕ) (p : Polled K F) (s asked : Loop K F)
      → s.sent_initial_snapshot ≡ sent
      → asked.outbox ≡ asked_first p s
      → asked.full_info ≡ p.cur_info
      → IsTable moved p.cur_info
      → IsTold pid p s (announce sent (diff_of p s) asked)
  unfolding announce
  announce-IsTold false pid p s asked e o f t = inl (
    e,
    ap
        (λ rest.
          ServerMsg.snapshot (
            snapshot_of asked.full_info c.set asked.pending_prompts r.poll_interval r.system_cpu
              r.system_mem)
          ∷ rest)
        o,
  )
  announce-IsTold true pid p s asked e o f t = elim (Bool-cases (diff_is_empty (diff_of p s))) [
    | inl empty ↦
        rw (empty, f)
          (inr (
            inr (
              e,
              o,
              diff_is_empty-IsSame moved s.full_info p.cur_info r.report_cpu r.system_mem pid t
                  empty,
            )))
    | inr full ↦ rw full (inr (inl (e, ap (λ rest. ServerMsg.diff (diff_of p s) ∷ rest) o)))
  ]

  forget_pids-full_info :
      (pids : List ℕ) (s : Loop K F) → (forget_pids pids s).full_info ≡ s.full_info
  unfolding forget_pids
  forget_pids-full_info [] s = refl
  forget_pids-full_info (pid ∷ pids) s = forget_pids-full_info pids (forget_pid pid s)

  announce-full_info :
      (sent : Bool) (d : Diff F) (s : Loop K F) → (announce sent d s).full_info ≡ s.full_info
  unfolding announce
  announce-full_info false d s = refl
  announce-full_info true d s = elim (Bool-cases (diff_is_empty d)) [
    | inl empty ↦ rw empty refl
    | inr full ↦ rw full refl
  ]

  settle_poll-outbox : (p : Polled K F) (s : Loop K F) → (settle_poll p s).outbox ≡ asked_first p s
  unfolding settle_poll
  settle_poll-outbox p s = refl

  settle_poll-full_info : (p : Polled K F) (s : Loop K F) → (settle_poll p s).full_info ≡ p.cur_info
  unfolding settle_poll
  settle_poll-full_info p s = forget_pids-full_info (diff_of p s).removed (record s {
    manager = clear_controllers_reasserted fs (sweep_strays fs p.manager);
    effects = p.effects;
    flag_cache = p.flag_cache;
    prev_ticks = p.prev_ticks;
    full_info = p.cur_info;
  })

  -- A poll keeps the table that it found and, when that is a table of processes, tells the clients
  -- all that is new in it. The questions go out first. The first poll then sends a snapshot of the
  -- table; each later one sends its difference to the table before, or nothing, and nothing only
  -- when each pid is absent from both tables or has an entry in both that counts as unchanged.
  pub finish_poll-IsTold :
      (pid : ℕ) (p : Polled K F) (s : Loop K F)
      → IsTable moved p.cur_info
      → ((finish_poll p s).full_info ≡ p.cur_info) × IsTold pid p s (finish_poll p s)
  unfolding finish_poll
  finish_poll-IsTold pid p s t =
      let kept = settle_poll-full_info p s in
      (
        announce-full_info s.sent_initial_snapshot (diff_of p s) (settle_poll p s) ∙ kept,
        announce-IsTold s.sent_initial_snapshot pid p s (settle_poll p s) refl
            (settle_poll-outbox p s) kept t,
      )
