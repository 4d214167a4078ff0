-- ===== src/Tests/SyncRuns.antt =====
-- Runs of the configuration sync.
use nicewatch.Prelude.{
  ◌↔◌, ◌||◌, ◌==◌, if◌then◌else◌, ℕ, ◌≡◌, ◌≤◌, ◌<◌, ◌≢◌, refl, true, false, Option, none, some, [],
  ◌∷◌, arith,
}
use nicewatch.Prelude.Text.{codes, text_eq}
use nicewatch.Prelude.Paths.{path_eq}
use nicewatch.Prelude.Maps.{get}
use nicewatch.Config.{default_config}
use nicewatch.Sync.Disk.{read_file, file_mtime, tmp_of}
use nicewatch.Sync.{
  root_source, invalid, load_file, failed, on_path_changed, initial_load, is_self_write, config,
  poll_path, Sync, Notice,
}
use nicewatch.Sync.Writing.{tick, still_unchanged, write_local}
use nicewatch.Sync.Promotion.{HasSettled, tick_promotes_settled}
use nicewatch.Sync.Loading.{loaded_from, winner, initial_load-winner}
use nicewatch.Sync.OwnWrites.{
  Permits, own_write_skipped, edit_restarts_window, broken_file_kept, early_edit_lost,
}
use nicewatch.Sync.Upsert.{IsSorted, IsOnly, set_tier_in_force, uncap_drops_iff}
use nicewatch.Sync.Edit.{upsert_preset_rule, upsert_cap_rule, cgroup_of}
use nicewatch.Rules.{from_config}
use nicewatch.Priority.{Tier}
use nicewatch.Config.{Rule, CgroupLimits, cap_of, from_preset}
use nicewatch.Tests.Data.{a_rule, an_env, a_host, a_broken_host, a_sync, a_config, local_path}

abbrev AtTick : Type 0
AtTick =
    (a_sync.pending_promote ≡ true)
    × HasSettled a_sync 50000
    × (still_unchanged a_host a_sync ≡ true)
    × (read_file (tick an_env a_host 50000 a_sync).1 a_sync.root ≡ read_file a_host a_sync.local)
    × ((tick an_env a_host 50000 a_sync).2.pending_promote ≡ false)
    × ((tick an_env a_host 50000 a_sync).2.active_source ≡ root_source)

promotes : (tick an_env a_host 50000 a_sync).0 ≡ true
unfolding tick nicewatch.Sync.Writing.flush nicewatch.Sync.Writing.try_promote
    nicewatch.Sync.Writing.unchanged_since nicewatch.Sync.Writing.promote read_file
    nicewatch.Sync.Disk.content_of file_mtime nicewatch.Sync.Disk.mtime_of get
    nicewatch.Prelude.Paths.path_beq nicewatch.Prelude.Text.text_beq
    nicewatch.Sync.Disk.atomic_write nicewatch.Sync.Disk.create_dir_all nicewatch.Prelude.contains
    nicewatch.Prelude.insert_new nicewatch.Sync.Disk.write_file nicewatch.Sync.Disk.rename
    nicewatch.Prelude.Maps.insert nicewatch.Prelude.Maps.remove tmp_of
    nicewatch.Sync.Disk.file_name_of nicewatch.Prelude.Paths.file_name
    nicewatch.Prelude.Paths.parent write_local
promotes = refl

tick_promotes_settled_example : AtTick
tick_promotes_settled_example = tick_promotes_settled an_env a_host 50000 a_sync refl promotes

waits : (tick an_env a_host 20000 a_sync).0 ≡ false
unfolding tick nicewatch.Sync.Writing.flush nicewatch.Sync.Writing.try_promote
    nicewatch.Sync.Writing.unchanged_since nicewatch.Sync.Writing.promote read_file
    nicewatch.Sync.Disk.content_of file_mtime nicewatch.Sync.Disk.mtime_of get
    nicewatch.Prelude.Paths.path_beq nicewatch.Prelude.Text.text_beq
    nicewatch.Sync.Disk.atomic_write nicewatch.Sync.Disk.create_dir_all nicewatch.Prelude.contains
    nicewatch.Prelude.insert_new nicewatch.Sync.Disk.write_file nicewatch.Sync.Disk.rename
    nicewatch.Prelude.Maps.insert nicewatch.Prelude.Maps.remove tmp_of
    nicewatch.Sync.Disk.file_name_of nicewatch.Prelude.Paths.file_name
    nicewatch.Prelude.Paths.parent write_local
waits = refl

pub paths_apart : a_sync.root ≢ a_sync.local
paths_apart h = cc

initial_load-winner_example :
    ((initial_load an_env a_host 3 a_sync).active
      ≡ loaded_from
          (winner (file_mtime a_host a_sync.root) (file_mtime a_host a_sync.local))
          an_env
          a_host
          a_sync)
    × ((initial_load an_env a_host 3 a_sync).pending_promote ≡ (
        nicewatch.Sync.Loading.promotes
          (winner (file_mtime a_host a_sync.root) (file_mtime a_host a_sync.local))
        || a_sync.pending_promote))
initial_load-winner_example = initial_load-winner an_env a_host 3 a_sync

pub not_ours : is_self_write a_host a_sync.local a_sync ≡ false
unfolding is_self_write get
not_ours = refl

pub loads : load_file an_env a_host a_sync.local ≡ config a_config
unfolding load_file nicewatch.Sync.Writing.flush nicewatch.Sync.Writing.try_promote
    nicewatch.Sync.Writing.unchanged_since nicewatch.Sync.Writing.promote read_file
    nicewatch.Sync.Disk.content_of file_mtime nicewatch.Sync.Disk.mtime_of get
    nicewatch.Prelude.Paths.path_beq nicewatch.Prelude.Text.text_beq
    nicewatch.Sync.Disk.atomic_write nicewatch.Sync.Disk.create_dir_all nicewatch.Prelude.contains
    nicewatch.Prelude.insert_new nicewatch.Sync.Disk.write_file nicewatch.Sync.Disk.rename
    nicewatch.Prelude.Maps.insert nicewatch.Prelude.Maps.remove tmp_of
    nicewatch.Sync.Disk.file_name_of nicewatch.Prelude.Paths.file_name
    nicewatch.Prelude.Paths.parent write_local nicewatch.Config.parse
    nicewatch.Config.fill_rule_names nicewatch.Config.named_after_keys
loads = refl

edit_restarts_window_example :
    ((on_path_changed an_env a_host a_sync.local 40000 a_sync).1.active ≡ a_config)
    × ((tick an_env a_host 69999 (on_path_changed an_env a_host a_sync.local 40000 a_sync).1).0
        ≡ false)
edit_restarts_window_example =
    edit_restarts_window an_env a_host 40000 69999 a_sync not_ours loads refl (omega arith)
      (omega arith)

does_not_load : load_file an_env a_broken_host a_sync.local ≡ failed (invalid local_path)
unfolding load_file nicewatch.Sync.Writing.flush nicewatch.Sync.Writing.try_promote
    nicewatch.Sync.Writing.unchanged_since nicewatch.Sync.Writing.promote read_file
    nicewatch.Sync.Disk.content_of file_mtime nicewatch.Sync.Disk.mtime_of get
    nicewatch.Prelude.Paths.path_beq nicewatch.Prelude.Text.text_beq
    nicewatch.Sync.Disk.atomic_write nicewatch.Sync.Disk.create_dir_all nicewatch.Prelude.contains
    nicewatch.Prelude.insert_new nicewatch.Sync.Disk.write_file nicewatch.Sync.Disk.rename
    nicewatch.Prelude.Maps.insert nicewatch.Prelude.Maps.remove tmp_of
    nicewatch.Sync.Disk.file_name_of nicewatch.Prelude.Paths.file_name
    nicewatch.Prelude.Paths.parent write_local nicewatch.Config.parse
does_not_load = refl

broken_file_kept_example :
    ((on_path_changed an_env a_broken_host local_path 3 a_sync).1.active ≡ a_sync.active)
    × ((on_path_changed an_env a_broken_host local_path 3 a_sync).1.active_source
        ≡ a_sync.active_source)
broken_file_kept_example = broken_file_kept an_env a_broken_host local_path 3 a_sync does_not_load

permitted : Permits an_env
permitted = record { dirs_made = λ dir. refl; written = λ path. refl; renamed = λ path. refl }

own_write_skipped_example :
    ((write_local an_env a_host a_sync).1.pending_promote ≡ true)
    × (on_path_changed an_env
          (write_local an_env a_host a_sync).0
          a_sync.local
          5
          (write_local an_env a_host a_sync).1
        ≡ (false, (write_local an_env a_host a_sync).1))
own_write_skipped_example = own_write_skipped an_env a_host 5 a_sync permitted

-- The daemon wrote the local file at 8500, and the file at 9000 is an edit.
abbrev wrote_before : Sync
wrote_before = record a_sync { self_writes = (local_path, 8500) ∷ [] }

written_then : get wrote_before.local wrote_before.self_writes ≡ some 8500
unfolding get nicewatch.Prelude.Paths.path_beq nicewatch.Prelude.Text.text_beq
written_then = refl

edited_then : file_mtime a_host wrote_before.local ≡ some 9000
unfolding nicewatch.Sync.Writing.flush nicewatch.Sync.Writing.try_promote
    nicewatch.Sync.Writing.unchanged_since nicewatch.Sync.Writing.promote read_file
    nicewatch.Sync.Disk.content_of file_mtime nicewatch.Sync.Disk.mtime_of get
    nicewatch.Prelude.Paths.path_beq nicewatch.Prelude.Text.text_beq
    nicewatch.Sync.Disk.atomic_write nicewatch.Sync.Disk.create_dir_all nicewatch.Prelude.contains
    nicewatch.Prelude.insert_new nicewatch.Sync.Disk.write_file nicewatch.Sync.Disk.rename
    nicewatch.Prelude.Maps.insert nicewatch.Prelude.Maps.remove tmp_of
    nicewatch.Sync.Disk.file_name_of nicewatch.Prelude.Paths.file_name
    nicewatch.Prelude.Paths.parent write_local
edited_then = refl

early_edit_lost_example :
    ((poll_path an_env a_host 3 wrote_before.local (false, wrote_before)).1.active
      ≡ wrote_before.active)
    × (poll_path an_env a_host 4 wrote_before.local
          (false, (poll_path an_env a_host 3 wrote_before.local (false, wrote_before)).1)
        ≡ (false, (poll_path an_env a_host 3 wrote_before.local (false, wrote_before)).1))
early_edit_lost_example =
    early_edit_lost an_env a_host 3 4 wrote_before written_then edited_then (omega arith)
      (omega arith)

rules-IsSorted : IsSorted a_config.rules
unfolding IsSorted
rules-IsSorted = (tt, tt)

IsOnly-rule : IsOnly (codes "b") a_config.rules
unfolding IsOnly
IsOnly-rule = (λ h. refl, tt)

abbrev configured : Sync
configured = record a_sync { active = a_config }

abbrev tier_set : Sync
tier_set = upsert_preset_rule a_host (codes "b") Tier.software configured

set_tier_in_force_example :
    (get (codes "b") (from_config tier_set.active).by_match
      ≡ some (record (from_preset (codes "b") Tier.software) {
        cgroup = cgroup_of (get (codes "b") configured.active.rules);
      }))
    × (get (codes "c") tier_set.active.rules ≡ (
        if codes "b" == codes "c"
        then some (record (from_preset (codes "b") Tier.software) {
          cgroup = cgroup_of (get (codes "b") configured.active.rules);
        })
        else get (codes "c") configured.active.rules))
    × (tier_set.pending_local_write ≡ true)
set_tier_in_force_example =
    set_tier_in_force a_host (codes "b") Tier.software configured (codes "c") rules-IsSorted
      IsOnly-rule

abbrev idle_limits : CgroupLimits
idle_limits = record {
  path = none;
  cpu_weight = none;
  cpu_cap_percent = some 20;
  memory_high = none;
  memory_max = none;
  cpu_idle = some true;
}

abbrev idle_rule : Rule
idle_rule = record a_rule { cgroup = some idle_limits }

abbrev idle_sync : Sync
idle_sync = record a_sync { active = record a_config { rules = (codes "b", idle_rule) ∷ [] } }

idle_found : get (codes "b") idle_sync.active.rules ≡ some idle_rule
unfolding get nicewatch.Prelude.Text.text_beq
idle_found = refl

uncap_drops_iff_example :
    (cgroup_of (get (codes "b") (upsert_cap_rule a_host (codes "b") none idle_sync).active.rules)
      ≡ none)
    ↔ ((idle_limits.path ≡ none)
        × (idle_limits.cpu_weight ≡ none)
        × (idle_limits.memory_high ≡ none)
        × (idle_limits.memory_max ≡ none))
uncap_drops_iff_example = uncap_drops_iff a_host (codes "b") idle_sync idle_found refl
