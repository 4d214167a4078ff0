-- ===== src/Sync/Edit.antt =====
-- The edits of a rule in daemon/src/sync.rs: tiers, caps and the poll interval.
use nicewatch.Prelude.{ℕ, Bool, ◌&&◌, Option, none, some, if◌then◌else◌, not}
use nicewatch.Prelude.Text.{Text, text_eq}
use nicewatch.Prelude.Maps.{Map, get, insert, is_some}
use nicewatch.Priority.{Tier}
use nicewatch.Config.{Rule, CgroupLimits, AppConfig, from_preset, put_rule}
use nicewatch.Sync.Disk.{Host}
use nicewatch.Sync.{Sync, local_source}
use nicewatch.Sync.Writing.{schedule_local_write}

abbrev pub cgroup_of : Option Rule → Option CgroupLimits
cgroup_of none = none
cgroup_of (some r) = r.cgroup

-- The rule that `upsert_preset_rule` puts in the place of the existing one.
unfoldable pub preset_rule : Text → Tier → Option Rule → Rule
preset_rule name tier existing = record (from_preset name tier) { cgroup = cgroup_of existing }

edited : Host → AppConfig → Sync → Sync
edited h cfg s = schedule_local_write h (record s { active = cfg; active_source = local_source })

unfoldable pub upsert_preset_rule : Host → Text → Tier → Sync → Sync
unfolding edited
upsert_preset_rule h process_name tier s =
    let existing = get process_name s.active.rules in
    edited h
      (record s.active {
        rules = put_rule process_name (preset_rule process_name tier existing) s.active.rules;
      })
      s

abbrev pub cap_only : ℕ → CgroupLimits
cap_only p = record {
  path = none;
  cpu_weight = none;
  cpu_cap_percent = some p;
  memory_high = none;
  memory_max = none;
  cpu_idle = none;
}

-- The test for an empty block: four of the fields.
unfoldable pub is_blank : CgroupLimits → Bool
is_blank cg =
    not (is_some cg.path)
    && not (is_some cg.cpu_weight)
    && not (is_some cg.memory_high)
    && not (is_some cg.memory_max)

unfoldable pub capped : Option CgroupLimits → Option ℕ → Option CgroupLimits
unfolding is_blank
capped (some cg) (some p) = some (record cg { cpu_cap_percent = some p })
capped (some cg) none = if is_blank cg then none else some (record cg { cpu_cap_percent = none })
capped none (some p) = some (cap_only p)
capped none none = none

unfoldable pub cap_rules : Text → Option ℕ → Option Rule → Map Text Rule → Map Text Rule
unfolding capped
cap_rules name pct (some existing) rules =
    insert name (record existing { cgroup = capped existing.cgroup pct }) rules
cap_rules name pct none rules =
    put_rule name (record (from_preset name Tier.software) { cgroup = capped none pct }) rules

unfoldable pub upsert_cap_rule : Host → Text → Option ℕ → Sync → Sync
unfolding edited cap_rules
upsert_cap_rule h name pct s =
    edited h
      (record s.active { rules = cap_rules name pct (get name s.active.rules) s.active.rules }) s

unfoldable pub set_poll_interval : Host → ℕ → Sync → Sync
unfolding edited
set_poll_interval h poll_interval_ms s =
    edited h (record s.active { poll_interval_ms = some poll_interval_ms }) s
