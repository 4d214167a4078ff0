-- ===== src/Rules.antt =====
-- daemon/src/rules.rs: from a process's name, flags and age to its desired priority.
pub mod Lookup
pub mod Precedence
use nicewatch.Prelude.{ℕ, Bool, true, false, List, [], ◌∷◌, Option, none, some, if◌then◌else◌, ltb}
use nicewatch.Prelude.Int.{ℤ}
use nicewatch.Prelude.Text.{Text, text_eq}
use nicewatch.Prelude.Maps.{Map, values, get, insert, contains_key}
use nicewatch.Priority.{Tier, IoniceClass, Preset, preset}
use nicewatch.Config.{
  AppConfig, Rule, CgroupLimits, AutoGameConfig, auto_game_default, auto_preset, unwrap_or,
}
use nicewatch.Detect.{GameFlags, is_game}

pub record ApplyTarget : Type 0 where
  pub tier : Option Tier
  pub nice : ℤ
  pub ionice_class : IoniceClass
  pub ionice_priority : ℕ
  pub rule : Option Text
  pub cgroup : Option CgroupLimits

pub data Resolved : Type 0 where
  untouched : Resolved
  apply : ApplyTarget → Resolved

pub record RuleSet : Type 0 where
  pub by_match : Map Text Rule
  pub auto_game : AutoGameConfig

-- The loop of `from_config`: a later rule for the same name replaces an earlier one.
unfoldable pub add_rules : Map Text Rule → List Rule → Map Text Rule
add_rules by_match [] = by_match
add_rules by_match (rule ∷ rules) = add_rules (insert rule.match_name rule by_match) rules

unfoldable pub from_config : AppConfig → RuleSet
unfolding add_rules
from_config cfg = record {
  by_match = add_rules [] (values cfg.rules);
  auto_game = unwrap_or cfg.auto_game auto_game_default;
}

unfoldable pub has_rule : RuleSet → Text → Bool
has_rule set process_name = contains_key process_name set.by_match

-- `RuleSet::rules`
unfoldable pub rules : RuleSet → List Rule
rules set = values set.by_match

-- What an explicit rule asks for.
unfoldable pub rule_target : Rule → ApplyTarget
rule_target rule =
    let base = preset (unwrap_or rule.tier Tier.software) in
    record {
      tier = some (unwrap_or rule.tier Tier.software);
      nice = unwrap_or rule.nice base.nice;
      ionice_class = unwrap_or rule.ionice_class base.ionice_class;
      ionice_priority = unwrap_or rule.ionice_priority base.ionice_priority;
      rule = some rule.name;
      cgroup = rule.cgroup;
    }

-- The `auto_game_default` preset, as `resolve` and the poll loop apply it.
unfoldable pub auto_target : AutoGameConfig → ApplyTarget
auto_target auto_game =
    let p = auto_preset auto_game in
    record {
      tier = some (unwrap_or auto_game.tier Tier.game);
      nice = p.nice;
      ionice_class = p.ionice_class;
      ionice_priority = p.ionice_priority;
      rule = none;
      cgroup = none;
    }

abbrev is_waiting : Option ℕ → ℕ → Bool
is_waiting none age = false
is_waiting (some delay) age = ltb age delay

unfoldable pub resolve : RuleSet → Text → GameFlags → ℕ → Resolved
resolve set process_name flags age_secs = elim (get process_name set.by_match) [
  | some rule ↦ if is_waiting rule.delay age_secs then untouched else apply (rule_target rule)
  | none ↦ if is_game flags then apply (auto_target set.auto_game) else untouched
]
