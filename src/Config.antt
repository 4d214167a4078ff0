-- ===== src/Config.antt =====
-- common/src/lib.rs: the rule schema, and daemon/src/config.rs: validation.
pub mod Warnings
use nicewatch.Prelude.{
  ℕ, ◌≡◌, ◌↔◌, Bool, true, false, ◌&&◌, ◌||◌, not, List, [], ◌∷◌, ◌++◌, Option, none, some, arith,
  Eq, ◌==◌, if◌then◌else◌, ltb, leb,
}
use nicewatch.Prelude.Int.{ℤ, pos, negsuc, ltb_ℤ, eqb_ℤ}
use nicewatch.Prelude.Text.{text_eq, Text, codes, is_empty, text_lt}
use nicewatch.Prelude.Maps.{Map, get, insert_sorted}
use nicewatch.Priority.{Tier, IoniceClass, Preset, preset}

pub record CgroupLimits : Type 0 where
  pub path : Option Text
  pub cpu_weight : Option ℕ
  pub cpu_cap_percent : Option ℕ
  pub memory_high : Option Text
  pub memory_max : Option Text
  pub cpu_idle : Option Bool

pub record Rule : Type 0 where
  pub name : Text
  pub match_name : Text
  pub tier : Option Tier
  pub nice : Option ℤ
  pub ionice_class : Option IoniceClass
  pub ionice_priority : Option ℕ
  pub delay : Option ℕ
  pub cgroup : Option CgroupLimits

-- `Rule::from_preset`
unfoldable pub from_preset : Text → Tier → Rule
from_preset process_name tier =
    let p = preset tier in
    record {
      name = process_name;
      match_name = process_name;
      tier = some tier;
      nice = some p.nice;
      ionice_class = some p.ionice_class;
      ionice_priority = some p.ionice_priority;
      delay = none;
      cgroup = none;
    }

pub record AutoGameConfig : Type 0 where
  pub tier : Option Tier
  pub nice : Option ℤ
  pub ionice_class : Option IoniceClass
  pub ionice_priority : Option ℕ

-- The derived `Default`.
abbrev pub auto_game_default : AutoGameConfig
auto_game_default = record { tier = none; nice = none; ionice_class = none; ionice_priority = none }

-- `Option::unwrap_or`
abbrev pub unwrap_or {ℓ} : {A : Type ℓ} → Option A → A → A
unwrap_or none d = d
unwrap_or (some a) d = a

-- `AutoGameConfig::preset`
unfoldable pub auto_preset : AutoGameConfig → Preset
auto_preset a =
    let base = preset (unwrap_or a.tier Tier.game) in
    record {
      nice = unwrap_or a.nice base.nice;
      ionice_class = unwrap_or a.ionice_class base.ionice_class;
      ionice_priority = unwrap_or a.ionice_priority base.ionice_priority;
    }

-- The rules are a `BTreeMap`, whose order of iteration is that of the keys.
pub record AppConfig : Type 0 where
  pub poll_interval_ms : Option ℕ
  pub rules : Map Text Rule
  pub auto_game : Option AutoGameConfig

abbrev pub default_config : AppConfig
default_config = record { poll_interval_ms = none; rules = []; auto_game = none }

-- `BTreeMap::insert` on the rules.
unfoldable pub put_rule : Text → Rule → Map Text Rule → Map Text Rule
put_rule key rule m = insert_sorted text_lt key rule m

unfoldable pub named_after_keys : Map Text Rule → Map Text Rule
named_after_keys [] = []
named_after_keys ((key, rule) ∷ m) = (key, record rule { name = key }) ∷ named_after_keys m

-- `AppConfig::fill_rule_names`
unfoldable pub fill_rule_names : AppConfig → AppConfig
unfolding named_after_keys
fill_rule_names cfg = record cfg { rules = named_after_keys cfg.rules }

-- The warnings of `validate`, without their prose.
pub data Complaint : Type 0 where
  empty_match : Text → Complaint
  nice_range : Text → ℤ → Complaint
  priority_range : Text → ℕ → Complaint
  weight_range : Text → ℕ → Complaint
  cap_range : Text → ℕ → Complaint

abbrev weight_of : Option CgroupLimits → Option ℕ
weight_of none = none
weight_of (some c) = c.cpu_weight

abbrev pub cap_of : Option CgroupLimits → Option ℕ
cap_of none = none
cap_of (some c) = c.cpu_cap_percent

abbrev complain_if : Bool → Complaint → List Complaint
complain_if true c = c ∷ []
complain_if false c = []

abbrev check {ℓ} : {A : Type ℓ} → Option A → (A → List Complaint) → List Complaint
check none f = []
check (some a) f = f a

abbrev out_of : ℕ → ℕ → ℕ → Bool
out_of lo hi v = ltb v lo || ltb hi v

-- The body of the loop of `validate`.
unfoldable pub validate_rule : Text → Rule → List Complaint
validate_rule key rule =
    complain_if (is_empty rule.match_name) (empty_match key)
    ++ (check rule.nice
          (λ n. complain_if (ltb_ℤ n (negsuc 19) || ltb_ℤ (pos 19) n) (nice_range key n))
        ++ (check rule.ionice_priority (λ p. complain_if (ltb 7 p) (priority_range key p))
            ++ (check (weight_of rule.cgroup)
                  (λ w. complain_if (out_of 1 10000 w) (weight_range key w))
                ++ check (cap_of rule.cgroup)
                    (λ p. complain_if (out_of 1 3200 p) (cap_range key p)))))

unfoldable pub validate_rules : Map Text Rule → List Complaint
validate_rules [] = []
validate_rules ((key, rule) ∷ m) = validate_rule key rule ++ validate_rules m

unfoldable pub validate : AppConfig → List Complaint
unfolding validate_rules
validate cfg = validate_rules cfg.rules

-- `config::parse` over the `toml` crate's parser: the warnings are logged, and the values are kept.
unfoldable pub parse : (Text → Option AppConfig) → Text → Option (AppConfig × List Complaint)
parse from_str input = elim (from_str input) [
  | none ↦ none
  | some read ↦ let cfg = fill_rule_names read in some (cfg, validate cfg)
]
