-- ===== src/Rules/Lookup.antt =====
-- Which of a configuration's rules a process gets (`RuleSet::from_config`, daemon/src/rules.rs).
use nicewatch.Prelude.{
  ◌≡◌, refl, ◌∙◌, List, [], ◌∷◌, Option, none, some, arith, if◌then◌else◌, ◌==◌,
}
use nicewatch.Prelude.Text.{Text, text_eq}
use nicewatch.Prelude.Maps.{Map, get, insert, values, get-insert}
use nicewatch.Config.{AppConfig, Rule}
use nicewatch.Rules.{add_rules, from_config}

abbrev later_or : Option Rule → Option Rule → Option Rule
later_or none r = r
later_or (some later) r = some later

-- The last rule of the list that matches the name.
unfoldable pub last_match : Text → List Rule → Option Rule
last_match name [] = none
last_match name (r ∷ rs) =
    later_or (last_match name rs) (if r.match_name == name then some r else none)

get-add_rules :
    (name : Text) (m : Map Text Rule) (rs : List Rule)
    → get name (add_rules m rs) ≡ later_or (last_match name rs) (get name m)
unfolding add_rules last_match
get-add_rules name m [] = refl
get-add_rules name m (r ∷ rs) =
    ground
      (arith, get-add_rules name (insert r.match_name r m) rs, get-insert r.match_name name r m)

or_nothing : (r : Option Rule) → later_or r none ≡ r
or_nothing none = refl
or_nothing (some r) = refl

-- The rule in force for a process name is the last rule, in the order of the rules' keys, whose
-- `match` is exactly that name; and there is none if no rule matches.
pub from_config-last :
    (cfg : AppConfig) (name : Text)
    → get name (from_config cfg).by_match ≡ last_match name (values cfg.rules)
unfolding from_config
from_config-last cfg name =
    get-add_rules name [] (values cfg.rules)
    ∙ unfold get in or_nothing (last_match name (values cfg.rules))
