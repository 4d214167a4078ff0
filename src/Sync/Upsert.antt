-- ===== src/Sync/Upsert.antt =====
-- What the edits of a rule in daemon/src/sync.rs make of the configuration in force.
use nicewatch.Prelude.{
  ℕ, ◌≡◌, ◌↔◌, refl, ◌∙◌, true, false, [], ◌∷◌, Option, none, some, arith, if◌then◌else◌, ◌==◌,
  eq_iff, eq_refl, All,
}
use mathlib.Core.Path.{subst}
use nicewatch.Prelude.Text.{Text, text_eq, text_lt}
use nicewatch.Prelude.Maps.{Map, get, values, insert_sorted, get-insert, get-insert_sorted}
use nicewatch.Priority.{Tier}
use nicewatch.Config.{Rule, CgroupLimits, from_preset, put_rule, cap_of, unwrap_or}
use nicewatch.Rules.{from_config}
use nicewatch.Rules.Lookup.{last_match, from_config-last}
use nicewatch.Sync.Disk.{Host}
use nicewatch.Sync.Edit.{
  preset_rule, cgroup_of, upsert_preset_rule, upsert_cap_rule, cap_rules, capped, is_blank,
}
use nicewatch.Sync.{Sync}
use nicewatch.Sync.Writing.{schedule_local_write}

lt_irrefl : (t : Text) → text_lt t t ≡ false
unfolding text_lt
lt_irrefl [] = refl
lt_irrefl (a ∷ t) = ground (arith, lt_irrefl t)

lt_trans : (a b c : Text) → text_lt a b ≡ true → text_lt b c ≡ true → text_lt a c ≡ true
unfolding text_lt
lt_trans [] [] c h k = cc
lt_trans [] (y ∷ b) [] h k = cc
lt_trans [] (y ∷ b) (z ∷ c) h k = refl
lt_trans (x ∷ a) [] c h k = cc
lt_trans (x ∷ a) (y ∷ b) [] h k = cc
lt_trans (x ∷ a) (y ∷ b) (z ∷ c) h k = ground (arith, lt_trans a b c)

-- Every key is above the text.
abbrev Above : Text → Map Text Rule → Type 0
Above t m = All (λ (e : Text × Rule). text_lt t e.0 ≡ true) m

-- The order of a `BTreeMap`.
unfoldable pub IsSorted : Map Text Rule → Type 0
IsSorted [] = Unit
IsSorted ((key, rule) ∷ m) = Above key m × IsSorted m

-- No rule under another key matches the name.
unfoldable pub IsOnly : Text → Map Text Rule → Type 0
IsOnly name [] = Unit
IsOnly name ((key, rule) ∷ m) = (rule.match_name ≡ name → key ≡ name) × IsOnly name m

no_match-Above :
    (name : Text) (m : Map Text Rule)
    → Above name m
    → IsOnly name m
    → last_match name (values m) ≡ none
unfolding last_match values IsOnly
no_match-Above name [] a o = refl
no_match-Above name ((key, rule) ∷ m) (k, a) (f, o) =
    ground (arith, no_match-Above name m a o, lt_irrefl name, eq_iff rule.match_name name, f)

Above-mono :
    (name key : Text) (m : Map Text Rule) → text_lt name key ≡ true → Above key m → Above name m
Above-mono name key [] h a = tt
Above-mono name key ((k, rule) ∷ m) h (b, a) = (lt_trans name key k h b, Above-mono name key m h a)

match-insert_sorted :
    (name : Text) (r : Rule) (m : Map Text Rule)
    → r.match_name ≡ name
    → IsSorted m
    → IsOnly name m
    → last_match name (values (insert_sorted text_lt name r m)) ≡ some r
unfolding last_match values insert_sorted IsSorted IsOnly
match-insert_sorted name r [] e s o = ground (arith, eq_iff r.match_name name)
match-insert_sorted name r ((key, rule) ∷ m) e (a, s) (f, o) =
    let same = λ (k : key ≡ name). no_match-Above name m (subst (λ t. Above t m) k a) o in
    let below =
      λ (k : text_lt name key ≡ true). no_match-Above name m (Above-mono name key m k a) o in
    ground (
      arith,
      match-insert_sorted name r m e s o,
      same,
      below,
      lt_irrefl name,
      eq_iff key name,
      eq_iff r.match_name name,
      eq_iff rule.match_name name,
      f,
    )

-- A tier that a client sets for a process name is what the rules in force say of that name, with
-- the cap and the other cgroup limits of the rule it replaces, where the rules are in the order of
-- their keys and no rule under another key matches the name; every other rule is as it was, and the
-- change is due to be written.
pub set_tier_in_force :
    (h : Host) (name : Text) (tier : Tier) (s : Sync) (other : Text)
    → IsSorted s.active.rules
    → IsOnly name s.active.rules
    → (get name (from_config (upsert_preset_rule h name tier s).active).by_match
        ≡ some (record (from_preset name tier) { cgroup = cgroup_of (get name s.active.rules) }))
      × (get other (upsert_preset_rule h name tier s).active.rules ≡ (
          if name == other
          then some
              (record (from_preset name tier) { cgroup = cgroup_of (get name s.active.rules) })
          else get other s.active.rules))
      × ((upsert_preset_rule h name tier s).pending_local_write ≡ true)
unfolding upsert_preset_rule put_rule from_preset preset_rule schedule_local_write
set_tier_in_force h name tier s other sorted only =
    let r = preset_rule name tier (get name s.active.rules) in
    (
      from_config-last (upsert_preset_rule h name tier s).active name
          ∙ match-insert_sorted name r s.active.rules refl sorted only,
      get-insert_sorted text_lt name other r s.active.rules,
      refl,
    )

-- The rule that a cap is set in.
abbrev pub cap_base : Text → Option Rule → Rule
cap_base name existing = unwrap_or existing (from_preset name Tier.software)

cap_rules-get :
    (name : Text) (pct : Option ℕ) (existing : Option Rule) (rules : Map Text Rule) (other : Text)
    → get other (cap_rules name pct existing rules) ≡ (
        if name == other
        then some (record (cap_base name existing) { cgroup = capped (cgroup_of existing) pct })
        else get other rules)
unfolding cap_rules put_rule
cap_rules-get name pct none rules other = get-insert_sorted text_lt name other _ rules
cap_rules-get name pct (some r) rules other = get-insert name other _ rules

cap-capped : (cg : Option CgroupLimits) (pct : Option ℕ) → cap_of (capped cg pct) ≡ pct
unfolding capped
cap-capped none none = refl
cap-capped none (some p) = refl
cap-capped (some cg) (some p) = refl
cap-capped (some cg) none = ground arith

-- Setting or removing a cap changes the rule under that name only, makes one of the software tier
-- if there was none, gives it exactly that cap and leaves all its fields but the cgroup limits; the
-- change is due to be written.
pub cap_set :
    (h : Host) (name : Text) (pct : Option ℕ) (s : Sync) (other : Text)
    → (rule : Rule) × (cap_of rule.cgroup ≡ pct)
      × (rule ≡ record (cap_base name (get name s.active.rules)) { cgroup = rule.cgroup })
      × (get other (upsert_cap_rule h name pct s).active.rules
          ≡ (if name == other then some rule else get other s.active.rules))
      × ((upsert_cap_rule h name pct s).pending_local_write ≡ true)
unfolding upsert_cap_rule schedule_local_write
cap_set h name pct s other =
    let existing = get name s.active.rules in
    (
      record (cap_base name existing) { cgroup = capped (cgroup_of existing) pct },
      cap-capped (cgroup_of existing) pct,
      refl,
      cap_rules-get name pct existing s.active.rules other,
      refl,
    )

uncapped_iff :
    (cg : CgroupLimits)
    → (capped (some cg) none ≡ none) ↔ (
        (cg.path ≡ none)
        × (cg.cpu_weight ≡ none)
        × (cg.memory_high ≡ none)
        × (cg.memory_max ≡ none))
unfolding capped is_blank
uncapped_iff cg = ground arith

-- Removing the cap of a rule drops all its cgroup limits exactly if it has no path, weight and
-- memory limits, whatever it says of the idle scheduling class.
pub uncap_drops_iff :
    (h : Host) (name : Text) (s : Sync) {rule : Rule} {cg : CgroupLimits}
    → get name s.active.rules ≡ some rule
    → rule.cgroup ≡ some cg
    → (cgroup_of (get name (upsert_cap_rule h name none s).active.rules) ≡ none) ↔ (
        (cg.path ≡ none)
        × (cg.cpu_weight ≡ none)
        × (cg.memory_high ≡ none)
        × (cg.memory_max ≡ none))
unfolding upsert_cap_rule schedule_local_write
uncap_drops_iff h name s {rule} {cg} e c =
    let g = cap_rules-get name none (get name s.active.rules) s.active.rules name in
    rw (g, eq_refl name, e, c) (uncapped_iff cg)
