-- ===== src/Rules/Precedence.antt =====
-- The precedence of rules, heuristic and default (`RuleSet::resolve`, daemon/src/rules.rs).
use nicewatch.Prelude.{
  ℕ, ◌≤◌, ◌≡◌, ◌↔◌, ◌⊎◌, refl, true, false, Option, none, some, arith, Option-cases, inl, inr,
}
use mathlib.Core.Path.{subst, ◌∙◌}
use mathlib.Core.Logic.{◌≢◌}
use nicewatch.Prelude.Text.{Text, text_eq}
use nicewatch.Prelude.Maps.{get, values}
use nicewatch.Config.{AppConfig, Rule}
use nicewatch.Detect.{GameFlags, is_game}
use nicewatch.Rules.Lookup.{last_match, from_config-last}
use nicewatch.Rules.{
  RuleSet, untouched, apply, ApplyTarget, resolve, is_waiting, from_config, rule_target,
}

-- A rule's delay has passed: it has none, or the process is at least that old.
abbrev pub HasWaited : Option ℕ → ℕ → Type 0
HasWaited none age = Unit
HasWaited (some delay) age = delay ≤ age

delay_cases :
    (delay : Option ℕ) (age : ℕ)
    → (HasWaited delay age × (is_waiting delay age ≡ false))
      ⊎ ((¬ HasWaited delay age) × (is_waiting delay age ≡ true))
delay_cases none age = inl (tt, refl)
delay_cases (some d) age = ground arith

-- A process with an explicit rule whose delay has passed gets the rule's target, and one whose
-- rule still waits is left alone, whatever the heuristic says of it.
pub resolve_explicit :
    (set : RuleSet) (name : Text) (flags : GameFlags) (age : ℕ) (rule : Rule)
    → get name set.by_match ≡ some rule
    → (HasWaited rule.delay age × (resolve set name flags age ≡ apply (rule_target rule)))
      ⊎ ((¬ HasWaited rule.delay age) × (resolve set name flags age ≡ untouched))
unfolding resolve
resolve_explicit set name flags age rule h = elim (delay_cases rule.delay age) [
  | inl (waited, e) ↦ inl (waited, rw (h, resolve, e))
  | inr (waits, e) ↦ inr (waits, rw (h, resolve, e))
]

same_rule : {o : Option Rule} {r s : Rule} → o ≡ some r → o ≡ some s → r ≡ s
same_rule h k = cc

some_clash : {o : Option Rule} {r : Rule} → o ≡ none → o ≡ some r → ⊥
some_clash h k = cc

apply_touches : (t : ApplyTarget) → apply t ≢ untouched
apply_touches t h = cc

explicit_untouched :
    (set : RuleSet) (name : Text) (flags : GameFlags) (age : ℕ) (rule : Rule)
    → get name set.by_match ≡ some rule
    → (resolve set name flags age ≡ untouched) ↔ (¬ HasWaited rule.delay age)
unfolding resolve
explicit_untouched set name flags age rule h = elim (delay_cases rule.delay age) [
  | inl (waited, e) ↦ (rw (h, resolve, e) (λ t. absurd (apply_touches _ t)), λ w. absurd (w waited))
  | inr (waits, e) ↦ (λ _. waits, λ _. rw (h, resolve, e))
]

default_untouched :
    (set : RuleSet) (name : Text) (flags : GameFlags) (age : ℕ)
    → get name set.by_match ≡ none
    → (resolve set name flags age ≡ untouched) ↔ (is_game flags ≡ false)
unfolding resolve
default_untouched set name flags age h = rw (h, resolve) (ground arith)

-- The rules of a configuration resolve a process to "untouched", before the daemon's own exclusions
-- and its clients' answers, exactly if no rule matches its name and the heuristic does not flag it,
-- or the last rule that matches its name still waits for its delay.
pub resolve_untouched_iff :
    (cfg : AppConfig) (name : Text) (flags : GameFlags) (age : ℕ)
    → (resolve (from_config cfg) name flags age ≡ untouched) ↔ (
        ((last_match name (values cfg.rules) ≡ none) × (is_game flags ≡ false))
        ⊎ ((r : Rule) × (last_match name (values cfg.rules) ≡ some r) × (¬ HasWaited r.delay age)))
resolve_untouched_iff cfg name flags age =
    elim (Option-cases (last_match name (values cfg.rules))) [
      | inl e ↦
          let iff =
            default_untouched (from_config cfg) name flags age (from_config-last cfg name ∙ e) in
          (
            λ u. inl (e, iff.0 u),
            λ s. elim s [ inl p ↦ iff.1 p.1 | inr (r, q, w) ↦ absurd (some_clash e q) ],
          )
      | inr (rule, e) ↦
          let iff =
            explicit_untouched (from_config cfg) name flags age rule
              (from_config-last cfg name ∙ e) in
          (
            λ u. inr (rule, e, iff.0 u),
            λ s. elim s [
              | inl p ↦ absurd (some_clash p.0 e)
              | inr (r, q, w) ↦ iff.1 (subst (λ x. ¬ HasWaited x.delay age) (same_rule q e) w)
            ],
          )
    ]
