-- ===== src/Config/Warnings.antt =====
-- `validate` of daemon/src/config.rs says nothing exactly of a configuration in range.
use nicewatch.Prelude.{
  ◌≤◌, ◌≡◌, ◌≢◌, ◌↔◌, refl, List, [], ◌∷◌, ◌++◌, Option, none, some, arith, All,
}
use nicewatch.Prelude.Int.{pos, negsuc, ◌≤ℤ◌}
use nicewatch.Prelude.Text.{Text, is_empty}
use nicewatch.Prelude.Maps.{Map, values}
use nicewatch.Config.{AppConfig, Rule, validate, validate_rule, validate_rules, cap_of, weight_of}

abbrev pub Within {ℓ} : {A : Type ℓ} → (A → Type 0) → Option A → Type 0
Within P none = Unit
Within P (some a) = P a

-- The ranges that the documentation of the fields states.
pub record IsInRange (r : Rule) : Type 0 where
  pub named : r.match_name ≢ []
  pub nice : Within (λ n. (negsuc 19 ≤ℤ n) × (n ≤ℤ pos 19)) r.nice
  pub priority : Within (λ p. p ≤ 7) r.ionice_priority
  pub weight : Within (λ w. (1 ≤ w) × (w ≤ 10000)) (weight_of r.cgroup)
  pub cap : Within (λ p. (1 ≤ p) × (p ≤ 3200)) (cap_of r.cgroup)

validate_rule-quiet : (key : Text) (r : Rule) → validate_rule key r ≡ [] → IsInRange r
unfolding validate_rule is_empty
validate_rule-quiet key r h = ground arith

quiet-validate_rule : (key : Text) (r : Rule) → IsInRange r → validate_rule key r ≡ []
unfolding validate_rule is_empty
quiet-validate_rule key r h = ground arith

append-eq-nil {ℓ} : {A : Type ℓ} (xs ys : List A) → xs ++ ys ≡ [] → (xs ≡ []) × (ys ≡ [])
append-eq-nil [] ys h = (refl, h)
append-eq-nil (x ∷ xs) ys h = cc

rules-quiet : (m : Map Text Rule) → validate_rules m ≡ [] → All IsInRange (values m)
unfolding validate_rules values
rules-quiet [] h = tt
rules-quiet ((key, r) ∷ m) h =
    let parts = append-eq-nil (validate_rule key r) (validate_rules m) h in
    (validate_rule-quiet key r parts.0, rules-quiet m parts.1)

quiet-rules : (m : Map Text Rule) → All IsInRange (values m) → validate_rules m ≡ []
unfolding validate_rules values
quiet-rules [] h = refl
quiet-rules ((key, r) ∷ m) h = rw (quiet-validate_rule key r h.0) (quiet-rules m h.1)

-- Validation is silent exactly when every rule has a match name and every value that it sets is in
-- its documented range.
pub validate_quiet_iff : (cfg : AppConfig) → (validate cfg ≡ []) ↔ All IsInRange (values cfg.rules)
unfolding validate
validate_quiet_iff cfg = (rules-quiet cfg.rules, quiet-rules cfg.rules)
