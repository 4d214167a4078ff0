-- ===== src/Applier/Limits.antt =====
-- Limit values and directory names (daemon/src/applier.rs).
use nicewatch.Prelude.{
  ℕ, suc, ◌*◌, ◌≤◌, ◌≡◌, inl, inr, Bool-cases, refl, ap, true, [], ◌∷◌, arith, all, length, not,
  eqb,
}
use nicewatch.Prelude.Text.{Text}
use nicewatch.Applier.{quota, sanitize_dir, is_safe_char, safe_char}

-- The quota of a cap is between 1% of one core and 32 cores, is that many percent of the period
-- for a cap in the documented range, and does not fall when the cap rises.
pub quota_bounds : (p q : ℕ) → p ≤ q → (1000 ≤ quota p) × (quota p ≤ 3200000) × (quota p ≤ quota q)
unfolding quota
quota_bounds p q h = omega arith

pub quota_exact : (p : ℕ) → 1 ≤ p → p ≤ 3200 → quota p ≡ p * 1000
unfolding quota
quota_exact p lo hi = omega arith

safe_char-safe : (c : ℕ) → is_safe_char (safe_char c) ≡ true
unfolding safe_char
safe_char-safe c = elim (Bool-cases (is_safe_char c)) [
  | inl safe ↦ rw (safe, safe)
  | inr unsafe ↦ rw unsafe (unfold is_safe_char in refl)
]

safe_char_idem : (c : ℕ) → safe_char (safe_char c) ≡ safe_char c
unfolding safe_char
safe_char_idem c = rw (safe_char-safe c)

not_slash : (c : ℕ) → is_safe_char c ≡ true → not (eqb c b'/') ≡ true
unfolding is_safe_char
not_slash c h = ground arith

-- A managed directory's name keeps the length of the rule's key and holds letters, digits, `-`,
-- `_` and `.` alone, so no separator; a name made so is not changed again.
pub sanitize_dir_safe :
    (key : Text)
    → (length (sanitize_dir key) ≡ length key)
      × (all is_safe_char (sanitize_dir key) ≡ true)
      × (all (λ c. not (eqb c b'/')) (sanitize_dir key) ≡ true)
      × (sanitize_dir (sanitize_dir key) ≡ sanitize_dir key)
unfolding sanitize_dir all
sanitize_dir_safe [] = (refl, refl, refl, refl)
sanitize_dir_safe (c ∷ s) =
    let ih = sanitize_dir_safe s in
    (
      ap suc ih.0,
      rw (safe_char-safe c) ih.1,
      rw (not_slash (safe_char c) (safe_char-safe c)) ih.2,
      cc (safe_char_idem c, ih.3),
    )
