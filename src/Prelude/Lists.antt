-- ===== src/Prelude/Lists.antt =====
-- Lists measured by native numbers, membership tests, and predicates over lists.
use Prim.Native.Nat.{ℕ, zero, suc, ◌+◌}
use mathlib.Core.Path.{◌≡◌, refl}
use mathlib.Core.Logic.{inl, inr}
use mathlib.Core.Bool.{Bool, true, false, ◌&&◌, ◌||◌}
use mathlib.Core.List.{List, [], ◌∷◌, ◌++◌}
use mathlib.Core.Option.{Option, none, some}
use native.Mathlib.Omega.{arith}
use nicewatch.Prelude.Tests.{Eq, ◌==◌, eq_iff, eq_refl, if◌then◌else◌, Bool-cases}

module _ {ℓ} {A : Type ℓ} where
  abbrev pub length : List A → ℕ
  length [] = 0
  length (x ∷ xs) = suc (length xs)

  abbrev pub get_elem? : List A → ℕ → Option A
  get_elem? [] i = none
  get_elem? (x ∷ xs) zero = some x
  get_elem? (x ∷ xs) (suc i) = get_elem? xs i

  -- Rust's `iter().all`, `iter().any` and `retain`.
  unfoldable pub all : (A → Bool) → List A → Bool
  all p [] = true
  all p (x ∷ xs) = p x && all p xs

  unfoldable pub any : (A → Bool) → List A → Bool
  any p [] = false
  any p (x ∷ xs) = p x || any p xs

  unfoldable pub retain : (A → Bool) → List A → List A
  retain p [] = []
  retain p (x ∷ xs) = let rest = retain p xs in if p x then x ∷ rest else rest

  unfoldable pub find : (A → Bool) → List A → Option A
  find p [] = none
  find p (x ∷ xs) = let rest = find p xs in if p x then some x else rest

  pub length-append : (xs ys : List A) → length (xs ++ ys) ≡ length xs + length ys
  length-append [] ys = omega arith
  length-append (x ∷ xs) ys = omega (arith, length-append xs ys)

  abbrev pub All {κ} : (A → Type κ) → List A → Type κ
  All P [] = Unit
  All P (x ∷ xs) = P x × All P xs

  pub any-append : (p : A → Bool) (xs ys : List A) → any p (xs ++ ys) ≡ (any p xs || any p ys)
  unfolding any
  any-append p [] ys = refl
  any-append p (x ∷ xs) ys = ground (arith, any-append p xs ys)

  pub all-append : (p : A → Bool) (xs ys : List A) → all p (xs ++ ys) ≡ (all p xs && all p ys)
  unfolding all
  all-append p [] ys = refl
  all-append p (x ∷ xs) ys = ground (arith, all-append p xs ys)

  pub all_mono :
      (p q : A → Bool) (xs : List A)
      → ((x : A) → p x ≡ true → q x ≡ true)
      → all p xs ≡ true
      → all q xs ≡ true
  unfolding all
  all_mono p q [] imp h = refl
  all_mono p q (x ∷ xs) imp h = ground (arith, imp x, all_mono p q xs imp)

  pub all-retain : (p : A → Bool) (xs : List A) → all p (retain p xs) ≡ true
  unfolding all retain
  all-retain p [] = refl
  all-retain p (x ∷ xs) = ground (arith, all-retain p xs)

  -- What is kept satisfied any test that held throughout.
  pub all-retain_keep :
      (p q : A → Bool) (xs : List A) → all q xs ≡ true → all q (retain p xs) ≡ true
  unfolding all retain
  all-retain_keep p q [] h = refl
  all-retain_keep p q (x ∷ xs) h = ground (arith, all-retain_keep p q xs)

-- A set as a list with a membership test: `HashSet`.
module _ {ℓ} {A : Type ℓ} ⦃e : Eq A⦄ where
  unfoldable pub contains : List A → A → Bool
  contains [] a = false
  contains (x ∷ xs) a = x == a || contains xs a

  unfoldable pub insert_new : A → List A → List A
  insert_new a xs = if contains xs a then xs else a ∷ xs

  unfoldable pub discard : A → List A → List A
  discard a [] = []
  discard a (x ∷ xs) = let rest = discard a xs in if x == a then rest else x ∷ rest

  pub contains-insert_new :
      (a b : A) (xs : List A) → contains (insert_new a xs) b ≡ (a == b || contains xs b)
  unfolding insert_new contains
  contains-insert_new a b xs = elim (Bool-cases (a == b)) [
    | inl same ↦
        let p : a ≡ b = (eq_iff a b).0 same in
        rw (same, ← p)
          (elim (Bool-cases (contains xs a)) [
            | inl old ↦ rw old old
            | inr new ↦ rw (new, eq_refl a)
          ])
    | inr other ↦ ground arith
  ]

  pub contains-discard_self : (a : A) (xs : List A) → contains (discard a xs) a ≡ false
  unfolding discard contains
  contains-discard_self a [] = refl
  contains-discard_self a (x ∷ xs) = ground (arith, contains-discard_self a xs)

  pub contains-discard :
      (a b : A) (xs : List A)
      → contains (discard a xs) b ≡ (if a == b then false else contains xs b)
  unfolding discard contains
  contains-discard a b [] = ground arith
  contains-discard a b (x ∷ xs) =
      ground (arith, contains-discard a b xs, eq_iff x a, eq_iff x b, eq_iff a b)
