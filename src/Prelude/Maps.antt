-- ===== src/Prelude/Maps.antt =====
-- Maps as association lists: `HashMap` (an order of no meaning) and `BTreeMap` (sorted by key).
use mathlib.Core.Path.{◌≡◌, refl}
use mathlib.Core.Bool.{Bool, true, false}
use mathlib.Core.List.{List, [], ◌∷◌}
use mathlib.Core.Option.{Option, none, some}
use native.Mathlib.Omega.{arith}
use nicewatch.Prelude.Tests.{Eq, ◌==◌, eq_iff, if◌then◌else◌}

abbrev pub Map {ℓ κ} : Type ℓ → Type κ → Type (ℓ ⊔ κ)
Map K V = List (K × V)

abbrev pub is_some {ℓ} : {V : Type ℓ} → Option V → Bool
is_some none = false
is_some (some v) = true

module _ {ℓ κ} {K : Type ℓ} {V : Type κ} where
  unfoldable pub keys : Map K V → List K
  keys [] = []
  keys ((k, v) ∷ m) = k ∷ keys m

  unfoldable pub values : Map K V → List V
  values [] = []
  values ((k, v) ∷ m) = v ∷ values m

module _ {ℓ κ} {K : Type ℓ} {V : Type κ} ⦃e : Eq K⦄ where
  unfoldable pub get : K → Map K V → Option V
  get k [] = none
  get k ((j, v) ∷ m) = let rest = get k m in if j == k then some v else rest

  unfoldable pub contains_key : K → Map K V → Bool
  contains_key k m = is_some (get k m)

  -- Overwrites in place, or adds at the end.
  unfoldable pub insert : K → V → Map K V → Map K V
  insert k v [] = (k, v) ∷ []
  insert k v ((j, w) ∷ m) = let rest = insert k v m in if j == k then (k, v) ∷ m else (j, w) ∷ rest

  unfoldable pub remove : K → Map K V → Map K V
  remove k [] = []
  remove k ((j, w) ∷ m) = let rest = remove k m in if j == k then rest else (j, w) ∷ rest

  -- The insertion of a sorted map, for any test of order.
  unfoldable pub insert_sorted : (K → K → Bool) → K → V → Map K V → Map K V
  insert_sorted lt k v [] = (k, v) ∷ []
  insert_sorted lt k v ((j, w) ∷ m) =
      let rest = insert_sorted lt k v m in
      if j == k then (k, v) ∷ m else if lt k j then (k, v) ∷ (j, w) ∷ m else (j, w) ∷ rest

  pub get-insert :
      (k j : K) (v : V) (m : Map K V) → get j (insert k v m) ≡ (if k == j then some v else get j m)
  unfolding get insert
  get-insert k j v [] = refl
  get-insert k j v ((i, w) ∷ m) =
      ground (arith, get-insert k j v m, eq_iff i j, eq_iff i k, eq_iff k j)

  pub get-insert_sorted :
      (lt : K → K → Bool) (k j : K) (v : V) (m : Map K V)
      → get j (insert_sorted lt k v m) ≡ (if k == j then some v else get j m)
  unfolding get insert_sorted
  get-insert_sorted lt k j v [] = refl
  get-insert_sorted lt k j v ((i, w) ∷ m) =
      ground (arith, eq_iff k j, eq_iff i k, eq_iff i j, get-insert_sorted lt k j v m)

  pub get-remove : (k j : K) (m : Map K V) → get j (remove k m) ≡ (if k == j then none else get j m)
  unfolding get remove
  get-remove k j [] = ground arith
  get-remove k j ((i, w) ∷ m) = ground (arith, eq_iff k j, eq_iff i k, eq_iff i j, get-remove k j m)

pub ruleset map_laws = (get-insert, get-insert_sorted, get-remove)
