-- ===== src/Base/Sorting.antt =====
-- `ORDER BY` on a numeric column: rows with equal values stay in the order of insertion.
use Prim.Native.Nat.{ℕ, ◌<◌, ◌≤◌, max}
use mathlib.Core.Path.{◌≡◌, refl}
use mathlib.Core.List.{List, [], ◌∷◌, ◌++◌}
use mathlib.Core.Option.{Option, none, some}
use native.Mathlib.Omega.{arith}
use selfconnect_runtime.Base.Tests.{leb, ltb, if◌then◌else◌}
use selfconnect_runtime.Base.Lists.{get_last?}

module _ {ℓ} {A : Type ℓ} (key : A → ℕ) where
  unfoldable pub place : A → List A → List A
  place x [] = x ∷ []
  place x (y ∷ ys) = if leb (key x) (key y) then x ∷ y ∷ ys else y ∷ place x ys

  -- `ORDER BY key`
  unfoldable pub order_by : List A → List A
  unfolding place
  order_by [] = []
  order_by (x ∷ xs) = place x (order_by xs)

  -- `SELECT COALESCE(MAX(key), 0)`
  unfoldable pub max_key : List A → ℕ
  max_key [] = 0
  max_key (x ∷ xs) = max (key x) (max_key xs)

  -- `ORDER BY key DESC LIMIT 1`; among equal keys, which the table's UNIQUE constraint excludes,
  -- the last one inserted.
  unfoldable pub top_by : List A → Option A
  top_by [] = none
  top_by (x ∷ xs) = elim (top_by xs) [
    | none ↦ some x
    | some y ↦ if ltb (key y) (key x) then some x else some y
  ]

  pub top_by-append_greatest :
      (xs : List A) (x : A) → max_key xs < key x → top_by (xs ++ x ∷ []) ≡ some x
  unfolding top_by max_key
  top_by-append_greatest [] x h = refl
  top_by-append_greatest (y ∷ ys) x h = ground (arith, top_by-append_greatest ys x)

  get_last?-cons_place :
      (y x : A) (xs : List A) → get_last? (y ∷ place x xs) ≡ get_last? (place x xs)
  unfolding place
  get_last?-cons_place y x [] = refl
  get_last?-cons_place y x (w ∷ xs) = ground arith

  place-last_greater :
      (x z : A) (xs : List A)
      → key x < key z
      → get_last? xs ≡ some z
      → get_last? (place x xs) ≡ some z
  unfolding place
  place-last_greater x z [] h e = ground arith
  place-last_greater x z (y ∷ []) h e = ground arith
  place-last_greater x z (y ∷ w ∷ xs) h e =
      ground (arith, get_last?-cons_place y x (w ∷ xs), place-last_greater x z (w ∷ xs))

  pub get_last?-order_by_greatest :
      (xs : List A) (x : A) → max_key xs < key x → get_last? (order_by (xs ++ x ∷ [])) ≡ some x
  unfolding order_by max_key
  get_last?-order_by_greatest [] x h = refl
  get_last?-order_by_greatest (y ∷ ys) x h =
      place-last_greater y x (order_by (ys ++ x ∷ [])) (ground arith)
        (get_last?-order_by_greatest ys x (ground arith))

  -- Rows whose keys rise from `n` on.
  abbrev pub RisesFrom : ℕ → List A → Type 0
  RisesFrom n [] = Unit
  RisesFrom n (x ∷ xs) = (n ≤ key x) × RisesFrom (key x) xs

  place-RisesFrom : (x : A) (xs : List A) → RisesFrom (key x) xs → place x xs ≡ x ∷ xs
  unfolding place
  place-RisesFrom x [] h = refl
  place-RisesFrom x (y ∷ ys) h = ground arith

  -- Rows that are in order already stay as they are.
  pub order_by-RisesFrom : (n : ℕ) (xs : List A) → RisesFrom n xs → order_by xs ≡ xs
  unfolding order_by
  order_by-RisesFrom n [] h = refl
  order_by-RisesFrom n (x ∷ xs) h =
      ground (arith, order_by-RisesFrom (key x) xs, place-RisesFrom x xs)
