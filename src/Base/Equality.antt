-- ===== src/Base/Equality.antt =====
-- Python's `==` and `in` for the types whose equality is decided, and `&`, `-` and `<=` of sets.
-- A `frozenset` is a list that is read through `contains` only.
use Prim.Native.String.{String}
use mathlib.Core.Path.{◌≡◌, refl}
use mathlib.Core.Logic.{ite, dite}
use mathlib.Core.Bool.{Bool, true, false, not, ◌&&◌, ◌||◌, Bool-discrete}
use mathlib.Core.List.{List, [], ◌∷◌}
use native.Mathlib.Omega.{arith}
use text.Mathlib.Text
use text.Mathlib.TextEquality.{eq_iff}
use selfconnect_runtime.Base.Tests.{if◌then◌else◌}

pub record Eq {ℓ} (A : Type ℓ) : Type ℓ where
  pub dec : Discrete A

-- Shut in proofs, where a split on `s == t` gives the equation or its negation.
instance unfoldable pub string_eq : Eq String
string_eq = record {
  dec = λ s t.
      dite (Bool-discrete (Text.◌==◌ s t) true) (λ same. yes ((eq_iff s t).0 same))
        (λ differ. no (λ p. differ ((eq_iff s t).1 p)));
}

module _ {ℓ} {A : Type ℓ} ⦃e : Eq A⦄ where
  infix 50 ◌==◌
  abbrev pub ◌==◌ : A → A → Bool
  a == b = ite (e.dec a b) true false

  -- `x in s`
  abbrev pub contains : List A → A → Bool
  contains [] a = false
  contains (x ∷ xs) a = a == x || contains xs a

  -- `s & t`
  unfoldable pub intersect : List A → List A → List A
  intersect [] t = []
  intersect (x ∷ s) t = let rest = intersect s t in if contains t x then x ∷ rest else rest

  -- `s - t`
  unfoldable pub difference : List A → List A → List A
  difference [] t = []
  difference (x ∷ s) t = let rest = difference s t in if contains t x then rest else x ∷ rest

  pub ==_refl : (a : A) → (a == a) ≡ true
  ==_refl a = ground arith

  pub contains-intersect :
      (s t : List A) (a : A) → contains (intersect s t) a ≡ (contains s a && contains t a)
  unfolding intersect
  contains-intersect [] t a = refl
  contains-intersect (x ∷ s) t a = ground (arith, contains-intersect s t a)

  pub contains-difference :
      (s t : List A) (a : A) → contains (difference s t) a ≡ (contains s a && not (contains t a))
  unfolding difference
  contains-difference [] t a = refl
  contains-difference (x ∷ s) t a = ground (arith, contains-difference s t a)

  -- Nothing is left of `s - t` exactly when `t` has all of `s`.
  pub difference-nil_contains :
      (s t : List A) (a : A) → difference s t ≡ [] → contains s a ≡ true → contains t a ≡ true
  difference-nil_contains s t a h m = ground (arith, contains-difference s t a)
