-- ===== src/Seats/Accounting.antt =====
-- scr/seats.py: seats never run over.
use selfconnect_runtime.Base.{
  ℕ, ◌≤◌, String, ◌≡◌, inl, inr, not, ◌&&◌, ◌||◌, List, [], ◌∷◌, ◌++◌, arith, Bool-cases, string_eq,
  ◌==◌, contains, filter, length-append, ok,
}
use selfconnect_runtime.State.{Store}
use selfconnect_runtime.Seats.{active, holds, acquire, release}

contains-append :
    (xs : List String) (x y : String) → contains (xs ++ x ∷ []) y ≡ (contains xs y || x == y)
contains-append [] x y = ground arith
contains-append (z ∷ xs) x y = ground (arith, contains-append xs x y)

contains-release :
    (xs : List String) (x y : String)
    → contains (filter (λ (holder : String). not (holder == x)) xs) y
      ≡ (contains xs y && not (x == y))
unfolding filter
contains-release [] x y = ground arith
contains-release (z ∷ xs) x y = ground (arith, contains-release xs x y)

-- A seat is given exactly when its subject holds one already or one is free. Then the subject holds a
-- seat, every other subject holds one exactly if it did before, and no more seats are taken than the
-- licence has, if that was so before.
pub acquire-holds :
    (seats : ℕ) (s t : Store) (subject other : String)
    → active s ≤ seats
    → acquire seats s subject ≡ ok t
    → (active t ≤ seats) × (holds t other ≡ (holds s other || subject == other))
unfolding acquire active holds
acquire-holds seats s t subject other le h = elim (Bool-cases (contains s.seat_holders subject)) [
  | inl held ↦ ground (arith, le, h, held)
  | inr absent ↦ ground (
    arith,
    le,
    h,
    absent,
    contains-append s.seat_holders subject other,
    length-append s.seat_holders (subject ∷ []),
  )
]

-- A release takes the seat of its subject and no other's.
pub release-holds :
    (s : Store) (subject other : String)
    → holds (release s subject) other ≡ (holds s other && not (subject == other))
unfolding holds release
release-holds s subject other = contains-release s.seat_holders subject other
