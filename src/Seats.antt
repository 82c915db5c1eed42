-- ===== src/Seats.antt =====
-- scr/seats.py: the seats of a licence.
pub mod Accounting
use selfconnect_runtime.Base.{
  ℕ, String, Bool, not, [], ◌∷◌, ◌++◌, leb, if◌then◌else◌, string_eq, ◌==◌, contains, length,
  filter, Result, ok, err,
}
use selfconnect_runtime.State.{Store}

-- `SeatsExhausted`
pub data SeatError : Type 0 where
  seats_exhausted : (seats : ℕ) (subject : String) → SeatError

unfoldable pub active : Store → ℕ
active s = length s.seat_holders

unfoldable pub holds : Store → String → Bool
holds s subject = contains s.seat_holders subject

-- `INSERT OR IGNORE` of a subject that holds no seat.
unfoldable pub acquire : ℕ → Store → String → Result SeatError Store
unfolding holds active
acquire seats s subject =
    if holds s subject
    then ok s
    else if leb seats (active s)
    then err (seats_exhausted seats subject)
    else ok (record s { seat_holders = s.seat_holders ++ subject ∷ [] })

unfoldable pub release : Store → String → Store
unfolding filter
release s subject = record s {
  seat_holders = filter (λ (holder : String). not (holder == subject)) s.seat_holders;
}
