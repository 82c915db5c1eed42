-- ===== src/State/Numbering.antt =====
-- The journal of a session is numbered 1, 2, 3 and so on, so that UNIQUE(session_id, seq) holds.
use mathlib.Core.List.{append-nil}
use selfconnect_runtime.Base.{
  ℕ, suc, ◌+◌, ◌≤◌, ◌<◌, max, String, ◌≡◌, refl, inl, inr, some, List, [], ◌∷◌, ◌++◌, arith,
  if◌then◌else◌, Bool-cases, string_eq, ◌==◌, length, get_last?, filter, filter-append, order_by,
  max_key, top_by, top_by-append_greatest, get_last?-order_by_greatest, RisesFrom,
  order_by-RisesFrom,
}
use selfconnect_runtime.State.Schema.{Record, JournalRow, Store}
use selfconnect_runtime.State.Journal.{
  journal_rows, row_seq, journal_append, journal_tail, journal_all,
}

-- The rows are numbered from `n` on without a gap.
abbrev pub NumberedFrom : ℕ → List JournalRow → Type 0
NumberedFrom n [] = Unit
NumberedFrom n (r ∷ rows) = (r.seq ≡ n) × NumberedFrom (suc n) rows

abbrev pub IsNumbered : Store → Type 0
IsNumbered s = (session : String) → NumberedFrom 1 (journal_rows s session)

-- The row that `journal_append` writes.
abbrev pub next_row : Store → String → Record → JournalRow
next_row s session entry = record {
  session_id = session;
  seq = max_key row_seq (journal_rows s session) + 1;
  entry = entry;
}

pub journal_rows-append :
    (s : Store) (session other : String) (entry : Record)
    → journal_rows (journal_append s session entry).0 other ≡ (
        if session == other
        then journal_rows s other ++ next_row s session entry ∷ []
        else journal_rows s other)
unfolding journal_append filter
journal_rows-append s session other entry =
    rw filter-append (ground (arith, append-nil (journal_rows s other)))

NumberedFrom-max :
    (n : ℕ) (rows : List JournalRow)
    → NumberedFrom (suc n) rows
    → max n (max_key row_seq rows) ≡ n + length rows
unfolding max_key
NumberedFrom-max n [] h = omega arith
NumberedFrom-max n (r ∷ rows) h = omega (arith, NumberedFrom-max (suc n) rows h.1)

NumberedFrom-append :
    (n : ℕ) (rows : List JournalRow) (r : JournalRow)
    → NumberedFrom n rows
    → r.seq ≡ n + length rows
    → NumberedFrom n (rows ++ r ∷ [])
NumberedFrom-append n [] r h e = (omega arith, tt)
NumberedFrom-append n (q ∷ rows) r h e = (h.0, NumberedFrom-append (suc n) rows r h.1 (omega arith))

NumberedFrom-RisesFrom :
    (m n : ℕ) (rows : List JournalRow) → m ≤ n → NumberedFrom n rows → RisesFrom row_seq m rows
NumberedFrom-RisesFrom m n [] le h = tt
NumberedFrom-RisesFrom m n (r ∷ rows) le h =
    (omega (arith, h.0), NumberedFrom-RisesFrom r.seq (suc n) rows (omega (arith, h.0)) h.1)

-- In a numbered journal the order of the numbers is that of insertion.
pub journal_all-rows :
    (s : Store) (session : String) → IsNumbered s → journal_all s session ≡ journal_rows s session
unfolding journal_all
journal_all-rows s session h =
    order_by-RisesFrom row_seq 1 (journal_rows s session)
      (NumberedFrom-RisesFrom 1 1 (journal_rows s session) (omega arith) (h session))

pub journal_append-seq :
    (s : Store) (session : String) (entry : Record)
    → IsNumbered s
    → (journal_append s session entry).1 ≡ length (journal_rows s session) + 1
unfolding journal_append
journal_append-seq s session entry h =
    omega (arith, NumberedFrom-max 0 (journal_rows s session) (h session))

-- Appending to a numbered journal numbers the new entry one past the last of its session, leaves
-- every session's journal numbered without a gap, puts one row at the end of its session's journal,
-- and leaves the other sessions' rows alone.
pub journal_append-IsNumbered :
    (s : Store) (session : String) (entry : Record)
    → IsNumbered s
    → IsNumbered (journal_append s session entry).0
      × ((journal_append s session entry).1 ≡ length (journal_rows s session) + 1)
      × ((other : String)
          → journal_rows (journal_append s session entry).0 other ≡ (
              if session == other
              then journal_rows s other ++ next_row s session entry ∷ []
              else journal_rows s other))
journal_append-IsNumbered s session entry h = (
  λ other. elim (Bool-cases (session == other)) [
    | inr differ ↦ rw (journal_rows-append s session other entry, differ) (h other)
    | inl same ↦
        rw (journal_rows-append s session other entry, same)
          (NumberedFrom-append 1 (journal_rows s other) (next_row s session entry) (h other)
            (ground (arith, NumberedFrom-max 0 (journal_rows s other) (h other))))
  ],
  journal_append-seq s session entry h,
  λ other. journal_rows-append s session other entry,
)

journal_tail-rows :
    (s : Store) (session : String)
    → (journal_tail s session ≡ top_by row_seq (journal_rows s session))
      × (journal_all s session ≡ order_by row_seq (journal_rows s session))
unfolding journal_tail journal_all
journal_tail-rows s session = (refl, refl)

journal_rows-append_self :
    (s : Store) (session : String) (entry : Record)
    → journal_rows (journal_append s session entry).0 session
      ≡ journal_rows s session ++ next_row s session entry ∷ []
journal_rows-append_self s session entry =
    ground (arith, journal_rows-append s session session entry)

-- Whatever the store, the entry just appended is the tail of its session's journal and the last of
-- all its entries, under the number that was returned.
pub journal_tail-append :
    (s : Store) (session : String) (entry : Record)
    → (journal_tail (journal_append s session entry).0 session ≡ some (next_row s session entry))
      × (get_last? (journal_all (journal_append s session entry).0 session)
          ≡ some (next_row s session entry))
      × ((journal_append s session entry).1 ≡ (next_row s session entry).seq)
journal_tail-append s session entry =
    let grows : max_key row_seq (journal_rows s session) < (next_row s session entry).seq =
      omega arith in
    (
      rw
          (
            (journal_tail-rows (journal_append s session entry).0 session).0,
            journal_rows-append_self s session entry,
          )
          (top_by-append_greatest row_seq (journal_rows s session) (next_row s session entry)
            grows),
      rw
          (
            (journal_tail-rows (journal_append s session entry).0 session).1,
            journal_rows-append_self s session entry,
          )
          (get_last?-order_by_greatest row_seq (journal_rows s session) (next_row s session entry)
            grows),
      unfold journal_append in refl,
    )
