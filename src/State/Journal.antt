-- ===== src/State/Journal.antt =====
-- scr/state.py: the write-ahead journal.
use selfconnect_runtime.Base.{
  ℕ, ◌+◌, String, Option, List, [], ◌∷◌, ◌++◌, string_eq, ◌==◌, filter, order_by, max_key, top_by,
}
use selfconnect_runtime.State.Schema.{Record, JournalRow, Store}

-- The rows of a session, in the order of insertion.
unfoldable pub journal_rows : Store → String → List JournalRow
journal_rows s session = filter (λ (r : JournalRow). r.session_id == session) s.journal

abbrev pub row_seq : JournalRow → ℕ
row_seq r = r.seq

unfoldable pub journal_append : Store → String → Record → Store × ℕ
unfolding journal_rows
journal_append s session entry =
    let seq = max_key row_seq (journal_rows s session) + 1 in
    (
      record s {
        journal = s.journal ++ record { session_id = session; seq = seq; entry = entry } ∷ [];
      },
      seq,
    )

unfoldable pub journal_tail : Store → String → Option JournalRow
unfolding journal_rows
journal_tail s session = top_by row_seq (journal_rows s session)

unfoldable pub journal_all : Store → String → List JournalRow
unfolding journal_rows
journal_all s session = order_by row_seq (journal_rows s session)
