-- ===== src/Ledger/Chain.antt =====
-- A ledger that was written by `append` is a chain, and a chain passes `check_rows`.
use selfconnect_runtime.Base.{
  ℕ, suc, ◌+◌, ◌<◌, String, ◌≡◌, refl, sym, ap, ◌∙◌, inl, inr, Option, none, some, List, [], ◌∷◌,
  ◌++◌, arith, if◌then◌else◌, Bool-cases, string_eq, ◌==◌, length, filter, filter-append, top_by,
  ok,
}
use mathlib.Core.List.{append-nil}
use selfconnect_runtime.State.{LedgerRow, Store}
use selfconnect_runtime.Ledger.{
  Codec, genesis, ledger_seq, ledger_rows, head, chain_hash, append, check_rows,
}

-- The documented behaviour of the parameters: what `json.dumps` writes `json.loads` reads back.
abbrev pub ReadsBack : {Event : Type 0} → Codec Event → Type 0
ReadsBack {Event} c = (e : Event) → c.loads (c.canonical e) ≡ some e

-- What `head` makes of the last row.
abbrev end_of : Option LedgerRow → String × ℕ
end_of none = (genesis, 0)
end_of (some r) = (r.hash, r.seq)

head-end_of :
    (s : Store) (session : String)
    → head s session ≡ end_of (top_by ledger_seq (ledger_rows s session))
unfolding head
head-end_of s session = ground arith

module _ {Event : Type 0} (c : Codec Event) where
  -- The rows carry the hashes and numbers of a chain that goes on from `prev` at `n`.
  abbrev pub ChainFrom : String → ℕ → List LedgerRow → Type 0
  ChainFrom prev n [] = Unit
  ChainFrom prev n (r ∷ rows) =
      ((e : Event) × (r.event ≡ c.canonical e) × (r.hash ≡ chain_hash c prev e))
      × (r.seq ≡ n)
      × ChainFrom r.hash (suc r.seq) rows

  abbrev pub IsChained : Store → Type 0
  IsChained s = (session : String) → ChainFrom genesis 1 (ledger_rows s session)

  -- The hash and the number at the end of a chain.
  abbrev pub last_of : String → ℕ → List LedgerRow → String × ℕ
  last_of prev n [] = (prev, n)
  last_of prev n (r ∷ rows) = last_of r.hash r.seq rows

  ChainFrom-append :
      (prev : String) (n : ℕ) (rows : List LedgerRow) (r : LedgerRow) (e : Event)
      → ChainFrom prev (suc n) rows
      → r.event ≡ c.canonical e
      → r.hash ≡ chain_hash c (last_of prev n rows).0 e
      → r.seq ≡ suc (last_of prev n rows).1
      → ChainFrom prev (suc n) (rows ++ r ∷ [])
  ChainFrom-append prev n [] r e h w x q = ((e, w, x), q, tt)
  ChainFrom-append prev n (a ∷ rows) r e h w x q =
      (h.0, h.1, ChainFrom-append a.hash a.seq rows r e h.2 w x q)

  top-last_of :
      (prev : String) (n : ℕ) (r : LedgerRow) (rows : List LedgerRow)
      → ChainFrom prev (suc n) (r ∷ rows)
      → (t : LedgerRow) × (top_by ledger_seq (r ∷ rows) ≡ some t)
        × (last_of prev n (r ∷ rows) ≡ (t.hash, t.seq))
        × (n < t.seq)
  unfolding top_by
  top-last_of prev n r [] h = (r, refl, refl, omega arith)
  top-last_of prev n r (q ∷ rows) h =
      let (t, e, l, lt) = top-last_of r.hash r.seq q rows h.2 in (t, ground arith, l, omega arith)

  end-last_of :
      (rows : List LedgerRow)
      → ChainFrom genesis 1 rows
      → end_of (top_by ledger_seq rows) ≡ last_of genesis 0 rows
  unfolding top_by
  end-last_of [] h = refl
  end-last_of (r ∷ rows) h =
      let (t, e, l, lt) = top-last_of genesis 0 r rows h in ap end_of e ∙ sym l

  -- In a chained store `head` is the end of the session's chain.
  pub head-last_of :
      (s : Store) (session : String)
      → IsChained s
      → head s session ≡ last_of genesis 0 (ledger_rows s session)
  head-last_of s session h = head-end_of s session ∙ end-last_of (ledger_rows s session) (h session)

  pub last_of-length :
      (prev : String) (n : ℕ) (rows : List LedgerRow)
      → ChainFrom prev (suc n) rows
      → (last_of prev n rows).1 ≡ n + length rows
  last_of-length prev n [] h = omega arith
  last_of-length prev n (r ∷ rows) h = omega (arith, last_of-length r.hash r.seq rows h.2, h.1)

  -- A chain passes the loop of `verify`.
  pub check_rows-ChainFrom :
      ReadsBack c
      → (prev : String) (n : ℕ) (rows : List LedgerRow) → ChainFrom prev (suc n) rows
      → check_rows c prev (suc n) rows ≡ ok (last_of prev n rows).0
  unfolding check_rows
  check_rows-ChainFrom back prev n [] h = refl
  check_rows-ChainFrom back prev n (r ∷ rows) h =
      let rest = check_rows-ChainFrom back r.hash r.seq rows h.2 in
      ground (arith, back h.0.0, rest, h.0.1, h.0.2, h.1)

  -- The row that `append` writes.
  abbrev pub appended_row : Store → String → Event → LedgerRow
  appended_row s session e = record {
    session_id = session;
    seq = (head s session).1 + 1;
    event = c.canonical e;
    hash = chain_hash c (head s session).0 e;
  }

  pub ledger_rows-append :
      (s : Store) (session other : String) (e : Event)
      → ledger_rows (append c s session e).0 other ≡ (
          if session == other
          then ledger_rows s other ++ appended_row s session e ∷ []
          else ledger_rows s other)
  unfolding append filter
  ledger_rows-append s session other e =
      rw filter-append (ground (arith, append-nil (ledger_rows s other)))

  -- `append` extends the chain of its session by one row and leaves the others as they are.
  pub append-IsChained :
      (s : Store) (session : String) (e : Event) → IsChained s → IsChained (append c s session e).0
  append-IsChained s session e h other = elim (Bool-cases (session == other)) [
    | inr differ ↦ rw (ledger_rows-append s session other e, differ) (h other)
    | inl same ↦
        rw (ledger_rows-append s session other e, same)
          (ChainFrom-append genesis 0 (ledger_rows s other) (appended_row s session e) e (h other)
            refl (ground (arith, head-last_of s session h))
            (ground (arith, head-last_of s session h)))
  ]
