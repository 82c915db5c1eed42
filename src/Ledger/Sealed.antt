-- ===== src/Ledger/Sealed.antt =====
-- What `verify` answers for a ledger that the runtime wrote: before sealing, after it, and after
-- events were added to a sealed session.
use selfconnect_runtime.Base.{
  ℕ, suc, ◌≤◌, String, ◌≡◌, refl, ap, ◌∙◌, ◌≢◌, true, false, Option, none, some, List, [], ◌∷◌,
  arith, string_eq, length, filter, RisesFrom, order_by-RisesFrom, lookup, lookup-insert_self,
}
use selfconnect_runtime.State.{LedgerRow, Seal, Store}
use selfconnect_runtime.Ledger.{
  Codec, genesis, VerifyError, VerifyResult, seal_mismatch, seal_invalid, ledger_seq, ledger_rows,
  head, seal_of, append, seal, seal_mac, check_seal, verify,
}
use selfconnect_runtime.Ledger.Chain.{
  ReadsBack, ChainFrom, IsChained, head-last_of, last_of-length, check_rows-ChainFrom,
  append-IsChained,
}

abbrev pub accepted : ℕ → String → VerifyResult
accepted count head_hash = record { is_ok = true; count = count; head = head_hash; error = none }

abbrev pub rejected : ℕ → String → VerifyError → VerifyResult
rejected count head_hash e = record {
  is_ok = false;
  count = count;
  head = head_hash;
  error = some e;
}

module _ {Event : Type 0} (c : Codec Event) (key : String) (count : ℕ) (head_hash : String) where
  -- The row that `seal` writes for a head and a count.
  abbrev pub seal_row : Seal
  seal_row = record { head = head_hash; count = count; hmac = seal_mac c key head_hash count }

  check_seal_own :
      check_seal c (some seal_row) (some key) count head_hash ≡ accepted count head_hash
  unfolding check_seal
  check_seal_own = ground arith

  check_seal_keyless : check_seal c (some seal_row) none count head_hash ≡ accepted count head_hash
  unfolding check_seal
  check_seal_keyless = ground arith

module _ {Event : Type 0} (c : Codec Event) (key other : String) (count : ℕ)
    (head_hash : String) where
  check_seal_rest :
      seal_mac c other head_hash count ≢ seal_mac c key head_hash count
      → check_seal c (some (seal_row c key count head_hash)) (some other) count head_hash
        ≡ rejected count head_hash seal_invalid
  unfolding check_seal
  check_seal_rest differ = ground arith

pub check_seal_miscounted :
    {Event : Type 0} (c : Codec Event) (row : Seal) (given : Option String) (count : ℕ)
    (head_hash : String)
    → row.count ≢ count
    → (check_seal c (some row) given count head_hash).error ≡ some seal_mismatch
unfolding check_seal
check_seal_miscounted c row given count head_hash differ = ground arith

pub seal_of-lookup : (s : Store) (session : String) → seal_of s session ≡ lookup session s.seals
unfolding seal_of
seal_of-lookup s session = refl

module _ {Event : Type 0} (c : Codec Event) where
  -- The stores whose ledger was written by `append` and `seal` alone.
  pub data Written : Store → Type 0 where
    started : (s : Store) → s.ledger ≡ [] → Written s
    appended :
        {s : Store} (session : String) (e : Event) → Written s → Written (append c s session e).0
    closed : {s : Store} (session key : String) → Written s → Written (seal c s session key).0

  rows-started : (s : Store) (session : String) → s.ledger ≡ [] → ledger_rows s session ≡ []
  unfolding ledger_rows filter
  rows-started s session h = rw h refl

  pub rows-seal :
      (s : Store) (session key other : String)
      → ledger_rows (seal c s session key).0 other ≡ ledger_rows s other
  unfolding ledger_rows seal
  rows-seal s session key other = refl

  pub Written-IsChained : {s : Store} → Written s → IsChained c s
  Written-IsChained (started s h) other = rw (rows-started s other h) tt
  Written-IsChained (appended {s = s} session e w) other =
      append-IsChained c s session e (Written-IsChained w) other
  Written-IsChained (closed {s = s} session key w) other =
      rw (rows-seal s session key other) (Written-IsChained w other)

  pub ChainFrom-RisesFrom :
      (prev : String) (m n : ℕ) (rows : List LedgerRow)
      → m ≤ n
      → ChainFrom c prev n rows
      → RisesFrom ledger_seq m rows
  ChainFrom-RisesFrom prev m n [] le h = tt
  ChainFrom-RisesFrom prev m n (r ∷ rows) le h =
      (omega (arith, h.1), ChainFrom-RisesFrom r.hash r.seq (suc r.seq) rows (omega arith) h.2)

  pub head-count :
      (s : Store) (session : String)
      → IsChained c s
      → (head s session).1 ≡ length (ledger_rows s session)
  head-count s session h = omega (
    arith,
    ap (λ (p : String × ℕ). p.1) (head-last_of c s session h),
    last_of-length c genesis 0 (ledger_rows s session) (h session),
  )

  -- On a chained ledger only the seal is left to decide.
  pub verify-IsChained :
      ReadsBack c
      → (s : Store) (session : String) (key : Option String) → IsChained c s
      → verify c s session key
        ≡ check_seal c (seal_of s session) key (head s session).1 (head s session).0
  unfolding verify
  verify-IsChained back s session key h = ground (
    arith,
    order_by-RisesFrom ledger_seq 1 (ledger_rows s session)
        (ChainFrom-RisesFrom genesis 1 1 (ledger_rows s session) (omega arith) (h session)),
    check_rows-ChainFrom c back genesis 0 (ledger_rows s session) (h session),
    head-last_of c s session h,
    head-count s session h,
  )

  -- Before it is sealed, a chained session is accepted.
  pub verify-unsealed :
      ReadsBack c
      → (s : Store) (session : String) (key : Option String) → IsChained c s
      → seal_of s session ≡ none
      → verify c s session key ≡ accepted (length (ledger_rows s session)) (head s session).0
  unfolding check_seal
  verify-unsealed back s session key h unsealed =
      ground (arith, verify-IsChained back s session key h, head-count s session h)

  -- Before it is sealed, a session that the runtime wrote is accepted, with the number of its events
  -- and its last hash.
  pub verify-Written :
      ReadsBack c
      → {s : Store} (session : String) (key : Option String) → Written s
      → seal_of s session ≡ none
      → verify c s session key ≡ accepted (length (ledger_rows s session)) (head s session).0
  verify-Written back {s} session key w = verify-unsealed back s session key (Written-IsChained w)

  pub head-seal :
      (s : Store) (session key other : String) → head (seal c s session key).0 other ≡ head s other
  unfolding head seal
  head-seal s session key other = refl

  pub seal_of-seal :
      (s : Store) (session key : String)
      → seal_of (seal c s session key).0 session
        ≡ some (seal_row c key (head s session).1 (head s session).0)
  unfolding seal
  seal_of-seal s session key =
      seal_of-lookup (seal c s session key).0 session ∙ lookup-insert_self session _ s.seals

  verify-sealed :
      ReadsBack c
      → {s : Store} (session key : String) (given : Option String) → Written s
      → verify c (seal c s session key).0 session given
        ≡ check_seal c
            (some (seal_row c key (head s session).1 (head s session).0))
            given
            (head s session).1
            (head s session).0
  verify-sealed back {s} session key given w = rw (
    verify-IsChained back (seal c s session key).0 session given
        (Written-IsChained (closed session key w)),
    seal_of-seal s session key,
    head-seal s session key session,
  )

  -- A session that the runtime wrote and then sealed is accepted under the sealing key and without
  -- a key, with its number of events and its last hash.
  pub verify-seal :
      ReadsBack c
      → {s : Store} (session key : String) → Written s
      → (verify c (seal c s session key).0 session (some key)
          ≡ accepted (length (ledger_rows s session)) (head s session).0)
        × (verify c (seal c s session key).0 session none
            ≡ accepted (length (ledger_rows s session)) (head s session).0)
  verify-seal back {s} session key w =
      let counted =
        ap (λ n. accepted n (head s session).0) (head-count s session (Written-IsChained w)) in
      (
        verify-sealed back session key (some key) w ∙ check_seal_own c key _ _ ∙ counted,
        verify-sealed back session key none w ∙ check_seal_keyless c key _ _ ∙ counted,
      )

  -- A session that the runtime wrote and then sealed is rejected for its seal under a key whose HMAC
  -- of the same head and count differs from that of the sealing key.
  pub verify-seal_other_key :
      ReadsBack c
      → {s : Store} (session key other : String) → Written s
      → seal_mac c other (head s session).0 (head s session).1
        ≢ seal_mac c key (head s session).0 (head s session).1
      → verify c (seal c s session key).0 session (some other)
        ≡ rejected (length (ledger_rows s session)) (head s session).0 seal_invalid
  verify-seal_other_key back {s} session key other w differ =
      verify-sealed back session key (some other) w
      ∙ check_seal_rest c key other _ _ differ
      ∙ ap (λ n. rejected n (head s session).0 seal_invalid)
          (head-count s session (Written-IsChained w))
