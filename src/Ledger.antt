-- ===== src/Ledger.antt =====
-- scr/ledger.py: the hash-chained ledger, its seals and `verify`. JSON, SHA-256, HMAC and the decimal
-- print of a count are the parameter `Codec`.
pub mod Chain
pub mod Sealed
pub mod Extensions
pub mod Tamper
use selfconnect_runtime.Base.{
  ℕ, ◌+◌, String, ◌<>◌, Bool, true, false, not, ◌||◌, Option, none, some, List, [], ◌∷◌, ◌++◌, eqb,
  if◌then◌else◌, string_eq, ◌==◌, length, filter, order_by, top_by, lookup, insert, Result, ok, err,
}
use selfconnect_runtime.State.{LedgerRow, Seal, Store}

-- `json.dumps(event, sort_keys=True, separators=(",", ":"))`, `json.loads` with `none` for the
-- JSONDecodeError, `hashlib.sha256(...).hexdigest()`, `hmac.new(key, message, sha256).hexdigest()`,
-- and `str(n)` of a count.
pub record Codec (Event : Type 0) : Type 0 where
  pub canonical : Event → String
  pub loads : String → Option Event
  pub sha256 : String → String
  pub hmac_sha256 : String → String → String
  pub decimal : ℕ → String

-- `GENESIS`
abbrev pub genesis : String
genesis = "0000000000000000000000000000000000000000000000000000000000000000"

pub data VerifyError : Type 0 where
  sequence_gap : (expected found : ℕ) → VerifyError
  unparseable : (seq : ℕ) → VerifyError
  chain_break : (seq : ℕ) → VerifyError
  seal_mismatch : VerifyError
  seal_invalid : VerifyError

pub record VerifyResult : Type 0 where
  pub is_ok : Bool
  pub count : ℕ
  pub head : String
  pub error : Option VerifyError

abbrev pub ledger_seq : LedgerRow → ℕ
ledger_seq r = r.seq

unfoldable pub ledger_rows : Store → String → List LedgerRow
ledger_rows s session = filter (λ (r : LedgerRow). r.session_id == session) s.ledger

-- `Ledger.head`; the two functions below do not touch the parameter.
unfoldable pub head : Store → String → String × ℕ
unfolding ledger_rows
head s session = elim (top_by ledger_seq (ledger_rows s session)) [
  | none ↦ (genesis, 0)
  | some r ↦ (r.hash, r.seq)
]

-- `SELECT head, count, hmac FROM seals WHERE session_id=?`
unfoldable pub seal_of : Store → String → Option Seal
unfolding lookup
seal_of s session = lookup session s.seals

module _ {Event : Type 0} (c : Codec Event) where
  unfoldable pub chain_hash : String → Event → String
  chain_hash prev event = c.sha256 (prev <> c.canonical event)

  -- `Ledger.append`: the store, and the new hash.
  unfoldable pub append : Store → String → Event → Store × String
  unfolding head chain_hash
  append s session event =
      let (prev, seq) = head s session in
      let new_hash = chain_hash prev event in
      (
        record s {
          ledger =
              s.ledger
              ++ record {
                session_id = session;
                seq = seq + 1;
                event = c.canonical event;
                hash = new_hash;
              }
                ∷ [];
        },
        new_hash,
      )

  -- The HMAC of `f"{head}:{count}"`.
  unfoldable pub seal_mac : String → String → ℕ → String
  seal_mac key head_hash count = c.hmac_sha256 key (head_hash <> (":" <> c.decimal count))

  -- `Ledger.seal`, with INSERT OR REPLACE.
  unfoldable pub seal : Store → String → String → Store × String
  unfolding head seal_mac insert
  seal s session key =
      let (head_hash, count) = head s session in
      let mac = seal_mac key head_hash count in
      (
        record s {
          seals = insert session (record { head = head_hash; count = count; hmac = mac }) s.seals;
        },
        mac,
      )

  -- The loop of `verify`: the head that it ends with, or the head so far and the error.
  unfoldable pub check_rows : String → ℕ → List LedgerRow → Result (String × VerifyError) String
  unfolding chain_hash
  check_rows prev expected [] = ok prev
  check_rows prev expected (r ∷ rows) =
      if not (eqb r.seq expected)
      then err (prev, sequence_gap expected r.seq)
      else elim (c.loads r.event) [
        | none ↦ err (prev, unparseable r.seq)
        | some event ↦
            let rest = check_rows (chain_hash prev event) (expected + 1) rows in
            if not (chain_hash prev event == r.hash) then err (prev, chain_break r.seq) else rest
      ]

  -- The end of `verify`, for the seal row and the key if there is one.
  unfoldable pub check_seal : Option Seal → Option String → ℕ → String → VerifyResult
  unfolding seal_mac
  check_seal none key count head_hash = record {
    is_ok = true;
    count = count;
    head = head_hash;
    error = none;
  }
  check_seal (some row) key count head_hash =
      if not (row.head == head_hash) || not (eqb row.count count)
      then record { is_ok = false; count = count; head = head_hash; error = some seal_mismatch }
      else elim key [
        | none ↦ record { is_ok = true; count = count; head = head_hash; error = none }
        | some k ↦
            if seal_mac k head_hash count == row.hmac
            then record { is_ok = true; count = count; head = head_hash; error = none }
            else record {
              is_ok = false;
              count = count;
              head = head_hash;
              error = some seal_invalid;
            }
      ]

  unfoldable pub verify : Store → String → Option String → VerifyResult
  unfolding check_rows check_seal ledger_rows seal_of
  verify s session key =
      let rows = order_by ledger_seq (ledger_rows s session) in
      elim (check_rows genesis 1 rows) [
        | err (prev, e) ↦ record { is_ok = false; count = length rows; head = prev; error = some e }
        | ok head_hash ↦ check_seal (seal_of s session) key (length rows) head_hash
      ]
