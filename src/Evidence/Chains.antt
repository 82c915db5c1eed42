-- ===== src/Evidence/Chains.antt =====
-- scr/_evidence_verifier.py against scr/ledger.py: the offline verifier and the ledger's own.
use selfconnect_runtime.Base.{
  ℕ, suc, ◌+◌, String, ◌<>◌, ◌≡◌, refl, Bool, true, false, none, some, List, [], ◌∷◌, map, arith,
  string_eq, All, Result, ok, err,
}
use selfconnect_runtime.State.{LedgerRow}
use selfconnect_runtime.Ledger.{Codec, VerifyError, chain_hash, check_rows}
use selfconnect_runtime.Ledger.Chain.{ChainFrom, last_of}
use selfconnect_runtime.Evidence.Verifier.{ChainReport, Documents, text_hash, recompute_from}
use selfconnect_runtime.Evidence.Bundles.{evidence_row}

abbrev pub accepted_chain : ℕ → String → ChainReport
accepted_chain total head_hash = record {
  is_ok = true;
  head = head_hash;
  count = total;
  error = none;
}

module _ {Event Doc : Type 0} (c : Codec Event) (d : Documents Doc) where
  -- A chain as the runtime writes it passes the offline loop, which reads no event.
  pub recompute_from-ChainFrom :
      (total : ℕ) (prev : String) (n : ℕ) (rows : List LedgerRow)
      → ChainFrom c prev (suc n) rows
      → recompute_from c d total prev (suc n) (map evidence_row rows)
        ≡ accepted_chain total (last_of c prev n rows).0
  unfolding recompute_from text_hash chain_hash
  recompute_from-ChainFrom total prev n [] h = refl
  recompute_from-ChainFrom total prev n (r ∷ rows) h =
      ground (arith, recompute_from-ChainFrom total r.hash r.seq rows h.2, h.0.1, h.0.2, h.1)

  -- The text of the row is the one that its event is written as.
  abbrev pub IsCanonical : LedgerRow → Type 0
  IsCanonical r = (e : Event) × (c.loads r.event ≡ some e) × (r.event ≡ c.canonical e)

  abbrev pub passes : Result (String × VerifyError) String → Bool
  passes (ok h) = true
  passes (err e) = false

  recompute_from-check_rows :
      (total : ℕ) (prev : String) (n : ℕ) (rows : List LedgerRow)
      → All IsCanonical rows
      → (recompute_from c d total prev n (map evidence_row rows)).is_ok
        ≡ passes (check_rows c prev n rows)
  unfolding recompute_from check_rows text_hash chain_hash
  recompute_from-check_rows total prev n [] h = refl
  recompute_from-check_rows total prev n (r ∷ rows) ((e, read, text), h) = ground (
    arith,
    read,
    text,
    recompute_from-check_rows total (c.sha256 (prev <> c.canonical e)) (n + 1) rows h,
  )
