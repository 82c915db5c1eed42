-- ===== src/Evidence/Exports.antt =====
-- scr/evidence.py: the export of one sealed session, as the offline verifier reads it.
use selfconnect_runtime.Base.{
  ℕ, suc, String, ◌≡◌, refl, sym, ap, ◌∙◌, true, Option, some, List, [], ◌∷◌, map, arith, string_eq,
  length, order_by-RisesFrom, ok,
}
use selfconnect_runtime.Gateway.{Json}
use selfconnect_runtime.State.{Store, LedgerRow}
use selfconnect_runtime.Ledger
use selfconnect_runtime.Ledger.{Codec, ledger_rows, ledger_seq, head, seal_of, seal_mac, genesis}
use selfconnect_runtime.Ledger.Chain.{IsChained, head-last_of}
use selfconnect_runtime.Ledger.Sealed.{
  ChainFrom-RisesFrom, head-count, rows-seal, head-seal, seal_of-seal, seal_row,
}
use selfconnect_runtime.Kernel.Events.{Event}
use selfconnect_runtime.Evidence.Verifier.{
  of_team, verify_team_bundle, Bundle, SessionReport, of_session, Documents, recompute_chain,
  seal_check, bundle_check, verify_session_bundle, verify_bundle_obj,
}
use selfconnect_runtime.Evidence.Bundles.{
  evidence_row, read_session_events, read_seal, build_bundle, export_bundle, archive_of,
  verify_bundle,
}
use selfconnect_runtime.Evidence.Chains.{accepted_chain, recompute_from-ChainFrom}

-- The bundle with the keys of its package in another order
abbrev pub sort_bundle : (Json → Json) → Bundle → Bundle
sort_bundle f (of_session b) = of_session (record b { pkg = f b.pkg })
sort_bundle f (of_team b) = of_team (record b { pkg = f b.pkg })

-- The documented behaviour of `json` and of `strip` on what was exported: `json.dumps(sort_keys=True)`
-- sorts the keys, `json.loads` gives them in that order, and writing them again gives the same bytes.
pub record IsFaithful {Doc : Type 0} (d : Documents Doc) : Type 0 where
  pub sort_keys : Json → Json
  pub reads_back : (b : Bundle) → d.loads (d.dumps b) ≡ some (sort_bundle sort_keys b)
  pub same_bytes : (b : Bundle) → d.dumps (sort_bundle sort_keys b) ≡ d.dumps b
  pub keeps_mac :
      (key : String) (doc : Doc) → d.strip (d.hmac_sha256 key doc) ≡ d.hmac_sha256 key doc

module _ {Doc : Type 0} (c : Codec Event) (d : Documents Doc) (version : String) where
  length-map_rows : (rows : List LedgerRow) → length (map evidence_row rows) ≡ length rows
  length-map_rows [] = refl
  length-map_rows (r ∷ rows) = ap suc (length-map_rows rows)

  pub chain_of-session :
      (s : Store) (session : String)
      → IsChained c s
      → recompute_chain c d (read_session_events s session)
        ≡ accepted_chain (head s session).1 (head s session).0
  unfolding recompute_chain read_session_events
  chain_of-session s session h =
      rw
        (order_by-RisesFrom ledger_seq 1 (ledger_rows s session)
          (ChainFrom-RisesFrom c genesis 1 1 (ledger_rows s session) (omega arith) (h session)))
        (recompute_from-ChainFrom c d (length (map evidence_row (ledger_rows s session))) genesis 0
            (ledger_rows s session) (h session)
          ∙ ground (
            arith,
            length-map_rows (ledger_rows s session),
            head-count c s session h,
            head-last_of c s session h,
          ))

  pub seal-IsChained :
      (s : Store) (session key : String)
      → IsChained c s
      → IsChained c (Ledger.seal c s session key).0
  seal-IsChained s session key h other = rw (rows-seal c s session key other) (h other)

  -- The session is sealed as `seal` does it for its present head.
  abbrev pub SealedBy : String → Store → String → Type 0
  SealedBy key s session =
      seal_of s session ≡ some (seal_row c key (head s session).1 (head s session).0)

  pub seal_check-own :
      (s : Store) (session key : String)
      → SealedBy key s session
      → seal_check c d
          (read_seal s session)
          (accepted_chain (head s session).1 (head s session).0)
          key
        ≡ some true
  unfolding read_seal seal_check seal_mac
  seal_check-own s session key h = ground (arith, h)

  -- The report of the offline verifier on what was exported after the session was sealed.
  abbrev pub good_report : Store → String → SessionReport
  good_report s session = record {
    chain = accepted_chain (head s session).1 (head s session).0;
    session_seal_ok = some true;
    bundle_seal_ok = true;
    is_ok = true;
  }

  pub verify_session_bundle-build :
      (s : Store) (session key : String) (pkg : Option Json)
      → IsChained c s
      → SealedBy key s session
      → let b = build_bundle c d version s session pkg in
        verify_session_bundle c d b (d.hmac_sha256 key (d.dumps (of_session b))) key
        ≡ good_report s session
  unfolding verify_session_bundle build_bundle bundle_check
  verify_session_bundle-build s session key pkg h sealed =
      ground (arith, chain_of-session s session h, seal_check-own s session key sealed)

  -- The verdict reads the package through the bytes of the bundle only.
  verify_bundle_obj-sort :
      (f : Json → Json) (b : Bundle) (mac key : String)
      → d.dumps (sort_bundle f b) ≡ d.dumps b
      → verify_bundle_obj c d (sort_bundle f b) mac key ≡ verify_bundle_obj c d b mac key
  unfolding verify_bundle_obj verify_session_bundle verify_team_bundle bundle_check
  verify_bundle_obj-sort f (of_session b) mac key same = ground (arith, same)
  verify_bundle_obj-sort f (of_team b) mac key same = ground (arith, same)

  pub verify_bundle-archive :
      IsFaithful d
      → (b : Bundle) (key : String)
      → verify_bundle c d version (archive_of c d version key b) key
        ≡ ok (verify_bundle_obj c d b (d.hmac_sha256 key (d.dumps b)) key)
  unfolding verify_bundle
  verify_bundle-archive faithful b key = ground (
    arith,
    faithful.reads_back b,
    faithful.keeps_mac key (d.dumps b),
    verify_bundle_obj-sort faithful.sort_keys b (d.hmac_sha256 key (d.dumps b)) key
        (faithful.same_bytes b),
  )

  pub seal-SealedBy_self :
      (s : Store) (session key : String) → SealedBy key (Ledger.seal c s session key).0 session
  seal-SealedBy_self s session key =
      seal_of-seal c s session key
      ∙ ap (λ (p : String × ℕ). some (seal_row c key p.1 p.0))
          (sym (head-seal c s session key session))

  -- A session of a chained ledger that is sealed under a key and exported under it passes the offline
  -- verifier under that key: the chain holds with the session's head and count, and so do the seal of
  -- the session and that of the bundle.
  pub verify_bundle-export :
      IsFaithful d
      → (s : Store) (session key : String) (pkg : Option Json) → IsChained c s
      → let t = (Ledger.seal c s session key).0 in
        let b = build_bundle c d version t session pkg in
        (verify_bundle c d version (export_bundle c d version t session key pkg) key ≡ ok true)
        × (verify_session_bundle c d b (d.hmac_sha256 key (d.dumps (of_session b))) key
            ≡ good_report s session)
  unfolding export_bundle verify_bundle_obj
  verify_bundle-export faithful s session key pkg h =
      let t = (Ledger.seal c s session key).0 in
      let b = build_bundle c d version t session pkg in
      let report : verify_session_bundle c d b (d.hmac_sha256 key (d.dumps (of_session b))) key
          ≡ good_report s session =
        verify_session_bundle-build t session key pkg (seal-IsChained s session key h)
          (seal-SealedBy_self s session key)
        ∙ ap
            (λ (p : String × ℕ). record {
              chain = accepted_chain p.1 p.0;
              session_seal_ok = some true;
              bundle_seal_ok = true;
              is_ok = true;
            })
            (head-seal c s session key session) in
      (
        verify_bundle-archive faithful (of_session b) key
            ∙ ap (λ (r : SessionReport). ok r.is_ok) report,
        report,
      )
