-- ===== src/Packages/Names.antt =====
-- scr/loader.py: what the signature does not cover.
use selfconnect_runtime.Base.{
  String, ◌≡◌, ◌≢◌, inl, inr, false, Option, some, arith, Option-cases, string_eq, Dict, ok, err,
  Result-cases,
}
use selfconnect_runtime.Packages.{
  Crypto, Keystore, RevocationList, Signature, Package, bars, actual_file_hashes, check_files,
  check_signature, check_package, verify_package, revoked,
}

module _ {Bytes : Type 0} (c : Crypto Bytes) where
  check_files-not_revoked :
      (declared actual : Dict String String) → check_files c declared actual ≢ err revoked
  unfolding check_files
  check_files-not_revoked declared actual h = ground (arith, h)

  check_signature-renamed :
      (store : Keystore) (revocations : Option RevocationList) (p : Package Bytes) (sig : Signature)
      (name version : String)
      → check_signature c store revocations p sig ≡ err revoked
      → bars c revocations store name version ≡ false
      → check_signature c store revocations (record p { name = name; version = version }) sig
        ≡ ok (name, version)
  unfolding check_signature
  check_signature-renamed store revocations p sig name version h free = ground (arith, h, free)

  check_package-signature :
      (store : Keystore) (revocations : Option RevocationList) (p : Package Bytes)
      → check_package c store revocations p ≡ err revoked
      → (check_files c p.files (actual_file_hashes c p) ≡ ok tt)
        × ((sig : Signature) × (p.signature ≡ some sig)
            × (check_signature c store revocations p sig ≡ err revoked))
  unfolding check_package
  check_package-signature store revocations p h =
      elim (Result-cases (check_files c p.files (actual_file_hashes c p))) [
        | inr (e, bad) ↦
            ground (arith, h, bad, check_files-not_revoked p.files (actual_file_hashes c p))
        | inl (done, intact) ↦ elim (Option-cases p.signature) [
          | inl absent ↦ ground (arith, h, intact, absent)
          | inr (sig, found) ↦ (intact, (sig, found, ground (arith, h, intact, found)))
        ]
      ]

  check_package-renamed :
      (store : Keystore) (revocations : Option RevocationList) (p : Package Bytes)
      (name version : String)
      → check_package c store revocations p ≡ err revoked
      → bars c revocations store name version ≡ false
      → check_package c store revocations (record p { name = name; version = version })
        ≡ ok (name, version)
  unfolding check_package
  check_package-renamed store revocations p name version h free =
      let (intact, signed) = check_package-signature store revocations p h in
      let (sig, found, barred) = signed in
      rw intact
        (rw found (check_signature-renamed store revocations p sig name version barred free))

  -- A revoked package is accepted once its manifest gives another name or version that is not revoked:
  -- no file and no signature changes.
  pub verify_package-renamed :
      (store : Keystore) (revocations : Option RevocationList) (p : Package Bytes)
      (name version : String)
      → verify_package c store revocations (some p) ≡ err revoked
      → bars c revocations store name version ≡ false
      → verify_package c store revocations (some (record p { name = name; version = version }))
        ≡ ok (name, version)
  unfolding verify_package
  verify_package-renamed store revocations p name version h free =
      check_package-renamed store revocations p name version h free
