-- ===== src/Packages/Execution.antt =====
-- scr/registry.py: what the verification at every execution gives.
use selfconnect_runtime.Base.{
  String, ◌≡◌, ap, ◌∙◌, ◌⊎◌, inl, inr, Option, some, arith, string_eq, lookup, lookup-insert_self,
  ok, err, Result-cases,
}
use selfconnect_runtime.Packages.{Crypto, Package, LoadError, verify_package}
use selfconnect_runtime.Packages.Registry.{
  Installed, PackageRegistry, stem, put_package, recorded_key, get, install, verify_stored,
  verify_installed,
}

-- The entry that a package leaves in the index
abbrev entry_of : {Bytes : Type 0} → String → String → Option (Package Bytes) → Installed
entry_of name version source = record {
  version = version;
  path = stem name version;
  key_id = recorded_key source;
}

module _ {Bytes : Type 0} (c : Crypto Bytes) where
  verify_stored-found :
      (reg : PackageRegistry Bytes) (inst : Installed) (stored : Option (Package Bytes))
      → lookup inst.path reg.files ≡ some stored
      → verify_stored c reg inst ≡ verify_package c reg.keystore reg.revocations stored
  unfolding verify_stored
  verify_stored-found reg inst stored found = ground (arith, found)

  pub verify_installed-found :
      (reg : PackageRegistry Bytes) (name : String) (inst : Installed)
      (stored : Option (Package Bytes))
      → get reg name ≡ some inst
      → lookup inst.path reg.files ≡ some stored
      → verify_installed c reg name ≡ verify_package c reg.keystore reg.revocations stored
  unfolding verify_installed
  verify_installed-found reg name inst stored known found =
      ground (arith, known, verify_stored-found reg inst stored found)

  -- A package in its place is verified there.
  pub verify_installed-put_package :
      (reg : PackageRegistry Bytes) (name version : String) (source : Option (Package Bytes))
      → verify_installed c (put_package reg name version source) name
        ≡ verify_package c reg.keystore reg.revocations source
  unfolding put_package get
  verify_installed-put_package reg name version source =
      verify_installed-found (put_package reg name version source) name
        (entry_of name version source) source
        (lookup-insert_self name (entry_of name version source) reg.index)
        (lookup-insert_self (stem name version) source reg.files)

  install-accepted :
      (reg : PackageRegistry Bytes) (source : Option (Package Bytes)) (name version : String)
      → verify_package c reg.keystore reg.revocations source ≡ ok (name, version)
      → install c reg source ≡ (ok (name, version), put_package reg name version source)
  unfolding install
  install-accepted reg source name version accepted = ground (arith, accepted)

  install-refused :
      (reg : PackageRegistry Bytes) (source : Option (Package Bytes)) (e : LoadError)
      → verify_package c reg.keystore reg.revocations source ≡ err e
      → install c reg source ≡ (err e, reg)
  unfolding install
  install-refused reg source e refused = ground (arith, refused)

  -- `install` gives what `verify_package` gives; a package that it refuses leaves the registry as it
  -- was, and a package that it accepts passes the verification at the next execution.
  pub install-verify_installed :
      (reg : PackageRegistry Bytes) (source : Option (Package Bytes))
      → ((e : LoadError) × (verify_package c reg.keystore reg.revocations source ≡ err e)
          × (install c reg source ≡ (err e, reg)))
        ⊎ ((name : String) × (version : String) × (install c reg source).0 ≡ ok (name, version)
            × (verify_installed c (install c reg source).1 name ≡ ok (name, version)))
  install-verify_installed reg source =
      elim (Result-cases (verify_package c reg.keystore reg.revocations source)) [
        | inr (e, refused) ↦ inl (e, refused, install-refused reg source e refused)
        | inl (named, accepted) ↦
            let done = install-accepted reg source named.0 named.1 accepted in
            inr (
              named.0,
              named.1,
              ap (λ r. r.0) done,
              ap (λ r. verify_installed c r.1 named.0) done
                  ∙ (verify_installed-put_package reg named.0 named.1 source ∙ accepted),
            )
      ]
