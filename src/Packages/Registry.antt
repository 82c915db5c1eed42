-- ===== src/Packages/Registry.antt =====
-- scr/registry.py: the installed packages. A file of the directory `packages` is named by its stem: the
-- `.scpkg` files and the `.scpkg.shadow` files are two dictionaries. A run of the self-tests is a
-- parameter: `none` when it raises. A write of the index or a copy that fails is not modelled.
use selfconnect_runtime.Base.{
  String, ◌<>◌, Bool, Option, none, some, if◌then◌else◌, string_eq, Dict, lookup, insert, erase, ok,
  err,
}
use selfconnect_runtime.Packages.{
  Crypto, Keystore, RevocationList, Package, LoadError, LoadResult, malformed_package,
  missing_files, unexpected_files, tampered_file, unsigned, root_mismatch, bad_signature,
  untrusted_key, revoked, not_installed, missing_on_disk, verify_package,
}

-- An entry of `installed.json`, which `InstalledPackage` gives with its name
pub record Installed : Type 0 where
  pub version : String
  pub path : String
  pub key_id : String

pub record PackageRegistry (Bytes : Type 0) : Type 0 where
  pub index : Dict String Installed
  pub files : Dict String (Option (Package Bytes))
  pub shadows : Dict String (Option (Package Bytes))
  pub keystore : Keystore
  pub revocations : Option RevocationList

abbrev pub stem : String → String → String
stem name version = name <> ("-" <> version)

pub data UpdateOutcome : Type 0 where
  verify_failed : LoadError → UpdateOutcome
  selftest_error : UpdateOutcome
  selftests_failed : String → UpdateOutcome
  promoted : String → UpdateOutcome

-- `(pkg.signature or {}).get("key_id", "")`
unfoldable pub recorded_key : {Bytes : Type 0} → Option (Package Bytes) → String
recorded_key none = ""
recorded_key (some p) = elim p.signature [ none ↦ "" | some sig ↦ sig.key_id ]

-- The copy to the package's place, and its entry of the index
unfoldable pub put_package :
    {Bytes : Type 0}
    → PackageRegistry Bytes
    → (name version : String) → Option (Package Bytes)
    → PackageRegistry Bytes
unfolding insert recorded_key
put_package reg name version source = record reg {
  files = insert (stem name version) source reg.files;
  index =
      insert name
        (record { version = version; path = stem name version; key_id = recorded_key source })
        reg.index;
}

unfoldable pub get : {Bytes : Type 0} → PackageRegistry Bytes → String → Option Installed
unfolding lookup
get reg name = lookup name reg.index

-- `error`, as `run_job` reports it
unfoldable pub error_name : LoadError → String
error_name malformed_package = "malformed_package"
error_name (missing_files rels) = "missing_files"
error_name (unexpected_files rels) = "unexpected_files"
error_name (tampered_file rel) = "tampered_file"
error_name unsigned = "unsigned"
error_name root_mismatch = "root_mismatch"
error_name bad_signature = "bad_signature"
error_name untrusted_key = "untrusted_key"
error_name revoked = "revoked"
error_name not_installed = "not_installed"
error_name missing_on_disk = "missing_on_disk"

module _ {Bytes : Type 0} (c : Crypto Bytes) where
  unfoldable pub install :
      PackageRegistry Bytes → Option (Package Bytes) → LoadResult × PackageRegistry Bytes
  unfolding verify_package put_package
  install reg source = elim (verify_package c reg.keystore reg.revocations source) [
    | err e ↦ (err e, reg)
    | ok (name, version) ↦ (ok (name, version), put_package reg name version source)
  ]

  -- `verify_installed` of an entry of the index
  unfoldable pub verify_stored : PackageRegistry Bytes → Installed → LoadResult
  unfolding verify_package lookup
  verify_stored reg inst = elim (lookup inst.path reg.files) [
    | none ↦ err missing_on_disk
    | some stored ↦ verify_package c reg.keystore reg.revocations stored
  ]

  unfoldable pub verify_installed : PackageRegistry Bytes → String → LoadResult
  unfolding get verify_stored
  verify_installed reg name = elim (get reg name) [
    | none ↦ err not_installed
    | some inst ↦ verify_stored reg inst
  ]

  -- The part of `shadow_update` after the package is verified
  unfoldable pub try_shadow :
      PackageRegistry Bytes
      → (name version : String) → Option (Package Bytes)
      → Option Bool
      → UpdateOutcome × PackageRegistry Bytes
  unfolding insert erase put_package
  try_shadow reg name version source tested =
      let shadow = record reg { shadows = insert (stem name version) source reg.shadows } in
      let cleared = record shadow { shadows = erase (stem name version) shadow.shadows } in
      elim tested [
        | none ↦ (selftest_error, cleared)
        | some passed ↦
            if passed
            then (promoted version, put_package cleared name version source)
            else (selftests_failed version, cleared)
      ]

  unfoldable pub shadow_update :
      PackageRegistry Bytes
      → Option (Package Bytes)
      → (Option (Package Bytes) → Option Bool)
      → UpdateOutcome × PackageRegistry Bytes
  unfolding verify_package try_shadow
  shadow_update reg source run_selftests =
      elim (verify_package c reg.keystore reg.revocations source) [
        | err e ↦ (verify_failed e, reg)
        | ok (name, version) ↦ try_shadow reg name version source (run_selftests source)
      ]

  -- `reload`: the fresh manifest, as the package that holds it
  unfoldable pub reload : PackageRegistry Bytes → String → Option (Package Bytes)
  unfolding verify_installed get lookup
  reload reg name = elim (verify_installed reg name) [
    | err e ↦ none
    | ok named ↦ elim (get reg name) [
      | none ↦ none
      | some inst ↦ elim (lookup inst.path reg.files) [ none ↦ none | some stored ↦ stored ]
    ]
  ]

  -- The error that `session_guard`'s callable gives for a package that is not `ok`.
  unfoldable pub session_guard : String → PackageRegistry Bytes → Option String
  unfolding verify_installed error_name
  session_guard name reg = elim (verify_installed reg name) [
    | ok named ↦ none
    | err e ↦ some (error_name e)
  ]
