-- ===== src/Packages.antt =====
-- scr/signing.py, scr/package.py and scr/loader.py: the trust in a package. `Crypto` is what the code
-- takes of the cryptography and json libraries; a key that is no hexadecimal text is not modelled. A
-- package is what `Package` reads of a `.scpkg` file; the details of an error keep the order of the
-- manifest, where the source sorts them. `Package` hands over all members of the archive at once: a
-- member that the zip library refuses to read, whose exception leaves `verify_package`, is not modelled.
pub mod Acceptance
pub mod Names
pub mod Registry
pub mod Execution
pub mod Updates
pub mod Barring
pub mod Licenses
pub mod Requirements
use selfconnect_runtime.Base.{
  String, Bool, true, false, not, ◌&&◌, ◌||◌, Option, none, some, List, [], ◌∷◌, map, if◌then◌else◌,
  string_eq, ◌==◌, difference, any, Dict, lookup, insert, Result, ok, err, ◌>>=◌, ◌>>◌,
  require_else,
}
use selfconnect_runtime.Merkle.{Digests, merkle_root}

pub record Crypto (Bytes : Type 0) : Type 0 where
  pub digests : Digests Bytes
  -- `verify` of a public key, a signature and a message
  pub verify : String → String → String → Bool
  -- `s[:16]`
  pub first16 : String → String
  -- `_message` of the revoked pairs
  pub message : List (String × String) → String

-- `Keystore`: the public key of an id
pub record Keystore : Type 0 where
  pub keys : Dict String String

pub record RevocationList : Type 0 where
  pub revoked : List (String × String)
  pub public_key : String
  pub signature : String

-- The SIGNATURE member
pub record Signature : Type 0 where
  pub merkle_root : String
  pub key_id : String
  pub public_key : String
  pub signature : String

-- `Package`: the manifest's name, version and files, the members but the manifest and the signature,
-- and the signature.
pub record Package (Bytes : Type 0) : Type 0 where
  pub name : String
  pub version : String
  pub files : Dict String String
  pub members : Dict String Bytes
  pub signature : Option Signature

pub data LoadError : Type 0 where
  malformed_package : LoadError
  missing_files : List String → LoadError
  unexpected_files : List String → LoadError
  tampered_file : String → LoadError
  unsigned : LoadError
  root_mismatch : LoadError
  bad_signature : LoadError
  untrusted_key : LoadError
  revoked : LoadError
  not_installed : LoadError
  missing_on_disk : LoadError

-- `LoadResult`: the name and the version of a package that is `ok`
abbrev pub LoadResult : Type 0
LoadResult = Result LoadError (String × String)

abbrev pub keys_of : {V : Type 0} → Dict String V → List String
keys_of [] = []
keys_of ((k, v) ∷ d) = k ∷ keys_of d

abbrev pub is_nil : {A : Type 0} → List A → Bool
is_nil [] = true
is_nil (x ∷ xs) = false

abbrev pub same_text : Option String → Option String → Bool
same_text none none = true
same_text (some a) (some b) = a == b
same_text _ _ = false

module _ {Bytes : Type 0} (c : Crypto Bytes) where
  unfoldable pub key_id : String → String
  key_id public_key =
      c.first16 (c.digests.hex (c.digests.sha256 (c.digests.fromhex public_key ∷ [])))

  -- `Keystore.add`
  unfoldable pub add : Keystore → String → Keystore
  unfolding key_id insert
  add store public_key = record { keys = insert (key_id public_key) public_key store.keys }

  -- `Keystore.trusts`
  unfoldable pub trusts : Keystore → String → Bool
  unfolding key_id lookup
  trusts store public_key = same_text (lookup (key_id public_key) store.keys) (some public_key)

  -- `RevocationList.is_valid`
  unfoldable pub is_valid : RevocationList → Keystore → Bool
  unfolding trusts
  is_valid r store =
      if r.signature == "" || not (trusts store r.public_key)
      then false
      else c.verify r.public_key r.signature (c.message r.revoked)

  -- `RevocationList.is_revoked`
  unfoldable pub is_revoked : RevocationList → String → String → Bool
  unfolding any
  is_revoked r package_name version =
      any (λ (p : String × String). p.0 == package_name && p.1 == version) r.revoked

  -- `actual_file_hashes`
  unfoldable pub actual_file_hashes : Package Bytes → Dict String String
  actual_file_hashes p =
      map (λ (m : String × Bytes). (m.0, c.digests.hex (c.digests.sha256 (m.1 ∷ [])))) p.members

  -- The loop over the declared files: the first whose hash is not the declared one.
  unfoldable pub find_tampered :
      Dict String String → Dict String String → List String → Option String
  unfolding lookup
  find_tampered declared actual [] = none
  find_tampered declared actual (rel ∷ rels) =
      let rest = find_tampered declared actual rels in
      if same_text (lookup rel actual) (lookup rel declared) then rest else some rel

  -- The steps 1 and 2
  unfoldable pub check_files : Dict String String → Dict String String → Result LoadError (Unit {0})
  unfolding difference find_tampered
  check_files declared actual = do
    _ ←
        require_else (is_nil (difference (keys_of declared) (keys_of actual)))
          (missing_files (difference (keys_of declared) (keys_of actual)))
    _ ←
        require_else (is_nil (difference (keys_of actual) (keys_of declared)))
          (unexpected_files (difference (keys_of actual) (keys_of declared)))
    elim (find_tampered declared actual (keys_of declared)) [
      | none ↦ ok tt
      | some rel ↦ err (tampered_file rel)
    ]

  -- `revocations is not None and revocations.is_valid(keystore) and revocations.is_revoked(...)`
  unfoldable pub bars : Option RevocationList → Keystore → String → String → Bool
  unfolding is_valid is_revoked
  bars none store package_name version = false
  bars (some r) store package_name version = is_valid r store && is_revoked r package_name version

  -- The steps 3 to 6, with a signature
  unfoldable pub check_signature :
      Keystore → Option RevocationList → Package Bytes → Signature → LoadResult
  unfolding merkle_root trusts bars
  check_signature store revocations p sig = do
    _ ← require_else (sig.merkle_root == merkle_root c.digests p.files) root_mismatch
    _ ←
        require_else (c.verify sig.public_key sig.signature (merkle_root c.digests p.files))
          bad_signature
    _ ← require_else (trusts store sig.public_key) untrusted_key
    _ ← require_else (not (bars revocations store p.name p.version)) revoked
    ok (p.name, p.version)

  unfoldable pub check_package : Keystore → Option RevocationList → Package Bytes → LoadResult
  unfolding check_files actual_file_hashes check_signature
  check_package store revocations p = do
    _ ← check_files p.files (actual_file_hashes p)
    elim p.signature [ none ↦ err unsigned | some sig ↦ check_signature store revocations p sig ]

  -- `verify_package`; `none` is a file that `Package` cannot read.
  unfoldable pub verify_package :
      Keystore → Option RevocationList → Option (Package Bytes) → LoadResult
  unfolding check_package
  verify_package store revocations none = err malformed_package
  verify_package store revocations (some p) = check_package store revocations p

  -- The key of a package that is signed with one
  unfoldable pub own_keys : Package Bytes → Keystore
  unfolding add
  own_keys p = elim p.signature [
    | none ↦ record { keys = [] }
    | some sig ↦
        if sig.public_key == ""
        then record { keys = [] }
        else add (record { keys = [] }) sig.public_key
  ]

  unfoldable pub integrity_check : Option (Package Bytes) → LoadResult
  unfolding verify_package own_keys
  integrity_check none = err malformed_package
  integrity_check (some p) = verify_package (own_keys p) none (some p)
