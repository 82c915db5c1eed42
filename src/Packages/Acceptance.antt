-- ===== src/Packages/Acceptance.antt =====
-- scr/loader.py: which packages `verify_package` accepts.
use selfconnect_runtime.Base.{
  String, ◌≡◌, refl, sym, ◌∙◌, ◌↔◌, inl, inr, true, false, Option, none, some, List, [], ◌∷◌, arith,
  Bool-cases, Option-cases, string_eq, ◌==◌, contains, difference, ==_refl, difference-nil_contains,
  Dict, lookup, has_key, ok,
}
use selfconnect_runtime.Packages.{
  Crypto, Keystore, RevocationList, Signature, Package, keys_of, is_nil, same_text, trusts, bars,
  actual_file_hashes, find_tampered, check_files, check_signature, check_package, verify_package,
}
use selfconnect_runtime.Merkle.{merkle_root}

-- The two dictionaries have the same files with the same hashes.
abbrev pub Agree : Dict String String → Dict String String → Type 0
Agree declared actual = (path : String) → lookup path declared ≡ lookup path actual

contains-keys_of :
    {V : Type 0} (k : String) (d : Dict String V) → contains (keys_of d) k ≡ has_key k d
unfolding has_key lookup
contains-keys_of k [] = refl
contains-keys_of k ((j, v) ∷ d) = ground (arith, contains-keys_of k d)

lookup-absent :
    {V : Type 0} (k : String) (d : Dict String V)
    → contains (keys_of d) k ≡ false
    → lookup k d ≡ none
unfolding has_key
lookup-absent k d h = ground (arith, h, contains-keys_of k d)

Agree-keys :
    (d e : Dict String String)
    → Agree d e
    → (path : String) → contains (keys_of d) path ≡ true
    → contains (keys_of e) path ≡ true
unfolding has_key
Agree-keys d e h path there =
    ground (arith, there, h path, contains-keys_of path d, contains-keys_of path e)

is_nil-eq : {A : Type 0} (xs : List A) → is_nil xs ≡ true → xs ≡ []
is_nil-eq [] h = refl
is_nil-eq (x ∷ xs) h = ground (arith, h)

difference-covers :
    (s t : List String)
    → ((a : String) → contains s a ≡ true → contains t a ≡ true)
    → is_nil (difference s t) ≡ true
unfolding difference
difference-covers [] t h = refl
difference-covers (x ∷ s) t h =
    ground (
      arith,
      h x (ground (arith, ==_refl x)),
      difference-covers s t (λ a m. h a (ground (arith, m))),
    )

same_text-eq : (a b : Option String) → same_text a b ≡ true → a ≡ b
same_text-eq none none h = refl
same_text-eq none (some b) h = ground (arith, h)
same_text-eq (some a) none h = ground (arith, h)
same_text-eq (some a) (some b) h = ground (arith, h)

pub same_text_refl : (a : Option String) → same_text a a ≡ true
same_text_refl none = refl
same_text_refl (some a) = ==_refl a

module _ {Bytes : Type 0} (c : Crypto Bytes) where
  find_tampered-agree :
      (declared actual : Dict String String) (rels : List String)
      → ((path : String) → lookup path declared ≡ lookup path actual)
      → find_tampered c declared actual rels ≡ none
  unfolding find_tampered
  find_tampered-agree declared actual [] h = refl
  find_tampered-agree declared actual (rel ∷ rels) h =
      rw (h rel)
        (rw (same_text_refl (lookup rel actual)) (find_tampered-agree declared actual rels h))

  find_tampered-none :
      (declared actual : Dict String String) (rels : List String) (path : String)
      → find_tampered c declared actual rels ≡ none
      → contains rels path ≡ true
      → same_text (lookup path actual) (lookup path declared) ≡ true
  unfolding find_tampered
  find_tampered-none declared actual [] path h m = ground (arith, m)
  find_tampered-none declared actual (rel ∷ rels) path h m =
      ground (arith, h, m, find_tampered-none declared actual rels path)

  check_files-Agree :
      (declared actual : Dict String String)
      → Agree declared actual
      → check_files c declared actual ≡ ok tt
  unfolding check_files
  check_files-Agree declared actual h =
      rw (difference-covers (keys_of declared) (keys_of actual) (Agree-keys declared actual h)) (
        rw
          (difference-covers (keys_of actual) (keys_of declared)
            (Agree-keys actual declared (λ path. sym (h path))))
          (rw (find_tampered-agree declared actual (keys_of declared) h) refl))

  -- The three tests of the steps 1 and 2
  check_files-tests :
      (declared actual : Dict String String)
      → check_files c declared actual ≡ ok tt
      → (is_nil (difference (keys_of declared) (keys_of actual)) ≡ true)
        × (is_nil (difference (keys_of actual) (keys_of declared)) ≡ true)
        × (find_tampered c declared actual (keys_of declared) ≡ none)
  unfolding check_files
  check_files-tests declared actual h = (ground (arith, h), ground (arith, h), ground (arith, h))

  check_files-ok :
      (declared actual : Dict String String)
      → check_files c declared actual ≡ ok tt
      → Agree declared actual
  check_files-ok declared actual h path =
      let (all_there, none_more, none_tampered) = check_files-tests declared actual h in
      elim (Bool-cases (contains (keys_of declared) path)) [
        | inl there ↦ sym (
            same_text-eq _ _
              (find_tampered-none declared actual (keys_of declared) path none_tampered there))
        | inr absent ↦
            lookup-absent path declared absent
            ∙ sym (
                lookup-absent path actual (
                  ground (
                    arith,
                    absent,
                    difference-nil_contains (keys_of actual) (keys_of declared) path
                        (is_nil-eq _ none_more),
                  )))
      ]

  -- The steps 3 to 6 of `verify_package`
  pub record IsSigned (store : Keystore) (revocations : Option RevocationList) (p : Package Bytes)
      (sig : Signature) : Type 0 where
    pub rooted : (sig.merkle_root == merkle_root c.digests p.files) ≡ true
    pub verified : c.verify sig.public_key sig.signature (merkle_root c.digests p.files) ≡ true
    pub pinned : trusts c store sig.public_key ≡ true
    pub unbarred : bars c revocations store p.name p.version ≡ false

  check_signature-signed :
      (store : Keystore) (revocations : Option RevocationList) (p : Package Bytes) (sig : Signature)
      → IsSigned store revocations p sig
      → check_signature c store revocations p sig ≡ ok (p.name, p.version)
  unfolding check_signature
  check_signature-signed store revocations p sig h =
      ground (arith, h.rooted, h.verified, h.pinned, h.unbarred)

  check_signature-ok :
      (store : Keystore) (revocations : Option RevocationList) (p : Package Bytes) (sig : Signature)
      (named : String × String)
      → check_signature c store revocations p sig ≡ ok named
      → IsSigned store revocations p sig × (named ≡ (p.name, p.version))
  unfolding check_signature
  check_signature-ok store revocations p sig named h = (
    record {
      rooted = ground (arith, h);
      verified = ground (arith, h);
      pinned = ground (arith, h);
      unbarred = ground (arith, h);
    },
    ground (arith, h),
  )

  -- What `verify_package` asks of a package
  pub record IsAcceptable (store : Keystore) (revocations : Option RevocationList)
      (p : Package Bytes) : Type 0 where
    pub intact : Agree p.files (actual_file_hashes c p)
    pub sig : Signature
    pub has_sig : p.signature ≡ some sig
    pub signed : IsSigned store revocations p sig

  pub check_package-acceptable :
      (store : Keystore) (revocations : Option RevocationList) (p : Package Bytes)
      → IsAcceptable store revocations p
      → check_package c store revocations p ≡ ok (p.name, p.version)
  unfolding check_package
  check_package-acceptable store revocations p h =
      rw (check_files-Agree p.files (actual_file_hashes c p) h.intact)
        (rw h.has_sig (check_signature-signed store revocations p h.sig h.signed))

  check_package-files :
      (store : Keystore) (revocations : Option RevocationList) (p : Package Bytes)
      (named : String × String)
      → check_package c store revocations p ≡ ok named
      → check_files c p.files (actual_file_hashes c p) ≡ ok tt
  unfolding check_package
  check_package-files store revocations p named h = ground (arith, h)

  check_package-sig :
      (store : Keystore) (revocations : Option RevocationList) (p : Package Bytes)
      (named : String × String)
      → check_package c store revocations p ≡ ok named
      → (sig : Signature) × (p.signature ≡ some sig)
        × (check_signature c store revocations p sig ≡ ok named)
  unfolding check_package
  check_package-sig store revocations p named h = elim (Option-cases p.signature) [
    | inl absent ↦ ground (arith, absent, h)
    | inr (sig, found) ↦ (sig, found, ground (arith, found, h))
  ]

  pub check_package-ok :
      (store : Keystore) (revocations : Option RevocationList) (p : Package Bytes)
      (named : String × String)
      → check_package c store revocations p ≡ ok named
      → IsAcceptable store revocations p × (named ≡ (p.name, p.version))
  check_package-ok store revocations p named h =
      let (sig, found, accepted) = check_package-sig store revocations p named h in
      let (signed, same) = check_signature-ok store revocations p sig named accepted in
      (
        record {
          intact =
              check_files-ok p.files (actual_file_hashes c p)
                (check_package-files store revocations p named h);
          sig = sig;
          has_sig = found;
          signed = signed;
        },
        same,
      )

  -- `verify_package` accepts a package exactly when every file has the hash that the manifest declares
  -- and there is no other file, and the package has a signature whose root is that of the declared files
  -- and which verifies under a pinned key, and no honoured revocation list names the package's name and
  -- version.
  pub verify_package-accepts :
      (store : Keystore) (revocations : Option RevocationList) (p : Package Bytes)
      → (verify_package c store revocations (some p) ≡ ok (p.name, p.version))
        ↔ IsAcceptable store revocations p
  unfolding verify_package
  verify_package-accepts store revocations p = (
    λ h. (check_package-ok store revocations p (p.name, p.version) h).0,
    λ h. check_package-acceptable store revocations p h,
  )
