-- ===== src/Packages/Updates.antt =====
-- scr/registry.py: `shadow_update`, which promotes an update or leaves the installed packages alone.
use selfconnect_runtime.Base.{
  String, ◌≡◌, refl, sym, ◌∙◌, subst, ◌≢◌, ◌⊎◌, inl, inr, Bool, true, false, Option, none, some,
  arith, string_eq, Dict, insert, erase, ok, err, Result-cases,
}
use selfconnect_runtime.Packages.{Crypto, Package, LoadError, verify_package}
use selfconnect_runtime.Packages.Registry.{
  PackageRegistry, stem, UpdateOutcome, verify_failed, promoted, get, verify_stored,
  verify_installed, try_shadow, shadow_update,
}
use selfconnect_runtime.Packages.Execution.{verify_installed-put_package}

-- The update became the installed version: it verifies, its self-tests passed, and the verification at
-- the next execution accepts it.
abbrev pub Promotes :
    {Bytes : Type 0}
    → Crypto Bytes
    → PackageRegistry Bytes
    → Option (Package Bytes)
    → Option Bool
    → UpdateOutcome × PackageRegistry Bytes
    → Type 0
Promotes c reg source tested (outcome, t) =
    (name : String) × (version : String) × (outcome ≡ promoted version)
    × (tested ≡ some true)
    × (verify_package c reg.keystore reg.revocations source ≡ ok (name, version))
    × (verify_installed c t name ≡ ok (name, version))

-- The index and the installed files are as they were, and so is every verification.
abbrev pub RollsBack :
    {Bytes : Type 0}
    → Crypto Bytes
    → PackageRegistry Bytes
    → UpdateOutcome × PackageRegistry Bytes
    → Type 0
RollsBack c reg (outcome, t) =
    ((version : String) → outcome ≢ promoted version)
    × (t.index ≡ reg.index)
    × (t.files ≡ reg.files)
    × ((name : String) → verify_installed c t name ≡ verify_installed c reg name)

module _ {Bytes : Type 0} (c : Crypto Bytes) where
  verify_installed-shadows :
      (reg : PackageRegistry Bytes) (shadows : Dict String (Option (Package Bytes))) (name : String)
      → verify_installed c (record reg { shadows = shadows }) name ≡ verify_installed c reg name
  unfolding verify_installed verify_stored get
  verify_installed-shadows reg shadows name = refl

  try_shadow-Promotes :
      (reg : PackageRegistry Bytes) (name version : String) (source : Option (Package Bytes))
      → verify_package c reg.keystore reg.revocations source ≡ ok (name, version)
      → Promotes c reg source (some true) (try_shadow c reg name version source (some true))
  unfolding try_shadow
  try_shadow-Promotes reg name version source accepted = (
    name,
    version,
    refl,
    refl,
    accepted,
    verify_installed-put_package c
          (record reg {
            shadows = erase (stem name version) (insert (stem name version) source reg.shadows);
          })
          name version source
        ∙ accepted,
  )

  try_shadow-RollsBack :
      (reg : PackageRegistry Bytes) (name version : String) (source : Option (Package Bytes))
      (tested : Option Bool)
      → tested ≢ some true
      → RollsBack c reg (try_shadow c reg name version source tested)
  unfolding try_shadow
  try_shadow-RollsBack reg name version source none h =
      (λ v p. ground (arith, p), refl, refl, λ other. verify_installed-shadows reg _ other)
  try_shadow-RollsBack reg name version source (some true) h = ground (arith, h refl)
  try_shadow-RollsBack reg name version source (some false) h =
      (λ v p. ground (arith, p), refl, refl, λ other. verify_installed-shadows reg _ other)

  try_shadow-outcome :
      (reg : PackageRegistry Bytes) (name version : String) (source : Option (Package Bytes))
      (tested : Option Bool)
      → verify_package c reg.keystore reg.revocations source ≡ ok (name, version)
      → Promotes c reg source tested (try_shadow c reg name version source tested)
        ⊎ RollsBack c reg (try_shadow c reg name version source tested)
  try_shadow-outcome reg name version source none accepted =
      inr (try_shadow-RollsBack reg name version source none (λ p. ground (arith, p)))
  try_shadow-outcome reg name version source (some true) accepted =
      inl (try_shadow-Promotes reg name version source accepted)
  try_shadow-outcome reg name version source (some false) accepted =
      inr (try_shadow-RollsBack reg name version source (some false) (λ p. ground (arith, p)))

  shadow_update-refused :
      (reg : PackageRegistry Bytes) (source : Option (Package Bytes))
      (run_selftests : Option (Package Bytes) → Option Bool) (e : LoadError)
      → verify_package c reg.keystore reg.revocations source ≡ err e
      → shadow_update c reg source run_selftests ≡ (verify_failed e, reg)
  unfolding shadow_update
  shadow_update-refused reg source run_selftests e refused = ground (arith, refused)

  shadow_update-accepted :
      (reg : PackageRegistry Bytes) (source : Option (Package Bytes))
      (run_selftests : Option (Package Bytes) → Option Bool) (name version : String)
      → verify_package c reg.keystore reg.revocations source ≡ ok (name, version)
      → shadow_update c reg source run_selftests
        ≡ try_shadow c reg name version source (run_selftests source)
  unfolding shadow_update
  shadow_update-accepted reg source run_selftests name version accepted =
      rw (accepted, shadow_update) refl

  -- An update is either promoted, and then it verifies, its self-tests passed and the next execution's
  -- verification accepts it, or the index, the installed files and every verification of an installed
  -- package are as before the update.
  pub shadow_update-safe :
      (reg : PackageRegistry Bytes) (source : Option (Package Bytes))
      (run_selftests : Option (Package Bytes) → Option Bool)
      → Promotes c reg source (run_selftests source) (shadow_update c reg source run_selftests)
        ⊎ RollsBack c reg (shadow_update c reg source run_selftests)
  shadow_update-safe reg source run_selftests =
      let Outcome = λ (r : UpdateOutcome × PackageRegistry Bytes).
        Promotes c reg source (run_selftests source) r ⊎ RollsBack c reg r in
      elim (Result-cases (verify_package c reg.keystore reg.revocations source)) [
        | inr (e, refused) ↦
            subst Outcome (sym (shadow_update-refused reg source run_selftests e refused))
              (inr (λ v p. ground (arith, p), refl, refl, λ name. refl))
        | inl (named, accepted) ↦
            subst Outcome
              (sym (shadow_update-accepted reg source run_selftests named.0 named.1 accepted))
              (try_shadow-outcome reg named.0 named.1 source (run_selftests source) accepted)
      ]
