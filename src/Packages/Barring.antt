-- ===== src/Packages/Barring.antt =====
-- scr/registry.py and scr/sessions.py: the verification at the start of a run, by `session_guard`.
use selfconnect_runtime.Base.{
  String, ◌≡◌, ◌∙◌, ◌≢◌, inl, inr, Option, some, arith, string_eq, lookup, insert,
  lookup-insert_self, ok, err, Result-cases,
}
use selfconnect_runtime.State.{JobRow, job_get}
use selfconnect_runtime.Kernel.{Kernel, World, RunResult}
use selfconnect_runtime.Sessions.{run_job, package_error}
use selfconnect_runtime.Sessions.Jobs.{run_job-barred}
use selfconnect_runtime.Packages.{
  Crypto, Keystore, RevocationList, Package, LoadError, actual_file_hashes, check_package,
  verify_package,
}
use selfconnect_runtime.Packages.Acceptance.{check_package-ok}
use selfconnect_runtime.Packages.Registry.{
  Installed, PackageRegistry, get, verify_installed, session_guard, error_name,
}
use selfconnect_runtime.Packages.Execution.{verify_installed-found}

module _ {Bytes : Type 0} (c : Crypto Bytes) where
  verify_package-altered :
      (store : Keystore) (revocations : Option RevocationList) (p : Package Bytes) (path : String)
      → lookup path p.files ≢ lookup path (actual_file_hashes c p)
      → (e : LoadError) × (verify_package c store revocations (some p) ≡ err e)
  unfolding verify_package
  verify_package-altered store revocations p path altered =
      elim (Result-cases (check_package c store revocations p)) [
        | inl (named, accepted) ↦
            elim (altered
              ((check_package-ok c store revocations p named accepted).0.intact path)) [ ]
        | inr refused ↦ refused
      ]

  session_guard-refused :
      (reg : PackageRegistry Bytes) (name : String) (e : LoadError)
      → verify_installed c reg name ≡ err e
      → session_guard c name reg ≡ some (error_name e)
  unfolding session_guard
  session_guard-refused reg name e refused = ground (arith, refused)

  session_guard-altered :
      (reg : PackageRegistry Bytes) (name : String) (inst : Installed) (p : Package Bytes)
      (path : String)
      → get reg name ≡ some inst
      → lookup inst.path reg.files ≡ some (some p)
      → lookup path p.files ≢ lookup path (actual_file_hashes c p)
      → (detail : String) × (session_guard c name reg ≡ some detail)
  session_guard-altered reg name inst p path known found altered =
      let (e, refused) = verify_package-altered reg.keystore reg.revocations p path altered in
      (
        error_name e,
        session_guard-refused reg name e
            (verify_installed-found c reg name inst (some p) known found ∙ refused),
      )

  package_error-guard :
      {W : Type 0} (kernel_factory : String → Kernel W) (guard : W → Option String)
      (kill_all : String → W → W) (w : World W) (detail : String)
      → guard w.world ≡ some detail
      → package_error kernel_factory (some guard) kill_all w ≡ some detail
  unfolding package_error
  package_error-guard kernel_factory guard kill_all w detail h = h

  -- A job of a package whose stored file contradicts itself is not run: where some path in the stored
  -- file has not the hash that the manifest inside the same file declares for it (a member changed,
  -- missing or added, with the manifest left as it was), `run_job` with the registry's `session_guard`
  -- leaves the world as it was and reports no iteration.
  pub run_job-altered :
      {W : Type 0} (kernel_factory : String → Kernel W) (registry : W → PackageRegistry Bytes)
      (kill_all : String → W → W) (id : String) (w : World W) (job : JobRow) (name : String)
      (inst : Installed) (p : Package Bytes) (path : String)
      → job_get w.store id ≡ some job
      → get (registry w.world) name ≡ some inst
      → lookup inst.path (registry w.world).files ≡ some (some p)
      → lookup path p.files ≢ lookup path (actual_file_hashes c p)
      → let guard = λ (v : W). session_guard c name (registry v) in
        (result : RunResult) × (w' : World W) × (run_job kernel_factory (some guard) kill_all id w
          ≡ ok (result, w'))
        × (w'.world ≡ w.world)
        × (result.iterations ≡ 0)
  run_job-altered {W} kernel_factory registry kill_all id w job name inst p path queued known found
        altered =
      let guard = λ (v : W). session_guard c name (registry v) in
      let (detail, refused) =
        session_guard-altered (registry w.world) name inst p path known found altered in
      run_job-barred kernel_factory (some guard) kill_all id w job queued
        (inr (detail, package_error-guard kernel_factory guard kill_all w detail refused))

  -- The verification of an installed package accepts any package that verifies in the place of its
  -- file, whatever its name and version: neither the index's version nor its `key_id` is compared.
  pub verify_installed-swapped :
      (reg : PackageRegistry Bytes) (name : String) (inst : Installed) (q : Option (Package Bytes))
      (named : String × String)
      → get reg name ≡ some inst
      → verify_package c reg.keystore reg.revocations q ≡ ok named
      → verify_installed c (record reg { files = insert inst.path q reg.files }) name ≡ ok named
  unfolding get
  verify_installed-swapped reg name inst q named known accepted =
      verify_installed-found c (record reg { files = insert inst.path q reg.files }) name inst q
        known (lookup-insert_self inst.path q reg.files)
      ∙ accepted
