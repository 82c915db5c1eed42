-- ===== src/Tests/Trust.antt =====
-- Packages, licences, requirements and controls at concrete inputs.
use selfconnect_runtime.Base.{
  ℕ, ◌≤◌, String, ◌≡◌, refl, ◌≢◌, ◌↔◌, ◌⊎◌, true, false, Option, none, some, [], ◌∷◌, arith,
  if◌then◌else◌, string_eq, ◌==◌, length, filter, find, lookup, insert, ok, err,
}
use selfconnect_runtime.State.{JobRow, empty_store, job_get}
use selfconnect_runtime.Kernel.{World, RunResult}
use selfconnect_runtime.Sessions.{run_job}
use selfconnect_runtime.Semver.{Matching}
use selfconnect_runtime.Packages.{
  Crypto, Keystore, RevocationList, Package, revoked, bars, actual_file_hashes, verify_package,
  LoadError,
}
use selfconnect_runtime.Packages.Acceptance.{IsAcceptable, verify_package-accepts}
use selfconnect_runtime.Packages.Names.{verify_package-renamed}
use selfconnect_runtime.Packages.Registry.{
  Installed, PackageRegistry, get, install, verify_installed, shadow_update, session_guard,
}
use selfconnect_runtime.Packages.Execution.{install-verify_installed}
use selfconnect_runtime.Packages.Updates.{Promotes, RollsBack, shadow_update-safe}
use selfconnect_runtime.Packages.Barring.{run_job-altered, verify_installed-swapped}
use selfconnect_runtime.Packages.Licenses.{
  License, LicenseFormat, check, may_run, may_read_evidence, IsAuthentic, check-allows,
}
use selfconnect_runtime.Packages.Requirements.{
  Requirements, check_requirements, IsCompatible, check_requirements-IsCompatible,
}
use selfconnect_runtime.Compliance.{Framework, evaluate}
use selfconnect_runtime.Compliance.Honesty.{controls_of, empty_run, is_free, evaluate-empty_run}
use selfconnect_runtime.Tests.Data.{kernel}

-- A digest is the first part, and a signature is the key that made it.
abbrev crypto : Crypto String
crypto = record {
  digests = record {
    sha256 = λ parts. elim parts [ [] ↦ "" | a ∷ rest ↦ a ];
    utf8 = λ s. s;
    fromhex = λ s. s;
    hex = λ s. s;
    sorted = λ d. d;
  };
  verify = λ public_key signature message. public_key == signature;
  first16 = λ s. s;
  message = λ pairs. "revoked";
}

abbrev tool_package : Package String
tool_package = record {
  name = "tool";
  version = "1.0.0";
  files = ("tool.py", "text") ∷ [];
  members = ("tool.py", "text") ∷ [];
  signature =
      some
        (record { merkle_root = "leaf:"; key_id = "key"; public_key = "key"; signature = "key" });
}

abbrev old_package : Package String
old_package = record tool_package { version = "0.9.0" }

abbrev keystore : Keystore
keystore = record { keys = ("key", "key") ∷ [] }

abbrev revocations : Option RevocationList
revocations =
    some (record { revoked = ("tool", "0.9.0") ∷ []; public_key = "key"; signature = "key" })

verify_package-accepts_example :
    (verify_package crypto keystore revocations (some tool_package) ≡ ok ("tool", "1.0.0"))
    ↔ IsAcceptable crypto keystore revocations tool_package
verify_package-accepts_example = verify_package-accepts crypto keystore revocations tool_package

old_revoked : verify_package crypto keystore revocations (some old_package) ≡ err revoked
unfolding verify_package string_eq
old_revoked = refl

new_allowed : bars crypto revocations keystore "tool" "2.0.0" ≡ false
unfolding bars string_eq
new_allowed = refl

verify_package-renamed_example :
    verify_package crypto keystore revocations
      (some (record old_package { name = "tool"; version = "2.0.0" }))
    ≡ ok ("tool", "2.0.0")
verify_package-renamed_example =
    verify_package-renamed crypto keystore revocations old_package "tool" "2.0.0" old_revoked
      new_allowed

abbrev registry : PackageRegistry String
registry = record {
  index = ("tool", record { version = "1.0.0"; path = "tool-1.0.0"; key_id = "key" }) ∷ [];
  files = ("tool-1.0.0", some tool_package) ∷ [];
  shadows = [];
  keystore = keystore;
  revocations = revocations;
}

install-verify_installed_example :
    ((e : LoadError) × (verify_package crypto keystore revocations (some tool_package) ≡ err e)
      × (install crypto registry (some tool_package) ≡ (err e, registry)))
    ⊎ ((name : String) × (version : String) × ((install crypto registry (some tool_package)).0
          ≡ ok (name, version))
        × (verify_installed crypto (install crypto registry (some tool_package)).1 name
            ≡ ok (name, version)))
install-verify_installed_example = install-verify_installed crypto registry (some tool_package)

shadow_update-safe_example :
    Promotes crypto registry
      (some tool_package)
      (some true)
      (shadow_update crypto registry (some tool_package) (λ p. some true))
    ⊎ RollsBack crypto registry (shadow_update crypto registry (some tool_package) (λ p. some true))
shadow_update-safe_example = shadow_update-safe crypto registry (some tool_package) (λ p. some true)

abbrev emptied : Package String
emptied = record tool_package { members = [] }

abbrev altered_registry : PackageRegistry String
altered_registry = record registry { files = ("tool-1.0.0", some emptied) ∷ [] }

abbrev installed_tool : Installed
installed_tool = record { version = "1.0.0"; path = "tool-1.0.0"; key_id = "key" }

tool_known : get altered_registry "tool" ≡ some installed_tool
unfolding get string_eq
tool_known = refl

tool_stored : lookup "tool-1.0.0" altered_registry.files ≡ some (some emptied)
unfolding lookup string_eq
tool_stored = refl

tool_altered : lookup "tool.py" emptied.files ≢ lookup "tool.py" (actual_file_hashes crypto emptied)
unfolding lookup actual_file_hashes string_eq
tool_altered = λ p. ground (arith, p)

abbrev queued : JobRow
queued = record {
  job_id = "job";
  session_id = "s";
  idem_key = "key";
  status = "queued";
  user_text = "hello";
  created_at = 0;
}

abbrev before_job : World ℕ
before_job = record { store = record empty_store { jobs = queued ∷ [] }; world = 1 }

queued_found : job_get before_job.store "job" ≡ some queued
unfolding job_get find string_eq
queued_found = refl

run_job-altered_example :
    (result : RunResult) × (w' : World ℕ) × (run_job
        (λ session. kernel)
        (some (λ n. session_guard crypto "tool" altered_registry))
        (λ id n. n)
        "job"
        before_job
      ≡ ok (result, w'))
    × (w'.world ≡ 1)
    × (result.iterations ≡ 0)
run_job-altered_example =
    run_job-altered crypto (λ session. kernel) (λ n. altered_registry) (λ id n. n) "job" before_job
      queued "tool" installed_tool emptied "tool.py" queued_found tool_known tool_stored
      tool_altered

abbrev other_package : Package String
other_package = record tool_package { name = "other" }

registry_known : get registry "tool" ≡ some installed_tool
unfolding get string_eq
registry_known = refl

other_accepted :
    verify_package crypto keystore revocations (some other_package) ≡ ok ("other", "1.0.0")
unfolding verify_package string_eq
other_accepted = refl

verify_installed-swapped_example :
    verify_installed crypto
      (record registry { files = insert "tool-1.0.0" (some other_package) registry.files })
      "tool"
    ≡ ok ("other", "1.0.0")
verify_installed-swapped_example =
    verify_installed-swapped crypto registry "tool" installed_tool (some other_package)
      ("other", "1.0.0") registry_known other_accepted

abbrev licence : License
licence = record {
  subject = "ann";
  seats = 2;
  features = [];
  not_after = 10;
  public_key = "key";
  signature = "key";
}

abbrev format : LicenseFormat
format = record {
  parse = λ text. if text == "licence" then some licence else none;
  payload = λ l. l.subject;
  verify = λ public_key signature message. public_key == signature;
}

check-allows_example :
    ((may_read_evidence (check format "licence" "key" 11) ≡ true)
      ↔ ((l : License) × IsAuthentic format "licence" "key" l))
    × ((may_run (check format "licence" "key" 11) ≡ true)
        ↔ ((l : License) × IsAuthentic format "licence" "key" l × (11 ≤ l.not_after)))
check-allows_example = check-allows format "licence" "key" 11

abbrev matching : Matching
matching = record {
  match_version =
      λ s. if s == "1.2.0" then some (record { major = 1; minor = 2; patch = 0 }) else none;
  strip = λ s. s;
  after_prefix = λ s op. if op == ">=" then some "1.2.0" else none;
}

abbrev needs : Requirements
needs = record {
  runtime_min = some "1.2.0";
  requires = ("base", ">=1.2.0") ∷ [];
  min_context = some 4096;
  tool_calls = true;
}

check_requirements-IsCompatible_example :
    (check_requirements matching needs "1.2.0"
        (("base", "1.2.0") ∷ [])
        (record { context = 8192; tool_calls = true })
      ≡ [])
    ↔ IsCompatible matching needs "1.2.0"
        (("base", "1.2.0") ∷ [])
        (record { context = 8192; tool_calls = true })
check_requirements-IsCompatible_example =
    check_requirements-IsCompatible matching needs "1.2.0" (("base", "1.2.0") ∷ [])
      (record { context = 8192; tool_calls = true })

abbrev catalogue : Framework
catalogue = record {
  framework_id = "nist";
  controls =
      record { id = "AU-2"; evidence_sources = "ledger.entries" ∷ "exporter.bundle" ∷ [] }
      ∷ record {
        id = "AU-9";
        evidence_sources = "policy.bundle.signature" ∷ "exporter.bundle" ∷ [];
      }
      ∷ [];
}

evaluate-empty_run_example :
    ((evaluate (λ s. s) (catalogue ∷ []) (empty_run 4)).controls_total ≡ 2)
    × ((evaluate (λ s. s) (catalogue ∷ []) (empty_run 4)).controls_satisfied
        ≡ length (filter (is_free (λ s. s)) (controls_of (λ s. s) (catalogue ∷ []))))
evaluate-empty_run_example = evaluate-empty_run (λ s. s) (catalogue ∷ []) 4 (omega arith)
