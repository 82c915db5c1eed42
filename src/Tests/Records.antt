-- ===== src/Tests/Records.antt =====
-- The store and the ledger at concrete inputs.
use selfconnect_runtime.Base.{
  String, ◌≡◌, refl, ap, subst, ◌≢◌, ◌⊎◌, true, none, some, if◌then◌else◌, string_eq, ◌==◌, length,
}
use selfconnect_runtime.State.{Store, empty_store}
use selfconnect_runtime.Ledger.{
  VerifyResult, genesis, seal_of, append, seal, verify, head, ledger_rows, seal_mismatch,
}
use selfconnect_runtime.Ledger.Sealed.{
  Written, started, appended, accepted, verify-Written, verify-seal,
}
use selfconnect_runtime.Ledger.Extensions.{
  Later, same, appended_any, sealed, verify-append_after_seal,
}
use selfconnect_runtime.Ledger.Tamper.{Collision, hashed_texts, events_of, ordered, verify-commits}
use selfconnect_runtime.Tests.Data.{texts}

abbrev pub written : Store
written = (append texts empty_store "s" "hello").0

written-Written : Written texts written
written-Written = appended "s" "hello" (started empty_store refl)

unsealed : seal_of written "s" ≡ none
unfolding seal_of append
unsealed = refl

verify-seal_example :
    (verify texts (seal texts written "s" "key").0 "s" (some "key")
      ≡ accepted (length (ledger_rows written "s")) (head written "s").0)
    × (verify texts (seal texts written "s" "key").0 "s" none
        ≡ accepted (length (ledger_rows written "s")) (head written "s").0)
verify-seal_example = verify-seal texts (λ e. refl) "s" "key" written-Written

abbrev sealed_elsewhere : Store
sealed_elsewhere =
    (seal texts (append texts (seal texts written "s" "key").0 "t" "there").0 "t" "key").0

abbrev other : String
other = "t"

other_session : "s" ≢ other
unfolding string_eq
other_session e = subst (λ (s : String). if s == "s" then Unit {0} else ⊥) e tt

more_written : Later texts "s" (seal texts written "s" "key").0 sealed_elsewhere
more_written = sealed "t" "key" other_session (appended_any "t" "there" same)

verify-append_after_seal_example :
    (verify texts
      (append texts (append texts sealed_elsewhere "s" "more").0 "t" "last").0
      "s"
      none).error
    ≡ some seal_mismatch
verify-append_after_seal_example =
    verify-append_after_seal texts "s" (λ e. refl) "key" "more" none written-Written more_written
      (appended_any "t" "last" same)

written_passes : (verify texts written "s" none).is_ok ≡ true
written_passes =
    ap (λ (r : VerifyResult). r.is_ok)
      (verify-Written texts (λ e. refl) "s" none written-Written unsealed)

verify-commits_example :
    Collision texts
      (hashed_texts texts genesis (ordered texts written "s"))
      (hashed_texts texts genesis (ordered texts written "s"))
    ⊎ (events_of texts (ordered texts written "s") ≡ events_of texts (ordered texts written "s"))
verify-commits_example =
    verify-commits texts (λ e. refl) (λ x. refl) written written "s" "s" none none written_passes
      written_passes refl refl
