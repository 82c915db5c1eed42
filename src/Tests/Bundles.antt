-- ===== src/Tests/Bundles.antt =====
-- Evidence bundles and workspace locks at concrete inputs.
use selfconnect_runtime.Base.{
  ◌≤◌, String, ◌<>◌, ◌≡◌, refl, subst, ◌≢◌, ◌↔◌, ◌⊎◌, true, false, none, some, [], ◌∷◌, arith,
  if◌then◌else◌, string_eq, ◌==◌, length, filter, any, order_by, ok, err,
}
use selfconnect_runtime.State.{Store, LedgerRow, empty_store}
use selfconnect_runtime.Ledger.{Codec, genesis, chain_hash, check_rows, ledger_rows}
use selfconnect_runtime.Ledger
use selfconnect_runtime.Ledger.Tamper.{Collision, Collides}
use selfconnect_runtime.Ledger.Chain.{IsChained}
use selfconnect_runtime.Kernel.Growth.{after_run}
use selfconnect_runtime.Evidence.{
  Bundle, of_session, of_team, SessionBundle, Archive, Documents, export_bundle, export_team_bundle,
  verify_bundle, verify_session_bundle, recompute_chain, evidence_row,
}
use selfconnect_runtime.Evidence.Chains.{passes}
use selfconnect_runtime.Evidence.Exports.{IsFaithful, sort_bundle}
use selfconnect_runtime.Evidence.RoundTrip.{verify_bundle-export_team}
use selfconnect_runtime.Evidence.Sessions.{verify_bundle-run}
use selfconnect_runtime.Evidence.Tampering.{
  texts_of, hashed_rows, verify_session_bundle-commits, recompute_chain-stricter,
}
use selfconnect_runtime.Locks.{
  Files, no_files, open_lock, acquire, die, clear_lock, os_lock, os_unlock, unlink_lock,
}
use selfconnect_runtime.Locks.Interleaving.{fresh, opens, IsOpen, Shared, Steps}
use selfconnect_runtime.Locks.Exclusion.{
  Acquires, acquire-Steps, os_lock-single_writer, die-acquire,
}
use selfconnect_runtime.Locks.Race.{break_stale-race}
use selfconnect_runtime.Gateway.{null}
use selfconnect_runtime.Tests.Data.{kernel, texts, python, fresh as fresh_world}
use selfconnect_runtime.Tests.Runs.{fresh-IsNumbered, fresh-IsChained}

abbrev documents : Documents Bundle
documents = record {
  dumps = λ b. b;
  loads = λ b. some b;
  hmac_sha256 = λ key b. key;
  strip = λ s. s;
}

read_same : (b : Bundle) → some b ≡ some (sort_bundle (λ j. j) b)
read_same (of_session b) = refl
read_same (of_team b) = refl

same_document : (b : Bundle) → sort_bundle (λ j. j) b ≡ b
same_document (of_session b) = refl
same_document (of_team b) = refl

documents-IsFaithful : IsFaithful documents
documents-IsFaithful = record {
  sort_keys = λ j. j;
  reads_back = read_same;
  same_bytes = same_document;
  keeps_mac = λ key b. refl;
}

verify_bundle-run_example :
    verify_bundle python.codec documents "0.1"
      (export_bundle python.codec documents "0.1"
        (Ledger.seal python.codec (after_run kernel "s" "hello" fresh_world) "s" "key").0
        "s"
        "key"
        none)
      "key"
    ≡ ok true
verify_bundle-run_example =
    verify_bundle-run kernel documents "0.1" "s" "hello" "key" none fresh_world documents-IsFaithful
      fresh-IsNumbered fresh-IsChained

-- A team of one session, with an empty ledger
abbrev member_store : Store
member_store = record empty_store {
  team_sessions =
      record {
        team_id = "team";
        session_id = "s";
        agent = "lead";
        parent_session = none;
        depth = 0;
        created_at = 0;
      }
      ∷ [];
}

member_store-IsChained : IsChained python.codec member_store
unfolding ledger_rows filter
member_store-IsChained session = tt

abbrev no_archive : Archive Bundle
no_archive = export_bundle python.codec documents "0.1" empty_store "s" "key" none

abbrev team_archive : Archive Bundle
team_archive =
    elim (export_team_bundle python.codec documents "0.1" member_store "team" "key" none).1 [
      | ok a ↦ a
      | err e ↦ no_archive
    ]

team_exported :
    (export_team_bundle python.codec documents "0.1" member_store "team" "key" none).1
    ≡ ok team_archive
unfolding export_team_bundle string_eq order_by filter
team_exported = refl

verify_bundle-export_team_example :
    verify_bundle python.codec documents "0.1" team_archive "key" ≡ ok true
verify_bundle-export_team_example =
    verify_bundle-export_team python.codec documents "0.1" documents-IsFaithful member_store "team"
      "key" none team_archive member_store-IsChained team_exported

abbrev one_event : SessionBundle
one_event = record {
  runtime_version = "0.1";
  pkg = null;
  session_id = "s";
  events = record { seq = some 1; event = "hello"; hash = some genesis } ∷ [];
  seal = none;
}

one_event_accepted : (verify_session_bundle texts documents one_event "key" "key").is_ok ≡ true
unfolding verify_session_bundle string_eq
one_event_accepted = refl

verify_session_bundle-commits_example :
    Collision texts
      (hashed_rows texts documents genesis one_event.events)
      (hashed_rows texts documents genesis one_event.events)
    ⊎ (texts_of texts documents one_event.events ≡ texts_of texts documents one_event.events)
verify_session_bundle-commits_example =
    verify_session_bundle-commits texts documents (λ x. refl) one_event one_event "key" "key" "key"
      "key" one_event_accepted one_event_accepted refl refl

abbrev loose : Codec String
loose = record texts { loads = λ s. some "event" }

abbrev spaced : LedgerRow
spaced = record { session_id = "s"; seq = 1; event = " event"; hash = genesis }

spaced_differs : spaced.event ≢ loose.canonical "event"
unfolding string_eq
spaced_differs e = subst (λ (s : String). if s == " event" then Unit {0} else ⊥) e tt

spaced_hash : spaced.hash ≡ chain_hash loose genesis "event"
unfolding chain_hash
spaced_hash = refl

recompute_chain-stricter_example :
    (passes loose documents (check_rows loose genesis 1 (spaced ∷ [])) ≡ true)
    × (Collides loose (genesis <> spaced.event) (genesis <> loose.canonical "event")
        ⊎ ((recompute_chain loose documents (evidence_row spaced ∷ [])).is_ok ≡ false))
recompute_chain-stricter_example =
    recompute_chain-stricter loose documents spaced "event" refl spaced_differs refl spaced_hash

abbrev held_lock : Files
held_lock = (acquire 7 "boot" 0 no_files).1

-- Process 7 has acquired the lock, and process 8 has opened the lock file.
abbrev two_processes : Shared
two_processes = record { files = (open_lock held_lock).1; opened = (0, 8) ∷ (0, 7) ∷ [] }

two_processes-Steps : Steps two_processes
unfolding acquire open_lock
two_processes-Steps = opens 8 (acquire-Steps 7 "boot" 0 fresh)

opened_by_8 : IsOpen two_processes 0 8
unfolding any
opened_by_8 = refl

os_lock-single_writer_example :
    (length two_processes.files.held ≤ 1)
    × (((os_lock 0 8 two_processes.files).0 ≡ true) ↔ (two_processes.files.held ≡ []))
os_lock-single_writer_example = os_lock-single_writer 0 8 two_processes-Steps opened_by_8

held_by_7 : held_lock.held ≡ (0, 7) ∷ []
unfolding acquire
held_by_7 = refl

die-acquire_example : Acquires 8 "boot" 1 (die 7 held_lock)
die-acquire_example = die-acquire held_lock 0 7 8 "boot" 1 held_by_7

abbrev left_over : Files
left_over = record { path = some 0; held = []; next = 1; sidecar = none }

break_stale-race_example :
    let given_back = os_unlock 0 5 (os_lock 0 5 left_over).1 in
    let (first, one) = acquire 7 "boot" 1 given_back in
    let (second, two) = acquire 8 "boot" 1 (unlink_lock one) in
    (clear_lock 5 left_over ≡ unlink_lock (record given_back { sidecar = none }))
    × (first ≡ some 0)
    × (second ≡ some 1)
    × (two.held ≡ (1, 8) ∷ (0, 7) ∷ [])
break_stale-race_example = break_stale-race left_over 0 5 7 8 "boot" 1 refl (omega arith) refl
