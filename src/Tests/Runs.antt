-- ===== src/Tests/Runs.antt =====
-- The kernel at concrete inputs.
use selfconnect_runtime.Base.{
  String, ◌≡◌, refl, ◌⊎◌, inl, inr, true, false, none, some, [], ◌∷◌, arith, string_eq, filter,
  find, ok,
}
use selfconnect_runtime.Gateway.{ToolCall}
use selfconnect_runtime.State.{
  empty_store, journal_tail, journal_rows, tool_result_get, approval_get,
}
use selfconnect_runtime.State.Numbering.{IsNumbered}
use selfconnect_runtime.Ledger.{ledger_rows}
use selfconnect_runtime.Ledger.Chain.{IsChained}
use selfconnect_runtime.Kernel.{
  permitted, needs_approval, intend, result_for, run_tool, execute_call, execute_single,
  pending_rounds, execute_pending, run, resume, pending_of, decide, recover, clean, resumed,
  quarantined, approval_id,
}
use selfconnect_runtime.Kernel.Effects.{Untouched}
use selfconnect_runtime.Kernel.Growth.{Grows, after_run, run-Untouched, run-IsChained}
use selfconnect_runtime.Kernel.Recovery.{folded, reviewed}
use selfconnect_runtime.Kernel.Crashes.{
  key_in, recover-intend, recover-result_for, recover-execute_call,
}
use selfconnect_runtime.Kernel.Confinement.{IsApproved}
use selfconnect_runtime.Kernel.Confined.{Keeps, run-confined}
use selfconnect_runtime.Kernel.Results.{IsResult, run-IsResult}
use selfconnect_runtime.Kernel.Pending.{pending_rounds-enough, execute_single-paused}
use selfconnect_runtime.Tests.Data.{kernel, guarded, fresh, bump, bump_call}

bump-permitted : permitted kernel "s" bump_call ≡ ok bump
unfolding permitted string_eq selfconnect_runtime.Capability.classification_rank
bump-permitted = refl

recover-execute_call_example :
    let (result, w') = execute_call kernel "s" bump_call fresh in
    (tool_result_get w'.store (key_in kernel "s" bump_call empty_store) ≡ some result)
    × (w'.world ≡ elim (tool_result_get empty_store (key_in kernel "s" bump_call empty_store)) [
      | none ↦ 1
      | some _ ↦ 0
    ])
    × (recover "s" w'.store ≡ (w'.store, clean))
recover-execute_call_example = recover-execute_call kernel "s" bump_call bump fresh bump-permitted

recover-result_for_example :
    let (intent, w') = intend kernel "s" bump_call false fresh in
    let (result, stored) =
      result_for kernel "s" bump_call intent.1 (run_tool kernel "s" bump bump_call) w' in
    (tool_result_get stored.store intent.1 ≡ some result)
    × (recover "s" stored.store ≡ (folded "s" stored.store intent.0 intent.1, resumed))
recover-result_for_example = recover-result_for kernel "s" bump_call bump false fresh

recover-intend_example :
    let (intent, w') = intend kernel "s" bump_call false fresh in
    (w'.world ≡ 0)
    × (recover "s" w'.store
        ≡ (reviewed "s" w'.store "bump" (key_in kernel "s" bump_call empty_store), quarantined))
unfolding find
recover-intend_example =
    recover-intend kernel "s" bump_call false fresh (unfold tool_result_get in refl)

run-Untouched_example :
    Untouched kernel.py.codec "s" empty_store (after_run kernel "s" "hello" fresh)
    × Grows kernel.py.codec "s" empty_store (after_run kernel "s" "hello" fresh)
run-Untouched_example = run-Untouched kernel "s" "hello" fresh

pub fresh-IsNumbered : IsNumbered fresh.store
unfolding journal_rows filter
fresh-IsNumbered session = tt

pub fresh-IsChained : IsChained kernel.py.codec fresh.store
unfolding ledger_rows filter
fresh-IsChained session = tt

run-IsChained_example :
    IsNumbered (after_run kernel "s" "hello" fresh)
    × IsChained kernel.py.codec (after_run kernel "s" "hello" fresh)
run-IsChained_example = run-IsChained kernel "s" "hello" fresh fresh-IsNumbered fresh-IsChained

every_call_needs : (call : ToolCall) → needs_approval guarded "s" call ≡ true
unfolding needs_approval string_eq
every_call_needs call = refl

none_approved : (id : String) → approval_get empty_store id ≡ none
unfolding approval_get find
none_approved id = refl

never :
    (call : ToolCall)
    → (needs_approval guarded "s" call ≡ false) ⊎ IsApproved guarded "s" empty_store call
    → ⊥
never call (inl plain) = ground (arith, every_call_needs call)
never call (inr (d, e, fine)) = ground (arith, e, none_approved (approval_id guarded.py "s" call))

-- Without an approval on record, the world of the guarded kernel stays where it is.
guarded-Keeps : Keeps guarded "s" empty_store (λ n. n ≡ 0)
unfolding needs_approval approval_get
guarded-Keeps = record {
  tool_ok = λ call spec h w at. absurd (never call h.1);
  complete_ok = λ messages defs w at. at;
  monotonic_ok = λ w at. at;
  sleep_ok = λ seconds w at. at;
}

run-confined_example :
    ((run guarded "s" "hello" fresh).1.world ≡ 0) × ((resume guarded "s" fresh).1.world ≡ 0)
run-confined_example = run-confined guarded "s" (λ n. n ≡ 0) "hello" fresh guarded-Keeps refl

run-IsResult_example :
    IsResult "s" 4 (run kernel "s" "hello" fresh).0 × IsResult "s" 4 (resume kernel "s" fresh).0
run-IsResult_example = run-IsResult kernel "s" "hello" fresh

pending_rounds-enough_example :
    pending_rounds kernel "s" 3 (bump_call ∷ bump_call ∷ [])
    ≡ execute_pending kernel "s" (bump_call ∷ bump_call ∷ [])
pending_rounds-enough_example =
    pending_rounds-enough kernel "s" 3 (bump_call ∷ bump_call ∷ []) (omega arith)

bump_needs : needs_approval guarded "s" bump_call ≡ true
unfolding needs_approval string_eq
bump_needs = refl

abbrev asked : String
asked = approval_id guarded.py "s" bump_call

execute_single-paused_example :
    let (paused, w') = execute_single guarded "s" bump_call (bump_call ∷ []) fresh in
    let s = decide guarded "s" "approved" asked "ann" w'.store in
    (paused ≡ some asked)
    × (w'.world ≡ 0)
    × (pending_of (journal_tail s "s") ≡ some (bump_call ∷ []))
    × (approval_get s asked ≡ some (record { status = "approved"; approver = "ann" }))
unfolding find
execute_single-paused_example =
    execute_single-paused guarded "s" bump_call (bump_call ∷ []) fresh "approved" "ann" bump_needs
      (unfold approval_get in refl)
