-- ===== src/Kernel/Confinement.antt =====
-- scr/kernel.py: the world changes only through the adapter, the clock, and the tool calls that the
-- capability checks permit and that, where the policy wants an approval, have one.
use selfconnect_runtime.Base.{
  ℕ, zero, suc, String, ◌≡◌, sym, ap, ◌∙◌, ◌⊎◌, inl, inr, Bool, true, false, some, List, [], ◌∷◌,
  arith, Bool-cases, string_eq, ◌==◌, length, All, lookup, ok,
}
use selfconnect_runtime.Gateway.{ToolCall}
use selfconnect_runtime.State.{Store, Approval, ApprovalRow, approval_get}
use selfconnect_runtime.Kernel.Env.{Kernel, ToolSpec}
use selfconnect_runtime.Kernel.Monad.{K, from_option}
use selfconnect_runtime.Kernel.Text.{approval_id}
use selfconnect_runtime.Kernel.Execute.{
  cancelled_now, ledger_tool_error, needs_approval, permitted, intend, result_for, conclude,
  run_tool, execute_call, add_tool_msg, batch_eligible, persist_precomputed, run_all, fold_results,
  run_parallel_batch, eligible_run, execute_single, execute_decided, pause, pending_rounds,
  execute_pending,
}
use selfconnect_runtime.Kernel.Preserves.{
  Preserves, preserves_rules, Preserves-calls, Preserves-reads_bind,
}

module _ {W : Type 0} (k : Kernel W) (session : String) (start : Store) where
  -- An approval that is not a denial is on record for the call.
  abbrev pub IsApproved : ToolCall → Type 0
  IsApproved call =
      (d : Approval) × (approval_get start (approval_id k.py session call) ≡ some d)
      × ((d.status == "denied") ≡ false)

  -- The call passes the capability checks, and it needs no approval or has one.
  abbrev pub IsAuthorized : ToolCall → ToolSpec W → Type 0
  IsAuthorized call spec =
      (permitted k session call ≡ ok spec)
      × ((needs_approval k session call ≡ false) ⊎ IsApproved call)

  eligible-IsAuthorized :
      (call : ToolCall)
      → batch_eligible k session call ≡ true
      → (needs_approval k session call ≡ false)
        × ((spec : ToolSpec W)
            → lookup call.name k.tools ≡ some spec
            → permitted k session call ≡ ok spec)
  unfolding batch_eligible permitted
  eligible-IsAuthorized call h = (ground (arith, h), λ spec e. ground (arith, h, e))

  abbrev AllEligible : List ToolCall → Type 0
  AllEligible = All (λ call. batch_eligible k session call ≡ true)

  eligible_run-AllEligible :
      (pending : List ToolCall) → AllEligible (eligible_run k session pending).0
  unfolding eligible_run
  eligible_run-AllEligible [] = tt
  eligible_run-AllEligible (call ∷ rest) = elim (Bool-cases (batch_eligible k session call)) [
    | inl fits ↦ rw fits (fits, eligible_run-AllEligible rest)
    | inr bars ↦ rw bars tt
  ]

  module _ (P : W → Type 0)
      (tool_ok : (call : ToolCall) (spec : ToolSpec W)
        → IsAuthorized call spec
        → (w : W) → P w
        → P (spec.fn call.arguments w).1) where
    abbrev Ok : {A : Type 0} → K W A → Type 0
    Ok m = Preserves P start.approvals m

    Ok-ledger_tool_error : (tool result : String) → Ok (ledger_tool_error k session tool result)
    unfolding ledger_tool_error
    Ok-ledger_tool_error tool result = search preserves_rules

    Ok-conclude :
        (call : ToolCall) (seq : ℕ) (key : String) (par : Bool) (result : String)
        → Ok (conclude k session call seq key par result)
    unfolding conclude
    Ok-conclude call seq key par result = search (preserves_rules, Ok-ledger_tool_error) depth 12

    Ok-intend : (call : ToolCall) (idempotent : Bool) → Ok (intend k session call idempotent)
    unfolding intend
    Ok-intend call idempotent = search preserves_rules depth 12

    Ok-result_for :
        (call : ToolCall) (key : String) (run : K W String)
        → Ok run
        → Ok (result_for k session call key run)
    unfolding result_for
    Ok-result_for call key run r = search preserves_rules depth 12

    Ok-run_tool :
        (spec : ToolSpec W) (call : ToolCall)
        → IsAuthorized call spec
        → Ok (run_tool k session spec call)
    unfolding run_tool
    Ok-run_tool spec call h =
        let runs =
          Preserves-calls P start.approvals (spec.fn call.arguments) (tool_ok call spec h) in
        search preserves_rules depth 12

    Ok-execute_call :
        (call : ToolCall)
        → (needs_approval k session call ≡ false) ⊎ IsApproved call
        → Ok (execute_call k session call)
    unfolding execute_call
    Ok-execute_call call h =
        let runs : (spec : ToolSpec W)
            → permitted k session call ≡ ok spec
            → Ok (run_tool k session spec call) =
          λ spec e. Ok-run_tool spec call (e, h) in
        search (preserves_rules, Ok-intend, Ok-result_for, Ok-conclude) depth 14

    Ok-add_tool_msg : (call : ToolCall) (result : String) → Ok (add_tool_msg k session call result)
    unfolding add_tool_msg
    Ok-add_tool_msg call result = search preserves_rules

    Ok-persist_precomputed :
        (call : ToolCall) (result : String) → Ok (persist_precomputed k session call result)
    unfolding persist_precomputed
    Ok-persist_precomputed call result =
        search (preserves_rules, Ok-intend, Ok-result_for, Ok-conclude) depth 12

    Ok-run_all : (batch : List ToolCall) → AllEligible batch → Ok (run_all k session batch)
    unfolding run_all
    Ok-run_all [] h = search preserves_rules
    Ok-run_all (call ∷ batch) (fits, h) =
        let rest = Ok-run_all batch h in
        let (plain, allowed) = eligible-IsAuthorized call fits in
        let runs : (spec : ToolSpec W)
            → lookup call.name k.tools ≡ some spec
            → Ok (run_tool k session spec call) =
          λ spec e. Ok-run_tool spec call (allowed spec e, inl plain) in
        search preserves_rules depth 14

    Ok-fold_results : (results : List (ToolCall × String)) → Ok (fold_results k session results)
    unfolding fold_results
    Ok-fold_results [] = search preserves_rules
    Ok-fold_results ((call, result) ∷ results) =
        let rest = Ok-fold_results results in
        search (preserves_rules, Ok-persist_precomputed, Ok-add_tool_msg) depth 12

    Ok-run_parallel_batch :
        (batch : List ToolCall) → AllEligible batch → Ok (run_parallel_batch k session batch)
    unfolding run_parallel_batch
    Ok-run_parallel_batch batch h = search (preserves_rules, Ok-run_all, Ok-fold_results) depth 12

    -- Approval records are read from the store, which holds those of the start.
    approved :
        (s : Store) (call : ToolCall) (d : Approval)
        → s.approvals ≡ start.approvals
        → approval_get s (approval_id k.py session call) ≡ some d
        → (d.status == "denied") ≡ false
        → IsApproved call
    unfolding approval_get
    approved s call d same e fine = (
      d,
      ap
            (λ (rows : List ApprovalRow).
              approval_get (record start { approvals = rows }) (approval_id k.py session call))
            (sym same)
          ∙ e,
      fine,
    )

    Ok-execute_decided :
        (call : ToolCall) (d : Approval)
        → ((d.status == "denied") ≡ false → IsApproved call)
        → Ok (execute_decided k session call d)
    unfolding execute_decided
    Ok-execute_decided call d h =
        let runs : (d.status == "denied") ≡ false → Ok (execute_call k session call) =
          λ e. Ok-execute_call call (inr (h e)) in
        search (preserves_rules, Ok-add_tool_msg) depth 14

    Ok-pause : (call : ToolCall) (pending : List ToolCall) → Ok (pause k session call pending)
    unfolding pause
    Ok-pause call pending = search preserves_rules depth 14

    Ok-execute_single :
        (call : ToolCall) (pending : List ToolCall) → Ok (execute_single k session call pending)
    unfolding execute_single
    Ok-execute_single call pending =
        let plain : needs_approval k session call ≡ false → Ok (execute_call k session call) =
          λ e. Ok-execute_call call (inl e) in
        let wait = Ok-pause call pending in
        let decided : (s : Store)
            → s.approvals ≡ start.approvals
            → Ok (
                from_option (approval_get s (approval_id k.py session call))
                  (pause k session call pending) (λ d. execute_decided k session call d)) =
          λ s same.
            let go : (d : Approval)
                → approval_get s (approval_id k.py session call) ≡ some d
                → Ok (execute_decided k session call d) =
              λ d e. Ok-execute_decided call d (approved s call d same e) in
            search preserves_rules depth 12 in
        search (preserves_rules, Preserves-reads_bind, Ok-add_tool_msg) depth 14

    Ok-pending_rounds :
        (fuel : ℕ) (pending : List ToolCall) → Ok (pending_rounds k session fuel pending)
    unfolding pending_rounds cancelled_now
    Ok-pending_rounds fuel [] = search preserves_rules
    Ok-pending_rounds zero (call ∷ rest) = search preserves_rules
    Ok-pending_rounds (suc fuel) (call ∷ rest) =
        let later = Ok-pending_rounds fuel rest in
        let after_batch = Ok-pending_rounds fuel (eligible_run k session (call ∷ rest)).1 in
        let batch = Ok-run_parallel_batch _ (eligible_run-AllEligible (call ∷ rest)) in
        search (preserves_rules, Ok-execute_single) depth 14

    pub Ok-execute_pending : (pending : List ToolCall) → Ok (execute_pending k session pending)
    unfolding execute_pending
    Ok-execute_pending pending = Ok-pending_rounds (length pending) pending
