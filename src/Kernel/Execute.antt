-- ===== src/Kernel/Execute.antt =====
-- scr/kernel.py: the execution of tool calls, with capability checks, approvals and idempotent
-- results. The pool of threads of a parallel batch is modelled by calls in the order of submission.
use selfconnect_runtime.Base.{
  ℕ, zero, suc, ◌+◌, String, ◌<>◌, Bool, true, false, not, ◌&&◌, Option, none, some, List, [], ◌∷◌,
  leb, if◌then◌else◌, string_eq, ◌==◌, length, get_last?, lookup, Result, ok, err,
}
use selfconnect_runtime.Gateway.{ToolCall}
use selfconnect_runtime.Capability
use selfconnect_runtime.Capability.{Denied, tool_not_permitted, unknown_tool, check_classification}
use selfconnect_runtime.Policy.{Policy}
use selfconnect_runtime.Policy
use selfconnect_runtime.State.{
  JournalRow, exec_intent, exec_done, awaiting, stop_at_call, journal_tail, journal_all,
  tool_result_get, approval_get, Approval,
}
use selfconnect_runtime.Kernel.Events.{
  tool_exec, approval_required, approval_denied_exec, approval_granted_exec, cap_denied, tool_error,
}
use selfconnect_runtime.Kernel.Env.{Kernel, ToolSpec}
use selfconnect_runtime.Kernel.Monad.{
  K, from_option, from_result, pure, reads, observes, calls, ◌>>=◌, ◌>>◌, journals, ledgers,
  messages, persists,
}
use selfconnect_runtime.Kernel.Text.{
  clip, tool_text, error_class, arg_path, primary_keys, idem_key, approval_id, args_sha256,
  tool_message, denied_text,
}

-- `tail["seq"] if tail else 0`
abbrev pub tail_seq : Option JournalRow → ℕ
tail_seq none = 0
tail_seq (some row) = row.seq

-- `entry["payload"]["idem_key"]` of the entry that was just written.
abbrev pub key_of : Option JournalRow → String
key_of none = ""
key_of (some row) = elim row.entry [ exec_intent tool args idempotent key ↦ key | _ ↦ "" ]

module _ {W : Type 0} (k : Kernel W) (session : String) where
  open k use {py, tools, manifest, policy}

  -- `policy is not None and policy.requires_approval(call)`
  unfoldable pub needs_approval : ToolCall → Bool
  unfolding Policy.requires_approval
  needs_approval call = elim policy [
    | none ↦ false
    | some p ↦ Policy.requires_approval py.os py.str p call
  ]

  unfoldable pub cancelled_now : K W Bool
  cancelled_now = observes (λ w. elim k.cancel_check [ none ↦ false | some check ↦ check w ])

  -- The checks at the head of `_execute_call`, in their order: the tool's spec, or the denial.
  unfoldable pub permitted : ToolCall → Result Denied (ToolSpec W)
  unfolding Capability.check_tool check_classification lookup
  permitted call = elim (Capability.check_tool manifest call.name) [
    | err e ↦ err e
    | ok _ ↦ elim (lookup call.name tools) [
      | none ↦ err (unknown_tool call.name)
      | some spec ↦ elim (check_classification manifest spec.classification) [
        | err e ↦ err e
        | ok _ ↦ ok spec
      ]
    ]
  ]

  -- `_ledger_tool_error`
  unfoldable pub ledger_tool_error : String → String → K W (Unit {0})
  ledger_tool_error tool result =
      from_option (error_class result) (pure tt)
        (λ class_name. ledgers py.codec session (tool_error tool class_name (clip 200 result)))

  -- The write-ahead record of an execution: its number and its idempotency key.
  unfoldable pub intend : ToolCall → Bool → K W (ℕ × String)
  intend call idempotent = do
    tail ← reads (λ s. journal_tail s session)
    seq ← journals session (
        exec_intent call.name call.arguments idempotent
          (idem_key py session (tail_seq tail + 1) call.name call.arguments))
    last ← reads (λ s. get_last? (journal_all s session))
    pure (seq, key_of last)

  -- The cached result, or the one that `run` gives, which is then stored.
  unfoldable pub result_for : ToolCall → String → K W String → K W String
  result_for call key run = do
    cached ← reads (λ s. tool_result_get s key)
    from_option cached (do result ← run; persists key session call.name result; pure result)
        (λ result. pure result)

  -- The records after an execution.
  unfoldable pub conclude : ToolCall → ℕ → String → Bool → String → K W String
  conclude call seq key in_parallel result = do
    journals session (exec_done seq key false)
    ledgers py.codec session (
        tool_exec call.name (args_sha256 py call.arguments) (py.codec.sha256 result) key in_parallel
          (arg_path call.arguments primary_keys))
    ledger_tool_error call.name result
    pure result

  -- `_run_tool_fn`
  unfoldable pub run_tool : ToolSpec W → ToolCall → K W String
  run_tool spec call = do outcome ← calls (spec.fn call.arguments); pure (tool_text call outcome)

  unfoldable pub execute_call : ToolCall → K W String
  execute_call call =
      from_result (permitted call)
        (λ e. do
          ledgers py.codec session (cap_denied call.name (denied_text py e))
          pure ("DENIED by capability kernel: " <> denied_text py e))
        (λ spec. do
          intent ← intend call spec.idempotent
          result ← result_for call intent.1 (run_tool spec call)
          conclude call intent.0 intent.1 false result)

  -- `_add_tool_msg`
  unfoldable pub add_tool_msg : ToolCall → String → K W (Unit {0})
  add_tool_msg call result = messages session "tool" (tool_message py call result)

  -- `_batch_eligible`
  unfoldable pub batch_eligible : ToolCall → Bool
  unfolding needs_approval lookup check_classification Capability.check_tool
  batch_eligible call = elim (lookup call.name tools) [
    | none ↦ false
    | some spec ↦
        if not (spec.parallel_safe && spec.idempotent)
        then false
        else if needs_approval call
        then false
        else elim (Capability.check_tool manifest call.name) [
          | err e ↦ false
          | ok _ ↦ elim (check_classification manifest spec.classification) [
            | err e ↦ false
            | ok _ ↦ true
          ]
        ]
  ]

  -- `_persist_precomputed`
  unfoldable pub persist_precomputed : ToolCall → String → K W String
  persist_precomputed call precomputed = do
    intent ← intend call true
    result ← result_for call intent.1 (pure precomputed)
    conclude call intent.0 intent.1 true result

  -- `ex.map` over the batch; an eligible call has a spec.
  unfoldable pub run_all : List ToolCall → K W (List (ToolCall × String))
  run_all [] = pure []
  run_all (call ∷ batch) =
      let rest = run_all batch in
      from_option (lookup call.name tools) rest
        (λ spec. do result ← run_tool spec call; results ← rest; pure ((call, result) ∷ results))

  unfoldable pub fold_results : List (ToolCall × String) → K W (Unit {0})
  fold_results [] = pure tt
  fold_results ((call, result) ∷ results) = do
    told ← persist_precomputed call result
    add_tool_msg call told
    fold_results results

  -- `_run_parallel_batch`
  unfoldable pub run_parallel_batch : List ToolCall → K W (Unit {0})
  run_parallel_batch batch = do results ← run_all batch; fold_results results

  -- The longest run of eligible calls at the start, and the calls after it.
  unfoldable pub eligible_run : List ToolCall → List ToolCall × List ToolCall
  unfolding batch_eligible
  eligible_run [] = ([], [])
  eligible_run (call ∷ rest) =
      let (batch, later) = eligible_run rest in
      if batch_eligible call then (call ∷ batch, later) else ([], call ∷ rest)

  -- The single-call path of the loop: the approval id if it pauses, for the decision on record.
  unfoldable pub execute_decided : ToolCall → Approval → K W (Option String)
  execute_decided call d =
      if d.status == "denied"
      then (do
        ledgers py.codec session
            (approval_denied_exec call.name (approval_id py session call) d.approver)
        add_tool_msg call ("DENIED by approver " <> (d.approver <> ": action not authorized"))
        pure none)
      else (do
        ledgers py.codec session
            (approval_granted_exec call.name (approval_id py session call) d.approver)
        result ← execute_call call
        add_tool_msg call result
        pure none)

  unfoldable pub pause : ToolCall → List ToolCall → K W (Option String)
  pause call pending = do
    journals session (awaiting (approval_id py session call) call.name call.arguments pending)
    ledgers py.codec session
        (approval_required call.name (approval_id py session call) (args_sha256 py call.arguments))
    pure (some (approval_id py session call))

  unfoldable pub execute_single : ToolCall → List ToolCall → K W (Option String)
  execute_single call pending =
      if needs_approval call
      then (do
        decision ← reads (λ s. approval_get s (approval_id py session call))
        from_option decision (pause call pending) (λ d. execute_decided call d))
      else (do result ← execute_call call; add_tool_msg call result; pure none)

  -- The `while` loop of `_execute_pending` on the calls from `i` on. Each round takes a call or more,
  -- so as many rounds as calls are enough.
  unfoldable pub pending_rounds : ℕ → List ToolCall → K W (Option String)
  pending_rounds fuel [] = pure none
  pending_rounds zero (call ∷ rest) = pure none
  pending_rounds (suc fuel) (call ∷ rest) = do
    stop ← cancelled_now
    if stop
        then (do journals session (stop_at_call call.name); pure none)
        else if leb 2 (length (eligible_run (call ∷ rest)).0)
        then (do
          run_parallel_batch (eligible_run (call ∷ rest)).0
          pending_rounds fuel (eligible_run (call ∷ rest)).1)
        else (do
          paused ← execute_single call (call ∷ rest)
          from_option paused (pending_rounds fuel rest) (λ id. pure (some id)))

  unfoldable pub execute_pending : List ToolCall → K W (Option String)
  execute_pending pending = pending_rounds (length pending) pending
