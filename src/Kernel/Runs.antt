-- ===== src/Kernel/Runs.antt =====
-- Every method of the kernel only lets the store evolve.
use selfconnect_runtime.Base.{ℕ, zero, suc, ◌+◌, String, Bool, List, [], ◌∷◌, string_eq, length}
use selfconnect_runtime.Gateway.{ToolCall, ModelResponse}
use selfconnect_runtime.Kernel.Env.{Kernel, ToolSpec, RunResult}
use selfconnect_runtime.Kernel.Monad.{K}
use selfconnect_runtime.Kernel.Execute.{
  cancelled_now, ledger_tool_error, intend, result_for, conclude, run_tool, execute_call,
  add_tool_msg, persist_precomputed, run_all, fold_results, run_parallel_batch, eligible_run,
  execute_single, execute_decided, pause, pending_rounds, execute_pending,
}
use selfconnect_runtime.State.{StopReason, Message, max_iterations}
use selfconnect_runtime.Kernel.Loop.{
  Step, done, again, from_step, stop, stopping, call_with_retry, say, refusal, complete_run, finish,
  act, answered, ask, iterate, loop_from, loop, run, resume,
}
use selfconnect_runtime.Kernel.Evolution.{Runs, runs_rules}

module _ {W : Type 0} (k : Kernel W) (session : String) where
  abbrev Ok : {A : Type 0} → K W A → Type 0
  Ok m = Runs k.py.codec session m

  Runs-ledger_tool_error : (tool result : String) → Ok (ledger_tool_error k session tool result)
  unfolding ledger_tool_error
  Runs-ledger_tool_error tool result = search runs_rules

  Runs-conclude :
      (call : ToolCall) (seq : ℕ) (key : String) (par : Bool) (result : String)
      → Ok (conclude k session call seq key par result)
  unfolding conclude
  Runs-conclude call seq key par result = search (runs_rules, Runs-ledger_tool_error) depth 12

  Runs-intend : (call : ToolCall) (idempotent : Bool) → Ok (intend k session call idempotent)
  unfolding intend
  Runs-intend call idempotent = search runs_rules depth 12

  Runs-result_for :
      (call : ToolCall) (key : String) (run : K W String)
      → Ok run
      → Ok (result_for k session call key run)
  unfolding result_for
  Runs-result_for call key run r = search runs_rules depth 12

  Runs-run_tool : (spec : ToolSpec W) (call : ToolCall) → Ok (run_tool k session spec call)
  unfolding run_tool
  Runs-run_tool spec call = search runs_rules

  pub Runs-execute_call : (call : ToolCall) → Ok (execute_call k session call)
  unfolding execute_call
  Runs-execute_call call =
      search (runs_rules, Runs-intend, Runs-result_for, Runs-run_tool, Runs-conclude) depth 12

  Runs-add_tool_msg : (call : ToolCall) (result : String) → Ok (add_tool_msg k session call result)
  unfolding add_tool_msg
  Runs-add_tool_msg call result = search runs_rules

  Runs-persist_precomputed :
      (call : ToolCall) (result : String) → Ok (persist_precomputed k session call result)
  unfolding persist_precomputed
  Runs-persist_precomputed call result =
      search (runs_rules, Runs-intend, Runs-result_for, Runs-conclude) depth 12

  Runs-run_all : (batch : List ToolCall) → Ok (run_all k session batch)
  unfolding run_all
  Runs-run_all [] = search runs_rules
  Runs-run_all (call ∷ batch) =
      let rest = Runs-run_all batch in search (runs_rules, Runs-run_tool) depth 12

  Runs-fold_results : (results : List (ToolCall × String)) → Ok (fold_results k session results)
  unfolding fold_results
  Runs-fold_results [] = search runs_rules
  Runs-fold_results ((call, result) ∷ results) =
      let rest = Runs-fold_results results in
      search (runs_rules, Runs-persist_precomputed, Runs-add_tool_msg) depth 12

  Runs-run_parallel_batch : (batch : List ToolCall) → Ok (run_parallel_batch k session batch)
  unfolding run_parallel_batch
  Runs-run_parallel_batch batch = search (runs_rules, Runs-run_all, Runs-fold_results) depth 12

  Runs-execute_single :
      (call : ToolCall) (pending : List ToolCall) → Ok (execute_single k session call pending)
  unfolding execute_single execute_decided pause
  Runs-execute_single call pending =
      search (runs_rules, Runs-execute_call, Runs-add_tool_msg) depth 14

  Runs-pending_rounds :
      (fuel : ℕ) (pending : List ToolCall) → Ok (pending_rounds k session fuel pending)
  unfolding pending_rounds cancelled_now
  Runs-pending_rounds fuel [] = search runs_rules
  Runs-pending_rounds zero (call ∷ rest) = search runs_rules
  Runs-pending_rounds (suc fuel) (call ∷ rest) =
      let later = Runs-pending_rounds fuel rest in
      let after_batch = Runs-pending_rounds fuel (eligible_run k session (call ∷ rest)).1 in
      search (runs_rules, Runs-run_parallel_batch, Runs-execute_single) depth 14

  pub Runs-execute_pending : (pending : List ToolCall) → Ok (execute_pending k session pending)
  unfolding execute_pending
  Runs-execute_pending pending = Runs-pending_rounds (length pending) pending

  Runs-stop : (iteration : ℕ) (reason : StopReason) → Ok (stop k session iteration reason)
  unfolding stop
  Runs-stop iteration reason = search runs_rules depth 12

  Runs-stopping : (iteration : ℕ) (reason : StopReason) → Ok (stopping k session iteration reason)
  unfolding stopping
  Runs-stopping iteration reason = search (runs_rules, Runs-stop)

  Runs-call_with_retry :
      (left attempt iteration : ℕ) (msgs : List Message)
      → Ok (call_with_retry k session left attempt iteration msgs)
  unfolding call_with_retry
  Runs-call_with_retry zero attempt iteration msgs = search runs_rules
  Runs-call_with_retry (suc left) attempt iteration msgs =
      let rest = Runs-call_with_retry left (attempt + 1) iteration msgs in
      search runs_rules depth 12

  Runs-finish :
      (iteration : ℕ) (history : List String) (response : ModelResponse)
      → Ok (finish k session iteration history response)
  unfolding finish refusal say complete_run
  Runs-finish iteration history response = search runs_rules depth 14

  Runs-act :
      (iteration : ℕ) (history : List String) (response : ModelResponse)
      → Ok (act k session iteration history response)
  unfolding act say
  Runs-act iteration history response =
      search (runs_rules, Runs-stopping, Runs-execute_pending) depth 12

  Runs-answered :
      (iteration : ℕ) (history : List String) (seq : ℕ) (response : ModelResponse)
      → Ok (answered k session iteration history seq response)
  unfolding answered
  Runs-answered iteration history seq response =
      search (runs_rules, Runs-stopping, Runs-finish, Runs-act) depth 14

  Runs-iterate :
      (start iteration : ℕ) (history : List String) → Ok (iterate k session start iteration history)
  unfolding iterate ask cancelled_now
  Runs-iterate start iteration history =
      search (runs_rules, Runs-stopping, Runs-call_with_retry, Runs-answered) depth 14

  Runs-from_step :
      (step : Step) (f : RunResult → K W RunResult) (g : List String → K W RunResult)
      → ((r : RunResult) → Ok (f r))
      → ((h : List String) → Ok (g h))
      → Ok (from_step step f g)
  Runs-from_step (done r) f g p q = p r
  Runs-from_step (again h) f g p q = q h

  Runs-loop_from :
      (left start iteration : ℕ) (history : List String)
      → Ok (loop_from k session left start iteration history)
  unfolding loop_from
  Runs-loop_from zero start iteration history = Runs-stop k.guards.max_iterations max_iterations
  Runs-loop_from (suc left) start iteration history =
      let rest = Runs-loop_from left start (iteration + 1) in
      search (runs_rules, Runs-iterate, Runs-from_step) depth 12

  Runs-loop : Ok (loop k session)
  unfolding loop
  Runs-loop = search (runs_rules, Runs-loop_from)

  -- A run, from any store and world, only appends to its own session's journal, ledger and messages
  -- and adds results under idempotency keys; and so does a resumed run.
  pub Runs-run : (user_text : String) → Ok (run k session user_text)
  unfolding run
  Runs-run user_text = search (runs_rules, Runs-loop) depth 12

  pub Runs-resume : Ok (resume k session)
  unfolding resume
  Runs-resume = search (runs_rules, Runs-execute_pending, Runs-loop) depth 12
