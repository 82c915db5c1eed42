-- ===== src/Kernel/Events.antt =====
-- The events that scr/kernel.py and scr/team.py write to the ledger, one constructor for each `type`,
-- with the keys in the order of the source. `other` is any further JSON object that a ledger text may hold.
use selfconnect_runtime.Base.{ℕ, String, Bool, List}
use selfconnect_runtime.Gateway.{Json, Fields}
use selfconnect_runtime.State.{StopReason}

pub data Event : Type 0 where
  model_error : (iteration : ℕ) (class_name detail : String) → Event
  model_call :
      (iteration : ℕ) (text_sha256 : String) (tool_calls : List String) (in_tokens out_tokens : ℕ)
      → Event
  finalize_refused : (reason : String) → Event
  finalize : (iteration : ℕ) → Event
  tool_exec :
      (tool args_sha256 result_sha256 idem_key : String) (in_parallel : Bool)
      (primary : List (String × String))
      → Event
  approval_required : (tool approval_id args_sha256 : String) → Event
  approval_denied_exec : (tool approval_id approver : String) → Event
  approval_granted_exec : (tool approval_id approver : String) → Event
  approval : (decision approval_id approver : String) → Event
  cap_denied : (tool reason : String) → Event
  model_retry : (iteration attempt : ℕ) (class_name detail : String) → Event
  tool_error : (tool class_name detail : String) → Event
  stopped : (reason : StopReason) → Event
  provenance : (pkg : Fields) → Event
  other : Json → Event
