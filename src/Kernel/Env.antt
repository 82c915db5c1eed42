-- ===== src/Kernel/Env.antt =====
-- scr/kernel.py: the data classes of the kernel, and what it takes from outside.
-- `W` is the world beyond the store: the endpoint, what tools act on, and the clock.
use selfconnect_runtime.Base.{ℕ, String, Bool, Option, List, Dict}
use selfconnect_runtime.Gateway.{Json, Arguments, ToolDef, ModelResponse}
use selfconnect_runtime.Capability.{Os, CapabilityManifest}
use selfconnect_runtime.Policy.{Policy}
use selfconnect_runtime.State.{Message, StopReason}
use selfconnect_runtime.Ledger.{Codec}
use selfconnect_runtime.Kernel.Events.{Event}

-- Functions of Python's library: `json.dumps` with sorted keys and compact separators, with sorted
-- keys, and with neither; `str` of an argument; `repr`; and `str.isspace` of one character.
pub record Python : Type 0 where
  pub codec : Codec Event
  pub os : Os
  pub dumps_compact : Json → String
  pub dumps_sorted : Json → String
  pub dumps_plain : Json → String
  pub str : Json → String
  pub repr : String → String
  pub repr_codes : List ℕ → String
  pub is_space : ℕ → Bool

-- An exception by what `_is_transient` asks of it: an instance of `_TRANSIENT`, another OSError
-- with its `winerror`, or neither.
pub data FailureKind : Type 0 where
  network : FailureKind
  os_error : (winerror : Option ℕ) → FailureKind
  other_error : FailureKind

pub record Failure : Type 0 where
  pub kind : FailureKind
  pub class_name : String
  pub detail : String

-- What a call of `adapter.complete` or of a tool's `fn` ends with.
pub data Outcome (A : Type 0) : Type 0 where
  returned : A → Outcome A
  raised : Failure → Outcome A

-- A tool changes the world beyond the store only. No tool of scr/tools_native.py or
-- scr/mcp_host.py calls the store; the `delegate` tool of scr/team.py writes the store in the middle of a run, so a kernel
-- with it is outside this model: it is modelled by itself, in Team.
pub record ToolSpec (W : Type 0) : Type 0 where
  pub name : String
  pub fn : Arguments → W → Outcome String × W
  pub idempotent : Bool
  pub description : String
  pub parameters : Json
  pub parallel_safe : Bool
  pub classification : String

pub record Guards : Type 0 where
  pub max_iterations : ℕ
  pub max_token_estimate : ℕ
  pub max_wall_seconds : ℕ
  pub cycle_repeat_threshold : ℕ
  pub max_total_tokens : ℕ
  pub summarize_at_tokens : ℕ
  pub summarize_keep_recent : ℕ

pub record RunResult : Type 0 where
  pub session_id : String
  pub final_text : String
  pub iterations : ℕ
  pub stopped_reason : StopReason
  pub pending_approval : Option String

-- The kernel object. `complete` is the adapter's, `monotonic` and `sleep` are those of `time`.
pub record Kernel (W : Type 0) : Type 0 where
  pub py : Python
  pub complete : List Message → List ToolDef → W → Outcome ModelResponse × W
  pub monotonic : W → ℕ × W
  pub sleep : ℕ → W → W
  pub tools : Dict String (ToolSpec W)
  pub manifest : CapabilityManifest
  pub guards : Guards
  pub system_prompt : String
  pub policy : Option Policy
  pub cancel_check : Option (W → Bool)
  pub finalize_guard : Option (String → W → Option String)
  pub model_retries : ℕ
  pub model_retry_backoff : ℕ
