-- ===== src/State/Schema.antt =====
-- scr/state.py, `_SCHEMA`: the rows of each table. A `state` of the journal and its payload are one
-- constructor of `Record`, with the keys that scr/kernel.py writes.
use selfconnect_runtime.Base.{ℕ, String, Bool, Option, List, []}
use selfconnect_runtime.Gateway.{Arguments, ToolCall}

-- Why a run stopped: `stopped_reason` of `RunResult`, and the payload of STOPPED.
pub data StopReason : Type 0 where
  completed : StopReason
  max_iterations : StopReason
  budget : StopReason
  wall_clock : StopReason
  loop_detected : StopReason
  awaiting_approval : StopReason
  cancelled : StopReason
  model_error : StopReason
  resume_noop : StopReason
  status_of_job : String → StopReason
  package_unverified : String → StopReason

pub data Record : Type 0 where
  assemble : Record
  model_call_intent : (iteration : ℕ) → Record
  model_call_done : (iteration intent_seq tool_calls : ℕ) → Record
  finalize : (iteration : ℕ) → Record
  exec_intent : (tool : String) (args : Arguments) (idempotent : Bool) (idem_key : String) → Record
  exec_done : (intent_seq : ℕ) (idem_key : String) (recovered : Bool) → Record
  awaiting : (approval_id tool : String) (args : Arguments) (pending : List ToolCall) → Record
  stop_at_call : (at_call : String) → Record
  stopped : StopReason → Record
  reissue_model_call : Record
  safe_reissue : (idem_key : String) → Record
  failed_needs_review : (tool idem_key : String) → Record

pub record JournalRow : Type 0 where
  pub session_id : String
  pub seq : ℕ
  pub entry : Record

pub record SessionRow : Type 0 where
  pub id : String
  pub status : String

pub record Message : Type 0 where
  pub role : String
  pub content : String

pub record MessageRow : Type 0 where
  pub session_id : String
  pub message : Message

pub record ToolResultRow : Type 0 where
  pub idem_key : String
  pub session_id : String
  pub tool : String
  pub result : String

pub record LedgerRow : Type 0 where
  pub session_id : String
  pub seq : ℕ
  pub event : String
  pub hash : String

pub record Seal : Type 0 where
  pub head : String
  pub count : ℕ
  pub hmac : String

pub record ApprovalRow : Type 0 where
  pub approval_id : String
  pub session_id : String
  pub status : String
  pub approver : String

pub record JobRow : Type 0 where
  pub job_id : String
  pub session_id : String
  pub idem_key : String
  pub status : String
  pub user_text : String
  pub created_at : ℕ

pub record MailRow : Type 0 where
  pub session_id : String
  pub from_agent : String
  pub to_agent : String
  pub body : String

pub record TokenRow : Type 0 where
  pub token : String
  pub subject : String
  pub role : String

pub record TeamRow : Type 0 where
  pub team_id : String
  pub session_id : String
  pub agent : String
  pub parent_session : Option String
  pub depth : ℕ
  pub created_at : ℕ

-- The store. A seal belongs to its session, and a seat holder is its subject.
pub record Store : Type 0 where
  pub sessions : List SessionRow
  pub messages : List MessageRow
  pub journal : List JournalRow
  pub tool_results : List ToolResultRow
  pub ledger : List LedgerRow
  pub seals : List (String × Seal)
  pub approvals : List ApprovalRow
  pub jobs : List JobRow
  pub mailbox : List MailRow
  pub agent_tokens : List TokenRow
  pub seat_holders : List String
  pub team_sessions : List TeamRow

-- `sqlite3.IntegrityError` of a plain INSERT.
pub data DbError : Type 0 where
  integrity_error : DbError

abbrev pub empty_store : Store
empty_store = record {
  sessions = [];
  messages = [];
  journal = [];
  tool_results = [];
  ledger = [];
  seals = [];
  approvals = [];
  jobs = [];
  mailbox = [];
  agent_tokens = [];
  seat_holders = [];
  team_sessions = [];
}
