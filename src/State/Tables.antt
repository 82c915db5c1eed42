-- ===== src/State/Tables.antt =====
-- scr/state.py: sessions, messages, idempotent results, approvals, jobs, mailbox, tokens, teams.
use selfconnect_runtime.Base.{
  ℕ, String, Bool, true, false, not, ◌&&◌, Option, none, some, List, [], ◌∷◌, ◌++◌, map,
  if◌then◌else◌, string_eq, ◌==◌, filter, find, any, order_by, Result, ok, err,
}
use selfconnect_runtime.State.Schema.{
  SessionRow, Message, MessageRow, ToolResultRow, ApprovalRow, JobRow, MailRow, TokenRow, TeamRow,
  Store, DbError, integrity_error,
}

unfoldable pub session_status : Store → String → Option String
session_status s session = elim (find (λ (r : SessionRow). r.id == session) s.sessions) [
  | none ↦ none
  | some r ↦ some r.status
]

-- The id is given, or `uuid.uuid4().hex`.
unfoldable pub create_session : Store → Option String → String → Result DbError (Store × String)
create_session s given uuid =
    let sid : String = elim given [ none ↦ uuid | some id ↦ if id == "" then uuid else id ] in
    if any (λ (r : SessionRow). r.id == sid) s.sessions
    then err integrity_error
    else ok (record s { sessions = s.sessions ++ record { id = sid; status = "open" } ∷ [] }, sid)

-- `UPDATE sessions SET status=? WHERE id=?`
unfoldable pub set_session_status : Store → String → String → Store
set_session_status s session status = record s {
  sessions =
      map (λ (r : SessionRow). if r.id == session then record r { status = status } else r)
        s.sessions;
}

unfoldable pub add_message : Store → String → String → String → Store
add_message s session role content = record s {
  messages =
      s.messages
      ++ record { session_id = session; message = record { role = role; content = content } } ∷ [];
}

unfoldable pub get_messages : Store → String → List Message
get_messages s session =
    map (λ (r : MessageRow). r.message)
      (filter (λ (r : MessageRow). r.session_id == session) s.messages)

unfoldable pub tool_result_get : Store → String → Option String
tool_result_get s key = elim (find (λ (r : ToolResultRow). r.idem_key == key) s.tool_results) [
  | none ↦ none
  | some r ↦ some r.result
]

-- `INSERT OR IGNORE`: a key that is there keeps its result.
unfoldable pub tool_result_put : Store → String → String → String → String → Store
tool_result_put s key session tool result =
    if any (λ (r : ToolResultRow). r.idem_key == key) s.tool_results then s else record s {
      tool_results =
          s.tool_results
          ++ record { idem_key = key; session_id = session; tool = tool; result = result } ∷ [];
    }

pub record Approval : Type 0 where
  pub status : String
  pub approver : String

-- `INSERT OR IGNORE`: the first decision stands.
unfoldable pub approval_put : Store → String → String → String → String → Store
approval_put s approval session status approver =
    if any (λ (r : ApprovalRow). r.approval_id == approval) s.approvals then s else record s {
      approvals =
          s.approvals
          ++ record {
            approval_id = approval;
            session_id = session;
            status = status;
            approver = approver;
          }
            ∷ [];
    }

unfoldable pub approval_get : Store → String → Option Approval
approval_get s approval = elim (find (λ (r : ApprovalRow). r.approval_id == approval) s.approvals) [
  | none ↦ none
  | some r ↦ some (record { status = r.status; approver = r.approver })
]

pub record JobHandle : Type 0 where
  pub job_id : String
  pub session_id : String
  pub status : String
  pub deduped : Bool

unfoldable pub job_upsert :
    Store → String → String → String → String → String → ℕ → Result DbError (Store × JobHandle)
job_upsert s job session key status user_text now =
    elim (find (λ (r : JobRow). r.idem_key == key) s.jobs) [
      | some r ↦ ok (
        s,
        record { job_id = r.job_id; session_id = r.session_id; status = r.status; deduped = true },
      )
      | none ↦
          if any (λ (r : JobRow). r.job_id == job) s.jobs
          then err integrity_error
          else ok (
            record s {
              jobs =
                  s.jobs
                  ++ record {
                    job_id = job;
                    session_id = session;
                    idem_key = key;
                    status = status;
                    user_text = user_text;
                    created_at = now;
                  }
                    ∷ [];
            },
            record { job_id = job; session_id = session; status = status; deduped = false },
          )
    ]

unfoldable pub job_set_status : Store → String → String → Store
job_set_status s job status = record s {
  jobs = map (λ (r : JobRow). if r.job_id == job then record r { status = status } else r) s.jobs;
}

unfoldable pub job_get : Store → String → Option JobRow
job_get s job = find (λ (r : JobRow). r.job_id == job) s.jobs

abbrev pub job_time : JobRow → ℕ
job_time r = r.created_at

unfoldable pub jobs_by_status : Store → String → List JobRow
jobs_by_status s status = order_by job_time (filter (λ (r : JobRow). r.status == status) s.jobs)

unfoldable pub jobs_all : Store → List JobRow
jobs_all s = order_by job_time s.jobs

unfoldable pub mailbox_send : Store → String → String → String → String → Store
mailbox_send s session from_agent to_agent body = record s {
  mailbox =
      s.mailbox
      ++ record { session_id = session; from_agent = from_agent; to_agent = to_agent; body = body }
        ∷ [];
}

unfoldable pub mailbox_inbox : Store → String → String → List MailRow
mailbox_inbox s session to_agent =
    filter (λ (r : MailRow). r.session_id == session && r.to_agent == to_agent) s.mailbox

-- `INSERT OR REPLACE`
unfoldable pub token_put : Store → String → String → String → Store
token_put s token subject role = record s {
  agent_tokens =
      filter (λ (r : TokenRow). not (r.token == token)) s.agent_tokens
      ++ record { token = token; subject = subject; role = role } ∷ [];
}

unfoldable pub token_get : Store → String → Option TokenRow
token_get s token = find (λ (r : TokenRow). r.token == token) s.agent_tokens

-- `INSERT OR IGNORE` on the UNIQUE session.
unfoldable pub team_session_add : Store → String → String → String → Option String → ℕ → ℕ → Store
team_session_add s team session agent parent depth now =
    if any (λ (r : TeamRow). r.session_id == session) s.team_sessions then s else record s {
      team_sessions =
          s.team_sessions
          ++ record {
            team_id = team;
            session_id = session;
            agent = agent;
            parent_session = parent;
            depth = depth;
            created_at = now;
          }
            ∷ [];
    }

abbrev pub team_time : TeamRow → ℕ
team_time r = r.created_at

unfoldable pub team_members : Store → String → List TeamRow
team_members s team =
    order_by team_time (filter (λ (r : TeamRow). r.team_id == team) s.team_sessions)

unfoldable pub team_id_for_session : Store → String → Option String
team_id_for_session s session =
    elim (find (λ (r : TeamRow). r.session_id == session) s.team_sessions) [
      | none ↦ none
      | some r ↦ some r.team_id
    ]
