-- ===== src/Kernel/Recover.antt =====
-- scr/kernel.py: `recover` classifies a crash by the tail of the journal. It has the store alone: it
-- can run no tool and call no model.
use selfconnect_runtime.Base.{ℕ, String, Bool, true, Option, none, some, if◌then◌else◌, string_eq}
use selfconnect_runtime.State.{
  Store, Record, JournalRow, model_call_intent, exec_intent, exec_done, reissue_model_call,
  safe_reissue, failed_needs_review, journal_append, journal_tail, tool_result_get,
  set_session_status,
}

-- `status` of `RecoveryReport`, with `resumed` and the rest as in the source.
pub data RecoveryStatus : Type 0 where
  clean reissue resumed reissue_safe quarantined : RecoveryStatus

module _ (session : String) where
  -- The branch for a dangling EXEC_INTENT.
  unfoldable pub recover_exec : Store → ℕ → String → Bool → String → Store × RecoveryStatus
  unfolding tool_result_get journal_append set_session_status
  recover_exec s seq tool idempotent key = elim (tool_result_get s key) [
    | some result ↦ ((journal_append s session (exec_done seq key true)).0, resumed)
    | none ↦
        if idempotent then ((journal_append s session (safe_reissue key)).0, reissue_safe) else (
          set_session_status (journal_append s session (failed_needs_review tool key)).0 session
              "needs_review",
          quarantined,
        )
  ]

  -- The branches on the state of the tail.
  unfoldable pub classify_entry : Store → ℕ → Record → Store × RecoveryStatus
  unfolding recover_exec
  classify_entry s seq entry = elim entry [
    | model_call_intent iteration ↦ ((journal_append s session reissue_model_call).0, reissue)
    | exec_intent tool args idempotent key ↦ recover_exec s seq tool idempotent key
    | _ ↦ (s, clean)
  ]

  unfoldable pub classify : Store → Option JournalRow → Store × RecoveryStatus
  unfolding classify_entry
  classify s none = (s, clean)
  classify s (some row) = classify_entry s row.seq row.entry

  unfoldable pub recover : Store → Store × RecoveryStatus
  unfolding classify journal_tail
  recover s = classify s (journal_tail s session)
