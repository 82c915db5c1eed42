-- ===== src/Kernel/Loop.antt =====
-- scr/kernel.py: `run`, `_loop`, `resume`, the approval records and the retry of model calls.
use selfconnect_runtime.Base.{
  ℕ, zero, suc, ◌+◌, ◌-◌, ◌*◌, String, Bool, false, not, ◌&&◌, ◌||◌, Option, none, some, List, [],
  ◌∷◌, ◌++◌, map, ltb, leb, eqb, if◌then◌else◌, string_eq, ◌==◌, length, drop, any,
}
use selfconnect_runtime.Gateway.{ToolDef, ToolCall, ModelResponse}
use selfconnect_runtime.State.{
  Store, JournalRow, Message, Record, assemble, model_call_intent, model_call_done, stopped,
  awaiting, StopReason, completed, max_iterations, budget, wall_clock, loop_detected,
  awaiting_approval, cancelled, model_error, resume_noop, journal_tail, approval_put,
}
use selfconnect_runtime.State
use selfconnect_runtime.Ledger
use selfconnect_runtime.Kernel.Events
use selfconnect_runtime.Kernel.Events.{Event, model_call, finalize_refused, model_retry, approval}
use selfconnect_runtime.Kernel.Env.{
  Kernel, ToolSpec, Outcome, returned, raised, RunResult, other_error,
}
use selfconnect_runtime.Kernel.Monad.{
  K, from_option, from_outcome, from_list, pure, reads, observes, calls, ◌>>=◌, ◌>>◌, journals,
  ledgers, messages,
}
use selfconnect_runtime.Kernel.Text.{clip, estimate_tokens, is_transient, cycle_signature}
use selfconnect_runtime.Kernel.Context.{assemble_context, total_tokens}
use selfconnect_runtime.Kernel.Execute.{execute_pending, cancelled_now}

-- `len(set(xs)) == 1`
unfoldable pub all_same : List String → Bool
all_same [] = false
all_same (x ∷ xs) = not (any (λ y. not (y == x)) xs)

-- `cycle_history[-n:]`
abbrev pub last_entries : ℕ → List String → List String
last_entries n xs = if eqb n 0 then xs else drop (length xs - n) xs

-- The test of the cycle detection.
unfoldable pub repeats : ℕ → List String → Bool
unfolding all_same
repeats n history = leb n (length history) && all_same (last_entries n history)

-- What one iteration ends with: the run stops, or the loop goes on with a cycle history.
pub data Step : Type 0 where
  done : RunResult → Step
  again : List String → Step

abbrev pub from_step : {B : Type 0} → Step → (RunResult → B) → (List String → B) → B
from_step (done result) f g = f result
from_step (again history) f g = g history

-- The pending calls of an AWAITING_APPROVAL at the tail of the journal.
abbrev pub pending_of : Option JournalRow → Option (List ToolCall)
pending_of none = none
pending_of (some row) = elim row.entry [ awaiting id tool args pending ↦ some pending | _ ↦ none ]

module _ {W : Type 0} (k : Kernel W) (session : String) where
  open k use {py, guards}

  abbrev pub tool_defs : List ToolDef
  tool_defs =
      map
        (λ (e : String × ToolSpec W).
          let t = e.1 in
          record { name = t.name; description = t.description; parameters = t.parameters })
        k.tools

  abbrev pub result_of : ℕ → StopReason → RunResult
  result_of iteration reason = record {
    session_id = session;
    final_text = "";
    iterations = iteration;
    stopped_reason = reason;
    pending_approval = none;
  }

  abbrev pub paused_at : ℕ → String → RunResult
  paused_at iteration id = record {
    session_id = session;
    final_text = "";
    iterations = iteration;
    stopped_reason = awaiting_approval;
    pending_approval = some id;
  }

  -- `_stop`
  unfoldable pub stop : ℕ → StopReason → K W RunResult
  stop iteration reason = do
    journals session (stopped reason)
    ledgers py.codec session (Events.stopped reason)
    pure (result_of iteration reason)

  -- `_model_call_with_retry`, with `left` attempts after those made; with none to make, `raise None`
  -- is a TypeError.
  unfoldable pub call_with_retry : ℕ → ℕ → ℕ → List Message → K W (Outcome ModelResponse)
  call_with_retry zero attempt iteration messages = pure (
      raised (record {
        kind = other_error;
        class_name = "TypeError";
        detail = "exceptions must derive from BaseException";
      }))
  call_with_retry (suc left) attempt iteration messages = do
    outcome ← calls (k.complete messages tool_defs)
    from_outcome outcome
        (λ e.
          if leb k.model_retries attempt || not (is_transient e.kind) then pure (raised e) else (do
            ledgers py.codec session
                (model_retry iteration attempt e.class_name (clip 160 e.detail))
            calls (λ w. (tt, k.sleep (k.model_retry_backoff * attempt) w))
            call_with_retry left (attempt + 1) iteration messages))
        (λ response. pure (returned response))

  unfoldable pub say : String → K W (Unit {0})
  say text = if text == "" then pure tt else messages session "assistant" text

  -- `finalize_guard` refuses with a reason that is not empty.
  unfoldable pub refusal : K W (Option String)
  refusal = observes (λ w. elim k.finalize_guard [
    | none ↦ none
    | some guard ↦ elim (guard session w) [
      | none ↦ none
      | some reason ↦ if reason == "" then none else some reason
    ]
  ])

  abbrev pub completed_with : ℕ → String → RunResult
  completed_with iteration text = record {
    session_id = session;
    final_text = text;
    iterations = iteration;
    stopped_reason = completed;
    pending_approval = none;
  }

  -- The end of a run that is let finalize.
  unfoldable pub complete_run : ℕ → ModelResponse → K W Step
  complete_run iteration response = do
    messages session "assistant" response.text
    journals session (State.finalize iteration)
    ledgers py.codec session (Events.finalize iteration)
    pure (done (completed_with iteration response.text))

  -- The branch without tool calls.
  unfoldable pub finish : ℕ → List String → ModelResponse → K W Step
  finish iteration history response = do
    refused ← refusal
    from_option refused (complete_run iteration response) (λ reason. do
      say response.text
      messages session "user" reason
      ledgers py.codec session (finalize_refused reason)
      pure (again history))

  unfoldable pub stopping : ℕ → StopReason → K W Step
  stopping iteration reason = do result ← stop iteration reason; pure (done result)

  -- The branch with tool calls, for the history with their signature at its end.
  unfoldable pub act : ℕ → List String → ModelResponse → K W Step
  act iteration history response =
      if repeats guards.cycle_repeat_threshold history
      then stopping iteration loop_detected
      else (do
        say response.text
        paused ← execute_pending k session response.tool_calls
        from_option paused (pure (again history)) (λ id. pure (done (paused_at iteration id))))

  -- The rest of an iteration, after the model answered.
  unfoldable pub answered : ℕ → List String → ℕ → ModelResponse → K W Step
  answered iteration history seq response = do
    journals session (model_call_done iteration seq (length response.tool_calls))
    ledgers py.codec session (
        model_call iteration (py.codec.sha256 response.text)
          (map (λ (c : ToolCall). c.name) response.tool_calls) response.input_tokens
          response.output_tokens)
    used ← reads (λ s. total_tokens k s session)
    if ltb guards.max_total_tokens used
        then stopping iteration budget
        else from_list response.tool_calls (finish iteration history response)
            (λ call more. act iteration (history ++ cycle_signature py (call ∷ more) ∷ []) response)

  -- The write-ahead record of a model call, the call, and what follows it.
  unfoldable pub ask : ℕ → List String → List Message → K W Step
  ask iteration history messages = do
    seq ← journals session (model_call_intent iteration)
    outcome ← call_with_retry k.model_retries 1 iteration messages
    from_outcome outcome
        (λ e. do
          ledgers py.codec session (Events.model_error iteration e.class_name (clip 200 e.detail))
          stopping iteration model_error)
        (λ response. answered iteration history seq response)

  -- One iteration of `_loop`.
  unfoldable pub iterate : ℕ → ℕ → List String → K W Step
  iterate start iteration history = do
    stop_now ← cancelled_now k session
    if stop_now then stopping iteration cancelled else (do
      messages ← reads (λ s. assemble_context k s session)
      if ltb guards.max_token_estimate (estimate_tokens messages)
          then stopping iteration budget
          else (do
            now ← calls k.monotonic
            if ltb guards.max_wall_seconds (now - start)
                then stopping iteration wall_clock
                else ask iteration history messages))

  -- The `for` loop, with `left` iterations to make.
  unfoldable pub loop_from : ℕ → ℕ → ℕ → List String → K W RunResult
  loop_from zero start iteration history = stop guards.max_iterations max_iterations
  loop_from (suc left) start iteration history = do
    step ← iterate start iteration history
    from_step step (λ result. pure result) (λ longer. loop_from left start (iteration + 1) longer)

  -- `_loop`
  unfoldable pub loop : K W RunResult
  loop = do start ← calls k.monotonic; loop_from guards.max_iterations start 1 []

  unfoldable pub run : String → K W RunResult
  run user_text = do messages session "user" user_text; journals session assemble; loop

  -- `resume`
  unfoldable pub resume : K W RunResult
  resume = do
    tail ← reads (λ s. journal_tail s session)
    from_option (pending_of tail) (pure (result_of 0 resume_noop)) (λ pending. do
      paused ← execute_pending k session pending
      from_option paused loop (λ id. pure (paused_at 0 id)))

  -- `approve` and `deny`
  unfoldable pub decide : String → String → String → Store → Store
  decide decision id approver s =
      (Ledger.append py.codec (approval_put s id session decision approver) session
        (approval decision id approver)).0

  abbrev pub approve : String → String → Store → Store
  approve = decide "approved"

  abbrev pub deny : String → String → Store → Store
  deny = decide "denied"
