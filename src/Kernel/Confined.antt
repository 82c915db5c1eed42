-- ===== src/Kernel/Confined.antt =====
-- scr/kernel.py: what a whole run can do to the world, by what its tools, its adapter and its clock
-- can do.
use selfconnect_runtime.Base.{ℕ, zero, suc, ◌+◌, ◌*◌, String, refl, List, string_eq}
use selfconnect_runtime.Gateway.{ToolCall, ToolDef, ModelResponse}
use selfconnect_runtime.State.{Store, Message, max_iterations, StopReason}
use selfconnect_runtime.Kernel.Env.{Kernel, ToolSpec, RunResult}
use selfconnect_runtime.Kernel.Monad.{World, K}
use selfconnect_runtime.Kernel.Execute.{cancelled_now, execute_pending}
use selfconnect_runtime.Kernel.Loop.{
  Step, done, again, from_step, tool_defs, stop, stopping, call_with_retry, say, refusal,
  complete_run, finish, act, answered, ask, iterate, loop_from, loop, run, resume,
}
use selfconnect_runtime.Kernel.Preserves.{Inv, Preserves, preserves_rules, Preserves-calls}
use selfconnect_runtime.Kernel.Confinement.{IsAuthorized, Ok-execute_pending}

-- What the outside of the store does keeps the property `P` of the world, where the tools are asked
-- only for calls that are authorized by the policy and the approval records of `start`.
pub record Keeps {W : Type 0} (k : Kernel W) (session : String) (start : Store) (P : W → Type 0)
    : Type 0 where
  pub tool_ok :
      (call : ToolCall) (spec : ToolSpec W)
      → IsAuthorized k session start call spec
      → (w : W) → P w
      → P (spec.fn call.arguments w).1
  pub complete_ok :
      (messages : List Message) (defs : List ToolDef) (w : W)
      → P w
      → P (k.complete messages defs w).1
  pub monotonic_ok : (w : W) → P w → P (k.monotonic w).1
  pub sleep_ok : (seconds : ℕ) (w : W) → P w → P (k.sleep seconds w)

module _ {W : Type 0} (k : Kernel W) (session : String) (start : Store) (P : W → Type 0)
    (keeps : Keeps k session start P) where
  abbrev Ok : {A : Type 0} → K W A → Type 0
  Ok m = Preserves P start.approvals m

  Ok-execute : (pending : List ToolCall) → Ok (execute_pending k session pending)
  Ok-execute pending = Ok-execute_pending k session start P keeps.tool_ok pending

  Ok-stop : (iteration : ℕ) (reason : StopReason) → Ok (stop k session iteration reason)
  unfolding stop
  Ok-stop iteration reason = search preserves_rules depth 12

  Ok-stopping : (iteration : ℕ) (reason : StopReason) → Ok (stopping k session iteration reason)
  unfolding stopping
  Ok-stopping iteration reason = search (preserves_rules, Ok-stop)

  Ok-call_with_retry :
      (left attempt iteration : ℕ) (msgs : List Message)
      → Ok (call_with_retry k session left attempt iteration msgs)
  unfolding call_with_retry
  Ok-call_with_retry zero attempt iteration msgs = search preserves_rules
  Ok-call_with_retry (suc left) attempt iteration msgs =
      let rest = Ok-call_with_retry left (attempt + 1) iteration msgs in
      let asks =
        Preserves-calls P start.approvals (k.complete msgs (tool_defs k session))
          (keeps.complete_ok msgs (tool_defs k session)) in
      let sleeps =
        Preserves-calls P start.approvals {A = Unit {0}}
          (λ w. (tt, k.sleep (k.model_retry_backoff * attempt) w))
          (keeps.sleep_ok (k.model_retry_backoff * attempt)) in
      search preserves_rules depth 14

  Ok-finish :
      (iteration : ℕ) (history : List String) (response : ModelResponse)
      → Ok (finish k session iteration history response)
  unfolding finish refusal say complete_run
  Ok-finish iteration history response = search preserves_rules depth 14

  Ok-act :
      (iteration : ℕ) (history : List String) (response : ModelResponse)
      → Ok (act k session iteration history response)
  unfolding act say
  Ok-act iteration history response = search (preserves_rules, Ok-stopping, Ok-execute) depth 12

  Ok-answered :
      (iteration : ℕ) (history : List String) (seq : ℕ) (response : ModelResponse)
      → Ok (answered k session iteration history seq response)
  unfolding answered
  Ok-answered iteration history seq response =
      search (preserves_rules, Ok-stopping, Ok-finish, Ok-act) depth 14

  Ok-ask :
      (iteration : ℕ) (history : List String) (msgs : List Message)
      → Ok (ask k session iteration history msgs)
  unfolding ask
  Ok-ask iteration history msgs =
      search (preserves_rules, Ok-stopping, Ok-call_with_retry, Ok-answered) depth 14

  Ok-iterate :
      (start_time iteration : ℕ) (history : List String)
      → Ok (iterate k session start_time iteration history)
  unfolding iterate cancelled_now
  Ok-iterate start_time iteration history =
      let clock = Preserves-calls P start.approvals k.monotonic keeps.monotonic_ok in
      search (preserves_rules, Ok-stopping, Ok-ask) depth 14

  Ok-from_step :
      (step : Step) (f : RunResult → K W RunResult) (g : List String → K W RunResult)
      → ((r : RunResult) → Ok (f r))
      → ((h : List String) → Ok (g h))
      → Ok (from_step step f g)
  Ok-from_step (done r) f g p q = p r
  Ok-from_step (again h) f g p q = q h

  Ok-loop_from :
      (left start_time iteration : ℕ) (history : List String)
      → Ok (loop_from k session left start_time iteration history)
  unfolding loop_from
  Ok-loop_from zero start_time iteration history = Ok-stop k.guards.max_iterations max_iterations
  Ok-loop_from (suc left) start_time iteration history =
      let rest = Ok-loop_from left start_time (iteration + 1) in
      search (preserves_rules, Ok-iterate, Ok-from_step) depth 12

  Ok-loop : Ok (loop k session)
  unfolding loop
  Ok-loop =
      let clock = Preserves-calls P start.approvals k.monotonic keeps.monotonic_ok in
      search (preserves_rules, Ok-loop_from)

  Ok-run : (user_text : String) → Ok (run k session user_text)
  unfolding run
  Ok-run user_text = search (preserves_rules, Ok-loop) depth 12

  Ok-resume : Ok (resume k session)
  unfolding resume
  Ok-resume = search (preserves_rules, Ok-execute, Ok-loop) depth 12

-- A property of the world that the adapter and the clock keep, and that a tool keeps whenever its
-- call passes the capability checks and, where the policy wants an approval, has one on record that
-- is no denial, holds after a run and after a resumed run if it held before, whatever calls the
-- model asks for.
pub run-confined :
    {W : Type 0} (k : Kernel W) (session : String) (P : W → Type 0) (text : String) (w : World W)
    → Keeps k session w.store P
    → P w.world
    → P (run k session text w).1.world × P (resume k session w).1.world
run-confined k session P text w keeps holds =
    let inv : Inv P w.store.approvals w = record { world = holds; records = refl } in
    (
      ((Ok-run k session w.store P keeps text).at w inv).world,
      ((Ok-resume k session w.store P keeps).at w inv).world,
    )
