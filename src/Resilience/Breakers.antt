-- ===== src/Resilience/Breakers.antt =====
-- scr/resilience.py: when a breaker opens, and what an open one does.
use selfconnect_runtime.Base.{
  ℕ, ◌+◌, ◌≤◌, ◌<◌, ◌≡◌, refl, List, [], ◌∷◌, arith, leb, if◌then◌else◌, string_eq, length, All,
  err,
}
use selfconnect_runtime.Gateway.{ToolDef}
use selfconnect_runtime.State.{Message}
use selfconnect_runtime.Resilience.{
  closed, open_circuit, CircuitBreaker, allow, record_success, record_failure, Backed,
  complete_from, complete, all_open,
}

-- The breaker after failures at the given times, one after another.
abbrev pub after_failures : List ℕ → CircuitBreaker → CircuitBreaker
after_failures [] b = b
after_failures (now ∷ times) b = after_failures times (record_failure now b)

-- An open breaker in its cooldown.
abbrev pub Blocked : ℕ → CircuitBreaker → Type 0
Blocked now b = (b.state ≡ open_circuit) × (now < b.opened_at + b.cooldown_seconds)

-- When the breakers of all adapters are open and in their cooldown, no adapter is called: the chain
-- fails at once, and leaves the breakers and the world as they are.
pub complete-Blocked :
    {W : Type 0} (clock : W → ℕ) (messages : List Message) (tools : List ToolDef)
    (chain : List (Backed W)) (w : W)
    → All (λ (b : Backed W). Blocked (clock w) b.breaker) chain
    → complete clock messages tools chain w
      ≡ record { result = err all_open; chain = chain; world = w }
unfolding complete complete_from allow
complete-Blocked clock messages tools [] w h = refl
complete-Blocked clock messages tools (b ∷ rest) w (blocked, h) =
    ground (arith, blocked.0, blocked.1, complete-Blocked clock messages tools rest w h)

record_failure-counts :
    (now : ℕ) (b : CircuitBreaker)
    → ((record_failure now b).failures ≡ b.failures + 1)
      × ((record_failure now b).failure_threshold ≡ b.failure_threshold)
unfolding record_failure
record_failure-counts now b = (ground arith, ground arith)

record_failure-state :
    (now : ℕ) (b : CircuitBreaker)
    → b.state ≡ (if leb b.failure_threshold b.failures then open_circuit else closed)
    → (record_failure now b).state ≡ (
        if leb (record_failure now b).failure_threshold (record_failure now b).failures
        then open_circuit
        else closed)
unfolding record_failure
record_failure-state now b h = ground (arith, h)

after_failures-state :
    (times : List ℕ) (b : CircuitBreaker)
    → 1 ≤ b.failure_threshold
    → b.state ≡ (if leb b.failure_threshold b.failures then open_circuit else closed)
    → (after_failures times b).state
      ≡ (if leb b.failure_threshold (b.failures + length times) then open_circuit else closed)
unfolding record_failure
after_failures-state [] b le h = ground (arith, h)
after_failures-state (now ∷ times) b le h =
    let (count, same) = record_failure-counts now b in
    ground (
      arith,
      count,
      same,
      after_failures-state times (record_failure now b) (omega (arith, same, le))
          (record_failure-state now b h),
    )

-- After a success, failures one after another open a breaker exactly when they are as many as its
-- threshold, if the threshold is not zero.
pub after_failures-opens :
    (times : List ℕ) (b : CircuitBreaker)
    → 1 ≤ b.failure_threshold
    → (after_failures times (record_success b)).state
      ≡ (if leb b.failure_threshold (length times) then open_circuit else closed)
unfolding record_success
after_failures-opens times b le =
    ground (arith, after_failures-state times (record_success b) le (ground (arith, le)))
