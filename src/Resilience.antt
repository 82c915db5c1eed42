-- ===== src/Resilience.antt =====
-- scr/resilience.py: circuit breakers and the chain of fallbacks. The clock is read from the world.
pub mod Breakers
use selfconnect_runtime.Base.{
  ℕ, ◌+◌, Bool, true, false, not, ◌||◌, List, [], ◌∷◌, map, leb, if◌then◌else◌, Result, ok, err,
}
use selfconnect_runtime.Gateway.{ToolDef, ModelResponse}
use selfconnect_runtime.State.{Message}
use selfconnect_runtime.Kernel.{Outcome, returned, raised}

pub data BreakerState : Type 0 where
  closed open_circuit half_open : BreakerState

pub record CircuitBreaker : Type 0 where
  pub failure_threshold : ℕ
  pub cooldown_seconds : ℕ
  pub state : BreakerState
  pub failures : ℕ
  pub opened_at : ℕ

-- `clock() - _opened_at >= cooldown_seconds`, without a subtraction.
unfoldable pub allow : ℕ → CircuitBreaker → Bool × CircuitBreaker
allow now b = elim b.state [
  | open_circuit ↦
      if leb (b.opened_at + b.cooldown_seconds) now
      then (true, record b { state = half_open })
      else (false, b)
  | closed ↦ (true, b)
  | half_open ↦ (true, b)
]

unfoldable pub record_success : CircuitBreaker → CircuitBreaker
record_success b = record b { failures = 0; state = closed }

abbrev pub is_half_open : BreakerState → Bool
is_half_open half_open = true
is_half_open closed = false
is_half_open open_circuit = false

unfoldable pub record_failure : ℕ → CircuitBreaker → CircuitBreaker
record_failure now b =
    if is_half_open b.state || leb b.failure_threshold (b.failures + 1)
    then record b { failures = b.failures + 1; state = open_circuit; opened_at = now }
    else record b { failures = b.failures + 1 }

-- `AllAdaptersFailed`
pub data ChainError : Type 0 where
  all_failed_or_open : ChainError
  all_open : ChainError

pub record Backed (W : Type 0) : Type 0 where
  pub adapter : List Message → List ToolDef → W → Outcome ModelResponse × W
  pub breaker : CircuitBreaker

-- What `complete` ends with: the answer or the error, the chain, and the world.
pub record Answer (W : Type 0) : Type 0 where
  pub result : Result ChainError ModelResponse
  pub chain : List (Backed W)
  pub world : W

-- `_Backed(a, CircuitBreaker(...))` for each adapter
unfoldable pub fallback_chain :
    {W : Type 0}
    → List (List Message → List ToolDef → W → Outcome ModelResponse × W)
    → ℕ
    → ℕ
    → List (Backed W)
fallback_chain adapters threshold cooldown =
    map
      (λ a. record {
        adapter = a;
        breaker = record {
          failure_threshold = threshold;
          cooldown_seconds = cooldown;
          state = closed;
          failures = 0;
          opened_at = 0;
        };
      })
      adapters

module _ {W : Type 0} (clock : W → ℕ) (messages : List Message) (tools : List ToolDef) where
  abbrev pub behind : Backed W → Answer W → Answer W
  behind b rest = record rest { chain = b ∷ rest.chain }

  -- The loop of `complete`, after some adapter was attempted or none.
  unfoldable pub complete_from : Bool → List (Backed W) → W → Answer W
  unfolding allow record_success record_failure
  complete_from attempted [] w = record {
    result = err (if attempted then all_failed_or_open else all_open);
    chain = [];
    world = w;
  }
  complete_from attempted (b ∷ rest) w =
      let (allowed, breaker) = allow (clock w) b.breaker in
      let (outcome, w') = b.adapter messages tools w in
      let skipped = complete_from attempted rest w in
      let next = complete_from true rest w' in
      if not allowed then behind (record b { breaker = breaker }) skipped else elim outcome [
        | returned response ↦ record {
          result = ok response;
          chain = record b { breaker = record_success breaker } ∷ rest;
          world = w';
        }
        | raised e ↦ behind (record b { breaker = record_failure (clock w') breaker }) next
      ]

  unfoldable pub complete : List (Backed W) → W → Answer W
  unfolding complete_from
  complete chain w = complete_from false chain w

unfoldable pub breaker_states : {W : Type 0} → List (Backed W) → List BreakerState
breaker_states chain = map (λ b. b.breaker.state) chain
