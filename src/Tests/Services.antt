-- ===== src/Tests/Services.antt =====
-- Jobs, roles, seats, breakers, migrations and versions at concrete inputs.
use selfconnect_runtime.Base.{ℕ, ◌+◌, ◌≡◌, [], ◌∷◌, arith, string_eq, ok}
use selfconnect_runtime.Resilience.{CircuitBreaker, open_circuit, record_success}
use selfconnect_runtime.Resilience.Breakers.{after_failures, after_failures-opens}
use selfconnect_runtime.Migrations.{Migration}

abbrev tripped : CircuitBreaker
tripped = record {
  failure_threshold = 3;
  cooldown_seconds = 30;
  state = open_circuit;
  failures = 3;
  opened_at = 0;
}

after_failures-opens_example :
    (after_failures (1 ∷ 2 ∷ 3 ∷ []) (record_success tripped)).state ≡ open_circuit
after_failures-opens_example = after_failures-opens (1 ∷ 2 ∷ 3 ∷ []) tripped (omega arith)

abbrev add_priority : Migration ℕ
add_priority = record { version = 1; name = "add_jobs_priority"; apply = λ n. ok (n + 1) }
