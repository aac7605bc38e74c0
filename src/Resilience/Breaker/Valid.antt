-- ===== src/Resilience/Breaker/Valid.antt =====
-- The invariant of the circuit breaker, kept by every operation.
use app_catalogo.Common.{ℕ, ◌≤◌, ◌<◌, String, ◌≡◌, true, List, [], ◌∷◌, arith}
use app_catalogo.Common.Int.{ℤ, pos, negsuc}
use app_catalogo.Resilience.Breaker.{
  circuit_half_open, state_value, CircuitBreaker, new_circuit_breaker, allow, on_success,
  on_failure, on_abandon, Event, asks, succeeds, fails, abandons, apply, run,
}

pub record IsValid (b : CircuitBreaker) : Type 0 where
  pub positive : 1 ≤ b.failure_threshold
  -- the count stays below the threshold that opens the circuit
  pub counting : b.failures < b.failure_threshold
  -- only a half-open circuit has a probe
  pub probing : b.probe_in_flight ≡ true → b.state ≡ circuit_half_open
  pub shown : b.gauge ≡ state_value b.state

pub new_circuit_breaker-IsValid :
    (client : String) (n timeout : ℤ) → IsValid (new_circuit_breaker client n timeout)
unfolding new_circuit_breaker state_value
new_circuit_breaker-IsValid client (pos n) timeout = ground arith
new_circuit_breaker-IsValid client (negsuc n) timeout = ground arith

module _ {b : CircuitBreaker} (v : IsValid b) where
  pub allow-IsValid : (now : ℕ) → IsValid (allow now b).1
  unfolding allow state_value
  allow-IsValid now = ground arith

  pub on_success-IsValid : IsValid (on_success b)
  unfolding on_success state_value
  on_success-IsValid = ground arith

  pub on_failure-IsValid : (now : ℕ) → IsValid (on_failure now b)
  unfolding on_failure state_value
  on_failure-IsValid now = ground arith

  pub on_abandon-IsValid : IsValid (on_abandon b)
  unfolding on_abandon state_value
  on_abandon-IsValid = ground arith

apply-IsValid : (e : Event) {b : CircuitBreaker} → IsValid b → IsValid (apply e b)
unfolding apply
apply-IsValid (asks now) v = allow-IsValid v now
apply-IsValid succeeds v = on_success-IsValid v
apply-IsValid (fails now) v = on_failure-IsValid v now
apply-IsValid abandons v = on_abandon-IsValid v

pub run_from-IsValid : (es : List Event) {b : CircuitBreaker} → IsValid b → IsValid (run es b)
unfolding run
run_from-IsValid [] v = v
run_from-IsValid (e ∷ es) v = run_from-IsValid es (apply-IsValid e v)

-- Whatever threshold and timeout a breaker is made with, and whatever its callers do to it in
-- whatever order, its threshold is at least one, its count of failures stays below the threshold,
-- a probe is in flight only while it is half-open, and the metric shows its state.
pub breaker_run-IsValid :
    (client : String) (n timeout : ℤ) (es : List Event)
    → IsValid (run es (new_circuit_breaker client n timeout))
breaker_run-IsValid client n timeout es =
    run_from-IsValid es (new_circuit_breaker-IsValid client n timeout)
