-- ===== src/Resilience/Breaker.antt =====
-- The circuit breaker of internal/clients/resilience.go. An instant is a number of nanoseconds and
-- each operation takes the reading of the breaker's clock. The mutex makes each operation atomic.
pub mod Valid
pub mod Trips
pub mod Probe
use app_catalogo.Common.{ℕ, ◌+◌, String, Bool, true, false, not, List, [], ◌∷◌, leb, if◌then◌else◌}
use app_catalogo.Common.Int.{ℤ, pos, negsuc, ◌-ℤ◌, ltb_ℤ}

pub data CircuitState : Type 0 where
  circuit_closed circuit_half_open circuit_open : CircuitState

-- The numbers that the metric shows.
unfoldable pub state_value : CircuitState → ℕ
state_value circuit_closed = 0
state_value circuit_half_open = 1
state_value circuit_open = 2

unfoldable pub state_string : CircuitState → String
state_string circuit_closed = "closed"
state_string circuit_half_open = "half-open"
state_string circuit_open = "open"

pub record CircuitBreaker : Type 0 where
  pub client : String
  pub failure_threshold : ℕ
  pub open_timeout : ℤ
  pub state : CircuitState
  pub failures : ℕ
  pub opened_at : ℕ
  pub probe_in_flight : Bool
  -- catalogo_http_client_circuit_state
  pub gauge : ℕ

-- A threshold below one becomes one.
unfoldable pub threshold : ℤ → ℕ
threshold (pos n) = if leb n 0 then 1 else n
threshold (negsuc n) = 1

unfoldable pub new_circuit_breaker : String → ℤ → ℤ → CircuitBreaker
unfolding threshold state_value
new_circuit_breaker client failure_threshold open_timeout = record {
  client = client;
  failure_threshold = threshold failure_threshold;
  open_timeout = open_timeout;
  state = circuit_closed;
  failures = 0;
  opened_at = 0;
  probe_in_flight = false;
  gauge = state_value circuit_closed;
}

unfoldable pub set_state_locked : CircuitState → CircuitBreaker → CircuitBreaker
unfolding state_value
set_state_locked state b = record b { state = state; gauge = state_value state }

unfoldable pub open_locked : ℕ → CircuitBreaker → CircuitBreaker
unfolding set_state_locked
open_locked now b = set_state_locked circuit_open (record b { failures = 0; opened_at = now })

unfoldable pub allow_open : ℕ → CircuitBreaker → Bool × CircuitBreaker
unfolding set_state_locked
allow_open now b =
    if ltb_ℤ (pos now -ℤ pos b.opened_at) b.open_timeout
    then (false, b)
    else (true, record (set_state_locked circuit_half_open b) { probe_in_flight = true })

unfoldable pub allow_in : CircuitState → ℕ → CircuitBreaker → Bool × CircuitBreaker
unfolding allow_open
allow_in circuit_open now b = allow_open now b
allow_in circuit_half_open now b =
    if b.probe_in_flight then (false, b) else (true, record b { probe_in_flight = true })
allow_in circuit_closed now b = (true, b)

-- `false` is ErrCircuitOpen.
unfoldable pub allow : ℕ → CircuitBreaker → Bool × CircuitBreaker
unfolding allow_in
allow now b = allow_in b.state now b

unfoldable pub on_success : CircuitBreaker → CircuitBreaker
unfolding set_state_locked
on_success b = set_state_locked circuit_closed (record b { failures = 0; probe_in_flight = false })

unfoldable pub count_failure : ℕ → CircuitBreaker → CircuitBreaker
unfolding open_locked
count_failure now b =
    if leb b.failure_threshold (b.failures + 1)
    then open_locked now (record b { failures = b.failures + 1 })
    else record b { failures = b.failures + 1 }

unfoldable pub fail_in : CircuitState → ℕ → CircuitBreaker → CircuitBreaker
unfolding count_failure
fail_in circuit_half_open now b = open_locked now b
fail_in circuit_open now b = count_failure now b
fail_in circuit_closed now b = count_failure now b

unfoldable pub on_failure : ℕ → CircuitBreaker → CircuitBreaker
unfolding fail_in
on_failure now b = fail_in b.state now (record b { probe_in_flight = false })

unfoldable pub on_abandon : CircuitBreaker → CircuitBreaker
on_abandon b = record b { probe_in_flight = false }

-- What the goroutines that share a breaker do to it, in the order of the lock.
pub data Event : Type 0 where
  asks : ℕ → Event
  succeeds : Event
  fails : ℕ → Event
  abandons : Event

unfoldable pub apply : Event → CircuitBreaker → CircuitBreaker
unfolding allow on_success on_failure on_abandon
apply (asks now) b = (allow now b).1
apply succeeds b = on_success b
apply (fails now) b = on_failure now b
apply abandons b = on_abandon b

unfoldable pub run : List Event → CircuitBreaker → CircuitBreaker
unfolding apply
run [] b = b
run (e ∷ es) b = run es (apply e b)
