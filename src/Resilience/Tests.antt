-- ===== src/Resilience/Tests.antt =====
-- The circuit breaker, the backoff and the caller on concrete runs.
use app_catalogo.Common.{
  ℕ, ◌-◌, ◌≡◌, ◌≤◌, ◌<◌, refl, true, false, Option, none, some, [], ◌∷◌, ◌++◌, map, arith, ◌==◌,
  ◌/◌, if◌then◌else◌,
}
use app_catalogo.Common.Go.{Error, message, transient, is_transient}
use app_catalogo.Common.Int.{pos, ◌≤ℤ◌}
use app_catalogo.Resilience.Breaker.{
  state_value, circuit_closed, circuit_half_open, circuit_open, CircuitBreaker, new_circuit_breaker,
  allow, on_success, on_failure, succeeds, fails, run,
}
use app_catalogo.Resilience.Breaker.Valid.{IsValid}
use app_catalogo.Resilience.Breaker.Trips.{opens_at_threshold}
use app_catalogo.Resilience.Backoff.{
  default_rmi_resilience, random_jitter, backoff, delay_after, full_delay, backoff_bounds,
}
use app_catalogo.Resilience.Caller.{
  Attempt, ResilientCaller, new_resilient_caller, attempts_of, Progress, pause, judge, round, loop,
  call,
}
use app_catalogo.Resilience.Caller.Bounds.{IsBounded, call_ends}
use app_catalogo.Resilience.Caller.Outcome.{Explains, IsRetryable, call_explained}

-- The breaker of a threshold of three that opened at the instant 100, with a timeout of 50.
abbrev opened : CircuitBreaker
opened = record {
  client = "rmi";
  failure_threshold = 3;
  open_timeout = pos 50;
  state = circuit_open;
  failures = 0;
  opened_at = 100;
  probe_in_flight = false;
  gauge = 2;
}

abbrev probing : CircuitBreaker
probing = record opened { state = circuit_half_open; probe_in_flight = true; gauge = 1 }

opened-IsValid : IsValid opened
unfolding state_value
opened-IsValid = record {
  positive = omega arith;
  counting = omega arith;
  probing = λ h. cc;
  shown = refl;
}

opens_at_threshold_example :
    ((run (succeeds ∷ map fails (1 ∷ 2 ∷ [])) opened).state ≡ circuit_closed)
    × ((run (succeeds ∷ map fails (1 ∷ 2 ∷ []) ++ fails 9 ∷ []) opened).state ≡ circuit_open)
    × ((run (succeeds ∷ map fails (1 ∷ 2 ∷ []) ++ fails 9 ∷ []) opened).opened_at ≡ 9)
opens_at_threshold_example = opens_at_threshold opened (1 ∷ 2 ∷ []) 9 opened-IsValid (omega arith)

-- A draw in the documented range: the largest.
abbrev largest : ℕ → ℕ
largest n = n - 1

backoff_bounds_example :
    (pos (full_delay 100000000 1000000000 3 / 2)
      ≤ℤ backoff default_rmi_resilience (random_jitter largest) 3)
    × (backoff default_rmi_resilience (random_jitter largest) 3
        ≤ℤ pos (full_delay 100000000 1000000000 3))
backoff_bounds_example =
    backoff_bounds default_rmi_resilience largest 100000000 1000000000 3 (λ n. omega arith) refl
      refl (omega arith) (omega arith)

-- The first attempt fails transiently, the second succeeds.
abbrev recovering : ℕ → Attempt
recovering n = record {
  asked_at = n;
  result = if n == 1 then some (transient (message "503")) else none;
  caller_canceled = false;
  call_ended = false;
  ended_at = n;
  meanwhile = [];
  during_wait = [];
  wait_ended = false;
  jitter = λ d. pos 0;
}

abbrev caller : ResilientCaller
caller = new_resilient_caller "rmi" default_rmi_resilience

call_ends_example :
    (e : Option Error) × (p : Progress) × (call caller recovering ≡ some (e, p))
    × IsBounded (attempts_of (pos 3)) p
call_ends_example = call_ends "rmi" default_rmi_resilience recovering

abbrev recovered : Progress
recovered = record {
  breaker = new_circuit_breaker "rmi" (pos 5) (pos 30000000000);
  calls = 2;
  retries = 1;
  waits = pos 50000000 ∷ [];
}

recovers : call caller recovering ≡ some (none, recovered)
unfolding call new_resilient_caller new_circuit_breaker loop round judge pause allow on_failure
    on_success is_transient run backoff delay_after
recovers = refl

call_explained_example :
    (last : ℕ) × (1 ≤ last)
    × Explains caller (recovering last) none recovered
    × ((i : ℕ) → 1 ≤ i → i < last → IsRetryable (recovering i))
call_explained_example = call_explained caller recovering none recovered recovers
