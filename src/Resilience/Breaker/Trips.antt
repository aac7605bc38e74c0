-- ===== src/Resilience/Breaker/Trips.antt =====
-- When the circuit breaker opens, and that an open circuit refuses until its timeout.
use app_catalogo.Common.{
  ℕ, suc, ◌+◌, ◌<◌, ◌≡◌, refl, ap, ◌∙◌, false, List, [], ◌∷◌, ◌++◌, map, arith, All, length,
  if◌then◌else◌,
}
use app_catalogo.Common.Int.{pos}
use app_catalogo.Resilience.Breaker.{
  circuit_closed, circuit_open, CircuitBreaker, allow, on_success, on_failure, Event, asks,
  succeeds, fails, abandons, apply, run,
}
use app_catalogo.Resilience.Breaker.Valid.{IsValid}

-- How many of the requests in a run are let through.
unfoldable pub admitted : List Event → CircuitBreaker → ℕ
unfolding apply
admitted [] b = 0
admitted (asks now ∷ es) b =
    let rest = admitted es (allow now b).1 in if (allow now b).0 then suc rest else rest
admitted (succeeds ∷ es) b = admitted es (on_success b)
admitted (fails now ∷ es) b = admitted es (on_failure now b)
admitted (abandons ∷ es) b = admitted es (apply abandons b)

-- Fewer failures in a row than the threshold leave the circuit closed, and are counted.
closed_counts :
    (ts : List ℕ) (b : CircuitBreaker)
    → b.state ≡ circuit_closed
    → b.failures + length ts < b.failure_threshold
    → (run (map fails ts) b).state ≡ circuit_closed
      × (run (map fails ts) b).failures ≡ b.failures + length ts
      × (run (map fails ts) b).failure_threshold ≡ b.failure_threshold
unfolding run apply on_failure
closed_counts [] b c h = (c, omega arith, refl)
closed_counts (t ∷ ts) b c h = ground (arith, closed_counts ts (on_failure t b))

-- The failure that makes the count reach the threshold opens the circuit at its own instant.
opens_at :
    (t : ℕ) (b : CircuitBreaker)
    → b.state ≡ circuit_closed
    → b.failures + 1 ≡ b.failure_threshold
    → (on_failure t b).state ≡ circuit_open × (on_failure t b).opened_at ≡ t
unfolding on_failure
opens_at t b c h = ground arith

run-append : (es fs : List Event) (b : CircuitBreaker) → run (es ++ fs) b ≡ run fs (run es b)
unfolding run
run-append [] fs b = refl
run-append (e ∷ es) fs b = run-append es fs (apply e b)

-- After a success, a valid breaker stays closed through fewer failures in a row than its
-- threshold, and opens at the instant of the failure that reaches the threshold.
pub opens_at_threshold :
    (b : CircuitBreaker) (ts : List ℕ) (t : ℕ)
    → IsValid b
    → length ts + 1 ≡ b.failure_threshold
    → (run (succeeds ∷ map fails ts) b).state ≡ circuit_closed
      × (run (succeeds ∷ map fails ts ++ fails t ∷ []) b).state ≡ circuit_open
      × (run (succeeds ∷ map fails ts ++ fails t ∷ []) b).opened_at ≡ t
unfolding run apply on_success
opens_at_threshold b ts t v h =
    let counts = closed_counts ts (on_success b) refl (omega arith) in
    let trip =
      opens_at t (run (map fails ts) (on_success b)) counts.0 (omega (arith, counts.1, counts.2)) in
    (counts.0, rw run-append trip.0, rw run-append trip.1)

-- The clock readings that come before the timeout of an open breaker has passed.
abbrev pub Early : CircuitBreaker → ℕ → Type 0
Early b now = (timeout : ℕ) × (b.open_timeout ≡ pos timeout) × (now < b.opened_at + timeout)

refuses-Early :
    (now : ℕ) (b : CircuitBreaker) → b.state ≡ circuit_open → Early b now → allow now b ≡ (false, b)
unfolding allow
refuses-Early now b o (timeout, e, early) = ground arith

-- A request that is refused and changes nothing can be left out of a run.
pub skip_refused :
    (now : ℕ) (es : List Event) (b : CircuitBreaker)
    → allow now b ≡ (false, b)
    → (admitted (asks now ∷ es) b ≡ admitted es b) × (run (asks now ∷ es) b ≡ run es b)
unfolding admitted run apply
skip_refused now es b e = (
  ap (λ r. let rest = admitted es r.1 in if r.0 then suc rest else rest) e,
  ap (λ r. run es r.1) e,
)

pub open_refuses :
    (b : CircuitBreaker) (ts : List ℕ)
    → b.state ≡ circuit_open
    → All (Early b) ts
    → (admitted (map asks ts) b ≡ 0) × (run (map asks ts) b ≡ b)
unfolding admitted run
open_refuses b [] o h = (refl, refl)
open_refuses b (now ∷ ts) o (e, h) =
    let skip = skip_refused now (map asks ts) b (refuses-Early now b o e) in
    let rest = open_refuses b ts o h in (skip.0 ∙ rest.0, skip.1 ∙ rest.1)
