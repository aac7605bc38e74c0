-- ===== src/Resilience/Breaker/Probe.antt =====
-- The half-open circuit: one probe, and what its outcome does.
use app_catalogo.Common.{ℕ, ◌+◌, ◌<◌, ◌≡◌, refl, true, false, List, [], ◌∷◌, map, arith, All}
use app_catalogo.Common.Int.{pos}
use app_catalogo.Resilience.Breaker.{
  circuit_closed, circuit_half_open, circuit_open, CircuitBreaker, allow, on_success, on_failure,
  on_abandon, asks,
}
use app_catalogo.Resilience.Breaker.Trips.{admitted, Early, open_refuses}

abbrev pub IsProbing : CircuitBreaker → Type 0
IsProbing b = (b.state ≡ circuit_half_open) × (b.probe_in_flight ≡ true)

-- The probe decides: a success closes the circuit and clears the count of failures; a failure at
-- an instant opens it again, and refuses every request made before that instant's timeout.
pub probe_decides :
    (b : CircuitBreaker) (t timeout : ℕ) (ts : List ℕ)
    → b.state ≡ circuit_half_open
    → b.open_timeout ≡ pos timeout
    → All (λ now. now < t + timeout) ts
    → ((on_success b).state ≡ circuit_closed)
      × ((on_success b).failures ≡ 0)
      × ((on_failure t b).state ≡ circuit_open)
      × (admitted (map asks ts) (on_failure t b) ≡ 0)
unfolding on_success on_failure
probe_decides b t timeout ts half e early =
    let opened : (on_failure t b).state ≡ circuit_open = ground arith in
    (refl, refl, opened, (open_refuses (on_failure t b) ts opened (all_early ts early)).0)
  where
    all_early : (ts : List ℕ) → All (λ now. now < t + timeout) ts → All (Early (on_failure t b)) ts
    all_early [] h = tt
    all_early (now ∷ ts) (p, h) = ((timeout, ground arith, ground arith), all_early ts h)

-- The abandoned call need not be the probe: while a probe is in flight every request is refused,
-- but once any call is abandoned the next request is let through beside that probe.
pub abandon_readmits :
    (b : CircuitBreaker) (now later : ℕ)
    → IsProbing b
    → ((allow now b).0 ≡ false) × ((allow later (on_abandon b)).0 ≡ true)
unfolding allow on_abandon
abandon_readmits b now later h = ground arith
