-- ===== src/Resilience/Caller.antt =====
-- `resilientCaller` of internal/clients/resilience.go: retries with backoff around an operation,
-- guarded by the circuit breaker. What the operation, the clock, the contexts and the goroutines
-- that share the breaker do during one attempt is an `Attempt`; a run is given one for each number.
pub mod Bounds
pub mod Outcome
pub mod Keeps
use app_catalogo.Common.{
  ℕ, zero, suc, ◌+◌, String, Bool, true, false, not, Option, none, some, List, [], ◌∷◌, ◌++◌, ltb,
  leb, if◌then◌else◌,
}
use app_catalogo.Common.Int.{ℤ, pos, negsuc}
use app_catalogo.Common.Go.{Error, sentinel, wrap, is_transient}
use app_catalogo.Common.Go.{Sentinel}
use app_catalogo.Resilience.Backoff.{ResilienceConfig, backoff}
use app_catalogo.Resilience.Breaker.{
  CircuitBreaker, new_circuit_breaker, allow, on_success, on_failure, on_abandon, Event, run,
}

pub record Attempt : Type 0 where
  -- the clock when `allow` reads it
  pub asked_at : ℕ
  -- what the operation returns; `none` is nil
  pub result : Option Error
  -- errors.Is(ctx.Err(), context.Canceled)
  pub caller_canceled : Bool
  -- callCtx.Err() != nil, after MaxElapsed or the caller's own deadline
  pub call_ended : Bool
  -- the clock when the outcome is recorded
  pub ended_at : ℕ
  -- what other goroutines do to the breaker while the operation runs, and during the wait
  pub meanwhile : List Event
  pub during_wait : List Event
  -- the select takes callCtx.Done()
  pub wait_ended : Bool
  -- the draw of the jitter
  pub jitter : ℤ → ℤ

pub record ResilientCaller : Type 0 where
  pub client : String
  pub config : ResilienceConfig
  pub max_attempts : ℕ
  pub breaker : CircuitBreaker

-- Fewer attempts than one become one.
unfoldable pub attempts_of : ℤ → ℕ
attempts_of (pos n) = if ltb n 1 then 1 else n
attempts_of (negsuc n) = 1

unfoldable pub new_resilient_caller : String → ResilienceConfig → ResilientCaller
unfolding attempts_of
new_resilient_caller client config = record {
  client = client;
  config = config;
  max_attempts = attempts_of config.max_attempts;
  breaker = new_circuit_breaker client config.failure_threshold config.open_timeout;
}

-- The variables of a call: the breaker, the operation's calls, the retries metric, the waits.
pub record Progress : Type 0 where
  pub breaker : CircuitBreaker
  pub calls : ℕ
  pub retries : ℕ
  pub waits : List ℤ

pub data Step : Type 0 where
  finish : Option Error → Progress → Step
  again : Progress → Step

unfoldable pub pause : ResilientCaller → Attempt → ℕ → Error → Progress → Step
pause c a attempt e p =
    if leb c.max_attempts attempt
    then finish (some e) p
    else (let waited = record p { waits = p.waits ++ backoff c.config a.jitter attempt ∷ [] } in
        if a.wait_ended
        then finish (some e) waited
        else again (record waited { breaker = run a.during_wait waited.breaker }))

-- The switch on what the operation returned.
unfoldable pub judge : ResilientCaller → Attempt → ℕ → Option Error → Progress → Step
unfolding pause
judge c a attempt none p = finish none (record p { breaker = on_success p.breaker })
judge c a attempt (some e) p =
    if a.caller_canceled
    then finish (some e) (record p { breaker = on_abandon p.breaker })
    else if a.call_ended
    then finish (some e) (record p { breaker = on_failure a.ended_at p.breaker })
    else if not (is_transient e)
    then finish (some e) (record p { breaker = on_success p.breaker })
    else pause c a attempt e (record p { breaker = on_failure a.ended_at p.breaker })

-- One round of the loop.
unfoldable pub round : ResilientCaller → Attempt → ℕ → Progress → Step
unfolding judge
round c a attempt p =
    let (allowed, asked) = allow a.asked_at p.breaker in
    if allowed
    then judge c a attempt a.result (record p {
      breaker = run a.meanwhile asked;
      calls = p.calls + 1;
      retries = if ltb 1 attempt then p.retries + 1 else p.retries;
    })
    else finish (some (wrap c.client (sentinel Sentinel.circuit_open)))
        (record p { breaker = asked })

-- `none` means that the fuel ran out.
unfoldable pub loop :
    ℕ → ResilientCaller → (ℕ → Attempt) → ℕ → Progress → Option (Option Error × Progress)
loop zero c env attempt p = none
loop (suc fuel) c env attempt p = elim (round c (env attempt) attempt p) [
  | finish e q ↦ some (e, q)
  | again q ↦ loop fuel c env (attempt + 1) q
]

abbrev pub start : ResilientCaller → Progress
start c = record { breaker = c.breaker; calls = 0; retries = 0; waits = [] }

-- `do`: the attempts count from 1, and as much fuel as attempts is enough.
unfoldable pub call : ResilientCaller → (ℕ → Attempt) → Option (Option Error × Progress)
call c env = loop c.max_attempts c env 1 (start c)
