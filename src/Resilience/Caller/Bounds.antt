-- ===== src/Resilience/Caller/Bounds.antt =====
-- How often the loop of `do` calls the operation, and that it ends.
use app_catalogo.Common.{
  ℕ, zero, suc, ◌+◌, ◌-◌, ◌≤◌, ◌<◌, ◌≡◌, refl, ◌⊎◌, inl, inr, Option, some, String, arith,
}
use app_catalogo.Common.Go.{Error}
use app_catalogo.Resilience.Backoff.{ResilienceConfig}
use app_catalogo.Resilience.Caller.{
  Attempt, ResilientCaller, new_resilient_caller, Progress, Step, finish, again, round, loop, start,
  call, attempts_of,
}

-- What holds of the counters between rounds: `attempt - 1` calls were made, each but the first a
-- retry, with a wait after each.
pub record IsCounted (attempt : ℕ) (p : Progress) : Type 0 where
  pub numbered : 1 ≤ attempt
  pub calls : p.calls + 1 ≡ attempt
  pub retries : p.retries ≡ p.calls - 1

again-IsCounted :
    (c : ResilientCaller) (a : Attempt) (attempt : ℕ) {p q : Progress}
    → IsCounted attempt p
    → round c a attempt p ≡ again q
    → IsCounted (attempt + 1) q × (attempt < c.max_attempts)
unfolding round
again-IsCounted c a attempt v e = ground arith

-- What the counters show when a call has ended.
pub record IsBounded (max_attempts : ℕ) (p : Progress) : Type 0 where
  pub calls : p.calls ≤ max_attempts
  pub retries : p.retries ≡ p.calls - 1

finish-IsBounded :
    (c : ResilientCaller) (a : Attempt) (attempt : ℕ) {p q : Progress} {e : Option Error}
    → IsCounted attempt p
    → attempt ≤ c.max_attempts
    → round c a attempt p ≡ finish e q
    → IsBounded c.max_attempts q
unfolding round
finish-IsBounded c a attempt v h e = ground arith

pub Step-cases :
    (s : Step)
    → ((e : Option Error) × (p : Progress) × (s ≡ finish e p)) ⊎ ((p : Progress) × (s ≡ again p))
Step-cases (finish e p) = inl (e, p, refl)
Step-cases (again p) = inr (p, refl)

abbrev Ends : ResilientCaller → Option (Option Error × Progress) → Type 0
Ends c r = (e : Option Error) × (p : Progress) × (r ≡ some (e, p)) × IsBounded c.max_attempts p

loop-Ends :
    (fuel : ℕ) (c : ResilientCaller) (env : ℕ → Attempt) (attempt : ℕ) (p : Progress)
    → IsCounted attempt p
    → attempt ≤ c.max_attempts
    → c.max_attempts < attempt + fuel
    → Ends c (loop fuel c env attempt p)
unfolding loop
loop-Ends zero c env attempt p v h enough = absurd (omega arith)
loop-Ends (suc fuel) c env attempt p v h enough =
    elim (Step-cases (round c (env attempt) attempt p)) [
      | inl (e, q, done) ↦
          rw (done, loop) (e, q, refl, finish-IsBounded c (env attempt) attempt v h done)
      | inr (q, more) ↦
          let (counted, below) = again-IsCounted c (env attempt) attempt v more in
          rw (more, loop) (loop-Ends fuel c env (attempt + 1) q counted (omega arith) (omega arith))
    ]

max_attempts_pos :
    (client : String) (config : ResilienceConfig)
    → 1 ≤ (new_resilient_caller client config).max_attempts
unfolding new_resilient_caller
max_attempts_pos client config = ground arith

-- A caller made with any configuration returns whatever the operation, the clock, the contexts and
-- the other users of its breaker do. It then has called the operation at most as often as the
-- configured attempts, or once where fewer than one are configured, and has counted each call but
-- the first as a retry.
pub call_ends :
    (client : String) (config : ResilienceConfig) (env : ℕ → Attempt)
    → (e : Option Error) × (p : Progress) × (call (new_resilient_caller client config) env
        ≡ some (e, p))
      × IsBounded (attempts_of config.max_attempts) p
unfolding call new_resilient_caller
call_ends client config env =
    loop-Ends (new_resilient_caller client config).max_attempts (new_resilient_caller client config)
      env 1 (start (new_resilient_caller client config))
      (record { numbered = omega arith; calls = omega arith; retries = omega arith })
      (max_attempts_pos client config) (omega arith)
