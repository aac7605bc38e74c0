-- ===== src/Resilience/Caller/Outcome.antt =====
-- What the result of `do` says of the operation's last call and of the breaker.
use mathlib.Core.Path.{subst}
use native.Mathlib.Decide.{dec_lt}
use app_catalogo.Common.{
  ℕ, zero, suc, ◌+◌, ◌≤◌, ◌<◌, ◌≡◌, ◌⊎◌, inl, inr, true, false, Option, none, some, arith,
  Option-cases,
}
use app_catalogo.Common.Go.{Sentinel, Error, sentinel, wrap, is_transient}
use app_catalogo.Resilience.Breaker.{circuit_closed, on_success}
use app_catalogo.Resilience.Caller.{
  Attempt, ResilientCaller, Progress, finish, again, round, loop, start, call,
}
use app_catalogo.Resilience.Caller.Bounds.{Step-cases}

-- An attempt after which the loop goes on: a transient failure, with neither the caller gone nor
-- the time of the call used up.
abbrev pub IsRetryable : Attempt → Type 0
IsRetryable a =
    (e : Error) × (a.result ≡ some e)
    × (is_transient e ≡ true)
    × (a.caller_canceled ≡ false)
    × (a.call_ended ≡ false)
    × (a.wait_ended ≡ false)

-- The last attempt accounts for the result.
abbrev pub Explains : ResilientCaller → Attempt → Option Error → Progress → Type 0
Explains c a none p =
    (a.result ≡ none) × (p.breaker.state ≡ circuit_closed) × (p.breaker.failures ≡ 0)
Explains c a (some e) p = (e ≡ wrap c.client (sentinel Sentinel.circuit_open)) ⊎ (a.result ≡ some e)

round-finish :
    (c : ResilientCaller) (a : Attempt) (attempt : ℕ) (p q : Progress) (e : Option Error)
    → round c a attempt p ≡ finish e q
    → Explains c a e q
unfolding round on_success
round-finish c a attempt p q none h = ground arith
round-finish c a attempt p q (some e) h = ground arith

round_again :
    (c : ResilientCaller) (a : Attempt) (attempt : ℕ) (p q : Progress)
    → round c a attempt p ≡ again q
    → IsRetryable a
unfolding round
round_again c a attempt p q h = elim (Option-cases a.result) [
  | inl nil ↦ absurd (ground arith)
  | inr (e, failed) ↦ (e, failed, ground arith, ground arith, ground arith, ground arith)
]

-- Every attempt from one number on, before another, was retryable.
abbrev Retried : (ℕ → Attempt) → ℕ → ℕ → Type 0
Retried env from to = (i : ℕ) → from ≤ i → i < to → IsRetryable (env i)

-- The account that a run of the loop gives: the last attempt explains the result, and all before
-- it were retryable.
abbrev Account : ResilientCaller → (ℕ → Attempt) → ℕ → Option Error → Progress → Type 0
Account c env from e p =
    (last : ℕ) × (from ≤ last) × Explains c (env last) e p × Retried env from last

extend :
    (env : ℕ → Attempt) (from last : ℕ)
    → IsRetryable (env from)
    → Retried env (from + 1) last
    → Retried env from last
extend env from last now later i h k = elim (dec_lt from i) [
  | yes less ↦ later i (omega arith) k
  | no more ↦ subst (λ j. IsRetryable (env j)) (omega arith) now
]

loop-Account :
    (fuel : ℕ) (c : ResilientCaller) (env : ℕ → Attempt) (attempt : ℕ) (p q : Progress)
    (e : Option Error)
    → loop fuel c env attempt p ≡ some (e, q)
    → Account c env attempt e q
unfolding loop
loop-Account zero c env attempt p q e h = cc
loop-Account (suc fuel) c env attempt p q e h =
    elim (Step-cases (round c (env attempt) attempt p)) [
      | inl (e', q', done) ↦
          let returned : ◌≡◌ {A = Option (Option Error × Progress)} (some (e', q')) (some (e, q)) =
            rw (done, loop) at h in
          let same : round c (env attempt) attempt p ≡ finish e q = cc in
          (
            attempt,
            omega arith,
            round-finish c (env attempt) attempt p q e same,
            λ i lo hi. absurd (omega arith),
          )
      | inr (p', more) ↦
          let (last, later, explained, retried) =
            loop-Account fuel c env (attempt + 1) p' q e (rw (more, loop) at h) in
          (
            last,
            omega arith,
            explained,
            extend env attempt last (round_again c (env attempt) attempt p p' more) retried,
          )
    ]

-- A call that has returned made its attempts in order from the first, and every attempt before the
-- last failed transiently, with the caller still waiting and time left. Where the result is nil
-- the last attempt succeeded, and the breaker is closed with no failure counted; where it is an
-- error, it is the last attempt's own or the refusal of an open circuit.
pub call_explained :
    (c : ResilientCaller) (env : ℕ → Attempt) (e : Option Error) (p : Progress)
    → call c env ≡ some (e, p)
    → (last : ℕ) × (1 ≤ last)
      × Explains c (env last) e p
      × ((i : ℕ) → 1 ≤ i → i < last → IsRetryable (env i))
unfolding call
call_explained c env e p h = loop-Account c.max_attempts c env 1 (start c) p e h
