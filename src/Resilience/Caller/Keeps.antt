-- ===== src/Resilience/Caller/Keeps.antt =====
-- A call of `do` keeps the invariant of the breaker.
use app_catalogo.Common.{
  ℕ, zero, suc, ◌+◌, ◌≡◌, Bool, true, false, Option, none, some, arith, if◌then◌else◌, inl, inr,
  ◌⊎◌,
}
use app_catalogo.Common.Go.{Error}
use app_catalogo.Resilience.Breaker.Valid.{
  IsValid, allow-IsValid, on_success-IsValid, on_failure-IsValid, on_abandon-IsValid,
  run_from-IsValid,
}
use app_catalogo.Resilience.Caller.{
  Attempt, ResilientCaller, Progress, Step, finish, again, pause, judge, round, loop, start, call,
}
use app_catalogo.Resilience.Caller.Bounds.{Step-cases}

data Keeps : Step → Type 0 where
  kept_finish : (e : Option Error) {p : Progress} → IsValid p.breaker → Keeps (finish e p)
  kept_again : {p : Progress} → IsValid p.breaker → Keeps (again p)

Keeps-if : (b : Bool) {s t : Step} → Keeps s → Keeps t → Keeps (if b then s else t)
Keeps-if true h k = h
Keeps-if false h k = k

ruleset breaker_rules = (
  Keeps-if, kept_finish, kept_again, allow-IsValid, on_success-IsValid, on_failure-IsValid,
  on_abandon-IsValid, run_from-IsValid,
)

module _ (c : ResilientCaller) (a : Attempt) (attempt : ℕ) where
  pause-Keeps : (e : Error) (p : Progress) → IsValid p.breaker → Keeps (pause c a attempt e p)
  unfolding pause
  pause-Keeps e p v = search breaker_rules

  judge-Keeps :
      (r : Option Error) (p : Progress) → IsValid p.breaker → Keeps (judge c a attempt r p)
  unfolding judge
  judge-Keeps none p v = search breaker_rules
  judge-Keeps (some e) p v = search (breaker_rules, pause-Keeps) depth 7

  round-Keeps : (p : Progress) → IsValid p.breaker → Keeps (round c a attempt p)
  unfolding round
  round-Keeps p v = search (breaker_rules, judge-Keeps)

kept :
    {s : Step} (p : Progress)
    → Keeps s
    → (s ≡ again p) ⊎ ((e : Option Error) × (s ≡ finish e p))
    → IsValid p.breaker
kept p (kept_finish e v) h = ground arith
kept p (kept_again v) h = ground arith

loop-IsValid :
    (fuel : ℕ) (c : ResilientCaller) (env : ℕ → Attempt) (attempt : ℕ) (p q : Progress)
    (e : Option Error)
    → IsValid p.breaker
    → loop fuel c env attempt p ≡ some (e, q)
    → IsValid q.breaker
unfolding loop
loop-IsValid zero c env attempt p q e v h = cc
loop-IsValid (suc fuel) c env attempt p q e v h =
    let keeps = round-Keeps c (env attempt) attempt p v in
    elim (Step-cases (round c (env attempt) attempt p)) [
      | inl (e', q', done) ↦
          let returned : ◌≡◌ {A = Option (Option Error × Progress)} (some (e', q')) (some (e, q)) =
            rw (done, loop) at h in
          kept q keeps (inr (e, cc))
      | inr (p', more) ↦
          loop-IsValid fuel c env (attempt + 1) p' q e (kept p' keeps (inl more))
            (rw (more, loop) at h)
    ]

-- A call that starts with a valid breaker leaves it valid, on every path out of the loop and
-- whatever other goroutines do to the breaker while the operation runs and while the call waits.
pub call-IsValid :
    (c : ResilientCaller) (env : ℕ → Attempt) (e : Option Error) (p : Progress)
    → IsValid c.breaker
    → call c env ≡ some (e, p)
    → IsValid p.breaker
unfolding call
call-IsValid c env e p v h = loop-IsValid c.max_attempts c env 1 (start c) p e v h
