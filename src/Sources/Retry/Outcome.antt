-- ===== src/Sources/Retry/Outcome.antt =====
-- That a synchronisation ends, how often it runs its source, and what its result says.
use mathlib.Core.Path.{subst}
use app_catalogo.Common.{
  ℕ, zero, suc, ◌+◌, ◌≤◌, ◌<◌, ◌≡◌, refl, sym, ap, ◌⊎◌, inl, inr, true, Option, none, some, List,
  [], ◌∷◌, ◌++◌, length, length-append, arith, All, Bool-cases, Option-cases,
}
use app_catalogo.Common.Go.{Error, Sentinel, sentinel, join, is, same_sentinel}
use app_catalogo.Common.Int.{pos, ◌≤ℤ◌, pos_part}
use app_catalogo.Sources.Mode.{SyncMode, Operation, sync_func}
use app_catalogo.Sources.Policy.{RetryPolicy}
use app_catalogo.Sources.Registry.{DataSource, Manager}
use app_catalogo.Sources.Retry.{
  Attempt, Progress, Step, finish, again, give_up, round, loop, start, sync_with_retry_mode,
}

-- What holds between rounds.
record IsCounted (op : Operation) (attempt : ℕ) (p : Progress) : Type 0 where
  pub numbered : 1 ≤ attempt
  pub runs : length p.runs + 1 ≡ attempt
  pub retries : p.retries + 1 ≡ attempt
  pub open_run : (p.successes ≡ 0) × (p.failures ≡ 0)
  pub same : All (λ o. o ≡ op) p.runs

-- The error that a run ends with wraps the failure of its last attempt, and reports the end of the
-- context if it has ended.
abbrev pub Reports : Option Sentinel → Error → Error → Type 0
Reports none e returned = returned ≡ e
Reports (some s) e returned =
    (is returned s ≡ true) × ((returned ≡ e) ⊎ (returned ≡ join e (sentinel s)))

-- What the last attempt says of the result and of the counters.
abbrev pub Accounts : Attempt → Option Error → Progress → Type 0
Accounts a none p = (a.result ≡ none) × (p.successes ≡ 1) × (p.failures ≡ 0)
Accounts a (some returned) p =
    (e : Error) × (a.result ≡ some e)
    × Reports a.ctx_err_at_end e returned
    × (p.successes ≡ 0)
    × (p.failures ≡ 1)

-- A finished synchronisation: it ran its operation, and nothing else, once more than it retried, at
-- most as often as allowed; the last attempt accounts for the result.
pub record IsDone (op : Operation) (env : ℕ → Attempt) (most : ℕ) (e : Option Error) (p : Progress)
    : Type 0 where
  pub runs : length p.runs ≤ most
  pub retries : length p.runs ≡ p.retries + 1
  pub same : All (λ o. o ≡ op) p.runs
  pub last : Accounts (env (length p.runs)) e p

same_sentinel_refl : (s : Sentinel) → same_sentinel s s ≡ true
unfolding same_sentinel
same_sentinel_refl Sentinel.circuit_open = refl
same_sentinel_refl Sentinel.canceled = refl
same_sentinel_refl Sentinel.deadline_exceeded = refl
same_sentinel_refl Sentinel.service_not_found = refl

give_up-Reports : (e : Error) (c : Option Sentinel) → Reports c e (give_up e c)
unfolding give_up is
give_up-Reports e none = refl
give_up-Reports e (some s) = elim (Bool-cases (is e s)) [
  | inl yes_is ↦ rw yes_is (yes_is, inl refl)
  | inr not_is ↦ rw (not_is, is, not_is, same_sentinel_refl s) (refl, inr refl)
]

All-append_one :
    (op : Operation) (os : List Operation)
    → All (λ o. o ≡ op) os
    → All (λ o. o ≡ op) (os ++ op ∷ [])
All-append_one op [] h = (refl, tt)
All-append_one op (o ∷ os) (h, t) = (h, All-append_one op os t)

length_append_one : (op : Operation) (os : List Operation) → length (os ++ op ∷ []) ≡ length os + 1
length_append_one op os = omega (arith, length-append os (op ∷ []))

module _ (policy : RetryPolicy) (op : Operation) (a : Attempt) (attempt : ℕ) where
  again-IsCounted :
      (p q : Progress)
      → IsCounted op attempt p
      → round policy op a attempt p ≡ again q
      → IsCounted op (attempt + 1) q × (pos (attempt + 1) ≤ℤ policy.max_attempts)
  unfolding round
  again-IsCounted p q v e =
      let more = length_append_one op p.runs in
      let same = All-append_one op p.runs v.same in ground arith

  finish_failed :
      (p q : Progress) (returned : Error)
      → IsCounted op attempt p
      → round policy op a attempt p ≡ finish (some returned) q
      → (e : Error) × (a.result ≡ some e)
        × (returned ≡ give_up e a.ctx_err_at_end)
        × (q.successes ≡ 0)
        × (q.failures ≡ 1)
        × (q.runs ≡ p.runs ++ op ∷ [])
        × (q.retries ≡ p.retries)
  unfolding round
  finish_failed p q returned v h = elim (Option-cases a.result) [
    | inl nil ↦ absurd (ground arith)
    | inr (e, failed) ↦
        (e, failed, ground arith, ground arith, ground arith, ground arith, ground arith)
  ]

  finish-Accounts :
      (p q : Progress) (e : Option Error)
      → IsCounted op attempt p
      → round policy op a attempt p ≡ finish e q
      → Accounts a e q × (q.runs ≡ p.runs ++ op ∷ []) × (q.retries ≡ p.retries)
  unfolding round
  finish-Accounts p q none v h = ground arith
  finish-Accounts p q (some returned) v h =
      let (e, failed, is_it, successes, failures, runs, retries) = finish_failed p q returned v h in
      (
        (
          e,
          failed,
          subst (Reports a.ctx_err_at_end e) (sym is_it) (give_up-Reports e a.ctx_err_at_end),
          successes,
          failures,
        ),
        runs,
        retries,
      )

Step-cases :
    (s : Step)
    → ((e : Option Error) × (p : Progress) × (s ≡ finish e p)) ⊎ ((p : Progress) × (s ≡ again p))
Step-cases (finish e p) = inl (e, p, refl)
Step-cases (again p) = inr (p, refl)

-- A run of the loop that returns a finished synchronisation.
abbrev Finishes : Operation → (ℕ → Attempt) → ℕ → Option (Option Error × Progress) → Type 0
Finishes op env most r =
    (e : Option Error) × (p : Progress) × (r ≡ some (e, p)) × IsDone op env most e p

finish-IsDone :
    (policy : RetryPolicy) (op : Operation) (env : ℕ → Attempt) (attempt most : ℕ) (p q : Progress)
    (e : Option Error)
    → IsCounted op attempt p
    → attempt ≤ most
    → round policy op (env attempt) attempt p ≡ finish e q
    → IsDone op env most e q
finish-IsDone policy op env attempt most p q e v below done =
    let (account, runs, retries) = finish-Accounts policy op (env attempt) attempt p q e v done in
    let count : length q.runs ≡ attempt =
      omega (arith, ap length runs, length_append_one op p.runs, v.runs) in
    record {
      runs = omega (arith, count);
      retries = omega (arith, count, retries, v.retries);
      same = subst (All (λ o. o ≡ op)) (sym runs) (All-append_one op p.runs v.same);
      last = subst (λ n. Accounts (env n) e q) (sym count) account;
    }

loop-Finishes :
    (fuel : ℕ) (policy : RetryPolicy) (op : Operation) (env : ℕ → Attempt) (attempt most : ℕ)
    (p : Progress)
    → policy.max_attempts ≡ pos most
    → IsCounted op attempt p
    → attempt ≤ most
    → most < attempt + fuel
    → Finishes op env most (loop fuel policy op env attempt p)
unfolding loop
loop-Finishes zero policy op env attempt most p limit v h enough = absurd (omega arith)
loop-Finishes (suc fuel) policy op env attempt most p limit v h enough =
    elim (Step-cases (round policy op (env attempt) attempt p)) [
      | inl (e, q, done) ↦
          rw (done, loop) (e, q, refl, finish-IsDone policy op env attempt most p q e v h done)
      | inr (q, more) ↦
          let (counted, below) = again-IsCounted policy op (env attempt) attempt p q v more in
          rw (more, loop)
            (loop-Finishes fuel policy op env (attempt + 1) most q limit counted
              (omega (arith, subst (λ z. pos (attempt + 1) ≤ℤ z) limit below)) (omega arith))
    ]

-- A synchronisation of a manager whose policy allows most ≥ 1 attempts returns, whatever the
-- source, the context and the timer do. It ran the operation that the mode asks of the source, and
-- no other, once more than it counted retries and at most most times. It returns nil exactly where
-- the last run succeeded, and counts one success; else it counts one failure and returns the last
-- run's error, joined with the context's where the context has ended and the error is not it.
pub sync_with_retry_mode_ends :
    (m : Manager) (s : DataSource) (mode : SyncMode) (env : ℕ → Attempt) (most : ℕ)
    → m.retry.max_attempts ≡ pos most
    → 1 ≤ most
    → (e : Option Error) × (p : Progress) × (sync_with_retry_mode m s mode env ≡ some (e, p))
      × IsDone (sync_func s.full_syncer mode) env most e p
unfolding sync_with_retry_mode
sync_with_retry_mode_ends m s mode env most limit positive =
    let op = sync_func s.full_syncer mode in
    let counted : IsCounted op 1 start = record {
      numbered = omega arith;
      runs = omega arith;
      retries = omega arith;
      open_run = (refl, refl);
      same = tt;
    } in
    subst (λ n. Finishes op env most (loop n m.retry op env 1 start)) (sym (ap pos_part limit))
      (loop-Finishes most m.retry op env 1 most start limit counted positive (omega arith))
