-- ===== src/Sources/Retry.antt =====
-- `syncWithRetryMode`: one synchronisation with its retries. What the source, the context and the
-- timer do during one attempt is an `Attempt`; a run is given one for each number.
pub mod Outcome
use app_catalogo.Common.{
  ℕ, zero, suc, ◌+◌, ◌-◌, ◌≤◌, ◌<◌, ◌≡◌, refl, Bool, true, false, ◌||◌, Option, none, some, List,
  [], ◌∷◌, ◌++◌, if◌then◌else◌,
}
use app_catalogo.Common.Go.{Error, Sentinel, sentinel, join, is}
use app_catalogo.Common.Int.{ℤ, pos, leb_ℤ, pos_part}
use app_catalogo.Sources.Mode.{SyncMode, sync_mode_delta, Operation, sync_func}
use app_catalogo.Sources.Policy.{RetryPolicy, backoff}
use app_catalogo.Sources.Registry.{DataSource, Manager}

pub record Attempt : Type 0 where
  -- what the operation returns; `none` is nil
  pub result : Option Error
  -- ctx.Err() after the operation, when the wait starts, and when the run is given up
  pub ctx_err : Option Sentinel
  pub ctx_err_at_wait : Option Sentinel
  pub ctx_err_at_end : Option Sentinel
  -- the select of sleepCtx takes the timer
  pub timer_first : Bool
  -- rand.Int64N
  pub int64n : ℕ → ℕ

-- The operations that were run, the waits, and the counters of the metrics.
pub record Progress : Type 0 where
  pub runs : List Operation
  pub waits : List ℤ
  pub successes : ℕ
  pub failures : ℕ
  pub retries : ℕ

pub data Step : Type 0 where
  finish : Option Error → Progress → Step
  again : Progress → Step

abbrev pub is_ended : Option Sentinel → Bool
is_ended none = false
is_ended (some s) = true

-- `sleepCtx`
unfoldable pub sleep_ctx : Attempt → ℤ → Bool
sleep_ctx a d =
    if leb_ℤ d (pos 0) then (if is_ended a.ctx_err_at_wait then false else true) else a.timer_first

-- The error that a run ends with.
unfoldable pub give_up : Error → Option Sentinel → Error
give_up e none = e
give_up e (some s) = if is e s then e else join e (sentinel s)

unfoldable pub fail_run : Error → Attempt → Progress → Step
fail_run e a p = finish (some (give_up e a.ctx_err_at_end)) (record p { failures = p.failures + 1 })

unfoldable pub try_again : RetryPolicy → Attempt → ℕ → Error → Progress → Step
unfolding fail_run
try_again policy a attempt e p =
    if leb_ℤ policy.max_attempts (pos attempt) || is_ended a.ctx_err
    then fail_run e a p
    else (let wait = backoff policy a.int64n attempt in
        let waited = record p { waits = p.waits ++ wait ∷ [] } in
        if sleep_ctx a wait
        then again (record waited { retries = waited.retries + 1 })
        else fail_run e a waited)

unfoldable pub judge : RetryPolicy → Attempt → ℕ → Option Error → Progress → Step
unfolding try_again
judge policy a attempt none p = finish none (record p { successes = p.successes + 1 })
judge policy a attempt (some e) p = try_again policy a attempt e p

-- One round of the loop.
unfoldable pub round : RetryPolicy → Operation → Attempt → ℕ → Progress → Step
unfolding judge
round policy op a attempt p =
    judge policy a attempt a.result (record p { runs = p.runs ++ op ∷ [] })

-- `none` means that the fuel ran out.
unfoldable pub loop :
    ℕ → RetryPolicy → Operation → (ℕ → Attempt) → ℕ → Progress → Option (Option Error × Progress)
loop zero policy op env attempt p = none
loop (suc fuel) policy op env attempt p = elim (round policy op (env attempt) attempt p) [
  | finish e q ↦ some (e, q)
  | again q ↦ loop fuel policy op env (attempt + 1) q
]

abbrev pub start : Progress
start = record { runs = []; waits = []; successes = 0; failures = 0; retries = 0 }

-- The attempts count from 1, and as much fuel as attempts is enough.
unfoldable pub sync_with_retry_mode :
    Manager → DataSource → SyncMode → (ℕ → Attempt) → Option (Option Error × Progress)
sync_with_retry_mode m s mode env =
    loop (pos_part m.retry.max_attempts) m.retry (sync_func s.full_syncer mode) env 1 start

-- `syncWithRetry`
unfoldable pub sync_with_retry :
    Manager → DataSource → (ℕ → Attempt) → Option (Option Error × Progress)
sync_with_retry m s env = sync_with_retry_mode m s sync_mode_delta env
