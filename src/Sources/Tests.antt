-- ===== src/Sources/Tests.antt =====
-- The manager of the sources on concrete runs.
use app_catalogo.Common.{
  ℕ, ◌-◌, ◌≡◌, refl, true, false, Option, none, some, [], ◌∷◌, arith, ◌==◌, if◌then◌else◌,
}
use app_catalogo.Common.Go.{Error, message, Sentinel}
use app_catalogo.Sources.Mode.{sync_mode_full, sync_func}
use app_catalogo.Sources.Policy.{default_retry_policy}
use app_catalogo.Sources.Registry.{DataSource, Manager}
use app_catalogo.Sources.Retry.{Attempt, Progress, sync_with_retry_mode}
use app_catalogo.Sources.Retry.Outcome.{IsDone, sync_with_retry_mode_ends}

abbrev largest : ℕ → ℕ
largest n = n - 1

abbrev salesforce : DataSource
salesforce = record { name = "salesforce"; source = "SALESFORCE"; full_syncer = true }

abbrev courses : DataSource
courses = record { name = "app-go-api-courses"; source = "APP_GO_API"; full_syncer = false }

abbrev manager : Manager
manager = record { sources = salesforce ∷ courses ∷ []; retry = default_retry_policy }

-- The first attempt fails; the context ends during the second.
abbrev interrupted : ℕ → Attempt
interrupted n = record {
  result = some (message "503");
  ctx_err = if n == 1 then none else some Sentinel.canceled;
  ctx_err_at_wait = none;
  ctx_err_at_end = some Sentinel.canceled;
  timer_first = true;
  int64n = largest;
}

sync_with_retry_mode_ends_example :
    (e : Option Error) × (p : Progress) × (sync_with_retry_mode manager salesforce sync_mode_full
        interrupted
      ≡ some (e, p))
    × IsDone (sync_func true sync_mode_full) interrupted 4 e p
sync_with_retry_mode_ends_example =
    sync_with_retry_mode_ends manager salesforce sync_mode_full interrupted 4 refl (omega arith)
