-- ===== src/Webhook/Tests/Queue.antt =====
-- The statements of the queue on the table of two events.
use app_catalogo.Common.{◌≡◌, refl, true, some, List, [], ◌∷◌, arith}
use app_catalogo.Common.Int.{pos}
use app_catalogo.Webhook.Queue.{is_due, claim_due, fail}
use app_catalogo.Webhook.Queue.Find.{find_row}
use app_catalogo.Webhook.Queue.Runs.{Op, enqueues, claims, fails, deletes, run}
use app_catalogo.Webhook.Queue.Waiting.{Waits, run-Waits}
use app_catalogo.Webhook.Queue.Lease.{claimed, claim_leases, stale_fail}
use app_catalogo.Webhook.Tests.Data.{
  table, table-IsValid, first_row, first_event, none_held, finds_first,
}

abbrev some_ops : List Op
some_ops =
    claims none_held 2000 20 (pos 100)
    ∷ fails 2050 first_event "timeout" (pos 30)
    ∷ enqueues 2060 "k3" "iss" "CREATED" (pos 100)
    ∷ deletes 1999
    ∷ claims none_held 3000 1 (pos 100)
    ∷ []

first_due : is_due none_held 2000 first_row ≡ true
unfolding is_due
first_due = refl

run-Waits_example : Waits first_row (find_row 1 (run some_ops table).rows)
run-Waits_example =
    run-Waits some_ops table 1 first_row table-IsValid finds_first refl
      (refl, (refl, (refl, (refl, (refl, tt)))))

claim_leases_example :
    (find_row 1 (claim_due none_held 2000 20 (pos 100) table).1.rows
      ≡ some (claimed 2000 (pos 100) first_row))
    × (find_row 1
          (claim_due none_held 2099 20
            (pos 50)
            (claim_due none_held 2000 20 (pos 100) table).1).1.rows
        ≡ some (claimed 2000 (pos 100) first_row))
claim_leases_example =
    claim_leases none_held 2000 20 100 table 1 first_row none_held 2099 20 (pos 50) table-IsValid
      finds_first first_due (omega arith) (omega arith)

stale_fail_example :
    find_row 1
      (fail 2200 first_event "late" (pos 30) (claim_due none_held 2000 20 (pos 100) table).1).rows
    ≡ some (claimed 2000 (pos 100) first_row)
stale_fail_example =
    stale_fail none_held 2000 20 (pos 100) table 1 first_row first_event 2200 "late" (pos 30)
      finds_first first_due (omega arith) (omega arith)
