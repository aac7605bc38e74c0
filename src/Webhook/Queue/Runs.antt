-- ===== src/Webhook/Queue/Runs.antt =====
-- The statements of the queue in any order, as any number of replicas send them.
use app_catalogo.Common.{ℕ, String, Bool, true, false, List, [], ◌∷◌}
use app_catalogo.Common.Int.{ℤ}
use app_catalogo.Webhook.Queue.{
  Table, SalesForceWebhookEvent, enqueue, claim_due, complete, fail, delete_completed_before,
}
use app_catalogo.Webhook.Queue.Valid.{
  IsValid, enqueue-IsValid, claim_due-IsValid, complete-IsValid, fail-IsValid,
  delete_completed_before-IsValid,
}

-- One statement, as some replica sends it.
pub data Op : Type 0 where
  enqueues : ℕ → String → String → String → ℤ → Op
  claims : (ℕ → Bool) → ℕ → ℕ → ℤ → Op
  completes : ℕ → SalesForceWebhookEvent → Op
  fails : ℕ → SalesForceWebhookEvent → String → ℤ → Op
  deletes : ℕ → Op

unfoldable pub apply : Op → Table → Table
apply (enqueues now key slug event_type lease) t = (enqueue now key slug event_type lease t).1
apply (claims locked now limit lease) t = (claim_due locked now limit lease t).1
apply (completes now ev) t = (complete now ev t).1
apply (fails now ev message retry_in) t = fail now ev message retry_in t
apply (deletes before) t = (delete_completed_before before t).1

abbrev pub is_completion : Op → Bool
is_completion (completes now ev) = true
is_completion _ = false

unfoldable pub run : List Op → Table → Table
run [] t = t
run (op ∷ ops) t = run ops (apply op t)

pub apply-IsValid : (op : Op) {t : Table} → IsValid t → IsValid (apply op t)
unfolding apply
apply-IsValid (enqueues now key slug event_type lease) v =
    enqueue-IsValid v now key slug event_type lease
apply-IsValid (claims locked now limit lease) v = claim_due-IsValid v locked now limit lease
apply-IsValid (completes now ev) v = complete-IsValid v now ev
apply-IsValid (fails now ev message retry_in) v = fail-IsValid v now ev message retry_in
apply-IsValid (deletes before) v = delete_completed_before-IsValid v before

-- From a valid table, whatever statements run in whatever order, ids increase below the sequence,
-- event keys are distinct, every row has been attempted, and a row has a processing time exactly
-- when it is completed.
pub queue_run-IsValid : (ops : List Op) (t : Table) → IsValid t → IsValid (run ops t)
unfolding run
queue_run-IsValid [] t v = v
queue_run-IsValid (op ∷ ops) t v = queue_run-IsValid ops (apply op t) (apply-IsValid op v)
