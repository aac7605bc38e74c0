-- ===== src/Webhook/Tests/Data.antt =====
-- The data of the tests: a table that two events were put in, through the queue's own operations.
use app_catalogo.Common.{◌≡◌, refl, ℕ, Bool, false, none, some, [], ◌∷◌}
use app_catalogo.Common.Int.{pos}
use app_catalogo.Webhook.Queue.{
  pending, Row, Table, SalesForceWebhookEvent, has_key, enqueue, new_row,
}
use app_catalogo.Webhook.Queue.Find.{find_row}
use app_catalogo.Webhook.Queue.Valid.{IsValid, empty_IsValid, enqueue-IsValid}

abbrev pub second : ℕ
second = 1000000000

abbrev pub empty_table : Table
empty_table = record { rows = []; next_id = 1 }

abbrev pub first_row : Row
first_row = record {
  id = 1;
  event_key = "k1";
  slug = "iptu";
  event_type = "UPDATED";
  status = pending;
  attempts = 1;
  last_error = none;
  next_attempt_at = pos 1000;
  received_at = 900;
  processed_at = none;
}

abbrev pub second_row : Row
second_row = record first_row {
  id = 2;
  event_key = "k2";
  next_attempt_at = pos 1050;
  received_at = 950;
}

abbrev pub table : Table
table = record { rows = first_row ∷ second_row ∷ []; next_id = 3 }

enqueued_twice :
    (enqueue 950 "k2" "iptu" "UPDATED"
      (pos 100)
      (enqueue 900 "k1" "iptu" "UPDATED" (pos 100) empty_table).1).1
    ≡ table
unfolding enqueue new_row has_key
enqueued_twice = refl

pub table-IsValid : IsValid table
unfolding enqueue new_row has_key
table-IsValid =
    enqueue-IsValid (enqueue-IsValid empty_IsValid 900 "k1" "iptu" "UPDATED" (pos 100)) 950 "k2"
      "iptu" "UPDATED" (pos 100)

-- What the first event is handed out as by its enqueuing.
abbrev pub first_event : SalesForceWebhookEvent
first_event = record {
  id = 1;
  event_key = "k1";
  slug = "iptu";
  event_type = "UPDATED";
  status = pending;
  attempts = 1;
  next_attempt_at = pos 1000;
  received_at = 900;
  claimed_at = 900;
}

abbrev pub none_held : ℕ → Bool
none_held id = false

pub finds_first : find_row 1 table.rows ≡ some first_row
unfolding find_row
finds_first = refl

pub finds_second : find_row 2 table.rows ≡ some second_row
unfolding find_row
finds_second = refl
