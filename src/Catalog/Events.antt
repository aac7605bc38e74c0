-- ===== src/Catalog/Events.antt =====
-- The tables sync_events and salesforce_sync_cursor.
use app_catalogo.Common.{
  ℕ, suc, String, ◌≡◌, Option, none, some, List, [], ◌∷◌, ◌++◌, map, ltb, ◌==◌, str_eq, eq_iff,
  arith, if◌then◌else◌,
}
use app_catalogo.Common.Int.{ℤ}
use app_catalogo.Sync.Run.{SalesForceSyncCursor}

-- An event as the statements read it; the code writes the type and the status as texts.
pub record SyncEvent : Type 0 where
  pub source : String
  pub event_type : String
  pub status : String
  pub items_processed : ℤ
  pub items_failed : ℤ
  pub error_message : String
  pub duration_ms : ℤ
  pub started_at : ℕ
  pub completed_at : Option ℕ

pub record Events : Type 0 where
  pub rows : List (ℕ × SyncEvent)
  -- the number that the sequence of ids gives next
  pub next_id : ℕ

-- `RecordSyncEvent`
unfoldable pub record_sync_event : SyncEvent → Events → ℕ × Events
record_sync_event event t =
    (t.next_id, record { rows = t.rows ++ (t.next_id, event) ∷ []; next_id = suc t.next_id })

-- `UpdateSyncEvent`
unfoldable pub update_sync_event : ℕ → ℕ → String → ℤ → ℤ → String → ℤ → Events → Events
update_sync_event now id status processed failed message duration t = record t {
  rows =
      map
        (λ (r : ℕ × SyncEvent).
          if r.0 == id
          then (
            r.0,
            record r.1 {
              status = status;
              items_processed = processed;
              items_failed = failed;
              error_message = message;
              duration_ms = duration;
              completed_at = some now;
            },
          )
          else r)
        t.rows;
}

-- The latest event of a source; of two that started at one instant the database gives either.
unfoldable pub keep_latest : SyncEvent → List SyncEvent → List SyncEvent
keep_latest e [] = e ∷ []
keep_latest e (x ∷ events) =
    let rest = keep_latest e events in
    if str_eq x.source e.source
    then (if ltb x.started_at e.started_at then e else x) ∷ events
    else x ∷ rest

unfoldable pub latest_of : List (ℕ × SyncEvent) → List SyncEvent
unfolding keep_latest
latest_of [] = []
latest_of ((id, e) ∷ rows) = keep_latest e (latest_of rows)

-- `GetLastSyncEvents`; the order of the sources is an argument.
unfoldable pub get_last_sync_events : (List SyncEvent → List SyncEvent) → Events → List SyncEvent
unfolding latest_of
get_last_sync_events order t = order (latest_of t.rows)

abbrev Cursors : Type 0
Cursors = List (String × SalesForceSyncCursor)

-- `GetSalesForceCursor`; `none` is pgx.ErrNoRows.
unfoldable pub get_sales_force_cursor : String → Cursors → Option SalesForceSyncCursor
get_sales_force_cursor object_type [] = none
get_sales_force_cursor object_type ((key, cursor) ∷ cursors) =
    let rest = get_sales_force_cursor object_type cursors in
    if str_eq key object_type then some cursor else rest

-- `UpsertSalesForceCursor`
unfoldable pub upsert_sales_force_cursor : String → ℕ → String → Cursors → Cursors
upsert_sales_force_cursor object_type at token [] =
    (object_type, record { last_sync_at = some at; last_delta_token = token }) ∷ []
upsert_sales_force_cursor object_type at token ((key, cursor) ∷ cursors) =
    let rest = upsert_sales_force_cursor object_type at token cursors in
    if str_eq key object_type
    then (key, record { last_sync_at = some at; last_delta_token = token }) ∷ cursors
    else (key, cursor) ∷ rest

-- What is read after a cursor was written: it, or the cursor of another object as before.
get-upsert_cursor :
    (k object_type token : String) (at : ℕ) (cursors : Cursors)
    → get_sales_force_cursor k (upsert_sales_force_cursor object_type at token cursors) ≡ (
        if str_eq k object_type
        then some (record { last_sync_at = some at; last_delta_token = token })
        else get_sales_force_cursor k cursors)
unfolding get_sales_force_cursor upsert_sales_force_cursor
get-upsert_cursor k object_type token at [] =
    ground (arith, eq_iff object_type k, eq_iff k object_type)
get-upsert_cursor k object_type token at ((key, cursor) ∷ cursors) = ground (
  arith,
  eq_iff key object_type,
  eq_iff key k,
  eq_iff k object_type,
  get-upsert_cursor k object_type token at cursors,
)
