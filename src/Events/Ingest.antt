-- ===== src/Events/Ingest.antt =====
-- src/revenue_sentinel/events/ingest.py: raw events, at most one for each source event.
pub mod Replay
use revenue_sentinel.Base.{
  ℕ, zero, suc, ◌+◌, ◌-◌, Bool, String, List, [], ◌∷◌, ◌++◌, any, length, if◌then◌else◌,
}
use revenue_sentinel.Json.{Json, Object, field, empty, text, object}
use revenue_sentinel.Domain.{event_value}
use revenue_sentinel.Events.{Library, RawEvent, Store, same_source}
use revenue_sentinel.Events.Sources.{SourceEvent}

pub record IngestResult : Type 0 where
  pub batch_id : ℕ
  pub offered : ℕ
  pub inserted : ℕ

-- `IngestResult.duplicates`.
abbrev pub duplicates : IngestResult → ℕ
duplicates result = result.offered - result.inserted

-- A row of the statement, with the id that it is given.
unfoldable pub raw_row : Library → ℕ → ℕ → ℕ → SourceEvent → RawEvent
raw_row lib batch_id received_at new_id event = record {
  id = new_id;
  source_system = event.source_system;
  source_event_id = event.source_event_id;
  received_at = received_at;
  payload = object (
      field "event_type" (text (event_value event.event_type)) (
        field "occurred_at" (text (lib.isoformat event.occurred_at))
          (field "data" (object event.payload) empty)));
  ingest_batch_id = batch_id;
}

-- The rows, each with the next id.
pub raw_rows : Library → ℕ → ℕ → ℕ → List SourceEvent → List RawEvent
raw_rows lib batch_id received_at new_id [] = []
raw_rows lib batch_id received_at new_id (event ∷ events) =
    raw_row lib batch_id received_at new_id event
    ∷ raw_rows lib batch_id received_at (suc new_id) events

-- A row of the same source system and event id is there.
abbrev pub is_ingested : RawEvent → List RawEvent → Bool
is_ingested row table = any (λ held. same_source held row) table

-- `insert(...).on_conflict_do_nothing(...)` of one row.
abbrev pub insert_raw : RawEvent → List RawEvent → List RawEvent
insert_raw row table = if is_ingested row table then table else table ++ row ∷ []

-- The statement: the table after it, and the number of rows that it returns.
pub insert_rows : List RawEvent → List RawEvent → List RawEvent × ℕ
insert_rows [] table = (table, 0)
insert_rows (row ∷ rows) table =
    let (after, inserted) = insert_rows rows (insert_raw row table) in
    (after, if is_ingested row table then inserted else suc inserted)

-- `ingest_source_events`.
unfoldable pub ingest_source_events : Library → List SourceEvent → ℕ → Store → IngestResult × Store
unfolding raw_rows insert_rows
ingest_source_events lib [] received_at st = (
  record { batch_id = st.next_id; offered = 0; inserted = 0 },
  record st { next_id = suc st.next_id },
)
ingest_source_events lib (first ∷ rest) received_at st =
    let batch_id = st.next_id in
    let events = first ∷ rest in
    let rows = raw_rows lib batch_id received_at (suc batch_id) events in
    let (after, inserted) = insert_rows rows st.raw_events in
    (
      record { batch_id = batch_id; offered = length rows; inserted = inserted },
      record st { raw_events = after; next_id = suc batch_id + length rows },
    )
