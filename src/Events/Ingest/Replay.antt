-- ===== src/Events/Ingest/Replay.antt =====
-- Ingesting again, in src/revenue_sentinel/events/ingest.py.
use text.Mathlib.TextPositions.{eq_refl}
use revenue_sentinel.Base.{
  ℕ, suc, ◌≡◌, refl, ap, arith, true, List, [], ◌∷◌, any-append, length, All, Bool-cases, inl, inr,
}
use revenue_sentinel.Domain.{source_value}
use revenue_sentinel.Events.{Library, RawEvent, Store, same_source}
use revenue_sentinel.Events.Sources.{SourceEvent}
use revenue_sentinel.Events.Ingest.{
  raw_row, raw_rows, is_ingested, insert_raw, insert_rows, ingest_source_events,
}

same_source_refl : (row : RawEvent) → same_source row row ≡ true
same_source_refl row =
    ground (arith, eq_refl (source_value row.source_system), eq_refl row.source_event_id)

ingested_own :
    (row : RawEvent) (table : List RawEvent) → is_ingested row (insert_raw row table) ≡ true
ingested_own row table = elim (Bool-cases (is_ingested row table)) [
  | inl held ↦ rw (held, held) refl
  | inr free ↦
      rw
        (
          free,
          any-append (λ held. same_source held row) table (row ∷ []),
          free,
          same_source_refl row,
        )
        refl
]

ingested_still :
    (row other : RawEvent) (table : List RawEvent)
    → is_ingested row table ≡ true
    → is_ingested row (insert_raw other table) ≡ true
ingested_still row other table h = elim (Bool-cases (is_ingested other table)) [
  | inl held ↦ rw (held, h) refl
  | inr free ↦ rw (free, any-append (λ held. same_source held row) table (other ∷ []), h) refl
]

-- What is in the table stays in it.
ingested_on :
    (row : RawEvent) (rows table : List RawEvent)
    → is_ingested row table ≡ true
    → is_ingested row (insert_rows rows table).0 ≡ true
unfolding insert_rows
ingested_on row [] table h = h
ingested_on row (first ∷ rows) table h =
    ingested_on row rows (insert_raw first table) (ingested_still row first table h)

insert_rows-ingested :
    (rows table : List RawEvent)
    → All (λ row. is_ingested row (insert_rows rows table).0 ≡ true) rows
unfolding insert_rows
insert_rows-ingested [] table = tt
insert_rows-ingested (row ∷ rows) table = (
  ingested_on row rows (insert_raw row table) (ingested_own row table),
  insert_rows-ingested rows (insert_raw row table),
)

-- Rows that are all there change nothing.
insert_rows_again :
    (rows table : List RawEvent)
    → All (λ row. is_ingested row table ≡ true) rows
    → insert_rows rows table ≡ (table, 0)
unfolding insert_rows
insert_rows_again [] table h = refl
insert_rows_again (row ∷ rows) table h = rw (h.0, insert_rows_again rows table h.1) refl

-- Every source event has its row.
abbrev pub AllIngested : Library → List SourceEvent → List RawEvent → Type 0
AllIngested lib events table =
    All (λ event. is_ingested (raw_row lib 0 0 0 event) table ≡ true) events

-- The id, the batch and the time of a row are no part of its key.
rows-AllIngested :
    (lib : Library) (batch_id received_at new_id : ℕ) (events : List SourceEvent)
    (table : List RawEvent)
    → All (λ row. is_ingested row table ≡ true) (raw_rows lib batch_id received_at new_id events)
    → AllIngested lib events table
unfolding raw_rows raw_row
rows-AllIngested lib batch_id received_at new_id [] table h = tt
rows-AllIngested lib batch_id received_at new_id (event ∷ events) table h =
    (h.0, rows-AllIngested lib batch_id received_at (suc new_id) events table h.1)

AllIngested-rows :
    (lib : Library) (batch_id received_at new_id : ℕ) (events : List SourceEvent)
    (table : List RawEvent)
    → AllIngested lib events table
    → All (λ row. is_ingested row table ≡ true) (raw_rows lib batch_id received_at new_id events)
unfolding raw_rows raw_row
AllIngested-rows lib batch_id received_at new_id [] table h = tt
AllIngested-rows lib batch_id received_at new_id (event ∷ events) table h =
    (h.0, AllIngested-rows lib batch_id received_at (suc new_id) events table h.1)

length-raw_rows :
    (lib : Library) (batch_id received_at new_id : ℕ) (events : List SourceEvent)
    → length (raw_rows lib batch_id received_at new_id events) ≡ length events
unfolding raw_rows
length-raw_rows lib batch_id received_at new_id [] = refl
length-raw_rows lib batch_id received_at new_id (event ∷ events) =
    ap suc (length-raw_rows lib batch_id received_at (suc new_id) events)

pub ingest-AllIngested :
    (lib : Library) (events : List SourceEvent) (received_at : ℕ) (st : Store)
    → AllIngested lib events (ingest_source_events lib events received_at st).1.raw_events
unfolding ingest_source_events
ingest-AllIngested lib [] received_at st = tt
ingest-AllIngested lib (first ∷ rest) received_at st =
    rows-AllIngested lib st.next_id received_at (suc st.next_id) (first ∷ rest) _ (
      insert_rows-ingested (raw_rows lib st.next_id received_at (suc st.next_id) (first ∷ rest))
        st.raw_events)

-- Where every event has its row, a pass inserts none: the table of raw events is as it was.
pub ingest_again :
    (lib : Library) (events : List SourceEvent) (received_at : ℕ) (st : Store)
    → AllIngested lib events st.raw_events
    → ((ingest_source_events lib events received_at st).0.inserted ≡ 0)
      × ((ingest_source_events lib events received_at st).0.offered ≡ length events)
      × ((ingest_source_events lib events received_at st).1.raw_events ≡ st.raw_events)
unfolding ingest_source_events
ingest_again lib [] received_at st h = (refl, refl, refl)
ingest_again lib (first ∷ rest) received_at st h =
    let same =
      insert_rows_again (raw_rows lib st.next_id received_at (suc st.next_id) (first ∷ rest))
        st.raw_events
        (AllIngested-rows lib st.next_id received_at (suc st.next_id) (first ∷ rest) st.raw_events
          h) in
    (
      ap (λ out. out.1) same,
      length-raw_rows lib st.next_id received_at (suc st.next_id) (first ∷ rest),
      ap (λ out. out.0) same,
    )
