-- ===== src/Orchestration/Transitions.antt =====
-- src/revenue_sentinel/orchestration/transitions.py: the numbered rows of a run.
use revenue_sentinel.Base.{
  All, ℕ, zero, suc, ◌≡◌, refl, sym, ap, ◌∙◌, arith, Bool, leb, ◌==◌, ==_refl, String, Option, List,
  [], ◌∷◌, ◌++◌, map, keep, keep-true, keep-append, length, le→leb,
}
use mathlib.Core.List.{append-nil}
use mathlib.Core.Path.{subst}
use revenue_sentinel.Base.Sorting.{sort_by}
use revenue_sentinel.Base.Sorting.Laws.{IsOrdered, sort_by-of_IsOrdered}

-- A row of `workflow_transitions`.
pub record WorkflowTransition : Type 0 where
  pub id : ℕ
  pub run_id : ℕ
  pub sequence : ℕ
  pub from_node : Option String
  pub to_node : String
  pub edge_predicate : Option String
  pub occurred_at : ℕ
  pub duration_ms : ℕ
  pub state_digest : String

-- The recorder, with the table behind its session.
pub record TransitionRecorder : Type 0 where
  pub run_id : ℕ
  pub occurred_at : ℕ
  pub sequence : ℕ
  pub table : List WorkflowTransition

-- The arguments of a call of `record`, with the value of `new_id()`.
pub record Entry : Type 0 where
  pub id : ℕ
  pub from_node : Option String
  pub to_node : String
  pub state_digest : String
  pub duration_ms : ℕ
  pub edge_predicate : Option String

unfoldable pub transition_row : TransitionRecorder → Entry → WorkflowTransition
transition_row recorder entry = record {
  id = entry.id;
  run_id = recorder.run_id;
  sequence = recorder.sequence;
  from_node = entry.from_node;
  to_node = entry.to_node;
  edge_predicate = entry.edge_predicate;
  occurred_at = recorder.occurred_at;
  duration_ms = entry.duration_ms;
  state_digest = entry.state_digest;
}

-- `TransitionRecorder.record`.
unfoldable pub record_entry : Entry → TransitionRecorder → TransitionRecorder
record_entry entry recorder = record recorder {
  sequence = suc recorder.sequence;
  table = recorder.table ++ transition_row recorder entry ∷ [];
}

-- `next_sequence`.
abbrev pub next_sequence : TransitionRecorder → ℕ
next_sequence recorder = recorder.sequence

abbrev pub of_run : ℕ → WorkflowTransition → Bool
of_run run_id t = t.run_id == run_id

abbrev by_sequence : WorkflowTransition → WorkflowTransition → Bool
by_sequence a b = leb a.sequence b.sequence

unfoldable pub transitions_for_run : ℕ → List WorkflowTransition → List WorkflowTransition
transitions_for_run run_id table = sort_by by_sequence (keep (of_run run_id) table)

-- A run of calls.
pub record_all : List Entry → TransitionRecorder → TransitionRecorder
record_all [] recorder = recorder
record_all (entry ∷ entries) recorder = record_all entries (record_entry entry recorder)

-- The numbers from one on.
abbrev pub upwards : ℕ → ℕ → List ℕ
upwards from zero = []
upwards from (suc n) = from ∷ upwards (suc from) n

-- The rows that calls add, in their order.
rows_of : List Entry → TransitionRecorder → List WorkflowTransition
rows_of [] recorder = []
rows_of (entry ∷ entries) recorder =
    transition_row recorder entry ∷ rows_of entries (record_entry entry recorder)

append_assoc :
    {A : Type 0} (xs : List A) (y : A) (zs : List A) → (xs ++ y ∷ []) ++ zs ≡ xs ++ y ∷ zs
append_assoc [] y zs = refl
append_assoc (x ∷ xs) y zs = ap (◌∷◌ x) (append_assoc xs y zs)

table-record_all :
    (entries : List Entry) (recorder : TransitionRecorder)
    → (record_all entries recorder).table ≡ recorder.table ++ rows_of entries recorder
unfolding record_all rows_of record_entry
table-record_all [] recorder = sym (append-nil recorder.table)
table-record_all (entry ∷ entries) recorder =
    table-record_all entries (record_entry entry recorder)
    ∙ append_assoc recorder.table (transition_row recorder entry)
        (rows_of entries (record_entry entry recorder))

keep-rows_of :
    (entries : List Entry) (recorder : TransitionRecorder)
    → keep (of_run recorder.run_id) (rows_of entries recorder) ≡ rows_of entries recorder
unfolding rows_of record_entry transition_row
keep-rows_of [] recorder = refl
keep-rows_of (entry ∷ entries) recorder =
    keep-true (of_run recorder.run_id) (transition_row recorder entry)
      (rows_of entries (record_entry entry recorder)) (==_refl recorder.run_id)
    ∙ ap (◌∷◌ (transition_row recorder entry)) (keep-rows_of entries (record_entry entry recorder))

sequences-rows_of :
    (entries : List Entry) (recorder : TransitionRecorder)
    → map (λ (t : WorkflowTransition). t.sequence) (rows_of entries recorder)
      ≡ upwards recorder.sequence (length entries)
unfolding rows_of record_entry transition_row
sequences-rows_of [] recorder = refl
sequences-rows_of (entry ∷ entries) recorder =
    ap (◌∷◌ recorder.sequence) (sequences-rows_of entries (record_entry entry recorder))

-- The call that a row tells of.
abbrev pub entry_of : WorkflowTransition → Entry
entry_of t = record {
  id = t.id;
  from_node = t.from_node;
  to_node = t.to_node;
  state_digest = t.state_digest;
  duration_ms = t.duration_ms;
  edge_predicate = t.edge_predicate;
}

-- A row names the run, and the instant of its recorder.
abbrev pub IsOf : ℕ → ℕ → WorkflowTransition → Type 0
IsOf run_id occurred_at t = (t.run_id ≡ run_id) × (t.occurred_at ≡ occurred_at)

entries-rows_of :
    (entries : List Entry) (recorder : TransitionRecorder)
    → map entry_of (rows_of entries recorder) ≡ entries
unfolding rows_of record_entry transition_row
entries-rows_of [] recorder = refl
entries-rows_of (entry ∷ entries) recorder =
    ap (◌∷◌ entry) (entries-rows_of entries (record_entry entry recorder))

rows_of-IsOf :
    (entries : List Entry) (recorder : TransitionRecorder)
    → All (IsOf recorder.run_id recorder.occurred_at) (rows_of entries recorder)
unfolding rows_of record_entry transition_row
rows_of-IsOf [] recorder = tt
rows_of-IsOf (entry ∷ entries) recorder =
    ((refl, refl), rows_of-IsOf entries (record_entry entry recorder))

rows_of-IsOrdered :
    (entries : List Entry) (recorder : TransitionRecorder)
    → IsOrdered by_sequence (rows_of entries recorder)
unfolding rows_of record_entry transition_row
rows_of-IsOrdered [] recorder = tt
rows_of-IsOrdered (entry ∷ []) recorder = tt
rows_of-IsOrdered (entry ∷ next ∷ entries) recorder = (
  le→leb recorder.sequence (suc recorder.sequence) (omega arith),
  rows_of-IsOrdered (next ∷ entries) (record_entry entry recorder),
)

-- A run's history is read back whole and in the order of its calls: from a recorder at zero whose run
-- has no row, after any calls, the rows of the run are numbered from zero without a gap, give back
-- every argument of the calls in their order, and name the run and the instant, whatever rows of other
-- runs the table holds.
pub transitions_for_run_lem :
    (entries : List Entry) (recorder : TransitionRecorder)
    → recorder.sequence ≡ 0
    → keep (of_run recorder.run_id) recorder.table ≡ []
    → let history = transitions_for_run recorder.run_id (record_all entries recorder).table in
      (map (λ (t : WorkflowTransition). t.sequence) history ≡ upwards 0 (length entries))
      × (map entry_of history ≡ entries)
      × All (IsOf recorder.run_id recorder.occurred_at) history
unfolding transitions_for_run
transitions_for_run_lem entries recorder zero_first none =
    let rows = rows_of entries recorder in
    let kept : keep (of_run recorder.run_id) (record_all entries recorder).table ≡ rows =
      ap (keep (of_run recorder.run_id)) (table-record_all entries recorder)
      ∙ keep-append (of_run recorder.run_id) recorder.table rows
      ∙ ap (λ old. old ++ keep (of_run recorder.run_id) rows) none
      ∙ keep-rows_of entries recorder in
    let read : sort_by by_sequence
          (keep (of_run recorder.run_id) (record_all entries recorder).table)
        ≡ rows =
      ap (sort_by by_sequence) kept
      ∙ sort_by-of_IsOrdered by_sequence rows (rows_of-IsOrdered entries recorder) in
    (
      ap (map (λ (t : WorkflowTransition). t.sequence)) read
          ∙ sequences-rows_of entries recorder
          ∙ ap (λ n. upwards n (length entries)) zero_first,
      ap (map entry_of) read ∙ entries-rows_of entries recorder,
      subst (All (IsOf recorder.run_id recorder.occurred_at)) (sym read)
          (rows_of-IsOf entries recorder),
    )
