-- ===== src/Examples/Records.antt =====
-- The numbered transitions, the timeline, the stored evaluations and the citations at concrete inputs.
use revenue_sentinel.Base.{
  ◌+◌, ◌≡◌, refl, true, false, none, some, List, [], ◌∷◌, ◌++◌, map, length, ◌↔◌, ok, err, All,
}
use revenue_sentinel.Base.Sorting.{sort_by}
use revenue_sentinel.Base.Sorting.Laws.{Reordered, IsOrdered, swapped}
use revenue_sentinel.Agents.Citations.{
  Hypothesis, fabricated, validate_citations, validate_citations_iff, IsGrounded,
}
use revenue_sentinel.Orchestration.Transitions.{
  TransitionRecorder, WorkflowTransition, Entry, record_all, transitions_for_run, upwards, entry_of,
  transitions_for_run_lem,
}
use revenue_sentinel.Cost.Timeline.{TimelineEvent, audit_event, cost_entry, merged, sort_key}
use revenue_sentinel.Cost.Timeline.Order.{is_earlier, merged_lem}
use revenue_sentinel.Evaluation.{
  CheckResult, EvaluationRun, EvaluationResult, Evaluations, evaluate_results, is_passed,
  all_checks, starts_with,
}
use revenue_sentinel.Evaluation.Attempts.{check_of, evaluate_results_lem}

abbrev hypotheses : List Hypothesis
hypotheses =
    record { rank = 2; statement = "b"; cites = "EV-002" ∷ [] }
    ∷ record { rank = 1; statement = "a"; cites = "EV-001" ∷ "EV-009" ∷ [] }
    ∷ []

-- The hypothesis of rank 1 is reported, and the second offending one is not.
first_offender_test :
    validate_citations hypotheses ("EV-001" ∷ []) ≡ err (fabricated 1 ("EV-009" ∷ []))
unfolding validate_citations sort_by
first_offender_test = refl

validate_citations_iff_example :
    (validate_citations hypotheses ("EV-001" ∷ []) ≡ ok tt)
    ↔ All (IsGrounded ("EV-001" ∷ [])) hypotheses
validate_citations_iff_example = validate_citations_iff hypotheses ("EV-001" ∷ [])

abbrev recorder : TransitionRecorder
recorder = record { run_id = 7; occurred_at = 5; sequence = 0; table = [] }

abbrev entries : List Entry
entries =
    record {
      id = 1;
      from_node = none;
      to_node = "triage";
      state_digest = "d";
      duration_ms = 0;
      edge_predicate = none;
    }
    ∷ record {
      id = 2;
      from_node = some "triage";
      to_node = "analyse";
      state_digest = "e";
      duration_ms = 3;
      edge_predicate = none;
    }
    ∷ []

transitions_for_run_lem_example :
    let history = transitions_for_run 7 (record_all entries recorder).table in
    (map (λ (t : WorkflowTransition). t.sequence) history ≡ upwards 0 2)
    × (map entry_of history ≡ entries)
    × All (revenue_sentinel.Orchestration.Transitions.IsOf 7 5) history
transitions_for_run_lem_example = transitions_for_run_lem entries recorder refl refl

abbrev spent : TimelineEvent
spent = record {
  occurred_at = 5;
  source = cost_entry;
  event_type = "model_inference";
  detail = "$0.000150";
  trace_id = none;
  span_id = none;
  parent_span_id = none;
  amount_usd = some 150;
  pricing_version = some "v1";
  integration_status = none;
}

abbrev opened : TimelineEvent
opened = record {
  occurred_at = 5;
  source = audit_event;
  event_type = "incident.opened";
  detail = "agent:signal_agent";
  trace_id = none;
  span_id = none;
  parent_span_id = none;
  amount_usd = none;
  pricing_version = none;
  integration_status = none;
}

merged_lem_example :
    Reordered (merged (spent ∷ opened ∷ [])) (spent ∷ opened ∷ [])
    × IsOrdered is_earlier (merged (spent ∷ opened ∷ []))
    × (map sort_key (merged (spent ∷ opened ∷ [])) ≡ map sort_key (merged (opened ∷ spent ∷ [])))
merged_lem_example =
    merged_lem (spent ∷ opened ∷ []) (opened ∷ spent ∷ []) (swapped spent opened [])

abbrev workflow : List CheckResult
workflow = record { name = "has_hypotheses"; passed = true; expected = "2"; actual = "2" } ∷ []

abbrev everything : List CheckResult
everything =
    record { name = "bypass_send_email_absent"; passed = false; expected = "0"; actual = "1" } ∷ []

abbrev no_attempt : Evaluations
no_attempt = record { runs = []; results = []; next_id = 1 }

evaluate_results_lem_example :
    let out = evaluate_results 7 workflow everything 5 no_attempt in
    (run : EvaluationRun) × (rows : List EvaluationResult) × (out.1.runs ≡ [] ++ run ∷ [])
    × (out.1.results ≡ [] ++ rows)
    × ((is_passed out.0 ≡ true) ↔ (run.passed ≡ run.total))
    × (run.total ≡ length workflow + length everything)
    × (map check_of rows ≡ all_checks out.0)
    × All (revenue_sentinel.Evaluation.Attempts.IsOf run.id 7) rows
unfolding starts_with
evaluate_results_lem_example = evaluate_results_lem 7 workflow everything 5 no_attempt (refl, tt)
