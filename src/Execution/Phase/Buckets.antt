-- ===== src/Execution/Phase/Buckets.antt =====
-- Where the interventions of a pass of src/revenue_sentinel/execution/service.py land.
use revenue_sentinel.Base.{
  ℕ, suc, ◌+◌, ◌==◌, String, Option, List, [], ◌∷◌, ◌++◌, keep, length, length-append, Result, ok,
  err, ok-injective, result-cases, ◌⊎◌, inl, inr, ◌≡◌, refl, ap, arith,
}
use revenue_sentinel.Json.{Object}
use revenue_sentinel.Governance.Engine.{ApprovedAction}
use revenue_sentinel.Execution.Authorization.{Intervention, Governed, Refusal, authorize_execution}
use revenue_sentinel.Execution.Authorization.Grants.{authorize_execution-IsAuthorized}
use revenue_sentinel.Execution.Executor.{Executing, ExecutionResult, ExecutionError}
use revenue_sentinel.Execution.Executor.Once.{Call, run, execute_total}
use revenue_sentinel.Execution.Places.{Subject, Places, subject_of, PhaseError}
use revenue_sentinel.Execution.Phase.{
  ExecutionPhase, RefusedAction, add_refused, add_executed, is_missing_approval, process,
  process_all, run_execution_phase, client_for, by_rank,
}
use revenue_sentinel.Execution.Phase.Routes.{IsAuthorized-IsRoutable, length-by_rank}

-- The entries of both buckets.
abbrev pub landed : ExecutionPhase → ℕ
landed phase = length phase.executed + length phase.refused

landed-add_refused :
    (row : Intervention) (reason : Refusal) (phase : ExecutionPhase)
    → landed (add_refused row reason phase) ≡ suc (landed phase)
landed-add_refused row reason phase =
    let entry : RefusedAction = record {
      title = row.title;
      reason = reason;
      awaiting_approval = is_missing_approval reason;
    } in
    omega (arith, length-append phase.refused (entry ∷ []))

module _ {W : Type 0} (client : Option ApprovedAction → String → Object → W → Object × W)
    (digest : Object → String) (id_text due_date : ℕ → String) (new_id : Intervention → ℕ) where
  -- A pass that has returned with `n` entries in its buckets.
  abbrev Returned : ℕ → Result PhaseError ExecutionPhase × Executing W → Type 0
  Returned n out = (phase : ExecutionPhase) × (out.0 ≡ ok phase) × (landed phase ≡ n)

  executed-Returned :
      (phase : ExecutionPhase) (out : Result ExecutionError ExecutionResult × Executing W)
      (res : ExecutionResult)
      → out.0 ≡ ok res
      → Returned (suc (landed phase)) (add_executed client digest id_text due_date new_id phase out)
  executed-Returned phase (ok result, st) res h = (
    record phase { executed = phase.executed ++ result ∷ [] },
    refl,
    omega (arith, length-append phase.executed (result ∷ [])),
  )
  executed-Returned phase (err e, st) res h = cc

  process-Returned :
      (db : Governed) (places : Places) (subject : Subject) (run_id now : ℕ) (row : Intervention)
      (phase : ExecutionPhase) (st : Executing W)
      → subject_of places run_id ≡ ok subject
      → Returned
          (suc (landed phase))
          (process client digest id_text due_date new_id db places run_id now row phase st)
  unfolding process
  process-Returned db places subject run_id now row phase st is_subject =
      elim (result-cases (authorize_execution db row.id now)) [
        | inl (reason, h) ↦
            rw h (add_refused row reason phase, refl, landed-add_refused row reason phase)
        | inr (grant, h) ↦
            let (tool, arguments, is_tool, built) =
              IsAuthorized-IsRoutable due_date row subject db row.id now grant
                ((authorize_execution-IsAuthorized db row.id now grant).0 h) in
            let c : Call = record {
              grant = grant;
              incident_ref = subject.incident_ref;
              run_id = run_id;
              new_id = new_id row;
              arguments = arguments;
              now = now;
            } in
            let (res, is_res, _) =
              execute_total (client_for client digest id_text due_date new_id grant) digest c tool
                st is_tool in
            rw h (
              rw is_subject (
                rw built (
                  executed-Returned phase
                    (run (client_for client digest id_text due_date new_id grant) digest c st) res
                    is_res)))
      ]

  process_all-Returned :
      (db : Governed) (places : Places) (subject : Subject) (run_id now : ℕ)
      (rows : List Intervention) (n : ℕ) (so_far : Result PhaseError ExecutionPhase × Executing W)
      → subject_of places run_id ≡ ok subject
      → Returned n so_far
      → Returned
          (n + length rows)
          (process_all client digest id_text due_date new_id db places run_id now rows so_far)
  unfolding process_all
  process_all-Returned db places subject run_id now [] n so_far is_subject (phase, h, k) =
      (phase, h, omega (arith, k))
  process_all-Returned db places subject run_id now (row ∷ rows) n (err e, st) is_subject
        (phase, h, k) =
      cc
  process_all-Returned db places subject run_id now (row ∷ rows) n (ok before, st) is_subject
        (phase, h, k) =
      let (after, h', k') =
        process-Returned db places subject run_id now row before st is_subject in
      let (end, h'', k'') =
        process_all-Returned db places subject run_id now rows (suc (landed before))
          (process client digest id_text due_date new_id db places run_id now row before st)
          is_subject (after, h', k') in
      (end, h'', omega (arith, k'', k, ap landed (ok-injective h)))

  -- A pass without a subject returns with `n` entries and has executed nothing, or raises at once.
  abbrev Abandoned :
      PhaseError → ℕ → Executing W → Result PhaseError ExecutionPhase × Executing W → Type 0
  Abandoned e n st out =
      ((phase : ExecutionPhase) × (out ≡ (ok phase, st)) × (landed phase ≡ n)) ⊎ (out ≡ (err e, st))

  process-Abandoned :
      (db : Governed) (places : Places) (e : PhaseError) (run_id now : ℕ) (row : Intervention)
      (phase : ExecutionPhase) (st : Executing W)
      → subject_of places run_id ≡ err e
      → Abandoned e
          (suc (landed phase))
          st
          (process client digest id_text due_date new_id db places run_id now row phase st)
  unfolding process
  process-Abandoned db places e run_id now row phase st missing =
      elim (result-cases (authorize_execution db row.id now)) [
        | inl (reason, h) ↦
            rw h (inl (add_refused row reason phase, refl, landed-add_refused row reason phase))
        | inr (grant, h) ↦ rw h (rw missing (inr refl))
      ]

  raised_all :
      (db : Governed) (places : Places) (run_id now : ℕ) (rows : List Intervention) (e : PhaseError)
      (st : Executing W)
      → process_all client digest id_text due_date new_id db places run_id now rows (err e, st)
        ≡ (err e, st)
  unfolding process_all
  raised_all db places run_id now [] e st = refl
  raised_all db places run_id now (row ∷ rows) e st = refl

  one_more :
      (e : PhaseError) (n m k : ℕ) (st : Executing W)
      (out : Result PhaseError ExecutionPhase × Executing W)
      → m ≡ suc n
      → Abandoned e (m + k) st out
      → Abandoned e (n + suc k) st out
  one_more e n m k st out same (inl (phase, h, l)) = inl (phase, h, omega (arith, l, same))
  one_more e n m k st out same (inr raised) = inr raised

  process_all-Abandoned :
      (db : Governed) (places : Places) (e : PhaseError) (run_id now : ℕ) (rows : List Intervention)
      (phase : ExecutionPhase) (st : Executing W)
      → subject_of places run_id ≡ err e
      → Abandoned e (landed phase + length rows) st (
          process_all client digest id_text due_date new_id db places run_id now rows
            (ok phase, st))
  unfolding process_all
  process_all-Abandoned db places e run_id now [] phase st missing = inl (phase, refl, omega arith)
  process_all-Abandoned db places e run_id now (row ∷ rows) phase st missing =
      elim (process-Abandoned db places e run_id now row phase st missing) [
        | inr raised ↦ rw raised (inr (raised_all db places run_id now rows e st))
        | inl (next, h, k) ↦ rw h (
            one_more e (landed phase) (landed next) (length rows) st _ k
              (process_all-Abandoned db places e run_id now rows next st missing))
      ]

  -- A pass always returns, whatever the client answers, and each intervention of the run lands in one of
  -- the two buckets; or the run's incident, its opportunity, or the row of its account or opportunity is
  -- missing, and the pass raises just that with nothing executed.
  pub run_execution_phase-Returned :
      (db : Governed) (places : Places) (run_id now : ℕ) (st : Executing W)
      → ((phase : ExecutionPhase) × ((run_execution_phase client digest id_text due_date new_id db
              places run_id now st).0
            ≡ ok phase)
          × (length phase.executed + length phase.refused
              ≡ length (keep (λ (row : Intervention). row.run_id == run_id) db.interventions)))
        ⊎ ((e : PhaseError) × (subject_of places run_id ≡ err e)
            × (run_execution_phase client digest id_text due_date new_id db places run_id now st
                ≡ (err e, st)))
  unfolding run_execution_phase
  run_execution_phase-Returned db places run_id now st =
      let rows = keep (λ (row : Intervention). row.run_id == run_id) db.interventions in
      let start : ExecutionPhase = record { executed = []; refused = [] } in
      elim (result-cases (subject_of places run_id)) [
        | inr (subject, is_subject) ↦
            let (phase, h, k) =
              process_all-Returned db places subject run_id now (by_rank rows) 0 (ok start, st)
                is_subject (start, refl, refl) in
            inl (phase, h, omega (arith, k, length-by_rank rows))
        | inl (e, missing) ↦
            elim (process_all-Abandoned db places e run_id now (by_rank rows) start st missing) [
              | inl (phase, h, k) ↦
                  inl (phase, ap (λ out. out.0) h, omega (arith, k, length-by_rank rows))
              | inr raised ↦ inr (e, missing, raised)
            ]
      ]
