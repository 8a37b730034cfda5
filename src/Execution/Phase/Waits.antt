-- ===== src/Execution/Phase/Waits.antt =====
-- Which interventions of a pass of src/revenue_sentinel/execution/service.py wait for a person.
use revenue_sentinel.Base.{
  All, ℕ, ◌+◌, ◌==◌, ==_iff, Bool, true, String, Option, none, some, List, [], ◌∷◌, ◌++◌, keep,
  length, Result, ok, err, ok-injective, ◌≡◌, ◌↔◌, refl, sym, ap, ◌∙◌, arith,
}
use revenue_sentinel.Json.{Object}
use revenue_sentinel.Governance.Engine.{ApprovedAction}
use revenue_sentinel.Execution.Authorization.{
  Intervention, Governed, Refusal, ExecutionGrant, authorize_execution,
}
use revenue_sentinel.Execution.Authorization.Missing.{IsWaiting}
use revenue_sentinel.Execution.Executor.{Executing, ExecutionResult, ExecutionError}
use revenue_sentinel.Execution.Places.{Subject, Places, subject_of, PhaseError}
use revenue_sentinel.Execution.Phase.{
  ExecutionPhase, RefusedAction, add_executed, is_complete, is_missing_approval, awaiting,
  perform_grant, perform_located, process_authorized, process, process_all, run_execution_phase,
  by_rank, build_arguments,
}
use revenue_sentinel.Execution.Phase.Counts.{
  bit, count, length-keep, count-cons, count-by_rank, lacks_approval, waits, none_waits, waits_none,
}

keep-append :
    {A : Type 0} (p : A → Bool) (xs : List A) (y : A)
    → length (keep p (xs ++ y ∷ [])) ≡ length (keep p xs) + bit (p y)
keep-append p [] y = omega (arith, length-keep p y [])
keep-append p (x ∷ xs) y =
    omega (arith, length-keep p x (xs ++ y ∷ []), keep-append p xs y, length-keep p x xs)

module _ {W : Type 0} (client : Option ApprovedAction → String → Object → W → Object × W)
    (digest : Object → String) (id_text due_date : ℕ → String) (new_id : Intervention → ℕ) where
  -- If the pass has returned, `n` actions wait.
  abbrev Waiting : ℕ → Result PhaseError ExecutionPhase × Executing W → Type 0
  Waiting n (ok phase, st) = length (awaiting phase) ≡ n
  Waiting n (err e, st) = Unit

  lower-Waiting :
      (n m : ℕ) (out : Result PhaseError ExecutionPhase × Executing W)
      → n ≡ m
      → Waiting n out
      → Waiting m out
  lower-Waiting n m (ok phase, st) e h = h ∙ e
  lower-Waiting n m (err raised, st) e h = tt

  Waiting-ok :
      (n : ℕ) (out : Result PhaseError ExecutionPhase × Executing W) (phase : ExecutionPhase)
      → out.0 ≡ ok phase
      → Waiting n out
      → length (awaiting phase) ≡ n
  Waiting-ok n (ok before, st) phase e h = sym (ap (λ p. length (awaiting p)) (ok-injective e)) ∙ h
  Waiting-ok n (err raised, st) phase e h = cc

  executed-Waiting :
      (phase : ExecutionPhase) (out : Result ExecutionError ExecutionResult × Executing W)
      → Waiting
          (length (awaiting phase))
          (add_executed client digest id_text due_date new_id phase out)
  executed-Waiting phase (ok result, st) = refl
  executed-Waiting phase (err e, st) = tt

  granted-Waiting :
      (db : Governed) (subject : Subject) (run_id now : ℕ) (row : Intervention)
      (phase : ExecutionPhase) (st : Executing W) (grant : ExecutionGrant)
      (arguments : Option Object)
      → Waiting (length (awaiting phase)) (
          perform_grant client digest id_text due_date new_id row grant subject run_id now arguments
            phase st)
  granted-Waiting db subject run_id now row phase st grant none = tt
  granted-Waiting db subject run_id now row phase st grant (some arguments) =
      executed-Waiting phase _

  located-Waiting :
      (db : Governed) (run_id now : ℕ) (row : Intervention) (phase : ExecutionPhase)
      (st : Executing W) (grant : ExecutionGrant) (found : Result PhaseError Subject)
      → Waiting (length (awaiting phase)) (
          perform_located client digest id_text due_date new_id row grant run_id now found phase st)
  located-Waiting db run_id now row phase st grant (err e) = tt
  located-Waiting db run_id now row phase st grant (ok subject) =
      granted-Waiting db subject run_id now row phase st grant
        (build_arguments due_date row grant.action_type subject now)

  authorized-Waiting :
      (db : Governed) (found : Result PhaseError Subject) (run_id now : ℕ) (row : Intervention)
      (phase : ExecutionPhase) (st : Executing W) (authorized : Result Refusal ExecutionGrant)
      → Waiting (length (awaiting phase) + bit (lacks_approval authorized)) (
          process_authorized client digest id_text due_date new_id row found run_id now authorized
            phase st)
  authorized-Waiting db found run_id now row phase st (err reason) =
      let entry : RefusedAction = record {
        title = row.title;
        reason = reason;
        awaiting_approval = is_missing_approval reason;
      } in
      keep-append (λ (item : RefusedAction). item.awaiting_approval) phase.refused entry
  authorized-Waiting db found run_id now row phase st (ok grant) =
      lower-Waiting (length (awaiting phase)) (length (awaiting phase) + 0)
        (perform_located client digest id_text due_date new_id row grant run_id now found phase st)
        (omega arith) (located-Waiting db run_id now row phase st grant found)

  process_all-Waiting :
      (db : Governed) (places : Places) (run_id now : ℕ) (rows : List Intervention) (n : ℕ)
      (so_far : Result PhaseError ExecutionPhase × Executing W)
      → Waiting n so_far
      → Waiting
          (n + count (waits db now) rows)
          (process_all client digest id_text due_date new_id db places run_id now rows so_far)
  unfolding process_all process
  process_all-Waiting db places run_id now [] n so_far h =
      lower-Waiting n (n + 0) so_far (omega arith) h
  process_all-Waiting db places run_id now (row ∷ rows) n (err e, st) h = tt
  process_all-Waiting db places run_id now (row ∷ rows) n (ok phase, st) h =
      let out = process client digest id_text due_date new_id db places run_id now row phase st in
      lower-Waiting (n + bit (waits db now row) + count (waits db now) rows)
        (n + count (waits db now) (row ∷ rows))
        (process_all client digest id_text due_date new_id db places run_id now rows out)
        (omega (arith, count-cons (waits db now) row rows))
        (process_all-Waiting db places run_id now rows (n + bit (waits db now row)) out (
          lower-Waiting (length (awaiting phase) + bit (waits db now row))
            (n + bit (waits db now row)) out (omega (arith, h))
            (authorized-Waiting db (subject_of places run_id) run_id now row phase st
              (authorize_execution db row.id now))))

  -- A pass that returns is complete exactly where no intervention of the run is on record with an
  -- evaluation, needs a person now as when it was evaluated, and has no request that reads as approved
  -- at that instant.
  pub run_execution_phase-IsWaiting :
      (db : Governed) (places : Places) (run_id now : ℕ) (st : Executing W) (phase : ExecutionPhase)
      → (run_execution_phase client digest id_text due_date new_id db places run_id now st).0
        ≡ ok phase
      → (is_complete phase ≡ true) ↔ (
          All
            (λ (row : Intervention). ¬ IsWaiting db row.id now)
            (keep (λ (row : Intervention). row.run_id == run_id) db.interventions))
  unfolding run_execution_phase is_complete
  run_execution_phase-IsWaiting db places run_id now st phase h =
      let rows = keep (λ (row : Intervention). row.run_id == run_id) db.interventions in
      let waiting =
        Waiting-ok (0 + count (waits db now) (by_rank rows))
          (run_execution_phase client digest id_text due_date new_id db places run_id now st) phase
          h
          (process_all-Waiting db places run_id now (by_rank rows) 0
            (ok (record { executed = []; refused = [] }), st) refl) in
      (
        λ complete. none_waits db now rows (
            omega (
              arith,
              waiting,
              count-by_rank (waits db now) rows,
              (==_iff (length (awaiting phase)) 0).0 complete,
            )),
        λ settled. (==_iff (length (awaiting phase)) 0).1 (
            omega
              (arith, waiting, count-by_rank (waits db now) rows, waits_none db now rows settled)),
      )
