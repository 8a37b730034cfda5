-- ===== src/Execution/Executor.antt =====
-- src/revenue_sentinel/execution/executor.py: performing an authorised effect.
--
-- The tool client (`McpClient.call_tool`) and the digest are parameters: a client is a function of
-- the state `W` of all that lies behind it. `sleep` is a list of the delays asked for.
pub mod Once
pub mod Attempts
pub mod Evolution
use revenue_sentinel.Base.{
  ℕ, zero, suc, ◌+◌, ◌==◌, Bool, true, false, not, ◌||◌, String, str_eq, Option, none, some, List,
  [], ◌∷◌, ◌++◌, find, Result, ok, err, if◌then◌else◌,
}
use revenue_sentinel.Json.{Json, Object, empty, get, as_text, is_true}
use revenue_sentinel.Domain.{ActionType, ActionStatus, executing, succeeded, failed, indeterminate}
use revenue_sentinel.Mcp.Errors.{ToolErrorCode, parse_code}
use revenue_sentinel.Execution.Authorization.{ExecutionGrant}
use revenue_sentinel.Execution.Retry.{max_attempts, is_retryable, backoff_ms, idempotency_key}

-- One row of `action_records`.
pub record ActionRecord : Type 0 where
  pub id : ℕ
  pub run_id : ℕ
  pub intervention_id : ℕ
  pub action_type : ActionType
  pub idempotency_key : String
  pub status : ActionStatus
  pub authorized_by : ℕ
  pub approval_request_id : Option ℕ
  pub attempt_count : ℕ
  pub result : Option Object
  pub executed_at : Option ℕ
  pub target_ref : String
  pub reconciled_by : Option String
  pub reconciled_at : Option ℕ
  pub reconciliation_evidence : Option String

pub record ExecutionResult : Type 0 where
  pub action_record_id : ℕ
  pub status : ActionStatus
  pub attempts : ℕ
  pub payload : Object
  pub already_done : Bool

pub data ExecutionError : Type 0 where
  unroutable_action : ActionType → ExecutionError
  loop_fell_through : ExecutionError

-- `TOOL_FOR_ACTION.get`.
unfoldable pub tool_for_action : ActionType → Option String
tool_for_action ActionType.crm_task = some "crm_create_task"
tool_for_action ActionType.email_draft = some "messaging_create_email_draft"
tool_for_action ActionType.slack_approval_request = some "messaging_send_slack_approval"
tool_for_action ActionType.crm_field_update = none

-- The table, the world behind the client, and the delays slept so far, in milliseconds.
pub record Executing (W : Type 0) : Type 0 where
  pub actions : List ActionRecord
  pub world : W
  pub slept : List ℕ

-- A flush of one changed row.
abbrev pub save : ActionRecord → List ActionRecord → List ActionRecord
save row [] = []
save row (r ∷ rows) = let rest = save row rows in if r.id == row.id then row ∷ rest else r ∷ rest

-- The row that holds a key.
abbrev pub holder : String → List ActionRecord → Option ActionRecord
holder key = find (λ row. str_eq row.idempotency_key key)

-- `record.result or {}`.
abbrev pub payload_of : Option Object → Object
payload_of none = empty
payload_of (some payload) = payload

-- `_error_code`.
error_object : Option Json → Option ToolErrorCode
error_object (some (Json.object error)) = elim (as_text (get error "code")) [
  | some code ↦ parse_code code
  | none ↦ none
]
error_object _ = none

unfoldable pub error_code : Object → Option ToolErrorCode
unfolding error_object
error_code payload = error_object (get payload "error")

abbrev pub can_retry : Option ToolErrorCode → Bool
can_retry none = false
can_retry (some code) = is_retryable code

-- The row of a claim: `_claim`'s `values(...)`.
unfoldable pub new_claim : ExecutionGrant → String → ℕ → ℕ → ActionRecord
new_claim grant key run_id new_id = record {
  id = new_id;
  run_id = run_id;
  intervention_id = grant.intervention_id;
  action_type = grant.action_type;
  idempotency_key = key;
  status = executing;
  authorized_by = grant.policy_evaluation_id;
  approval_request_id = grant.approval_request_id;
  attempt_count = 0;
  result = none;
  executed_at = none;
  target_ref = grant.target_ref;
  reconciled_by = none;
  reconciled_at = none;
  reconciliation_evidence = none;
}

pub result_of : ActionRecord → Object → Bool → ExecutionResult
result_of row payload already_done = record {
  action_record_id = row.id;
  status = row.status;
  attempts = row.attempt_count;
  payload = payload;
  already_done = already_done;
}

module _ {W : Type 0} where
  -- One round of the loop of `_perform` has called the tool: what follows.
  pub settle :
      ActionRecord
      → ActionStatus
      → Object
      → Option ℕ
      → Executing W
      → Result ExecutionError ExecutionResult × Executing W
  unfolding result_of
  settle row status payload executed_at st =
      let done = record row { status = status; result = some payload; executed_at = executed_at } in
      (ok (result_of done payload false), record st { actions = save done st.actions })

  pub sleep_before : ℕ → Executing W → Executing W
  sleep_before attempt st = elim (backoff_ms attempt) [
    | ok delay ↦ record st { slept = st.slept ++ delay ∷ [] }
    | err e ↦ st
  ]

  -- `_resolve_existing`.
  pub resolve_existing :
      ActionRecord
      → ActionStatus
      → Executing W
      → Result ExecutionError ExecutionResult × Executing W
  unfolding result_of
  resolve_existing row executing st =
      let lost = record row { status = indeterminate } in
      (
        ok (result_of lost (payload_of row.result) true),
        record st { actions = save lost st.actions },
      )
  resolve_existing row status st = (ok (result_of row (payload_of row.result) true), st)

module _ {W : Type 0} (call_tool : String → Object → W → Object × W) where
  -- `for attempt in range(1, MAX_ATTEMPTS + 1)`: `left` rounds are left.
  pub perform :
      ℕ
      → ℕ
      → ActionRecord
      → String
      → Object
      → ℕ
      → Executing W
      → Result ExecutionError ExecutionResult × Executing W
  unfolding settle sleep_before
  perform zero attempt row tool arguments now st = (err loop_fell_through, st)
  perform (suc left) attempt row tool arguments now st =
      let tried = record row { attempt_count = attempt } in
      let (payload, after) = call_tool tool arguments st.world in
      let called = record st { actions = save tried st.actions; world = after } in
      let again =
        perform left (attempt + 1) tried tool arguments now (sleep_before attempt called) in
      if is_true (get payload "ok")
      then settle tried succeeded payload (some now) called
      else if not (can_retry (error_code payload)) || attempt == max_attempts
      then settle tried failed payload tried.executed_at called
      else again

  claimed :
      ExecutionGrant
      → String
      → String
      → ℕ
      → ℕ
      → Object
      → ℕ
      → Executing W
      → Option ActionRecord
      → Result ExecutionError ExecutionResult × Executing W
  unfolding resolve_existing perform new_claim
  claimed grant tool key run_id new_id arguments now st (some row) =
      resolve_existing row row.status st
  claimed grant tool key run_id new_id arguments now st none =
      let row = new_claim grant key run_id new_id in
      perform max_attempts 1 row tool arguments now (record st { actions = st.actions ++ row ∷ [] })

  routed :
      (Object → String)
      → ExecutionGrant
      → String
      → ℕ
      → ℕ
      → Object
      → ℕ
      → Executing W
      → Option String
      → Result ExecutionError ExecutionResult × Executing W
  unfolding claimed
  routed digest grant incident_ref run_id new_id arguments now st none =
      (err (unroutable_action grant.action_type), st)
  routed digest grant incident_ref run_id new_id arguments now st (some tool) =
      let key = idempotency_key digest incident_ref grant.action_type grant.target_ref arguments in
      claimed grant tool key run_id new_id arguments now st (holder key st.actions)

  -- `execute`. `new_id` is the value of `new_id()`, used if the claim inserts a row.
  unfoldable pub execute :
      (Object → String)
      → ExecutionGrant
      → String
      → ℕ
      → ℕ
      → Object
      → ℕ
      → Executing W
      → Result ExecutionError ExecutionResult × Executing W
  unfolding routed
  execute digest grant incident_ref run_id new_id arguments now st =
      routed digest grant incident_ref run_id new_id arguments now st
        (tool_for_action grant.action_type)
