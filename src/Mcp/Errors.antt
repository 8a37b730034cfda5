-- ===== src/Mcp/Errors.antt =====
-- src/revenue_sentinel/mcp/errors.py: the typed tool errors.
use revenue_sentinel.Base.{Bool, true, false, String, str_eq, Option, none, some, if◌then◌else◌}

pub data ToolErrorCode : Type 0 where
  invalid_arguments not_found policy_denied policy_engine_unavailable approval_required rate_limited
        budget_exceeded adapter_error :
      ToolErrorCode

abbrev pub code_value : ToolErrorCode → String
code_value invalid_arguments = "INVALID_ARGUMENTS"
code_value not_found = "NOT_FOUND"
code_value policy_denied = "POLICY_DENIED"
code_value policy_engine_unavailable = "POLICY_ENGINE_UNAVAILABLE"
code_value approval_required = "APPROVAL_REQUIRED"
code_value rate_limited = "RATE_LIMITED"
code_value budget_exceeded = "BUDGET_EXCEEDED"
code_value adapter_error = "ADAPTER_ERROR"

-- `ToolErrorCode(code)`, or `None` where it raises `ValueError`.
unfoldable pub parse_code : String → Option ToolErrorCode
parse_code s =
    if str_eq s "INVALID_ARGUMENTS"
    then some invalid_arguments
    else if str_eq s "NOT_FOUND"
    then some not_found
    else if str_eq s "POLICY_DENIED"
    then some policy_denied
    else if str_eq s "POLICY_ENGINE_UNAVAILABLE"
    then some policy_engine_unavailable
    else if str_eq s "APPROVAL_REQUIRED"
    then some approval_required
    else if str_eq s "RATE_LIMITED"
    then some rate_limited
    else if str_eq s "BUDGET_EXCEEDED"
    then some budget_exceeded
    else if str_eq s "ADAPTER_ERROR"
    then some adapter_error
    else none

-- `ErrorPolicy.retry` of `ERROR_POLICY`: what an agent may do. `alternative_route` is false for
-- every code.
unfoldable pub agent_may_retry : ToolErrorCode → Bool
agent_may_retry invalid_arguments = true
agent_may_retry rate_limited = true
agent_may_retry adapter_error = true
agent_may_retry _ = false
