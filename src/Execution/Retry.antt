-- ===== src/Execution/Retry.antt =====
-- src/revenue_sentinel/execution/retry.py and idempotency.py: what is retried and after how long, and
-- the key of an effect.
use Prim.Native.Nat.{◌^◌}
use revenue_sentinel.Base.{ℕ, zero, suc, ◌*◌, Bool, true, false, String, Result, ok, err}
use revenue_sentinel.Json.{Json, Object, field, empty}
use revenue_sentinel.Domain.{ActionType}
use revenue_sentinel.Mcp.Errors.{ToolErrorCode, rate_limited, adapter_error}

abbrev pub max_attempts : ℕ
max_attempts = 3

abbrev pub base_delay_ms : ℕ
base_delay_ms = 50

-- `code in RETRYABLE_BY_EXECUTOR`.
unfoldable pub is_retryable : ToolErrorCode → Bool
is_retryable rate_limited = true
is_retryable adapter_error = true
is_retryable _ = false

pub data RetryError : Type 0 where
  attempt_not_one_based : RetryError

unfoldable pub backoff_ms : ℕ → Result RetryError ℕ
backoff_ms zero = err attempt_not_one_based
backoff_ms (suc k) = ok (base_delay_ms * 2 ^ k)

abbrev pub key_version : String
key_version = "idem/v1"

abbrev pub action_value : ActionType → String
action_value ActionType.crm_task = "crm_task"
action_value ActionType.email_draft = "email_draft"
action_value ActionType.crm_field_update = "crm_field_update"
action_value ActionType.slack_approval_request = "slack_approval_request"

-- `canonical_digest` is SHA-256 over the canonical JSON text: a parameter.
unfoldable pub idempotency_key : (Object → String) → String → ActionType → String → Object → String
idempotency_key canonical_digest incident_ref action_type target_ref arguments = canonical_digest (
    field "version" (Json.text key_version) (
      field "incident_ref" (Json.text incident_ref) (
        field "action_type" (Json.text (action_value action_type)) (
          field "target_ref" (Json.text target_ref)
            (field "arguments_digest" (Json.text (canonical_digest arguments)) empty)))))
