-- ===== src/Execution/Executor/Attempts.antt =====
-- The retry loop of `_perform` in src/revenue_sentinel/execution/executor.py.
use text.Mathlib.TextEquality.{eq_iff}
use revenue_sentinel.Base.{
  ℕ, zero, suc, ◌+◌, ◌==◌, ◌≡◌, ◌≢◌, refl, Bool, false, not, ◌||◌, String, Option, some, List, [],
  ◌∷◌, Result, ok, err, if◌then◌else◌, arith, Bool-cases, inl, inr,
}
use revenue_sentinel.Json.{Object, get, is_true}
use revenue_sentinel.Domain.{ActionStatus, executing, succeeded, failed}
use revenue_sentinel.Execution.Retry.{max_attempts}
use revenue_sentinel.Execution.Executor.{
  ActionRecord, ExecutionResult, ExecutionError, Executing, save, holder, payload_of, error_code,
  can_retry, result_of, settle, sleep_before, perform,
}

pub holder-save :
    (key : String) (row held : ActionRecord) (rows : List ActionRecord)
    → row.idempotency_key ≡ key
    → held.id ≡ row.id
    → holder key rows ≡ some held
    → holder key (save row rows) ≡ some row
holder-save key row held [] is_key same h = cc
holder-save key row held (r ∷ rows) is_key same h = ground (
  arith,
  holder-save key row held rows is_key same,
  eq_iff row.idempotency_key key,
  eq_iff r.idempotency_key key,
)

pub not_last :
    (attempt : ℕ) (stop : Bool) → (stop || attempt == max_attempts) ≡ false → attempt ≢ max_attempts
not_last attempt stop h = ground arith

module _ {W : Type 0} where
  -- The row that holds `key` is the one of the result, and is no open claim.
  abbrev pub Settled : String → Result ExecutionError ExecutionResult × Executing W → Type 0
  Settled key (ok res, st) =
      (row : ActionRecord) × (holder key st.actions ≡ some row)
      × (res ≡ result_of row (payload_of row.result) false)
      × (row.status ≢ executing)
  Settled key (err e, st) = ⊥

  settle-Settled :
      (key : String) (row held : ActionRecord) (status : ActionStatus) (payload : Object)
      (at : Option ℕ) (st : Executing W)
      → row.idempotency_key ≡ key
      → held.id ≡ row.id
      → holder key st.actions ≡ some held
      → status ≢ executing
      → Settled key (settle row status payload at st)
  unfolding settle
  settle-Settled key row held status payload at st is_key same h over = (
    record row { status = status; result = some payload; executed_at = at },
    holder-save key (record row { status = status; result = some payload; executed_at = at }) held
        st.actions is_key same h,
    refl,
    over,
  )

  pub actions-sleep_before :
      (attempt : ℕ) (st : Executing W) → (sleep_before attempt st).actions ≡ st.actions
  unfolding sleep_before
  actions-sleep_before attempt st = ground arith

module _ {W : Type 0} (call_tool : String → Object → W → Object × W) (tool : String)
    (arguments : Object) (now : ℕ) (key : String) where
  -- The branches after a failed call: the row fails, or the next round follows.
  last_or_again :
      (left attempt : ℕ) (tried : ActionRecord) (payload : Object) (after : Executing W)
      → tried.idempotency_key ≡ key
      → holder key after.actions ≡ some tried
      → (attempt ≢ max_attempts
          → Settled key (
              perform call_tool left
                (attempt + 1)
                tried
                tool
                arguments
                now
                (sleep_before attempt after)))
      → Settled key (
          if not (can_retry (error_code payload)) || attempt == max_attempts
          then settle tried failed payload tried.executed_at after
          else perform call_tool left
              (attempt + 1)
              tried
              tool
              arguments
              now
              (sleep_before attempt after))
  last_or_again left attempt tried payload after is_key stored next =
      elim (Bool-cases (not (can_retry (error_code payload)) || attempt == max_attempts)) [
        | inl over ↦ rw over (
            settle-Settled {W = W} key tried tried failed payload tried.executed_at after is_key
              refl stored (λ e. cc))
        | inr more ↦ rw more (next (not_last attempt _ more))
      ]

  module _ (left attempt : ℕ) (row held : ActionRecord) (st : Executing W)
      (is_key : row.idempotency_key ≡ key) (same : held.id ≡ row.id)
      (h : holder key st.actions ≡ some held) where
    abbrev tried : ActionRecord
    tried = record row { attempt_count = attempt }

    abbrev called : Object × W
    called = call_tool tool arguments st.world

    abbrev after : Executing W
    after = record st { actions = save tried st.actions; world = called.1 }

    round-Settled :
        (attempt ≢ max_attempts
          → Settled key (
              perform call_tool left
                (attempt + 1)
                tried
                tool
                arguments
                now
                (sleep_before attempt after)))
        → Settled key (perform call_tool (suc left) attempt row tool arguments now st)
    unfolding perform
    round-Settled next =
        let stored = holder-save key tried held st.actions is_key same h in
        elim (Bool-cases (is_true (get called.0 "ok"))) [
          | inl is_ok ↦ rw is_ok (
              settle-Settled {W = W} key tried tried succeeded called.0 (some now) after is_key refl
                stored (λ e. cc))
          | inr no_ok ↦
              rw no_ok (last_or_again left attempt tried called.0 after is_key stored next)
        ]

  -- With a round left for each attempt up to the last, the loop settles the row.
  pub perform-Settled :
      (left attempt : ℕ) (row held : ActionRecord) (st : Executing W)
      → attempt + left ≡ max_attempts
      → row.idempotency_key ≡ key
      → held.id ≡ row.id
      → holder key st.actions ≡ some held
      → Settled key (perform call_tool (suc left) attempt row tool arguments now st)
  perform-Settled zero attempt row held st rounds is_key same h =
      round-Settled zero attempt row held st is_key same h (λ ne. absurd (ne (omega arith)))
  perform-Settled (suc left) attempt row held st rounds is_key same h =
      round-Settled (suc left) attempt row held st is_key same h (λ ne.
        perform-Settled left (attempt + 1) (tried (suc left) attempt row held st is_key same h)
          (tried (suc left) attempt row held st is_key same h)
          (sleep_before attempt (after (suc left) attempt row held st is_key same h)) (omega arith)
          is_key refl
          (rw actions-sleep_before (
            holder-save key (tried (suc left) attempt row held st is_key same h) held st.actions
              is_key same h)))
