-- ===== src/Approvals/Node.antt =====
-- backend/src/awf/workflow/approval.py. `digest` is the sha256 of the JSON text of a dict, which is
-- a parameter.
pub mod Waits
use jarvis_awf.Prelude.{
  String, Bool, true, false, Option, none, some, List, [], ◌∷◌, ◌==◌, if◌then◌else◌,
}
use jarvis_awf.Prelude.{ℕ, ◌+◌}
use jarvis_awf.Prelude.Table
use jarvis_awf.Json.{Value, null, bool, str, Dict, end, field, get, get_or}
use jarvis_awf.Exec.{
  Result, ok, err, plain, classed, approval_rejected_error, approval_rejected, class_name,
  integrity_error, pure, raise, lift, gets, ◌>>=◌, ◌>>◌,
}
use jarvis_awf.Database.{
  World, M, Step, StepStatus, Run, RunStatus, Approval, ApprovalStatus, pending, rejected, approved,
  expired, is_succeeded, RiskClass, r0, r1, r2, r3, fetch_step, update_step, update_run,
  approval_of_step, uuid7, utc_now_rfc3339, write_event,
}
use jarvis_awf.Engine.Run.{step_event}
use jarvis_awf.Engine.Executor.{cached_output}
use jarvis_awf.Workflow.Definition.{Node}

-- {"waiting_input": True, "approval_id": approval_id}
abbrev pub waiting_for : String → Dict
waiting_for approval_id =
    field "waiting_input" (bool true) (field "approval_id" (str approval_id) end)

abbrev pub granted : String → Dict
granted approval_id = field "approved" (bool true) (field "approval_id" (str approval_id) end)

abbrev pub about : String → Dict
about approval_id = field "approval_id" (str approval_id) end

-- the CHECK on approvals.risk_class
abbrev pub risk_of : Option Value → Result (Option RiskClass)
risk_of none = ok none
risk_of (some null) = ok none
risk_of (some (str s)) =
    if s == "R0"
    then ok (some r0)
    else if s == "R1"
    then ok (some r1)
    else if s == "R2"
    then ok (some r2)
    else if s == "R3"
    then ok (some r3)
    else err (plain integrity_error "CHECK constraint failed: risk_class")
risk_of (some v) = err (plain integrity_error "CHECK constraint failed: risk_class")

abbrev pub insert_approval : String → Approval → M Unit
insert_approval k row w = (ok tt, record w { approvals = Table.insert_new k row w.approvals })

-- the row that asks for a decision
abbrev pub pending_row : String → String → String → Option RiskClass → ℕ → Approval
pending_row run_id step_id action_digest risk now = record {
  run_id = run_id;
  step_id = step_id;
  action_digest = action_digest;
  status = pending;
  reason = none;
  requested_at = now;
  decided_at = none;
  risk_class = risk;
}

-- The INSERT of the row, and the step and the run that wait: what the three callers share.
unfoldable pub ask : String → String → String → Option RiskClass → M String
ask run_id step_id action_digest risk = do
  approval_id ← uuid7
  now ← utc_now_rfc3339
  insert_approval approval_id (pending_row run_id step_id action_digest risk now)
  update_step step_id (λ s. record s { status = StepStatus.waiting_approval; started_at = now })
  update_run run_id (λ r. record r { status = RunStatus.waiting_approval; updated_at = now })
  pure approval_id

module _ (digest : Dict → String) where
  -- _action_digest
  abbrev pub action_digest : String → Node → String
  action_digest run_id n = digest (
      field "run_id" (str run_id)
        (field "node_id" (str n.id) (field "action" (get_or "action" (str n.id) n.fields) end)))

  module _ (run_id step_id : String) (n : Node) where
    unfoldable pub request_with : Option RiskClass → M Dict
    request_with risk = do
      approval_id ← ask run_id step_id (action_digest run_id n) risk
      write_event
          (step_event run_id step_id "WAITING_APPROVAL" "approval_requested" (about approval_id))
      pure (waiting_for approval_id)

    -- no row yet
    unfoldable pub request : M Dict
    request = lift (risk_of (get "riskClass" n.fields)) >>= request_with

    unfoldable pub fail : String → M Dict
    fail approval_id = do
      now ← utc_now_rfc3339
      update_step step_id (λ s. record s {
        status = StepStatus.failed;
        failure_class = some approval_rejected;
        ended_at = some now;
      })
      write_event (step_event run_id step_id "FAILED" "approval_rejected" (about approval_id))
      raise (classed approval_rejected_error approval_rejected "the approval was rejected")

    unfoldable pub grant : String → M Dict
    grant approval_id = do
      now ← utc_now_rfc3339
      update_step step_id (λ s. record s {
        status = StepStatus.succeeded;
        output_json = some (granted approval_id);
        ended_at = some now;
      })
      write_event (step_event run_id step_id "SUCCEEDED" "approval_granted" (granted approval_id))
      pure (granted approval_id)

    unfoldable pub on_row : Option (String × Approval) → M Dict
    on_row none = request
    on_row (some (approval_id, row)) = elim row.status [
      | pending ↦ pure (waiting_for approval_id)
      | rejected ↦ fail approval_id
      | approved ↦ grant approval_id
      | expired ↦ grant approval_id
    ]

    unfoldable pub on_step : Step → M Dict
    on_step step =
        if is_succeeded step.status
        then cached_output step
        else (gets (approval_of_step step_id) >>= on_row)

    -- make_approval_node_executor
    unfoldable pub approval_executor : M Dict
    approval_executor = fetch_step step_id >>= on_step
