-- ===== src/Samples/Approvals.antt =====
-- Decisions, an approval node and a machine action, on the inputs of Samples.
use jarvis_awf.Prelude.{String, ◌≡◌, ◌≢◌, refl, ◌⊎◌, true, some, none, Option, inl}
use jarvis_awf.Prelude.Table
use jarvis_awf.Prelude.Table.{get-empty}
use jarvis_awf.Json.{Dict, end, field, str, Value}
use jarvis_awf.Exec.{Result, ok, err, ExnClass, core_op_error, plain}
use jarvis_awf.Database.{World, StepStatus, Approval, ApprovalStatus, RiskClass, approval_of_step}
use jarvis_awf.Workflow.Definition.{Node}
use jarvis_awf.Approvals.Decide.{decide, decide_row, op_approval_approve}
use jarvis_awf.Approvals.Decide.Once.{Decided, decide-final}
use jarvis_awf.Approvals.Decide.Voice.{op_approval_approve-voice}
use jarvis_awf.Approvals.Node.{
  approval_executor, on_step, on_row, grant, pending_row, waiting_for, granted,
}
use jarvis_awf.Approvals.Node.Waits.{
  Unexpired, IsGranted, approval_executor-IsGranted, approval_executor-again,
}
use jarvis_awf.Approvals.Lifecycle.{approval_executor-granted}
use jarvis_awf.Approvals.Machine.{MachineAction, run_machine_activity}
use jarvis_awf.Approvals.Machine.Cleared.{Cleared, Ignores, run_machine_activity-Cleared}
use jarvis_awf.Samples.{with_step, step_row, step_found, capability}

abbrev row_of : ApprovalStatus → Approval
row_of s = record (pending_row "r" "s" "sha256:0" (some RiskClass.r2) 0) { status = s }

-- the step of the run, with an approval of this status
abbrev asked : ApprovalStatus → World
asked s = record (with_step StepStatus.waiting_approval) {
  approvals = Table.insert_new "a" (row_of s) Table.empty;
}

approval_found : (s : ApprovalStatus) → Table.get "a" (asked s).approvals ≡ some (row_of s)
unfolding Table.get Table.insert_new Table.empty
approval_found s = refl

rejected_once :
    (decide core_op_error "a" ApprovalStatus.rejected (some "no") (asked ApprovalStatus.pending)).0
    ≡ ok (
        field "approval_id"
          (str "a")
          (field "status" (str "rejected") (field "reason" (str "no") end)))
unfolding decide decide_row Table.get Table.insert_new Table.empty
rejected_once = refl

abbrev rejection : Result Dict × World
rejection =
    decide core_op_error "a" ApprovalStatus.rejected (some "no") (asked ApprovalStatus.pending)

not_pending : ApprovalStatus.rejected ≢ ApprovalStatus.pending
not_pending e = cc e

decide-final_example :
    Decided "a" ApprovalStatus.rejected (some "no") (asked ApprovalStatus.pending) rejection.1
    × ((c' : ExnClass) (s' : ApprovalStatus) (reason' : Option String)
        → decide c' "a" s' reason' rejection.1
          ≡ (err (plain c' "approval is not pending"), rejection.1))
decide-final_example =
    decide-final "a" core_op_error ApprovalStatus.rejected (some "no")
      (asked ApprovalStatus.pending) not_pending rejected_once

op_approval_approve-voice_example :
    (op_approval_approve "a" "voice" (some "R0") (asked ApprovalStatus.pending)).1
    ≡ asked ApprovalStatus.pending
op_approval_approve-voice_example =
    op_approval_approve-voice "a" (some "R0") (asked ApprovalStatus.pending)
      (row_of ApprovalStatus.pending) (approval_found ApprovalStatus.pending) (inl refl)

abbrev digest : Dict → String
digest d = "sha256:0"

abbrev approve_node : Node
approve_node = record {
  id = "ship";
  type = "approval";
  fields =
      field "id" (str "ship") (field "type" (str "approval") (field "riskClass" (str "R2") end));
}

abbrev approved_output : Dict
approved_output = field "approved" (Value.bool true) (field "approval_id" (str "a") end)

passed_on :
    (approval_executor digest "r" "s" approve_node (asked ApprovalStatus.approved)).0
    ≡ ok approved_output
unfolding approval_executor on_step on_row grant Table.get Table.insert_new Table.empty Table.find
passed_on = refl

approval_executor-IsGranted_example :
    (k : String) × (row : Approval) × (approval_of_step "s" (asked ApprovalStatus.approved)
      ≡ some (k, row))
    × IsGranted row.status
approval_executor-IsGranted_example =
    approval_executor-IsGranted digest "r" "s" approve_node (asked ApprovalStatus.approved)
      (step_row StepStatus.waiting_approval) (step_found StepStatus.waiting_approval) refl passed_on
      refl

abbrev fresh : World
fresh = with_step StepStatus.pending

none_asked : approval_of_step "s" fresh ≡ none
unfolding Table.find Table.empty
none_asked = refl

approval_executor-again_example :
    let once = approval_executor digest "r" "s" approve_node fresh in
    (once.0 ≡ ok (waiting_for "id")) × (approval_executor digest "r" "s" approve_node once.1 ≡ once)
approval_executor-again_example =
    approval_executor-again digest "r" "s" approve_node fresh (step_row StepStatus.pending)
      (some RiskClass.r2) (step_found StepStatus.pending) refl none_asked (get-empty "id") refl

approval_executor-granted_example :
    let once = approval_executor digest "r" "s" approve_node fresh in
    let decision = decide core_op_error "id" ApprovalStatus.approved none once.1 in
    (approval_executor digest "r" "s" approve_node decision.1).0 ≡ ok (granted "id")
approval_executor-granted_example =
    approval_executor-granted digest "r" "s" approve_node fresh (step_row StepStatus.pending)
      (some RiskClass.r2) (step_found StepStatus.pending) refl none_asked (get-empty "id") refl

abbrev action_digest : MachineAction → String
action_digest a = "sha256:0"

abbrev action : MachineAction
action = record {
  kind = "fs_write";
  run_id = "r";
  step_id = "s";
  node_id = "n";
  operation = "update";
  capability_ref = "fs_write@1.0.0";
  risk_class = RiskClass.r2;
  approval = "per-invocation";
  target = end;
  body_digest = none;
  metadata = end;
}

none_expired : Unexpired "s" fresh
none_expired k r e = absurd (cc (none_asked, e))

run_machine_activity-Cleared_example :
    Cleared action_digest capability "r" "s" (ok action) action fresh
    ⊎ Ignores action_digest capability "r" "s"
        (ok action)
        (run_machine_activity action_digest capability "r" "s" (ok action))
        fresh
run_machine_activity-Cleared_example =
    run_machine_activity-Cleared action_digest capability "r" "s" (ok action)
      (step_row StepStatus.pending) action fresh (step_found StepStatus.pending) refl refl
      none_expired (λ x. absurd (cc x))
