-- ===== src/Approvals/Machine.antt =====
-- backend/src/awf/machine/action.py, machine/approvals.py, and run_machine_activity of
-- machine/activities.py. The digest of an action, what builds it from the node (paths and policies
-- of the file system) and what executes it are parameters.
pub mod Cleared
use jarvis_awf.Prelude.{
  ℕ, String, ◌<>◌, Bool, true, false, not, Option, none, some, List, [], ◌∷◌, ◌==◌, if◌then◌else◌,
}
use jarvis_awf.Prelude.Table
use jarvis_awf.Json.{Value, bool, str, obj, Dict, end, field, put}
use jarvis_awf.Exec.{
  Exn, Result, ok, err, classed, machine_policy_denied, machine_approval_rejected, policy_denied,
  approval_rejected, failure_class_of, attempt, lift, pure, raise, gets, ◌>>=◌, ◌>>◌,
}
use jarvis_awf.Database.{
  World, M, Step, StepStatus, Run, RunStatus, Approval, ApprovalStatus, pending, rejected,
  RiskClass, is_succeeded, is_waiting_approval, fetch_step, update_step, approval_of_step,
  utc_now_rfc3339, EventArgs, write_event,
}
use jarvis_awf.Registry.Capability.{CapabilityRecord, ref}
use jarvis_awf.Guard.{Decision, allow, deny, approval_required, Request, authorize, risk_name}
use jarvis_awf.Engine.Executor.{cached_output, set_run_status}
use jarvis_awf.Approvals.Node.{waiting_for, ask}

pub record MachineAction : Type 0 where
  pub kind : String
  pub run_id : String
  pub step_id : String
  pub node_id : String
  pub operation : String
  pub capability_ref : String
  pub risk_class : RiskClass
  pub approval : String
  pub target : Dict
  pub body_digest : Option String
  pub metadata : Dict

abbrev with_digest : Option String → Dict → Dict
with_digest none d = d
with_digest (some s) d = field "body_digest" (str s) d

-- MachineAction.to_dict, which leaves out a body digest that is None
abbrev pub to_dict : MachineAction → Dict
to_dict a = field "kind" (str a.kind) (
    field "run_id" (str a.run_id) (
      field "step_id" (str a.step_id) (
        field "node_id" (str a.node_id) (
          field "operation" (str a.operation) (
            field "capability_ref" (str a.capability_ref) (
              field "risk_class" (str (risk_name a.risk_class)) (
                field "approval" (str a.approval) (
                  field "target" (obj a.target)
                    (with_digest a.body_digest (field "metadata" (obj a.metadata) end))))))))))

module _ (run_id step_id : String) where
  unfoldable pub mark_failed : Exn → M Dict
  mark_failed exc = do
    now ← utc_now_rfc3339
    update_step step_id (λ s. record s {
      status = StepStatus.failed;
      failure_class = some (failure_class_of exc);
      ended_at = some now;
    })
    set_run_status run_id RunStatus.failed
    raise exc

  abbrev mark_running : M Unit
  mark_running = do
    now ← utc_now_rfc3339
    update_step step_id (λ s. record s { status = StepStatus.running; started_at = now })

  abbrev mark_succeeded : Dict → M Unit
  mark_succeeded output = do
    now ← utc_now_rfc3339
    update_step step_id (λ s. record s {
      status = StepStatus.succeeded;
      output_json = some output;
      ended_at = some now;
    })

  -- the `except` around all of it
  unfoldable pub settle : Result Dict → M Dict
  settle (ok output) = pure output
  settle (err exc) = mark_failed exc

module _ (digest : MachineAction → String) where
  abbrev with_approval : Option String → Dict → Dict
  with_approval none d = d
  with_approval (some k) d = put "approval_id" (str k) d

  -- write_machine_action_event
  abbrev pub action_event : String → MachineAction → String → Option String → M String
  action_event actor a reason_code approval_id = write_event (record {
    run = a.run_id;
    step = some a.step_id;
    prior = none;
    status = reason_code;
    actor = actor;
    reason = reason_code;
    payload = with_approval approval_id (
        field "machine_action" (obj (to_dict a))
          (field "machine_action_digest" (str (digest a)) end));
  })

  -- with the default actor
  unfoldable pub machine_event : MachineAction → String → Option String → M String
  machine_event a reason_code approval_id = action_event "awf" a reason_code approval_id

  unfoldable pub record_executed : MachineAction → Dict → M String
  record_executed a output = write_event (record {
    run = a.run_id;
    step = some a.step_id;
    prior = none;
    status = "machine_action_executed";
    actor = "awf";
    reason = "machine_action_executed";
    payload =
        field "machine_action" (obj (to_dict a))
          (field "machine_action_digest" (str (digest a)) (field "output" (obj output) end));
  })

  abbrev denied : String → Exn
  denied text = classed machine_policy_denied policy_denied text

  -- _ensure_pending_approval, on the row that the SELECT gives
  unfoldable pub ensure_pending : MachineAction → Option (String × Approval) → M Dict
  ensure_pending a none = do
    approval_id ← ask a.run_id a.step_id (digest a) (some a.risk_class)
    machine_event a "machine_action_waiting_approval" (some approval_id)
    pure (waiting_for approval_id)
  ensure_pending a (some (approval_id, row)) =
      if not (row.action_digest == digest a)
      then raise (denied "pending approval digest does not match current machine action")
      else pure (waiting_for approval_id)

  abbrev ensure_pending_approval : MachineAction → M Dict
  ensure_pending_approval a = gets (approval_of_step a.step_id) >>= ensure_pending a

  abbrev pub machine_request : CapabilityRecord → MachineAction → Request
  machine_request capability a = record {
    agent_allowlist = ref capability ∷ [];
    run_id = a.run_id;
    actor = "awf";
    step_id = some a.step_id;
    role = none;
    payload_extra = end;
  }

  unfoldable pub on_decision : MachineAction → Decision → M (Option Dict)
  on_decision a deny = do
    machine_event a "machine_action_denied" none
    raise (denied "blocked by Capability Guard: deny")
  on_decision a allow = do machine_event a "machine_action_allowed" none; pure none
  on_decision a approval_required = do waiting ← ensure_pending_approval a; pure (some waiting)

  -- authorize_machine_action, as run_machine_activity calls it
  unfoldable pub authorize_machine_action : CapabilityRecord → MachineAction → M (Option Dict)
  authorize_machine_action capability a =
      authorize capability (machine_request capability a) >>= on_decision a

  -- approved_or_waiting, on the row that the SELECT gives
  unfoldable pub approved_or_waiting : MachineAction → Option (String × Approval) → M (Option Dict)
  approved_or_waiting a none = pure none
  approved_or_waiting a (some (approval_id, row)) =
      if not (row.action_digest == digest a)
      then raise (denied "approved action digest does not match current machine action")
      else elim row.status [
        | pending ↦ pure (some (waiting_for approval_id))
        | rejected ↦
            (machine_event a "machine_action_denied" (some approval_id)
              >> raise
                  (classed machine_approval_rejected approval_rejected "the approval was rejected"))
        | _ ↦ pure none
      ]

  module _ (capability : CapabilityRecord) (run_id step_id : String) (build : Result MachineAction)
      (execute : M Dict) where
    -- from `_mark_running` on
    unfoldable pub perform : MachineAction → M Dict
    perform a = do
      mark_running run_id step_id
      output ← execute
      mark_succeeded run_id step_id output
      record_executed a output
      pure output

    unfoldable pub after_guard : MachineAction → Option Dict → M Dict
    after_guard a (some waiting) = pure waiting
    after_guard a none = perform a

    unfoldable pub after_approval : Step → MachineAction → Option Dict → M Dict
    after_approval row a (some waiting) = pure waiting
    after_approval row a none =
        if is_waiting_approval row.status
        then perform a
        else (authorize_machine_action capability a >>= after_guard a)

    unfoldable pub attempt_action : Step → MachineAction → M Dict
    attempt_action row a = do
      found ← gets (approval_of_step a.step_id)
      waiting ← approved_or_waiting a found
      after_approval row a waiting

    unfoldable pub on_step : Step → M Dict
    on_step row =
        if is_succeeded row.status
        then cached_output row
        else (attempt (lift build >>= attempt_action row) >>= settle run_id step_id)

    unfoldable pub run_machine_activity : M Dict
    run_machine_activity = fetch_step step_id >>= on_step
