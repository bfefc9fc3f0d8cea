-- ===== src/Agents/Authorize.antt =====
-- The approval of an agent step.
pub mod Cleared
use jarvis_awf.Prelude.{
  ℕ, String, ◌<>◌, Bool, true, false, not, Option, none, some, List, [], ◌∷◌, ◌==◌, is_some,
  if◌then◌else◌,
}
use jarvis_awf.Json.{Value, null, str, Dict, end, field}
use jarvis_awf.Exec.{Exn, Result, policy_denied, approval_rejected, pure, raise, gets, ◌>>=◌, ◌>>◌}
use jarvis_awf.Database.{
  World, M, StepStatus, Approval, ApprovalStatus, pending, rejected, update_step, approval_of_step,
  utc_now_rfc3339,
}
use jarvis_awf.Registry.Capability.{CapabilityRecord, ref}
use jarvis_awf.Guard.{Decision, allow, deny, approval_required, Request, authorize}
use jarvis_awf.Approvals.Node.{waiting_for, ask}
use jarvis_awf.Approvals.Machine.{MachineAction, action_event}
use jarvis_awf.Agents.{AgentInvocation, AgentOutside, step_error, operation_name, mode_name}

module _ (out : AgentOutside) (run_id step_id actor : String) (role : Option String) where
  abbrev role_value : Value
  role_value = elim role [ none ↦ null | some r ↦ str r ]

  -- _build_agent_action
  abbrev pub build_agent_action : CapabilityRecord → AgentInvocation → MachineAction
  build_agent_action capability invocation = record {
    kind = "agent_node";
    run_id = run_id;
    step_id = step_id;
    node_id = step_id;
    operation = operation_name capability.effects.operation;
    capability_ref = ref capability;
    risk_class = capability.risk_class;
    approval = mode_name capability.approval;
    target = field "adapter" (str actor) (
        field "objective_digest" (str (out.content_digest invocation.objective))
          (field "role" role_value end));
    body_digest = none;
    metadata = end;
  }

  abbrev pub agent_event : MachineAction → String → Option String → M String
  agent_event a reason_code approval_id =
      action_event out.action_digest actor a reason_code approval_id

  -- _approval_status, on the row that the SELECT gives
  unfoldable pub approval_status : MachineAction → Option (String × Approval) → M (Option Dict)
  approval_status a none = pure none
  approval_status a (some (approval_id, row)) =
      if not (row.action_digest == out.action_digest a)
      then raise
          (step_error policy_denied "approved action digest does not match current agent action")
      else elim row.status [
        | pending ↦ pure (some (waiting_for approval_id))
        | rejected ↦
            (agent_event a "machine_action_denied" (some approval_id)
              >> raise (step_error approval_rejected "the approval was rejected"))
        | _ ↦ pure none
      ]

  -- _ensure_pending_agent_approval, on the row that the SELECT gives
  unfoldable pub ensure_pending_agent : MachineAction → Option (String × Approval) → M Dict
  ensure_pending_agent a none = do
    approval_id ← ask a.run_id a.step_id (out.action_digest a) (some a.risk_class)
    agent_event a "machine_action_waiting_approval" (some approval_id)
    pure (waiting_for approval_id)
  ensure_pending_agent a (some (approval_id, row)) =
      if not (row.action_digest == out.action_digest a)
      then raise
          (step_error policy_denied "pending approval digest does not match current agent action")
      else pure (waiting_for approval_id)

  abbrev pub agent_allowlist_of : CapabilityRecord → Option (List String) → List String
  agent_allowlist_of capability none = ref capability ∷ []
  agent_allowlist_of capability (some refs) = refs

  abbrev pub agent_request : CapabilityRecord → Option (List String) → MachineAction → Request
  agent_request capability agent_allowlist a = record {
    agent_allowlist = agent_allowlist_of capability agent_allowlist;
    run_id = run_id;
    actor = actor;
    step_id = some step_id;
    role = role;
    payload_extra = field "agent_action_digest" (str (out.action_digest a)) end;
  }

  -- the step of a denied action is FAILED before the exception
  unfoldable pub on_agent_decision : MachineAction → Decision → M (Option Dict)
  on_agent_decision a deny = do
    agent_event a "machine_action_denied" none
    now ← utc_now_rfc3339
    update_step step_id (λ s. record s {
      status = StepStatus.failed;
      failure_class = some policy_denied;
      ended_at = some now;
    })
    raise (step_error policy_denied "blocked by Capability Guard: deny")
  on_agent_decision a approval_required =
      gets (approval_of_step a.step_id) >>= ensure_pending_agent a >>= λ waiting.
      pure (some waiting)
  on_agent_decision a allow = do agent_event a "machine_action_allowed" none; pure none

  module _ (capability : CapabilityRecord) (agent_allowlist : Option (List String)) where
    -- where an approval was asked for before, the guard is not called again
    unfoldable pub unless_asked : MachineAction → Bool → M (Option Dict)
    unless_asked a true = pure none
    unless_asked a false =
        authorize capability (agent_request capability agent_allowlist a) >>= on_agent_decision a

    abbrev is_asked : World → Bool
    is_asked w = is_some (approval_of_step step_id w)

    unfoldable pub after_status : MachineAction → Option Dict → M (Option Dict)
    after_status a (some waiting) = pure (some waiting)
    after_status a none = gets is_asked >>= unless_asked a

    unfoldable pub authorize_action : MachineAction → M (Option Dict)
    authorize_action a = gets (approval_of_step a.step_id) >>= approval_status a >>= after_status a

  -- _authorize_agent_or_wait
  unfoldable pub authorize_agent_or_wait :
      Option CapabilityRecord → Option (List String) → AgentInvocation → M (Option Dict)
  authorize_agent_or_wait none agent_allowlist invocation = pure none
  authorize_agent_or_wait (some capability) agent_allowlist invocation =
      authorize_action capability agent_allowlist (build_agent_action capability invocation)
