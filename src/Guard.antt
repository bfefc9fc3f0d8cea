-- ===== src/Guard.antt =====
-- backend/src/awf/guard/capability_guard.py
pub mod Decisions
use jarvis_awf.Prelude.{
  String, Bool, true, false, not, ◌&&◌, ◌||◌, Option, none, some, List, [], ◌∷◌, ◌==◌, member,
  if◌then◌else◌,
}
use jarvis_awf.Json.{Value, null, str, Dict, end, field, merge}
use jarvis_awf.Exec.{Result, ok, err, plain, value_error, pure, lift, ◌>>=◌, ◌>>◌}
use jarvis_awf.Database.{World, M, RiskClass, r0, r1, r2, r3, EventArgs, write_event}
use jarvis_awf.Registry.Capability.{
  CapabilityRecord, ref, Operation, create, update, delete, ApprovalMode, never, per_run,
  per_invocation,
}

pub data Decision : Type 0 where
  allow deny approval_required : Decision

-- Decision.value
abbrev pub decision_value : Decision → String
decision_value allow = "allow"
decision_value deny = "deny"
decision_value approval_required = "approval_required"

abbrev pub roles : List String
roles = "builder" ∷ "verifier" ∷ "adversary" ∷ []

-- `operation in WRITE_OPERATIONS`
abbrev pub is_write : Operation → Bool
is_write create = true
is_write update = true
is_write delete = true
is_write _ = false

abbrev pub risk_name : RiskClass → String
risk_name r0 = "R0"
risk_name r1 = "R1"
risk_name r2 = "R2"
risk_name r3 = "R3"

-- f"approval_{approval.replace('-', '_')}"
abbrev approval_reason : ApprovalMode → String
approval_reason never = "approval_never"
approval_reason per_run = "approval_per_run"
approval_reason per_invocation = "approval_per_invocation"

unfoldable pub role_is : String → Option String → Bool
role_is name none = false
role_is name (some role) = role == name

-- `role is not None and role not in ROLES`
unfoldable pub bad_role : Option String → Bool
bad_role none = false
bad_role (some role) = not (member role roles)

-- the tests on the risk class, and the approval mode behind them
by_risk : RiskClass → ApprovalMode → Decision × String
by_risk r3 mode = (deny, "prohibited_risk_class")
by_risk r0 mode = (allow, "autoallow_r0")
by_risk _ never = (allow, "approval_never")
by_risk _ mode = (approval_required, approval_reason mode)

abbrev pub is_r0 : RiskClass → Bool
is_r0 r0 = true
is_r0 _ = false

unfoldable pub evaluate :
    CapabilityRecord → List String → Option String → Result (Decision × String)
unfolding by_risk
evaluate capability agent_allowlist role =
    if not (member (ref capability) agent_allowlist)
    then ok (deny, "not_in_agent_allowlist")
    else if bad_role role
    then err (plain value_error "role not in ROLES")
    else if role_is "verifier" role
        && is_write capability.effects.operation
        && not (is_r0 capability.risk_class)
    then ok (deny, "policy_denied_verifier_write_above_r0")
    else if role_is "adversary" role && is_write capability.effects.operation
    then ok (deny, "policy_denied_adversary_altering_capability")
    else ok (by_risk capability.risk_class capability.approval)

abbrev role_value : Option String → Value
role_value none = null
role_value (some role) = str role

-- the arguments of `authorize` beyond the capability
pub record Request : Type 0 where
  pub agent_allowlist : List String
  pub run_id : String
  pub actor : String
  pub step_id : Option String
  pub role : Option String
  pub payload_extra : Dict

abbrev pub payload : CapabilityRecord → Request → Dict
payload capability r =
    merge
      (field "capability_ref" (str (ref capability)) (
        field "risk_class" (str (risk_name capability.risk_class))
          (field "role" (role_value r.role) end)))
      r.payload_extra

-- the arguments of the `write_event` call
abbrev pub decision_args : CapabilityRecord → Request → Decision × String → EventArgs
decision_args capability r (decision, reason_code) = record {
  run = r.run_id;
  step = r.step_id;
  prior = none;
  status = decision_value decision;
  actor = r.actor;
  reason = reason_code;
  payload = payload capability r;
}

abbrev pub record_decision : CapabilityRecord → Request → Decision × String → M Decision
record_decision capability r (decision, reason_code) = do
  write_event (decision_args capability r (decision, reason_code))
  pure decision

unfoldable pub authorize : CapabilityRecord → Request → M Decision
authorize capability r = do
  verdict ← lift (evaluate capability r.agent_allowlist r.role)
  record_decision capability r verdict
