-- ===== src/Exec/Exception.antt =====
-- The exceptions that the code raises, with the failure class of section 13.3 where the class
-- carries one (`getattr(exc, "failure_class", "INTERNAL")`).
use jarvis_awf.Prelude.{String, Option, none, some}

-- the names that the CHECK on steps.failure_class admits
pub data FailureClass : Type 0 where
  transient timeout invalid_input policy_denied approval_rejected tool_error : FailureClass
  sandbox_violation nondeterministic_output integrity_failure unknown_side_effect : FailureClass
  internal : FailureClass

abbrev pub class_name : FailureClass → String
class_name transient = "TRANSIENT"
class_name timeout = "TIMEOUT"
class_name invalid_input = "INVALID_INPUT"
class_name policy_denied = "POLICY_DENIED"
class_name approval_rejected = "APPROVAL_REJECTED"
class_name tool_error = "TOOL_ERROR"
class_name sandbox_violation = "SANDBOX_VIOLATION"
class_name nondeterministic_output = "NONDETERMINISTIC_OUTPUT"
class_name integrity_failure = "INTEGRITY_FAILURE"
class_name unknown_side_effect = "UNKNOWN_SIDE_EFFECT"
class_name internal = "INTERNAL"

-- `failure_class.lower()`
abbrev pub class_reason : FailureClass → String
class_reason transient = "transient"
class_reason timeout = "timeout"
class_reason invalid_input = "invalid_input"
class_reason policy_denied = "policy_denied"
class_reason approval_rejected = "approval_rejected"
class_reason tool_error = "tool_error"
class_reason sandbox_violation = "sandbox_violation"
class_reason nondeterministic_output = "nondeterministic_output"
class_reason integrity_failure = "integrity_failure"
class_reason unknown_side_effect = "unknown_side_effect"
class_reason internal = "internal"

pub data ExnClass : Type 0 where
  step_failure workflow_engine_error workflow_validation_error node_validation_error : ExnClass
  unknown_activity_error approval_rejected_error machine_approval_rejected : ExnClass
  machine_policy_denied machine_policy_error machine_activity_error loop_node_error : ExnClass
  subworkflow_error handoff_error map_node_error core_op_error gateway_error : ExnClass
  voice_session_error session_error improvement_proposal_error output_validation_error : ExnClass
  eval_runner_error : ExnClass
  value_error type_error key_error integrity_error capability_validation_error : ExnClass
  finding_validation_error agent_step_error attribute_error registry_object_not_found_error :
      ExnClass
  registry_integrity_error registry_blocked_error unknown_registry_kind_error : ExnClass

-- an exception that was raised: its class, its `failure_class` if it has one, and `str(exc)`
pub record Exn : Type 0 where
  pub class : ExnClass
  pub failure_class : Option FailureClass
  pub text : String

-- an exception with no `failure_class`
abbrev pub plain : ExnClass → String → Exn
plain c text = record { class = c; failure_class = none; text = text }

abbrev pub classed : ExnClass → FailureClass → String → Exn
classed c f text = record { class = c; failure_class = some f; text = text }

-- `getattr(exc, "failure_class", "INTERNAL")`
abbrev pub failure_class_of : Exn → FailureClass
failure_class_of e = elim e.failure_class [ none ↦ internal | some f ↦ f ]
