-- ===== src/Agents.antt =====
-- backend/src/awf/engine/agent_step.py, with the envelopes of backend/src/awf/adapters/base.py.
pub mod Authorize
pub mod Profiles
pub mod Servers
pub mod Skills
pub mod Step
use jarvis_awf.Prelude.{ℕ, String, ◌<>◌, Bool, true, false, Option, none, some, List, [], ◌∷◌, ◌==◌}
use jarvis_awf.Json.{Dict, Items}
use jarvis_awf.Exec.{
  Exn, Result, Exec, classed, agent_step_error, FailureClass, tool_error, timeout, internal,
}
use jarvis_awf.Database.{World, M, ObjectPath}
use jarvis_awf.Registry.Capability.{CapabilityRecord, Operation, ApprovalMode}
use jarvis_awf.Registry.Profile.{ModelProfile}
use jarvis_awf.Registry.Index.{RegistryFiles}
use jarvis_awf.Cognition.Prompts.{PromptSegment}
use jarvis_awf.Cognition.Personas.{Persona}
use jarvis_awf.Approvals.Machine.{MachineAction}

pub data AgentStatus : Type 0 where
  completed needs_input agent_blocked failed limit_exceeded canceled : AgentStatus

-- AgentStatus.value
abbrev pub status_value : AgentStatus → String
status_value completed = "COMPLETED"
status_value needs_input = "NEEDS_INPUT"
status_value agent_blocked = "BLOCKED"
status_value failed = "FAILED"
status_value limit_exceeded = "LIMIT_EXCEEDED"
status_value canceled = "CANCELED"

-- AGENT_STATUS_FAILURE_CLASSES, with its default
abbrev pub failure_of_status : AgentStatus → FailureClass
failure_of_status failed = tool_error
failure_of_status limit_exceeded = timeout
failure_of_status _ = internal

abbrev pub is_completed : AgentStatus → Bool
is_completed completed = true
is_completed _ = false

pub record AgentInvocation : Type 0 where
  pub objective : String
  pub inputs : Dict
  pub workspace_root : String
  pub capabilities : List String
  pub skills : List String
  pub constraints : Dict
  pub completion_contract : String
  pub trace_context : Dict

pub record AgentResult : Type 0 where
  pub status : AgentStatus
  pub output : Dict
  pub artifact_candidates : List String
  pub findings : Items
  pub usage : Dict
  pub termination_reason : String

pub record SkillRef : Type 0 where
  pub ref : String
  pub share : Bool

pub record Skill : Type 0 where
  pub name : String
  pub body : String

pub record McpServer : Type 0 where
  pub name : String
  pub version : String
  pub tools : List String
  -- the command, the URL, the environment and the rest
  pub settings : Dict

-- what a renderer gives
pub record Rendered : Type 0 where
  pub extra_args : List String
  pub env_overlay : Dict
  -- the files of a scratch home
  pub needs_home : Bool

-- what the step reads and does outside the database
pub record AgentOutside : Type 0 where
  pub files : RegistryFiles
  pub load_skill : ObjectPath → ℕ → Result Skill
  pub directory_digest : ObjectPath → ℕ → Result String
  pub load_mcp_server : ObjectPath → ℕ → Result McpServer
  pub load_capability_record : ObjectPath → ℕ → Result CapabilityRecord
  pub load_model_profile : ObjectPath → ℕ → Result ModelProfile
  pub load_persona : ObjectPath → ℕ → Result Persona
  pub file_digest : ObjectPath → ℕ → Result String
  pub retrieve_memory_context : String → String → M (List PromptSegment)
  pub share_skill : Skill → ObjectPath → Exec ℕ Unit
  pub codex_scratch_home : List Skill → Exec ℕ String
  pub resolve_secrets : List McpServer → World → Result Dict
  -- RENDERERS.get(actor)
  pub renderer : String → Option (List McpServer → Dict → Rendered)
  -- the files of a render, with the scratch home
  pub write_rendered : Rendered → Exec ℕ String
  pub content_digest : String → String
  pub action_digest : MachineAction → String
  -- the sha256 of a JSON text, and the text
  pub json_digest : Dict → String
  pub json_text : Dict → String

abbrev pub step_error : FailureClass → String → Exn
step_error c text = classed agent_step_error c text

abbrev pub operation_name : Operation → String
operation_name Operation.read = "read"
operation_name Operation.create = "create"
operation_name Operation.update = "update"
operation_name Operation.delete = "delete"
operation_name Operation.execute = "execute"
operation_name Operation.communicate = "communicate"

abbrev pub mode_name : ApprovalMode → String
mode_name ApprovalMode.never = "never"
mode_name ApprovalMode.per_run = "per-run"
mode_name ApprovalMode.per_invocation = "per-invocation"
