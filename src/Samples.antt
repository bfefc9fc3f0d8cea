-- ===== src/Samples.antt =====
-- Concrete inputs: a run with one step, a capability, and a workflow of an activity and a gate.
mod Engine
mod Workflow
mod Approvals
mod Guards
mod Children
mod Models
mod Voices
mod Proposals
mod Registry
mod Agents
use jarvis_awf.Prelude.{
  ℕ, String, Bool, true, false, Option, none, some, List, [], ◌∷◌, ◌≡◌, refl, ◌==◌, if◌then◌else◌,
}
use jarvis_awf.Prelude.Int.{pos}
use jarvis_awf.Prelude.Table
use jarvis_awf.Json.{Value, num, str, bool, Dict, end, field}
use jarvis_awf.Exec.{ok, pure}
use jarvis_awf.Database.{
  Outside, World, M, Run, RunStatus, Step, StepStatus, Approval, ApprovalStatus, RiskClass,
}
use jarvis_awf.Registry.Capability.{
  CapabilityRecord, Identity, Effects, IdentityType, Operation, ApprovalMode,
}
use jarvis_awf.Workflow.Definition.{Node, WorkflowDefinition}
use jarvis_awf.Workflow.Attempts.{NodeExecutor}

abbrev pub outside : Outside
outside = record { uuid = λ n. "id"; clock = λ n. n; uniform = λ n d. d; alnum = λ n. false }

abbrev pub nothing : World
nothing = record {
  runs = Table.empty;
  steps = Table.empty;
  events = [];
  approvals = Table.empty;
  artifacts = Table.empty;
  sessions = Table.empty;
  entries = [];
  proposals = Table.empty;
  proposal_events = [];
  registry_index = [];
  outside = outside;
  issued = 0;
  readings = 0;
  disk = 0;
}

abbrev pub run_row : Run
run_row = record {
  workflow_ref = "build@1.0.0";
  status = RunStatus.created;
  input_json = end;
  output_json = none;
  created_at = 0;
  updated_at = 0;
}

abbrev pub step_row : StepStatus → Step
step_row s = record {
  run_id = "r";
  node_id = "n";
  attempt = 1;
  status = s;
  input_json = end;
  output_json = none;
  failure_class = none;
  started_at = 0;
  ended_at = none;
}

-- a run with one step of this status
abbrev pub with_step : StepStatus → World
with_step s = record nothing {
  runs = Table.insert_new "r" run_row Table.empty;
  steps = Table.insert_new "s" (step_row s) Table.empty;
}

pub step_found : (s : StepStatus) → Table.get "s" (with_step s).steps ≡ some (step_row s)
unfolding Table.get Table.insert_new Table.empty
step_found s = refl

pub run_found : (s : StepStatus) → Table.get "r" (with_step s).runs ≡ some run_row
unfolding Table.get Table.insert_new Table.empty
run_found s = refl

-- an R2 capability that writes
abbrev pub capability : CapabilityRecord
capability = record {
  identity = record {
    type = IdentityType.activity;
    provider = "awf";
    name = "fs_write";
    version = "1.0.0";
  };
  schema_input = "";
  schema_output = "";
  effects = record {
    operation = Operation.update;
    reversible = true;
    idempotent = false;
    external_side_effect = true;
  };
  risk_class = RiskClass.r2;
  approval = ApprovalMode.per_invocation;
  constraints = end;
}

abbrev pub build_node : Node
build_node = record {
  id = "build";
  type = "activity";
  fields = field "id" (str "build") (
      field "type" (str "activity")
        (field "function" (str "make") (field "next" (str "check") end)));
}

abbrev pub check_node : Node
check_node = record {
  id = "check";
  type = "gate";
  fields = field "id" (str "check") (field "type" (str "gate") (field "onFail" (str "build") end));
}

abbrev pub workflow : WorkflowDefinition
workflow = record {
  name = "build";
  version = "1.0.0";
  input_schema = end;
  output_schema = end;
  budgets = field "maxRepairIterations" (num (pos 1)) end;
  first = build_node;
  others = check_node ∷ [];
  outputs = end;
}

-- an activity that returns nothing, and a gate that never passes
abbrev pub executors : String → Option NodeExecutor
executors type =
    if type == "activity"
    then some (λ run_id step_id n. pure end)
    else if type == "gate"
    then some (λ run_id step_id n. pure (field "passed" (bool false) end))
    else none

abbrev pub validates : Dict → Dict → Option String
validates rendered schema = none
