-- ===== src/Samples/Agents.antt =====
-- The agent steps, on the inputs of Samples.
use jarvis_awf.Prelude.{◌≡◌, ◌⊎◌, refl, true, false, none, some, [], ◌∷◌}
use jarvis_awf.Prelude.Int.{pos}
use jarvis_awf.Prelude.Table
use jarvis_awf.Json.{nil, end}
use jarvis_awf.Exec.{ok, err, pure}
use jarvis_awf.Approvals.Node.Waits.{Unexpired}
use jarvis_awf.Database.{approval_of_step, M, StepStatus, TrustStatus}
use jarvis_awf.Registry.Capability.{CapabilityRecord, IdentityType}
use jarvis_awf.Registry.Profile.{ModelProfile, DataClass, FallbackMode}
use jarvis_awf.Cognition.Personas.{Persona, TraitLevel, HumorLevel}
use jarvis_awf.Agents.{AgentInvocation, AgentResult, AgentStatus, AgentOutside, McpServer}
use jarvis_awf.Agents.Servers.{Servers, resolve_mcp_servers}
use jarvis_awf.Agents.Step.{AgentCall, is_cached}
use jarvis_awf.Agents.Step.Guarded.{Approved, IgnoresBoth, run_agent_step-Approved}
use jarvis_awf.Agents.Step.Commits.{IgnoresCommit, CommitsLast, run_agent_step-CommitsLast}
use jarvis_awf.Samples.{capability, with_step}
use jarvis_awf.Samples.Registry.{files, indexed}

abbrev search : CapabilityRecord
search = record capability {
  identity = record {
    type = IdentityType.mcp_tool;
    provider = "github";
    name = "search";
    version = "1";
  };
}

abbrev server : McpServer
server = record { name = "github"; version = "1"; tools = "search" ∷ []; settings = end }

abbrev profile : ModelProfile
profile = record {
  name = "p";
  version = "1";
  purpose = "";
  privacy = record { maximum_data_class = DataClass.public; local_only = true };
  candidates = [];
  fallback = record { mode = FallbackMode.ordered; allow_quality_degrade = false };
  limits = record {
    max_input_tokens_per_call = pos 1;
    max_output_tokens_per_call = pos 1;
    max_cost_usd_per_call = pos 1;
  };
}

abbrev someone : Persona
someone = record {
  name = "p";
  version = "1";
  display_name = "";
  description = "";
  locale = "";
  system = "Be brief.";
  style = record { max_words_default = pos 80; structure = ""; do_items = []; avoid = [] };
  traits = record {
    warmth = TraitLevel.low;
    assertiveness = TraitLevel.low;
    detail = TraitLevel.low;
    humor = HumorLevel.dry;
  };
  examples = [];
  generation = end;
  enabled = true;
}

abbrev around : AgentOutside
around = record {
  files = files;
  load_skill = λ path disk. ok (record { name = "s"; body = "Do it." });
  directory_digest = λ path disk. ok "d";
  load_mcp_server = λ path disk. ok server;
  load_capability_record = λ path disk. ok search;
  load_model_profile = λ path disk. ok profile;
  load_persona = λ path disk. ok someone;
  file_digest = λ path disk. ok "d";
  retrieve_memory_context = λ query profile_ref. pure [];
  share_skill = λ skill path. pure tt;
  codex_scratch_home = λ skills. pure "home";
  resolve_secrets = λ servers w. ok end;
  renderer = λ actor. none;
  write_rendered = λ rendered. pure "home";
  content_digest = λ text. text;
  action_digest = λ action. action.kind;
  json_digest = λ d. "d";
  json_text = λ d. "{}";
}

abbrev none_found : Servers around
none_found = record { servers = []; refs_with_digest = nil }

abbrev found : Servers around
found =
    elim (resolve_mcp_servers around "r" "s" "copilot" ("search@1" ∷ []) ("github@1" ∷ [])
      (indexed TrustStatus.trusted)).0 [ ok servers ↦ servers | err e ↦ none_found ]

abbrev call : AgentCall
call = record {
  step_id = "s";
  run_id = "r";
  invocation = record {
    objective = "Fix it.";
    inputs = end;
    workspace_root = "/w";
    capabilities = [];
    skills = [];
    constraints = end;
    completion_contract = "";
    trace_context = end;
  };
  capability = some capability;
  agent_allowlist = none;
  role = none;
  actor = "copilot";
  voice = none;
  instructions = "";
  mcp_refs = "github@1" ∷ [];
  skill_refs = [];
  persona_ref = none;
  model_profile_ref = none;
  has_repo = true;
  repo_root = "/r";
}

abbrev adapter : AgentInvocation → M AgentResult
adapter invocation = pure (record {
  status = AgentStatus.completed;
  output = end;
  artifact_candidates = [];
  findings = nil;
  usage = end;
  termination_reason = "done";
})

open_step : is_cached around call (with_step StepStatus.pending) ≡ false
unfolding Table.get Table.insert_new Table.empty
open_step = refl

no_approval : approval_of_step "s" (with_step StepStatus.pending) ≡ none
unfolding Table.find Table.empty
no_approval = refl

none_expired : Unexpired "s" (with_step StepStatus.pending)
none_expired k r e = absurd (cc (no_approval, e))

run_agent_step-Approved_example :
    Approved around call capability (with_step StepStatus.pending)
    ⊎ IgnoresBoth around call capability (with_step StepStatus.pending)
run_agent_step-Approved_example =
    run_agent_step-Approved around call capability (with_step StepStatus.pending) refl open_step
      none_expired

run_agent_step-CommitsLast_example :
    IgnoresCommit around (record call { capability = none }) adapter (with_step StepStatus.pending)
    ⊎ CommitsLast around (record call { capability = none }) adapter (with_step StepStatus.pending)
run_agent_step-CommitsLast_example =
    run_agent_step-CommitsLast around (record call { capability = none }) adapter
      (with_step StepStatus.pending) (λ q p v h. h) (λ i v h. h)
