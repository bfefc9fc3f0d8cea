-- ===== src/Agents/Step.antt =====
-- run_agent_step. The adapter is a parameter, which may write to the database through its hook, and
-- so is the commit of the worktree.
pub mod Guarded
pub mod Lookups
pub mod Rows
pub mod Renders
pub mod Calls
pub mod Commits
use jarvis_awf.Prelude.{
  ℕ, String, ◌<>◌, Bool, true, false, not, ◌&&◌, Option, none, some, List, [], ◌∷◌, ◌==◌, ltb,
  if◌then◌else◌,
}
use jarvis_awf.Prelude.Table
use jarvis_awf.Prelude.Text.{is_blank, text_length, text_take}
use jarvis_awf.Json.{Value, null, str, arr, obj, Items, Dict, end, field, get, put, text_items}
use jarvis_awf.Exec.{Exn, Result, Exec, pure, raise, gets, ◌>>=◌, ◌>>◌}
use jarvis_awf.Database.{World, M, Step, is_succeeded, on_disk}
use jarvis_awf.Registry.Capability.{CapabilityRecord, ref}
use jarvis_awf.Engine.Executor.{run_step}
use jarvis_awf.Gates.Artifacts.{write_artifact}
use jarvis_awf.Agents.{
  AgentInvocation, AgentResult, AgentOutside, SkillRef, is_completed, status_value,
  failure_of_status, step_error,
}
use jarvis_awf.Agents.Authorize.{authorize_agent_or_wait}
use jarvis_awf.Agents.Profiles.{resolve_persona, apply_model_profile}
use jarvis_awf.Agents.Skills.{apply_skills}
use jarvis_awf.Agents.Servers.{apply_mcp}

-- the arguments of run_agent_step beyond the adapter
pub record AgentCall : Type 0 where
  pub step_id : String
  pub run_id : String
  pub invocation : AgentInvocation
  pub capability : Option CapabilityRecord
  pub agent_allowlist : Option (List String)
  pub role : Option String
  pub actor : String
  pub voice : Option String
  pub instructions : String
  pub mcp_refs : List String
  pub skill_refs : List SkillRef
  pub persona_ref : Option String
  pub model_profile_ref : Option String
  -- `repo_root is not None`
  pub has_repo : Bool
  pub repo_root : String

abbrev max_agent_result_text_chars : ℕ
max_agent_result_text_chars = 8192

abbrev text_or : Option Value → String → String
text_or (some (str s)) other = if is_blank s then other else s
text_or _ other = other

abbrev or_json : (Dict → String) → Dict → String
or_json json_text end = ""
or_json json_text (field k v d) = json_text (field k v d)

first_text : List String → Dict → String → String
first_text [] output other = other
first_text (k ∷ ks) output other =
    let rest = first_text ks output other in text_or (get k output) rest

abbrev optional_text : Option String → Value
optional_text none = null
optional_text (some s) = str s

-- the refs that the adapter's hook may allow
abbrev pub granted_refs : AgentCall → List String
granted_refs c = elim c.agent_allowlist [
  | some refs ↦ refs
  | none ↦ elim c.capability [ none ↦ [] | some capability ↦ ref capability ∷ [] ]
]

module _ (out : AgentOutside) where
  -- _result_text
  unfoldable pub result_text : AgentResult → String
  unfolding first_text
  result_text r =
      first_text ("result_text" ∷ "result" ∷ "response" ∷ "text" ∷ "message" ∷ []) r.output
        (or_json out.json_text r.output)

  abbrev short_output : AgentResult → Dict
  short_output r = field "status" (str (status_value r.status)) (
      field "termination_reason" (str r.termination_reason) (
        field "result_text" (str (text_take max_agent_result_text_chars (result_text r))) (
          field "usage" (obj r.usage) (
            field "findings" (arr r.findings)
              (field "artifact_candidates" (arr (text_items r.artifact_candidates)) end)))))

  abbrev full_output : AgentResult → Dict
  full_output r = field "result_text" (str (result_text r)) (
      field "output" (obj r.output) (
        field "usage" (obj r.usage) (
          field "findings" (arr r.findings)
            (field "artifact_candidates" (arr (text_items r.artifact_candidates)) end))))

  module _ (c : AgentCall) where
    -- _agent_output
    unfoldable pub agent_output : AgentResult → M Dict
    agent_output r =
        if ltb max_agent_result_text_chars (text_length (result_text r)) && c.has_repo
        then (write_artifact out.json_digest c.run_id c.step_id (full_output r) "report"
            >>= λ artifact_id. pure (put "output_artifact_id" (str artifact_id) (short_output r)))
        else pure (short_output r)

    abbrev pub with_voice : Dict → Dict
    with_voice output = elim c.voice [ none ↦ output | some voice ↦ put "voice" (str voice) output ]

    -- what follows the call of the adapter
    unfoldable pub after_adapter : AgentResult → M Dict
    after_adapter r =
        if not (is_completed r.status)
        then raise (step_error (failure_of_status r.status) "adapter did not complete")
        else (agent_output r >>= λ output. pure (with_voice output))

    abbrev guard_context : Dict
    guard_context = field "repo_root" (str c.repo_root) (
        field "run_id" (str c.run_id) (
          field "step_id" (str c.step_id) (
            field "actor" (str c.actor) (
              field "agent_allowlist" (arr (text_items (granted_refs c)))
                (field "role" (optional_text c.role) end)))))

    abbrev pub with_guard : AgentInvocation → AgentInvocation
    with_guard invocation =
        if c.has_repo
        then record invocation {
          trace_context = put "awf_guard" (obj guard_context) invocation.trace_context;
        }
        else invocation

    -- what the adapter is called with
    unfoldable pub build_invocation : M AgentInvocation
    build_invocation = resolve_persona out c.has_repo c.persona_ref >>= λ compiled.
        apply_skills out c.has_repo c.run_id c.step_id c.actor c.skill_refs compiled c.instructions
          c.invocation
        >>= apply_mcp out c.run_id c.step_id c.actor (granted_refs c) c.has_repo c.mcp_refs
        >>= apply_model_profile out c.has_repo c.model_profile_ref
        >>= λ modeled. pure (with_guard modeled)

    -- cached_before
    abbrev pub is_cached : World → Bool
    is_cached w = elim (Table.get c.step_id w.steps) [
      | none ↦ false
      | some row ↦ is_succeeded row.status
    ]

    module _ (adapter : AgentInvocation → M AgentResult) where
      -- fn
      unfoldable pub agent_fn : Dict → M Dict
      agent_fn payload = build_invocation >>= adapter >>= after_adapter

      module _ (commit : Exec ℕ String) where
        abbrev pub commit_output : Dict → M Dict
        commit_output output =
            on_disk commit >>= λ commit_sha. pure (put "commit_sha" (str commit_sha) output)

        abbrev pub run_fn : M Dict
        run_fn = run_step c.step_id c.run_id agent_fn end

        unfoldable pub after_authorize : Option Dict → M Dict
        after_authorize (some waiting) = pure waiting
        after_authorize none = run_fn >>= commit_output

        unfoldable pub unless_cached : Bool → M Dict
        unless_cached true = run_fn
        unless_cached false =
            authorize_agent_or_wait out c.run_id c.step_id c.actor c.role c.capability
              c.agent_allowlist c.invocation
            >>= after_authorize

        unfoldable pub run_agent_step : M Dict
        run_agent_step = gets is_cached >>= unless_cached
