-- ===== src/Agents/Step/Calls.antt =====
-- The function of an agent step leaves the table of steps to its adapter.
use jarvis_awf.Prelude.{String, not, Option}
use jarvis_awf.Prelude.Table.{Table}
use jarvis_awf.Json.{Dict}
use jarvis_awf.Exec.{pure, raise, ◌>>=◌}
use jarvis_awf.Exec.Inversion.{>>=-Preserves}
use jarvis_awf.Exec.Preservation.{if-Preserves}
use jarvis_awf.Database.{World, M, Step}
use jarvis_awf.Cognition.Personas.{CompiledPersona}
use jarvis_awf.Gates.Artifacts.{write_artifact}
use jarvis_awf.Agents.{
  AgentInvocation, AgentResult, AgentOutside, is_completed, failure_of_status, step_error,
}
use jarvis_awf.Agents.Profiles.{resolve_persona, apply_model_profile}
use jarvis_awf.Agents.Skills.{apply_skills}
use jarvis_awf.Agents.Servers.{apply_mcp}
use jarvis_awf.Agents.Step.{
  with_voice, with_guard, AgentCall, agent_output, after_adapter, granted_refs, build_invocation,
  agent_fn,
}
use jarvis_awf.Agents.Step.Lookups.{On, KeepsRows, persona-Keeps, model-Keeps}
use jarvis_awf.Agents.Step.Rows.{apply_skills-Keeps}
use jarvis_awf.Agents.Step.Renders.{apply_mcp-Keeps}

module _ (Q : Table Step → Type 0) (out : AgentOutside) where
  abbrev At : World → Type 0
  At = On Q out

  abbrev Rows : {A : Type 0} → M A → Type 0
  Rows m = KeepsRows Q out m

  module _ (c : AgentCall) where
    output-Keeps : (r : AgentResult) → Rows (agent_output out c r)
    unfolding agent_output write_artifact
    output-Keeps r = if-Preserves At _ _ _ (λ w h. h) (λ w h. h)

    adapted-Keeps : (r : AgentResult) → Rows (after_adapter out c r)
    unfolding after_adapter
    adapted-Keeps r =
        if-Preserves At (not (is_completed r.status))
          (raise (step_error (failure_of_status r.status) "adapter did not complete"))
          (agent_output out c r >>= voiced) (λ w h. h)
          (>>=-Preserves At (agent_output out c r) voiced (output-Keeps r) (λ o w h. h))
      where
        voiced : Dict → M Dict
        voiced output = pure (with_voice out c output)

    -- The function of the step writes no row of the table that its adapter and the memory do not write.
    pub agent_fn-Keeps :
        (adapter : AgentInvocation → M AgentResult)
        → ((q p : String) → Rows (out.retrieve_memory_context q p))
        → ((i : AgentInvocation) → Rows (adapter i))
        → (payload : Dict) → Rows (agent_fn out c adapter payload)
    unfolding agent_fn build_invocation
    agent_fn-Keeps adapter memory-Keeps adapter-Keeps payload =
        >>=-Preserves At (build_invocation out c >>= adapter) (after_adapter out c)
          (>>=-Preserves At (build_invocation out c) adapter built-Keeps adapter-Keeps)
          adapted-Keeps
      where
        skilled : Option CompiledPersona → M AgentInvocation
        skilled compiled =
            apply_skills out c.has_repo c.run_id c.step_id c.actor c.skill_refs compiled
              c.instructions c.invocation

        served : Option CompiledPersona → M AgentInvocation
        served compiled =
            skilled compiled
            >>= apply_mcp out c.run_id c.step_id c.actor (granted_refs c) c.has_repo c.mcp_refs

        modeled : Option CompiledPersona → M AgentInvocation
        modeled compiled =
            served compiled >>= apply_model_profile out c.has_repo c.model_profile_ref

        last : AgentInvocation → M AgentInvocation
        last i = pure (with_guard out c i)

        built-Keeps : Rows (build_invocation out c)
        built-Keeps =
            >>=-Preserves At (resolve_persona out c.has_repo c.persona_ref)
              (λ compiled. modeled compiled >>= last) (persona-Keeps Q out c.has_repo c.persona_ref)
              (λ compiled.
                >>=-Preserves At (modeled compiled) last
                  (>>=-Preserves At (served compiled)
                    (apply_model_profile out c.has_repo c.model_profile_ref)
                    (>>=-Preserves At (skilled compiled)
                      (apply_mcp out c.run_id c.step_id c.actor (granted_refs c) c.has_repo
                        c.mcp_refs)
                      (apply_skills-Keeps Q out c memory-Keeps c.skill_refs compiled c.instructions
                        c.invocation)
                      (apply_mcp-Keeps Q out c.run_id c.step_id c.actor (granted_refs c) c.has_repo
                        c.mcp_refs))
                    (model-Keeps Q out c.has_repo c.model_profile_ref))
                  (λ i w h. h))
