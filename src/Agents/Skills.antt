-- ===== src/Agents/Skills.antt =====
-- The skills of an agent step, and the objective that they and the memory make.
use jarvis_awf.Prelude.{
  String, Bool, true, false, not, ◌&&◌, Option, none, some, List, [], ◌∷◌, ◌++◌, map, ◌==◌, select,
  if◌then◌else◌,
}
use jarvis_awf.Prelude.Text.{is_blank}
use jarvis_awf.Json.{
  bool, str, arr, obj, Items, nil, cons, Dict, end, field, get, get_or, put, as_text,
}
use jarvis_awf.Json.Convert.{dict_of}
use jarvis_awf.Exec.{Result, ok, err, pure, lift, gets, attempt, ◌>>=◌, ◌>>◌}
use jarvis_awf.Database.{M, ObjectPath, read_disk, on_disk, EventArgs, write_event}
use jarvis_awf.Registry.Resolve.{resolve_registry_object}
use jarvis_awf.Cognition.Prompts.{
  PromptSegment, application, persona, skill, user, instruction, style, input, render_flat,
}
use jarvis_awf.Cognition.Personas.{CompiledPersona}
use jarvis_awf.Agents.{AgentInvocation, AgentOutside, SkillRef, Skill}
use jarvis_awf.Agents.Profiles.{is_trusted, name_of, version_of}

pub record ResolvedSkill : Type 0 where
  pub ref : SkillRef
  pub skill : Skill
  pub digest : String
  pub path : ObjectPath

abbrev pub is_shared : ResolvedSkill → Bool
is_shared r = r.ref.share

abbrev filled : PromptSegment → List PromptSegment
filled s = if is_blank s.text then [] else s ∷ []

abbrev persona_segments : Option CompiledPersona → List PromptSegment
persona_segments none = []
persona_segments (some p) =
    filled
      (record { authority = persona; content_type = style; trusted = true; text = p.system_text })

abbrev skill_segments : List ResolvedSkill → List PromptSegment
skill_segments [] = []
skill_segments (r ∷ rs) =
    filled (record {
      authority = skill;
      content_type = instruction;
      trusted = false;
      text = r.skill.body;
    })
    ++ skill_segments rs

abbrev user_segments : String → List PromptSegment
user_segments objective =
    filled (record { authority = user; content_type = input; trusted = false; text = objective })

abbrev pub skill_refs_json : List ResolvedSkill → Items
skill_refs_json [] = nil
skill_refs_json (r ∷ rs) =
    cons
      (obj (
        field "ref" (str r.ref.ref)
          (field "digest" (str r.digest) (field "shared" (bool r.ref.share) end))))
      (skill_refs_json rs)

module _ (out : AgentOutside) (has_repo : Bool) where
  unfoldable pub load_at : SkillRef → ObjectPath → M ResolvedSkill
  load_at ref path = read_disk (out.load_skill path) >>= λ skill.
      read_disk (out.directory_digest path) >>= λ digest.
      pure (record { ref = ref; skill = skill; digest = digest; path = path })

  -- the loop of _resolve_skills; a skill that is not trusted is passed over
  unfoldable pub resolve_skills : List SkillRef → M (List ResolvedSkill)
  resolve_skills [] = pure []
  resolve_skills (ref ∷ refs) =
      let rest = resolve_skills refs in
      resolve_registry_object out.files "skills" (name_of ref.ref) (version_of ref.ref) >>= λ path.
      gets (is_trusted path) >>= λ trusted.
      if trusted
      then (load_at ref path >>= λ found. rest >>= λ others. pure (found ∷ others))
      else rest

  module _ (run_id step_id actor : String) where
    abbrev pub agent_args : String → Dict → EventArgs
    agent_args code payload = record {
      run = run_id;
      step = some step_id;
      prior = none;
      status = code;
      actor = actor;
      reason = code;
      payload = payload;
    }

    -- `str(constraints.get("memory_profile_ref") or "default@1.0.0")`, of a text
    abbrev pub memory_profile_of : AgentInvocation → String
    memory_profile_of invocation =
        elim (as_text (get "memory_profile_ref" invocation.constraints)) [
          | none ↦ "default@1.0.0"
          | some ref ↦ if ref == "" then "default@1.0.0" else ref
        ]

    unfoldable pub memory_or_skip : String → Result (List PromptSegment) → M (List PromptSegment)
    memory_or_skip profile_ref (ok segments) = pure segments
    memory_or_skip profile_ref (err exc) =
        write_event (
          agent_args "memory_retrieval_skipped"
            (field "profile_ref" (str profile_ref) (field "error" (str exc.text) end)))
        >> pure []

    unfoldable pub memory_segments : AgentInvocation → M (List PromptSegment)
    memory_segments invocation =
        if has_repo && not (is_blank invocation.objective)
        then (attempt
              (out.retrieve_memory_context invocation.objective (memory_profile_of invocation))
            >>= memory_or_skip (memory_profile_of invocation))
        else pure []

    unfoldable pub share_skills : List ResolvedSkill → M Unit
    share_skills [] = pure tt
    share_skills (r ∷ rs) = on_disk (out.share_skill r.skill r.path) >> share_skills rs

    abbrev pub overlay : Dict → String → Dict → Dict
    overlay constraints home d =
        put "skill_env_overlay" (obj (put "CODEX_HOME" (str home) d)) constraints

    unfoldable pub with_codex_home : Dict → List ResolvedSkill → M Dict
    with_codex_home constraints [] = pure constraints
    with_codex_home constraints (r ∷ rs) =
        if actor == "codex"
        then (on_disk (out.codex_scratch_home (map (λ s. s.skill) (r ∷ rs))) >>= λ home.
            lift (dict_of (get_or "skill_env_overlay" (obj end) constraints)) >>= λ d.
            pure (overlay constraints home d))
        else pure constraints

    abbrev pub objective_of :
        String
        → Option CompiledPersona
        → List ResolvedSkill
        → List PromptSegment
        → AgentInvocation
        → String
    objective_of instructions compiled resolved memory invocation = render_flat (record {
      segments =
          filled (record {
            authority = application;
            content_type = instruction;
            trusted = true;
            text = instructions;
          })
          ++ (persona_segments compiled
              ++ (skill_segments resolved ++ (memory ++ user_segments invocation.objective)));
      example_messages = elim compiled [ none ↦ [] | some p ↦ p.example_messages ];
      generation = elim compiled [ none ↦ end | some p ↦ p.generation ];
    })

    -- `if resolved:` and what follows it
    unfoldable pub with_skills : AgentInvocation → String → List ResolvedSkill → M AgentInvocation
    with_skills invocation objective [] =
        if objective == invocation.objective
        then pure invocation
        else pure (record invocation { objective = objective })
    with_skills invocation objective (r ∷ rs) = do
      share_skills (select is_shared (r ∷ rs))
      constraints ← with_codex_home invocation.constraints (select is_shared (r ∷ rs))
      write_event
          (agent_args "skills_resolved" (field "skills" (arr (skill_refs_json (r ∷ rs))) end))
      pure (record invocation {
        objective = objective;
        skills = map (λ s. s.ref.ref) (r ∷ rs);
        constraints = constraints;
      })

    unfoldable pub resolved_skills : List SkillRef → M (List ResolvedSkill)
    resolved_skills refs = if has_repo then resolve_skills refs else pure []

    -- _apply_skills
    unfoldable pub apply_skills :
        List SkillRef → Option CompiledPersona → String → AgentInvocation → M AgentInvocation
    apply_skills refs compiled instructions invocation = resolved_skills refs >>= λ resolved.
        memory_segments invocation >>= λ memory.
        with_skills invocation (objective_of instructions compiled resolved memory invocation)
          resolved
