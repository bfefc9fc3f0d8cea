-- ===== src/Agents/Step/Rows.antt =====
-- Applying the skills of an agent step writes no row of the table of steps.
use jarvis_awf.Prelude.{
  String, Bool, not, ◌&&◌, Option, List, [], ◌∷◌, map, ◌==◌, select, if◌then◌else◌,
}
use jarvis_awf.Prelude.Table.{Table}
use jarvis_awf.Prelude.Text.{is_blank}
use jarvis_awf.Json.{arr, field, Dict, obj, end, get_or}
use jarvis_awf.Json.Convert.{dict_of}
use jarvis_awf.Exec.{Result, ok, err, pure, lift, gets, attempt, ◌>>=◌, ◌>>◌}
use jarvis_awf.Exec.Inversion.{>>=-Preserves}
use jarvis_awf.Exec.Preservation.{if-Preserves, lift-Preserves, read-Preserves}
use jarvis_awf.Database.{M, Step, ObjectPath, read_disk, on_disk, write_event}
use jarvis_awf.Registry.Resolve.{resolve_registry_object}
use jarvis_awf.Registry.Resolve.Reads.{disk-Keeps, resolve_registry_object-Keeps}
use jarvis_awf.Cognition.Prompts.{PromptSegment}
use jarvis_awf.Cognition.Personas.{CompiledPersona}
use jarvis_awf.Agents.{AgentInvocation, AgentOutside, SkillRef}
use jarvis_awf.Agents.Profiles.{is_trusted, name_of, version_of}
use jarvis_awf.Agents.Skills.{
  agent_args, memory_profile_of, overlay, objective_of, skill_refs_json, ResolvedSkill, is_shared,
  load_at, resolve_skills, memory_or_skip, memory_segments, share_skills, with_codex_home,
  with_skills, resolved_skills, apply_skills,
}
use jarvis_awf.Agents.Step.{AgentCall}
use jarvis_awf.Agents.Step.Lookups.{On, KeepsRows}

module _ (Q : Table Step → Type 0) (out : AgentOutside) where
  load-Keeps :
      (has_repo : Bool) (ref : SkillRef) (path : ObjectPath)
      → KeepsRows Q out (load_at out has_repo ref path)
  unfolding load_at
  load-Keeps has_repo ref path =
      disk-Keeps (On Q out) (out.load_skill path)
        (λ skill. read_disk (out.directory_digest path) >>= λ digest.
          pure (record { ref = ref; skill = skill; digest = digest; path = path }))
        (λ skill.
          disk-Keeps (On Q out) (out.directory_digest path)
            (λ digest. pure (record { ref = ref; skill = skill; digest = digest; path = path }))
            (λ d w h. h))

  skills-Keeps :
      (has_repo : Bool) (refs : List SkillRef) → KeepsRows Q out (resolve_skills out has_repo refs)
  unfolding resolve_skills
  skills-Keeps has_repo [] = λ w h. h
  skills-Keeps has_repo (ref ∷ refs) =
      >>=-Preserves (On Q out)
        (resolve_registry_object out.files "skills" (name_of ref.ref) (version_of ref.ref)) on_found
        (resolve_registry_object-Keeps (On Q out) out.files "skills" (name_of ref.ref)
          (version_of ref.ref))
        (λ path. read-Preserves (On Q out) (is_trusted path) (on_trusted path) (λ b.
          if-Preserves (On Q out) b (loaded path) (resolve_skills out has_repo refs)
            (>>=-Preserves (On Q out) (load_at out has_repo ref path) with_others
              (load-Keeps has_repo ref path)
              (λ found.
                >>=-Preserves (On Q out) (resolve_skills out has_repo refs)
                  (λ others. pure (found ∷ others)) (skills-Keeps has_repo refs) (λ o w h. h)))
            (skills-Keeps has_repo refs)))
    where
      with_others : ResolvedSkill → M (List ResolvedSkill)
      with_others found = resolve_skills out has_repo refs >>= λ others. pure (found ∷ others)

      loaded : ObjectPath → M (List ResolvedSkill)
      loaded path = load_at out has_repo ref path >>= with_others

      on_trusted : ObjectPath → Bool → M (List ResolvedSkill)
      on_trusted path b = if b then loaded path else resolve_skills out has_repo refs

      on_found : ObjectPath → M (List ResolvedSkill)
      on_found path = gets (is_trusted path) >>= on_trusted path

  module _ (c : AgentCall)
      (memory-Keeps : (q p : String) → KeepsRows Q out (out.retrieve_memory_context q p)) where
    segments-Keeps :
        (i : AgentInvocation)
        → KeepsRows Q out (memory_segments out c.has_repo c.run_id c.step_id c.actor i)
    unfolding memory_segments memory_or_skip
    segments-Keeps i =
        if-Preserves (On Q out) (c.has_repo && not (is_blank i.objective)) (attempt asked >>= after)
          (pure []) retrieved (λ w h. h)
      where
        profile : String
        profile = memory_profile_of out c.has_repo c.run_id c.step_id c.actor i

        asked : M (List PromptSegment)
        asked = out.retrieve_memory_context i.objective profile

        after : Result (List PromptSegment) → M (List PromptSegment)
        after = memory_or_skip out c.has_repo c.run_id c.step_id c.actor profile

        after-Keeps : (r : Result (List PromptSegment)) → KeepsRows Q out (after r)
        after-Keeps (ok s) = λ w h. h
        after-Keeps (err e) = λ w h. h

        retrieved : KeepsRows Q out (attempt asked >>= after)
        retrieved =
            >>=-Preserves (On Q out) (attempt asked) after (memory-Keeps i.objective profile)
              after-Keeps

    share-Keeps :
        (rs : List ResolvedSkill)
        → KeepsRows Q out (share_skills out c.has_repo c.run_id c.step_id c.actor rs)
    unfolding share_skills
    share-Keeps [] = λ w h. h
    share-Keeps (r ∷ rs) =
        >>=-Preserves (On Q out) (on_disk (out.share_skill r.skill r.path))
          (λ u. share_skills out c.has_repo c.run_id c.step_id c.actor rs) (λ w h. h)
          (λ u. share-Keeps rs)

    home-Keeps :
        (d : Dict) (rs : List ResolvedSkill)
        → KeepsRows Q out (with_codex_home out c.has_repo c.run_id c.step_id c.actor d rs)
    unfolding with_codex_home
    home-Keeps d [] = λ w h. h
    home-Keeps d (r ∷ rs) =
        if-Preserves (On Q out) (c.actor == "codex") (made >>= env) (pure d)
          (>>=-Preserves (On Q out) made env (λ w h. h)
            (λ home.
              >>=-Preserves (On Q out) (lift overlaid)
                (λ e. pure (overlay out c.has_repo c.run_id c.step_id c.actor d home e))
                (lift-Preserves (On Q out) overlaid) (λ e w h. h)))
          (λ w h. h)
      where
        made : M String
        made = on_disk (out.codex_scratch_home (map (λ s. s.skill) (r ∷ rs)))

        overlaid : Result Dict
        overlaid = dict_of (get_or "skill_env_overlay" (obj end) d)

        env : String → M Dict
        env home =
            lift overlaid >>= λ e. pure (overlay out c.has_repo c.run_id c.step_id c.actor d home e)

    with_skills-Keeps :
        (i : AgentInvocation) (objective : String) (rs : List ResolvedSkill)
        → KeepsRows Q out (with_skills out c.has_repo c.run_id c.step_id c.actor i objective rs)
    unfolding with_skills
    with_skills-Keeps i objective [] =
        if-Preserves (On Q out) (objective == i.objective) (pure i)
          (pure (record i { objective = objective })) (λ w h. h) (λ w h. h)
    with_skills-Keeps i objective (r ∷ rs) =
        >>=-Preserves (On Q out) (share_skills out c.has_repo c.run_id c.step_id c.actor shared)
          (λ u. home >>= finish) (share-Keeps shared)
          (λ u. >>=-Preserves (On Q out) home finish (home-Keeps i.constraints shared) (λ d w h. h))
      where
        shared : List ResolvedSkill
        shared = select is_shared (r ∷ rs)

        home : M Dict
        home = with_codex_home out c.has_repo c.run_id c.step_id c.actor i.constraints shared

        finish : Dict → M AgentInvocation
        finish constraints =
            write_event (
              agent_args out c.has_repo c.run_id c.step_id c.actor "skills_resolved"
                (field "skills" (arr (skill_refs_json (r ∷ rs))) end))
            >> pure (record i {
              objective = objective;
              skills = map (λ s. s.ref.ref) (r ∷ rs);
              constraints = constraints;
            })

    pub apply_skills-Keeps :
        (refs : List SkillRef) (compiled : Option CompiledPersona) (instructions : String)
        (i : AgentInvocation)
        → KeepsRows Q out
            (apply_skills out c.has_repo c.run_id c.step_id c.actor refs compiled instructions i)
    unfolding apply_skills resolved_skills
    apply_skills-Keeps refs compiled instructions i =
        >>=-Preserves (On Q out) (resolved_skills out c.has_repo c.run_id c.step_id c.actor refs)
          (λ rs. memory >>= with_memory rs)
          (if-Preserves (On Q out) c.has_repo (resolve_skills out c.has_repo refs) (pure [])
            (skills-Keeps c.has_repo refs) (λ w h. h))
          (λ rs. >>=-Preserves (On Q out) memory (with_memory rs) (segments-Keeps i) (λ m.
            with_skills-Keeps i
              (objective_of out c.has_repo c.run_id c.step_id c.actor instructions compiled rs m i)
              rs))
      where
        memory : M (List PromptSegment)
        memory = memory_segments out c.has_repo c.run_id c.step_id c.actor i

        with_memory : List ResolvedSkill → List PromptSegment → M AgentInvocation
        with_memory rs m =
            with_skills out c.has_repo c.run_id c.step_id c.actor i
              (objective_of out c.has_repo c.run_id c.step_id c.actor instructions compiled rs m i)
              rs
