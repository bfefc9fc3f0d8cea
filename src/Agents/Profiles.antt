-- ===== src/Agents/Profiles.antt =====
-- The refs of an agent step, its persona and its model profile.
use jarvis_awf.Prelude.{
  String, Bool, true, false, not, ◌||◌, Option, none, some, List, [], ◌∷◌, ◌==◌, if◌then◌else◌,
}
use jarvis_awf.Prelude.Text.{partition}
use jarvis_awf.Json.{str, put}
use jarvis_awf.Exec.{invalid_input, pure, raise, ◌>>=◌}
use jarvis_awf.Database.{
  World, M, config, data_dir, TrustStatus, quarantined, blocked, ObjectPath, IndexRow, read_disk,
}
use jarvis_awf.Registry.Index.{index_row}
use jarvis_awf.Registry.Resolve.{resolve_registry_object}
use jarvis_awf.Registry.Profile.{Candidate, enabled_candidates_by_priority}
use jarvis_awf.Cognition.Personas.{CompiledPersona, compile_persona}
use jarvis_awf.Agents.{AgentInvocation, AgentOutside, step_error}

abbrev pub is_untrusted : Option TrustStatus → Bool
is_untrusted (some quarantined) = true
is_untrusted (some blocked) = true
is_untrusted _ = false

abbrev trusted_row : Option IndexRow → Bool
trusted_row none = true
trusted_row (some row) = not (is_untrusted row.trust_status)

-- _is_trusted
abbrev pub is_trusted : ObjectPath → World → Bool
is_trusted path w = elim path.source [
  | data_dir ↦ trusted_row (index_row path.kind path.name path.version w)
  | config ↦ true
]

-- the name and the version of a ref
abbrev pub name_of : String → String
name_of ref = (partition b'@' ref).0

abbrev pub version_of : String → String
version_of ref = (partition b'@' ref).2

module _ (out : AgentOutside) (has_repo : Bool) where
  unfoldable pub compile_at : ObjectPath → M (Option CompiledPersona)
  compile_at path = read_disk (out.load_persona path) >>= λ p. pure (some (compile_persona p))

  -- on the three parts of the ref
  unfoldable pub persona_at : String × Bool × String → M (Option CompiledPersona)
  persona_at (name, sep, version) =
      if not sep || name == "" || version == ""
      then raise (step_error invalid_input "persona ref must be '<name>@<version>'")
      else (resolve_registry_object out.files "personas" name version >>= compile_at)

  -- _resolve_persona
  unfoldable pub resolve_persona : Option String → M (Option CompiledPersona)
  resolve_persona none = pure none
  resolve_persona (some ref) =
      if ref == "" || not has_repo then pure none else persona_at (partition b'@' ref)

  -- _apply_model_profile
  unfoldable pub with_model : AgentInvocation → List Candidate → M AgentInvocation
  with_model invocation [] =
      raise (step_error invalid_input "model profile has no enabled candidates")
  with_model invocation (winner ∷ others) =
      let constraints =
        put "model_override_provider" (str winner.provider)
          (put "model_override" (str winner.model) invocation.constraints) in
      pure (record invocation {
        constraints = elim winner.api_key_secret_name [
          | none ↦ constraints
          | some secret ↦
              if secret == ""
              then constraints
              else put "api_key_secret_name" (str secret) constraints
        ];
      })

  unfoldable pub with_profile : AgentInvocation → ObjectPath → M AgentInvocation
  with_profile invocation path = read_disk (out.load_model_profile path) >>= λ profile.
      with_model invocation (enabled_candidates_by_priority profile)

  unfoldable pub apply_model_profile : Option String → AgentInvocation → M AgentInvocation
  apply_model_profile none invocation = pure invocation
  apply_model_profile (some ref) invocation =
      if ref == "" || not has_repo
      then pure invocation
      else (resolve_registry_object out.files "model-profiles" (name_of ref) (version_of ref)
          >>= with_profile invocation)
