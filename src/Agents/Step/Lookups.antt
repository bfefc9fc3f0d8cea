-- ===== src/Agents/Step/Lookups.antt =====
-- Looking up the persona and the model profile of an agent step writes no row of the table of steps.
use jarvis_awf.Prelude.{String, Bool, not, ◌||◌, Option, none, some, List, [], ◌∷◌, ◌==◌}
use jarvis_awf.Prelude.Table.{Table}
use jarvis_awf.Prelude.Text.{partition}
use jarvis_awf.Exec.{invalid_input, pure, raise, ◌>>=◌}
use jarvis_awf.Exec.Inversion.{>>=-Preserves}
use jarvis_awf.Exec.Preservation.{if-Preserves}
use jarvis_awf.Database.{World, M, Step}
use jarvis_awf.Registry.Profile.{Candidate, enabled_candidates_by_priority}
use jarvis_awf.Registry.Resolve.{resolve_registry_object}
use jarvis_awf.Registry.Resolve.Reads.{Keeps, disk-Keeps, resolve_registry_object-Keeps}
use jarvis_awf.Cognition.Personas.{compile_persona}
use jarvis_awf.Agents.{AgentInvocation, AgentOutside, step_error}
use jarvis_awf.Agents.Profiles.{
  name_of, version_of, compile_at, persona_at, resolve_persona, with_model, with_profile,
  apply_model_profile,
}

module _ (Q : Table Step → Type 0) (out : AgentOutside) where
  abbrev pub On : World → Type 0
  On w = Q w.steps

  abbrev pub KeepsRows : {A : Type 0} → M A → Type 0
  KeepsRows m = Keeps On m

  pub persona-Keeps :
      (has_repo : Bool) (ref : Option String) → KeepsRows (resolve_persona out has_repo ref)
  unfolding resolve_persona persona_at compile_at
  persona-Keeps has_repo none = λ w h. h
  persona-Keeps has_repo (some ref) =
      if-Preserves On (ref == "" || not has_repo) (pure none)
        (persona_at out has_repo (partition b'@' ref)) (λ w h. h) (parts (partition b'@' ref))
    where
      parts : (p : String × Bool × String) → KeepsRows (persona_at out has_repo p)
      parts (name, sep, version) =
          if-Preserves On _
            (raise (step_error invalid_input "persona ref must be '<name>@<version>'"))
            (resolve_registry_object out.files "personas" name version >>= compile_at out has_repo)
            (λ w h. h)
            (>>=-Preserves On (resolve_registry_object out.files "personas" name version)
              (compile_at out has_repo)
              (resolve_registry_object-Keeps On out.files "personas" name version)
              (λ path.
                disk-Keeps On (out.load_persona path) (λ p. pure (some (compile_persona p)))
                  (λ p w h. h)))

  pub model-Keeps :
      (has_repo : Bool) (ref : Option String) (i : AgentInvocation)
      → KeepsRows (apply_model_profile out has_repo ref i)
  unfolding apply_model_profile with_profile with_model
  model-Keeps has_repo none i = λ w h. h
  model-Keeps has_repo (some ref) i =
      if-Preserves On (ref == "" || not has_repo) (pure i)
        (resolve_registry_object out.files "model-profiles" (name_of ref) (version_of ref)
          >>= with_profile out has_repo i)
        (λ w h. h)
        (>>=-Preserves On
          (resolve_registry_object out.files "model-profiles" (name_of ref) (version_of ref))
          (with_profile out has_repo i)
          (resolve_registry_object-Keeps On out.files "model-profiles" (name_of ref)
            (version_of ref))
          (λ path.
            disk-Keeps On (out.load_model_profile path)
              (λ p. with_model out has_repo i (enabled_candidates_by_priority p))
              (λ p. chosen (enabled_candidates_by_priority p))))
    where
      chosen : (cs : List Candidate) → KeepsRows (with_model out has_repo i cs)
      chosen [] = λ w h. h
      chosen (c ∷ cs) = λ w h. h
