-- ===== src/Gateway.antt =====
-- backend/src/awf/gateway/client.py. litellm, the secrets store, `urlparse`, jsonschema and the
-- reader of JSON are parameters, and so are the two files with the capabilities. A generation
-- parameter is a value of JSON. `conn` and `secret_key` are given or None.
pub mod Completion
use jarvis_awf.Prelude.{
  ℕ, String, ◌<>◌, Bool, true, false, not, ◌&&◌, ◌||◌, Option, none, some, List, [], ◌∷◌, ◌==◌,
  if◌then◌else◌, member,
}
use jarvis_awf.Prelude.Int.{ℤ, ltb_ℤ}
use jarvis_awf.Json.{Value, null, bool, num, str, arr, obj, Items, Dict, end, field, put}
use jarvis_awf.Json.Convert.{int_of}
use jarvis_awf.Exec.{
  Exn, Result, ok, err, plain, gateway_error, pure, raise, lift, attempt, ◌>>=◌, ◌>>◌,
}
use jarvis_awf.Database.{World, M}
use jarvis_awf.Registry.Capability.{CapabilityRecord}
use jarvis_awf.Registry.Profile.{
  Candidate, FallbackMode, no_fallback, ordered, ModelProfile, litellm_model,
  enabled_candidates_by_priority,
}
use jarvis_awf.Guard.{Decision, allow, deny, approval_required, Request, authorize}

abbrev pub llm_complete_capability_ref : String
llm_complete_capability_ref = "llm_complete@1.0.0"

-- what lies outside, but for the models
pub record Services : Type 0 where
  -- `urlparse(api_base).hostname or ""`
  pub hostname : String → String
  -- load_capability_record of a file under config/app_registry/capabilities
  pub load_capability : String → Result CapabilityRecord
  pub get_secret : String → M String
  -- `not content.strip()`
  pub is_blank : String → Bool
  pub loads : String → Result Value
  pub conforms : Value → Dict → Bool

-- the arguments of `complete` that say in whose name it asks
pub record Caller : Type 0 where
  pub has_conn : Bool
  pub has_secret_key : Bool
  pub run_id : Option String
  pub step_id : Option String
  pub actor : String
  pub agent_allowlist : Option (List String)

abbrev pub given : Option String → Bool
given none = false
given (some s) = not (s == "")

abbrev pub text_or_empty : Option String → String
text_or_empty none = ""
text_or_empty (some s) = s

-- `agent_allowlist or [LLM_COMPLETE_CAPABILITY_REF]`
abbrev pub allowlist_of : Option (List String) → List String
allowlist_of none = llm_complete_capability_ref ∷ []
allowlist_of (some []) = llm_complete_capability_ref ∷ []
allowlist_of (some (r ∷ rs)) = r ∷ rs

abbrev optional_text : Option String → Value
optional_text none = null
optional_text (some s) = str s

abbrev pub is_allow : Decision → Bool
is_allow allow = true
is_allow _ = false

abbrev pub is_ordered : FallbackMode → Bool
is_ordered ordered = true
is_ordered no_fallback = false

-- the generation parameters that pass under their own names
abbrev passed_on : List String
passed_on =
    "temperature" ∷ "top_p" ∷ "top_k" ∷ "stop" ∷ "presence_penalty" ∷ "frequency_penalty" ∷ []

module _ (out : Services) where
  unfoldable pub is_loopback_api_base : Option String → Bool
  is_loopback_api_base none = false
  is_loopback_api_base (some api_base) =
      not (api_base == "")
      && member (out.hostname api_base) ("127.0.0.1" ∷ "::1" ∷ "localhost" ∷ [])

  unfoldable pub is_local_candidate : Candidate → Bool
  is_local_candidate c = c.provider == "ollama" || is_loopback_api_base c.api_base

  abbrev pub capability_name : Candidate → String
  capability_name c = if is_local_candidate c then "llm_complete" else "hosted_llm_complete"

  -- _resolve_api_key
  unfoldable pub resolve_api_key : Caller → Candidate → M (Option String)
  resolve_api_key caller c = elim c.api_key_secret_name [
    | none ↦ pure none
    | some name ↦
        if not caller.has_conn || not caller.has_secret_key
        then raise (plain gateway_error "no secrets connection/key was provided")
        else (out.get_secret name >>= λ key. pure (some key))
  ]

  abbrev pub request_of : Caller → Candidate → String → Request
  request_of caller c run_id = record {
    agent_allowlist = allowlist_of caller.agent_allowlist;
    run_id = run_id;
    actor = caller.actor;
    step_id = caller.step_id;
    role = none;
    payload_extra = field "provider" (str c.provider) (
        field "model" (str c.model) (
          field "api_base" (optional_text c.api_base)
            (field "loopback" (bool (is_loopback_api_base c.api_base)) end)));
  }

  -- without a run only a local model is asked
  unfoldable pub only_local : Candidate → M Unit
  only_local c =
      if is_local_candidate c
      then pure tt
      else raise (plain gateway_error "remote model completion requires an AWF run context")

  unfoldable pub must_allow : Decision → M Unit
  must_allow decision =
      if is_allow decision
      then pure tt
      else raise (plain gateway_error "model completion blocked by Capability Guard")

  unfoldable pub guarded : Caller → Candidate → String → M Unit
  guarded caller c run_id = lift (out.load_capability (capability_name c)) >>= λ capability.
      authorize capability (request_of caller c run_id) >>= must_allow

  -- _authorize_completion_call
  unfoldable pub authorize_completion_call : Caller → Candidate → M Unit
  authorize_completion_call caller c =
      if not caller.has_conn
      then only_local c
      else if not (given caller.run_id)
      then only_local c
      else guarded caller c (text_or_empty caller.run_id)

  abbrev with_default_key : Candidate → Dict → Dict
  with_default_key c d =
      if c.provider == "openai" && is_loopback_api_base c.api_base
      then put "api_key" (str "local-dev") d
      else d

  -- `kwargs["api_key"]`
  abbrev with_api_key : Candidate → Option String → Dict → Dict
  with_api_key c none d = with_default_key c d
  with_api_key c (some key) d =
      if not (key == "") then put "api_key" (str key) d else with_default_key c d

  abbrev with_api_base : Candidate → Dict → Dict
  with_api_base c d = if given c.api_base then put "api_base" (optional_text c.api_base) d else d

  abbrev pub min_ℤ : ℤ → ℤ → ℤ
  min_ℤ a b = if ltb_ℤ b a then b else a

  -- one generation parameter
  abbrev with_parameter : ℤ → String → Value → Dict → Result Dict
  with_parameter limit key value d =
      if key == "max_tokens"
      then elim (int_of value) [
        | err e ↦ err e
        | ok z ↦ ok (put "max_tokens" (num (min_ℤ z limit)) d)
      ]
      else if member key passed_on
      then ok (put key value d)
      else if key == "repeat_penalty"
      then ok (put "frequency_penalty" value d)
      else ok d

  unfoldable pub with_generation : ℤ → Dict → Dict → Result Dict
  with_generation limit end d = ok d
  with_generation limit (field key value rest) d = elim (with_parameter limit key value d) [
    | err e ↦ err e
    | ok x ↦ with_generation limit rest x
  ]

  -- _candidate_kwargs, with the messages behind it
  unfoldable pub candidate_kwargs : ModelProfile → Candidate → Option String → Dict → Result Dict
  candidate_kwargs p c api_key generation =
      with_generation p.limits.max_output_tokens_per_call generation (
        with_api_key c api_key (
          with_api_base c (
            field "model" (str (litellm_model c)) (
              field "messages" null
                (field "max_tokens" (num p.limits.max_output_tokens_per_call) end)))))
