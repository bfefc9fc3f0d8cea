-- ===== src/Gateway/Completion.antt =====
-- `complete` and `complete_structured` of backend/src/awf/gateway/client.py. `completion` takes the
-- arguments of `litellm.completion` and gives the content of the first choice.
pub mod Calls
pub mod Answers
use jarvis_awf.Prelude.{
  String, Bool, true, false, not, ◌&&◌, ◌||◌, Option, none, some, List, [], ◌∷◌, if◌then◌else◌,
}
use jarvis_awf.Json.{Value, bool, str, obj, Items, Dict, end, field, put}
use jarvis_awf.Exec.{
  Exn, Result, ok, err, plain, gateway_error, value_error, pure, raise, lift, attempt, ◌>>=◌, ◌>>◌,
}
use jarvis_awf.Database.{World, M}
use jarvis_awf.Registry.Profile.{Candidate, ModelProfile, enabled_candidates_by_priority}
use jarvis_awf.Gateway.{
  Services, Caller, is_ordered, authorize_completion_call, resolve_api_key, candidate_kwargs,
}

abbrev all_failed : Exn
all_failed = plain gateway_error "all candidates failed"

module _ (out : Services) (p : ModelProfile) (caller : Caller) (generation : Dict) where
  -- what precedes the `try` for a candidate
  unfoldable pub prepare : Candidate → M Dict
  prepare c = do
    authorize_completion_call out caller c
    api_key ← resolve_api_key out caller c
    lift (candidate_kwargs out p c api_key generation)

  -- a candidate answered, or the next one is tried if the profile says so
  unfoldable pub after_try : M Value → Result Value → M Value
  after_try rest (ok content) = pure content
  after_try rest (err exc) = if not (is_ordered p.fallback.mode) then raise exc else rest

  -- the loop over the candidates; `ask` is the body of the `try`
  unfoldable pub try_candidates : (Dict → M Value) → List Candidate → M Value
  try_candidates ask [] = raise all_failed
  try_candidates ask (c ∷ cs) =
      prepare c >>= λ kwargs. attempt (ask kwargs) >>= after_try (try_candidates ask cs)

  abbrev pub try_enabled : (Dict → M Value) → List Candidate → M Value
  try_enabled ask [] = raise (plain gateway_error "model profile has no enabled candidates")
  try_enabled ask (c ∷ cs) = try_candidates ask (c ∷ cs)

  module _ (completion : Dict → M Value) where
    abbrev pub ask_text : Value → Dict → M Value
    ask_text messages kwargs = completion (put "messages" messages kwargs)

    unfoldable pub complete : Value → M Value
    complete messages = try_enabled (ask_text messages) (enabled_candidates_by_priority p)

    abbrev pub response_format : String → Dict → Value
    response_format schema_name schema = obj (
        field "type" (str "json_schema") (
          field "json_schema"
            (obj (
              field "name" (str schema_name)
                (field "schema" (obj schema) (field "strict" (bool true) end))))
            end))

    unfoldable pub checked_payload : Dict → Value → Result Value
    checked_payload schema payload =
        if out.conforms payload schema
        then ok payload
        else err (plain value_error "the payload does not match the schema")

    -- the text of an answer, read and validated
    unfoldable pub read_content : Dict → Value → Result Value
    read_content schema (str content) =
        if out.is_blank content
        then err (plain gateway_error "structured completion returned empty content")
        else elim (out.loads content) [
          | err e ↦ err e
          | ok payload ↦ checked_payload schema payload
        ]
    read_content schema _ = err (plain gateway_error "structured completion returned empty content")

    unfoldable pub ask_structured : Value → String → Dict → Dict → M Value
    ask_structured messages schema_name schema kwargs =
        completion (
          put "response_format" (response_format schema_name schema)
            (put "messages" messages kwargs))
        >>= λ content. lift (read_content schema content)

    unfoldable pub complete_structured : Value → String → Dict → M Value
    complete_structured messages schema_name schema =
        try_enabled (ask_structured messages schema_name schema) (enabled_candidates_by_priority p)
