-- ===== src/Samples/Models.antt =====
-- A profile with a local and a hosted candidate, where the guard denies the hosted one.
use jarvis_awf.Prelude.{
  String, ◌≡◌, refl, sym, ap, ◌∙◌, not, Bool, true, false, Option, some, none, [], ◌∷◌, inl, inr,
  ◌==◌, if◌then◌else◌, select,
}
use jarvis_awf.Prelude.Int.{ℤ, pos}
use jarvis_awf.Json.{Value, null, num, str, arr, nil, Dict, field, end, get, put}
use jarvis_awf.Exec.{ok, err, plain, gateway_error, value_error, pure, raise}
use jarvis_awf.Exec.Inversion.{ok-injective}
use jarvis_awf.Database.{M}
use jarvis_awf.Registry.Profile.{
  Candidate, DataClass, FallbackMode, ModelProfile, insert_by_priority, sort_by_priority,
  enabled_candidates_by_priority,
}
use jarvis_awf.Registry.Profile.Order.{
  IsSorted, has_priority, enabled_candidates_by_priority-IsSorted,
}
use jarvis_awf.Guard.{allow, evaluate, bad_role}
use jarvis_awf.Gateway
use jarvis_awf.Gateway.Completion
use jarvis_awf.Gateway.Completion.Calls.{Agree, MayAsk, complete-MayAsk}
use jarvis_awf.Gateway.Completion.Answers.{complete_structured-conforms}
use jarvis_awf.Samples.{nothing, capability}

abbrev near : Candidate
near = record {
  provider = "ollama";
  model = "small";
  priority = pos 2;
  enabled = true;
  api_base = none;
  api_key_secret_name = none;
}

abbrev far : Candidate
far = record {
  provider = "openai";
  model = "large";
  priority = pos 1;
  enabled = true;
  api_base = none;
  api_key_secret_name = none;
}

abbrev profile : ModelProfile
profile = record {
  name = "general";
  version = "1.0.0";
  purpose = "coding";
  privacy = record { maximum_data_class = DataClass.internal; local_only = false };
  candidates = near ∷ far ∷ [];
  fallback = record { mode = FallbackMode.ordered; allow_quality_degrade = true };
  limits = record {
    max_input_tokens_per_call = pos 1000;
    max_output_tokens_per_call = pos 100;
    max_cost_usd_per_call = pos 1;
  };
}

enabled_candidates_by_priority-IsSorted_example :
    IsSorted (enabled_candidates_by_priority profile)
    × ((z : ℤ)
        → select (has_priority z) (enabled_candidates_by_priority profile)
          ≡ select (has_priority z) (select (λ c. c.enabled) (near ∷ far ∷ [])))
enabled_candidates_by_priority-IsSorted_example = enabled_candidates_by_priority-IsSorted profile

abbrev services : Gateway.Services
services = record {
  hostname = λ s. s;
  load_capability = λ name. ok capability;
  get_secret = λ name. pure "key";
  is_blank = λ s. s == "";
  loads = λ s. if s == "{}" then ok (str "read") else err (plain value_error "Expecting value");
  conforms = λ payload schema. true;
}

-- no run, so that only a local model is asked
abbrev caller : Gateway.Caller
caller = record {
  has_conn = true;
  has_secret_key = false;
  run_id = none;
  step_id = none;
  actor = "gateway";
  agent_allowlist = none;
}

abbrev local_profile : ModelProfile
local_profile = record profile { candidates = near ∷ [] }

abbrev model : Option Value
model = some (str "ollama/small")

-- a model that answers, and one that differs on the hosted candidate
abbrev answers : Dict → M Value
answers kwargs = pure (str "{}")

done :
    (Completion.complete_structured services local_profile caller end answers
      (arr nil)
      "plan"
      end
      nothing).0
    ≡ ok (str "read")
unfolding Completion.complete_structured Completion.ask_structured Completion.read_content
    Completion.checked_payload Completion.try_candidates Completion.prepare Completion.after_try
    Gateway.authorize_completion_call Gateway.only_local Gateway.is_local_candidate
    Gateway.resolve_api_key Gateway.candidate_kwargs Gateway.with_generation
    enabled_candidates_by_priority sort_by_priority insert_by_priority
done = refl

complete_structured-conforms_example : true ≡ true
complete_structured-conforms_example =
    complete_structured-conforms services local_profile caller end answers (arr nil) "plan" end
      nothing done

is_far : Dict → Bool
is_far kwargs = elim (get "model" kwargs) [ some (str s) ↦ s == "openai/large" | _ ↦ false ]

-- a model that raises on the hosted candidate
abbrev raises_far : Dict → M Value
raises_far kwargs =
    if is_far kwargs then raise (plain gateway_error "no model") else pure (str "{}")

near_arguments :
    (key : Option String) (kwargs : Dict)
    → Gateway.candidate_kwargs services profile near key end ≡ ok kwargs
    → is_far (put "messages" (arr nil) kwargs) ≡ false
unfolding Gateway.candidate_kwargs Gateway.with_generation is_far
near_arguments none kwargs e = rw (sym (ok-injective e)) refl
near_arguments (some k) kwargs e = chosen (not (k == "")) e
  where
    chosen :
        (b : Bool)
        → ok (
            if b
            then field "model" (str "ollama/small") (
                field "messages" null
                  (field "max_tokens" (num (pos 100)) (field "api_key" (str k) end)))
            else field "model"
                (str "ollama/small")
                (field "messages" null (field "max_tokens" (num (pos 100)) end)))
          ≡ ok kwargs
        → is_far (put "messages" (arr nil) kwargs) ≡ false
    chosen true h = rw (sym (ok-injective h)) refl
    chosen false h = rw (sym (ok-injective h)) refl

far_refused : MayAsk services caller far → ⊥
unfolding Gateway.is_local_candidate Gateway.is_loopback_api_base evaluate bad_role
far_refused (inl e) = cc e
far_refused (inr (c, reason, l, e)) =
    let same : capability ≡ c = ok-injective l in
    let denied : evaluate capability ("llm_complete@1.0.0" ∷ []) none ≡ ok (allow, reason) =
      ap (λ x. evaluate x ("llm_complete@1.0.0" ∷ []) none) same ∙ e in
    cc denied

agree :
    Agree services profile caller end
      (enabled_candidates_by_priority profile)
      (Completion.ask_text services profile caller end answers (arr nil))
      (Completion.ask_text services profile caller end raises_far (arr nil))
unfolding enabled_candidates_by_priority sort_by_priority insert_by_priority
agree c key kwargs (inl f) a e w =
    let absurdly : MayAsk services caller far = rw f a in absurd (far_refused absurdly)
agree c key kwargs (inr (inl f)) a e w =
    let here : Gateway.candidate_kwargs services profile near key end ≡ ok kwargs =
      ap (λ d. Gateway.candidate_kwargs services profile d key end) f ∙ e in
    rw (near_arguments key kwargs here) refl
agree c key kwargs (inr (inr n)) a e w = absurd n

complete-MayAsk_example :
    Completion.complete services profile caller end answers (arr nil) nothing
    ≡ Completion.complete services profile caller end raises_far (arr nil) nothing
complete-MayAsk_example =
    complete-MayAsk services profile caller end answers raises_far (arr nil) agree nothing
