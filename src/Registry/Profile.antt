-- ===== src/Registry/Profile.antt =====
-- backend/src/awf/registry/model_profile.py, with the enumerations of
-- backend/src/awf/registry/schemas/model_profiles.py. A cost is a whole number of dollars.
pub mod Order
use jarvis_awf.Prelude.{
  String, ◌<>◌, Bool, true, false, not, Option, List, [], ◌∷◌, if◌then◌else◌, select,
}
use jarvis_awf.Prelude.Int.{ℤ, ltb_ℤ}

pub data DataClass : Type 0 where
  public internal confidential : DataClass

pub record Privacy : Type 0 where
  pub maximum_data_class : DataClass
  pub local_only : Bool

pub record Candidate : Type 0 where
  pub provider : String
  pub model : String
  pub priority : ℤ
  pub enabled : Bool
  pub api_base : Option String
  pub api_key_secret_name : Option String

abbrev pub litellm_model : Candidate → String
litellm_model c = c.provider <> ("/" <> c.model)

pub data FallbackMode : Type 0 where
  no_fallback ordered : FallbackMode

pub record Fallback : Type 0 where
  pub mode : FallbackMode
  pub allow_quality_degrade : Bool

pub record Limits : Type 0 where
  pub max_input_tokens_per_call : ℤ
  pub max_output_tokens_per_call : ℤ
  pub max_cost_usd_per_call : ℤ

pub record ModelProfile : Type 0 where
  pub name : String
  pub version : String
  pub purpose : String
  pub privacy : Privacy
  pub candidates : List Candidate
  pub fallback : Fallback
  pub limits : Limits

-- `sorted` keeps the order of what has the same key: `c` stood before the others
unfoldable pub insert_by_priority : Candidate → List Candidate → List Candidate
insert_by_priority c [] = c ∷ []
insert_by_priority c (d ∷ ds) =
    let rest = insert_by_priority c ds in
    if ltb_ℤ d.priority c.priority then d ∷ rest else c ∷ d ∷ ds

unfoldable pub sort_by_priority : List Candidate → List Candidate
sort_by_priority [] = []
sort_by_priority (c ∷ cs) = insert_by_priority c (sort_by_priority cs)

-- ModelProfile.enabled_candidates_by_priority
unfoldable pub enabled_candidates_by_priority : ModelProfile → List Candidate
enabled_candidates_by_priority p = sort_by_priority (select (λ c. c.enabled) p.candidates)
