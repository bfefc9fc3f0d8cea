-- ===== src/Gates/Findings.antt =====
-- backend/src/awf/gates/schema.py, verdict.py, verifier.py and adversary.py. What a check measures
-- (a command's exit, the GPU, the names of files, a model's answer) is an argument.
pub mod Verdicts
use jarvis_awf.Prelude.{
  ℕ, String, ◌<>◌, Bool, true, false, not, ◌&&◌, ◌||◌, Option, none, some, List, [], ◌∷◌, ltb,
  select, member, any, if◌then◌else◌, is_some,
}
use jarvis_awf.Json.{Value, bool, str, null, num, Dict, end, field}
use jarvis_awf.Prelude.Int.{pos}
use jarvis_awf.Json.Convert.{str_of_nat}
use text.Mathlib.Text.{find?}

pub data Severity : Type 0 where
  low medium high critical : Severity

pub data Category : Type 0 where
  correctness resource_safety safety_gate_bypass memory_contamination other : Category

pub data FindingRole : Type 0 where
  verifier adversary : FindingRole

pub data Tier : Type 0 where
  default high_risk : Tier

-- Finding, whose role, category and severity are checked against these names when it is built
pub record Finding : Type 0 where
  pub role : FindingRole
  pub category : Category
  pub severity : Severity
  pub summary : String
  pub details : Dict

pub record Verdict : Type 0 where
  pub passed : Bool
  pub tier : Tier
  pub findings : List Finding
  pub reason : String

-- `severity in FAILING_SEVERITIES`
abbrev pub is_failing : Severity → Bool
is_failing high = true
is_failing critical = true
is_failing _ = false

abbrev pub category_name : Category → String
category_name correctness = "correctness"
category_name resource_safety = "resource_safety"
category_name safety_gate_bypass = "safety_gate_bypass"
category_name memory_contamination = "memory_contamination"
category_name other = "other"

abbrev is_empty : List Finding → Bool
is_empty [] = true
is_empty (f ∷ fs) = false

abbrev describe : Finding → String
describe f = category_name f.category <> (":" <> f.summary)

-- "; ".join(...)
join_reasons : List Finding → String
join_reasons [] = ""
join_reasons (f ∷ []) = describe f
join_reasons (f ∷ g ∷ fs) = describe f <> ("; " <> join_reasons (g ∷ fs))

unfoldable pub build_verdict : List Finding → Tier → Verdict
unfolding join_reasons
build_verdict findings tier =
    let failing = select (λ f. is_failing f.severity) findings in
    let passed = is_empty failing in
    record {
      passed = passed;
      tier = tier;
      findings = findings;
      reason = if passed then "no high/critical findings" else join_reasons failing;
    }

-- run_verifier_check, with the answer of `check_fn`
abbrev pub run_verifier_check : Bool → String → Finding
run_verifier_check passed summary = record {
  role = verifier;
  category = correctness;
  severity = if passed then low else high;
  summary = if passed then summary else "FAILED: " <> summary;
  details = field "passed" (bool passed) end;
}

-- run_llm_review and run_llm_adversary_review, with the stripped response, whether its upper case
-- starts with "PASS", and the name of the model
abbrev pub run_llm_review : Bool → String → Value → Finding
run_llm_review passed response model = record {
  role = verifier;
  category = correctness;
  severity = if passed then low else high;
  summary = response;
  details = field "passed" (bool passed) (field "model" model end);
}

abbrev pub run_llm_adversary_review : Bool → String → Value → Finding
run_llm_adversary_review passed response model = record {
  role = adversary;
  category = other;
  severity = if passed then low else high;
  summary = response;
  details = field "passed" (bool passed) (field "model" model end);
}

-- f"GPU utilization {utilization:.0%} exceeded the {GPU_UTILIZATION_CEILING:.0%} ceiling"
gpu_summary : ℕ → ℕ → String
unfolding str_of_nat
gpu_summary utilization ceiling =
    "GPU utilization "
    <> (str_of_nat utilization <> ("% exceeded the " <> (str_of_nat ceiling <> "% ceiling")))

-- check_resource_safety, on a utilization in percent (none where the sampler is unavailable)
unfoldable pub check_resource_safety : ℕ → Option ℕ → Option Finding
unfolding gpu_summary
check_resource_safety ceiling none = none
check_resource_safety ceiling (some utilization) =
    if ltb ceiling utilization
    then some (record {
      role = adversary;
      category = resource_safety;
      severity = high;
      summary = gpu_summary utilization ceiling;
      details =
          field "utilization" (num (pos utilization)) (field "ceiling" (num (pos ceiling)) end);
    })
    else none

unfoldable pub check_safety_gate_bypass : Bool → Option Finding
check_safety_gate_bypass guard_bypassed =
    if not guard_bypassed
    then none
    else some (record {
      role = adversary;
      category = safety_gate_bypass;
      severity = critical;
      summary = "Capability Guard was bypassed, circumvented, or silenced";
      details = field "detail" (str "") end;
    })

-- `other_id in path.name`
abbrev holds : String → String → Bool
holds name other_id = is_some (find? name other_id)

-- The last argument lists the files under the scratch directory, each a name and a path, or is
-- none where the directory is missing.
unfoldable pub check_memory_contamination :
    String → List String → Option (List (String × String)) → Option Finding
check_memory_contamination run_id other_run_ids none = none
check_memory_contamination run_id [] (some files) = none
check_memory_contamination run_id (i ∷ ids) (some []) = none
check_memory_contamination run_id (i ∷ ids) (some ((name, path) ∷ files)) =
    let rest = check_memory_contamination run_id (i ∷ ids) (some files) in
    if any (λ other_id. holds name other_id) (i ∷ ids)
    then some (record {
      role = adversary;
      category = memory_contamination;
      severity = high;
      summary =
          "cache/sandbox/"
          <> (run_id <> ("/ contains an artifact referencing another run: " <> name));
      details = field "path" (str path) end;
    })
    else rest
