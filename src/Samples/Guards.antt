-- ===== src/Samples/Guards.antt =====
-- The guard and the verdicts, on the inputs of Samples.
use jarvis_awf.Prelude.{String, ◌≡◌, ◌↔◌, refl, true, false, some, none, List, [], ◌∷◌, All}
use jarvis_awf.Json.{end}
use jarvis_awf.Exec.{ok, err}
use jarvis_awf.Registry.Capability.{ref}
use jarvis_awf.Guard.{approval_required, allow, evaluate, Request, authorize, role_is, bad_role}
use jarvis_awf.Guard.Decisions.{Permits, Recorded, evaluate-allow_iff, authorize-Recorded}
use jarvis_awf.Gates.Findings.{Tier, Finding, run_verifier_check}
use jarvis_awf.Gates.Findings.Verdicts.{IsMinor, passes, build_verdict-passed_iff}
use jarvis_awf.Gates.Findings.{build_verdict, check_resource_safety, check_safety_gate_bypass}
use jarvis_awf.Gates.Artifacts.{write_artifact, write_finding_artifacts, verdict_dict}
use jarvis_awf.Gates.Node.{
  GateConfig, note_tier, ask_review, verifier_findings, contamination, adversary_checks,
  adversary_findings, conclude, judge, gate_fn,
}
use jarvis_awf.Gates.Node.Bypasses.{gate_fn-Bypassing}
use jarvis_awf.Prelude.{◌&&◌}
use jarvis_awf.Json.{Dict, Value, get_truthy}
use jarvis_awf.Exec.{pure}
use jarvis_awf.Samples.{nothing, capability}

abbrev allowlist : List String
allowlist = ref capability ∷ []

evaluate-allow_iff_example :
    ((reason : String) × (evaluate capability allowlist none ≡ ok (allow, reason)))
    ↔ Permits capability allowlist none
evaluate-allow_iff_example = evaluate-allow_iff capability allowlist none

abbrev request : Request
request = record {
  agent_allowlist = allowlist;
  run_id = "r";
  actor = "awf";
  step_id = some "s";
  role = none;
  payload_extra = end;
}

asks : (authorize capability request nothing).0 ≡ ok approval_required
unfolding authorize evaluate bad_role role_is
asks = refl

authorize-Recorded_example :
    Recorded request approval_required nothing (authorize capability request nothing).1
authorize-Recorded_example = authorize-Recorded capability request nothing asks

abbrev findings : List Finding
findings = run_verifier_check true "tests pass" ∷ run_verifier_check false "lint" ∷ []

build_verdict-passed_iff_example : (passes Tier.default findings ≡ true) ↔ All IsMinor findings
build_verdict-passed_iff_example = build_verdict-passed_iff Tier.default findings

-- a gate of the high-risk tier, whose check and review pass, where the guard was bypassed
abbrev gate : GateConfig
gate = record {
  check_fn = pure true;
  check_summary = "tests pass";
  tier = Tier.high_risk;
  guard_bypassed = true;
  review = some (pure (true, "PASS", Value.str "model"));
  adversary_review = none;
  tier_reason = some "writes outside the worktree";
  ceiling = 10;
  utilization = some 3;
  scratch_files = none;
}

abbrev answer : Dict
answer = elim (gate_fn (λ d. "digest") "r" "s" gate end nothing).0 [
  | ok output ↦ output
  | err e ↦ end
]

concluded : (gate_fn (λ d. "digest") "r" "s" gate end nothing).0 ≡ ok answer
unfolding gate_fn note_tier ask_review verifier_findings contamination adversary_checks
    adversary_findings conclude judge write_artifact write_finding_artifacts verdict_dict
    build_verdict check_resource_safety check_safety_gate_bypass
concluded = refl

gate_fn-Bypassing_example :
    (get_truthy "terminal_failure" answer ≡ (true && true))
    × (((true && true) && get_truthy "passed" answer) ≡ false)
gate_fn-Bypassing_example = gate_fn-Bypassing (λ d. "digest") "r" "s" gate end nothing concluded
