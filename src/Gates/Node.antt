-- ===== src/Gates/Node.antt =====
-- backend/src/awf/gates/gate_node.py. The command of the check and the answers of the models are
-- actions of the configuration; what they are asked is not modelled.
pub mod Bypasses
use jarvis_awf.Prelude.{
  ℕ, String, Bool, true, false, not, ◌&&◌, ◌||◌, Option, none, some, List, [], ◌∷◌, ◌++◌, ◌==◌, any,
  if◌then◌else◌,
}
use jarvis_awf.Prelude.Table
use jarvis_awf.Json.{Value, bool, str, Dict, end, field}
use jarvis_awf.Exec.{Result, ok, err, pure, raise, gets, when, ◌>>=◌, ◌>>◌}
use jarvis_awf.Database.{World, M, Run, write_event}
use jarvis_awf.Engine.Executor.{run_step}
use jarvis_awf.Gates.Findings.{
  Category, safety_gate_bypass, Tier, default, high_risk, Finding, Verdict, build_verdict,
  run_verifier_check, run_llm_review, run_llm_adversary_review, check_resource_safety,
  check_safety_gate_bypass, check_memory_contamination,
}
use jarvis_awf.Gates.Artifacts.{tier_name, write_finding_artifacts, write_verdict_artifact}

-- a model's answer: whether it begins with PASS, the text, and the name of the model
abbrev pub Answer : Type 0
Answer = Bool × String × Value

-- the arguments of make_trifecta_gate_executor, and what its checks measure
pub record GateConfig : Type 0 where
  pub check_fn : M Bool
  pub check_summary : String
  pub tier : Tier
  pub guard_bypassed : Bool
  pub review : Option (M Answer)
  pub adversary_review : Option (M Answer)
  pub tier_reason : Option String
  pub ceiling : ℕ
  pub utilization : Option ℕ
  -- none where `cache_sandbox_dir` is None
  pub scratch_files : Option (Option (List (String × String)))

-- `SELECT run_id FROM runs WHERE run_id != ?`
other_runs : String → List (String × Run) → List String
other_runs run_id [] = []
other_runs run_id ((k, row) ∷ rest) =
    let ids = other_runs run_id rest in if k == run_id then ids else k ∷ ids

abbrev pub is_high_risk : Tier → Bool
is_high_risk high_risk = true
is_high_risk default = false

abbrev pub is_bypass : Category → Bool
is_bypass safety_gate_bypass = true
is_bypass _ = false

-- the findings that are not None
abbrev pub present : List (Option Finding) → List Finding
present [] = []
present (none ∷ fs) = present fs
present (some f ∷ fs) = f ∷ present fs

module _ (sha256 : Dict → String) (run_id step_id : String) (g : GateConfig) where
  abbrev tier_event : String → M String
  tier_event reason = write_event (record {
    run = run_id;
    step = some step_id;
    prior = none;
    status = "RUNNING";
    actor = "gate";
    reason = "gate_tier_selected";
    payload = field "tier" (str (tier_name g.tier)) (field "reason" (str reason) end);
  })

  unfoldable pub note_tier : Option String → M Unit
  note_tier none = pure tt
  note_tier (some reason) = tier_event reason >>= λ _. pure tt

  unfoldable pub ask_review : (Answer → Finding) → Option (M Answer) → M (List Finding)
  ask_review judge none = pure []
  ask_review judge (some ask) = ask >>= λ answer. pure (judge answer ∷ [])

  abbrev reviewed : Answer → Finding
  reviewed (passed, response, model) = run_llm_review passed response model

  abbrev attacked : Answer → Finding
  attacked (passed, response, model) = run_llm_adversary_review passed response model

  -- the check, and the review of a model
  unfoldable pub verifier_findings : M (List Finding)
  verifier_findings = do
    passed ← g.check_fn
    more ← ask_review reviewed g.review
    pure (run_verifier_check passed g.check_summary ∷ more)

  unfoldable pub contamination : Option (Option (List (String × String))) → World → Option Finding
  unfolding other_runs
  contamination none w = none
  contamination (some files) w =
      check_memory_contamination run_id (other_runs run_id (Table.rows w.runs)) files

  -- the three checks of the adversary
  unfoldable pub adversary_checks : World → List Finding
  adversary_checks w = present (
      check_resource_safety g.ceiling g.utilization
      ∷ check_safety_gate_bypass g.guard_bypassed
      ∷ contamination g.scratch_files w
      ∷ [])

  -- the findings of the high-risk tier, and whether one is a terminal failure
  unfoldable pub adversary_findings : Bool → M (List Finding × Bool)
  adversary_findings false = pure ([], false)
  adversary_findings true = do
    found ← gets adversary_checks
    more ← ask_review attacked g.adversary_review
    pure (found ++ more, any (λ f. is_bypass f.category) found)

  abbrev pub gate_output : Verdict → Bool → String → Dict
  gate_output verdict terminal_failure verdict_artifact_id = field "passed" (bool verdict.passed) (
      field "terminal_failure" (bool terminal_failure) (
        field "verdict_artifact_id" (str verdict_artifact_id)
          (field "reason" (str verdict.reason) end)))

  -- from `build_verdict` on
  unfoldable pub conclude : List Finding → List Finding × Bool → M Dict
  conclude first (more, terminal_failure) = do
    write_finding_artifacts sha256 run_id step_id (first ++ more)
    verdict_artifact_id ←
        write_verdict_artifact sha256 run_id step_id (build_verdict (first ++ more) g.tier)
    pure (gate_output (build_verdict (first ++ more) g.tier) terminal_failure verdict_artifact_id)

  unfoldable pub judge : List Finding → M Dict
  judge first = adversary_findings (is_high_risk g.tier) >>= conclude first

  -- `fn` of the executor
  unfoldable pub gate_fn : Dict → M Dict
  gate_fn payload = note_tier g.tier_reason >> (verifier_findings >>= judge)

  unfoldable pub gate_executor : M Dict
  gate_executor = run_step step_id run_id gate_fn end
