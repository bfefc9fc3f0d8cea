-- ===== src/Samples/Workflow.antt =====
-- The workflow of Samples, run.
use jarvis_awf.Prelude.{
  ℕ, ◌<◌, String, ◌≡◌, refl, sym, ap, ◌∙◌, Bool, true, false, some, none, Option, [], ◌∷◌, ◌==◌,
  if◌then◌else◌, arith,
}
use jarvis_awf.Json.{Dict, end, field, Value}
use jarvis_awf.Exec.{Result, ok, pure, raise, classed, step_failure, transient}
use jarvis_awf.Exec.Inversion.{ok-injective}
use jarvis_awf.Database.{World, StepStatus}
use jarvis_awf.Workflow.Definition.{
  Node, NodeRetryPolicy, node, target, parse_workflow, find_node, resolve_retry_policy,
  validate_nodes, has_duplicates,
}
use jarvis_awf.Workflow.Nodes.{validate_node, validate_id, validate_typed, require}
use jarvis_awf.Workflow.Templates.{engine_context_key}
use jarvis_awf.Workflow.Definition.Parsing.{Usable, parse_workflow-Usable}
use jarvis_awf.Workflow.Attempts.{NodeExecutor, try_node, one_attempt}
use jarvis_awf.Workflow.Attempts.Retries.{Attempted, try_node-Attempted}
use jarvis_awf.Workflow.Engine.{
  report, settle, run_workflow_safely, run_workflow_definition, gate_failed, loop, visit, run_node,
  after_attempts, after_output, failed_gate, gate_ending, repair, exhausted, mark_run_failed,
  add_outputs,
}
use jarvis_awf.Workflow.Engine.Termination.{Forward, run_workflow_safely-reports}
use jarvis_awf.Workflow.Engine.Statuses.{KeepsRun}
use jarvis_awf.Workflow.Engine.Visits.{AllKeepRun}
use jarvis_awf.Workflow.Engine.Reports.{Agrees, run_workflow_safely-Agrees}
use jarvis_awf.Samples.{
  with_step, run_row, run_found, build_node, check_node, workflow, executors, validates,
}

abbrev before : World
before = with_step StepStatus.pending

abbrev rank : String → ℕ
rank i = if "build" == i then 1 else 0

next_forward :
    (i j : String) (n : Node) (b d : Bool)
    → ("build" == i) ≡ b
    → (if b then ok build_node else if d then ok check_node else find_node i []) ≡ ok n
    → target "next" n ≡ some j
    → rank j < rank i
unfolding find_node
next_forward i j n true d y e t =
    let same : build_node ≡ n = ok-injective e in
    let goal : some "check" ≡ some j = ap (target "next") same ∙ t in
    let here : "check" ≡ j = cc in rw (y, sym here) (omega arith)
next_forward i j n false true y e t =
    let same : check_node ≡ n = ok-injective e in
    let none_next : none ≡ some j = ap (target "next") same ∙ t in absurd (cc none_next)
next_forward i j n false false y e t = absurd (cc e)

forward : Forward workflow rank 2
unfolding node find_node
forward = record {
  bounded = λ i. ground arith;
  next = λ i j n e t. next_forward i j n ("build" == i) ("check" == i) refl e t;
}

run_workflow_safely-reports_example :
    (d : Dict) × ((run_workflow_safely "r" workflow executors validates 4 before).0 ≡ ok (some d))
run_workflow_safely-reports_example =
    run_workflow_safely-reports "r" workflow executors validates rank 2 forward 4 before
      (omega arith)

some-injective : {A : Type 0} {a b : A} → some a ≡ some b → a ≡ b
some-injective {a = a} e = ap (λ (o : Option _). elim o [ none ↦ a | some x ↦ x ]) e

keeps : AllKeepRun "r" workflow executors validates
keeps type x e = kept (type == "activity") (type == "gate") e
  where
    kept :
        (a g : Bool)
        → (if a
            then some (λ run_id step_id n. pure end)
            else if g
            then some (λ run_id step_id n. pure (field "passed" (Value.bool false) end))
            else none)
          ≡ some x
        → KeepsRun "r" x
    kept true g e run_id step_id n w h = rw (sym (some-injective e)) h
    kept false true e run_id step_id n w h = rw (sym (some-injective e)) h
    kept false false e run_id step_id n w h = absurd (cc e)

-- the gate fails twice, with one repair between
abbrev fails : Dict
fails = report (gate_failed 1 Value.null)

ended : (run_workflow_safely "r" workflow executors validates 4 before).0 ≡ ok (some fails)
unfolding run_workflow_safely settle run_workflow_definition loop visit node find_node run_node
    resolve_retry_policy try_node one_attempt after_attempts after_output failed_gate gate_ending
    repair exhausted mark_run_failed add_outputs engine_context_key
ended = refl

run_workflow_safely-Agrees_example :
    Agrees "r" workflow executors validates keeps fails
      (run_workflow_safely "r" workflow executors validates 4 before).1
run_workflow_safely-Agrees_example =
    run_workflow_safely-Agrees "r" workflow executors validates keeps 4 before
      (run_row, run_found StepStatus.pending) ended refl

abbrev policy : NodeRetryPolicy
policy = record {
  max_retries = 2;
  retry_on = "TRANSIENT" ∷ [];
  backoff_seconds = 1;
  backoff_factor = 2;
  jitter = true;
}

abbrev flaky : NodeExecutor
flaky run_id step_id n = raise (classed step_failure transient "connection reset")

try_node-Attempted_example :
    (outcome : Result Dict) × (after : ℕ) × ((try_node "r" build_node flaky policy 2 0 before).0
      ≡ ok (outcome, after))
    × Attempted "r" build_node flaky policy 2 0 outcome after
try_node-Attempted_example = try_node-Attempted "r" build_node flaky policy 2 0 before

parsed : parse_workflow workflow ≡ ok workflow
unfolding parse_workflow validate_nodes has_duplicates validate_node validate_id validate_typed
    require
parsed = refl

parse_workflow-Usable_example : (workflow ≡ workflow) × Usable workflow
parse_workflow-Usable_example = parse_workflow-Usable workflow workflow parsed
