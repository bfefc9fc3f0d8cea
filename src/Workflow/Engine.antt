-- ===== src/Workflow/Engine.antt =====
-- backend/src/awf/workflow/engine.run_workflow_definition, and its caller
-- ops/run_execution._run_workflow_safely. The executors of the node types are a parameter, and so is
-- jsonschema: `validates rendered schema` is the message of the error that it raises, if it does.
pub mod Turns
pub mod Termination
pub mod Statuses
pub mod Visits
pub mod Reports
use jarvis_awf.Prelude.{
  ℕ, zero, suc, ◌+◌, String, ◌<>◌, Bool, true, false, not, ◌&&◌, ◌||◌, Option, none, some, List, [],
  ◌∷◌, ◌==◌, ltb, member, if◌then◌else◌,
}
use jarvis_awf.Prelude.Int.{ℤ, pos, negsuc, ltb_ℤ}
use jarvis_awf.Json.{
  Value, null, bool, num, str, arr, obj, Dict, end, field, get, get_or, get_truthy, truthy, put,
  merge,
}
use jarvis_awf.Exec.{
  Exn, Result, ok, err, plain, workflow_engine_error, type_error, attempt, pure, raise, gets, lift,
  or_raise, ◌>>=◌, ◌>>◌,
}
use jarvis_awf.Database.{World, M, RunStatus, Outside, write_event}
use jarvis_awf.Engine.Run.{run_event}
use jarvis_awf.Engine.Executor.{set_run_status}
use jarvis_awf.Workflow.Definition.{
  Node, WorkflowDefinition, target, node, NodeRetryPolicy, resolve_retry_policy,
}
use jarvis_awf.Workflow.Templates.{engine_context_key, render_outputs}
use jarvis_awf.Workflow.Attempts.{NodeExecutor, try_node}

-- EXECUTABLE_NODE_TYPES
abbrev pub executable_types : List String
executable_types =
    "activity" ∷ "agent" ∷ "gate" ∷ "handoff" ∷ "approval" ∷ "subworkflow" ∷ "map" ∷ "loop" ∷ []

-- attempt_counts
abbrev pub Counts : Type 0
Counts = List (String × ℕ)

abbrev pub count_of : String → Counts → ℕ
count_of k [] = 0
count_of k ((j, n) ∷ l) = if j == k then n else count_of k l

abbrev pub set_count : String → ℕ → Counts → Counts
set_count k n [] = (k, n) ∷ []
set_count k n ((j, m) ∷ l) = if j == k then (j, n) ∷ l else (j, m) ∷ set_count k n l

-- the variables of the loop
pub record Progress : Type 0 where
  pub repairs_used : ℕ
  pub hops_used : Value
  pub last_verdict : Value
  pub node_output_context : Dict
  pub attempt_counts : Counts
  pub current : Option String

-- the ways in which the function returns
pub data Ending : Type 0 where
  waiting : ℕ → Dict → Ending
  step_failed : ℕ → String → Ending
  gate_failed : ℕ → Value → Ending
  invalid_output : ℕ → String → Ending
  completed : ℕ → Value → Dict → Ending

pub data Next : Type 0 where
  go : Progress → Next
  stop : Ending → Next

-- the dict that is returned
abbrev pub report : Ending → Dict
report (waiting repairs output) =
    merge (field "status" (str "WAITING_INPUT") (field "repairs_used" (num (pos repairs)) end))
      output
report (step_failed repairs error) =
    field "status" (str "FAILED")
      (field "repairs_used" (num (pos repairs)) (field "error" (str error) end))
report (gate_failed repairs verdict) =
    field "status" (str "FAILED")
      (field "repairs_used" (num (pos repairs)) (field "verdict_artifact_id" verdict end))
report (invalid_output repairs error) =
    field "status" (str "FAILED")
      (field "repairs_used" (num (pos repairs)) (field "error" (str error) end))
report (completed repairs verdict outputs) = field "status" (str "SUCCEEDED") (
    field "repairs_used" (num (pos repairs))
      (field "verdict_artifact_id" verdict (field "outputs" (obj outputs) end)))

-- `repairs_used >= max_repairs`, which compares numbers only
unfoldable pub exhausted : Value → ℕ → Result Bool
exhausted (num z) n = ok (not (ltb_ℤ (pos n) z))
exhausted (bool true) n = ok (not (ltb n 1))
exhausted (bool false) n = ok true
exhausted _ n = err (plain type_error "'>=' not supported between these instances")

-- node_output_context[_engine_context_key(current_id, key)] = value, for the items of the output
unfoldable pub add_outputs : (ℕ → Bool) → String → Dict → Dict → Dict
add_outputs alnum node_id end context = context
add_outputs alnum node_id (field k v output) context =
    add_outputs alnum node_id output (put (engine_context_key alnum node_id k) v context)

-- _mark_run_failed
unfoldable pub mark_run_failed : String → String → M String
mark_run_failed run_id reason_code = do
  set_run_status run_id RunStatus.failed
  write_event (run_event run_id "FAILED" reason_code end)

-- workflow.budgets.get("maxRepairIterations", 3)
abbrev pub max_repairs : WorkflowDefinition → Value
max_repairs workflow = get_or "maxRepairIterations" (num (pos 3)) workflow.budgets

-- {"status": "FAILED", "error": str(exc)}
abbrev pub error_report : Exn → Dict
error_report exc = field "status" (str "FAILED") (field "error" (str exc.text) end)

-- goes round the loop again, or leaves it
abbrev pub continue : (Progress → M (Option Ending)) → Next → M (Option Ending)
continue again (stop e) = pure (some e)
continue again (go p) = again p

module _ (run_id : String) (workflow : WorkflowDefinition)
    (executors : String → Option NodeExecutor) (validates : Dict → Dict → Option String) where
  unfoldable pub gate_ending : Progress → Dict → String → M Next
  gate_ending p output reason_code = do
    mark_run_failed run_id reason_code
    pure (stop (gate_failed p.repairs_used (get_or "verdict_artifact_id" null output)))

  -- where `repairs_used >= max_repairs` is false
  unfoldable pub repair : Progress → Option String → M Next
  repair p none = raise (plain workflow_engine_error "gate node failed with no 'onFail' target")
  repair p (some node_id) =
      pure (go (record p { repairs_used = p.repairs_used + 1; current = some node_id }))

  -- the branch of a gate that did not pass
  unfoldable pub failed_gate : Progress → Node → Dict → M Next
  failed_gate p n output =
      if get_truthy "terminal_failure" output
      then gate_ending p output "gate_terminal_failure"
      else do
        spent ← lift (exhausted (max_repairs workflow) p.repairs_used)
        if spent
            then gate_ending p output "gate_repair_budget_exhausted"
            else repair p (target "onFail" n)

  abbrev with_output : (ℕ → Bool) → Node → Dict → Progress → Progress
  with_output alnum n output p = record p {
    hops_used = get_or "hops_used" p.hops_used output;
    node_output_context = add_outputs alnum n.id output p.node_output_context;
  }

  -- what follows the attempts of a node that returned
  unfoldable pub after_output : Progress → Node → Dict → M Next
  after_output p n output =
      if get_truthy "waiting_input" output
      then pure (stop (waiting p.repairs_used output))
      else if n.type == "gate"
      then if get_truthy "passed" output
        then pure (
            go (record p {
              last_verdict = get_or "verdict_artifact_id" null output;
              current = target "next" n;
            }))
        else failed_gate p n output
      else pure (go (record p { current = target "next" n }))

  unfoldable pub after_attempts : Progress → Node → Result Dict × ℕ → M Next
  after_attempts p n (ok output, attempts) = do
    alnum ← gets (λ w. w.outside.alnum)
    after_output
        (with_output alnum n output
          (record p { attempt_counts = set_count n.id attempts p.attempt_counts }))
        n output
  after_attempts p n (err exc, attempts) = do
    mark_run_failed run_id ("step_failed:" <> exc.text)
    pure (stop (step_failed p.repairs_used exc.text))

  abbrev pub with_policy : Progress → Node → NodeExecutor → NodeRetryPolicy → M Next
  with_policy p n executor policy =
      try_node run_id n executor policy policy.max_retries (count_of n.id p.attempt_counts)
      >>= after_attempts p n

  abbrev pub with_executor : Progress → Node → NodeExecutor → M Next
  with_executor p n executor = lift (resolve_retry_policy workflow n) >>= with_policy p n executor

  abbrev pub find_executor : Node → M NodeExecutor
  find_executor n =
      or_raise (plain workflow_engine_error "no executor registered for node type")
        (executors n.type)

  -- the body of the loop once the node is known
  unfoldable pub run_node : Progress → Node → M Next
  run_node p n = find_executor n >>= with_executor p n

  unfoldable pub visit : Progress → String → M Next
  visit p current_id = do
    n ← lift (node workflow current_id)
    if member n.type executable_types
        then run_node p n
        else raise (plain workflow_engine_error "node type has no execution semantics yet")

  abbrev engine_context : Progress → Dict
  engine_context p =
      merge
        (field "repairs_used" (num (pos p.repairs_used))
          (field "hops_used" p.hops_used (field "verdict_artifact_id" p.last_verdict end)))
        p.node_output_context

  unfoldable pub close : Progress → Dict → Option String → M Ending
  close p rendered (some error) = do
    mark_run_failed run_id ("output_schema_invalid:" <> error)
    pure (invalid_output p.repairs_used error)
  close p rendered none = do
    set_run_status run_id RunStatus.succeeded
    write_event (run_event run_id "SUCCEEDED" "run_completed" end)
    pure (completed p.repairs_used p.last_verdict rendered)

  -- what follows the loop
  unfoldable pub complete : Progress → M Ending
  complete p = do
    alnum ← gets (λ w. w.outside.alnum)
    let rendered = render_outputs alnum (engine_context p) workflow.outputs
    close p rendered (validates rendered workflow.output_schema)

  -- the loop, on at most so many visits of nodes; none where they do not suffice
  unfoldable pub loop : ℕ → Progress → Option String → M (Option Ending)
  loop fuel p none = complete p >>= λ e. pure (some e)
  loop zero p (some node_id) = pure none
  loop (suc fuel) p (some node_id) =
      visit p node_id >>= λ next. continue (λ q. loop fuel q q.current) next

  abbrev pub start : Progress
  start = record {
    repairs_used = 0;
    hops_used = num (pos 0);
    last_verdict = null;
    node_output_context = end;
    attempt_counts = [];
    current = some workflow.first.id;
  }

  unfoldable pub run_workflow_definition : ℕ → M (Option Ending)
  run_workflow_definition fuel = do
    set_run_status run_id RunStatus.running
    loop fuel start start.current

  -- what `_run_workflow_safely` makes of a return or an exception
  unfoldable pub settle : Result (Option Ending) → M (Option Dict)
  settle (ok none) = pure none
  settle (ok (some e)) = pure (some (report e))
  settle (err exc) = do set_run_status run_id RunStatus.failed; pure (some (error_report exc))

  unfoldable pub run_workflow_safely : ℕ → M (Option Dict)
  run_workflow_safely fuel = attempt (run_workflow_definition fuel) >>= settle
