-- ===== src/Workflow/Children.antt =====
-- backend/src/awf/workflow/loop_node.py and subworkflow.py. `run_child ref input` starts and runs a
-- child, and gives its identifier and its report. Of two steps that started at the same time, the
-- earlier row counts as the last, where the query leaves the order open. A negative `maxIterations`
-- is reported as 0, and `workflowRef`, which a valid definition has, is read before the first of the
-- iterations.
pub mod Turns
pub mod Iterations
use jarvis_awf.Prelude.{
  ℕ, zero, suc, ◌+◌, String, Bool, true, false, not, ◌&&◌, Option, none, some, List, [], ◌∷◌, ◌++◌,
  ◌==◌, ltb, is_some, if◌then◌else◌,
}
use jarvis_awf.Prelude.Int.{ℤ, pos, negsuc, pos_part}
use jarvis_awf.Prelude.Table
use jarvis_awf.Json.{
  Value, null, bool, num, str, arr, obj, Dict, end, field, get, get_or, get_truthy, as_text,
  text_items,
}
use jarvis_awf.Exec.{
  Result, ok, err, plain, classed, type_error, key_error, loop_node_error, subworkflow_error,
  tool_error, pure, raise, gets, lift, or_raise, ◌>>=◌, ◌>>◌,
}
use jarvis_awf.Database.{World, M, Step, RunStatus, write_event}
use jarvis_awf.Engine.Run.{run_event}
use jarvis_awf.Engine.Executor.{set_run_status, run_step}
use jarvis_awf.Workflow.Definition.{Node}

abbrev pub RunChild : Type 0
RunChild = String → Value → M (String × Dict)

-- `result.get("status") != "SUCCEEDED"`
unfoldable pub has_succeeded : Dict → Bool
has_succeeded result = elim (get "status" result) [ some (str s) ↦ s == "SUCCEEDED" | _ ↦ false ]

-- the later of two steps of the run that have an output
abbrev later : Step → Option Step → Option Step
later s none = some s
later s (some t) = if ltb s.started_at t.started_at then some t else some s

last_step : String → List (String × Step) → Option Step
last_step run_id [] = none
last_step run_id ((k, s) ∷ rest) =
    let found = last_step run_id rest in
    if s.run_id == run_id && is_some s.output_json then later s found else found

abbrev output_of : Option Step → Dict
output_of none = end
output_of (some s) = elim s.output_json [ none ↦ end | some output ↦ output ]

-- _last_step_output
unfoldable pub last_step_output : String → World → Dict
unfolding last_step
last_step_output run_id w = output_of (last_step run_id (Table.rows w.steps))

-- `node[key]` of a text field
abbrev text_field : String → Node → M String
text_field key n = or_raise (plain key_error key) (as_text (get key n.fields))

-- the length of `range(node["maxIterations"])`
abbrev pub range_of : Option Value → Result ℕ
range_of (some (num z)) = ok (pos_part z)
range_of (some (bool true)) = ok 1
range_of (some (bool false)) = ok 0
range_of none = err (plain key_error "maxIterations")
range_of _ = err (plain type_error "object cannot be interpreted as an integer")

abbrev pub loop_output : Bool → ℕ → List String → Dict → Dict
loop_output completed used ids rest =
    field "completed" (bool completed)
      (field "iterations_used" (num (pos used)) (field "child_run_ids" (arr (text_items ids)) rest))

module _ (run_child : RunChild) (run_id : String) where
  -- what follows the `for`
  unfoldable pub exhaust : ℕ → List String → M Dict
  exhaust max_iterations ids = do
    set_run_status run_id RunStatus.waiting_input
    write_event (run_event run_id "WAITING_INPUT" "loop_max_iterations_reached" end)
    pure (loop_output false max_iterations ids (field "waiting_input" (bool true) end))

  abbrev pub failed_child : M Dict
  failed_child = raise (classed loop_node_error tool_error "a loop iteration did not succeed")

  -- The `for`, with the iterations that are left, those that are done, the input of the next one,
  -- and the children so far.
  unfoldable pub iterate : String → String → ℕ → ℕ → Value → List String → M Dict
  iterate workflow_ref condition zero iteration current_input ids = exhaust iteration ids
  iterate workflow_ref condition (suc left) iteration current_input ids =
      run_child workflow_ref current_input >>= λ (child, result).
      if not (has_succeeded result)
      then failed_child
      else (gets (last_step_output child) >>= λ last_output.
          if not (get_truthy condition last_output)
          then pure (loop_output true (iteration + 1) (ids ++ child ∷ []) end)
          else iterate workflow_ref condition left (iteration + 1) (obj last_output)
              (ids ++ child ∷ []))

  abbrev pub condition_field : Node → String
  condition_field n = elim (as_text (get "conditionField" n.fields)) [
    | none ↦ "continue"
    | some s ↦ s
  ]

  abbrev pub loop_over : Node → ℕ → String → M Dict
  loop_over n max_iterations workflow_ref =
      iterate workflow_ref (condition_field n) max_iterations 0 (get_or "input" (obj end) n.fields)
        []

  abbrev pub loop_within : Node → ℕ → M Dict
  loop_within n max_iterations = text_field "workflowRef" n >>= loop_over n max_iterations

  -- make_loop_node_executor
  unfoldable pub loop_executor : Node → M Dict
  loop_executor n = lift (range_of (get "maxIterations" n.fields)) >>= loop_within n

  -- `fn` of make_subworkflow_node_executor
  unfoldable pub subworkflow_fn : Node → Dict → M Dict
  subworkflow_fn n payload = do
    workflow_ref ← text_field "workflowRef" n
    (child, result) ← run_child workflow_ref (get_or "input" (obj end) n.fields)
    if not (has_succeeded result)
        then raise (classed subworkflow_error tool_error "the child run did not succeed")
        else pure (field "child_run_id" (str child) (field "child_status" (str "SUCCEEDED") end))

  -- make_subworkflow_node_executor
  unfoldable pub subworkflow_executor : String → Node → M Dict
  subworkflow_executor step_id n = run_step step_id run_id (subworkflow_fn n) end
