-- ===== src/Workflow/Attempts.antt =====
-- The inner loop of workflow/engine.run_workflow_definition: the attempts of one node, with the
-- retries that its policy allows. `time.sleep` changes nothing that the model holds.
pub mod Retries
use jarvis_awf.Prelude.{
  ℕ, zero, suc, ◌+◌, ◌-◌, ◌*◌, ◌^◌, String, ◌<>◌, Bool, true, false, not, ◌&&◌, Option, none, some,
  List, [], ◌∷◌, ltb, member, if◌then◌else◌,
}
use jarvis_awf.Prelude.Int.{pos}
use jarvis_awf.Prelude.Table
use jarvis_awf.Json.{Value, num, str, Dict, end, field}
use jarvis_awf.Json.Convert.{str_of_nat}
use jarvis_awf.Exec.{
  Exn, Result, ok, err, class_name, failure_class_of, attempt, pure, when, ◌>>=◌, ◌>>◌,
}
use jarvis_awf.Database.{World, M, Step, StepStatus, utc_now_rfc3339, write_event}
use jarvis_awf.Engine.Run.{create_step, new_step, step_event}
use jarvis_awf.Workflow.Definition.{Node, NodeRetryPolicy}

-- an executor takes the run, the step and the node
abbrev pub NodeExecutor : Type 0
NodeExecutor = String → String → Node → M Dict

-- `node_type in SELF_STEPPING_NODE_TYPES`
abbrev pub is_self_stepping : String → Bool
is_self_stepping type = member type ("handoff" ∷ "loop" ∷ [])

-- f"{run_id}:{current_id}#{attempt}"
unfoldable pub step_name : String → String → ℕ → String
unfolding str_of_nat
step_name run_id node_id number = run_id <> (":" <> (node_id <> ("#" <> str_of_nat number)))

-- `failure_class in policy.retry_on`, of an attempt that raised
abbrev pub is_retryable : NodeRetryPolicy → Result Dict → Bool
is_retryable policy (ok output) = false
is_retryable policy (err exc) = member (class_name (failure_class_of exc)) policy.retry_on

-- random.uniform(0.5 * base_delay, 1.5 * base_delay)
abbrev uniform : ℕ → M ℕ
uniform base_delay w =
    (ok (w.outside.uniform w.readings base_delay), record w { readings = w.readings + 1 })

abbrev delay_of : NodeRetryPolicy → ℕ → M ℕ
delay_of policy base_delay =
    if policy.jitter && ltb 0 base_delay then uniform base_delay else pure base_delay

abbrev class_text : Result Dict → String
class_text (ok output) = ""
class_text (err exc) = class_name (failure_class_of exc)

module _ (run_id : String) (node : Node) (executor : NodeExecutor) (policy : NodeRetryPolicy) where
  -- the step row and the call of the executor, with the exception as a value
  unfoldable pub one_attempt : ℕ → M (Result Dict)
  one_attempt number = do
    when (not (is_self_stepping node.type))
        (create_step (step_name run_id node.id number) run_id node.id number end)
    attempt (executor run_id (step_name run_id node.id number) node)

  abbrev retry_payload : Result Dict → ℕ → ℕ → ℕ → Dict
  retry_payload outcome number delay retries_attempted = field "node_id" (str node.id) (
      field "failed_attempt" (num (pos number)) (
        field "next_attempt" (num (pos (number + 1))) (
          field "failure_class" (str (class_text outcome)) (
            field "backoff_seconds" (num (pos delay)) (
              field "retries_attempted" (num (pos retries_attempted))
                (field "max_retries" (num (pos policy.max_retries)) end))))))

  -- the row of the next attempt, by INSERT OR IGNORE
  abbrev insert_waiting : ℕ → ℕ → M Unit
  insert_waiting number now w = (
    ok tt,
    record w {
      steps =
          Table.insert_new (step_name run_id node.id number)
            (record (new_step run_id node.id number end now) { status = StepStatus.retry_wait })
            w.steps;
    },
  )

  -- what follows a retryable failure of attempt `number`, with `before` retries used so far
  unfoldable pub schedule_retry : Result Dict → ℕ → ℕ → M Unit
  schedule_retry outcome number before = do
    delay ← delay_of policy (policy.backoff_seconds * policy.backoff_factor ^ before)
    write_event (
        step_event run_id (step_name run_id node.id number) "RETRY_WAIT" "step_retry_scheduled"
          (retry_payload outcome number delay (before + 1)))
    when (not (is_self_stepping node.type)) (utc_now_rfc3339 >>= insert_waiting (number + 1))

  -- The first argument is `policy.max_retries - retries_attempted`, the second the attempts of this
  -- node so far in the run. It returns the last outcome and the attempts then.
  unfoldable pub try_node : ℕ → ℕ → M (Result Dict × ℕ)
  try_node zero attempts = do outcome ← one_attempt (attempts + 1); pure (outcome, attempts + 1)
  try_node (suc left) attempts = do
    outcome ← one_attempt (attempts + 1)
    if is_retryable policy outcome
        then (schedule_retry outcome (attempts + 1) (policy.max_retries - suc left)
            >> try_node left (attempts + 1))
        else pure (outcome, attempts + 1)
