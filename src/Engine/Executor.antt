-- ===== src/Engine/Executor.antt =====
-- backend/src/awf/engine/executor.py: the durability rule of section 13.2.
pub mod Durable
use jarvis_awf.Prelude.{
  ℕ, String, Bool, true, false, Option, none, some, List, [], ◌∷◌, if◌then◌else◌,
}
use jarvis_awf.Json.{Dict, end, field, str}
use jarvis_awf.Exec.{
  Exn, Result, ok, err, plain, type_error, class_reason, failure_class_of, pure, raise, attempt,
  or_raise, ◌>>=◌, ◌>>◌,
}
use jarvis_awf.Database.{
  World, M, Run, RunStatus, Step, StepStatus, is_succeeded, utc_now_rfc3339, update_run,
  update_step, fetch_step, write_event,
}
use jarvis_awf.Engine.Run.{run_event, step_event}

abbrev pub StepFn : Type 0
StepFn = Dict → M Dict

-- `json.loads(row["output_json"])`
abbrev pub cached_output : Step → M Dict
cached_output row =
    or_raise (plain type_error "the JSON object must be str, bytes or bytearray, not NoneType")
      row.output_json

module _ (step_id run_id : String) where
  abbrev mark_started : M Unit
  mark_started = do
    now ← utc_now_rfc3339
    update_step step_id (λ s. record s { status = StepStatus.running; started_at = now })

  abbrev mark_failed : Exn → M Unit
  mark_failed exc = do
    now ← utc_now_rfc3339
    update_step step_id (λ s. record s {
      status = StepStatus.failed;
      failure_class = some (failure_class_of exc);
      ended_at = some now;
    })

  abbrev mark_succeeded : Dict → M Unit
  mark_succeeded output = do
    now ← utc_now_rfc3339
    update_step step_id (λ s. record s {
      status = StepStatus.succeeded;
      output_json = some output;
      ended_at = some now;
    })

  -- what follows the `try`: the step is closed either way
  unfoldable pub close_step : Result Dict → M Dict
  close_step (err exc) = do
    mark_failed exc
    write_event (
        step_event run_id step_id "FAILED" (class_reason (failure_class_of exc))
          (field "error" (str exc.text) end))
    raise exc
  close_step (ok output) = do
    mark_succeeded output
    write_event (step_event run_id step_id "SUCCEEDED" "step_completed" output)
    pure output

  -- the part of `run_step` before the call of `fn`
  unfoldable pub start_step : M String
  start_step = do mark_started; write_event (step_event run_id step_id "RUNNING" "step_started" end)

  -- the part of `run_step` that a step already SUCCEEDED does not reach
  unfoldable pub execute_step : StepFn → Dict → M Dict
  execute_step fn input_payload = do
    start_step
    outcome ← attempt (fn input_payload)
    close_step outcome

  unfoldable pub run_step : StepFn → Dict → M Dict
  run_step fn input_payload = do
    row ← fetch_step step_id
    if is_succeeded row.status then cached_output row else execute_step fn input_payload

-- `UPDATE runs SET status = ?, updated_at = ?`
abbrev pub set_run_status : String → RunStatus → M Unit
set_run_status run_id s = do
  now ← utc_now_rfc3339
  update_run run_id (λ r. record r { status = s; updated_at = now })

-- one entry of the `steps` argument of run_workflow
pub record StepCall : Type 0 where
  pub step_id : String
  pub fn : StepFn
  pub input_payload : Dict

unfoldable pub run_steps : String → List StepCall → M Unit
run_steps run_id [] = pure tt
run_steps run_id (s ∷ ss) = do run_step s.step_id run_id s.fn s.input_payload; run_steps run_id ss

unfoldable pub run_workflow : String → List StepCall → M String
run_workflow run_id steps = do
  set_run_status run_id RunStatus.running
  run_steps run_id steps
  set_run_status run_id RunStatus.succeeded
  write_event (run_event run_id "SUCCEEDED" "run_completed" end)
