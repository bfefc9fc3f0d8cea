-- ===== src/Engine/Run.antt =====
-- backend/src/awf/engine/run.py. An INSERT that names an existing run is an IntegrityError.
use jarvis_awf.Prelude.{ℕ, ◌+◌, String, none, some, is_some, if◌then◌else◌}
use jarvis_awf.Prelude.Table
use jarvis_awf.Json.{Dict, end}
use jarvis_awf.Exec.{plain, integrity_error, ok, raise, gets, ◌>>=◌, ◌>>◌}
use jarvis_awf.Database.{M, Run, created, Step, pending, utc_now_rfc3339, EventArgs, write_event}

-- an event of the engine for a run, with no step
abbrev pub run_event : String → String → String → Dict → EventArgs
run_event run_id status reason payload = record {
  run = run_id;
  step = none;
  prior = none;
  status = status;
  actor = "engine";
  reason = reason;
  payload = payload;
}

-- an event of the engine for a step
abbrev pub step_event : String → String → String → String → Dict → EventArgs
step_event run_id step_id status reason payload = record {
  run = run_id;
  step = some step_id;
  prior = none;
  status = status;
  actor = "engine";
  reason = reason;
  payload = payload;
}

abbrev insert_run : String → Run → M Unit
insert_run run_id row w = (ok tt, record w { runs = Table.insert_new run_id row w.runs })

unfoldable pub create_run : String → String → Dict → M String
create_run run_id workflow_ref input_json = do
  now ← utc_now_rfc3339
  taken ← gets (λ w. is_some (Table.get run_id w.runs))
  if taken then raise (plain integrity_error "UNIQUE constraint failed: runs.run_id") else do
    insert_run run_id (record {
      workflow_ref = workflow_ref;
      status = created;
      input_json = input_json;
      output_json = none;
      created_at = now;
      updated_at = now;
    })
    write_event (run_event run_id "CREATED" "run_created" end)

abbrev pub new_step : String → String → ℕ → Dict → ℕ → Step
new_step run_id node_id attempt input_json now = record {
  run_id = run_id;
  node_id = node_id;
  attempt = attempt;
  status = pending;
  input_json = input_json;
  output_json = none;
  failure_class = none;
  started_at = now;
  ended_at = none;
}

-- create_step: INSERT OR IGNORE
abbrev pub create_step : String → String → String → ℕ → Dict → M Unit
create_step step_id run_id node_id attempt input_json w = (
  ok tt,
  record w {
    steps =
        Table.insert_new step_id
          (new_step run_id node_id attempt input_json (w.outside.clock w.readings)) w.steps;
    readings = w.readings + 1;
  },
)
