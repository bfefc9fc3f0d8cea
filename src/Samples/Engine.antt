-- ===== src/Samples/Engine.antt =====
-- Runs, steps and their recovery, on the inputs of Samples.
use jarvis_awf.Prelude.{◌≡◌, refl, inl, true, some, [], ◌∷◌}
use jarvis_awf.Prelude.Table
use jarvis_awf.Json.{end, field, str}
use jarvis_awf.Exec.{ok, err, pure}
use jarvis_awf.Database.{World, StepStatus, event_row, Step}
use jarvis_awf.Engine.Run.{step_event}
use jarvis_awf.Engine.Executor.{
  StepFn, StepCall, run_step, run_steps, execute_step, start_step, close_step,
}
use jarvis_awf.Engine.Executor.Durable.{
  IsClosed, KeepsStep, run_step-IsClosed, run_step_replay, run_steps-resume,
}
use jarvis_awf.Engine.Recovery.{is_referenced, reset_interrupted_node_steps}
use jarvis_awf.Engine.Recovery.Resets.{refused, reset-refused}
use jarvis_awf.Engine.Recovery.Spared.{reset-keeps}
use jarvis_awf.Samples.{nothing, with_step, step_row, step_found}

abbrev answers : StepFn
answers p = pure (field "answer" (str "yes") end)

answers-KeepsStep : KeepsStep "s" answers
answers-KeepsStep p w h = h

abbrev ready : World
ready = with_step StepStatus.pending

run_step-IsClosed_example : IsClosed "s" (run_step "s" "r" answers end ready)
run_step-IsClosed_example =
    run_step-IsClosed "s" "r" answers end ready (step_row StepStatus.pending) answers-KeepsStep
      (step_found StepStatus.pending) refl

ran : (run_step "s" "r" answers end ready).0 ≡ ok (field "answer" (str "yes") end)
unfolding run_step execute_step start_step close_step Table.get Table.insert_new Table.empty
ran = refl

run_step_replay_example :
    run_step "s" "r" pure end (run_step "s" "r" answers end ready).1
    ≡ (ok (field "answer" (str "yes") end), (run_step "s" "r" answers end ready).1)
run_step_replay_example =
    run_step_replay "s" "r" answers pure end end ready (step_row StepStatus.pending)
      answers-KeepsStep (step_found StepStatus.pending) refl ran

-- the step is done, with its output
abbrev done_row : Step
done_row = record (step_row StepStatus.succeeded) { output_json = some end }

abbrev done_world : World
done_world = record nothing { steps = Table.insert_new "s" done_row Table.empty }

done_found : Table.get "s" done_world.steps ≡ some done_row
unfolding Table.get Table.insert_new Table.empty
done_found = refl

abbrev call : StepCall
call = record { step_id = "s"; fn = answers; input_payload = end }

abbrev other_call : StepCall
other_call = record { step_id = "t"; fn = answers; input_payload = end }

run_steps-resume_example :
    run_steps "r" (call ∷ other_call ∷ []) done_world ≡ run_steps "r" (other_call ∷ []) done_world
run_steps-resume_example =
    run_steps-resume "r" (call ∷ []) (other_call ∷ []) done_world
      ((done_row, end, done_found, refl, refl), tt)

-- a step that was started has its event
abbrev started : World
started = record (with_step StepStatus.running) {
  events = event_row (step_event "r" "s" "RUNNING" "step_started" end) nothing ∷ [];
}

started_referenced : is_referenced started "s" ≡ true
unfolding is_referenced
started_referenced = refl

reset-refused_example : (reset_interrupted_node_steps "r" started).0 ≡ err refused
unfolding Table.exists Table.insert_new Table.empty
reset-refused_example =
    reset-refused "s" (step_row StepStatus.running) "r" started refl (step_found StepStatus.running)
      started_referenced refl

reset-keeps_example :
    Table.get "s" (reset_interrupted_node_steps "r" done_world).1.steps ≡ some done_row
reset-keeps_example = reset-keeps "s" done_row "r" done_world done_found (inl refl)
