-- ===== src/Samples/Children.antt =====
-- A loop whose condition holds on, and a handoff that never terminates, on the run of Samples.
use jarvis_awf.Prelude.{
  ℕ, ◌+◌, ◌≤◌, List, [], ◌∷◌, length, take, String, ◌≡◌, ◌==◌, refl, sym, ap, Bool, true, false,
  Option, some, none, if◌then◌else◌,
}
use jarvis_awf.Prelude.Int.{pos}
use jarvis_awf.Prelude.Table
use jarvis_awf.Json.{Dict, num, str, bool, obj, field, end}
use jarvis_awf.Json.Convert.{str_of_nat}
use jarvis_awf.Exec.{ok, err, pure}
use jarvis_awf.Exec.Inversion.{Preserves}
use jarvis_awf.Database.{World, M, StepStatus}
use jarvis_awf.Engine.Executor.{run_step, start_step, close_step, execute_step}
use jarvis_awf.Workflow.Definition.{Node}
use jarvis_awf.Workflow.Engine.Statuses.{HasRun}
use jarvis_awf.Workflow.Children.{
  RunChild, has_succeeded, last_step_output, iterate, exhaust, loop_executor,
}
use jarvis_awf.Workflow.Children.Iterations.{Loops, loop_executor-IsOver}
use jarvis_awf.Workflow.Handoff.{
  Surroundings, handoff_executor, hop_loop, one_hop, plan_hop, perform_hop, hop_step, hop_node,
  hop_fn, objective_of, conforming,
}
use jarvis_awf.Workflow.Handoff
use jarvis_awf.Workflow.Handoff.Hops
use jarvis_awf.Workflow.Handoff.Rows.{Keeps}
use jarvis_awf.Workflow.Handoff.Hops.{handoff_executor-IsOver}
use jarvis_awf.Workflow.Mapping.{Finished, MapOutside, merge_results}
use jarvis_awf.Workflow.Mapping.Merges.{merged, removed, Outcome, merge_results-Outcome}
use jarvis_awf.Samples.{nothing, run_row, step_row, with_step, run_found}

abbrev loop_node : Node
loop_node = record {
  id = "again";
  type = "loop";
  fields = field "maxIterations" (num (pos 2)) (field "workflowRef" (str "build@1.0.0") end);
}

-- a child that succeeds
abbrev run_child : RunChild
run_child reference input = pure ("r", field "status" (str "SUCCEEDED") end)

-- the last step of the child says to go on
abbrev going_on : World
going_on = record (with_step StepStatus.succeeded) {
  steps =
      Table.insert_new "s"
        (record (step_row StepStatus.succeeded) {
          output_json = some (field "continue" (bool true) end);
        })
        Table.empty;
}

abbrev loop_output : Dict
loop_output = elim (loop_executor run_child "r" loop_node going_on).0 [
  | ok output ↦ output
  | err e ↦ end
]

looped : (loop_executor run_child "r" loop_node going_on).0 ≡ ok loop_output
unfolding loop_executor iterate exhaust has_succeeded last_step_output Table.get Table.insert_new
    Table.empty Table.rows
looped = refl

run_there : HasRun "r" going_on
run_there = (run_row, run_found StepStatus.succeeded)

loop_executor-IsOver_example :
    Loops run_child "r"
      (λ reference input w h. h)
      loop_node
      2
      going_on
      loop_output
      (loop_executor run_child "r" loop_node going_on).1
loop_executor-IsOver_example =
    loop_executor-IsOver run_child "r" (λ reference input w h. h) loop_node 2 going_on refl
      run_there looped

abbrev agent : Dict
agent = field "adapter" (str "codex") (field "objective" (str "review it") end)

abbrev handoff_node : Node
handoff_node = record {
  id = "hand";
  type = "handoff";
  fields = field "initiatingAgent" (obj agent) (
      field "receivingAgent" (obj agent)
        (field "payloadSchema" (obj end) (field "maxHops" (num (pos 1)) end)));
}

-- one adapter, which completes, and leaves a status that does not end the handoff
abbrev around : Surroundings
around = record {
  adapters = λ name. if name == "codex" then some (λ objective. pure true) else none;
  commit = pure tt;
  status_file = pure (some (obj (field "summary" (str "half") end)));
  conforms = λ status schema. true;
  show = λ v. "";
}

abbrev codex : String → M Bool
codex objective = pure true

some_same : {a b : String → M Bool} → some a ≡ some b → a ≡ b
some_same {a = a} e = ap (λ (o : Option (String → M Bool)). elim o [ none ↦ a | some x ↦ x ]) e

around-Keeps : Keeps "r" around
around-Keeps = record {
  adapters = λ name objective adapter e. kept objective adapter (name == "codex") e;
  commit = λ w h. h;
  status_file = λ w h. h;
}
  where
    kept :
        (objective : String) (adapter : String → M Bool) (b : Bool)
        → (if b then some codex else none) ≡ some adapter
        → Preserves (HasRun "r") (adapter objective)
    kept objective adapter true e w h = rw (sym (some_same e)) h
    kept objective adapter false e w h = absurd (cc e)

abbrev started : World
started = with_step StepStatus.succeeded

abbrev handed : Dict
handed = elim (handoff_executor around "r" "s" handoff_node started).0 [
  | ok output ↦ output
  | err e ↦ end
]

handoff_done : (handoff_executor around "r" "s" handoff_node started).0 ≡ ok handed
unfolding handoff_executor hop_loop one_hop plan_hop perform_hop hop_step hop_node hop_fn
    objective_of conforming Handoff.exhaust run_step execute_step start_step close_step Table.get
    Table.insert_new Table.update Table.empty str_of_nat
handoff_done = refl

handoff_executor-IsOver_example :
    Hops.IsOver around "r" "s" handoff_node 1 0
      (str "")
      started
      handed
      (handoff_executor around "r" "s" handoff_node started).1
handoff_executor-IsOver_example =
    handoff_executor-IsOver around "r" "s" handoff_node around-Keeps 1 started refl
      (run_row, run_found StepStatus.succeeded) handoff_done

-- two children, the second of which failed
abbrev finished : List Finished
finished =
    record { child_run_id = "a"; result = field "status" (str "SUCCEEDED") end }
    ∷ record { child_run_id = "b"; result = field "status" (str "FAILED") end }
    ∷ []

abbrev mapping : MapOutside
mapping = record {
  run_map_item = λ head index ref item. pure (record { child_run_id = "a"; result = end });
  run_pool = λ workers head ref items. pure [];
  current_head = λ disk. ok "c0";
  merge_branch = λ child disk. (ok tt, disk + 1);
  remove_worktree = λ child disk. disk + 10;
  is_windows = false;
}

merge_results-Outcome_example :
    (n : ℕ) × (n ≤ length finished)
    × ((merge_results mapping finished nothing).1
        ≡ record nothing { disk = removed mapping finished (merged mapping (take n finished) 0) })
    × Outcome mapping finished n 0 (merge_results mapping finished nothing).0
merge_results-Outcome_example = merge_results-Outcome mapping finished nothing
