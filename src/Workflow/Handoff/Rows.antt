-- ===== src/Workflow/Handoff/Rows.antt =====
-- The row of the run, during the hops of a handoff.
use jarvis_awf.Prelude.{
  ℕ, ◌+◌, String, ◌≡◌, refl, Bool, true, false, not, Option, none, some, if◌then◌else◌,
}
use jarvis_awf.Prelude.Table
use jarvis_awf.Json.{Value, str, Dict, end, field}
use jarvis_awf.Json.Convert.{dict_of}
use jarvis_awf.Exec.{
  Exn, Result, ok, err, plain, classed, handoff_error, tool_error, invalid_input, key_error, pure,
  raise, lift, or_raise, ◌>>=◌,
}
use jarvis_awf.Exec.Inversion.{Preserves, >>=-Preserves, >>=-Post}
use jarvis_awf.Database.{World, M, Step, fetch_step, is_succeeded}
use jarvis_awf.Engine.Executor.{
  StepFn, start_step, close_step, execute_step, run_step, cached_output,
}
use jarvis_awf.Workflow.Definition.{Node}
use jarvis_awf.Workflow.Engine.Statuses.{HasRun}
use jarvis_awf.Workflow.Handoff.{
  Surroundings, require_field, require_dict, require_text, agent_key, objective_of, plan_hop,
  perform_hop, hop_step, hop_fn, conforming, one_hop,
}

or_raise_keeps :
    {A : Type 0} (k : String) (e : Exn) (o : Option A)
    → Preserves (HasRun k) (or_raise {S = World} e o)
or_raise_keeps k e none w h = h
or_raise_keeps k e (some a) w h = h

lift_keeps : {A : Type 0} (k : String) (r : Result A) → Preserves (HasRun k) (lift {S = World} r)
lift_keeps k (ok a) w h = h
lift_keeps k (err e) w h = h

module _ (k step_id run_id : String) where
  close_step-HasRun : (r : Result Dict) → Preserves (HasRun k) (close_step step_id run_id r)
  unfolding close_step
  close_step-HasRun (ok output) w h = h
  close_step-HasRun (err e) w h = h

  execute_step-HasRun :
      (fn : StepFn) (p : Dict)
      → Preserves (HasRun k) (fn p)
      → Preserves (HasRun k) (execute_step step_id run_id fn p)
  unfolding execute_step start_step
  execute_step-HasRun fn p keeps w h =
      let w1 = (start_step step_id run_id w).1 in
      close_step-HasRun (fn p w1).0 (fn p w1).1 (keeps w1 h)

  -- a step does to the row of a run what its function does
  run_step-HasRun :
      (fn : StepFn) (p : Dict)
      → Preserves (HasRun k) (fn p)
      → Preserves (HasRun k) (run_step step_id run_id fn p)
  unfolding run_step
  run_step-HasRun fn p keeps =
      >>=-Preserves (HasRun k) (fetch_step step_id) next fetched
        (λ row. chosen row (is_succeeded row.status))
    where
      next : Step → M Dict
      next row =
          if is_succeeded row.status then cached_output row else execute_step step_id run_id fn p

      fetched : Preserves (HasRun k) (fetch_step step_id)
      fetched w h = or_raise_keeps k _ (Table.get step_id w.steps) w h

      chosen :
          (row : Step) (b : Bool)
          → Preserves (HasRun k) (if b then cached_output row else execute_step step_id run_id fn p)
      chosen row true = or_raise_keeps k _ row.output_json
      chosen row false = execute_step-HasRun fn p keeps

-- what lies outside leaves the row of the run in the table
pub record Keeps (run_id : String) (out : Surroundings) : Type 0 where
  pub adapters :
      (name objective : String) (adapter : String → M Bool)
      → out.adapters name ≡ some adapter
      → Preserves (HasRun run_id) (adapter objective)
  pub commit : Preserves (HasRun run_id) out.commit
  pub status_file : Preserves (HasRun run_id) out.status_file

module _ (out : Surroundings) (run_id step_id : String) (n : Node) (keeps : Keeps run_id out) where
  hop_fn-HasRun :
      (adapter : String → M Bool) (objective : String) (p : Dict)
      → Preserves (HasRun run_id) (adapter objective)
      → Preserves (HasRun run_id) (hop_fn out run_id step_id n adapter objective p)
  unfolding hop_fn
  hop_fn-HasRun adapter objective p k =
      >>=-Preserves (HasRun run_id) (adapter objective) ended k tested
    where
      ended : Bool → M Dict
      ended completed =
          if completed
          then pure (field "status" (str "COMPLETED") end)
          else raise (classed handoff_error tool_error "the hop did not complete")

      tested :
          (b : Bool)
          → Preserves (HasRun run_id) (
              if b
              then pure (field "status" (str "COMPLETED") end)
              else raise (classed handoff_error tool_error "the hop did not complete"))
      tested true w h = h
      tested false w h = h

  perform_hop-HasRun :
      (count : ℕ) (adapter : String → M Bool) (objective : String)
      → Preserves (HasRun run_id) (adapter objective)
      → Preserves (HasRun run_id) (perform_hop out run_id step_id n count (adapter, objective))
  unfolding perform_hop
  perform_hop-HasRun count adapter objective k w h =
      >>=-Preserves (HasRun run_id)
        (run_step (hop_step out run_id step_id n count) run_id
          (hop_fn out run_id step_id n adapter objective) end)
        (λ _. out.commit)
        (run_step-HasRun run_id _ run_id _ end (hop_fn-HasRun adapter objective end k))
        (λ _. keeps.commit) _ h

  conforming-HasRun :
      (o : Option Value) → Preserves (HasRun run_id) (conforming out run_id step_id n o)
  unfolding conforming
  conforming-HasRun none = λ w h. h
  conforming-HasRun (some status) =
      >>=-Preserves (HasRun run_id) (lift (require_field "payloadSchema" n.fields)) checked
        (lift_keeps run_id (require_field "payloadSchema" n.fields))
        (λ schema. tested (not (out.conforms status schema)))
    where
      checked : Value → M Dict
      checked schema =
          if not (out.conforms status schema)
          then raise
              (classed handoff_error invalid_input "the status file does not match payloadSchema")
          else lift (dict_of status)

      tested :
          (b : Bool)
          → Preserves (HasRun run_id) (
              if b
              then raise (
                  classed handoff_error invalid_input
                    "the status file does not match payloadSchema")
              else lift (dict_of status))
      tested true = λ w h. h
      tested false = lift_keeps run_id (dict_of status)

  -- the plan of a hop: an adapter that keeps the row
  abbrev Planned : Result ((String → M Bool) × String) × World → Type 0
  Planned (ok (adapter, objective), v) =
      HasRun run_id v × Preserves (HasRun run_id) (adapter objective)
  Planned (err e, v) = HasRun run_id v

  plan_hop-Planned :
      (hop : ℕ) (summary : Value) (w : World)
      → HasRun run_id w
      → Planned (plan_hop out run_id step_id n hop summary w)
  unfolding plan_hop
  plan_hop-Planned hop summary w h =
      >>=-Post Kept Planned (lift agent_config) with_agent w (lift_keeps run_id agent_config w h)
        (λ agent v h1.
          >>=-Post Kept Planned (lift (require_text "adapter" agent)) (with_name agent) v
            (lift_keeps run_id (require_text "adapter" agent) v h1)
            (λ name u h2. found agent name (out.adapters name) refl u h2) (λ e u h2. h2))
        (λ e v h1. h1)
    where
      Kept : {A : Type 0} → Result A × World → Type 0
      Kept x = HasRun run_id x.1

      agent_config : Result Dict
      agent_config = require_dict (agent_key hop) n.fields

      with_objective : (String → M Bool) → String → M ((String → M Bool) × String)
      with_objective adapter objective =
          pure (adapter, objective_of out run_id step_id n objective summary)

      with_adapter : Dict → (String → M Bool) → M ((String → M Bool) × String)
      with_adapter agent adapter = lift (require_text "objective" agent) >>= with_objective adapter

      with_name : Dict → String → M ((String → M Bool) × String)
      with_name agent name =
          or_raise (plain key_error name) (out.adapters name) >>= with_adapter agent

      with_agent : Dict → M ((String → M Bool) × String)
      with_agent agent = lift (require_text "adapter" agent) >>= with_name agent

      said :
          (name : String) (adapter : String → M Bool) (o : Result String) (v : World)
          → out.adapters name ≡ some adapter
          → HasRun run_id v
          → Planned ((lift o >>= with_objective adapter) v)
      said name adapter (ok objective) v e h = (h, keeps.adapters name _ adapter e)
      said name adapter (err x) v e h = h

      found :
          (agent : Dict) (name : String) (o : Option (String → M Bool))
          → out.adapters name ≡ o
          → (v : World) → HasRun run_id v
          → Planned ((or_raise (plain key_error name) o >>= with_adapter agent) v)
      found agent name none e v h = h
      found agent name (some adapter) e v h =
          said name adapter (require_text "objective" agent) v e h

  pub one_hop-HasRun :
      (hop : ℕ) (summary : Value)
      → Preserves (HasRun run_id) (one_hop out run_id step_id n hop summary)
  unfolding one_hop
  one_hop-HasRun hop summary =
      >>=-Preserves (HasRun run_id) (plan >>= perform)
        (λ _. out.status_file >>= conforming out run_id step_id n) performed
        (λ _.
          >>=-Preserves (HasRun run_id) out.status_file (conforming out run_id step_id n)
            keeps.status_file conforming-HasRun)
    where
      plan : M ((String → M Bool) × String)
      plan = plan_hop out run_id step_id n hop summary

      perform : (String → M Bool) × String → M Unit
      perform = perform_hop out run_id step_id n (hop + 1)

      performed : Preserves (HasRun run_id) (plan >>= perform)
      performed w h =
          >>=-Post Planned (λ x. HasRun run_id x.1) plan perform w
            (plan_hop-Planned hop summary w h)
            (λ (adapter, objective) v (g, k). perform_hop-HasRun (hop + 1) adapter objective k v g)
            (λ e v g. g)
