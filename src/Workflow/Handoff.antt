-- ===== src/Workflow/Handoff.antt =====
-- backend/src/awf/workflow/handoff.py. The adapters, the commit of the worktree, the status file
-- that a hop leaves, jsonschema, and `str` of a value that is no text are parameters.
pub mod Rows
pub mod Hops
use jarvis_awf.Prelude.{
  ℕ, zero, suc, ◌+◌, ◌%◌, String, ◌<>◌, Bool, true, false, not, ◌&&◌, Option, none, some, List, [],
  ◌∷◌, ◌==◌, nat_eq, if◌then◌else◌,
}
use jarvis_awf.Prelude.Int.{ℤ, pos, negsuc, pos_part}
use jarvis_awf.Json.{
  Value, null, bool, num, str, obj, Dict, end, field, get, get_or, get_truthy, truthy, as_text,
}
use jarvis_awf.Json.Convert.{dict_of, str_of_nat}
use jarvis_awf.Exec.{
  Exn, Result, ok, err, plain, classed, type_error, key_error, handoff_error, tool_error,
  invalid_input, pure, raise, gets, lift, or_raise, ◌>>=◌, ◌>>◌,
}
use jarvis_awf.Database.{World, M, RunStatus, write_event}
use jarvis_awf.Engine.Run.{run_event, create_step}
use jarvis_awf.Engine.Executor.{set_run_status, run_step}
use jarvis_awf.Workflow.Definition.{Node}

-- what lies outside: an adapter answers an objective, by whether it completed
pub record Surroundings : Type 0 where
  pub adapters : String → Option (String → M Bool)
  pub commit : M Unit
  pub status_file : M (Option Value)
  pub conforms : Value → Value → Bool
  pub show : Value → String

abbrev pub status_filename : String
status_filename = "handoff_status.json"

-- `node[key]`
abbrev pub require_field : String → Dict → Result Value
require_field key d = elim (get key d) [ none ↦ err (plain key_error key) | some v ↦ ok v ]

abbrev pub require_dict : String → Dict → Result Dict
require_dict key d = elim (require_field key d) [ err e ↦ err e | ok v ↦ dict_of v ]

abbrev pub require_text : String → Dict → Result String
require_text key d = elim (as_text (get key d)) [ none ↦ err (plain key_error key) | some s ↦ ok s ]

-- the length of `range(node["maxHops"])`
abbrev pub hops_of : Option Value → Result ℕ
hops_of (some (num z)) = ok (pos_part z)
hops_of (some (bool true)) = ok 1
hops_of (some (bool false)) = ok 0
hops_of none = err (plain key_error "maxHops")
hops_of _ = err (plain type_error "object cannot be interpreted as an integer")

-- the number of hops, behind the two agents that the node names
abbrev pub max_hops_of : Node → Result ℕ
max_hops_of n = elim (require_field "initiatingAgent" n.fields) [
  | err e ↦ err e
  | ok first ↦ elim (require_field "receivingAgent" n.fields) [
    | err e ↦ err e
    | ok second ↦ hops_of (get "maxHops" n.fields)
  ]
]

-- `agents[hop % 2]`, whose key names the agent in the node
abbrev pub agent_key : ℕ → String
agent_key hop = if nat_eq (hop % 2) 0 then "initiatingAgent" else "receivingAgent"

abbrev pub termination_field : Node → String
termination_field n = elim (as_text (get "terminationField" n.fields)) [
  | none ↦ "handoff_complete"
  | some s ↦ s
]

abbrev pub completed_output : ℕ → Dict
completed_output hops = field "completed" (bool true) (field "hops_used" (num (pos hops)) end)

abbrev pub waiting_output : ℕ → Dict
waiting_output hops =
    field "completed" (bool false)
      (field "hops_used" (num (pos hops)) (field "waiting_input" (bool true) end))

module _ (out : Surroundings) (run_id step_id : String) (n : Node) where
  abbrev text_of : Value → String
  text_of (str s) = s
  text_of v = out.show v

  abbrev with_summary : String → Value → String
  with_summary objective summary =
      if truthy summary
      then objective <> ("\n\nPrevious hop summary: " <> text_of summary)
      else objective

  -- the objective of a hop
  unfoldable pub objective_of : String → Value → String
  objective_of objective summary =
      with_summary objective summary
      <> ("\n\nWhen done, write a file named "
          <> (status_filename
              <> (" in the current directory containing exactly this JSON: {\""
                  <> (termination_field n
                      <> "\": <true or false>, \"summary\": \"<one-line summary of what you did>\"}"))))

  unfoldable pub hop_step : ℕ → String
  unfolding str_of_nat
  hop_step count = step_id <> (":hop" <> str_of_nat count)

  unfoldable pub hop_node : ℕ → String
  unfolding str_of_nat
  hop_node count = n.id <> (":hop" <> str_of_nat count)

  -- `fn` of a hop
  unfoldable pub hop_fn : (String → M Bool) → String → Dict → M Dict
  hop_fn adapter objective payload = do
    completed ← adapter objective
    if completed
        then pure (field "status" (str "COMPLETED") end)
        else raise (classed handoff_error tool_error "the hop did not complete")

  unfoldable pub conforming : Option Value → M Dict
  conforming none = raise (classed handoff_error tool_error "agent did not write the status file")
  conforming (some status) = do
    schema ← lift (require_field "payloadSchema" n.fields)
    if not (out.conforms status schema)
        then raise
            (classed handoff_error invalid_input "the status file does not match payloadSchema")
        else lift (dict_of status)

  abbrev find_adapter : String → M (String → M Bool)
  find_adapter name = or_raise (plain key_error name) (out.adapters name)

  -- the adapter and the objective of a hop, from the configuration of its agent
  unfoldable pub plan_hop : ℕ → Value → M ((String → M Bool) × String)
  plan_hop hop summary = do
    agent ← lift (require_dict (agent_key hop) n.fields)
    name ← lift (require_text "adapter" agent)
    adapter ← find_adapter name
    objective ← lift (require_text "objective" agent)
    pure (adapter, objective_of objective summary)

  -- the hop as a durable step, and the commit behind it
  unfoldable pub perform_hop : ℕ → (String → M Bool) × String → M Unit
  perform_hop count (adapter, objective) = do
    create_step (hop_step count) run_id (hop_node count) 1 end
    run_step (hop_step count) run_id (hop_fn adapter objective) end
    out.commit

  -- one hop, up to the status that it leaves
  unfoldable pub one_hop : ℕ → Value → M Dict
  one_hop hop summary = do
    plan_hop hop summary >>= perform_hop (hop + 1)
    out.status_file >>= conforming

  -- what follows the `for` without a termination
  unfoldable pub exhaust : ℕ → M Dict
  exhaust hops = do
    set_run_status run_id RunStatus.waiting_input
    write_event (run_event run_id "WAITING_INPUT" "handoff_max_hops_reached" end)
    pure (waiting_output hops)

  -- The `for`, with the hops that are left, those that are done, and the last summary.
  unfoldable pub hop_loop : ℕ → ℕ → Value → M Dict
  hop_loop zero hop summary = exhaust hop
  hop_loop (suc left) hop summary = one_hop hop summary >>= λ status.
      if get_truthy (termination_field n) status
      then pure (completed_output (hop + 1))
      else hop_loop left (hop + 1) (get_or "summary" (str "") status)

  -- make_handoff_node_executor
  unfoldable pub handoff_executor : M Dict
  handoff_executor = lift (max_hops_of n) >>= λ max_hops. hop_loop max_hops 0 (str "")
