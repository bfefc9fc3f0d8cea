-- ===== src/Workflow/Engine/Turns.antt =====
-- What one visit of a node does to the position of the loop and to the repairs used.
use jarvis_awf.Prelude.{
  ◌==◌, ◌<>◌, ℕ, ◌+◌, ◌<◌, String, ◌≡◌, ◌⊎◌, inl, inr, refl, sym, ap, Bool, true, false, Option,
  none, some, arith, if◌then◌else◌, member,
}
use jarvis_awf.Prelude.Int.{pos_part}
use jarvis_awf.Json.{Value, bool, num, Dict, get_truthy, get_or}
use jarvis_awf.Exec.{Result, ok, err, plain, workflow_engine_error, ◌>>=◌, pure, lift, raise}
use jarvis_awf.Exec.Inversion.{>>=-Returned}
use jarvis_awf.Database.{World, M}
use jarvis_awf.Workflow.Definition.{
  Node, WorkflowDefinition, target, node, resolve_retry_policy, NodeRetryPolicy,
}
use jarvis_awf.Workflow.Attempts.{NodeExecutor, try_node}
use jarvis_awf.Workflow.Engine.{
  Progress, Ending, waiting, step_failed, gate_failed, invalid_output, completed, Next, go, stop,
  exhausted, max_repairs, gate_ending, repair, failed_gate, after_output, after_attempts, run_node,
  with_policy, with_executor, find_executor, visit, mark_run_failed, count_of, executable_types,
}

-- the number of repairs that the budget allows
abbrev pub allowed : Value → ℕ
allowed (num z) = pos_part z
allowed (bool true) = 1
allowed _ = 0

exhausted-allowed : (v : Value) (n : ℕ) → exhausted v n ≡ ok false → n < allowed v
unfolding exhausted
exhausted-allowed v n h = ground arith

abbrev pub repairs_of : Ending → ℕ
repairs_of (waiting n output) = n
repairs_of (step_failed n error) = n
repairs_of (gate_failed n verdict) = n
repairs_of (invalid_output n error) = n
repairs_of (completed n verdict outputs) = n

module _ (workflow : WorkflowDefinition) where
  -- on to `next`, or to `onFail` against the budget; an ending keeps the count
  abbrev pub Turn : ℕ → Node → Next → Type 0
  Turn repairs n (stop e) = repairs_of e ≡ repairs
  Turn repairs n (go q) =
      (q.repairs_used ≡ repairs) × (q.current ≡ target "next" n)
      ⊎ (repairs < allowed (max_repairs workflow))
        × (q.repairs_used ≡ repairs + 1)
        × (q.current ≡ target "onFail" n)

  Turn-ok :
      (repairs : ℕ) (n : Node) {y x : Next} → ok y ≡ ok x → Turn repairs n y → Turn repairs n x
  Turn-ok repairs n {y} h t =
      let same : y ≡ _ = ap (λ (r : Result Next). elim r [ ok a ↦ a | err e ↦ y ]) h in
      rw (sym same) t

module _ (run_id : String) (workflow : WorkflowDefinition)
    (executors : String → Option NodeExecutor) (validates : Dict → Dict → Option String) where
  gate_ending-Turn :
      (p : Progress) (n : Node) (output : Dict) (reason : String) (w : World) {x : Next}
      → (gate_ending run_id workflow executors validates p output reason w).0 ≡ ok x
      → Turn workflow p.repairs_used n x
  unfolding gate_ending
  gate_ending-Turn p n output reason w {x} h =
      let a =
        >>=-Returned (mark_run_failed run_id reason)
          (λ _.
            pure
              (stop (gate_failed p.repairs_used (get_or "verdict_artifact_id" Value.null output))))
          w h in
      Turn-ok workflow p.repairs_used n a.second refl

  repair-Turn :
      (p : Progress) (n : Node) (w : World) {x : Next}
      → p.repairs_used < allowed (max_repairs workflow)
      → (repair run_id workflow executors validates p (target "onFail" n) w).0 ≡ ok x
      → Turn workflow p.repairs_used n x
  unfolding repair
  repair-Turn p n w {x} b h = from (target "onFail" n) refl h
    where
      from :
          (o : Option String)
          → target "onFail" n ≡ o
          → (repair run_id workflow executors validates p o w).0 ≡ ok x
          → Turn workflow p.repairs_used n x
      from none e g = absurd (cc g)
      from (some i) e g = Turn-ok workflow p.repairs_used n g (inr (b, refl, sym e))

  failed_gate-Turn :
      (p : Progress) (n : Node) (output : Dict) (w : World) {x : Next}
      → (failed_gate run_id workflow executors validates p n output w).0 ≡ ok x
      → Turn workflow p.repairs_used n x
  unfolding failed_gate
  failed_gate-Turn p n output w {x} h = from (get_truthy "terminal_failure" output) h
    where
      ending : String → M Next
      ending reason = gate_ending run_id workflow executors validates p output reason

      judged : Bool → M Next
      judged spent =
          if spent
          then ending "gate_repair_budget_exhausted"
          else repair run_id workflow executors validates p (target "onFail" n)

      judge :
          (r : Result Bool)
          → exhausted (max_repairs workflow) p.repairs_used ≡ r
          → ((lift r >>= judged) w).0 ≡ ok x
          → Turn workflow p.repairs_used n x
      judge (err e) s g = absurd (cc g)
      judge (ok true) s g = gate_ending-Turn p n output "gate_repair_budget_exhausted" w g
      judge (ok false) s g =
          repair-Turn p n w (exhausted-allowed (max_repairs workflow) p.repairs_used s) g

      from :
          (b : Bool)
          → ((if b
                then ending "gate_terminal_failure"
                else (lift (exhausted (max_repairs workflow) p.repairs_used) >>= judged))
              w).0
            ≡ ok x
          → Turn workflow p.repairs_used n x
      from true g = gate_ending-Turn p n output "gate_terminal_failure" w g
      from false g = judge (exhausted (max_repairs workflow) p.repairs_used) refl g

  after_output-Turn :
      (p : Progress) (n : Node) (output : Dict) (w : World) {x : Next}
      → (after_output run_id workflow executors validates p n output w).0 ≡ ok x
      → Turn workflow p.repairs_used n x
  unfolding after_output
  after_output-Turn p n output w {x} h =
      from (get_truthy "waiting_input" output) (n.type == "gate") (get_truthy "passed" output) h
    where
      goes : Progress → M Next
      goes q = pure (go q)

      from :
          (waits is_gate passes : Bool)
          → ((if waits
                then pure (stop (waiting p.repairs_used output))
                else if is_gate
                then if passes
                  then goes (record p {
                    last_verdict = get_or "verdict_artifact_id" Value.null output;
                    current = target "next" n;
                  })
                  else failed_gate run_id workflow executors validates p n output
                else goes (record p { current = target "next" n }))
              w).0
            ≡ ok x
          → Turn workflow p.repairs_used n x
      from true _ _ g = Turn-ok workflow p.repairs_used n g refl
      from false true true g = Turn-ok workflow p.repairs_used n g (inl (refl, refl))
      from false true false g = failed_gate-Turn p n output w g
      from false false _ g = Turn-ok workflow p.repairs_used n g (inl (refl, refl))

  after_attempts-Turn :
      (p : Progress) (n : Node) (o : Result Dict × ℕ) (w : World) {x : Next}
      → (after_attempts run_id workflow executors validates p n o w).0 ≡ ok x
      → Turn workflow p.repairs_used n x
  unfolding after_attempts
  after_attempts-Turn p n (ok output, attempts) w h = after_output-Turn _ n output w h
  after_attempts-Turn p n (err e, attempts) w h =
      let a =
        >>=-Returned (mark_run_failed run_id ("step_failed:" <> e.text))
          (λ _. pure (stop (step_failed p.repairs_used e.text))) w h in
      Turn-ok workflow p.repairs_used n a.second refl

  abbrev find : Node → M NodeExecutor
  find = find_executor run_id workflow executors validates

  abbrev run_with : Progress → Node → NodeExecutor → M Next
  run_with = with_executor run_id workflow executors validates

  abbrev run_by : Progress → Node → NodeExecutor → NodeRetryPolicy → M Next
  run_by = with_policy run_id workflow executors validates

  run_node-Turn :
      (p : Progress) (n : Node) (w : World) {x : Next}
      → (run_node run_id workflow executors validates p n w).0 ≡ ok x
      → Turn workflow p.repairs_used n x
  unfolding run_node
  run_node-Turn p n w h =
      let a = >>=-Returned (find n) (run_with p n) w h in
      let w1 = (find n w).1 in
      let b =
        >>=-Returned (lift (resolve_retry_policy workflow n)) (run_by p n a.value) w1 a.second in
      let w2 = (lift (resolve_retry_policy workflow n) w1).1 in
      let c =
        >>=-Returned
          (try_node run_id n a.value b.value b.value.max_retries (count_of n.id p.attempt_counts))
          (after_attempts run_id workflow executors validates p n) w2 b.second in
      after_attempts-Turn p n c.value
        (try_node run_id n a.value b.value b.value.max_retries (count_of n.id p.attempt_counts)
          w2).1
        c.second

  -- one visit that returned was a turn at the node of this id
  pub visit-Turn :
      (p : Progress) (i : String) (w : World) {x : Next}
      → (visit run_id workflow executors validates p i w).0 ≡ ok x
      → (n : Node) × (node workflow i ≡ ok n) × Turn workflow p.repairs_used n x
  unfolding visit
  visit-Turn p i w {x} h = at_node (node workflow i) refl h
    where
      known : Node → M Next
      known n =
          if member n.type executable_types
          then run_node run_id workflow executors validates p n
          else raise (plain workflow_engine_error "node type has no execution semantics yet")

      at_type :
          (b : Bool) (n : Node)
          → ((if b
                then run_node run_id workflow executors validates p n
                else raise (plain workflow_engine_error "node type has no execution semantics yet"))
              w).0
            ≡ ok x
          → Turn workflow p.repairs_used n x
      at_type true n g = run_node-Turn p n w g
      at_type false n g = absurd (cc g)

      at_node :
          (r : Result Node)
          → node workflow i ≡ r
          → ((lift r >>= known) w).0 ≡ ok x
          → (n : Node) × (node workflow i ≡ ok n) × Turn workflow p.repairs_used n x
      at_node (err e) s g = absurd (cc g)
      at_node (ok n) s g = (n, s, at_type (member n.type executable_types) n g)
