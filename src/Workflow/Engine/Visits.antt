-- ===== src/Workflow/Engine/Visits.antt =====
-- The row of the run through one visit of a node.
use jarvis_awf.Prelude.{
  ℕ, String, ◌≡◌, refl, Bool, true, false, Option, none, some, ◌==◌, member, if◌then◌else◌,
}
use jarvis_awf.Json.{Value, Dict, get_truthy, get_or}
use jarvis_awf.Exec.{
  Result, ok, err, plain, workflow_engine_error, ◌>>=◌, pure, raise, lift, or_raise,
}
use jarvis_awf.Exec.Inversion.{>>=-Post}
use jarvis_awf.Database.{World, M, RunStatus}
use jarvis_awf.Workflow.Definition.{
  Node, NodeRetryPolicy, WorkflowDefinition, target, node, resolve_retry_policy,
}
use jarvis_awf.Workflow.Attempts.{NodeExecutor, try_node}
use jarvis_awf.Workflow.Engine.{
  Progress, Ending, waiting, completed, Next, go, stop, mark_run_failed, max_repairs, count_of,
  executable_types, exhausted, gate_ending, repair, failed_gate, after_output, after_attempts,
  with_policy, with_executor, run_node, visit,
}
use jarvis_awf.Workflow.Engine.Statuses.{
  HasRun, HasStatus, KeepsRun, set_run_status-HasStatus, try_node-HasRun,
}

-- the row of the run agrees with the ending
abbrev pub IsSettled : String → Ending → World → Type 0
IsSettled k (waiting n output) v = HasRun k v × (get_truthy "waiting_input" output ≡ true)
IsSettled k (completed n verdict outputs) v = HasStatus k RunStatus.succeeded v
IsSettled k _ v = HasStatus k RunStatus.failed v

module _ (k : String) where
  abbrev pub Turned : Result Next × World → Type 0
  Turned (ok (go q), v) = HasRun k v
  Turned (ok (stop e), v) = IsSettled k e v
  Turned (err e, v) = HasRun k v

module _ (run_id : String) (workflow : WorkflowDefinition)
    (executors : String → Option NodeExecutor) (validates : Dict → Dict → Option String) where
  abbrev failed_gate_of : Progress → Node → Dict → M Next
  failed_gate_of = failed_gate run_id workflow executors validates

  failed_gate-Turned :
      (p : Progress) (n : Node) (output : Dict) (w : World)
      → HasRun run_id w
      → Turned run_id (failed_gate_of p n output w)
  unfolding failed_gate gate_ending repair mark_run_failed
  failed_gate-Turned p n output w h = from (get_truthy "terminal_failure" output)
    where
      ending : String → M Next
      ending reason = gate_ending run_id workflow executors validates p output reason

      ends : (reason : String) → Turned run_id (ending reason w)
      ends reason = set_run_status-HasStatus run_id RunStatus.failed w h

      repairs :
          (o : Option String) → Turned run_id (repair run_id workflow executors validates p o w)
      repairs none = h
      repairs (some i) = h

      judged : Bool → M Next
      judged spent =
          if spent
          then ending "gate_repair_budget_exhausted"
          else repair run_id workflow executors validates p (target "onFail" n)

      judge : (r : Result Bool) → Turned run_id ((lift r >>= judged) w)
      judge (err e) = h
      judge (ok true) = ends "gate_repair_budget_exhausted"
      judge (ok false) = repairs (target "onFail" n)

      from :
          (b : Bool)
          → Turned run_id (
              (if b
                  then ending "gate_terminal_failure"
                  else (lift (exhausted (max_repairs workflow) p.repairs_used) >>= judged))
                w)
      from true = ends "gate_terminal_failure"
      from false = judge (exhausted (max_repairs workflow) p.repairs_used)

  after_output-Turned :
      (p : Progress) (n : Node) (output : Dict) (w : World)
      → HasRun run_id w
      → Turned run_id (after_output run_id workflow executors validates p n output w)
  unfolding after_output
  after_output-Turned p n output w h =
      from (get_truthy "waiting_input" output) refl (n.type == "gate") (get_truthy "passed" output)
    where
      goes : Progress → M Next
      goes q = pure (go q)

      from :
          (waits : Bool)
          → get_truthy "waiting_input" output ≡ waits
          → (is_gate passes : Bool)
          → Turned run_id (
              (if waits
                  then pure (stop (waiting p.repairs_used output))
                  else if is_gate
                  then if passes
                    then goes (record p {
                      last_verdict = get_or "verdict_artifact_id" Value.null output;
                      current = target "next" n;
                    })
                    else failed_gate_of p n output
                  else goes (record p { current = target "next" n }))
                w)
      from true e _ _ = (h, e)
      from false e true true = h
      from false e true false = failed_gate-Turned p n output w h
      from false e false _ = h

  after_attempts-Turned :
      (p : Progress) (n : Node) (o : Result Dict × ℕ) (w : World)
      → HasRun run_id w
      → Turned run_id (after_attempts run_id workflow executors validates p n o w)
  unfolding after_attempts mark_run_failed
  after_attempts-Turned p n (ok output, attempts) w h = after_output-Turned _ n output w h
  after_attempts-Turned p n (err e, attempts) w h =
      set_run_status-HasStatus run_id RunStatus.failed w h

  -- No executor removes the row of the run.
  abbrev pub AllKeepRun : Type 0
  AllKeepRun = (type : String) (x : NodeExecutor) → executors type ≡ some x → KeepsRun run_id x

  module _ (keeps : AllKeepRun) where
    run_node-Turned :
        (p : Progress) (n : Node) (w : World)
        → HasRun run_id w
        → Turned run_id (run_node run_id workflow executors validates p n w)
    unfolding run_node
    run_node-Turned p n w h = found (executors n.type) refl
      where
        by : NodeExecutor → NodeRetryPolicy → M Next
        by = with_policy run_id workflow executors validates p n

        tried :
            (x : NodeExecutor) (r : Result NodeRetryPolicy)
            → KeepsRun run_id x
            → Turned run_id ((lift r >>= by x) w)
        tried x (err e) c = h
        tried x (ok policy) c =
            >>=-Post (λ x. HasRun run_id x.1) (Turned run_id)
              (try_node run_id n x policy policy.max_retries (count_of n.id p.attempt_counts))
              (after_attempts run_id workflow executors validates p n) w
              (try_node-HasRun run_id run_id n x policy c policy.max_retries
                (count_of n.id p.attempt_counts) w h)
              (λ o v g. after_attempts-Turned p n o v g) (λ e v g. g)

        found :
            (o : Option NodeExecutor)
            → executors n.type ≡ o
            → Turned run_id (
                (or_raise (plain workflow_engine_error "no executor registered for node type") o
                    >>= with_executor run_id workflow executors validates p n)
                  w)
        found none e = h
        found (some x) e = tried x (resolve_retry_policy workflow n) (keeps n.type x e)

    pub visit-Turned :
        (p : Progress) (i : String) (w : World)
        → HasRun run_id w
        → Turned run_id (visit run_id workflow executors validates p i w)
    unfolding visit
    visit-Turned p i w h = at_node (node workflow i)
      where
        runs : Bool → Node → M Next
        runs b n =
            if b
            then run_node run_id workflow executors validates p n
            else raise (plain workflow_engine_error "node type has no execution semantics yet")

        at_type : (b : Bool) (n : Node) → Turned run_id (runs b n w)
        at_type true n = run_node-Turned p n w h
        at_type false n = h

        at_node :
            (r : Result Node)
            → Turned run_id ((lift r >>= λ n. runs (member n.type executable_types) n) w)
        at_node (err e) = h
        at_node (ok n) = at_type (member n.type executable_types) n
