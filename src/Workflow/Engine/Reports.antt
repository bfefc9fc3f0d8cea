-- ===== src/Workflow/Engine/Reports.antt =====
-- The report of a run against the row of the run.
use jarvis_awf.Prelude.{
  arith, ℕ, zero, suc, String, ◌≡◌, ◌⊎◌, inl, inr, refl, sym, ap, ◌∙◌, Bool, true, false, Option,
  none, some,
}
use jarvis_awf.Json
use jarvis_awf.Json.{Value, str, Dict, get_truthy, get_or, contains, contains-merge}
use jarvis_awf.Exec.{Result, ok, err, pure}
use jarvis_awf.Exec.Inversion.{>>=-Post}
use jarvis_awf.Database.{World, M, RunStatus}
use jarvis_awf.Engine.Executor.{set_run_status}
use jarvis_awf.Workflow.Definition.{WorkflowDefinition}
use jarvis_awf.Workflow.Attempts.{NodeExecutor}
use jarvis_awf.Workflow.Engine.{
  Progress, Ending, waiting, step_failed, gate_failed, invalid_output, completed, Next, go, stop,
  report, error_report, mark_run_failed, visit, close, complete, continue, loop, start,
  run_workflow_definition, settle, run_workflow_safely,
}
use jarvis_awf.Workflow.Engine.Statuses.{HasRun, HasStatus, set_run_status-HasStatus}
use jarvis_awf.Workflow.Engine.Visits.{IsSettled, Turned, AllKeepRun, visit-Turned}

module _ (k : String) where
  abbrev Ended : Result Ending × World → Type 0
  Ended (ok e, v) = IsSettled k e v
  Ended (err e, v) = HasRun k v

  abbrev Left : Result (Option Ending) × World → Type 0
  Left (ok (some e), v) = IsSettled k e v
  Left (ok none, v) = HasRun k v
  Left (err e, v) = HasRun k v

module _ (run_id : String) (workflow : WorkflowDefinition)
    (executors : String → Option NodeExecutor) (validates : Dict → Dict → Option String)
    (keeps : AllKeepRun run_id workflow executors validates) where
  close-Ended :
      (p : Progress) (rendered : Dict) (o : Option String) (w : World)
      → HasRun run_id w
      → Ended run_id (close run_id workflow executors validates p rendered o w)
  unfolding close mark_run_failed
  close-Ended p rendered (some error) w h = set_run_status-HasStatus run_id RunStatus.failed w h
  close-Ended p rendered none w h = set_run_status-HasStatus run_id RunStatus.succeeded w h

  complete-Ended :
      (p : Progress) (w : World)
      → HasRun run_id w
      → Ended run_id (complete run_id workflow executors validates p w)
  unfolding complete
  complete-Ended p w h = close-Ended p _ _ w h

  abbrev run_loop : ℕ → Progress → Option String → M (Option Ending)
  run_loop = loop run_id workflow executors validates

  abbrev again : ℕ → Progress → M (Option Ending)
  again fuel q = run_loop fuel q q.current

  loop-Left :
      (fuel : ℕ) (p : Progress) (o : Option String) (w : World)
      → HasRun run_id w
      → Left run_id (run_loop fuel p o w)
  unfolding loop
  loop-Left fuel p none w h =
      >>=-Post (Ended run_id) (Left run_id) (complete run_id workflow executors validates p)
        (λ e. pure (some e)) w (complete-Ended p w h) (λ e v g. g) (λ e v g. g)
  loop-Left zero p (some i) w h = h
  loop-Left (suc fuel) p (some i) w h =
      >>=-Post (Turned run_id) (Left run_id) (visit run_id workflow executors validates p i)
        (continue (again fuel)) w (visit-Turned run_id workflow executors validates keeps p i w h)
        (after (λ q v g. loop-Left fuel q q.current v g)) (λ e v g. g)
    where
      after :
          ((q : Progress) (v : World) → HasRun run_id v → Left run_id (again fuel q v))
          → (x : Next) (v : World) → Turned run_id (ok x, v)
          → Left run_id (continue (again fuel) x v)
      after rest (stop e) v g = g
      after rest (go q) v g = rest q v g

  run_workflow_definition-Left :
      (fuel : ℕ) (w : World)
      → HasRun run_id w
      → Left run_id (run_workflow_definition run_id workflow executors validates fuel w)
  unfolding run_workflow_definition
  run_workflow_definition-Left fuel w h =
      let (row, g, _) = set_run_status-HasStatus run_id RunStatus.running w h in
      loop-Left fuel begin begin.current (set_run_status run_id RunStatus.running w).1 (row, g)
    where
      begin : Progress
      begin = start run_id workflow executors validates

  abbrev pub Says : String → Dict → Type 0
  Says status d = Json.get "status" d ≡ some (str status)

  -- The report has the status that the row has.
  abbrev pub Agrees : Dict → World → Type 0
  Agrees d v =
      (Says "FAILED" d × HasStatus run_id RunStatus.failed v)
      ⊎ (Says "SUCCEEDED" d × HasStatus run_id RunStatus.succeeded v)

  abbrev waits : Dict → Bool
  waits = contains "waiting_input"

  ending-Agrees :
      (e : Ending) (v : World)
      → IsSettled run_id e v
      → waits (report e) ≡ false
      → Agrees (report e) v
  ending-Agrees (waiting n output) v (h, w) n_ =
      absurd (clash (sym (contains-merge "waiting_input" _ output (ground (arith, w))) ∙ n_))
    where
      clash : true ≡ false → ⊥
      clash e = cc e
  ending-Agrees (completed n verdict outputs) v g n_ = inr (refl, g)
  ending-Agrees (step_failed n error) v g n_ = inl (refl, g)
  ending-Agrees (gate_failed n verdict) v g n_ = inl (refl, g)
  ending-Agrees (invalid_output n error) v g n_ = inl (refl, g)

  settle-Agrees :
      (r : Result (Option Ending)) (v : World) {d : Dict}
      → Left run_id (r, v)
      → (settle run_id workflow executors validates r v).0 ≡ ok (some d)
      → waits d ≡ false
      → Agrees d (settle run_id workflow executors validates r v).1
  unfolding settle
  settle-Agrees (ok none) v l h n = absurd (cc h)
  settle-Agrees (ok (some e)) v {d} l h n =
      let same : report e ≡ d = cc in rw (sym same) (ending-Agrees e v l (ap waits same ∙ n))
  settle-Agrees (err exc) v {d} l h n =
      let same : error_report exc ≡ d = cc in
      rw (sym same) (inl (refl, set_run_status-HasStatus run_id RunStatus.failed v l))

  -- Where no executor removes the row of the run, and the report has no key `waiting_input`, as
  -- that of an executor which asks for input has: the report is FAILED and the row is too,
  -- or the report is SUCCEEDED and the row is too, whether the run completed, failed or was cut
  -- short by an exception.
  pub run_workflow_safely-Agrees :
      (fuel : ℕ) (w : World) {d : Dict}
      → HasRun run_id w
      → (run_workflow_safely run_id workflow executors validates fuel w).0 ≡ ok (some d)
      → contains "waiting_input" d ≡ false
      → Agrees d (run_workflow_safely run_id workflow executors validates fuel w).1
  unfolding run_workflow_safely
  run_workflow_safely-Agrees fuel w h s n =
      settle-Agrees _ _ (run_workflow_definition-Left fuel w h) s n
