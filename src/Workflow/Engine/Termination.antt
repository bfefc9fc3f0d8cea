-- ===== src/Workflow/Engine/Termination.antt =====
-- How many visits of nodes a run takes, where the `next` fields go forward.
use jarvis_awf.Prelude.{
  ℕ, zero, suc, ◌+◌, ◌-◌, ◌*◌, ◌≤◌, ◌<◌, String, ◌≡◌, ◌≢◌, inl, inr, refl, Option, none, some,
  arith,
}
use jarvis_awf.Json.{Dict}
use jarvis_awf.Exec.{Result, ok, err, pure}
use jarvis_awf.Exec.Inversion.{>>=-Returned}
use jarvis_awf.Database.{World, M, RunStatus}
use jarvis_awf.Engine.Executor.{set_run_status}
use jarvis_awf.Workflow.Definition.{Node, WorkflowDefinition, target, node}
use jarvis_awf.Workflow.Attempts.{NodeExecutor}
use jarvis_awf.Workflow.Engine.{
  Progress, Ending, Next, go, stop, max_repairs, report, visit, complete, continue, loop, start,
  run_workflow_definition, run_workflow_safely, settle,
}
use jarvis_awf.Workflow.Engine.Turns.{allowed, Turn, visit-Turn}

-- Every node has a rank below `size`, and `next` leads to a lower one. A failed gate may go
-- anywhere.
pub record Forward (workflow : WorkflowDefinition) (rank : String → ℕ) (size : ℕ) : Type 0 where
  pub bounded : (i : String) → rank i < size
  pub next :
      (i j : String) (n : Node)
      → node workflow i ≡ ok n
      → target "next" n ≡ some j
      → rank j < rank i

-- what is left to visit at most, from this node with this number of repairs left
abbrev pub needed : (String → ℕ) → ℕ → ℕ → Option String → ℕ
needed rank size left none = 0
needed rank size left (some i) = suc (rank i) + left * size

module _ (run_id : String) (workflow : WorkflowDefinition)
    (executors : String → Option NodeExecutor) (validates : Dict → Dict → Option String)
    (rank : String → ℕ) (size : ℕ) (forward : Forward workflow rank size) where
  abbrev budget : ℕ
  budget = allowed (max_repairs workflow)

  abbrev left : ℕ → ℕ
  left repairs = budget - repairs

  abbrev run_loop : ℕ → Progress → Option String → M (Option Ending)
  run_loop = loop run_id workflow executors validates

  abbrev again : ℕ → Progress → M (Option Ending)
  again fuel q = run_loop fuel q q.current

  one_repair : (r : ℕ) → r < budget → left r * size ≡ size + left (r + 1) * size
  one_repair r h = let one : left r ≡ suc (left (r + 1)) = omega arith in rw one (omega arith)

  needed-next :
      (i : String) (n : Node) (repairs fuel : ℕ) (o : Option String)
      → node workflow i ≡ ok n
      → target "next" n ≡ o
      → needed rank size (left repairs) (some i) ≤ suc fuel
      → needed rank size (left repairs) o ≤ fuel
  needed-next i n repairs fuel none e t h = omega arith
  needed-next i n repairs fuel (some j) e t h = omega (arith, forward.next i j n e t)

  needed-on_fail :
      (i : String) (repairs fuel : ℕ) (o : Option String)
      → repairs < budget
      → needed rank size (left repairs) (some i) ≤ suc fuel
      → needed rank size (left (repairs + 1)) o ≤ fuel
  needed-on_fail i repairs fuel none b h = omega arith
  needed-on_fail i repairs fuel (some j) b h =
      omega (arith, one_repair repairs b, forward.bounded j)

  Turn-needed :
      (i : String) (n : Node) (repairs fuel : ℕ) (q : Progress)
      → node workflow i ≡ ok n
      → Turn workflow repairs n (go q)
      → needed rank size (left repairs) (some i) ≤ suc fuel
      → needed rank size (left q.repairs_used) q.current ≤ fuel
  Turn-needed i n repairs fuel q e (inl (r, c)) h =
      rw (r, c) (needed-next i n repairs fuel (target "next" n) e refl h)
  Turn-needed i n repairs fuel q e (inr (b, r, c)) h =
      rw (r, c) (needed-on_fail i repairs fuel (target "onFail" n) b h)

  some≢none : (e : Ending) → (ok (some e)) ≢ ok none
  some≢none e h = cc

  loop-terminates :
      (fuel : ℕ) (p : Progress) (o : Option String) (w : World)
      → needed rank size (left p.repairs_used) o ≤ fuel
      → (run_loop fuel p o w).0 ≢ ok none
  unfolding loop
  loop-terminates fuel p none w h c =
      let a =
        >>=-Returned (complete run_id workflow executors validates p) (λ e. pure (some e)) w c in
      some≢none a.value a.second
  loop-terminates zero p (some i) w h c = absurd (omega (arith, h))
  loop-terminates (suc fuel) p (some i) w h c =
      let a =
        >>=-Returned (visit run_id workflow executors validates p i) (continue (again fuel)) w c in
      let (n, e, t) = visit-Turn run_id workflow executors validates p i w a.first in
      after (λ q v b. loop-terminates fuel q q.current v b) a.value n
        (visit run_id workflow executors validates p i w).1 e t a.second
    where
      after :
          ((q : Progress) (v : World)
            → needed rank size (left q.repairs_used) q.current ≤ fuel
            → (again fuel q v).0 ≢ ok none)
          → (x : Next) (n : Node) (v : World) → node workflow i ≡ ok n
          → Turn workflow p.repairs_used n x
          → (continue (again fuel) x v).0 ≡ ok none
          → ⊥
      after rest (stop f) n v e t g = some≢none f g
      after rest (go q) n v e t g = rest q v (Turn-needed i n p.repairs_used fuel q e t h) g

  -- A run ends after at most `size` visits of nodes for each repair of the budget, and `size` more.
  pub run_workflow_definition-terminates :
      (fuel : ℕ) (w : World)
      → size + allowed (max_repairs workflow) * size ≤ fuel
      → (run_workflow_definition run_id workflow executors validates fuel w).0 ≢ ok none
  unfolding run_workflow_definition
  run_workflow_definition-terminates fuel w h c =
      let a =
        >>=-Returned (set_run_status run_id RunStatus.running)
          (λ _. run_loop fuel begin begin.current) w c in
      loop-terminates fuel begin begin.current _
        (rw none_used (omega (arith, forward.bounded workflow.first.id, h))) a.second
    where
      none_used : left 0 ≡ budget
      none_used = omega arith

      begin : Progress
      begin = start run_id workflow executors validates

  -- Where `next` always leads to a node of lower rank, and all ranks are below a bound,
  -- `_run_workflow_safely` returns a report and raises nothing, on as many visits as the bound for
  -- each allowed repair and once more.
  pub run_workflow_safely-reports :
      (fuel : ℕ) (w : World)
      → size + allowed (max_repairs workflow) * size ≤ fuel
      → (d : Dict) × ((run_workflow_safely run_id workflow executors validates fuel w).0
          ≡ ok (some d))
  unfolding run_workflow_safely settle
  run_workflow_safely-reports fuel w h =
      from ran.0 ran.1 (run_workflow_definition-terminates fuel w h)
    where
      ran : Result (Option Ending) × World
      ran = run_workflow_definition run_id workflow executors validates fuel w

      from :
          (r : Result (Option Ending)) (v : World)
          → r ≢ ok none
          → (d : Dict) × ((settle run_id workflow executors validates r v).0 ≡ ok (some d))
      from (ok none) v n = absurd (n refl)
      from (ok (some e)) v n = (report e, refl)
      from (err exc) v n = (_, refl)
