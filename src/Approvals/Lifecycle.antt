-- ===== src/Approvals/Lifecycle.antt =====
-- An approval node from its first visit to the decision.
use jarvis_awf.Prelude.{String, ◌≡◌, refl, ap, ◌∙◌, false, Option, none, some, ◌+◌, eq_refl}
use jarvis_awf.Prelude.Table
use jarvis_awf.Prelude.Table.{get-insert_new, find-update, adjusted}
use jarvis_awf.Json.{Dict, get}
use jarvis_awf.Exec.{ok, core_op_error}
use jarvis_awf.Exec.Inversion.{>>=-step}
use jarvis_awf.Database.{
  World, M, Step, Approval, ApprovalStatus, RiskClass, is_succeeded, for_step, approval_of_step,
}
use jarvis_awf.Workflow.Definition.{Node}
use jarvis_awf.Approvals.Decide.{decide, decide_row, fetch_approval, missing, decided}
use jarvis_awf.Approvals.Node.{granted, risk_of, on_row, grant, approval_executor}
use jarvis_awf.Approvals.Node.Waits.{
  executed, asked, row_of_asked, step_of_asked, approval_executor-asks,
}

module _ (digest : Dict → String) (run_id step_id : String) (n : Node) where
  abbrev approve : String → World → World
  approve k v = (decide core_op_error k ApprovalStatus.approved none v).1

  -- a pending row decides, and then the node finds it approved
  found_approved :
      (v : World) (k : String) (row : Approval)
      → approval_of_step step_id v ≡ some (k, row)
      → Table.find
          (λ _ x. for_step step_id x)
          (Table.update k
            (decided ApprovalStatus.approved none (v.outside.clock v.readings))
            v.approvals)
        ≡ some (k, decided ApprovalStatus.approved none (v.outside.clock v.readings) row)
  found_approved v k row a =
      find-update (λ _ x. for_step step_id x) k
        (decided ApprovalStatus.approved none (v.outside.clock v.readings)) v.approvals
        (λ j x. refl)
      ∙ rw (a, eq_refl k) refl

  abbrev after_approval : (v : World) (k : String) → World
  after_approval v k = record v {
    approvals =
        Table.update k (decided ApprovalStatus.approved none (v.outside.clock v.readings))
          v.approvals;
    readings = v.readings + 1;
  }

  decides :
      (v : World) (k : String) (row : Approval)
      → Table.get k v.approvals ≡ some row
      → row.status ≡ ApprovalStatus.pending
      → approve k v ≡ after_approval v k
  unfolding decide decide_row
  decides v k row g p =
      ap (λ x. x.1) (>>=-step (fetch_approval (missing core_op_error) k) decides_row v fetched)
      ∙ moved
    where
      decides_row : Approval → M Dict
      decides_row = decide_row core_op_error k ApprovalStatus.approved none

      moved : (decides_row row v).1 ≡ after_approval v k
      moved = rw p refl

      fetched : fetch_approval (missing core_op_error) k v ≡ (ok row, v)
      fetched = rw g refl

  -- an approval that waits is granted once it was approved
  approve-granted :
      (v : World) (k : String) (row : Approval) (step : Step)
      → Table.get step_id v.steps ≡ some step
      → is_succeeded step.status ≡ false
      → approval_of_step step_id v ≡ some (k, row)
      → Table.get k v.approvals ≡ some row
      → row.status ≡ ApprovalStatus.pending
      → (approval_executor digest run_id step_id n (approve k v)).0 ≡ ok (granted k)
  unfolding on_row grant
  approve-granted v k row step h s a g p =
      ap (λ u. (approval_executor digest run_id step_id n u).0) (decides v k row g p)
      ∙ ap (λ x. x.0)
          (executed digest run_id step_id n (after_approval v k) step h s
            ∙ ap (λ o. on_row digest run_id step_id n o (after_approval v k))
                (found_approved v k row a))

  -- An approval node whose first visit asks is not stuck: once the operator approves what it asked
  -- for, its next visit goes on with the approval, where the step has a row that is not SUCCEEDED,
  -- no approval was asked for before, the identifier is new, and the risk class is one that the
  -- table admits.
  pub approval_executor-granted :
      (w : World) (step : Step) (risk : Option RiskClass)
      → Table.get step_id w.steps ≡ some step
      → is_succeeded step.status ≡ false
      → approval_of_step step_id w ≡ none
      → Table.get (w.outside.uuid w.issued) w.approvals ≡ none
      → risk_of (get "riskClass" n.fields) ≡ ok risk
      → let k = w.outside.uuid w.issued in
        let once = approval_executor digest run_id step_id n w in
        let decision = decide core_op_error k ApprovalStatus.approved none once.1 in
        (approval_executor digest run_id step_id n decision.1).0 ≡ ok (granted k)
  approval_executor-granted w step risk h s a f r =
      let k = w.outside.uuid w.issued in
      let v = asked digest run_id step_id n w risk in
      let first = approval_executor-asks digest run_id step_id n w step risk h s a r in
      let (later, h2, s2) = step_of_asked digest run_id step_id n w risk step h in
      let (row, a2, g, p) = row_of_asked digest run_id step_id n w risk f a in
      ap (λ x. (approval_executor digest run_id step_id n (approve k x.1)).0) first
      ∙ approve-granted v k row later h2 s2 a2 g p
