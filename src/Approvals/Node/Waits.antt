-- ===== src/Approvals/Node/Waits.antt =====
-- An approval node waits until it is decided.
use jarvis_awf.Prelude.{
  String, ◌≡◌, ◌≢◌, refl, sym, ap, ◌∙◌, true, false, Option, none, some, arith, eq_refl,
}
use jarvis_awf.Prelude.Table
use jarvis_awf.Prelude.Table.{get-update, find-insert_new, get-insert_new}
use jarvis_awf.Json.{Dict, get_truthy, get}
use jarvis_awf.Exec.{Result, ok, err, ◌>>=◌, lift}
use jarvis_awf.Exec.Inversion.{>>=-step, ok-injective}
use jarvis_awf.Database.{
  World, M, Step, Approval, ApprovalStatus, RiskClass, is_succeeded, approval_of_step, fetch_step,
  for_step,
}
use jarvis_awf.Workflow.Definition.{Node}
use jarvis_awf.Approvals.Node.{
  waiting_for, risk_of, ask, request, request_with, fail, on_row, on_step, approval_executor,
}

-- neither pending nor rejected
-- the approval of the step, if there is one, is not expired
abbrev pub Unexpired : String → World → Type 0
Unexpired step_id w =
    (k : String) (r : Approval)
    → approval_of_step step_id w ≡ some (k, r)
    → r.status ≢ ApprovalStatus.expired

abbrev pub IsGranted : ApprovalStatus → Type 0
IsGranted s = (s ≢ ApprovalStatus.pending) × (s ≢ ApprovalStatus.rejected)

module _ (digest : Dict → String) (run_id step_id : String) (n : Node) (w : World) where
  abbrev execute : M Dict
  execute = approval_executor digest run_id step_id n

  fetched :
      (step : Step) → Table.get step_id w.steps ≡ some step → fetch_step step_id w ≡ (ok step, w)
  fetched step h = rw h refl

  pub executed :
      (step : Step)
      → Table.get step_id w.steps ≡ some step
      → is_succeeded step.status ≡ false
      → execute w ≡ on_row digest run_id step_id n (approval_of_step step_id w) w
  unfolding approval_executor on_step
  executed step h s =
      >>=-step (fetch_step step_id) (on_step digest run_id step_id n) w (fetched step h) ∙ rw s refl

  request-waits :
      {output : Dict}
      → (request digest run_id step_id n w).0 ≡ ok output
      → get_truthy "waiting_input" output ≡ true
  unfolding request request_with ask
  request-waits {output} h = from (risk_of (get "riskClass" n.fields)) h
    where
      from :
          (r : Result (Option RiskClass))
          → ((lift r >>= request_with digest run_id step_id n) w).0 ≡ ok output
          → get_truthy "waiting_input" output ≡ true
      from (err e) g = absurd (cc g)
      from (ok risk) g = ap (get_truthy "waiting_input") (sym (ok-injective g))

  on_row-IsGranted :
      (o : Option (String × Approval)) {output : Dict}
      → (on_row digest run_id step_id n o w).0 ≡ ok output
      → get_truthy "waiting_input" output ≡ false
      → (k : String) × (row : Approval) × (o ≡ some (k, row)) × IsGranted row.status
  unfolding on_row fail
  on_row-IsGranted none h g = absurd (cc (request-waits h, g))
  on_row-IsGranted (some (k, row)) h g = (k, row, refl, ground arith)

  -- An approval node that was not done before goes on only where a row of `approvals` for its step
  -- is neither pending nor rejected.
  pub approval_executor-IsGranted :
      (step : Step) {output : Dict}
      → Table.get step_id w.steps ≡ some step
      → is_succeeded step.status ≡ false
      → (approval_executor digest run_id step_id n w).0 ≡ ok output
      → get_truthy "waiting_input" output ≡ false
      → (k : String) × (row : Approval) × (approval_of_step step_id w ≡ some (k, row))
        × IsGranted row.status
  approval_executor-IsGranted step h s r g =
      on_row-IsGranted (approval_of_step step_id w) (sym (ap (λ x. x.0) (executed step h s)) ∙ r) g

module _ (digest : Dict → String) (run_id step_id : String) (n : Node) (w : World) where
  abbrev issued_id : String
  issued_id = w.outside.uuid w.issued

  abbrev pub asked : Option RiskClass → World
  asked risk = (request_with digest run_id step_id n risk w).1

  pub step_of_asked :
      (risk : Option RiskClass) (step : Step)
      → Table.get step_id w.steps ≡ some step
      → (later : Step) × (Table.get step_id (asked risk).steps ≡ some later)
        × (is_succeeded later.status ≡ false)
  unfolding request_with ask
  step_of_asked risk step h = (_, waits _ refl, refl)
    where
      waits :
          (f : Step → Step) {s : Step}
          → s ≡ f step
          → Table.get step_id (Table.update step_id f w.steps) ≡ some s
      waits f e = rw (get-update, eq_refl, h, e) refl

  pub row_of_asked :
      (risk : Option RiskClass)
      → Table.get issued_id w.approvals ≡ none
      → approval_of_step step_id w ≡ none
      → (row : Approval) × (approval_of_step step_id (asked risk) ≡ some (issued_id, row))
        × (Table.get issued_id (asked risk).approvals ≡ some row)
        × (row.status ≡ ApprovalStatus.pending)
  unfolding request_with ask
  row_of_asked risk f a = (_, found _ refl, stored _, refl)
    where
      found :
          (row : Approval)
          → row.step_id ≡ step_id
          → Table.find (λ _ x. for_step step_id x) (Table.insert_new issued_id row w.approvals)
            ≡ some (issued_id, row)
      found row e =
          find-insert_new (λ _ x. for_step step_id x) issued_id row w.approvals f a
          ∙ rw (e, eq_refl) refl

      stored :
          (row : Approval)
          → Table.get issued_id (Table.insert_new issued_id row w.approvals) ≡ some row
      stored row =
          get-insert_new issued_id issued_id row w.approvals f ∙ rw (eq_refl issued_id) refl

  requested :
      (risk : Option RiskClass)
      → risk_of (get "riskClass" n.fields) ≡ ok risk
      → request digest run_id step_id n w ≡ (ok (waiting_for issued_id), asked risk)
  unfolding request request_with ask
  requested risk r = rw r refl

  pending_row-waits :
      (v : World) (k : String) (row : Approval)
      → row.status ≡ ApprovalStatus.pending
      → on_row digest run_id step_id n (some (k, row)) v ≡ (ok (waiting_for k), v)
  unfolding on_row
  pending_row-waits v k row e = rw e refl

  asks : on_row digest run_id step_id n none w ≡ request digest run_id step_id n w
  unfolding on_row
  asks = refl

  -- the first visit asks
  pub approval_executor-asks :
      (step : Step) (risk : Option RiskClass)
      → Table.get step_id w.steps ≡ some step
      → is_succeeded step.status ≡ false
      → approval_of_step step_id w ≡ none
      → risk_of (get "riskClass" n.fields) ≡ ok risk
      → approval_executor digest run_id step_id n w ≡ (ok (waiting_for issued_id), asked risk)
  approval_executor-asks step risk h s a r =
      executed digest run_id step_id n w step h s
      ∙ ap (λ o. on_row digest run_id step_id n o w) a
      ∙ asks
      ∙ requested risk r

  -- The first visit of an approval node asks once and waits, and every later visit before a
  -- decision waits for the same approval and changes nothing.
  pub approval_executor-again :
      (step : Step) (risk : Option RiskClass)
      → Table.get step_id w.steps ≡ some step
      → is_succeeded step.status ≡ false
      → approval_of_step step_id w ≡ none
      → Table.get (w.outside.uuid w.issued) w.approvals ≡ none
      → risk_of (get "riskClass" n.fields) ≡ ok risk
      → let once = approval_executor digest run_id step_id n w in
        (once.0 ≡ ok (waiting_for (w.outside.uuid w.issued)))
        × (approval_executor digest run_id step_id n once.1 ≡ once)
  approval_executor-again step risk h s a f r =
      let first = approval_executor-asks step risk h s a r in
      let (later, h2, s2) = step_of_asked risk step h in
      let (row, a2, g, p) = row_of_asked risk f a in
      let second =
        executed digest run_id step_id n (asked risk) later h2 s2
        ∙ ap (λ o. on_row digest run_id step_id n o (asked risk)) a2
        ∙ pending_row-waits (asked risk) issued_id row p in
      (
        ap (λ x. x.0) first,
        ap (λ x. approval_executor digest run_id step_id n x.1) first ∙ second ∙ sym first,
      )
