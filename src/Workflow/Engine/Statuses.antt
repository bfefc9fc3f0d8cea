-- ===== src/Workflow/Engine/Statuses.antt =====
-- The row of the run, at the end of a run.
use jarvis_awf.Prelude.{
  ℕ, zero, suc, ◌+◌, ◌-◌, ◌*◌, ◌^◌, String, ◌≡◌, refl, ap, ◌∙◌, Bool, true, false, ◌&&◌, some,
  eq_refl, Bool-cases, if◌then◌else◌, inl, inr, ltb,
}
use jarvis_awf.Prelude.Table
use jarvis_awf.Prelude.Table.{get-update}
use jarvis_awf.Json.{Dict}
use jarvis_awf.Exec.{Result, ◌>>◌, pure}
use jarvis_awf.Exec.Inversion.{Preserves, >>=-Preserves}
use jarvis_awf.Database.{World, M, Run, RunStatus}
use jarvis_awf.Engine.Executor.{set_run_status}
use jarvis_awf.Workflow.Definition.{Node, NodeRetryPolicy}
use jarvis_awf.Workflow.Attempts.{
  NodeExecutor, is_self_stepping, is_retryable, one_attempt, schedule_retry, try_node,
}
use jarvis_awf.Workflow.Engine.{mark_run_failed}

-- the run has a row
abbrev pub HasRun : String → World → Type 0
HasRun k w = (row : Run) × (Table.get k w.runs ≡ some row)

-- the row of the run has this status
abbrev pub HasStatus : String → RunStatus → World → Type 0
HasStatus k s w = (row : Run) × (Table.get k w.runs ≡ some row) × (row.status ≡ s)

-- No executor removes the row of the run.
abbrev pub KeepsRun : String → NodeExecutor → Type 0
KeepsRun k executor =
    (run_id step_id : String) (n : Node) → Preserves (HasRun k) (executor run_id step_id n)

update_self :
    (k : String) (f : Run → Run) (w : World) (row : Run)
    → Table.get k w.runs ≡ some row
    → Table.get k (Table.update k f w.runs) ≡ some (f row)
update_self k f w row h = rw (get-update, eq_refl, h)

pub set_run_status-HasStatus :
    (k : String) (s : RunStatus) (w : World) → HasRun k w → HasStatus k s (set_run_status k s w).1
set_run_status-HasStatus k s w (row, h) = (_, update_self k _ w row h, refl)

pub mark_run_failed-HasStatus :
    (k reason : String) (w : World)
    → HasRun k w
    → HasStatus k RunStatus.failed (mark_run_failed k reason w).1
unfolding mark_run_failed
mark_run_failed-HasStatus k reason w h = set_run_status-HasStatus k RunStatus.failed w h

module _ (k run_id : String) (n : Node) (executor : NodeExecutor) (policy : NodeRetryPolicy)
    (keeps : KeepsRun k executor) where
  one_attempt-HasRun :
      (number : ℕ) → Preserves (HasRun k) (one_attempt run_id n executor policy number)
  unfolding one_attempt
  one_attempt-HasRun number w h = elim (Bool-cases (is_self_stepping n.type)) [
    | inl e ↦ rw e (keeps _ _ _ _ h)
    | inr e ↦ rw e (keeps _ _ _ _ h)
  ]

  schedule_retry-runs :
      (outcome : Result Dict) (number before : ℕ) (w : World)
      → (schedule_retry run_id n executor policy outcome number before w).1.runs ≡ w.runs
  unfolding schedule_retry
  schedule_retry-runs outcome number before w =
      elim (Bool-cases
        (policy.jitter && ltb 0 (policy.backoff_seconds * policy.backoff_factor ^ before))) [
          | inl j ↦ elim (Bool-cases (is_self_stepping n.type)) [
            | inl e ↦ rw (j, e) refl
            | inr e ↦ rw (j, e) refl
          ]
          | inr j ↦ elim (Bool-cases (is_self_stepping n.type)) [
            | inl e ↦ rw (j, e) refl
            | inr e ↦ rw (j, e) refl
          ]
        ]

  schedule_retry-HasRun :
      (outcome : Result Dict) (number before : ℕ)
      → Preserves (HasRun k) (schedule_retry run_id n executor policy outcome number before)
  schedule_retry-HasRun outcome number before w (row, h) =
      (row, ap (Table.get k) (schedule_retry-runs outcome number before w) ∙ h)

  pub try_node-HasRun :
      (left attempts : ℕ) → Preserves (HasRun k) (try_node run_id n executor policy left attempts)
  unfolding try_node
  try_node-HasRun zero attempts =
      >>=-Preserves (HasRun k) (one_attempt run_id n executor policy (attempts + 1))
        (λ outcome. pure (outcome, attempts + 1)) (one_attempt-HasRun (attempts + 1)) (λ o w h. h)
  try_node-HasRun (suc left) attempts =
      >>=-Preserves (HasRun k) (one_attempt run_id n executor policy (attempts + 1)) next
        (one_attempt-HasRun (attempts + 1))
        (λ o. after (try_node-HasRun left (attempts + 1)) o (is_retryable policy o))
    where
      retried : Result Dict → M (Result Dict × ℕ)
      retried outcome =
          schedule_retry run_id n executor policy outcome (attempts + 1)
            (policy.max_retries - suc left)
          >> try_node run_id n executor policy left (attempts + 1)

      next : Result Dict → M (Result Dict × ℕ)
      next outcome =
          if is_retryable policy outcome then retried outcome else pure (outcome, attempts + 1)

      after :
          Preserves (HasRun k) (try_node run_id n executor policy left (attempts + 1))
          → (o : Result Dict) (b : Bool)
          → Preserves (HasRun k) (if b then retried o else pure (o, attempts + 1))
      after rest o false = λ w h. h
      after rest o true =
          >>=-Preserves (HasRun k)
            (schedule_retry run_id n executor policy o (attempts + 1)
              (policy.max_retries - suc left))
            (λ _. try_node run_id n executor policy left (attempts + 1))
            (schedule_retry-HasRun o (attempts + 1) (policy.max_retries - suc left)) (λ _. rest)
