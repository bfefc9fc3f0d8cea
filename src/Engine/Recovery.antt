-- ===== src/Engine/Recovery.antt =====
-- backend/src/awf/engine/recovery.py. The connection enforces foreign keys
-- (backend/src/awf/db/connection.py), and `events`, `approvals` and `artifacts` refer to `steps`
-- with no ON DELETE clause: a DELETE of a step that one of them names raises an IntegrityError.
pub mod Resets
pub mod Spared
use jarvis_awf.Prelude.{
  String, Bool, true, false, not, ◌&&◌, ◌||◌, Option, none, some, List, [], ◌∷◌, ◌==◌, any, member,
  if◌then◌else◌,
}
use jarvis_awf.Prelude.Table
use jarvis_awf.Exec.{plain, integrity_error, ok, pure, raise, gets, ◌>>=◌, ◌>>◌}
use jarvis_awf.Database.{
  World, M, Run, RunStatus, Step, StepStatus, Event, Approval, Artifact, is_succeeded, for_step,
}

-- `status in TERMINAL_RUN_STATUSES`
abbrev pub is_terminal : RunStatus → Bool
is_terminal RunStatus.succeeded = true
is_terminal RunStatus.failed = true
is_terminal RunStatus.canceled = true
is_terminal _ = false

incomplete_ids : List (String × Run) → List String
incomplete_ids [] = []
incomplete_ids ((k, r) ∷ rest) =
    let ids = incomplete_ids rest in if is_terminal r.status then ids else k ∷ ids

pub scan_incomplete_runs : M (List String)
unfolding incomplete_ids
scan_incomplete_runs = gets (λ w. incomplete_ids (Table.rows w.runs))

abbrev names_step : String → Option String → Bool
names_step k none = false
names_step k (some j) = j == k

-- some row refers to the step
unfoldable pub is_referenced : World → String → Bool
is_referenced w k =
    any (λ (e : Event). names_step k e.step_id) w.events
    || Table.exists (λ _ a. for_step k a) w.approvals
    || Table.exists (λ _ (a : Artifact). a.step_id == k) w.artifacts

-- DELETE FROM steps WHERE ...
unfoldable pub delete_steps : (String → Step → Bool) → M Unit
delete_steps p w =
    if Table.exists (λ k s. p k s && is_referenced w k) w.steps
    then raise (plain integrity_error "FOREIGN KEY constraint failed") w
    else (ok tt, record w { steps = Table.delete p w.steps })

-- the `node_id`s of the rows of a run that pass, in order
unfoldable pub node_ids : (Step → Bool) → String → List (String × Step) → List String
node_ids p run_id [] = []
node_ids p run_id ((k, s) ∷ rest) =
    let ids = node_ids p run_id rest in if s.run_id == run_id && p s then s.node_id ∷ ids else ids

abbrev pub of_node : String → String → String → Step → Bool
of_node run_id node_id k s = s.run_id == run_id && s.node_id == node_id

-- the statuses of a step in flight
abbrev pub is_in_flight : StepStatus → Bool
is_in_flight StepStatus.running = true
is_in_flight StepStatus.retry_wait = true
is_in_flight _ = false

-- the body of the loop over the nodes
unfoldable pub reset_node : String → List String → String → M Unit
reset_node run_id succeeded_nodes n =
    if member n succeeded_nodes then pure tt else delete_steps (of_node run_id n)

-- The loop over the nodes of the run. A node that SELECT DISTINCT gives once stands here once for
-- each of its rows; the DELETE of a node that has no row left does nothing.
unfoldable pub reset_nodes : String → List String → List String → M Unit
reset_nodes run_id succeeded_nodes [] = pure tt
reset_nodes run_id succeeded_nodes (n ∷ ns) = do
  reset_node run_id succeeded_nodes n
  reset_nodes run_id succeeded_nodes ns

unfoldable pub reset_interrupted_node_steps : String → M Unit
reset_interrupted_node_steps run_id = do
  succeeded_nodes ← gets (λ w. node_ids (λ s. is_succeeded s.status) run_id (Table.rows w.steps))
  all_nodes ← gets (λ w. node_ids (λ _. true) run_id (Table.rows w.steps))
  reset_nodes run_id succeeded_nodes all_nodes
  delete_steps (λ _ s. s.run_id == run_id && is_in_flight s.status)
