-- ===== src/Improvement/Proposals/Merging.antt =====
-- request_merge, _recheck_identities and merge of backend/src/awf/improvement/proposals.py.
pub mod Evidence
pub mod Rechecks
pub mod Conditions
pub mod Cleared
use jarvis_awf.Prelude.{
  ℕ, String, ◌<>◌, Bool, true, false, not, ◌&&◌, ◌||◌, Option, none, some, List, [], ◌∷◌, ◌==◌,
  if◌then◌else◌,
}
use jarvis_awf.Prelude.Table
use jarvis_awf.Json.{Value, bool, str, Dict, end, field}
use jarvis_awf.Exec.{
  Exn, Result, ok, err, plain, improvement_proposal_error, value_error, pure, raise, lift, gets,
  attempt, Exec, ◌>>=◌, ◌>>◌,
}
use jarvis_awf.Database.{
  World, M, Step, StepStatus, Approval, ApprovalStatus, RiskClass, read_disk, update_step,
  approval_of_step, uuid7, utc_now_rfc3339, write_event, on_disk, EventArgs,
}
use jarvis_awf.Database.Proposals.{Proposal, ProposalStatus, ProposalEventType}
use jarvis_awf.Engine.Run.{create_step}
use jarvis_awf.Approvals.Node.{insert_approval, pending_row}
use jarvis_awf.Improvement.Proposals.{
  Repository, refuse, note, proposal_row, update_proposal, merge_node_id, merge_step_id,
  merge_action_payload, is_ready,
}
use jarvis_awf.Improvement.Proposals.Review.{test_result_passed, merge_action_digest}

abbrev pub is_approved : ApprovalStatus → Bool
is_approved ApprovalStatus.approved = true
is_approved _ = false

module _ (repo : Repository) where
  unfoldable pub require_head : Proposal → String → M Unit
  require_head row target_head =
      if not (target_head == row.base_commit)
      then refuse "target branch moved since proposal review"
      else pure tt

  unfoldable pub require_candidate : Proposal → String → M Unit
  require_candidate row candidate_commit =
      if not (candidate_commit == row.candidate_commit)
      then refuse "candidate commit changed since proposal review"
      else pure tt

  unfoldable pub require_diff : Proposal → String → M Unit
  require_diff row patch =
      if not ("sha256:" <> repo.sha256 patch == row.diff_digest)
      then refuse "candidate diff digest changed since proposal review"
      else pure tt

  unfoldable pub require_clean : String → M Unit
  require_clean dirty =
      if not (dirty == "") then refuse "target repository has uncommitted changes" else pure tt

  unfoldable pub require_worktree : Proposal → Bool → M Unit
  require_worktree row available =
      if not available then refuse "candidate worktree is not available" else pure tt

  -- _recheck_identities
  unfoldable pub recheck_identities : Proposal → M Unit
  recheck_identities row = do
    gets (λ w. repo.has_worktree row.run_id w.disk) >>= require_worktree row
    read_disk (repo.rev_parse row.target_branch) >>= require_head row
    read_disk (repo.worktree_head row.run_id) >>= require_candidate row
    read_disk (repo.diff row.base_commit row.candidate_commit) >>= require_diff row
    read_disk repo.status >>= require_clean

  unfoldable pub require_tests : String → Bool → M Unit
  require_tests text passed = if not passed then refuse text else pure tt

  module _ (improvement_id : String) where
    abbrev pub step_of : Proposal → String
    step_of row = merge_step_id row.run_id improvement_id

    abbrev fresh_row : Proposal → ℕ → Approval
    fresh_row row now =
        pending_row row.run_id (step_of row) (merge_action_digest repo improvement_id row)
          (some RiskClass.r2) now

    abbrev requested_event : Proposal → String → EventArgs
    requested_event row approval_id = record {
      run = row.run_id;
      step = some (step_of row);
      prior = none;
      status = "WAITING_APPROVAL";
      actor = "awf";
      reason = "improvement_merge_approval_requested";
      payload = field "approval_id" (str approval_id) (
          field "improvement_id" (str improvement_id)
            (field "merge_action_digest" (str (merge_action_digest repo improvement_id row)) end));
    }

    -- no approval yet: the INSERT, the step that waits, and the two events
    unfoldable pub open_approval : Proposal → M String
    open_approval row = do
      approval_id ← uuid7
      now ← utc_now_rfc3339
      insert_approval approval_id (fresh_row row now)
      update_step (step_of row)
          (λ s. record s { status = StepStatus.waiting_approval; started_at = now })
      write_event (requested_event row approval_id)
      note improvement_id ProposalEventType.merge_requested (
          field "approval_id" (str approval_id)
            (field "merge_action_digest" (str (merge_action_digest repo improvement_id row)) end))
      pure approval_id

    -- on the row that the SELECT on approvals gives
    unfoldable pub approval_for : Proposal → Option (String × Approval) → M String
    approval_for row none = open_approval row
    approval_for row (some (approval_id, existing)) =
        if not (existing.action_digest == merge_action_digest repo improvement_id row)
        then refuse "existing merge approval digest does not match current proposal"
        else pure approval_id

    abbrev pub create_merge_step : Proposal → M Unit
    create_merge_step row =
        create_step (step_of row) row.run_id merge_node_id 1
          (merge_action_payload improvement_id row)

    -- from the create_step on
    unfoldable pub request_approval : Proposal → M String
    request_approval row =
        create_merge_step row >> (gets (approval_of_step (step_of row)) >>= approval_for row)

    unfoldable pub request_ready : Proposal → M String
    request_ready row = do
      recheck_identities row
      test_result_passed repo row.run_id row.candidate_commit
          >>= require_tests "cannot request merge without a passing test-result artifact"
      request_approval row

    unfoldable pub request_merge_from : Proposal → M String
    request_merge_from row =
        if not (is_ready row.status)
        then refuse "the proposal is not ready_for_review"
        else request_ready row

    -- the identifier of the approval that is shown
    unfoldable pub request_merge : M String
    request_merge = proposal_row improvement_id >>= request_merge_from

    -- the three guards on the approval
    unfoldable pub require_approval : Proposal → Approval → M Unit
    require_approval row approval =
        if not (approval.step_id == step_of row)
        then refuse "the approval is not for this improvement"
        else if not (is_approved approval.status)
        then refuse "the approval is not approved"
        else if not (approval.action_digest == merge_action_digest repo improvement_id row)
        then refuse "approved merge action digest does not match current proposal"
        else pure tt

    unfoldable pub record_merge : String → Proposal → Approval → String → M Proposal
    record_merge approval_id row approval merge_commit = do
      now ← utc_now_rfc3339
      update_proposal improvement_id (λ p. record p {
        status = ProposalStatus.merged;
        merge_commit = some merge_commit;
        decided_at = some now;
        closed_at = some now;
        updated_at = now;
      })
      update_step approval.step_id (λ s. record s {
        status = StepStatus.succeeded;
        output_json = some (
            field "merged" (bool true) (
              field "merge_commit" (str merge_commit)
                (field "improvement_id" (str improvement_id) end)));
        ended_at = some now;
      })
      note improvement_id ProposalEventType.merged
          (field "approval_id" (str approval_id) (field "merge_commit" (str merge_commit) end))
      on_disk (repo.remove_worktree row.run_id)
      proposal_row improvement_id

    unfoldable pub finish : String → Proposal → Approval → M Proposal
    finish approval_id row approval =
        read_disk (repo.rev_parse "HEAD") >>= record_merge approval_id row approval

    -- behind the `try` of the merge
    unfoldable pub after_merge : String → Proposal → Approval → Result (Unit {0}) → M Proposal
    after_merge approval_id row approval (ok u) = finish approval_id row approval
    after_merge approval_id row approval (err exc) = do
      note improvement_id ProposalEventType.merge_failed (field "error" (str exc.text) end)
      refuse exc.text

    -- what has to hold before the `try`
    unfoldable pub may_merge : Proposal → Approval → M Unit
    may_merge row approval = do
      require_approval row approval
      recheck_identities row
      test_result_passed repo row.run_id row.candidate_commit
          >>= require_tests "cannot merge proposal without a passing test-result artifact"

    module _ (merge_branch : String → String → Exec ℕ Unit) where
      abbrev pub merge_it : Proposal → M Unit
      merge_it row =
          on_disk (merge_branch row.candidate_branch ("Merge improvement " <> improvement_id))

      unfoldable pub merge_with : String → Proposal → Approval → M Proposal
      merge_with approval_id row approval =
          may_merge row approval
          >> (attempt (merge_it row) >>= after_merge approval_id row approval)

      unfoldable pub merge_on : String → Proposal → Option Approval → M Proposal
      merge_on approval_id row none = refuse "no such approval"
      merge_on approval_id row (some approval) = merge_with approval_id row approval

      unfoldable pub merge_from : String → Proposal → M Proposal
      merge_from approval_id row =
          gets (λ w. Table.get approval_id w.approvals) >>= merge_on approval_id row

      unfoldable pub merge : String → M Proposal
      merge approval_id = proposal_row improvement_id >>= merge_from approval_id
