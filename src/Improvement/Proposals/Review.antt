-- ===== src/Improvement/Proposals/Review.antt =====
-- The evidence behind a proposal, and mark_ready, request_merge and reject of
-- backend/src/awf/improvement/proposals.py.
use jarvis_awf.Prelude.{
  ℕ, String, ◌<>◌, Bool, true, false, not, ◌||◌, Option, none, some, List, [], ◌∷◌, ◌==◌,
  if◌then◌else◌,
}
use jarvis_awf.Prelude.Table
use jarvis_awf.Json.{null, str, arr, Dict, end, field, get_truthy, text_items}
use jarvis_awf.Json.Convert.{dict_of}
use jarvis_awf.Exec.{
  Result, ok, err, plain, improvement_proposal_error, value_error, pure, gets, ◌>>=◌, ◌>>◌,
}
use jarvis_awf.Database.{M, Artifact, read_disk, utc_now_rfc3339, on_disk}
use jarvis_awf.Database.Proposals.{Proposal, ProposalStatus, ProposalEventType}
use jarvis_awf.Improvement.Proposals.{
  Content, absent, not_json, holds, Repository, refuse, note, proposal_row, update_proposal,
  merge_action_payload, latest_artifacts, accepts, is_closed, may_be_ready,
}

module _ (repo : Repository) where
  -- the dict of the file of a verdict
  abbrev pub verdict_of : Content → Result Dict
  verdict_of absent = err (plain value_error "No such file or directory")
  verdict_of not_json = err (plain improvement_proposal_error "the verdict artifact is not JSON")
  verdict_of (holds v) = dict_of v

  abbrev pub read_verdict : Artifact → M Bool
  read_verdict row = read_disk (λ disk. verdict_of (repo.content row disk)) >>= λ verdict.
      pure (get_truthy "passed" verdict)

  -- _verdict_passed, on the row that the SELECT gives
  unfoldable pub verdict_of_row : String → Option Artifact → M Bool
  verdict_of_row run_id none = refuse "no such verdict artifact"
  verdict_of_row run_id (some row) =
      if not (row.run_id == run_id) || not (row.artifact_type == "verdict")
      then refuse "the artifact is not this run's verdict"
      else read_verdict row

  unfoldable pub verdict_passed : String → String → M Bool
  verdict_passed run_id artifact_id =
      gets (λ w. Table.get artifact_id w.artifacts) >>= verdict_of_row run_id

  -- the loop of _test_result_passed
  unfoldable pub find_passing : String → List Artifact → ℕ → Result Bool
  find_passing candidate_commit [] disk = ok false
  find_passing candidate_commit (a ∷ rest) disk =
      let others = find_passing candidate_commit rest disk in
      elim (repo.content a disk) [
        | absent ↦ others
        | not_json ↦ others
        | holds v ↦ elim (dict_of v) [
          | err e ↦ err e
          | ok d ↦ if accepts candidate_commit d then ok true else others
        ]
      ]

  -- _test_result_passed
  unfoldable pub test_result_passed : String → String → M Bool
  unfolding latest_artifacts
  test_result_passed run_id candidate_commit w = (
    find_passing candidate_commit (latest_artifacts run_id "test-result" (Table.rows w.artifacts))
        w.disk,
    w,
  )

  abbrev pub merge_action_digest : String → Proposal → String
  merge_action_digest improvement_id row =
      "sha256:" <> repo.json_digest (merge_action_payload improvement_id row)

  module _ (improvement_id : String) where
    abbrev pub show : M Proposal
    show = proposal_row improvement_id

    unfoldable pub ready_with : String → List String → M Proposal
    ready_with verdict_artifact_id validation_artifact_ids = do
      now ← utc_now_rfc3339
      update_proposal improvement_id (λ p. record p {
        status = ProposalStatus.ready_for_review;
        verdict_artifact_id = some verdict_artifact_id;
        validation_artifact_ids = validation_artifact_ids;
        updated_at = now;
      })
      note improvement_id ProposalEventType.ready_for_review (
          field "verdict_artifact_id" (str verdict_artifact_id)
            (field "validation_artifact_ids" (arr (text_items validation_artifact_ids)) end))
      show

    unfoldable pub after_verdict : String → List String → Bool → M Proposal
    after_verdict verdict_artifact_id validation_artifact_ids passed =
        if not passed
        then refuse "the verdict artifact did not pass"
        else ready_with verdict_artifact_id validation_artifact_ids

    unfoldable pub mark_ready_from : String → List String → Proposal → M Proposal
    mark_ready_from verdict_artifact_id validation_artifact_ids row =
        if not (may_be_ready row.status)
        then refuse "the proposal cannot be marked ready"
        else (verdict_passed row.run_id verdict_artifact_id
            >>= after_verdict verdict_artifact_id validation_artifact_ids)

    unfoldable pub mark_ready : String → List String → M Proposal
    mark_ready verdict_artifact_id validation_artifact_ids =
        proposal_row improvement_id >>= mark_ready_from verdict_artifact_id validation_artifact_ids

    unfoldable pub close : Option String → Proposal → M Proposal
    close reason row = do
      now ← utc_now_rfc3339
      update_proposal improvement_id (λ p. record p {
        status = ProposalStatus.rejected;
        decided_at = some now;
        closed_at = some now;
        updated_at = now;
      })
      note improvement_id ProposalEventType.rejected
          (field "reason" (elim reason [ none ↦ null | some s ↦ str s ]) end)
      on_disk (repo.remove_worktree row.run_id)
      show

    unfoldable pub reject_from : Option String → Proposal → M Proposal
    reject_from reason row =
        if is_closed row.status then refuse "the proposal is already closed" else close reason row

    unfoldable pub reject : Option String → M Proposal
    reject reason = proposal_row improvement_id >>= reject_from reason
