-- ===== src/Improvement/Proposals/Operations/Keeping.antt =====
-- mark_ready, reject, request_merge and merge keep the agreement of the rows with the events.
use jarvis_awf.Prelude.{ℕ, String, ◌≡◌, refl, sym, not, Option, none, some, List}
use mathlib.Core.Path.{subst}
use jarvis_awf.Prelude.Table
use jarvis_awf.Json.{Dict, get_truthy}
use jarvis_awf.Exec.{Result, ok, err, Exec, pure, gets, attempt, ◌>>=◌, ◌>>◌}
use jarvis_awf.Exec.Inversion.{Preserves, >>=-Preserves}
use jarvis_awf.Exec.Preservation.{if-Preserves, or_raise-Preserves}
use jarvis_awf.Database.{M, Artifact, Approval, read_disk, on_disk, approval_of_step}
use jarvis_awf.Database.Proposals.{Proposal, ProposalStatus, ProposalEventType}
use jarvis_awf.Improvement.Proposals.{
  Repository, refuse, note, proposal_row, latest_step_id, is_closed, may_be_ready, is_ready,
}
use jarvis_awf.Improvement.Proposals.Review
use jarvis_awf.Improvement.Proposals.Merging
use jarvis_awf.Improvement.Proposals.Merging.Rechecks.{recheck-Same}
use jarvis_awf.Improvement.Proposals.Merging.Conditions.{require_approval-Same}
use jarvis_awf.Improvement.Proposals.Operations.{status_after}
use jarvis_awf.Improvement.Proposals.Operations.Replays.{Replayed, Agrees-note, Agrees-update}

abbrev pub Keeps : {A : Type 0} → M A → Type 0
Keeps m = Preserves Replayed m

pub show-Keeps : (k : String) → Keeps (proposal_row k)
show-Keeps k w h = or_raise-Preserves Replayed _ (Table.get k w.proposals) w h

pub step-Keeps : (run_id : String) → Keeps (latest_step_id run_id)
unfolding latest_step_id
step-Keeps run_id w h = or_raise-Preserves Replayed _ _ w h

-- a note of what changes no status
pub note-Keeps :
    (k : String) (t : ProposalEventType) (payload : Dict)
    → ((s : ProposalStatus) → status_after s t ≡ s)
    → Keeps (note k t payload)
unfolding note
note-Keeps k t payload same w h = Agrees-note w.proposals w.proposal_events _ same h

module _ (repo : Repository) where
  verdict-Keeps :
      (run_id artifact_id : String) → Keeps (Review.verdict_passed repo run_id artifact_id)
  unfolding Review.verdict_passed Review.verdict_of_row
  verdict-Keeps run_id artifact_id =
      >>=-Preserves Replayed (gets (λ w. Table.get artifact_id w.artifacts))
        (Review.verdict_of_row repo run_id) (λ w h. h) found
    where
      found : (o : Option Artifact) → Keeps (Review.verdict_of_row repo run_id o)
      found none = λ w h. h
      found (some row) =
          if-Preserves Replayed _ (refuse "the artifact is not this run's verdict")
            (Review.read_verdict repo row) (λ w h. h)
            (>>=-Preserves Replayed
              (read_disk (λ disk. Review.verdict_of repo (repo.content row disk)))
              (λ v. pure (get_truthy "passed" v)) (λ w h. h) (λ v w h. h))

  module _ (k : String) where
    pub mark_ready-Keeps :
        (verdict : String) (validations : List String)
        → Keeps (Review.mark_ready repo k verdict validations)
    unfolding Review.mark_ready Review.mark_ready_from Review.after_verdict Review.ready_with note
    mark_ready-Keeps verdict validations =
        >>=-Preserves Replayed (proposal_row k) (Review.mark_ready_from repo k verdict validations)
          (show-Keeps k)
          (λ row.
            if-Preserves Replayed (not (may_be_ready row.status))
              (refuse "the proposal cannot be marked ready")
              (Review.verdict_passed repo row.run_id verdict
                >>= Review.after_verdict repo k verdict validations)
              (λ w h. h)
              (>>=-Preserves Replayed (Review.verdict_passed repo row.run_id verdict)
                (Review.after_verdict repo k verdict validations) (verdict-Keeps row.run_id verdict)
                (λ passed.
                  if-Preserves Replayed (not passed) (refuse "the verdict artifact did not pass")
                    (Review.ready_with repo k verdict validations) (λ w h. h)
                    (λ w h.
                      show-Keeps k _
                        (Agrees-update w.proposals w.proposal_events _ _ (λ p s. refl) h)))))

    close-Keeps : (reason : Option String) (row : Proposal) → Keeps (Review.close repo k reason row)
    unfolding Review.close note
    close-Keeps reason row w h =
        removed _ (Agrees-update w.proposals w.proposal_events _ _ (λ p s. refl) h)
      where
        removed : Keeps (on_disk (repo.remove_worktree row.run_id) >> proposal_row k)
        removed =
            >>=-Preserves Replayed (on_disk (repo.remove_worktree row.run_id)) (λ u. proposal_row k)
              (λ w h. h) (λ u. show-Keeps k)

    pub reject-Keeps : (reason : Option String) → Keeps (Review.reject repo k reason)
    unfolding Review.reject Review.reject_from
    reject-Keeps reason =
        >>=-Preserves Replayed (proposal_row k) (Review.reject_from repo k reason) (show-Keeps k)
          (λ row.
            if-Preserves Replayed (is_closed row.status) (refuse "the proposal is already closed")
              (Review.close repo k reason row) (λ w h. h) (close-Keeps reason row))

    recheck-Keeps : (row : Proposal) → Keeps (Merging.recheck_identities repo row)
    recheck-Keeps row w h = subst Replayed (sym (recheck-Same repo w row w refl)) h

    tested-Keeps :
        (row : Proposal) (text : String)
        → Keeps (
            Review.test_result_passed repo row.run_id row.candidate_commit
            >>= Merging.require_tests repo text)
    unfolding Review.test_result_passed Merging.require_tests
    tested-Keeps row text =
        >>=-Preserves Replayed (Review.test_result_passed repo row.run_id row.candidate_commit)
          (Merging.require_tests repo text) (λ w h. h)
          (λ passed.
            if-Preserves Replayed (not passed) (refuse text) (pure tt) (λ w h. h) (λ w h. h))

    approval-Keeps :
        (row : Proposal) (o : Option (String × Approval))
        → Keeps (Merging.approval_for repo k row o)
    unfolding Merging.approval_for Merging.open_approval note
    approval-Keeps row none = λ w h. Agrees-note w.proposals w.proposal_events _ (λ s. refl) h
    approval-Keeps row (some (approval_id, existing)) =
        if-Preserves Replayed _
          (refuse "existing merge approval digest does not match current proposal")
          (pure approval_id) (λ w h. h) (λ w h. h)

    pub request-Keeps : Keeps (Merging.request_merge repo k)
    unfolding Merging.request_merge Merging.request_merge_from Merging.request_ready
        Merging.request_approval
    request-Keeps =
        >>=-Preserves Replayed (proposal_row k) (Merging.request_merge_from repo k) (show-Keeps k)
          (λ row.
            if-Preserves Replayed (not (is_ready row.status))
              (refuse "the proposal is not ready_for_review") (Merging.request_ready repo k row)
              (λ w h. h)
              (>>=-Preserves Replayed (Merging.recheck_identities repo row)
                (λ u. tested row >> Merging.request_approval repo k row) (recheck-Keeps row)
                (λ u.
                  >>=-Preserves Replayed (tested row) (λ v. Merging.request_approval repo k row)
                    (tested-Keeps row _)
                    (λ v.
                      >>=-Preserves Replayed (Merging.create_merge_step repo k row)
                        (λ x.
                          gets (approval_of_step (Merging.step_of repo k row))
                          >>= Merging.approval_for repo k row)
                        (λ w h. h)
                        (λ x. λ w h.
                          approval-Keeps row (approval_of_step (Merging.step_of repo k row) w) w
                            h)))))
      where
        tested : Proposal → M Unit
        tested row =
            Review.test_result_passed repo row.run_id row.candidate_commit
            >>= Merging.require_tests repo
                "cannot request merge without a passing test-result artifact"

    may_merge-Keeps :
        (row : Proposal) (approval : Approval) → Keeps (Merging.may_merge repo k row approval)
    unfolding Merging.may_merge
    may_merge-Keeps row approval =
        >>=-Preserves Replayed (Merging.require_approval repo k row approval)
          (λ u. Merging.recheck_identities repo row >> tested)
          (λ w h. subst Replayed (sym (require_approval-Same repo w row k approval w refl)) h)
          (λ u.
            >>=-Preserves Replayed (Merging.recheck_identities repo row) (λ v. tested)
              (recheck-Keeps row) (λ v. tested-Keeps row _))
      where
        tested : M Unit
        tested =
            Review.test_result_passed repo row.run_id row.candidate_commit
            >>= Merging.require_tests repo
                "cannot merge proposal without a passing test-result artifact"

    record-Keeps :
        (approval_id : String) (row : Proposal) (approval : Approval) (commit : String)
        → Keeps (Merging.record_merge repo k approval_id row approval commit)
    unfolding Merging.record_merge note
    record-Keeps approval_id row approval commit w h =
        removed _ (Agrees-update w.proposals w.proposal_events _ _ (λ p s. refl) h)
      where
        removed : Keeps (on_disk (repo.remove_worktree row.run_id) >> proposal_row k)
        removed =
            >>=-Preserves Replayed (on_disk (repo.remove_worktree row.run_id)) (λ u. proposal_row k)
              (λ w h. h) (λ u. show-Keeps k)

    after_merge-Keeps :
        (approval_id : String) (row : Proposal) (approval : Approval) (r : Result (Unit {0}))
        → Keeps (Merging.after_merge repo k approval_id row approval r)
    unfolding Merging.after_merge Merging.finish note
    after_merge-Keeps approval_id row approval (ok u) =
        >>=-Preserves Replayed (read_disk (repo.rev_parse "HEAD"))
          (Merging.record_merge repo k approval_id row approval) (λ w h. h)
          (record-Keeps approval_id row approval)
    after_merge-Keeps approval_id row approval (err e) =
        λ w h. Agrees-note w.proposals w.proposal_events _ (λ s. refl) h

    pub merge-Keeps :
        (mb : String → String → Exec ℕ Unit) (approval_id : String)
        → Keeps (Merging.merge repo k mb approval_id)
    unfolding Merging.merge Merging.merge_from Merging.merge_on Merging.merge_with
    merge-Keeps mb approval_id =
        >>=-Preserves Replayed (proposal_row k) (Merging.merge_from repo k mb approval_id)
          (show-Keeps k) (λ row w h. from row (Table.get approval_id w.approvals) w h)
      where
        from :
            (row : Proposal) (o : Option Approval)
            → Keeps (Merging.merge_on repo k mb approval_id row o)
        from row none = λ w h. h
        from row (some approval) =
            >>=-Preserves Replayed (Merging.may_merge repo k row approval)
              (λ u.
                attempt (Merging.merge_it repo k mb row)
                >>= Merging.after_merge repo k approval_id row approval)
              (may_merge-Keeps row approval)
              (λ u w h.
                after_merge-Keeps approval_id row approval (Merging.merge_it repo k mb row w).0
                  (Merging.merge_it repo k mb row w).1 h)
