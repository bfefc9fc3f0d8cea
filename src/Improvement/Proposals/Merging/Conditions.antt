-- ===== src/Improvement/Proposals/Merging/Conditions.antt =====
-- What may_merge lets through.
use jarvis_awf.Prelude.{
  String, ◌<>◌, ◌≡◌, refl, sym, ap, ◌∙◌, Bool, true, false, not, some, ◌==◌, eq_iff, if◌then◌else◌,
}
use jarvis_awf.Prelude.Table
use jarvis_awf.Prelude.Table.{on_pair, exists, exists-rows}
use jarvis_awf.Exec.{ok, pure, ◌>>=◌, ◌>>◌}
use jarvis_awf.Exec.Inversion.{Preserves, >>=-Returned}
use jarvis_awf.Database.{World, M, Approval, ApprovalStatus}
use jarvis_awf.Database.Proposals.{Proposal}
use jarvis_awf.Improvement.Proposals.{Repository, latest_artifacts, merge_step_id, refuse}
use jarvis_awf.Improvement.Proposals.Review.{test_result_passed, merge_action_digest}
use jarvis_awf.Improvement.Proposals.Merging.Evidence.{is_test_of, find_passing-vouches, any-latest}
use jarvis_awf.Improvement.Proposals.Merging.{
  is_approved, recheck_identities, require_tests, require_approval, may_merge,
}
use jarvis_awf.Improvement.Proposals.Merging.Rechecks.{Same, refuses, recheck-Unmoved, recheck-Same}

is_approved-eq : (s : ApprovalStatus) → is_approved s ≡ true → s ≡ ApprovalStatus.approved
is_approved-eq ApprovalStatus.approved h = refl
is_approved-eq ApprovalStatus.pending h = absurd (cc h)
is_approved-eq ApprovalStatus.rejected h = absurd (cc h)
is_approved-eq ApprovalStatus.expired h = absurd (cc h)

-- What lets a candidate be merged, in the state in which `merge` is called.
pub record Cleared (repo : Repository) (k approval_id : String) (w : World) : Type 0 where
  pub row : Proposal
  pub approval : Approval
  pub found : Table.get k w.proposals ≡ some row
  pub asked : Table.get approval_id w.approvals ≡ some approval
  pub about : approval.step_id ≡ merge_step_id row.run_id k
  pub granted : approval.status ≡ ApprovalStatus.approved
  pub unchanged : approval.action_digest ≡ merge_action_digest repo k row
  pub worktree : repo.has_worktree row.run_id w.disk ≡ true
  pub target : repo.rev_parse row.target_branch w.disk ≡ ok row.base_commit
  pub candidate : repo.worktree_head row.run_id w.disk ≡ ok row.candidate_commit
  pub patch : String
  pub diffed : repo.diff row.base_commit row.candidate_commit w.disk ≡ ok patch
  pub reviewed : "sha256:" <> repo.sha256 patch ≡ row.diff_digest
  pub clean : repo.status w.disk ≡ ok ""
  pub tested : exists (is_test_of repo row.candidate_commit w.disk row.run_id) w.artifacts ≡ true

module _ (repo : Repository) (w : World) (row : Proposal) where
  module _ (k : String) (approval : Approval) where
    record Decided : Type 0 where
      about : approval.step_id ≡ merge_step_id row.run_id k
      granted : is_approved approval.status ≡ true
      unchanged : approval.action_digest ≡ merge_action_digest repo k row

    require_approval-Decided :
        {u : Unit {0}} → (require_approval repo k row approval w).0 ≡ ok u → Decided
    unfolding require_approval
    require_approval-Decided h =
        from (approval.step_id == merge_step_id row.run_id k) refl (is_approved approval.status)
          refl (approval.action_digest == merge_action_digest repo k row) refl h
      where
        from :
            (a : Bool)
            → (approval.step_id == merge_step_id row.run_id k) ≡ a
            → (b : Bool) → is_approved approval.status ≡ b
            → (c : Bool) → (approval.action_digest == merge_action_digest repo k row) ≡ c
            → {u : Unit {0}}
            → ((if not a
                  then refuse "the approval is not for this improvement"
                  else if not b
                  then refuse "the approval is not approved"
                  else if not c
                  then refuse "approved merge action digest does not match current proposal"
                  else pure tt)
                w).0
              ≡ ok u
            → Decided
        from true x true y true z g = record {
          about = (eq_iff approval.step_id (merge_step_id row.run_id k)).0 x;
          granted = y;
          unchanged = (eq_iff approval.action_digest (merge_action_digest repo k row)).0 z;
        }
        from false x b y c z g = absurd (cc g)
        from true x false y c z g = absurd (cc g)
        from true x true y false z g = absurd (cc g)

    pub require_approval-Same : Preserves (Same repo w) (require_approval repo k row approval)
    unfolding require_approval
    require_approval-Same v h =
        from (approval.step_id == merge_step_id row.run_id k) (is_approved approval.status)
          (approval.action_digest == merge_action_digest repo k row)
      where
        from :
            (a b c : Bool)
            → Same repo w
                ((if not a
                    then refuse {A = Unit {0}} "the approval is not for this improvement"
                    else if not b
                    then refuse "the approval is not approved"
                    else if not c
                    then refuse "approved merge action digest does not match current proposal"
                    else pure tt)
                  v).1
        from true true true = h
        from false b c = h
        from true false c = h
        from true true false = h

    abbrev tests : M Unit
    tests =
        test_result_passed repo row.run_id row.candidate_commit
        >>= require_tests repo "cannot merge proposal without a passing test-result artifact"

    pub may_merge-Cleared :
        (approval_id : String)
        → Table.get k w.proposals ≡ some row
        → Table.get approval_id w.approvals ≡ some approval
        → {u : Unit {0}} → (may_merge repo k row approval w).0 ≡ ok u
        → Cleared repo k approval_id w
    unfolding may_merge test_result_passed require_tests
    may_merge-Cleared approval_id p q h =
        let a =
          >>=-Returned (require_approval repo k row approval)
            (λ _. recheck_identities repo row >> tests) w h in
        let at_w : ((recheck_identities repo row >> tests) w).0 ≡ ok _ =
          ap (λ v. ((recheck_identities repo row >> tests) v).0)
            (sym (require_approval-Same w refl))
          ∙ a.second in
        let b = >>=-Returned (recheck_identities repo row) (λ _. tests) w at_w in
        let at_end : (tests w).0 ≡ ok _ =
          ap (λ v. (tests v).0) (sym (recheck-Same repo w row w refl)) ∙ b.second in
        let c =
          >>=-Returned (test_result_passed repo row.run_id row.candidate_commit)
            (require_tests repo "cannot merge proposal without a passing test-result artifact") w
            at_end in
        let d = require_approval-Decided a.first in
        let e = recheck-Unmoved repo w row b.first in
        let passing : c.value ≡ true =
          refuses repo w c.value "cannot merge proposal without a passing test-result artifact"
            c.second in
        record {
          row = row;
          approval = approval;
          found = p;
          asked = q;
          about = d.about;
          granted = is_approved-eq approval.status d.granted;
          unchanged = d.unchanged;
          worktree = e.worktree;
          target = e.target;
          candidate = e.candidate;
          patch = e.patch;
          diffed = e.diffed;
          reviewed = e.reviewed;
          clean = e.clean;
          tested =
              exists-rows (is_test_of repo row.candidate_commit w.disk row.run_id) w.artifacts
              ∙ sym
                  (any-latest repo row.candidate_commit w.disk row.run_id (Table.rows w.artifacts))
              ∙ find_passing-vouches repo row.candidate_commit w.disk
                  (latest_artifacts row.run_id "test-result" (Table.rows w.artifacts))
                  (c.first ∙ ap ok passing);
        }
