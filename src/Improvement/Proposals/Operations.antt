-- ===== src/Improvement/Proposals/Operations.antt =====
-- The operations on improvement proposals as they are called one after another, each of which may
-- raise, and the history of a proposal that its events tell.
pub mod Replays
pub mod Keeping
pub mod Drafting
pub mod Refines
use jarvis_awf.Prelude.{
  ℕ, String, Bool, true, false, Option, none, some, List, [], ◌∷◌, ◌==◌, if◌then◌else◌,
}
use jarvis_awf.Exec.{Result, Exec, pure, attempt, ◌>>=◌, ◌>>◌}
use jarvis_awf.Database.{World, M}
use jarvis_awf.Database.Proposals.{ProposalStatus, Proposal, ProposalEventType, ProposalEvent}
use jarvis_awf.Improvement.Evaluation.{Outcome}
use jarvis_awf.Improvement.Proposals.{Repository}
use jarvis_awf.Improvement.Proposals.Review
use jarvis_awf.Improvement.Proposals.Merging
use jarvis_awf.Improvement.Proposals.Draft

pub data Operation : Type 0 where
  prepare : (run_id : String) (summary : Option String) → Operation
  verify : (k : String) (commands : List (List String)) → Operation
  mark_ready : (k verdict : String) (validations : List String) → Operation
  request_merge : (k : String) → Operation
  merge : (k approval_id : String) → Operation
  reject : (k : String) (reason : Option String) → Operation

module _ (repo : Repository) (run_command : List String → ℕ → Outcome × ℕ)
    (merge_branch : String → String → Exec ℕ Unit) where
  unfoldable pub perform : Operation → M Unit
  perform (Operation.prepare run_id summary) = Draft.prepare repo run_id summary >> pure tt
  perform (Operation.verify k commands) = Draft.verify repo run_command k commands >> pure tt
  perform (Operation.mark_ready k verdict validations) =
      Review.mark_ready repo k verdict validations >> pure tt
  perform (Operation.request_merge k) = Merging.request_merge repo k >> pure tt
  perform (Operation.merge k approval_id) = Merging.merge repo k merge_branch approval_id >> pure tt
  perform (Operation.reject k reason) = Review.reject repo k reason >> pure tt

  -- a caller goes on after an operation that raised
  unfoldable pub perform_all : List Operation → M Unit
  perform_all [] = pure tt
  perform_all (o ∷ os) = attempt (perform o) >> perform_all os

-- the abstract machine: what an event makes of the status
abbrev pub status_after : ProposalStatus → ProposalEventType → ProposalStatus
status_after s ProposalEventType.created = ProposalStatus.draft
status_after s ProposalEventType.updated = ProposalStatus.draft
status_after s ProposalEventType.evaluation_completed = s
status_after s ProposalEventType.ready_for_review = ProposalStatus.ready_for_review
status_after s ProposalEventType.merge_requested = s
status_after s ProposalEventType.merge_failed = s
status_after s ProposalEventType.merged = ProposalStatus.merged
status_after s ProposalEventType.rejected = ProposalStatus.rejected

-- the status that the events of a proposal lead to
abbrev pub replay : String → ProposalStatus → List ProposalEvent → ProposalStatus
replay k s [] = s
replay k s (e ∷ es) = replay k (if e.improvement_id == k then status_after s e.event_type else s) es
