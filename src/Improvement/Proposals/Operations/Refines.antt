-- ===== src/Improvement/Proposals/Operations/Refines.antt =====
-- The operations on proposals keep the agreement of the rows with the events.
use jarvis_awf.Prelude.{ℕ, String, List, [], ◌∷◌}
use jarvis_awf.Exec.{Exec, pure, ◌>>◌}
use jarvis_awf.Exec.Inversion.{>>=-Preserves}
use jarvis_awf.Database.{World, M}
use jarvis_awf.Improvement.Evaluation.{Outcome}
use jarvis_awf.Improvement.Proposals.{Repository}
use jarvis_awf.Improvement.Proposals.Review
use jarvis_awf.Improvement.Proposals.Merging
use jarvis_awf.Improvement.Proposals.Draft
use jarvis_awf.Improvement.Proposals.Operations.{Operation, perform, perform_all}
use jarvis_awf.Improvement.Proposals.Operations.Replays.{Replayed}
use jarvis_awf.Improvement.Proposals.Operations.Keeping.{
  Keeps, mark_ready-Keeps, reject-Keeps, request-Keeps, merge-Keeps,
}
use jarvis_awf.Improvement.Proposals.Operations.Drafting.{prepare-Keeps, verify-Keeps}

module _ (repo : Repository) (run_command : List String → ℕ → Outcome × ℕ)
    (merge_branch : String → String → Exec ℕ Unit) where
  done-Keeps : {A : Type 0} (m : M A) → Keeps m → Keeps (m >> pure tt)
  done-Keeps m h = >>=-Preserves Replayed m (λ x. pure tt) h (λ x w g. g)

  perform-Keeps : (o : Operation) → Keeps (perform repo run_command merge_branch o)
  unfolding perform
  perform-Keeps (Operation.prepare run_id summary) =
      done-Keeps (Draft.prepare repo run_id summary) (prepare-Keeps repo run_id summary)
  perform-Keeps (Operation.verify k commands) =
      done-Keeps (Draft.verify repo run_command k commands)
        (verify-Keeps repo run_command k commands)
  perform-Keeps (Operation.mark_ready k verdict validations) =
      done-Keeps (Review.mark_ready repo k verdict validations)
        (mark_ready-Keeps repo k verdict validations)
  perform-Keeps (Operation.request_merge k) =
      done-Keeps (Merging.request_merge repo k) (request-Keeps repo k)
  perform-Keeps (Operation.merge k approval_id) =
      done-Keeps (Merging.merge repo k merge_branch approval_id)
        (merge-Keeps repo k merge_branch approval_id)
  perform-Keeps (Operation.reject k reason) =
      done-Keeps (Review.reject repo k reason) (reject-Keeps repo k reason)

  -- Whatever is called in whatever order, and whichever calls raise, the status of every proposal
  -- stays the one that the events of that proposal lead to in the abstract machine.
  pub perform_all-Replayed :
      (os : List Operation) (w : World)
      → Replayed w
      → Replayed (perform_all repo run_command merge_branch os w).1
  unfolding perform_all
  perform_all-Replayed [] w h = h
  perform_all-Replayed (o ∷ os) w h =
      perform_all-Replayed os (perform repo run_command merge_branch o w).1 (perform-Keeps o w h)
