-- ===== src/Samples/Proposals.antt =====
-- Improvement proposals and their evaluation, on the inputs of Samples.
use jarvis_awf.Prelude.{ℕ, String, ◌≡◌, ◌⊎◌, refl, true, none, some, List, [], ◌∷◌, ◌+◌}
use jarvis_awf.Prelude.Int.{pos}
use jarvis_awf.Prelude.Table
use jarvis_awf.Json.{obj, num, Dict, nil, cons}
use jarvis_awf.Exec.{ok, Exec}
use jarvis_awf.Database.{World, ApprovalStatus, RiskClass, RunStatus, StepStatus}
use jarvis_awf.Database.Proposals.{Proposal, ProposalStatus}
use jarvis_awf.Gates.Artifacts.{write_artifact}
use jarvis_awf.Improvement.Evaluation.{
  Outcome, Evaluation, result_of, evaluation_payload, run_commands, store, evaluate_commit,
  run_evaluation,
}
use jarvis_awf.Improvement.Evaluation.Passes.{Evaluates, run_evaluation-Evaluates}
use jarvis_awf.Improvement.Proposals.{Repository, holds}
use jarvis_awf.Improvement.Proposals.Merging.Evidence.{is_test_of, evaluation, evaluation-vouches}
use jarvis_awf.Improvement.Proposals.Merging.Conditions.{Cleared}
use jarvis_awf.Improvement.Proposals.Merging.Cleared.{Ignores, merge-Cleared}
use jarvis_awf.Improvement.Proposals.Operations.{Operation, perform_all}
use jarvis_awf.Improvement.Proposals.Operations.Replays.{Replayed}
use jarvis_awf.Improvement.Proposals.Operations.Refines.{perform_all-Replayed}
use jarvis_awf.Samples.{nothing, with_step, run_row}

-- every command succeeds, and leaves a file
abbrev run_command : List String → ℕ → Outcome × ℕ
run_command cmd disk = (
  record { exit_code = pos 0; duration = num (pos 1); stdout = "1 passed"; stderr = "" },
  disk + 1,
)

abbrev commands : List (List String)
commands = ("pytest" ∷ []) ∷ []

abbrev digest_of : Dict → String
digest_of d = "d"

abbrev payload : Dict
payload =
    evaluation_payload run_command digest_of "r" "s" "c1" true
      (cons (result_of ("pytest" ∷ []) (run_command ("pytest" ∷ []) 0).0) nil) 0

abbrev repo : Repository
repo = record {
  current_branch = λ d. ok "main";
  worktree_branch = λ r d. ok "awf/run/r";
  has_worktree = λ r d. true;
  worktree_head = λ r d. ok "c1";
  rev_parse = λ b d. ok "b0";
  merge_base = λ a b d. ok "b0";
  diff = λ a b d. ok "patch";
  changed_paths = λ a b d. ok nil;
  status = λ d. ok "";
  content = λ a d. holds (obj payload);
  remove_worktree = λ r d. (ok tt, d);
  sha256 = λ s. s;
  json_digest = digest_of;
}

abbrev merge_branch : String → String → Exec ℕ Unit
merge_branch branch message d = (ok tt, d + 1)

run_evaluation-Evaluates_example :
    Evaluates run_command digest_of "r" "s"
      (λ d. true)
      (λ d. ok "c1")
      ""
      commands
      nothing
      (run_evaluation run_command digest_of "r" "s"
        (λ d. true)
        (λ d. ok "c1")
        ""
        commands
        nothing).0
      (run_evaluation run_command digest_of "r" "s"
        (λ d. true)
        (λ d. ok "c1")
        ""
        commands
        nothing).1
run_evaluation-Evaluates_example =
    run_evaluation-Evaluates run_command digest_of "r" "s" (λ d. true) (λ d. ok "c1") "" commands
      nothing

abbrev evaluated : Evaluation
evaluated = record { artifact_id = "id"; passed = true; payload = payload }

evaluates : (evaluation repo run_command "r" "s" "c1" commands nothing).0 ≡ ok evaluated
unfolding evaluate_commit store write_artifact run_commands
evaluates = refl

unused_id : Table.get "id" nothing.artifacts ≡ none
unfolding Table.get Table.empty
unused_id = refl

evaluation-vouches_example :
    Table.exists
      (is_test_of repo "c1" 0 "r")
      (evaluation repo run_command "r" "s" "c1" commands nothing).1.artifacts
    ≡ true
evaluation-vouches_example =
    evaluation-vouches repo run_command "r" "s" "c1" commands 0 nothing evaluates refl unused_id
      (λ a g. refl)

abbrev proposal : ProposalStatus → Proposal
proposal status = record {
  run_id = "r";
  target_branch = "main";
  base_commit = "b0";
  candidate_branch = "awf/run/r";
  candidate_commit = "c1";
  diff_digest = "sha256:patch";
  patch_artifact_id = "p";
  status = status;
  summary = "";
  changed_paths = nil;
  verdict_artifact_id = some "v";
  validation_artifact_ids = [];
  merge_commit = none;
  created_at = 0;
  updated_at = 0;
  decided_at = none;
  closed_at = none;
}

abbrev with_proposal : ProposalStatus → World
with_proposal status = record nothing {
  proposals = Table.insert_new "i" (proposal status) Table.empty;
  approvals =
      Table.insert_new "a"
        (record {
          run_id = "r";
          step_id = "r:improvement-merge:i";
          action_digest = "sha256:d";
          status = ApprovalStatus.approved;
          reason = none;
          risk_class = some RiskClass.r2;
          requested_at = 0;
          decided_at = some 1;
        })
        Table.empty;
  artifacts =
      Table.insert_new "t"
        (record {
          run_id = "r";
          step_id = "s";
          sha256 = "";
          media_type = "";
          artifact_type = "test-result";
          created_at = 0;
        })
        Table.empty;
}

merge-Cleared_example :
    Cleared repo "i" "a" (with_proposal ProposalStatus.ready_for_review)
    ⊎ Ignores repo "i" "a" (with_proposal ProposalStatus.ready_for_review)
merge-Cleared_example = merge-Cleared repo "i" "a" (with_proposal ProposalStatus.ready_for_review)

abbrev done_run : World
done_run = record (with_step StepStatus.succeeded) {
  runs = Table.insert_new "r" (record run_row { status = RunStatus.succeeded }) Table.empty;
}

abbrev operations : List Operation
operations =
    Operation.prepare "r" none
    ∷ Operation.verify "id" commands
    ∷ Operation.mark_ready "id" "v" []
    ∷ Operation.request_merge "id"
    ∷ Operation.merge "id" "id"
    ∷ Operation.reject "id" none
    ∷ []

none_yet : Replayed done_run
unfolding Table.get Table.empty
none_yet k p g = absurd (cc g)

perform_all-Replayed_example :
    Replayed (perform_all repo run_command merge_branch operations done_run).1
perform_all-Replayed_example =
    perform_all-Replayed repo run_command merge_branch operations done_run none_yet
