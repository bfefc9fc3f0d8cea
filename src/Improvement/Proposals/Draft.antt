-- ===== src/Improvement/Proposals/Draft.antt =====
-- prepare and verify of backend/src/awf/improvement/proposals.py, with write_patch_artifact of
-- backend/src/awf/improvement/diff.py.
use jarvis_awf.Prelude.{
  ℕ, String, ◌<>◌, Bool, true, false, not, Option, none, some, List, [], ◌==◌, is_some,
  if◌then◌else◌,
}
use jarvis_awf.Prelude.Table
use jarvis_awf.Json.{bool, str, Items, Dict, end, field}
use jarvis_awf.Exec.{
  ok, plain, improvement_proposal_error, integrity_error, pure, raise, gets, or_raise, ◌>>=◌, ◌>>◌,
}
use jarvis_awf.Database.{World, M, Run, RunStatus, Artifact, read_disk, uuid7, utc_now_rfc3339}
use jarvis_awf.Database.Proposals.{Proposal, ProposalStatus, ProposalEventType}
use jarvis_awf.Improvement.Evaluation.{Outcome, Evaluation, run_evaluation}
use jarvis_awf.Improvement.Proposals.{
  Repository, refuse, note, proposal_row, update_proposal, latest_step_id,
}

abbrev pub run_succeeded : RunStatus → Bool
run_succeeded RunStatus.succeeded = true
run_succeeded _ = false

-- what git says of the candidate of a run
pub record Candidate : Type 0 where
  pub target_branch : String
  pub base_commit : String
  pub candidate_branch : String
  pub candidate_commit : String
  pub patch : String
  pub paths : Items

-- `for_run` of the SELECT on improvement_proposals
abbrev pub of_run : String → String → Proposal → Bool
of_run run_id k p = p.run_id == run_id

abbrev insert_patch : String → Artifact → M Unit
insert_patch k row w = (ok tt, record w { artifacts = Table.insert_new k row w.artifacts })

abbrev insert_proposal : String → Proposal → M Unit
insert_proposal k row w = (ok tt, record w { proposals = Table.insert_new k row w.proposals })

abbrev pub branch_name : String → String
branch_name run_id = "awf/run/" <> run_id

module _ (repo : Repository) where
  unfoldable pub write_patch_artifact : String → String → String → M String
  write_patch_artifact run_id step_id patch = do
    artifact_id ← uuid7
    now ← utc_now_rfc3339
    insert_patch artifact_id (record {
      run_id = run_id;
      step_id = step_id;
      sha256 = repo.sha256 patch;
      media_type = "text/x-diff";
      artifact_type = "patch";
      created_at = now;
    })
    pure artifact_id

  module _ (run_id : String) (summary : Option String) where
    abbrev summary_text : String
    summary_text = elim summary [
      | none ↦ "Improvement from run " <> run_id
      | some s ↦ if s == "" then "Improvement from run " <> run_id else s
    ]

    abbrev pub drafted : Candidate → String → ℕ → Proposal
    drafted c patch_artifact_id now = record {
      run_id = run_id;
      target_branch = c.target_branch;
      base_commit = c.base_commit;
      candidate_branch = c.candidate_branch;
      candidate_commit = c.candidate_commit;
      diff_digest = "sha256:" <> repo.sha256 c.patch;
      patch_artifact_id = patch_artifact_id;
      status = ProposalStatus.draft;
      summary = summary_text;
      changed_paths = c.paths;
      verdict_artifact_id = none;
      validation_artifact_ids = [];
      merge_commit = none;
      created_at = now;
      updated_at = now;
      decided_at = none;
      closed_at = none;
    }

    abbrev pub redrafted : Candidate → String → ℕ → Proposal → Proposal
    redrafted c patch_artifact_id now p = record p {
      target_branch = c.target_branch;
      base_commit = c.base_commit;
      candidate_branch = c.candidate_branch;
      candidate_commit = c.candidate_commit;
      diff_digest = "sha256:" <> repo.sha256 c.patch;
      patch_artifact_id = patch_artifact_id;
      status = ProposalStatus.draft;
      summary = summary_text;
      changed_paths = c.paths;
      verdict_artifact_id = none;
      validation_artifact_ids = [];
      updated_at = now;
    }

    abbrev draft_payload : Candidate → String → Dict
    draft_payload c patch_artifact_id =
        field "diff_digest" (str ("sha256:" <> repo.sha256 c.patch))
          (field "patch_artifact_id" (str patch_artifact_id) end)

    -- the INSERT of a fresh key, which is taken at most if identifiers repeat
    unfoldable pub insert_draft : Candidate → String → ℕ → String → Bool → M Proposal
    insert_draft c patch_artifact_id now k true =
        raise (plain integrity_error "UNIQUE constraint failed")
    insert_draft c patch_artifact_id now k false = do
      insert_proposal k (drafted c patch_artifact_id now)
      note k ProposalEventType.created (draft_payload c patch_artifact_id)
      proposal_row k

    abbrev is_taken : String → World → Bool
    is_taken k w = is_some (Table.get k w.proposals)

    -- on the row of the run, if there is one
    unfoldable pub save_draft : Candidate → String → ℕ → Option (String × Proposal) → M Proposal
    save_draft c patch_artifact_id now none = do
      k ← uuid7
      gets (is_taken k) >>= insert_draft c patch_artifact_id now k
    save_draft c patch_artifact_id now (some (k, p)) = do
      update_proposal k (redrafted c patch_artifact_id now)
      note k ProposalEventType.updated (draft_payload c patch_artifact_id)
      proposal_row k

    -- from write_patch_artifact on
    unfoldable pub save_patch : Candidate → String → M Proposal
    save_patch c step_id = do
      patch_artifact_id ← write_patch_artifact run_id step_id c.patch
      now ← utc_now_rfc3339
      gets (λ w. Table.find (of_run run_id) w.proposals) >>= save_draft c patch_artifact_id now

    unfoldable pub save_candidate : Candidate → M Proposal
    save_candidate c = latest_step_id run_id >>= save_patch c

    abbrev pub candidate : String → String → String → String → String → Items → Candidate
    candidate target_branch branch candidate_commit base_commit patch paths = record {
      target_branch = target_branch;
      base_commit = base_commit;
      candidate_branch = if branch == "" then branch_name run_id else branch;
      candidate_commit = candidate_commit;
      patch = patch;
      paths = paths;
    }

    -- from the diff on
    unfoldable pub described : String → String → String → String → String → M Candidate
    described target_branch branch candidate_commit base_commit patch =
        if patch == ""
        then refuse "candidate diff is empty"
        else (read_disk (repo.changed_paths base_commit candidate_commit) >>= λ paths.
            pure (candidate target_branch branch candidate_commit base_commit patch paths))

    abbrev pub on_base : String → String → String → String → M Candidate
    on_base target_branch branch candidate_commit base_commit =
        read_disk (repo.diff base_commit candidate_commit)
        >>= described target_branch branch candidate_commit base_commit

    abbrev pub on_commit : String → String → String → M Candidate
    on_commit target_branch branch candidate_commit =
        read_disk (repo.merge_base target_branch candidate_commit)
        >>= on_base target_branch branch candidate_commit

    abbrev pub gather : String → M Candidate
    gather target_branch = read_disk (repo.worktree_branch run_id) >>= λ branch.
        read_disk (repo.worktree_head run_id) >>= on_commit target_branch branch

    -- the reads of the two repositories, from the branch of the target on
    unfoldable pub candidate_on : String → M Candidate
    candidate_on target_branch =
        if target_branch == ""
        then refuse "target repository is in detached HEAD state"
        else gather target_branch

    unfoldable pub read_candidate : Bool → M Candidate
    read_candidate false = refuse "the worktree of the run is not available"
    read_candidate true = read_disk repo.current_branch >>= candidate_on

    unfoldable pub prepare_run : Run → M Proposal
    prepare_run run =
        if not (run_succeeded run.status)
        then refuse "the run is not SUCCEEDED"
        else (gets (λ w. repo.has_worktree run_id w.disk) >>= read_candidate >>= save_candidate)

    unfoldable pub prepare : M Proposal
    prepare =
        gets (λ w. Table.get run_id w.runs)
        >>= or_raise (plain improvement_proposal_error "no such run")
        >>= prepare_run

  module _ (run_command : List String → ℕ → Outcome × ℕ) (improvement_id : String) where
    unfoldable pub note_evaluation : Evaluation → M Evaluation
    note_evaluation e = do
      note improvement_id ProposalEventType.evaluation_completed
          (field "artifact_id" (str e.artifact_id) (field "passed" (bool e.passed) end))
      pure e

    unfoldable pub evaluate_at : List (List String) → Proposal → String → M Evaluation
    evaluate_at commands row step_id =
        run_evaluation run_command repo.json_digest row.run_id step_id
          (repo.has_worktree row.run_id) (repo.worktree_head row.run_id) row.candidate_commit
          commands
        >>= note_evaluation

    unfoldable pub evaluate : List (List String) → Proposal → M Evaluation
    evaluate commands row = latest_step_id row.run_id >>= evaluate_at commands row

    unfoldable pub verify_from : List (List String) → Proposal → Bool → M Evaluation
    verify_from commands row false = refuse "candidate worktree is not available"
    verify_from commands row true = evaluate commands row

    unfoldable pub verify_row : List (List String) → Proposal → M Evaluation
    verify_row commands row =
        gets (λ w. repo.has_worktree row.run_id w.disk) >>= verify_from commands row

    -- verify, with the commands that its argument or the default names
    unfoldable pub verify : List (List String) → M Evaluation
    verify commands = proposal_row improvement_id >>= verify_row commands
