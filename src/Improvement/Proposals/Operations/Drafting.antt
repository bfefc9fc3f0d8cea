-- ===== src/Improvement/Proposals/Operations/Drafting.antt =====
-- prepare and verify keep the agreement of the rows with the events.
use jarvis_awf.Prelude.{
  ℕ, String, ◌≡◌, refl, Bool, true, false, not, Option, none, some, List, ◌==◌, is_some,
  if◌then◌else◌,
}
use jarvis_awf.Prelude.Table
use jarvis_awf.Exec.{plain, improvement_proposal_error, pure, gets, or_raise, ◌>>=◌}
use jarvis_awf.Exec.Inversion.{>>=-Preserves}
use jarvis_awf.Exec.Preservation.{if-Preserves, or_raise-Preserves}
use jarvis_awf.Database.{World, M, read_disk}
use jarvis_awf.Database.Proposals.{Proposal}
use jarvis_awf.Gates.Artifacts.{write_artifact}
use jarvis_awf.Improvement.Evaluation.{
  Outcome, store, evaluate_commit, commit_of, in_worktree, run_evaluation,
}
use jarvis_awf.Improvement.Proposals.{Repository, refuse, note, proposal_row, latest_step_id}
use jarvis_awf.Improvement.Proposals.Draft
use jarvis_awf.Improvement.Proposals.Operations.Replays.{
  Replayed, Agrees-note, Agrees-update, Agrees-insert,
}
use jarvis_awf.Improvement.Proposals.Operations.Keeping.{Keeps, show-Keeps, step-Keeps}

module _ (repo : Repository) (run_id : String) (summary : Option String) where
  open_draft :
      (k : String) (w : World)
      → is_some (Table.get k w.proposals) ≡ false
      → Table.get k w.proposals ≡ none
  open_draft k w e = from (Table.get k w.proposals) e
    where
      from : (o : Option Proposal) → is_some o ≡ false → o ≡ none
      from none e = refl
      from (some p) e = absurd (cc e)

  insert-Keeps :
      (c : Draft.Candidate) (patch : String) (now : ℕ) (k : String) (b : Bool) (w : World)
      → is_some (Table.get k w.proposals) ≡ b
      → Replayed w
      → Replayed (Draft.insert_draft repo run_id summary c patch now k b w).1
  unfolding Draft.insert_draft note
  insert-Keeps c patch now k true w e h = h
  insert-Keeps c patch now k false w e h =
      show-Keeps k _
        (Agrees-insert w.proposals w.proposal_events _ _ (open_draft k w e) (λ s. refl) h)

  save-Keeps :
      (c : Draft.Candidate) (patch : String) (now : ℕ) (o : Option (String × Proposal))
      → Keeps (Draft.save_draft repo run_id summary c patch now o)
  unfolding Draft.save_draft note
  save-Keeps c patch now none = λ w h. insert-Keeps c patch now _ _ _ refl h
  save-Keeps c patch now (some (k, p)) =
      λ w h. show-Keeps k _ (Agrees-update w.proposals w.proposal_events _ _ (λ p s. refl) h)

  patch-Keeps :
      (c : Draft.Candidate) (step_id : String)
      → Keeps (Draft.save_patch repo run_id summary c step_id)
  unfolding Draft.save_patch Draft.write_patch_artifact
  patch-Keeps c step_id w h = save-Keeps c _ _ (Table.find (Draft.of_run run_id) w.proposals) _ h

  candidate-Keeps : (c : Draft.Candidate) → Keeps (Draft.save_candidate repo run_id summary c)
  unfolding Draft.save_candidate
  candidate-Keeps c =
      >>=-Preserves Replayed (latest_step_id run_id) (Draft.save_patch repo run_id summary c)
        (step-Keeps run_id) (patch-Keeps c)

  described-Keeps :
      (target branch commit base patch : String)
      → Keeps (Draft.described repo run_id summary target branch commit base patch)
  unfolding Draft.described
  described-Keeps target branch commit base patch =
      if-Preserves Replayed (patch == "") (refuse "candidate diff is empty")
        (read_disk (repo.changed_paths base commit) >>= λ paths.
          pure (Draft.candidate repo run_id summary target branch commit base patch paths))
        (λ w h. h)
        (>>=-Preserves Replayed (read_disk (repo.changed_paths base commit))
          (λ paths.
            pure (Draft.candidate repo run_id summary target branch commit base patch paths))
          (λ w h. h) (λ p w h. h))

  gather-Keeps : (target : String) → Keeps (Draft.gather repo run_id summary target)
  gather-Keeps target =
      >>=-Preserves Replayed (read_disk (repo.worktree_branch run_id))
        (λ branch.
          read_disk (repo.worktree_head run_id)
          >>= Draft.on_commit repo run_id summary target branch)
        (λ w h. h)
        (λ branch.
          >>=-Preserves Replayed (read_disk (repo.worktree_head run_id))
            (Draft.on_commit repo run_id summary target branch) (λ w h. h)
            (λ commit.
              >>=-Preserves Replayed (read_disk (repo.merge_base target commit))
                (Draft.on_base repo run_id summary target branch commit) (λ w h. h)
                (λ base.
                  >>=-Preserves Replayed (read_disk (repo.diff base commit))
                    (Draft.described repo run_id summary target branch commit base) (λ w h. h)
                    (described-Keeps target branch commit base))))

  read-Keeps : (b : Bool) → Keeps (Draft.read_candidate repo run_id summary b)
  unfolding Draft.read_candidate Draft.candidate_on
  read-Keeps false = λ w h. h
  read-Keeps true =
      >>=-Preserves Replayed (read_disk repo.current_branch)
        (Draft.candidate_on repo run_id summary) (λ w h. h)
        (λ target.
          if-Preserves Replayed (target == "")
            (refuse "target repository is in detached HEAD state")
            (Draft.gather repo run_id summary target) (λ w h. h) (gather-Keeps target))

  pub prepare-Keeps : Keeps (Draft.prepare repo run_id summary)
  unfolding Draft.prepare Draft.prepare_run
  prepare-Keeps =
      >>=-Preserves Replayed
        (gets (λ w. Table.get run_id w.runs)
          >>= or_raise (plain improvement_proposal_error "no such run"))
        (Draft.prepare_run repo run_id summary)
        (λ w h. or_raise-Preserves Replayed _ (Table.get run_id w.runs) w h)
        (λ run.
          if-Preserves Replayed (not (Draft.run_succeeded run.status))
            (refuse "the run is not SUCCEEDED")
            (available >>= Draft.save_candidate repo run_id summary) (λ w h. h)
            (>>=-Preserves Replayed available (Draft.save_candidate repo run_id summary)
              (λ w h. read-Keeps (repo.has_worktree run_id w.disk) w h) candidate-Keeps))
    where
      available : M Draft.Candidate
      available =
          gets (λ w. repo.has_worktree run_id w.disk) >>= Draft.read_candidate repo run_id summary

module _ (repo : Repository) (run_command : List String → ℕ → Outcome × ℕ) (k : String) where
  commit-Keeps :
      (run_id step_id : String) (cmds : List (List String)) (commit : String)
      → Keeps (evaluate_commit run_command repo.json_digest run_id step_id cmds commit)
  unfolding evaluate_commit store write_artifact
  commit-Keeps run_id step_id cmds commit w h = h

  evaluation-Keeps :
      (row : Proposal) (step_id : String) (cmds : List (List String)) (b : Bool)
      → Keeps (
          in_worktree run_command repo.json_digest row.run_id step_id
            (repo.has_worktree row.run_id)
            (repo.worktree_head row.run_id)
            row.candidate_commit
            cmds
            b)
  unfolding in_worktree commit_of
  evaluation-Keeps row step_id cmds false = λ w h. h
  evaluation-Keeps row step_id cmds true =
      >>=-Preserves Replayed
        (if row.candidate_commit == ""
          then read_disk (repo.worktree_head row.run_id)
          else pure row.candidate_commit)
        (evaluate_commit run_command repo.json_digest row.run_id step_id cmds)
        (if-Preserves Replayed (row.candidate_commit == "")
          (read_disk (repo.worktree_head row.run_id)) (pure row.candidate_commit) (λ w h. h)
          (λ w h. h))
        (commit-Keeps row.run_id step_id cmds)

  evaluate-Keeps :
      (commands : List (List String)) (row : Proposal) (step_id : String)
      → Keeps (Draft.evaluate_at repo run_command k commands row step_id)
  unfolding Draft.evaluate_at Draft.note_evaluation run_evaluation note
  evaluate-Keeps commands row step_id =
      >>=-Preserves Replayed
        (run_evaluation run_command repo.json_digest row.run_id step_id
          (repo.has_worktree row.run_id) (repo.worktree_head row.run_id) row.candidate_commit
          commands)
        (Draft.note_evaluation repo run_command k)
        (λ w h. evaluation-Keeps row step_id commands (repo.has_worktree row.run_id w.disk) w h)
        (λ e w h. Agrees-note w.proposals w.proposal_events _ (λ s. refl) h)

  pub verify-Keeps :
      (commands : List (List String)) → Keeps (Draft.verify repo run_command k commands)
  unfolding Draft.verify Draft.verify_row Draft.verify_from Draft.evaluate
  verify-Keeps commands =
      >>=-Preserves Replayed (proposal_row k) (Draft.verify_row repo run_command k commands)
        (show-Keeps k) (λ row w h. from row (repo.has_worktree row.run_id w.disk) w h)
    where
      from :
          (row : Proposal) (b : Bool) → Keeps (Draft.verify_from repo run_command k commands row b)
      from row false = λ w h. h
      from row true =
          >>=-Preserves Replayed (latest_step_id row.run_id)
            (Draft.evaluate_at repo run_command k commands row) (step-Keeps row.run_id)
            (evaluate-Keeps commands row)
