-- ===== src/Improvement/Evaluation.antt =====
-- backend/src/awf/eval/runner.py. A command is run by a parameter, which gives its exit code and the
-- tails of its two streams, and the seconds that it took; a command that could not be run or that
-- timed out gives -1. Whether the worktree is a directory, and its head, are functions of the disk.
pub mod Passes
use jarvis_awf.Prelude.{
  ℕ, String, Bool, true, false, not, ◌&&◌, Option, none, some, List, [], ◌∷◌, ◌==◌, nat_eq,
  if◌then◌else◌,
}
use jarvis_awf.Prelude.Int.{ℤ, pos, negsuc}
use jarvis_awf.Json.{
  Value, null, bool, num, str, arr, obj, Items, nil, cons, Dict, end, field, text_items,
}
use jarvis_awf.Exec.{
  Exn, Result, ok, err, plain, eval_runner_error, Exec, pure, raise, gets, ◌>>=◌, ◌>>◌,
}
use jarvis_awf.Database.{World, M, utc_now_rfc3339, read_disk, on_disk}
use jarvis_awf.Gates.Artifacts.{write_artifact}

-- the exit code, `duration`, stdout and stderr
pub record Outcome : Type 0 where
  pub exit_code : ℤ
  pub duration : Value
  pub stdout : String
  pub stderr : String

abbrev pub is_zero : ℤ → Bool
is_zero (pos n) = nat_eq n 0
is_zero (negsuc n) = false

-- what `run_evaluation` returns
pub record Evaluation : Type 0 where
  pub artifact_id : String
  pub passed : Bool
  pub payload : Dict

abbrev pub result_of : List String → Outcome → Value
result_of cmd outcome = obj (
    field "command" (arr (text_items cmd)) (
      field "exit_code" (num outcome.exit_code) (
        field "duration_seconds" outcome.duration (
          field "stdout_snippet" (str outcome.stdout)
            (field "stderr_snippet" (str outcome.stderr) end)))))

-- the default of `commands`
abbrev pub default_commands : String → List (List String)
default_commands executable = (executable ∷ "-m" ∷ "pytest" ∷ "backend/tests/unit" ∷ "-q" ∷ []) ∷ []

module _ (run_command : List String → ℕ → Outcome × ℕ) where
  -- The loop over the commands; `overall_passed` is what it was before them.
  unfoldable pub run_commands : List (List String) → Bool → ℕ → (Bool × Items) × ℕ
  run_commands [] overall_passed disk = ((overall_passed, nil), disk)
  run_commands (cmd ∷ cmds) overall_passed disk =
      let (outcome, after) = run_command cmd disk in
      let ((passed, results), last) =
        run_commands cmds (if not (is_zero outcome.exit_code) then false else overall_passed)
          after in
      ((passed, cons (result_of cmd outcome) results), last)

  module _ (sha256 : Dict → String) (run_id step_id : String) where
    abbrev pub evaluation_payload : String → Bool → Items → ℕ → Dict
    evaluation_payload commit passed results now = field "run_id" (str run_id) (
        field "step_id" (str step_id) (
          field "candidate_commit" (str commit) (
            field "passed" (bool passed)
              (field "evaluated_at" (num (pos now)) (field "commands" (arr results) end)))))

    unfoldable pub store : String → Bool × Items → M Evaluation
    store commit (passed, results) = utc_now_rfc3339 >>= λ now.
        write_artifact sha256 run_id step_id (evaluation_payload commit passed results now)
          "test-result"
        >>= λ artifact_id. pure (record {
          artifact_id = artifact_id;
          passed = passed;
          payload = evaluation_payload commit passed results now;
        })

    abbrev pub run_all : List (List String) → M (Bool × Items)
    run_all commands = on_disk (λ disk. let (r, d) = run_commands commands true disk in (ok r, d))

    -- from the commands on
    unfoldable pub evaluate_commit : List (List String) → String → M Evaluation
    evaluate_commit commands commit = run_all commands >>= store commit

    module _ (is_dir : ℕ → Bool) (current_head : ℕ → Result String) where
      -- `candidate_commit or current_head(worktree)`
      unfoldable pub commit_of : String → M String
      commit_of candidate_commit =
          if candidate_commit == "" then read_disk current_head else pure candidate_commit

      unfoldable pub in_worktree : String → List (List String) → Bool → M Evaluation
      in_worktree candidate_commit commands false =
          raise (plain eval_runner_error "worktree directory does not exist")
      in_worktree candidate_commit commands true =
          commit_of candidate_commit >>= evaluate_commit commands

      -- with "" where no commit is given, and with the commands that the argument or the default
      -- names
      unfoldable pub run_evaluation : String → List (List String) → M Evaluation
      run_evaluation candidate_commit commands =
          gets (λ w. is_dir w.disk) >>= in_worktree candidate_commit commands
