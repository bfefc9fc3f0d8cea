-- ===== src/Improvement/Evaluation/Passes.antt =====
-- When an evaluation passes.
use jarvis_awf.Prelude.{
  ℕ, String, ◌≡◌, ◌≢◌, ◌⊎◌, inl, inr, ◌↔◌, refl, sym, ◌∙◌, Bool, true, false, not, some, List, [],
  ◌∷◌, ◌==◌, eq_iff, if◌then◌else◌, arith,
}
use jarvis_awf.Prelude.Int.{ℤ, pos}
use jarvis_awf.Json.{str, bool, Dict, get}
use jarvis_awf.Exec.{Exn, Result, ok, err, plain, eval_runner_error, pure, ◌>>=◌}
use jarvis_awf.Database.{World, M, read_disk}
use jarvis_awf.Gates.Artifacts.{write_artifact}
use jarvis_awf.Improvement.Evaluation.{
  Outcome, is_zero, Evaluation, run_commands, store, evaluate_commit, commit_of, in_worktree,
  run_evaluation,
}

module _ (run_command : List String → ℕ → Outcome × ℕ) where
  -- each command, run where the one before left the files, exits with 0
  abbrev pub AllExitZero : List (List String) → ℕ → Type 0
  AllExitZero [] disk = Unit
  AllExitZero (cmd ∷ cmds) disk =
      ((run_command cmd disk).0.exit_code ≡ pos 0) × AllExitZero cmds (run_command cmd disk).1

  zero_iff : (z : ℤ) → (is_zero z ≡ true) ↔ (z ≡ pos 0)
  zero_iff z = (λ h. ground arith, λ h. ground arith)

  run_commands-false :
      (cmds : List (List String)) (disk : ℕ)
      → (run_commands run_command cmds false disk).0.0 ≡ false
  unfolding run_commands
  run_commands-false [] disk = refl
  run_commands-false (cmd ∷ cmds) disk =
      from (not (is_zero (run_command cmd disk).0.exit_code))
        (run_commands-false cmds (run_command cmd disk).1)
    where
      from :
          (b : Bool)
          → (run_commands run_command cmds false (run_command cmd disk).1).0.0 ≡ false
          → (run_commands run_command cmds
              (if b then false else false)
              (run_command cmd disk).1).0.0
            ≡ false
      from true h = h
      from false h = h

  run_commands-passed_iff :
      (cmds : List (List String)) (disk : ℕ)
      → ((run_commands run_command cmds true disk).0.0 ≡ true) ↔ AllExitZero cmds disk
  unfolding run_commands
  run_commands-passed_iff [] disk = (λ h. tt, λ h. refl)
  run_commands-passed_iff (cmd ∷ cmds) disk =
      from (is_zero (run_command cmd disk).0.exit_code)
        (zero_iff (run_command cmd disk).0.exit_code)
        (run_commands-passed_iff cmds (run_command cmd disk).1)
    where
      after : ℕ
      after = (run_command cmd disk).1

      from :
          (b : Bool)
          → (b ≡ true) ↔ ((run_command cmd disk).0.exit_code ≡ pos 0)
          → ((run_commands run_command cmds true after).0.0 ≡ true) ↔ AllExitZero cmds after
          → ((run_commands run_command cmds (if not b then false else true) after).0.0 ≡ true)
            ↔ AllExitZero (cmd ∷ cmds) disk
      from true z h = (λ k. (z.0 refl, h.0 k), λ (k, l). h.1 l)
      from false z h = (
        λ k. absurd (clash (sym (run_commands-false cmds after) ∙ k)),
        λ (k, l). absurd (clash (z.1 k)),
      )
        where
          clash : false ≡ true → ⊥
          clash e = cc e

  module _ (sha256 : Dict → String) (run_id step_id : String) where
    -- the evaluation of this commit, which passes exactly when all the commands do
    abbrev Judges : String → List (List String) → ℕ → Result Evaluation → Type 0
    Judges commit cmds disk r =
        (e : Evaluation) × (r ≡ ok e)
        × (get "candidate_commit" e.payload ≡ some (str commit))
        × (get "passed" e.payload ≡ some (bool e.passed))
        × ((e.passed ≡ true) ↔ AllExitZero cmds disk)

    evaluate_commit-Judges :
        (commit : String) (cmds : List (List String)) (w : World)
        → Judges commit cmds w.disk
            (evaluate_commit run_command sha256 run_id step_id cmds commit w).0
    unfolding evaluate_commit store write_artifact
    evaluate_commit-Judges commit cmds w =
        (_, refl, refl, refl, run_commands-passed_iff cmds w.disk)

    module _ (is_dir : ℕ → Bool) (current_head : ℕ → Result String) where
      -- the commit that is asked for, or the head of the worktree where none is
      abbrev pub Names : String → ℕ → String → Type 0
      Names candidate_commit disk commit =
          ((candidate_commit ≢ "") × (commit ≡ candidate_commit))
          ⊎ ((candidate_commit ≡ "") × (current_head disk ≡ ok commit))

      abbrev pub Evaluates :
          String → List (List String) → World → Result Evaluation → World → Type 0
      Evaluates candidate_commit cmds w r v =
          ((is_dir w.disk ≡ false)
            × (r ≡ err (plain eval_runner_error "worktree directory does not exist"))
            × (v ≡ w))
          ⊎ ((is_dir w.disk ≡ true)
              × (((x : Exn) × (candidate_commit ≡ "")
                    × (current_head w.disk ≡ err x)
                    × (r ≡ err x)
                    × (v ≡ w))
                  ⊎ ((commit : String) × Names candidate_commit w.disk commit
                      × Judges commit cmds w.disk r)))

      abbrev runs : String → List (List String) → M Evaluation
      runs candidate_commit cmds =
          run_evaluation run_command sha256 run_id step_id is_dir current_head candidate_commit cmds

      abbrev inside : String → List (List String) → Bool → M Evaluation
      inside candidate_commit cmds b =
          in_worktree run_command sha256 run_id step_id is_dir current_head candidate_commit cmds b

      in_worktree-Evaluates :
          (candidate_commit : String) (cmds : List (List String)) (w : World)
          → is_dir w.disk ≡ true
          → Evaluates candidate_commit cmds w
              (inside candidate_commit cmds true w).0
              (inside candidate_commit cmds true w).1
      unfolding in_worktree commit_of
      in_worktree-Evaluates candidate_commit cmds w d =
          inr (d, from (candidate_commit == "") refl (current_head w.disk) refl)
        where
          Found : Result Evaluation → World → Type 0
          Found r v =
              ((x : Exn) × (candidate_commit ≡ "")
                × (current_head w.disk ≡ err x)
                × (r ≡ err x)
                × (v ≡ w))
              ⊎ ((commit : String) × Names candidate_commit w.disk commit
                  × Judges commit cmds w.disk r)

          go : String → M Evaluation
          go = evaluate_commit run_command sha256 run_id step_id cmds

          reads : Bool → M String
          reads b = if b then read_disk current_head else pure candidate_commit

          is_empty : (candidate_commit ≡ "") ↔ ((candidate_commit == "") ≡ true)
          is_empty = ((eq_iff candidate_commit "").1, (eq_iff candidate_commit "").0)

          from :
              (b : Bool)
              → (candidate_commit == "") ≡ b
              → (h : Result String) → current_head w.disk ≡ h
              → Found ((reads b >>= go) w).0 ((reads b >>= go) w).1
          from true e (ok c) g =
              rw g (inr (c, inr (is_empty.1 e, refl), evaluate_commit-Judges c cmds w))
          from true e (err x) g = rw g (inl (x, is_empty.1 e, refl, refl, refl))
          from false e h g = inr (
            candidate_commit,
            inl ((λ s. cc (is_empty.0 s, e)), refl),
            evaluate_commit-Judges candidate_commit cmds w,
          )

      -- An evaluation raises EvalRunnerError where the worktree is no directory, and what the read of
      -- its head raises where no commit is given, and then writes nothing. Otherwise it returns the
      -- evaluation of the commit that is given, or of the head; its payload names the commit and
      -- whether it passed, and it passes exactly when every command, run where the one before left
      -- the files, exits with 0.
      pub run_evaluation-Evaluates :
          (candidate_commit : String) (cmds : List (List String)) (w : World)
          → Evaluates candidate_commit cmds w
              (runs candidate_commit cmds w).0
              (runs candidate_commit cmds w).1
      unfolding run_evaluation
      run_evaluation-Evaluates candidate_commit cmds w = from (is_dir w.disk) refl
        where
          from :
              (b : Bool)
              → is_dir w.disk ≡ b
              → Evaluates candidate_commit cmds w
                  (inside candidate_commit cmds b w).0
                  (inside candidate_commit cmds b w).1
          from true d = in_worktree-Evaluates candidate_commit cmds w d
          from false d = unfold in_worktree in inl (d, refl, refl)
