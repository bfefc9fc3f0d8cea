-- ===== src/Improvement/Proposals/Merging/Evidence.antt =====
-- The evidence of a passing evaluation.
use jarvis_awf.Prelude.{
  ℕ, String, ◌≡◌, refl, ◌∙◌, Bool, true, false, ◌&&◌, none, some, List, [], ◌∷◌, ◌==◌, eq_refl,
  arith, any,
}
use jarvis_awf.Prelude.Table
use jarvis_awf.Prelude.Table.{on_pair, exists, exists-rows, exists_of_get, get-insert_new}
use mathlib.Core.Path.{subst}
use jarvis_awf.Json.{bool, str, obj, Dict, get}
use jarvis_awf.Json.Convert.{dict_of}
use jarvis_awf.Exec.{ok, err}
use jarvis_awf.Exec.Inversion.{ok-injective}
use jarvis_awf.Database.{World, M, Artifact}
use jarvis_awf.Improvement.Proposals.{
  Content, absent, not_json, holds, Repository, latest_artifacts, insert_latest, accepts,
}
use jarvis_awf.Improvement.Proposals.Review.{find_passing}
use jarvis_awf.Gates.Artifacts.{write_artifact}
use jarvis_awf.Improvement.Evaluation.{Outcome, Evaluation, store, evaluate_commit}

-- the file holds a dict that says that this commit passed
abbrev pub vouches : String → Content → Bool
vouches candidate_commit absent = false
vouches candidate_commit not_json = false
vouches candidate_commit (holds v) = elim (dict_of v) [
  | err e ↦ false
  | ok d ↦ accepts candidate_commit d
]

module _ (repo : Repository) (candidate_commit : String) (disk : ℕ) where
  abbrev vouching : Artifact → Bool
  vouching a = vouches candidate_commit (repo.content a disk)

  pub find_passing-vouches :
      (xs : List Artifact)
      → find_passing repo candidate_commit xs disk ≡ ok true
      → any vouching xs ≡ true
  unfolding find_passing
  find_passing-vouches [] h = absurd (cc (ok-injective h))
  find_passing-vouches (a ∷ rest) h = ground (arith, find_passing-vouches rest)

  any-insert_latest :
      (p : Artifact → Bool) (a : Artifact) (xs : List Artifact)
      → any p (insert_latest a xs) ≡ any p (a ∷ xs)
  any-insert_latest p a [] = refl
  any-insert_latest p a (b ∷ bs) = ground (arith, any-insert_latest p a bs)

  -- a test result of the run that vouches
  abbrev pub is_test_of : String → String → Artifact → Bool
  is_test_of run_id k a = a.run_id == run_id && (a.artifact_type == "test-result") && vouching a

  pub any-latest :
      (run_id : String) (rows : List (String × Artifact))
      → any vouching (latest_artifacts run_id "test-result" rows)
        ≡ any (on_pair (is_test_of run_id)) rows
  unfolding latest_artifacts
  any-latest run_id [] = refl
  any-latest run_id ((k, a) ∷ rest) = ground (
    arith,
    any-latest run_id rest,
    any-insert_latest vouching a (latest_artifacts run_id "test-result" rest),
  )

module _ (repo : Repository) (run_command : List String → ℕ → Outcome × ℕ)
    (run_id step_id commit : String) where
  abbrev pub evaluation : List (List String) → M Evaluation
  evaluation cmds = evaluate_commit run_command repo.json_digest run_id step_id cmds commit

  abbrev Vouched : List (List String) → ℕ → World → Evaluation → Type 0
  Vouched cmds disk w e =
      e.passed ≡ true
      → Table.get e.artifact_id w.artifacts ≡ none
      → ((a : Artifact)
          → Table.get e.artifact_id (evaluation cmds w).1.artifacts ≡ some a
          → repo.content a disk ≡ holds (obj e.payload))
      → exists (is_test_of repo commit disk run_id) (evaluation cmds w).1.artifacts ≡ true

  inserted :
      (k : String) (a : Artifact) (t : Table.Table Artifact)
      → Table.get k t ≡ none
      → Table.get k (Table.insert_new k a t) ≡ some a
  inserted k a t h = get-insert_new k k a t h ∙ rw eq_refl refl

  accepted :
      (a : Artifact) (disk : ℕ) (d : Dict) (b : Bool)
      → b ≡ true
      → a.run_id ≡ run_id
      → a.artifact_type ≡ "test-result"
      → repo.content a disk ≡ holds (obj d)
      → get "candidate_commit" d ≡ some (str commit)
      → get "passed" d ≡ some (bool b)
      → (k : String) → is_test_of repo commit disk run_id k a ≡ true
  accepted a disk d b p r t c g q k = rw (c, r, t, g, q, p, eq_refl run_id, eq_refl commit) refl

  stored_Vouched :
      (cmds : List (List String)) (disk : ℕ) (w : World) (e : Evaluation)
      → (evaluation cmds w).0 ≡ ok e
      → Vouched cmds disk w e
  unfolding evaluate_commit store write_artifact
  stored_Vouched cmds disk w e h = subst (Vouched cmds disk w) (ok-injective h) (λ p fresh stored.
      let g = inserted _ _ w.artifacts fresh in
      exists_of_get (is_test_of repo commit disk run_id) _ _ _ g
        (accepted _ disk _ _ p refl refl (stored _ g) refl refl ""))

  -- An evaluation that passed is the evidence that a merge of its commit asks for, wherever the file
  -- of the artifact is read back as the payload that was written and its identifier was not in use.
  pub evaluation-vouches :
      (cmds : List (List String)) (disk : ℕ) (w : World) {e : Evaluation}
      → (evaluation cmds w).0 ≡ ok e
      → e.passed ≡ true
      → Table.get e.artifact_id w.artifacts ≡ none
      → ((a : Artifact)
          → Table.get e.artifact_id (evaluation cmds w).1.artifacts ≡ some a
          → repo.content a disk ≡ holds (obj e.payload))
      → exists (is_test_of repo commit disk run_id) (evaluation cmds w).1.artifacts ≡ true
  evaluation-vouches cmds disk w {e} h p fresh stored =
      stored_Vouched cmds disk w e h p fresh stored
