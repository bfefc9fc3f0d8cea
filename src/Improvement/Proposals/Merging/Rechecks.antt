-- ===== src/Improvement/Proposals/Merging/Rechecks.antt =====
-- What the recheck of a proposal asks of the repository.
use jarvis_awf.Prelude.{
  ℕ, String, ◌<>◌, ◌≡◌, refl, ap, ◌∙◌, Bool, true, false, not, ◌==◌, eq_iff, if◌then◌else◌,
}
use jarvis_awf.Exec.{Result, ok, err, pure, gets, ◌>>=◌, ◌>>◌}
use jarvis_awf.Exec.Inversion.{Preserves, >>=-Preserves, >>=-Returned, ok-injective}
use jarvis_awf.Database.{World, M, read_disk}
use jarvis_awf.Database.Proposals.{Proposal}
use jarvis_awf.Improvement.Proposals.{Repository, refuse}
use jarvis_awf.Improvement.Proposals.Merging.{
  require_head, require_candidate, require_diff, require_clean, require_worktree,
  recheck_identities,
}

module _ (repo : Repository) (w : World) where
  pub refuses :
      (b : Bool) (text : String) {u : Unit {0}}
      → ((if not b then refuse text else pure tt) w).0 ≡ ok u
      → b ≡ true
  refuses true text h = refl
  refuses false text h = absurd (cc h)

  abbrev pub Same : World → Type 0
  Same v = v ≡ w

  refuse-Same : (b : Bool) (text : String) → Preserves Same (if not b then refuse text else pure tt)
  refuse-Same true text v h = h
  refuse-Same false text v h = h

  read-Same :
      {A : Type 0} (f : ℕ → Result A) (g : A → M Unit)
      → ((a : A) → Preserves Same (g a))
      → Preserves Same (read_disk f >>= g)
  read-Same f g k = >>=-Preserves Same (read_disk f) g (λ s p. p) k

  then-Same : (m n : M Unit) → Preserves Same m → Preserves Same n → Preserves Same (m >> n)
  then-Same m n h k = >>=-Preserves Same m (λ _. n) h (λ _. k)

  abbrev guard_by : {A : Type 0} → (A → Bool) → String → A → M Unit
  guard_by p text a = if not (p a) then refuse text else pure tt

  -- a guard on what was read, and what follows it
  record Passed {A B : Type 0} (r : Result A) (p : A → Bool) (rest : M B) (b : B) : Type 0 where
    value : A
    read : r ≡ ok value
    test : p value ≡ true
    more : (rest w).0 ≡ ok b

  passed :
      {A B : Type 0} (r : Result A) (p : A → Bool) (text : String) (rest : M B) {b : B}
      → (((λ v. (r, v)) >>= guard_by p text >> rest) w).0 ≡ ok b
      → Passed r p rest b
  passed (err e) p text rest h = absurd (cc h)
  passed (ok a) p text rest h = from (p a) refl h
    where
      from :
          (t : Bool)
          → p a ≡ t
          → {b : _} → (((if not t then refuse text else pure tt) >> rest) w).0 ≡ ok b
          → Passed (ok a) p rest b
      from true e k = record { value = a; read = refl; test = e; more = k }
      from false e k = absurd (cc k)

  module _ (row : Proposal) where
    pub record Unmoved : Type 0 where
      pub worktree : repo.has_worktree row.run_id w.disk ≡ true
      pub target : repo.rev_parse row.target_branch w.disk ≡ ok row.base_commit
      pub candidate : repo.worktree_head row.run_id w.disk ≡ ok row.candidate_commit
      pub patch : String
      pub diffed : repo.diff row.base_commit row.candidate_commit w.disk ≡ ok patch
      pub reviewed : "sha256:" <> repo.sha256 patch ≡ row.diff_digest
      pub clean : repo.status w.disk ≡ ok ""

    abbrev cleanly : M Unit
    cleanly = read_disk repo.status >>= require_clean repo

    abbrev by_diff : M Unit
    by_diff =
        read_disk (repo.diff row.base_commit row.candidate_commit)
        >>= require_diff repo row
        >> cleanly

    abbrev by_candidate : M Unit
    by_candidate =
        read_disk (repo.worktree_head row.run_id) >>= require_candidate repo row >> by_diff

    abbrev by_target : M Unit
    by_target =
        read_disk (repo.rev_parse row.target_branch) >>= require_head repo row >> by_candidate

    pub recheck-Unmoved : {u : Unit {0}} → (recheck_identities repo row w).0 ≡ ok u → Unmoved
    unfolding recheck_identities require_worktree require_head require_candidate require_diff
        require_clean
    recheck-Unmoved h =
        let a =
          passed (ok (repo.has_worktree row.run_id w.disk)) (λ b. b)
            "candidate worktree is not available" by_target h in
        let b =
          passed (repo.rev_parse row.target_branch w.disk) (λ x. x == row.base_commit)
            "target branch moved since proposal review" by_candidate a.more in
        let c =
          passed (repo.worktree_head row.run_id w.disk) (λ x. x == row.candidate_commit)
            "candidate commit changed since proposal review" by_diff b.more in
        let d =
          passed (repo.diff row.base_commit row.candidate_commit w.disk)
            (λ x. "sha256:" <> repo.sha256 x == row.diff_digest)
            "candidate diff digest changed since proposal review" cleanly c.more in
        let e = >>=-Returned (read_disk repo.status) (require_clean repo) w d.more in
        record {
          worktree = ok-injective a.read ∙ a.test;
          target = b.read ∙ ap ok ((eq_iff b.value row.base_commit).0 b.test);
          candidate = c.read ∙ ap ok ((eq_iff c.value row.candidate_commit).0 c.test);
          patch = d.value;
          diffed = d.read;
          reviewed = (eq_iff ("sha256:" <> repo.sha256 d.value) row.diff_digest).0 d.test;
          clean =
              e.first
              ∙ ap ok (
                  (eq_iff e.value "").0
                    (refuses (e.value == "") "target repository has uncommitted changes" e.second));
        }

    pub recheck-Same : Preserves Same (recheck_identities repo row)
    unfolding recheck_identities require_worktree require_head require_candidate require_diff
        require_clean
    recheck-Same =
        then-Same (gets (λ v. repo.has_worktree row.run_id v.disk) >>= require_worktree repo row)
          by_target
          (λ v h.
            refuse-Same (repo.has_worktree row.run_id v.disk) "candidate worktree is not available"
              v h)
          (then-Same (read_disk (repo.rev_parse row.target_branch) >>= require_head repo row)
            by_candidate
            (read-Same (repo.rev_parse row.target_branch) (require_head repo row)
              (λ a. refuse-Same (a == row.base_commit) _))
            (then-Same (read_disk (repo.worktree_head row.run_id) >>= require_candidate repo row)
              by_diff
              (read-Same (repo.worktree_head row.run_id) (require_candidate repo row)
                (λ a. refuse-Same (a == row.candidate_commit) _))
              (then-Same
                (read_disk (repo.diff row.base_commit row.candidate_commit)
                  >>= require_diff repo row)
                cleanly
                (read-Same (repo.diff row.base_commit row.candidate_commit) (require_diff repo row)
                  (λ a. refuse-Same ("sha256:" <> repo.sha256 a == row.diff_digest) _))
                (read-Same repo.status (require_clean repo) (λ a. refuse-Same (a == "") _)))))
