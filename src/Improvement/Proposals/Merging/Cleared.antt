-- ===== src/Improvement/Proposals/Merging/Cleared.antt =====
-- What has to hold for a candidate to be merged.
use jarvis_awf.Prelude.{ℕ, String, ◌≡◌, ◌⊎◌, inl, inr, refl, sym, ap, ◌∙◌, Option, none, some}
use jarvis_awf.Prelude.Table
use jarvis_awf.Prelude.Table.{on_pair, exists, exists-rows}
use jarvis_awf.Exec.{
  Result, ok, err, Exec, plain, improvement_proposal_error, or_raise, attempt, ◌>>=◌,
}
use jarvis_awf.Exec.Inversion.{>>=-raised}
use jarvis_awf.Database.{World, M, Approval}
use jarvis_awf.Database.Proposals.{Proposal}
use jarvis_awf.Improvement.Proposals.{Repository}
use jarvis_awf.Improvement.Proposals.Merging.{
  may_merge, after_merge, merge_it, merge_with, merge_on, merge_from, merge,
}
use jarvis_awf.Improvement.Proposals.Merging.Conditions.{Cleared, may_merge-Cleared}

-- The branch is not merged: whatever the merge would do, it makes no difference.
abbrev pub Ignores : Repository → String → String → World → Type 0
Ignores repo k approval_id w =
    (mb mb' : String → String → Exec ℕ Unit)
    → merge repo k mb approval_id w ≡ merge repo k mb' approval_id w

module _ (repo : Repository) (k approval_id : String) where
  abbrev goes : Proposal → Option Approval → (String → String → Exec ℕ Unit) → M Proposal
  goes row o mb = merge_on repo k mb approval_id row o

  on_approval :
      (row : Proposal) (w : World) (o : Option Approval)
      → Table.get k w.proposals ≡ some row
      → Table.get approval_id w.approvals ≡ o
      → Cleared repo k approval_id w
        ⊎ ((mb mb' : String → String → Exec ℕ Unit) → goes row o mb w ≡ goes row o mb' w)
  unfolding merge_on merge_with
  on_approval row w none p q = inr (λ mb mb'. refl)
  on_approval row w (some approval) p q = from (may_merge repo k row approval w).0 refl
    where
      next : (String → String → Exec ℕ Unit) → Unit {0} → M Proposal
      next mb u = attempt (merge_it repo k mb row) >>= after_merge repo k approval_id row approval

      from :
          (r : Result (Unit {0}))
          → (may_merge repo k row approval w).0 ≡ r
          → Cleared repo k approval_id w
            ⊎ ((mb mb' : String → String → Exec ℕ Unit)
                → goes row (some approval) mb w ≡ goes row (some approval) mb' w)
      from (ok u) e = inl (may_merge-Cleared repo w row k approval approval_id p q e)
      from (err x) e = inr (λ mb mb'.
          >>=-raised (may_merge repo k row approval) (next mb) w (pair_of e)
          ∙ sym (>>=-raised (may_merge repo k row approval) (next mb') w (pair_of e)))
        where
          pair_of :
              (may_merge repo k row approval w).0 ≡ err x
              → may_merge repo k row approval w ≡ (err x, (may_merge repo k row approval w).1)
          pair_of h = ap (λ r. (r, (may_merge repo k row approval w).1)) h

  -- The branch of a candidate is merged only if it is cleared: the approval is that of this very
  -- proposal as it is now, and it was approved; the worktree is there; the target is still at the
  -- base, the candidate at the commit and the diff as they were reviewed; nothing is uncommitted;
  -- and a test result of the run vouches for the commit. Otherwise what the merge would do makes no
  -- difference to the result or to the state.
  pub merge-Cleared : (w : World) → Cleared repo k approval_id w ⊎ Ignores repo k approval_id w
  unfolding merge merge_from
  merge-Cleared w = from (Table.get k w.proposals) refl
    where
      starts : Option Proposal → (String → String → Exec ℕ Unit) → M Proposal
      starts o mb =
          or_raise (plain improvement_proposal_error "no such improvement proposal") o
          >>= merge_from repo k mb approval_id

      from :
          (o : Option Proposal)
          → Table.get k w.proposals ≡ o
          → Cleared repo k approval_id w
            ⊎ ((mb mb' : String → String → Exec ℕ Unit) → starts o mb w ≡ starts o mb' w)
      from none e = inr (λ mb mb'. refl)
      from (some row) e = on_approval row w (Table.get approval_id w.approvals) e refl
