-- ===== src/Workflow/Mapping/Merges.antt =====
-- What a map node leaves of its items.
use jarvis_awf.Prelude.{
  ℕ, suc, ◌≤◌, String, ◌≡◌, ◌⊎◌, inl, inr, refl, sym, ap, ◌∙◌, Bool, true, false, not, List, [],
  ◌∷◌, map, arith, length, take, ◌++◌, if◌then◌else◌,
}
use mathlib.Core.Path.{subst}
use jarvis_awf.Exec.{
  Exn, Result, ok, err, classed, map_node_error, tool_error, pure, raise, attempt, lift, ◌>>=◌,
  ◌>>◌,
}
use jarvis_awf.Exec.Inversion.{>>=-step}
use jarvis_awf.Database.{World, M, on_disk}
use jarvis_awf.Workflow.Children.{has_succeeded}
use jarvis_awf.Workflow.Mapping.{
  Finished, MapOutside, after_merge, merge_item, merge_items, remove_items, merge_results,
}

module _ (out : MapOutside) where
  -- the disk once these branches were merged in this order, and once these worktrees were removed
  abbrev pub merged : List Finished → ℕ → ℕ
  merged [] disk = disk
  merged (f ∷ fs) disk = merged fs (out.merge_branch f.child_run_id disk).1

  abbrev pub removed : List Finished → ℕ → ℕ
  removed [] disk = disk
  removed (f ∷ fs) disk = removed fs (out.remove_worktree f.child_run_id disk)

  abbrev child_of : Finished → String
  child_of f = f.child_run_id

  -- each of them succeeded, and its branch merged without a conflict, one after another
  abbrev pub AllMerged : List Finished → ℕ → Type 0
  AllMerged [] disk = Unit
  AllMerged (f ∷ fs) disk =
      (has_succeeded f.result ≡ true)
      × ((out.merge_branch f.child_run_id disk).0 ≡ ok tt)
      × AllMerged fs (out.merge_branch f.child_run_id disk).1

  -- What stops the merging: the first item that did not succeed, before its merge, or whose merge
  -- conflicts.
  abbrev pub StoppedBy : Finished → ℕ → ℕ → ℕ → Type 0
  StoppedBy f before n disk =
      ((has_succeeded f.result ≡ false) × (n ≡ before))
      ⊎ ((has_succeeded f.result ≡ true)
          × ((exc : Exn) × ((out.merge_branch f.child_run_id disk).0 ≡ err exc))
          × (n ≡ suc before))

  -- the outcome, once the merges of the first n branches were tried
  abbrev pub Outcome : List Finished → ℕ → ℕ → Result (List String) → Type 0
  Outcome fs n disk (ok ids) = (n ≡ length fs) × (ids ≡ map child_of fs) × AllMerged fs disk
  Outcome fs n disk (err e) =
      (before : List Finished) × (f : Finished) × (after : List Finished) × (fs
        ≡ before ++ f ∷ after)
      × AllMerged before disk
      × StoppedBy f (length before) n (merged before disk)

  -- Some of the branches, in the order of the items, were merged, and the loop ended so.
  abbrev Merged : List Finished → World → Result (List String) × World → Type 0
  Merged fs w (r, v) =
      (n : ℕ) × (n ≤ length fs)
      × (v ≡ record w { disk = merged (take n fs) w.disk })
      × Outcome fs n w.disk r

  merge_items-Merged : (fs : List Finished) (w : World) → Merged fs w (merge_items out fs w)
  unfolding merge_items merge_item after_merge
  merge_items-Merged [] w = (0, omega arith, refl, (refl, refl, tt))
  merge_items-Merged (f ∷ fs) w = from (has_succeeded f.result) refl (merge_items-Merged fs w1)
    where
      w1 : World
      w1 = record w { disk = (out.merge_branch f.child_run_id w.disk).1 }

      rest : M (List String)
      rest = merge_items out fs >>= λ ids. pure (f.child_run_id ∷ ids)

      merging : M Unit
      merging =
          attempt (on_disk (out.merge_branch f.child_run_id)) >>= after_merge out f.child_run_id

      Good : Type 0
      Good = (has_succeeded f.result ≡ true) × ((out.merge_branch f.child_run_id w.disk).0 ≡ ok tt)

      longer :
          (x : Result (List String) × World)
          → Good
          → Merged fs w1 x
          → Merged (f ∷ fs) w (elim x.0 as (λ _. Result (List String) × World) [
            | ok ids ↦ (ok (f.child_run_id ∷ ids), x.1)
            | err e ↦ (err e, x.1)
          ])
      longer (ok ids, v) (h, g) (n, l, e, (k, i, a)) =
          (suc n, omega (arith, l), e, (ap suc k, ap (λ is. f.child_run_id ∷ is) i, (h, g, a)))
      longer (err x, v) (h, g) (n, l, e, (before, i, rest_, s, a, b)) = (
        suc n,
        omega (arith, l),
        e,
        (f ∷ before, i, rest_, ap (λ is. f ∷ is) s, (h, g, a), later b),
      )
        where
          later :
              StoppedBy i (length before) n (merged before w1.disk)
              → StoppedBy i (suc (length before)) (suc n) (merged before w1.disk)
          later (inl (p, q)) = inl (p, ap suc q)
          later (inr (p, c, q)) = inr (p, c, ap suc q)

      after :
          (r : Result (Unit {0}))
          → (out.merge_branch f.child_run_id w.disk).0 ≡ r
          → has_succeeded f.result ≡ true
          → Merged fs w1 (merge_items out fs w1)
          → Merged (f ∷ fs) w (((λ v. after_merge out f.child_run_id r w1) >> rest) w)
      after (ok tt) g h m = longer (merge_items out fs w1) (h, g) m
      after (err x) g h m = (1, omega arith, refl, ([], f, fs, refl, tt, inr (h, (x, g), refl)))

      from :
          (b : Bool)
          → has_succeeded f.result ≡ b
          → Merged fs w1 (merge_items out fs w1)
          → Merged (f ∷ fs) w (
              ((if not b
                    then raise (classed map_node_error tool_error "a map item did not succeed")
                    else merging)
                  >> rest)
                w)
      from false h m = (0, omega arith, refl, ([], f, fs, refl, tt, inl (h, refl)))
      from true h m = after (out.merge_branch f.child_run_id w.disk).0 refl h m

  remove_items-removed :
      (fs : List Finished) (w : World)
      → remove_items out fs w ≡ (ok tt, record w { disk = removed fs w.disk })
  unfolding remove_items
  remove_items-removed [] w = refl
  remove_items-removed (f ∷ fs) w =
      remove_items-removed fs (record w { disk = out.remove_worktree f.child_run_id w.disk })

  -- Once the items of a map node ran, the branches of their children are merged one after another in
  -- the order of the items, and then the worktrees of all the children are removed, whether or not
  -- the node fails; nothing else is written. It returns the children in the order of the items, and
  -- then every child succeeded and every branch merged without a conflict; or it raises, and then
  -- this held of the items before one that did not succeed, whose branch was not merged, or whose
  -- merge conflicted, and no merge was tried after it.
  pub merge_results-Outcome :
      (fs : List Finished) (w : World)
      → (n : ℕ) × (n ≤ length fs)
        × ((merge_results out fs w).1 ≡ record w { disk = removed fs (merged (take n fs) w.disk) })
        × Outcome fs n w.disk (merge_results out fs w).0
  unfolding merge_results
  merge_results-Outcome fs w = from (merge_items out fs w) (merge_items-Merged fs w)
    where
      cleaned : World → World
      cleaned u = record u { disk = removed fs u.disk }

      ends : Result (List String) × World → Result (List String) × World
      ends (r, v) = (remove_items out fs >> lift r) v

      lifted :
          (r : Result (List String)) (v : World)
          → ends (r, v) ≡ (r, record v { disk = removed fs v.disk })
      lifted r v =
          >>=-step (remove_items out fs) (λ u. lift r) v (remove_items-removed fs v) ∙ same r
        where
          same :
              (r : Result (List String))
              → lift r (record v { disk = removed fs v.disk })
                ≡ (r, record v { disk = removed fs v.disk })
          same (ok ids) = refl
          same (err e) = refl

      from :
          (x : Result (List String) × World)
          → Merged fs w x
          → (n : ℕ) × (n ≤ length fs)
            × ((ends x).1 ≡ record w { disk = removed fs (merged (take n fs) w.disk) })
            × Outcome fs n w.disk (ends x).0
      from (r, v) (n, l, e, o) = (
        n,
        l,
        ap (λ x. x.1) (lifted r v) ∙ ap cleaned e,
        subst (Outcome fs n w.disk) (sym (ap (λ x. x.0) (lifted r v))) o,
      )
