-- ===== src/Workflow/Handoff/Hops.antt =====
-- Which hops a handoff node makes.
use jarvis_awf.Prelude.{
  ℕ, zero, suc, ◌+◌, ◌<◌, String, ◌≡◌, ◌⊎◌, inl, inr, refl, sym, Bool, true, false, List, [], ◌∷◌,
  ◌++◌, length, All, arith, if◌then◌else◌,
}
use jarvis_awf.Json.{Value, str, Dict, get_or, get_truthy}
use jarvis_awf.Exec.{Result, ok, err, pure}
use jarvis_awf.Exec.Inversion.{>>=-Post, ok-injective}
use jarvis_awf.Database.{World, M, RunStatus}
use jarvis_awf.Workflow.Definition.{Node}
use jarvis_awf.Workflow.Engine.Statuses.{HasRun, HasStatus, set_run_status-HasStatus}
use jarvis_awf.Workflow.Handoff.{
  Surroundings, max_hops_of, one_hop, completed_output, waiting_output, exhaust, hop_loop,
  handoff_executor, termination_field,
}
use jarvis_awf.Workflow.Handoff.Rows.{Keeps, one_hop-HasRun}

module _ (out : Surroundings) (run_id step_id : String) (n : Node) where
  -- the status sets the field that ends the handoff
  abbrev pub terminates : Dict → Bool
  terminates status = get_truthy (termination_field n) status

  abbrev pub GoesOn : Dict → Type 0
  GoesOn status = terminates status ≡ false

  -- Hops from this one on, with this summary, that left these statuses: each is told the summary of
  -- the one before.
  abbrev pub Hopped : ℕ → Value → World → List Dict → World → Type 0
  Hopped hop summary w [] v = v ≡ w
  Hopped hop summary w (status ∷ statuses) v =
      (u : World) × (one_hop out run_id step_id n hop summary w ≡ (ok status, u))
      × Hopped (hop + 1) (get_or "summary" (str "") status) u statuses v

  -- One of at most `left` hops is the first to terminate, and the handoff is completed by it,
  abbrev pub Completes : ℕ → ℕ → Value → World → Dict → World → Type 0
  Completes left hop summary w output v =
      (before : List Dict) × (last : Dict) × Hopped hop summary w (before ++ last ∷ []) v
      × All GoesOn before
      × (terminates last ≡ true)
      × (length before < left)
      × ((used : ℕ) × (used ≡ hop + length before + 1) × (output ≡ completed_output used))

  -- or none of `left` hops does, and the run waits for input.
  abbrev pub Waits : ℕ → ℕ → Value → World → Dict → World → Type 0
  Waits left hop summary w output v =
      (statuses : List Dict) × (u : World) × Hopped hop summary w statuses u
      × All GoesOn statuses
      × (length statuses ≡ left)
      × ((used : ℕ) × (used ≡ hop + left) × (output ≡ waiting_output used))
      × HasStatus run_id RunStatus.waiting_input v

  abbrev pub IsOver : ℕ → ℕ → Value → World → Dict → World → Type 0
  IsOver left hop summary w output v =
      Completes left hop summary w output v ⊎ Waits left hop summary w output v

  abbrev Over : ℕ → ℕ → Value → World → Result Dict × World → Type 0
  Over left hop summary w (ok output, v) = IsOver left hop summary w output v
  Over left hop summary w (err e, v) = Unit

  abbrev going : ℕ → ℕ → Dict → Bool → M Dict
  going left hop status b =
      if b
      then pure (completed_output (hop + 1))
      else hop_loop out run_id step_id n left (hop + 1) (get_or "summary" (str "") status)

  -- a hop that goes on, before the others
  later :
      (left hop : ℕ) (summary : Value) (w u : World) (status : Dict)
      → one_hop out run_id step_id n hop summary w ≡ (ok status, u)
      → GoesOn status
      → (x : Result Dict × World) → Over left (hop + 1) (get_or "summary" (str "") status) u x
      → Over (suc left) hop summary w x
  later left hop summary w u status e g (err x, v) o = tt
  later left hop summary w u status e g (ok x, v) (inl (before, last, h, a, t, l, (used, c, s))) =
      inl
        (status ∷ before, last, (u, e, h), (g, a), t, omega (arith, l), (used, omega (arith, c), s))
  later left hop summary w u status e g (ok x, v) (inr (statuses, z, h, a, l, (used, c, s), r)) =
      inr
        (status ∷ statuses, z, (u, e, h), (g, a), omega (arith, l), (used, omega (arith, c), s), r)

  module _ (keeps : Keeps run_id out) where
    exhaust-Over :
        (hop : ℕ) (summary : Value) (w : World)
        → HasRun run_id w
        → Over zero hop summary w (exhaust out run_id step_id n hop w)
    unfolding exhaust
    exhaust-Over hop summary w h = inr (
      [],
      w,
      refl,
      tt,
      refl,
      (hop, omega arith, refl),
      set_run_status-HasStatus run_id RunStatus.waiting_input w h,
    )

    hop_loop-Over :
        (left hop : ℕ) (summary : Value) (w : World)
        → HasRun run_id w
        → Over left hop summary w (hop_loop out run_id step_id n left hop summary w)
    unfolding hop_loop
    hop_loop-Over zero hop summary w h = exhaust-Over hop summary w h
    hop_loop-Over (suc left) hop summary w h =
        >>=-Post (λ x. (one_hop out run_id step_id n hop summary w ≡ x) × HasRun run_id x.1)
          (Over (suc left) hop summary w) (one_hop out run_id step_id n hop summary)
          (λ status. going left hop status (terminates status)) w
          (refl, one_hop-HasRun out run_id step_id n keeps hop summary w h)
          (λ status v (e, g).
            tested status v (terminates status) refl e
              (hop_loop-Over left (hop + 1) (get_or "summary" (str "") status) v g))
          (λ e v g. tt)
      where
        tested :
            (status : Dict) (v : World) (b : Bool)
            → terminates status ≡ b
            → one_hop out run_id step_id n hop summary w ≡ (ok status, v)
            → Over left
                (hop + 1)
                (get_or "summary" (str "") status)
                v
                (hop_loop out run_id step_id n left (hop + 1) (get_or "summary" (str "") status) v)
            → Over (suc left) hop summary w (going left hop status b v)
        tested status v true t e rest =
            inl ([], status, (v, e, refl), tt, t, omega arith, (hop + 1, omega arith, refl))
        tested status v false t e rest = later left hop summary w v status e t _ rest

    result-IsOver :
        (max : ℕ) (w : World) (x : Result Dict × World) {output : Dict}
        → Over max 0 (str "") w x
        → x.0 ≡ ok output
        → IsOver max 0 (str "") w output x.1
    result-IsOver max w (ok o, v) {output} h e =
        let same : o ≡ output = ok-injective e in rw (sym same) h
    result-IsOver max w (err x, v) h e = absurd (cc e)

    -- Where what lies outside leaves the row of the run in the table, a handoff node that returns
    -- made its hops one after another, each told the summary that the one before left. Either the
    -- last of them, of at most `maxHops`, is the only one whose status sets the termination field,
    -- and the output says that the handoff is completed and counts the hops; or `maxHops` hops were
    -- made, none of which sets it, and the output and the row of the run wait for input.
    pub handoff_executor-IsOver :
        (max : ℕ) (w : World) {output : Dict}
        → max_hops_of n ≡ ok max
        → HasRun run_id w
        → (handoff_executor out run_id step_id n w).0 ≡ ok output
        → IsOver max 0 (str "") w output (handoff_executor out run_id step_id n w).1
    unfolding handoff_executor
    handoff_executor-IsOver max w r h e =
        let ranged : handoff_executor out run_id step_id n w
            ≡ hop_loop out run_id step_id n max 0 (str "") w =
          rw r refl in
        result-IsOver max w (handoff_executor out run_id step_id n w)
          (rw ranged (hop_loop-Over max 0 (str "") w h)) e
