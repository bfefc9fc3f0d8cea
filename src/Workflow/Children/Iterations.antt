-- ===== src/Workflow/Children/Iterations.antt =====
-- Which children a loop node runs.
use jarvis_awf.Prelude.{
  ℕ, zero, suc, ◌+◌, String, ◌≡◌, inl, inr, refl, sym, ap, ◌∙◌, Bool, true, false, not, Option,
  none, some, List, [], ◌∷◌, ◌++◌, arith, if◌then◌else◌,
}
use mathlib.Core.Path.{subst}
use jarvis_awf.Json.{Value, obj, Dict, end, get, get_or, get_truthy, as_text}
use jarvis_awf.Exec.{Result, ok, err, plain, key_error, pure, gets, or_raise, ◌>>=◌}
use jarvis_awf.Exec.Inversion.{Preserves, >>=-Post, ok-injective}
use jarvis_awf.Database.{World, M, RunStatus}
use jarvis_awf.Workflow.Definition.{Node}
use jarvis_awf.Workflow.Engine.Statuses.{HasRun, set_run_status-HasStatus}
use jarvis_awf.Workflow.Children.{
  RunChild, has_succeeded, last_step_output, range_of, loop_output, exhaust, failed_child, iterate,
  condition_field, loop_over, loop_within, loop_executor,
}
use jarvis_awf.Workflow.Children.Turns.{IsOver, Over, later}

module _ (run_child : RunChild) (run_id ref condition : String) where
  module _
      (keeps : (ref : String) (input : Value)
        → Preserves (HasRun run_id) (run_child ref input)) where
    exhaust-Over :
        (iteration : ℕ) (ids : List String) (input : Value) (w : World)
        → HasRun run_id w
        → Over run_child run_id ref condition zero iteration ids input w
            (exhaust run_child run_id iteration ids w)
    unfolding exhaust
    exhaust-Over iteration ids input w h = inr (
      [],
      w,
      refl,
      tt,
      refl,
      (iteration, ids, omega arith, sym (append_nil ids), refl),
      set_run_status-HasStatus run_id RunStatus.waiting_input w h,
    )
      where
        append_nil : (is : List String) → is ++ [] ≡ is
        append_nil [] = refl
        append_nil (i ∷ is) = ap (λ js. i ∷ js) (append_nil is)

    iterate-Over :
        (left iteration : ℕ) (input : Value) (ids : List String) (w : World)
        → HasRun run_id w
        → Over run_child run_id ref condition left iteration ids input w
            (iterate run_child run_id ref condition left iteration input ids w)
    unfolding iterate
    iterate-Over zero iteration input ids w h = exhaust-Over iteration ids input w h
    iterate-Over (suc left) iteration input ids w h =
        >>=-Post (λ x. (run_child ref input w ≡ x) × HasRun run_id x.1)
          (Over run_child run_id ref condition (suc left) iteration ids input w)
          (run_child ref input) next w (refl, keeps ref input w h)
          (λ (child, result) v (e, g).
            tested child result v (has_succeeded result) refl e
              (λ o. iterate-Over left (iteration + 1) (obj o) (ids ++ child ∷ []) v g))
          (λ e v g. tt)
      where
        goes : String → Dict → M Dict
        goes child output =
            iterate run_child run_id ref condition left (iteration + 1) (obj output)
              (ids ++ child ∷ [])

        judged : String → Dict → Bool → M Dict
        judged child output goes_on =
            if not goes_on
            then pure (loop_output true (iteration + 1) (ids ++ child ∷ []) end)
            else goes child output

        choice : String → Bool → M Dict
        choice child succeeded =
            if not succeeded
            then failed_child run_child run_id
            else (gets (last_step_output child) >>= λ output.
                judged child output (get_truthy condition output))

        next : String × Dict → M Dict
        next (child, result) = choice child (has_succeeded result)

        Rest : String → World → Dict → Type 0
        Rest child v o =
            Over run_child run_id ref condition left (iteration + 1) (ids ++ child ∷ []) (obj o) v
              (goes child o v)

        decided :
            (child : String) (result output : Dict) (v : World) (b : Bool)
            → get_truthy condition output ≡ b
            → run_child ref input w ≡ (ok (child, result), v)
            → has_succeeded result ≡ true
            → last_step_output child v ≡ output
            → Rest child v output
            → Over run_child run_id ref condition
                (suc left)
                iteration
                ids
                input
                w
                (judged child output b v)
        decided child result output v true t e s o rest =
            later run_child run_id ref condition left iteration ids input w v child result output e
              s o t _ rest
        decided child result output v false t e s o rest = inl (
          [],
          (child, output),
          (result, v, e, s, o, refl),
          tt,
          t,
          omega arith,
          (iteration + 1, ids ++ child ∷ [], omega arith, refl, refl),
        )

        tested :
            (child : String) (result : Dict) (v : World) (b : Bool)
            → has_succeeded result ≡ b
            → run_child ref input w ≡ (ok (child, result), v)
            → ((o : Dict) → Rest child v o)
            → Over run_child run_id ref condition
                (suc left)
                iteration
                ids
                input
                w
                (choice child b v)
        tested child result v false s e rest = tt
        tested child result v true s e rest =
            let output = last_step_output child v in
            decided child result output v (get_truthy condition output) refl e s refl (rest output)

module _ (run_child : RunChild) (run_id : String)
    (keeps : (ref : String) (input : Value) → Preserves (HasRun run_id) (run_child ref input))
    (n : Node) where
  -- the loop over the workflow that the node names, on the input that it gives
  abbrev pub Loops : ℕ → World → Dict → World → Type 0
  Loops max w output v =
      (ref : String) × (as_text (get "workflowRef" n.fields) ≡ some ref)
      × IsOver run_child run_id ref (condition_field run_child run_id n) max 0 []
          (get_or "input" (obj end) n.fields) w output v

  within-Loops :
      (max : ℕ) (w : World) (o : Option String) {output : Dict}
      → as_text (get "workflowRef" n.fields) ≡ o
      → HasRun run_id w
      → ((or_raise (plain key_error "workflowRef") o >>= loop_over run_child run_id n max) w).0
        ≡ ok output
      → Loops max w output
          ((or_raise (plain key_error "workflowRef") o >>= loop_over run_child run_id n max) w).1
  within-Loops max w none r h e = absurd (cc e)
  within-Loops max w (some ref) {output} r h e = (
    ref,
    r,
    result (iterated w) (iterate-Over run_child run_id ref condition keeps max 0 input [] w h) e,
  )
    where
      condition : String
      condition = condition_field run_child run_id n

      input : Value
      input = get_or "input" (obj end) n.fields

      iterated : M Dict
      iterated = iterate run_child run_id ref condition max 0 input []

      result :
          (x : Result Dict × World)
          → Over run_child run_id ref condition max 0 [] input w x
          → x.0 ≡ ok output
          → IsOver run_child run_id ref condition max 0 [] input w output x.1
      result (ok o, v) g e = let same : o ≡ output = ok-injective e in rw (sym same) g
      result (err x, v) g e = absurd (cc e)

  -- Where no child removes the row of the run, a loop node that returns ran the workflow that it
  -- names again and again: first on its input, then on the output of the last step of the child
  -- before, and each child succeeded. Either the last child, of at most `maxIterations`, is the only
  -- one whose output does not set the condition field, and the output says that the loop is
  -- completed and lists the children in order; or `maxIterations` children ran, whose outputs all set
  -- it, and the output and the row of the run wait for input.
  pub loop_executor-IsOver :
      (max : ℕ) (w : World) {output : Dict}
      → range_of (get "maxIterations" n.fields) ≡ ok max
      → HasRun run_id w
      → (loop_executor run_child run_id n w).0 ≡ ok output
      → Loops max w output (loop_executor run_child run_id n w).1
  unfolding loop_executor
  loop_executor-IsOver max w {output} r h e =
      let ranged : loop_executor run_child run_id n w ≡ loop_within run_child run_id n max w =
        rw r refl in
      subst (λ (x : Result Dict × World). Loops max w output x.1) (sym ranged)
        (within-Loops max w _ refl h (sym (ap (λ x. x.0) ranged) ∙ e))
