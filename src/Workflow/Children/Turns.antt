-- ===== src/Workflow/Children/Turns.antt =====
-- The children that a loop node runs, one after another.
use jarvis_awf.Prelude.{
  ℕ, suc, ◌+◌, ◌<◌, String, ◌≡◌, ◌⊎◌, inl, inr, refl, ap, ◌∙◌, true, false, List, [], ◌∷◌, ◌++◌,
  map, length, All, arith,
}
use jarvis_awf.Json.{Value, bool, obj, Dict, end, field, get_truthy}
use jarvis_awf.Exec.{Result, ok, err}
use jarvis_awf.Database.{World, RunStatus}
use jarvis_awf.Workflow.Engine.Statuses.{HasStatus}
use jarvis_awf.Workflow.Children.{RunChild, has_succeeded, last_step_output, loop_output}

-- a child, and the output of its last step
abbrev pub Turn : Type 0
Turn = String × Dict

abbrev pub children : List Turn → List String
children turns = map (λ t. t.0) turns

append_turn :
    (ids : List String) (child : String) (rest : List String)
    → (ids ++ child ∷ []) ++ rest ≡ ids ++ child ∷ rest
append_turn [] child rest = refl
append_turn (i ∷ ids) child rest = ap (λ is. i ∷ is) (append_turn ids child rest)

module _ (run_child : RunChild) (run_id ref condition : String) where
  abbrev pub GoesOn : Turn → Type 0
  GoesOn (child, output) = get_truthy condition output ≡ true

  -- Runs of the child, the first on this input: each succeeded, and its output is the next input.
  abbrev pub Iterated : Value → World → List Turn → World → Type 0
  Iterated input w [] v = v ≡ w
  Iterated input w ((child, output) ∷ turns) v =
      (result : Dict) × (u : World) × (run_child ref input w ≡ (ok (child, result), u))
      × (has_succeeded result ≡ true)
      × (last_step_output child u ≡ output)
      × Iterated (obj output) u turns v

  -- One of at most `left` iterations is the first after which the condition does not hold, and the
  -- loop is completed by it,
  abbrev pub Completes : ℕ → ℕ → List String → Value → World → Dict → World → Type 0
  Completes left iteration ids input w output v =
      (before : List Turn) × (last : Turn) × Iterated input w (before ++ last ∷ []) v
      × All GoesOn before
      × (get_truthy condition last.1 ≡ false)
      × (length before < left)
      × ((used : ℕ) × (all : List String) × (used ≡ iteration + length before + 1)
          × (all ≡ ids ++ children (before ++ last ∷ []))
          × (output ≡ loop_output true used all end))

  -- or it holds after each of `left` iterations, and the run waits for input.
  abbrev pub Waits : ℕ → ℕ → List String → Value → World → Dict → World → Type 0
  Waits left iteration ids input w output v =
      (turns : List Turn) × (u : World) × Iterated input w turns u
      × All GoesOn turns
      × (length turns ≡ left)
      × ((used : ℕ) × (all : List String) × (used ≡ iteration + left)
          × (all ≡ ids ++ children turns)
          × (output ≡ loop_output false used all (field "waiting_input" (bool true) end)))
      × HasStatus run_id RunStatus.waiting_input v

  abbrev pub IsOver : ℕ → ℕ → List String → Value → World → Dict → World → Type 0
  IsOver left iteration ids input w output v =
      Completes left iteration ids input w output v ⊎ Waits left iteration ids input w output v

  abbrev pub Over : ℕ → ℕ → List String → Value → World → Result Dict × World → Type 0
  Over left iteration ids input w (ok output, v) = IsOver left iteration ids input w output v
  Over left iteration ids input w (err e, v) = Unit

  -- an iteration after which the condition holds, before the others
  pub later :
      (left iteration : ℕ) (ids : List String) (input : Value) (w u : World) (child : String)
      (result output : Dict)
      → run_child ref input w ≡ (ok (child, result), u)
      → has_succeeded result ≡ true
      → last_step_output child u ≡ output
      → get_truthy condition output ≡ true
      → (x : Result Dict × World) → Over left (iteration + 1) (ids ++ child ∷ []) (obj output) u x
      → Over (suc left) iteration ids input w x
  later left iteration ids input w u child result output e s o g (err x, v) k = tt
  later left iteration ids input w u child result output e s o g (ok x, v)
        (inl (before, last, h, a, t, l, (used, all, c, i, k))) =
      inl (
        (child, output) ∷ before,
        last,
        (result, u, e, s, o, h),
        (g, a),
        t,
        omega (arith, l),
        (used, all, omega (arith, c), i ∙ append_turn ids child _, k),
      )
  later left iteration ids input w u child result output e s o g (ok x, v)
        (inr (turns, z, h, a, l, (used, all, c, i, k), r)) =
      inr (
        (child, output) ∷ turns,
        z,
        (result, u, e, s, o, h),
        (g, a),
        omega (arith, l),
        (used, all, omega (arith, c), i ∙ append_turn ids child _, k),
        r,
      )
