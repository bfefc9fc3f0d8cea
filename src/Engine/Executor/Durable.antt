-- ===== src/Engine/Executor/Durable.antt =====
-- The durability rule: what `run_step` leaves in the `steps` table.
use jarvis_awf.Prelude.{
  String, ◌≡◌, refl, ◌∙◌, false, some, List, [], ◌∷◌, ◌++◌, arith, eq_refl, All,
}
use jarvis_awf.Prelude.Table
use jarvis_awf.Prelude.Table.{get-update}
use jarvis_awf.Json.{Dict}
use jarvis_awf.Exec.{failure_class_of, Result, ok, err}
use jarvis_awf.Exec.Inversion.{>>=-step}
use jarvis_awf.Database.{World, Step, StepStatus, is_succeeded}
use jarvis_awf.Engine.Executor.{
  StepFn, run_step, execute_step, start_step, close_step, StepCall, run_steps,
}

-- the step has a row
abbrev pub HasStep : String → World → Type 0
HasStep k w = (row : Step) × (Table.get k w.steps ≡ some row)

-- The function of a step leaves the row of that step in the table.
abbrev pub KeepsStep : String → StepFn → Type 0
KeepsStep k fn = (p : Dict) (w : World) → HasStep k w → HasStep k (fn p w).1

-- The row agrees with what the call returned or raised.
abbrev pub IsClosed : String → Result Dict × World → Type 0
IsClosed k (ok output, v) =
    (row : Step) × (Table.get k v.steps ≡ some row)
    × (row.status ≡ StepStatus.succeeded)
    × (row.output_json ≡ some output)
IsClosed k (err e, v) =
    (row : Step) × (Table.get k v.steps ≡ some row)
    × (row.status ≡ StepStatus.failed)
    × (row.failure_class ≡ some (failure_class_of e))

-- a step already SUCCEEDED: its recorded output is returned, and the function is not called
pub run_step_cached :
    (k run_id : String) (fn : StepFn) (p : Dict) (w : World) (row : Step) (output : Dict)
    → Table.get k w.steps ≡ some row
    → row.status ≡ StepStatus.succeeded
    → row.output_json ≡ some output
    → run_step k run_id fn p w ≡ (ok output, w)
unfolding run_step
run_step_cached k run_id fn p w row output g s o = ground arith

module _ (k run_id : String) where
  -- an update of a row that is there
  get-update_self :
      (f : Step → Step) (w : World) (row : Step)
      → Table.get k w.steps ≡ some row
      → Table.get k (Table.update k f w.steps) ≡ some (f row)
  get-update_self f w row h = rw (get-update, eq_refl, h)

  start_step-HasStep : (w : World) → HasStep k w → HasStep k (start_step k run_id w).1
  unfolding start_step
  start_step-HasStep w (row, h) = (_, get-update_self _ w row h)

  close_step-IsClosed :
      (r : Result Dict) (w : World) → HasStep k w → IsClosed k (close_step k run_id r w)
  unfolding close_step
  close_step-IsClosed (ok output) w (row, h) = (_, get-update_self _ w row h, refl, refl)
  close_step-IsClosed (err e) w (row, h) = (_, get-update_self _ w row h, refl, refl)

  execute_step-IsClosed :
      (fn : StepFn) (p : Dict) (w : World)
      → KeepsStep k fn
      → HasStep k w
      → IsClosed k (execute_step k run_id fn p w)
  unfolding execute_step start_step
  execute_step-IsClosed fn p w keeps h =
      let w1 = (start_step k run_id w).1 in
      close_step-IsClosed (fn p w1).0 (fn p w1).1 (keeps p w1 (start_step-HasStep w h))

  run_step_open :
      (fn : StepFn) (p : Dict) (w : World) (row : Step)
      → Table.get k w.steps ≡ some row
      → is_succeeded row.status ≡ false
      → run_step k run_id fn p w ≡ execute_step k run_id fn p w
  unfolding run_step
  run_step_open fn p w row g s = ground arith

  -- Whenever `run_step` is called on a step with a row that is not SUCCEEDED, and a function that
  -- leaves that row in the table, the row is closed: it is SUCCEEDED with the output that the call
  -- returns, or FAILED with the class of the exception that the call raises. It is never left RUNNING.
  pub run_step-IsClosed :
      (fn : StepFn) (p : Dict) (w : World) (row : Step)
      → KeepsStep k fn
      → Table.get k w.steps ≡ some row
      → is_succeeded row.status ≡ false
      → IsClosed k (run_step k run_id fn p w)
  run_step-IsClosed fn p w row keeps g s =
      rw (run_step_open fn p w row g s) (execute_step-IsClosed fn p w keeps (row, g))

  replay_of_IsClosed :
      (fn' : StepFn) (p' : Dict) (x : Result Dict × World) {output : Dict}
      → x.0 ≡ ok output
      → IsClosed k x
      → run_step k run_id fn' p' x.1 ≡ (ok output, x.1)
  replay_of_IsClosed fn' p' (ok o, v) {output} h (row, g, s, e) =
      run_step_cached k run_id fn' p' v row output g s (e ∙ cc h)
  replay_of_IsClosed fn' p' (err e, v) h c = absurd (cc h)

  -- A step that returned, by a function that leaves its row in the table, is not run again: a second
  -- call, with any function and input, returns the recorded output and changes nothing.
  pub run_step_replay :
      (fn fn' : StepFn) (p p' : Dict) (w : World) (row : Step) {output : Dict}
      → KeepsStep k fn
      → Table.get k w.steps ≡ some row
      → is_succeeded row.status ≡ false
      → (run_step k run_id fn p w).0 ≡ ok output
      → run_step k run_id fn' p' (run_step k run_id fn p w).1
        ≡ (ok output, (run_step k run_id fn p w).1)
  run_step_replay fn fn' p p' w row keeps g s h =
      replay_of_IsClosed fn' p' (run_step k run_id fn p w) h
        (run_step-IsClosed fn p w row keeps g s)

-- the step of this call is already SUCCEEDED
abbrev pub IsDone : World → StepCall → Type 0
IsDone w c =
    (row : Step) × (output : Dict) × (Table.get c.step_id w.steps ≡ some row)
    × (row.status ≡ StepStatus.succeeded)
    × (row.output_json ≡ some output)

-- Walking the step list again after a crash: the steps already done are passed over with no effect,
-- and the run goes on at the first that is not.
pub run_steps-resume :
    (run_id : String) (before after : List StepCall) (w : World)
    → All (IsDone w) before
    → run_steps run_id (before ++ after) w ≡ run_steps run_id after w
unfolding run_steps
run_steps-resume run_id [] after w h = refl
run_steps-resume run_id (c ∷ cs) after w ((row, o, g, s, e), h) =
    >>=-step (run_step c.step_id run_id c.fn c.input_payload) (λ _. run_steps run_id (cs ++ after))
      w (run_step_cached c.step_id run_id c.fn c.input_payload w row o g s e)
    ∙ run_steps-resume run_id cs after w h
