-- ===== src/Agents/Step/Commits.antt =====
-- When the worktree of an agent step is committed.
use jarvis_awf.Prelude.{
  ℕ, String, ◌≡◌, ◌⊎◌, inl, inr, refl, sym, ap, ◌∙◌, Bool, true, false, Option, none, some,
  if◌then◌else◌, arith,
}
use mathlib.Core.Path.{subst}
use jarvis_awf.Prelude.Table
use jarvis_awf.Prelude.Table.{Table}
use jarvis_awf.Json.{Dict, end}
use jarvis_awf.Exec.{Result, ok, err, Exec, plain, type_error, or_raise, ◌>>=◌}
use jarvis_awf.Exec.Inversion.{>>=-cong, >>=-step, >>=-raised, ok-injective}
use jarvis_awf.Database.{World, M, Step, StepStatus, is_succeeded}
use jarvis_awf.Engine.Executor.{StepFn, run_step, cached_output, execute_step}
use jarvis_awf.Engine.Executor.Durable.{
  HasStep, KeepsStep, IsClosed, run_step-IsClosed, run_step_cached,
}
use jarvis_awf.Agents.{AgentInvocation, AgentResult, AgentOutside}
use jarvis_awf.Agents.Authorize.{authorize_agent_or_wait}
use jarvis_awf.Agents.Step.{
  AgentCall, agent_fn, commit_output, after_authorize, unless_cached, is_cached, run_agent_step,
}
use jarvis_awf.Agents.Step.Calls.{agent_fn-Keeps}

-- the row of the step is SUCCEEDED with this output
abbrev pub DoneWith : String → Dict → World → Type 0
DoneWith k output v =
    (row : Step) × (Table.get k v.steps ≡ some row)
    × (row.status ≡ StepStatus.succeeded)
    × (row.output_json ≡ some output)

abbrev HasRow : String → Table Step → Type 0
HasRow k steps = (row : Step) × (Table.get k steps ≡ some row)

module _ (k run_id : String) (fn : StepFn) (p : Dict) (w : World) where
  of_closed :
      (x : Result Dict × World) {output : Dict}
      → x.0 ≡ ok output
      → IsClosed k x
      → DoneWith k output x.1
  of_closed (ok o, v) h (row, g, s, e) = (row, g, s, e ∙ ap some (ok-injective h))
  of_closed (err e, v) h c = absurd (cc h)

  succeeded : (s : StepStatus) → is_succeeded s ≡ true → s ≡ StepStatus.succeeded
  succeeded s h = ground arith

  -- a step that returned is SUCCEEDED with what it returned
  returned-DoneWith :
      {output : Dict}
      → KeepsStep k fn
      → (run_step k run_id fn p w).0 ≡ ok output
      → DoneWith k output (run_step k run_id fn p w).1
  returned-DoneWith {output} keeps h = on_row (Table.get k w.steps) refl (unfold run_step in h)
    where
      fetched : Option Step → M Dict
      fetched o = or_raise (plain type_error "'NoneType' object is not subscriptable") o >>= λ row.
          if is_succeeded row.status then cached_output row else execute_step k run_id fn p

      cached :
          (row : Step) (o : Option Dict)
          → Table.get k w.steps ≡ some row
          → is_succeeded row.status ≡ true
          → row.output_json ≡ o
          → (or_raise
              (plain type_error "the JSON object must be str, bytes or bytearray, not NoneType")
              o
              w).0
            ≡ ok output
          → DoneWith k output (run_step k run_id fn p w).1
      cached row none g s e i = absurd (cc i)
      cached row (some o) g s e i =
          let done = succeeded row.status s in
          subst (λ (x : Result Dict × World). DoneWith k output x.1)
            (sym (run_step_cached k run_id fn p w row o g done e))
            (row, g, done, e ∙ ap some (ok-injective i))

      split :
          (row : Step) (b : Bool)
          → Table.get k w.steps ≡ some row
          → is_succeeded row.status ≡ b
          → ((if b then cached_output row else execute_step k run_id fn p) w).0 ≡ ok output
          → DoneWith k output (run_step k run_id fn p w).1
      split row true g s i = cached row row.output_json g s refl i
      split row false g s i =
          of_closed (run_step k run_id fn p w) h (run_step-IsClosed k run_id fn p w row keeps g s)

      on_row :
          (o : Option Step)
          → Table.get k w.steps ≡ o
          → (fetched o w).0 ≡ ok output
          → DoneWith k output (run_step k run_id fn p w).1
      on_row none g i = absurd (cc i)
      on_row (some row) g i = split row (is_succeeded row.status) g refl i

module _ (out : AgentOutside) (c : AgentCall) (adapter : AgentInvocation → M AgentResult)
    (w : World) where
  -- What the commit of the worktree would do makes no difference.
  abbrev pub IgnoresCommit : Type 0
  IgnoresCommit =
      (commit commit' : Exec ℕ String)
      → run_agent_step out c adapter commit w ≡ run_agent_step out c adapter commit' w

  -- The step was not done before, and the commit is the last thing that happens, in a state in which
  -- the row of the step is SUCCEEDED with its output.
  abbrev pub CommitsLast : Type 0
  CommitsLast =
      (output : Dict) × (v : World) × (is_cached out c w ≡ false)
      × DoneWith c.step_id output v
      × ((commit : Exec ℕ String)
          → run_agent_step out c adapter commit w ≡ commit_output out c adapter commit output v)

  abbrev asking : M (Option Dict)
  asking =
      authorize_agent_or_wait out c.run_id c.step_id c.actor c.role c.capability c.agent_allowlist
        c.invocation

  abbrev running : M Dict
  running = run_step c.step_id c.run_id (agent_fn out c adapter) end

  -- Where neither the adapter nor the memory removes the row of the step, the worktree is committed
  -- only once the row of the step is SUCCEEDED with the output, as the last thing that happens, and
  -- not by a step that was done before. In all other cases what the commit would do makes no
  -- difference to the result or to the state.
  pub run_agent_step-CommitsLast :
      ((q p : String) (v : World)
        → HasStep c.step_id v
        → HasStep c.step_id (out.retrieve_memory_context q p v).1)
      → ((i : AgentInvocation) (v : World)
          → HasStep c.step_id v
          → HasStep c.step_id (adapter i v).1)
      → IgnoresCommit ⊎ CommitsLast
  unfolding run_agent_step unless_cached after_authorize
  run_agent_step-CommitsLast keeps_memory keeps_adapter = from (is_cached out c w) refl
    where
      commits : Exec ℕ String → Dict → M Dict
      commits commit = commit_output out c adapter commit

      after : Exec ℕ String → Option Dict → M Dict
      after commit = after_authorize out c adapter commit

      keeps : KeepsStep c.step_id (agent_fn out c adapter)
      keeps p = agent_fn-Keeps (HasRow c.step_id) out c adapter keeps_memory keeps_adapter p

      ran :
          (commit : Exec ℕ String) (b : Bool)
          → is_cached out c w ≡ b
          → run_agent_step out c adapter commit w ≡ unless_cached out c adapter commit b w
      ran commit b e = ap (λ b. unless_cached out c adapter commit b w) e

      t : World
      t = (asking w).1

      agree :
          is_cached out c w ≡ false
          → ((co co' : Exec ℕ String) (o : Option Dict)
              → (asking w).0 ≡ ok o
              → after co o t ≡ after co' o t)
          → IgnoresCommit
      agree n same co co' =
          ran co false n
          ∙ >>=-cong (after co) (after co') asking w (same co co')
          ∙ sym (ran co' false n)

      ended :
          (r : Result Dict)
          → is_cached out c w ≡ false
          → (asking w).0 ≡ ok none
          → (running t).0 ≡ r
          → IgnoresCommit ⊎ CommitsLast
      ended (ok output) n a e = inr (
        output,
        (running t).1,
        n,
        returned-DoneWith c.step_id c.run_id (agent_fn out c adapter) end t keeps e,
        λ co.
            ran co false n
            ∙ >>=-step asking (after co) w (ap (λ r. (r, t)) a)
            ∙ >>=-step running (commits co) t (ap (λ r. (r, (running t).1)) e),
      )
      ended (err x) n a e = inl (agree n raised)
        where
          raised :
              (co co' : Exec ℕ String) (o : Option Dict)
              → (asking w).0 ≡ ok o
              → after co o t ≡ after co' o t
          raised co co' (some d) g = refl
          raised co co' none g =
              >>=-raised running (commits co) t (ap (λ r. (r, (running t).1)) e)
              ∙ sym (>>=-raised running (commits co') t (ap (λ r. (r, (running t).1)) e))

      asked :
          (r : Result (Option Dict))
          → is_cached out c w ≡ false
          → (asking w).0 ≡ r
          → IgnoresCommit ⊎ CommitsLast
      asked (ok none) n e = ended (running t).0 n e refl
      asked (ok (some x)) n e = inl (agree n waits)
        where
          waits :
              (co co' : Exec ℕ String) (o : Option Dict)
              → (asking w).0 ≡ ok o
              → after co o t ≡ after co' o t
          waits co co' (some d) g = refl
          waits co co' none g = absurd (cc (e, g))
      asked (err x) n e = inl (agree n (λ co co' o g. absurd (cc (e, g))))

      from : (b : Bool) → is_cached out c w ≡ b → IgnoresCommit ⊎ CommitsLast
      from true e = inl (λ co co'. ran co true e ∙ sym (ran co' true e))
      from false e = asked (asking w).0 e refl
