-- ===== src/Agents/Step/Guarded.antt =====
-- When the adapter of an agent step is called.
use jarvis_awf.Prelude.{
  ℕ, String, ◌≡◌, ◌⊎◌, inl, inr, refl, sym, ap, ◌∙◌, false, Option, none, some,
}
use mathlib.Core.Path.{subst}
use jarvis_awf.Json.{Dict}
use jarvis_awf.Exec.{Result, ok, err, Exec, ◌>>=◌}
use jarvis_awf.Exec.Inversion.{>>=-cong}
use jarvis_awf.Database.{World, M}
use jarvis_awf.Registry.Capability.{CapabilityRecord}
use jarvis_awf.Agents.{AgentInvocation, AgentResult, AgentOutside}
use jarvis_awf.Agents.Authorize.{build_agent_action, authorize_agent_or_wait}
use jarvis_awf.Agents.Authorize.Cleared.{Granted, authorize_agent_or_wait-Granted}
use jarvis_awf.Approvals.Node.Waits.{Unexpired}
use jarvis_awf.Agents.Step.{AgentCall, after_authorize, unless_cached, is_cached, run_agent_step}

module _ (out : AgentOutside) (c : AgentCall) (capability : CapabilityRecord) (w : World) where
  -- an approval of this very step that was granted, or the guard
  abbrev pub Approved : Type 0
  Approved =
      Granted out c.run_id c.step_id c.actor c.role capability c.agent_allowlist
        (build_agent_action out c.run_id c.step_id c.actor c.role capability c.invocation) w

  -- The adapter is not called, and nothing is committed: what they would do makes no difference.
  abbrev pub IgnoresBoth : Type 0
  IgnoresBoth =
      (adapter adapter' : AgentInvocation → M AgentResult) (commit commit' : Exec ℕ String)
      → run_agent_step out c adapter commit w ≡ run_agent_step out c adapter' commit' w

  abbrev asking : M (Option Dict)
  asking =
      authorize_agent_or_wait out c.run_id c.step_id c.actor c.role c.capability c.agent_allowlist
        c.invocation

  -- An agent step with a capability that is not done, and whose approval, if there is one, is not
  -- expired: it calls its adapter, and commits, only if that approval is for the digest of this very
  -- action and is approved, or, where none was asked for, the guard allows it. Otherwise what the
  -- adapter and the commit would do makes no difference to the result or to the state.
  pub run_agent_step-Approved :
      c.capability ≡ some capability
      → is_cached out c w ≡ false
      → Unexpired c.step_id w
      → Approved ⊎ IgnoresBoth
  unfolding run_agent_step unless_cached after_authorize
  run_agent_step-Approved h n unexpired = from (asking w).0 refl
    where
      after : (AgentInvocation → M AgentResult) → Exec ℕ String → Option Dict → M Dict
      after adapter commit = after_authorize out c adapter commit

      ran :
          (adapter : AgentInvocation → M AgentResult) (commit : Exec ℕ String)
          → run_agent_step out c adapter commit w ≡ (asking >>= after adapter commit) w
      ran adapter commit = ap (λ b. unless_cached out c adapter commit b w) n

      ignores : (r : Result (Option Dict)) → (asking w).0 ≡ r → ((r ≡ ok none) → ⊥) → IgnoresBoth
      ignores r e apart ad ad' co co' =
          ran ad co
          ∙ >>=-cong (after ad co) (after ad' co') asking w (λ o g. waits o (sym e ∙ g))
          ∙ sym (ran ad' co')
        where
          waits :
              (o : Option Dict)
              → r ≡ ok o
              → after ad co o (asking w).1 ≡ after ad' co' o (asking w).1
          waits none g = absurd (apart g)
          waits (some x) g = refl

      asks :
          (o : Option CapabilityRecord)
          → (authorize_agent_or_wait out c.run_id c.step_id c.actor c.role o c.agent_allowlist
              c.invocation w).0
            ≡ ok none
          → o ≡ some capability
          → Approved
      asks o e k =
          authorize_agent_or_wait-Granted out c.run_id c.step_id c.actor c.role capability
            c.agent_allowlist c.invocation w unexpired
            (subst
              (λ x.
                (authorize_agent_or_wait out c.run_id c.step_id c.actor c.role x c.agent_allowlist
                  c.invocation w).0
                ≡ ok none)
              k e)

      from : (r : Result (Option Dict)) → (asking w).0 ≡ r → Approved ⊎ IgnoresBoth
      from (ok none) e = inl (asks c.capability e h)
      from (ok (some x)) e = inr (ignores (ok (some x)) e (λ g. cc g))
      from (err x) e = inr (ignores (err x) e (λ g. cc g))
