-- ===== src/Agents/Authorize/Cleared.antt =====
-- What an agent step that need not wait was allowed by.
use jarvis_awf.Prelude.{
  String, ◌≡◌, ◌⊎◌, inl, inr, refl, ap, ◌∙◌, Bool, true, false, not, Option, none, some, List, ◌==◌,
  eq_iff, is_some, if◌then◌else◌,
}
use mathlib.Core.Path.{subst}
use jarvis_awf.Json.{Dict}
use jarvis_awf.Exec.{ok, policy_denied, approval_rejected, pure, raise, gets, ◌>>=◌, ◌>>◌}
use jarvis_awf.Exec.Inversion.{>>=-Returned}
use jarvis_awf.Database.{World, M, Approval, ApprovalStatus, pending, rejected, approval_of_step}
use jarvis_awf.Registry.Capability.{CapabilityRecord}
use jarvis_awf.Guard.{Decision, allow, deny, approval_required, evaluate, authorize}
use jarvis_awf.Guard.Decisions.{authorize-evaluate}
use jarvis_awf.Approvals.Node.{waiting_for}
use jarvis_awf.Approvals.Node.Waits.{Unexpired}
use jarvis_awf.Approvals.Machine.{MachineAction}
use jarvis_awf.Agents.{AgentInvocation, AgentOutside, step_error}
use jarvis_awf.Agents.Authorize.{
  build_agent_action, agent_event, approval_status, ensure_pending_agent, agent_allowlist_of,
  agent_request, on_agent_decision, unless_asked, after_status, authorize_action,
  authorize_agent_or_wait,
}

module _ (out : AgentOutside) (run_id step_id actor : String) (role : Option String)
    (c : CapabilityRecord) (agent_allowlist : Option (List String)) where
  -- the guard allows it
  abbrev pub Allowed : Type 0
  Allowed =
      (reason : String) × (evaluate c
          (agent_allowlist_of out run_id step_id actor role c agent_allowlist) role
        ≡ ok (allow, reason))

  -- an approval of the step for this very action that was granted, or, where none was asked for, the guard
  abbrev pub Granted : MachineAction → World → Type 0
  Granted a w =
      ((k : String) × (r : Approval) × (approval_of_step step_id w ≡ some (k, r))
        × (r.action_digest ≡ out.action_digest a)
        × (r.status ≡ ApprovalStatus.approved))
      ⊎ (approval_of_step step_id w ≡ none) × Allowed

  decided :
      (a : MachineAction) (d : Decision) (w : World)
      → (on_agent_decision out run_id step_id actor role a d w).0 ≡ ok none
      → d ≡ allow
  unfolding on_agent_decision
  decided a allow w h = refl
  decided a deny w h = absurd (cc h)
  decided a approval_required w h =
      let r =
        >>=-Returned
          (gets (approval_of_step a.step_id)
            >>= ensure_pending_agent out run_id step_id actor role a)
          (λ waiting. pure (some waiting)) w h in
      absurd (cc r.second)

  guarded :
      (a : MachineAction) (w : World)
      → (unless_asked out run_id step_id actor role c agent_allowlist a false w).0 ≡ ok none
      → Allowed
  unfolding unless_asked
  guarded a w h =
      let q = agent_request out run_id step_id actor role c agent_allowlist a in
      let r =
        >>=-Returned (authorize c q) (on_agent_decision out run_id step_id actor role a) w h in
      let (reason, e) = authorize-evaluate c q w r.first in
      (reason, e ∙ ap (λ d. ok (d, reason)) (decided a r.value (authorize c q w).1 r.second))

  with_approval :
      (a : MachineAction) (w : World) (k : String) (r : Approval)
      → Unexpired step_id w
      → approval_of_step step_id w ≡ some (k, r)
      → ((approval_status out run_id step_id actor role a (some (k, r))
            >>= after_status out run_id step_id actor role c agent_allowlist a)
          w).0
        ≡ ok none
      → Granted a w
  unfolding approval_status after_status
  with_approval a w k r unexpired e h =
      from (r.action_digest == out.action_digest a) refl r.status refl h
    where
      next : Option Dict → M (Option Dict)
      next = after_status out run_id step_id actor role c agent_allowlist a

      deny_it : M (Option Dict)
      deny_it =
          agent_event out run_id step_id actor role a "machine_action_denied" (some k)
          >> raise (step_error approval_rejected "the approval was rejected")

      from :
          (b : Bool)
          → (r.action_digest == out.action_digest a) ≡ b
          → (s : ApprovalStatus) → r.status ≡ s
          → (((if not b
                  then raise (
                      step_error policy_denied
                        "approved action digest does not match current agent action")
                  else elim s [
                    | pending ↦ pure (some (waiting_for k))
                    | rejected ↦ deny_it
                    | _ ↦ pure none
                  ])
                >>= next)
              w).0
            ≡ ok none
          → Granted a w
      from false y s t g = absurd (cc g)
      from true y ApprovalStatus.pending t g = absurd (cc g)
      from true y ApprovalStatus.rejected t g = absurd (cc g)
      from true y ApprovalStatus.approved t g =
          inl (k, r, e, (eq_iff r.action_digest (out.action_digest a)).0 y, t)
      from true y ApprovalStatus.expired t g = absurd (unexpired k r e t)

  -- an agent step with a capability goes on only if it is granted
  pub authorize_agent_or_wait-Granted :
      (invocation : AgentInvocation) (w : World)
      → Unexpired step_id w
      → (authorize_agent_or_wait out run_id step_id actor role
          (some c)
          agent_allowlist
          invocation
          w).0
        ≡ ok none
      → Granted (build_agent_action out run_id step_id actor role c invocation) w
  unfolding authorize_agent_or_wait authorize_action after_status approval_status
  authorize_agent_or_wait-Granted invocation w unexpired h =
      from (approval_of_step step_id w) refl h
    where
      a : MachineAction
      a = build_agent_action out run_id step_id actor role c invocation

      unasked :
          approval_of_step step_id w ≡ none
          → (after_status out run_id step_id actor role c agent_allowlist a none w).0 ≡ ok none
          → Allowed
      unasked e g = guarded a w (
          subst
            (λ b. (unless_asked out run_id step_id actor role c agent_allowlist a b w).0 ≡ ok none)
            (ap is_some e) g)

      from :
          (o : Option (String × Approval))
          → approval_of_step step_id w ≡ o
          → ((approval_status out run_id step_id actor role a o
                >>= after_status out run_id step_id actor role c agent_allowlist a)
              w).0
            ≡ ok none
          → Granted a w
      from none e g = inr (e, unasked e g)
      from (some (k, r)) e g = with_approval a w k r unexpired e g
