-- ===== src/Guard/Decisions.antt =====
-- What the Capability Guard decides, and what it records.
use jarvis_awf.Prelude.{
  String, ◌≡◌, ◌≢◌, ◌⊎◌, ◌↔◌, refl, true, false, Option, List, [], ◌∷◌, ◌++◌, member, arith,
}
use jarvis_awf.Exec.{Result, ok, err, Exn, lift, ◌>>=◌}
use jarvis_awf.Exec.Inversion.{ok-injective}
use jarvis_awf.Database.{World, Event, event_row, r0, r3}
use jarvis_awf.Registry.Capability.{CapabilityRecord, ref, never}
use jarvis_awf.Guard.{
  Decision, allow, deny, decision_value, is_write, role_is, bad_role, evaluate, Request, authorize,
  by_risk, decision_args, record_decision,
}

-- Section 9.2 in words: who may act with this capability without asking.
pub record Permits (c : CapabilityRecord) (allowlist : List String) (role : Option String)
    : Type 0 where
  pub listed : member (ref c) allowlist ≡ true
  pub known : bad_role role ≡ false
  pub not_prohibited : c.risk_class ≢ r3
  pub unasked : (c.risk_class ≡ r0) ⊎ (c.approval ≡ never)
  pub verifier :
      role_is "verifier" role ≡ true → is_write c.effects.operation ≡ true → c.risk_class ≡ r0
  pub adversary : role_is "adversary" role ≡ true → is_write c.effects.operation ≡ false

module _ (c : CapabilityRecord) (allowlist : List String) (role : Option String) where
  Permits-of_allow :
      {reason : String} → evaluate c allowlist role ≡ ok (allow, reason) → Permits c allowlist role
  unfolding evaluate
  Permits-of_allow h = ground arith

  abbrev allow_reason : String
  allow_reason = (by_risk c.risk_class c.approval).1

  allow_of_Permits : Permits c allowlist role → evaluate c allowlist role ≡ ok (allow, allow_reason)
  unfolding evaluate
  allow_of_Permits p = ground arith

  -- The guard allows the action exactly when it is permitted.
  pub evaluate-allow_iff :
      ((reason : String) × (evaluate c allowlist role ≡ ok (allow, reason)))
      ↔ Permits c allowlist role
  evaluate-allow_iff = (λ (r, h). Permits-of_allow h, λ p. (allow_reason, allow_of_Permits p))

  -- A verifier that writes above R0 and an adversary that writes at all are denied whenever the
  -- guard answers: no approval can be asked for them.
  pub evaluate-restricted :
      (role_is "verifier" role ≡ true) × (c.risk_class ≢ r0) ⊎ (role_is "adversary" role ≡ true)
      → is_write c.effects.operation ≡ true
      → {d : Decision} {reason : String} → evaluate c allowlist role ≡ ok (d, reason)
      → d ≡ deny
  unfolding evaluate
  evaluate-restricted k w h = ground arith

-- The tables that no authorization touches.
pub record SameTables (w v : World) : Type 0 where
  pub runs : v.runs ≡ w.runs
  pub steps : v.steps ≡ w.steps
  pub approvals : v.approvals ≡ w.approvals

-- one event more, which carries this decision for this run and step
pub record Recorded (r : Request) (d : Decision) (w v : World) : Type 0 where
  pub event : Event
  pub appended : v.events ≡ w.events ++ event ∷ []
  pub decision : event.new_status ≡ decision_value d
  pub run : event.run_id ≡ r.run_id
  pub step : event.step_id ≡ r.step_id
  pub tables : SameTables w v

module _ (c : CapabilityRecord) (r : Request) (w : World) where
  record_decision-Recorded : (v : Decision × String) → Recorded r v.0 w (record_decision c r v w).1
  record_decision-Recorded (d, reason) = record {
    event = event_row (decision_args c r (d, reason)) w;
    appended = refl;
    decision = refl;
    run = refl;
    step = refl;
    tables = record { runs = refl; steps = refl; approvals = refl };
  }

  bind-Recorded :
      (x : Result (Decision × String)) {d : Decision}
      → ((lift x >>= record_decision c r) w).0 ≡ ok d
      → Recorded r d w ((lift x >>= record_decision c r) w).1
  bind-Recorded (ok (d', reason)) {d} h =
      let e : d ≡ d' = cc in rw e (record_decision-Recorded (d', reason))
  bind-Recorded (err e) h = cc

  -- A decision is never returned without its event, whatever it is.
  pub authorize-Recorded :
      {d : Decision} → (authorize c r w).0 ≡ ok d → Recorded r d w (authorize c r w).1
  unfolding authorize
  authorize-Recorded h = bind-Recorded (evaluate c r.agent_allowlist r.role) h

  -- Where the guard cannot decide, it raises and the database is as it was.
  pub authorize_error :
      {e : Exn} → (authorize c r w).0 ≡ err e → ((authorize c r w).1 ≡ w) × (bad_role r.role ≡ true)
  unfolding authorize evaluate
  authorize_error h = ground arith

  bind-evaluate :
      (x : Result (Decision × String)) {d : Decision}
      → ((lift x >>= record_decision c r) w).0 ≡ ok d
      → (reason : String) × (x ≡ ok (d, reason))
  bind-evaluate (ok (d', reason)) {d} h =
      let same : d' ≡ d = ok-injective h in (reason, rw same refl)
  bind-evaluate (err e) h = absurd (cc h)

  -- the decision that is returned is that of `evaluate`
  pub authorize-evaluate :
      {d : Decision}
      → (authorize c r w).0 ≡ ok d
      → (reason : String) × (evaluate c r.agent_allowlist r.role ≡ ok (d, reason))
  unfolding authorize
  authorize-evaluate h = bind-evaluate (evaluate c r.agent_allowlist r.role) h
