-- ===== src/Approvals/Machine/Cleared.antt =====
-- When a machine action is executed.
use jarvis_awf.Prelude.{
  String, ◌≡◌, ◌≢◌, ◌⊎◌, inl, inr, refl, sym, ap, ◌∙◌, Bool, true, false, Option, none, some, [],
  ◌∷◌, ◌==◌, eq_iff,
}
use jarvis_awf.Prelude.Table
use jarvis_awf.Json.{Dict}
use jarvis_awf.Exec.{Result, ok, err, ◌>>=◌, pure, attempt, gets}
use jarvis_awf.Exec.Inversion.{>>=-step, >>=-Returned, >>=-cong}
use jarvis_awf.Database.{
  World, M, Step, Approval, ApprovalStatus, is_succeeded, is_waiting_approval, approval_of_step,
  fetch_step,
}
use jarvis_awf.Registry.Capability.{CapabilityRecord, ref}
use jarvis_awf.Guard.{Decision, allow, deny, approval_required, evaluate, authorize}
use jarvis_awf.Guard.Decisions.{authorize-evaluate}
use jarvis_awf.Approvals.Node.Waits.{Unexpired}
use jarvis_awf.Approvals.Machine.{
  MachineAction, machine_event, ensure_pending, machine_request, on_decision,
  authorize_machine_action, approved_or_waiting, after_guard, after_approval, attempt_action,
  settle, on_step, run_machine_activity,
}

module _ (digest : MachineAction → String) (c : CapabilityRecord) (run_id step_id : String)
    (build : Result MachineAction) where
  abbrev after_with : M Dict → MachineAction → Option Dict → M Dict
  after_with ex = after_guard digest c run_id step_id build ex

  -- Only an allowed action passes the guard without waiting.
  unanswered :
      (a : MachineAction) (d : Decision) (w : World)
      → d ≢ allow
      → (on_decision digest a d w).0 ≢ ok none
  unfolding on_decision machine_event
  unanswered a allow w n h = n refl
  unanswered a deny w n h = cc h
  unanswered a approval_required w n h =
      let r =
        >>=-Returned (gets (approval_of_step a.step_id) >>= ensure_pending digest a)
          (λ waiting. pure (some waiting)) w h in
      cc r.second

  -- the guard allows it
  abbrev pub Allowed : MachineAction → Type 0
  Allowed a = (reason : String) × (evaluate c (ref c ∷ []) none ≡ ok (allow, reason))

  -- The action is not executed: whatever `execute` would do, it makes no difference.
  abbrev pub Ignores : (M Dict → M Dict) → World → Type 0
  Ignores run w = (ex ex' : M Dict) → run ex w ≡ run ex' w

  answered-Allowed :
      (a : MachineAction) (w : World)
      → (authorize_machine_action digest c a w).0 ≡ ok none
      → Allowed a
  unfolding authorize_machine_action
  answered-Allowed a w h =
      let r = >>=-Returned (authorize c (machine_request digest c a)) (on_decision digest a) w h in
      from r.value (authorize c (machine_request digest c a) w).1
        (authorize-evaluate c (machine_request digest c a) w r.first) r.second
    where
      from :
          (d : Decision) (v : World)
          → (reason : String) × (evaluate c (ref c ∷ []) none ≡ ok (d, reason))
          → (on_decision digest a d v).0 ≡ ok none
          → Allowed a
      from allow v e g = e
      from deny v e g = absurd (unanswered a deny v (λ x. cc x) g)
      from approval_required v e g = absurd (unanswered a approval_required v (λ x. cc x) g)

  ignores_guard :
      (a : MachineAction) (w : World) (r : Result (Option Dict))
      → (authorize_machine_action digest c a w).0 ≡ r
      → r ≢ ok none
      → Ignores (λ ex. authorize_machine_action digest c a >>= after_with ex a) w
  unfolding after_guard
  ignores_guard a w r e n ex ex' =
      >>=-cong (after_with ex a) (after_with ex' a) (authorize_machine_action digest c a) w
        λ o g. ignored o (authorize_machine_action digest c a w).1 (sym e ∙ g)
    where
      ignored :
          (o : Option Dict) (v : World) → r ≡ ok o → after_with ex a o v ≡ after_with ex' a o v
      ignored none v g = absurd (n g)
      ignored (some waiting) v g = refl

  guarded :
      (a : MachineAction) (w : World)
      → Allowed a ⊎ Ignores (λ ex. authorize_machine_action digest c a >>= after_with ex a) w
  guarded a w = from (authorize_machine_action digest c a w).0 refl
    where
      from :
          (r : Result (Option Dict))
          → (authorize_machine_action digest c a w).0 ≡ r
          → Allowed a ⊎ Ignores (λ ex. authorize_machine_action digest c a >>= after_with ex a) w
      from (ok none) e = inl (answered-Allowed a w e)
      from (ok (some x)) e = inr (ignores_guard a w (ok (some x)) e (λ g. cc g))
      from (err x) e = inr (ignores_guard a w (err x) e (λ g. cc g))

  -- What lets an action through: an approval of this very action that was granted, or, where none
  -- was asked for, the guard.
  abbrev pub Cleared : MachineAction → World → Type 0
  Cleared a w =
      ((k : String) × (r : Approval) × (approval_of_step a.step_id w ≡ some (k, r))
        × (r.action_digest ≡ digest a)
        × (r.status ≡ ApprovalStatus.approved))
      ⊎ (approval_of_step a.step_id w ≡ none) × Allowed a

  -- a step that waits for an approval has asked for one
  abbrev pub HasAsked : Step → MachineAction → World → Type 0
  HasAsked row a w = is_waiting_approval row.status ≡ true → approval_of_step a.step_id w ≢ none

  abbrev acts : Step → MachineAction → M Dict → M Dict
  acts row a ex = attempt_action digest c run_id step_id build ex row a

  abbrev goes : Step → MachineAction → M Dict → Option Dict → M Dict
  goes row a ex = after_approval digest c run_id step_id build ex row a

  no_approval :
      (row : Step) (a : MachineAction) (w : World)
      → HasAsked row a w
      → approval_of_step a.step_id w ≡ none
      → Cleared a w ⊎ Ignores (λ ex. goes row a ex none) w
  unfolding after_approval
  no_approval row a w asked e = from (is_waiting_approval row.status) refl (guarded a w)
    where
      from :
          (b : Bool)
          → is_waiting_approval row.status ≡ b
          → Allowed a ⊎ Ignores (λ ex. authorize_machine_action digest c a >>= after_with ex a) w
          → Cleared a w ⊎ Ignores (λ ex. goes row a ex none) w
      from true y g = absurd (asked y e)
      from false y (inl allowed) = inl (inr (e, allowed))
      from false y (inr g) = inr (λ ex ex'. rw y (g ex ex'))

  abbrev through : Step → MachineAction → Option (String × Approval) → M Dict → M Dict
  through row a o ex = approved_or_waiting digest a o >>= goes row a ex

  with_approval :
      (row : Step) (a : MachineAction) (w : World) (k : String) (r : Approval)
      → Unexpired a.step_id w
      → approval_of_step a.step_id w ≡ some (k, r)
      → Cleared a w ⊎ Ignores (through row a (some (k, r))) w
  unfolding approved_or_waiting after_approval machine_event
  with_approval row a w k r unexpired e = from (r.action_digest == digest a) refl r.status refl
    where
      from :
          (b : Bool)
          → (r.action_digest == digest a) ≡ b
          → (s : ApprovalStatus) → r.status ≡ s
          → Cleared a w ⊎ Ignores (through row a (some (k, r))) w
      from false y s t = inr (λ ex ex'. rw y refl)
      from true y ApprovalStatus.pending t = inr (λ ex ex'. rw (y, t) refl)
      from true y ApprovalStatus.rejected t = inr (λ ex ex'. rw (y, t) refl)
      from true y ApprovalStatus.approved t =
          inl (inl (k, r, e, (eq_iff r.action_digest (digest a)).0 y, t))
      from true y ApprovalStatus.expired t = absurd (unexpired k r e t)

  attempt_action-Cleared :
      (row : Step) (a : MachineAction) (w : World)
      → Unexpired a.step_id w
      → HasAsked row a w
      → Cleared a w ⊎ Ignores (acts row a) w
  unfolding attempt_action
  attempt_action-Cleared row a w unexpired asked = from (approval_of_step a.step_id w) refl
    where
      from :
          (o : Option (String × Approval))
          → approval_of_step a.step_id w ≡ o
          → Cleared a w ⊎ Ignores (through row a o) w
      from none e = unfold approved_or_waiting in no_approval row a w asked e
      from (some (k, r)) e = with_approval row a w k r unexpired e

  -- A machine action whose step is not done, whose approval, if there is one, is not expired, and
  -- which has an approval row if its step waits for one: it is executed only if that row is for the
  -- digest of this very action and is approved, or if there is no row and the guard allows the
  -- capability. Otherwise what `execute` would do makes no difference to the result or to the
  -- database.
  pub run_machine_activity-Cleared :
      (row : Step) (a : MachineAction) (w : World)
      → Table.get step_id w.steps ≡ some row
      → is_succeeded row.status ≡ false
      → build ≡ ok a
      → Unexpired a.step_id w
      → HasAsked row a w
      → Cleared a w ⊎ Ignores (run_machine_activity digest c run_id step_id build) w
  unfolding run_machine_activity on_step
  run_machine_activity-Cleared row a w h s b unexpired asked =
      from (attempt_action-Cleared row a w unexpired asked)
    where
      attempted : M Dict → M Dict
      attempted ex = attempt (acts row a ex) >>= settle run_id step_id

      fetched : fetch_step step_id w ≡ (ok row, w)
      fetched = rw h refl

      ran : (ex : M Dict) → run_machine_activity digest c run_id step_id build ex w ≡ attempted ex w
      ran ex =
          >>=-step (fetch_step step_id) (on_step digest c run_id step_id build ex) w fetched
          ∙ rw (s, b) refl

      from :
          Cleared a w ⊎ Ignores (acts row a) w
          → Cleared a w ⊎ Ignores (run_machine_activity digest c run_id step_id build) w
      from (inl x) = inl x
      from (inr g) =
          inr
            (λ ex ex'. ran ex ∙ ap (λ x. settle run_id step_id x.0 x.1) (g ex ex') ∙ sym (ran ex'))
