-- ===== src/Workflow/Attempts/Retries.antt =====
-- How often a node is attempted.
use jarvis_awf.Prelude.{
  ℕ, zero, suc, ◌+◌, ◌-◌, ◌*◌, ◌^◌, ◌≤◌, ◌<◌, String, ◌≡◌, refl, ap, ◌∙◌, Bool, true, false, ◌&&◌,
  arith, Bool-cases, if◌then◌else◌, inl, inr, ltb,
}
use jarvis_awf.Json.{Dict}
use jarvis_awf.Exec.{Result, ok, ◌>>◌, pure}
use jarvis_awf.Exec.Inversion.{>>=-step}
use jarvis_awf.Database.{World, M}
use jarvis_awf.Workflow.Definition.{Node, NodeRetryPolicy}
use jarvis_awf.Workflow.Attempts.{
  NodeExecutor, is_retryable, is_self_stepping, one_attempt, schedule_retry, try_node,
}

-- The action does not raise.
abbrev Quiet : {A : Type 0} → M A → World → Type 0
Quiet {A} m w = (a : A) × (v : World) × (m w ≡ (ok a, v))

module _ (run_id : String) (node : Node) (executor : NodeExecutor) (policy : NodeRetryPolicy) where
  one_attempt-Quiet :
      (number : ℕ) (w : World) → Quiet (one_attempt run_id node executor policy number) w
  unfolding one_attempt
  one_attempt-Quiet number w = elim (Bool-cases (is_self_stepping node.type)) [
    | inl e ↦ rw e (_, _, refl)
    | inr e ↦ rw e (_, _, refl)
  ]

  schedule_retry-Quiet :
      (outcome : Result Dict) (number before : ℕ) (w : World)
      → Quiet (schedule_retry run_id node executor policy outcome number before) w
  unfolding schedule_retry
  schedule_retry-Quiet outcome number before w =
      elim (Bool-cases
        (policy.jitter && ltb 0 (policy.backoff_seconds * policy.backoff_factor ^ before))) [
          | inl j ↦ elim (Bool-cases (is_self_stepping node.type)) [
            | inl e ↦ rw (j, e) (_, _, refl)
            | inr e ↦ rw (j, e) (_, _, refl)
          ]
          | inr j ↦ elim (Bool-cases (is_self_stepping node.type)) [
            | inl e ↦ rw (j, e) (_, _, refl)
            | inr e ↦ rw (j, e) (_, _, refl)
          ]
        ]

  -- the last outcome after so many attempts of `left` retries and one more
  pub record Attempted (left attempts : ℕ) (outcome : Result Dict) (after : ℕ) : Type 0 where
    pub more : attempts < after
    pub bounded : after ≤ attempts + left + 1
    pub spent : is_retryable policy outcome ≡ true → after ≡ attempts + left + 1

  -- The attempts of a node never raise, they are at most one more than the retries of the policy,
  -- and the last of them failed in a retryable way only if the retries are used up.
  pub try_node-Attempted :
      (left attempts : ℕ) (w : World)
      → (outcome : Result Dict) × (after : ℕ) × ((try_node run_id node executor policy left attempts
            w).0
          ≡ ok (outcome, after))
        × Attempted left attempts outcome after
  unfolding try_node
  try_node-Attempted zero attempts w =
      let (o, v, e) = one_attempt-Quiet (attempts + 1) w in
      (
        o,
        attempts + 1,
        ap (λ x. x.0)
            (>>=-step (one_attempt run_id node executor policy (attempts + 1))
              (λ outcome. pure (outcome, attempts + 1)) w e),
        record { more = omega arith; bounded = omega arith; spent = λ _. omega arith },
      )
  try_node-Attempted (suc left) attempts w =
      let (o, v, e) = one_attempt-Quiet (attempts + 1) w in
      let (p, q, r, a) =
        after (λ u. try_node-Attempted left (attempts + 1) u) o v (is_retryable policy o) refl in
      (
        p,
        q,
        ap (λ x. x.0) (>>=-step (one_attempt run_id node executor policy (attempts + 1)) next w e)
            ∙ r,
        a,
      )
    where
      retried : Result Dict → M (Result Dict × ℕ)
      retried outcome =
          schedule_retry run_id node executor policy outcome (attempts + 1)
            (policy.max_retries - suc left)
          >> try_node run_id node executor policy left (attempts + 1)

      next : Result Dict → M (Result Dict × ℕ)
      next outcome =
          if is_retryable policy outcome then retried outcome else pure (outcome, attempts + 1)

      after :
          ((u : World)
            → (outcome : Result Dict) × (after : ℕ) × ((try_node run_id node executor policy left
                  (attempts + 1)
                  u).0
                ≡ ok (outcome, after))
              × Attempted left (attempts + 1) outcome after)
          → (o : Result Dict) (v : World) (b : Bool) → is_retryable policy o ≡ b
          → (outcome : Result Dict) × (after : ℕ) × (((if b
                  then retried o
                  else pure (o, attempts + 1))
                v).0
              ≡ ok (outcome, after))
            × Attempted (suc left) attempts outcome after
      after rest o v false e = (
        o,
        attempts + 1,
        refl,
        record { more = omega arith; bounded = omega arith; spent = λ c. absurd (cc (c, e)) },
      )
      after rest o v true e =
          let (u, x, s) = schedule_retry-Quiet o (attempts + 1) (policy.max_retries - suc left) v in
          let (p, q, r, a) = rest x in
          (
            p,
            q,
            ap (λ y. y.0)
                  (>>=-step
                    (schedule_retry run_id node executor policy o (attempts + 1)
                      (policy.max_retries - suc left))
                    (λ _. try_node run_id node executor policy left (attempts + 1)) v s)
                ∙ r,
            record {
              more = omega (arith, a.more);
              bounded = omega (arith, a.bounded);
              spent = λ c. omega (arith, a.spent c);
            },
          )
