-- ===== src/Gates/Node/Bypasses.antt =====
-- What a gate makes of a bypassed guard.
use jarvis_awf.Prelude.{
  ℕ, String, ◌≡◌, refl, sym, ap, ◌∙◌, Bool, true, false, ◌&&◌, Option, none, some, List, [], ◌∷◌,
  ◌++◌, arith, any,
}
use jarvis_awf.Json.{Dict, get_truthy}
use jarvis_awf.Exec.{ok, pure, ◌>>=◌}
use jarvis_awf.Exec.Inversion.{>>=-Returned, ok-injective}
use jarvis_awf.Database.{World}
use jarvis_awf.Gates.Findings.{
  Finding, build_verdict, check_resource_safety, check_safety_gate_bypass,
  check_memory_contamination,
}
use jarvis_awf.Gates.Findings.Verdicts.{passes, passes-append}
use jarvis_awf.Gates.Artifacts.{write_finding_artifacts, write_verdict_artifact}
use jarvis_awf.Gates.Node.{
  GateConfig, is_high_risk, is_bypass, present, attacked, ask_review, contamination,
  adversary_checks, adversary_findings, gate_output, conclude, judge, verifier_findings, note_tier,
  gate_fn,
}

-- no bypass finding
abbrev Harmless : Option Finding → Type 0
Harmless none = Unit
Harmless (some f) = is_bypass f.category ≡ false

resource-Harmless : (ceiling : ℕ) (u : Option ℕ) → Harmless (check_resource_safety ceiling u)
unfolding check_resource_safety
resource-Harmless ceiling none = tt
resource-Harmless ceiling (some u) = ground arith

memory-Harmless :
    (run_id : String) (ids : List String) (files : Option (List (String × String)))
    → Harmless (check_memory_contamination run_id ids files)
unfolding check_memory_contamination
memory-Harmless run_id ids none = tt
memory-Harmless run_id [] (some files) = tt
memory-Harmless run_id (i ∷ ids) (some []) = tt
memory-Harmless run_id (i ∷ ids) (some ((name, path) ∷ files)) =
    ground (arith, memory-Harmless run_id (i ∷ ids) (some files))

abbrev has_bypass : List Finding → Bool
has_bypass fs = any (λ f. is_bypass f.category) fs

bypass-present :
    (a c : Option Finding) (b : Bool)
    → Harmless a
    → Harmless c
    → has_bypass (present (a ∷ check_safety_gate_bypass b ∷ c ∷ [])) ≡ b
unfolding check_safety_gate_bypass
bypass-present a c b h k = ground arith

module _ (sha256 : Dict → String) (run_id step_id : String) (g : GateConfig) where
  contamination-Harmless :
      (o : Option (Option (List (String × String)))) (w : World)
      → Harmless (contamination sha256 run_id step_id g o w)
  unfolding contamination
  contamination-Harmless none w = tt
  contamination-Harmless (some files) w = memory-Harmless run_id _ files

  checks-bypass :
      (w : World) → has_bypass (adversary_checks sha256 run_id step_id g w) ≡ g.guard_bypassed
  unfolding adversary_checks
  checks-bypass w =
      bypass-present (check_resource_safety g.ceiling g.utilization)
        (contamination sha256 run_id step_id g g.scratch_files w) g.guard_bypassed
        (resource-Harmless g.ceiling g.utilization) (contamination-Harmless g.scratch_files w)

  fails_of_bypass :
      g.guard_bypassed ≡ true
      → (a c : Option Finding)
      → passes g.tier (present (a ∷ check_safety_gate_bypass g.guard_bypassed ∷ c ∷ [])) ≡ false
  unfolding check_safety_gate_bypass build_verdict
  fails_of_bypass h a c = ground arith

  checks-fail :
      (w : World)
      → g.guard_bypassed ≡ true
      → passes g.tier (adversary_checks sha256 run_id step_id g w) ≡ false
  unfolding adversary_checks
  checks-fail w h =
      fails_of_bypass h (check_resource_safety g.ceiling g.utilization)
        (contamination sha256 run_id step_id g g.scratch_files w)

  -- what the adversary's part found: the flag, and what it does to the verdict
  record Judged (high : Bool) (p : List Finding × Bool) : Type 0 where
    flag : p.1 ≡ (high && g.guard_bypassed)
    fails : (high && g.guard_bypassed) ≡ true → passes g.tier p.0 ≡ false

  adversary_findings-Judged :
      (high : Bool) (w : World) {p : List Finding × Bool}
      → (adversary_findings sha256 run_id step_id g high w).0 ≡ ok p
      → Judged high p
  unfolding adversary_findings
  adversary_findings-Judged false w {p} h =
      let same : ([], false) ≡ p = ok-injective h in
      record { flag = ap (λ x. x.1) (sym same); fails = λ c. absurd (cc c) }
  adversary_findings-Judged true w {p} h =
      let found = adversary_checks sha256 run_id step_id g w in
      let a =
        >>=-Returned
          (ask_review sha256 run_id step_id g (attacked sha256 run_id step_id g) g.adversary_review)
          (λ more. pure (found ++ more, has_bypass found)) w h in
      let same : (found ++ a.value, has_bypass found) ≡ p = ok-injective a.second in
      record {
        flag = ap (λ x. x.1) (sym same) ∙ checks-bypass w;
        fails = λ c.
            ap (λ x. passes g.tier x.0) (sym same)
            ∙ passes-append g.tier found a.value
            ∙ ap (λ b. b && passes g.tier a.value) (checks-fail w c);
      }

  conclude-output :
      (first : List Finding) (p : List Finding × Bool) (w : World) {output : Dict}
      → (conclude sha256 run_id step_id g first p w).0 ≡ ok output
      → (k : String) × (output
          ≡ gate_output sha256 run_id step_id g (build_verdict (first ++ p.0) g.tier) p.1 k)
  unfolding conclude
  conclude-output first (more, t) w h =
      let verdict = build_verdict (first ++ more) g.tier in
      let a =
        >>=-Returned (write_finding_artifacts sha256 run_id step_id (first ++ more))
          (λ _. write_verdict_artifact sha256 run_id step_id verdict >>= λ k.
            pure (gate_output sha256 run_id step_id g verdict t k))
          w h in
      let b =
        >>=-Returned (write_verdict_artifact sha256 run_id step_id verdict)
          (λ k. pure (gate_output sha256 run_id step_id g verdict t k))
          (write_finding_artifacts sha256 run_id step_id (first ++ more) w).1 a.second in
      (b.value, sym (ok-injective b.second))

  abbrev bypassed : Bool
  bypassed = is_high_risk g.tier && g.guard_bypassed

  -- the output of the gate on these findings
  abbrev Bypassing : Dict → Type 0
  Bypassing output =
      (get_truthy "terminal_failure" output ≡ bypassed)
      × ((bypassed && get_truthy "passed" output) ≡ false)

  output-Bypassing :
      (first : List Finding) (p : List Finding × Bool) (k : String)
      → Judged (is_high_risk g.tier) p
      → Bypassing (gate_output sha256 run_id step_id g (build_verdict (first ++ p.0) g.tier) p.1 k)
  output-Bypassing first p k j = (j.flag, stops bypassed refl)
    where
      stops : (b : Bool) → bypassed ≡ b → (b && passes g.tier (first ++ p.0)) ≡ false
      stops false e = refl
      stops true e =
          passes-append g.tier first p.0
          ∙ ap (λ b. passes g.tier first && b) (j.fails e)
          ∙ and_false (passes g.tier first)
        where
          and_false : (b : Bool) → (b && false) ≡ false
          and_false true = refl
          and_false false = refl

  judge-Bypassing :
      (first : List Finding) (w : World) {output : Dict}
      → (judge sha256 run_id step_id g first w).0 ≡ ok output
      → Bypassing output
  unfolding judge
  judge-Bypassing first w h =
      let a =
        >>=-Returned (adversary_findings sha256 run_id step_id g (is_high_risk g.tier))
          (conclude sha256 run_id step_id g first) w h in
      let (k, same) = conclude-output first a.value _ a.second in
      rw same (
        output-Bypassing first a.value k
          (adversary_findings-Judged (is_high_risk g.tier) w a.first))

  -- A gate that concludes reports a terminal failure exactly where its tier is high-risk and the
  -- guard was bypassed, and there it does not pass, whatever the check and the models say.
  pub gate_fn-Bypassing :
      (payload : Dict) (w : World) {output : Dict}
      → (gate_fn sha256 run_id step_id g payload w).0 ≡ ok output
      → (get_truthy "terminal_failure" output ≡ (is_high_risk g.tier && g.guard_bypassed))
        × (((is_high_risk g.tier && g.guard_bypassed) && get_truthy "passed" output) ≡ false)
  unfolding gate_fn
  gate_fn-Bypassing payload w h =
      let a =
        >>=-Returned (note_tier sha256 run_id step_id g g.tier_reason)
          (λ _. verifier_findings sha256 run_id step_id g >>= judge sha256 run_id step_id g) w h in
      let w1 = (note_tier sha256 run_id step_id g g.tier_reason w).1 in
      let b =
        >>=-Returned (verifier_findings sha256 run_id step_id g) (judge sha256 run_id step_id g) w1
          a.second in
      judge-Bypassing b.value (verifier_findings sha256 run_id step_id g w1).1 b.second
