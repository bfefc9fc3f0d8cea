-- ===== src/Gates/Findings/Verdicts.antt =====
-- The verdict as a function of its findings.
use jarvis_awf.Prelude.{
  Bool, ◌++◌, ◌≡◌, ◌≢◌, ◌↔◌, refl, Bool, true, false, not, ◌&&◌, List, [], ◌∷◌, arith, All,
}
use jarvis_awf.Gates.Findings.{Finding, Severity, Tier, is_failing, build_verdict}

-- A finding that does not fail the verdict by itself.
abbrev pub IsTolerable : Finding → Type 0
IsTolerable f = is_failing f.severity ≡ false

-- its severity is neither high nor critical
abbrev pub IsMinor : Finding → Type 0
IsMinor f = (f.severity ≢ Severity.high) × (f.severity ≢ Severity.critical)

minor_iff :
    (s : Severity) → (is_failing s ≡ false) ↔ ((s ≢ Severity.high) × (s ≢ Severity.critical))
minor_iff s = (λ h. (λ e. ground arith, λ e. ground arith), λ h. ground arith)

module _ (tier : Tier) where
  abbrev pub passes : List Finding → Bool
  passes fs = (build_verdict fs tier).passed

  pub passes-cons :
      (f : Finding) (fs : List Finding)
      → passes (f ∷ fs) ≡ (not (is_failing f.severity) && passes fs)
  unfolding build_verdict
  passes-cons f fs = ground arith

  passes-All : (fs : List Finding) → passes fs ≡ true → All IsTolerable fs
  passes-All [] h = tt
  passes-All (f ∷ fs) h =
      let p : (not (is_failing f.severity) && passes fs) ≡ true = rw passes-cons at h in
      (ground arith, passes-All fs (ground arith))

  All-passes : (fs : List Finding) → All IsTolerable fs → passes fs ≡ true
  All-passes [] h = unfold build_verdict in refl
  All-passes (f ∷ fs) h = rw passes-cons (ground (arith, All-passes fs h.1))

  pub passes-append : (fs gs : List Finding) → passes (fs ++ gs) ≡ (passes fs && passes gs)
  passes-append [] gs = unfold build_verdict in refl
  passes-append (f ∷ fs) gs =
      rw (passes-cons, passes-cons, passes-append fs gs)
        (and_assoc (not (is_failing f.severity)) (passes fs) (passes gs))
    where
      and_assoc : (a b c : Bool) → (a && (b && c)) ≡ ((a && b) && c)
      and_assoc true b c = refl
      and_assoc false b c = refl

  tolerable_of : (fs : List Finding) → All IsTolerable fs → All IsMinor fs
  tolerable_of [] h = tt
  tolerable_of (f ∷ fs) h = ((minor_iff f.severity).0 h.0, tolerable_of fs h.1)

  minor_of : (fs : List Finding) → All IsMinor fs → All IsTolerable fs
  minor_of [] h = tt
  minor_of (f ∷ fs) h = ((minor_iff f.severity).1 h.0, minor_of fs h.1)

  -- The verdict passes exactly when no finding has the severity high or critical.
  pub build_verdict-passed_iff : (fs : List Finding) → (passes fs ≡ true) ↔ All IsMinor fs
  build_verdict-passed_iff fs =
      (λ h. tolerable_of fs (passes-All fs h), λ h. All-passes fs (minor_of fs h))
