-- ===== src/Approvals/Decide/Voice.antt =====
-- What a voice can and cannot approve.
use jarvis_awf.Prelude.{
  String, ◌≡◌, ◌⊎◌, inl, inr, refl, ap, ◌∙◌, Bool, true, false, Option, none, some, arith, eq_iff,
  Bool-cases, if◌then◌else◌,
}
use jarvis_awf.Prelude.Table
use jarvis_awf.Exec.{ok, core_op_error}
use jarvis_awf.Exec.Inversion.{>>=-step}
use jarvis_awf.Database.{World, Approval, RiskClass, r2, r3}
use jarvis_awf.Guard.{risk_name}
use jarvis_awf.Approvals.Decide.{
  is_high_risk, voice_decides, effective_risk, is_mismatch, fetch_approval, missing,
  approve_by_voice, op_approval_approve,
}

-- a stored risk class that a voice may not approve, or none and no claim
abbrev pub IsBeyondVoice : Option RiskClass → Option String → Type 0
IsBeyondVoice none claimed = claimed ≡ none
IsBeyondVoice (some r) claimed = (r ≡ r2) ⊎ (r ≡ r3)

high_of_class : (r : RiskClass) → (r ≡ r2) ⊎ (r ≡ r3) → voice_decides (risk_name r) true ≡ false
unfolding is_high_risk
high_of_class r (inl h) = rw h refl
high_of_class r (inr h) = rw h refl

same_branches : {A : Type 0} (b : Bool) (x : A) → (if b then x else x) ≡ x
same_branches true x = refl
same_branches false x = refl

refused_by_voice :
    (claimed : Option String) (stored : Option RiskClass)
    → IsBeyondVoice stored claimed
    → is_mismatch claimed stored ≡ false
    → voice_decides (effective_risk claimed stored) true ≡ false
unfolding is_high_risk
refused_by_voice claimed none b m = rw b refl
refused_by_voice none (some r) b m = high_of_class r b
refused_by_voice (some c) (some r) b m =
    let same : c ≡ risk_name r = (eq_iff c (risk_name r)).0 (ground arith) in
    rw (same, same_branches) (high_of_class r b)

module _ (k : String) (claimed : Option String) (w : World) where
  approve_by_voice-unchanged :
      (stored : Option RiskClass)
      → IsBeyondVoice stored claimed
      → (approve_by_voice k claimed stored w).1 ≡ w
  unfolding approve_by_voice
  approve_by_voice-unchanged stored b = elim (Bool-cases (is_mismatch claimed stored)) [
    | inl m ↦ rw m refl
    | inr m ↦ rw (m, refused_by_voice claimed stored b m) refl
  ]

  fetched :
      (row : Approval)
      → Table.get k w.approvals ≡ some row
      → fetch_approval (missing core_op_error) k w ≡ (ok row, w)
  fetched row h = rw h refl

  -- Over the voice channel an R2 or R3 approval, or one with no risk class for which none is
  -- claimed, is never decided, whatever risk class the caller claims: the database is as it was.
  pub op_approval_approve-voice :
      (row : Approval)
      → Table.get k w.approvals ≡ some row
      → IsBeyondVoice row.risk_class claimed
      → (op_approval_approve k "voice" claimed w).1 ≡ w
  unfolding op_approval_approve
  op_approval_approve-voice row h b =
      ap (λ x. x.1)
        (>>=-step (fetch_approval (missing core_op_error) k)
          (λ a. approve_by_voice k claimed a.risk_class) w (fetched row h))
      ∙ approve_by_voice-unchanged row.risk_class b
