-- ===== src/Approvals/Decide.antt =====
-- backend/src/awf/approval_policy.py, ops/approval.py and gates/voice_approval.py. The risk class of
-- a call is any text; that of a row is one of the four, or NULL.
pub mod Voice
pub mod Once
use jarvis_awf.Prelude.{
  ℕ, String, Bool, true, false, not, ◌&&◌, ◌||◌, Option, none, some, List, [], ◌∷◌, ◌==◌, member,
  if◌then◌else◌,
}
use jarvis_awf.Prelude.Table
use jarvis_awf.Json.{Value, null, bool, str, Dict, end, field, merge}
use jarvis_awf.Exec.{
  Exn, ExnClass, Result, ok, err, plain, core_op_error, value_error, pure, raise, gets, or_raise,
  ◌>>=◌, ◌>>◌,
}
use jarvis_awf.Database.{
  World, M, Approval, ApprovalStatus, pending, approved, rejected, expired, is_pending, RiskClass,
  update_approval, utc_now_rfc3339,
}
use jarvis_awf.Guard.{risk_name}

-- `risk_class in HIGH_RISK_CLASSES`
unfoldable pub is_high_risk : String → Bool
is_high_risk risk_class = member risk_class ("R2" ∷ "R3" ∷ [])

-- decide_voice_acknowledgement: what it decides, and the dict that says so
abbrev pub voice_decides : String → Bool → Bool
voice_decides risk_class confirmed = not (is_high_risk risk_class) && confirmed

abbrev pub decide_voice_acknowledgement : String → Bool → Dict
decide_voice_acknowledgement risk_class confirmed =
    field "decided" (bool (voice_decides risk_class confirmed)) (
      field "requires_on_screen_confirmation" (bool (is_high_risk risk_class))
        (field "channel" (str "voice") end))

abbrev pub status_text : ApprovalStatus → String
status_text pending = "pending"
status_text approved = "approved"
status_text rejected = "rejected"
status_text expired = "expired"

abbrev optional : Option String → Value
optional none = null
optional (some s) = str s

abbrev pub fetch_approval : Exn → String → M Approval
fetch_approval e approval_id w = or_raise e (Table.get approval_id w.approvals) w

abbrev pub missing : ExnClass → Exn
missing c = plain c "no such approval"

abbrev pub decided : ApprovalStatus → Option String → ℕ → Approval → Approval
decided s reason now row = record row { status = s; reason = reason; decided_at = some now }

abbrev answer : String → ApprovalStatus → Option String → Dict
answer approval_id s reason =
    field "approval_id" (str approval_id)
      (field "status" (str (status_text s)) (field "reason" (optional reason) end))

-- the two reads, the guard and the UPDATE that _decide_approval and attempt_voice_approval share
unfoldable pub decide_row : ExnClass → String → ApprovalStatus → Option String → Approval → M Dict
decide_row c approval_id s reason row =
    if not (is_pending row.status) then raise (plain c "approval is not pending") else do
      now ← utc_now_rfc3339
      update_approval approval_id (decided s reason now)
      pure (answer approval_id s reason)

unfoldable pub decide : ExnClass → String → ApprovalStatus → Option String → M Dict
decide c approval_id s reason =
    fetch_approval (missing c) approval_id >>= decide_row c approval_id s reason

-- _decide_approval
abbrev pub decide_approval : String → ApprovalStatus → Option String → M Dict
decide_approval = decide core_op_error

-- `risk_class or stored_risk_class or "R2"`
abbrev pub effective_risk : Option String → Option RiskClass → String
effective_risk claimed stored = from claimed
  where
    from_stored : Option RiskClass → String
    from_stored none = "R2"
    from_stored (some r) = risk_name r

    from : Option String → String
    from none = from_stored stored
    from (some claim) = if claim == "" then from_stored stored else claim

-- the caller claims another risk class than the one that is stored
abbrev pub is_mismatch : Option String → Option RiskClass → Bool
is_mismatch (some claim) (some r) = not (claim == risk_name r)
is_mismatch _ _ = false

abbrev pub needs_screen : String → Dict
needs_screen approval_id =
    field "approval_id" (str approval_id)
      (field "status" (str "pending") (field "requires_on_screen_confirmation" (bool true) end))

-- the branch of the voice channel, once the row is read
unfoldable pub approve_by_voice : String → Option String → Option RiskClass → M Dict
approve_by_voice approval_id claimed stored =
    if is_mismatch claimed stored
    then raise (plain core_op_error "risk_class does not match this approval's real risk_class")
    else if voice_decides (effective_risk claimed stored) true
    then (decide_approval approval_id approved none >>= λ result.
        pure (merge (decide_voice_acknowledgement (effective_risk claimed stored) true) result))
    else pure (needs_screen approval_id)

unfoldable pub op_approval_approve : String → String → Option String → M Dict
op_approval_approve approval_id channel claimed =
    if channel == "voice"
    then (fetch_approval (missing core_op_error) approval_id >>= λ row.
        approve_by_voice approval_id claimed row.risk_class)
    else decide_approval approval_id approved none

abbrev pub op_approval_reject : String → String → M Dict
op_approval_reject approval_id reason = decide_approval approval_id rejected (some reason)

-- gates/voice_approval.attempt_voice_approval
unfoldable pub attempt_voice_approval : String → String → Bool → M Dict
attempt_voice_approval approval_id risk_class confirmed =
    if voice_decides risk_class confirmed
    then (decide value_error approval_id approved none >>= λ result.
        pure (merge (decide_voice_acknowledgement risk_class confirmed) result))
    else pure (decide_voice_acknowledgement risk_class confirmed)
