-- ===== src/Database/Rows.antt =====
-- The rows of the tables, from backend/src/awf/db/schema.py.
use jarvis_awf.Prelude.{ℕ, String, Bool, true, false, Option, ◌==◌}
use jarvis_awf.Json.{Dict}
use jarvis_awf.Exec.{FailureClass}

pub data RunStatus : Type 0 where
  created validating queued running waiting_input waiting_approval : RunStatus
  succeeded failed canceling canceled : RunStatus

pub record Run : Type 0 where
  pub workflow_ref : String
  pub status : RunStatus
  pub input_json : Dict
  pub output_json : Option Dict
  pub created_at : ℕ
  pub updated_at : ℕ

pub data StepStatus : Type 0 where
  pending ready running waiting_input waiting_approval : StepStatus
  retry_wait succeeded failed skipped canceled : StepStatus

pub record Step : Type 0 where
  pub run_id : String
  pub node_id : String
  pub attempt : ℕ
  pub status : StepStatus
  pub input_json : Dict
  pub output_json : Option Dict
  pub failure_class : Option FailureClass
  pub started_at : ℕ
  pub ended_at : Option ℕ

pub record Event : Type 0 where
  pub event_id : String
  pub run_id : String
  pub step_id : Option String
  pub prior_status : Option String
  pub new_status : String
  pub occurred_at : ℕ
  pub actor : String
  pub reason_code : String
  pub payload_json : Dict

pub data ApprovalStatus : Type 0 where
  pending approved rejected expired : ApprovalStatus

pub data RiskClass : Type 0 where
  r0 r1 r2 r3 : RiskClass

pub record Approval : Type 0 where
  pub run_id : String
  pub step_id : String
  pub action_digest : String
  pub status : ApprovalStatus
  pub reason : Option String
  pub requested_at : ℕ
  pub decided_at : Option ℕ
  pub risk_class : Option RiskClass

-- of the artifact rows, what a foreign key and the selections read
pub record Artifact : Type 0 where
  pub run_id : String
  pub step_id : String
  pub sha256 : String
  pub media_type : String
  pub artifact_type : String
  pub created_at : ℕ

pub data SessionStatus : Type 0 where
  active expired summarized : SessionStatus

pub record Session : Type 0 where
  pub title : Option String
  pub status : SessionStatus
  pub summary : Option String
  pub created_at : ℕ
  pub updated_at : ℕ
  pub expires_at : Option ℕ

-- a row of active_session_entries; the list of the entries is in the order of rowid
pub record Entry : Type 0 where
  pub entry_id : String
  pub session_id : String
  pub role : String
  pub content_json : Dict
  pub summary : Option String
  pub created_at : ℕ

abbrev pub is_succeeded : StepStatus → Bool
is_succeeded StepStatus.succeeded = true
is_succeeded _ = false

abbrev pub is_waiting_approval : StepStatus → Bool
is_waiting_approval StepStatus.waiting_approval = true
is_waiting_approval _ = false

abbrev pub is_pending : ApprovalStatus → Bool
is_pending ApprovalStatus.pending = true
is_pending _ = false

-- `WHERE step_id = ?` on approvals
abbrev pub for_step : String → Approval → Bool
for_step k row = row.step_id == k

pub data Source : Type 0 where
  config data_dir : Source

pub data TrustStatus : Type 0 where
  local trusted quarantined blocked : TrustStatus

-- where a registry object lies: its root, its kind, its name and its version
pub record ObjectPath : Type 0 where
  pub source : Source
  pub kind : String
  pub name : String
  pub version : String

pub record IndexRow : Type 0 where
  pub kind : String
  pub name : String
  pub version : String
  pub digest : String
  pub source : Source
  pub path : ObjectPath
  pub trust_status : Option TrustStatus
  pub indexed_at : ℕ
