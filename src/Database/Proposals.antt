-- ===== src/Database/Proposals.antt =====
-- The rows of improvement_proposals and improvement_proposal_events, from
-- backend/src/awf/db/schema.py. `target_repo` is always '.', and `merge_commit` is the text of a
-- commit.
use jarvis_awf.Prelude.{ℕ, String, Option, List}
use jarvis_awf.Json.{Dict, Items}

pub data ProposalStatus : Type 0 where
  draft ready_for_review approved merged rejected abandoned : ProposalStatus

pub record Proposal : Type 0 where
  pub run_id : String
  pub target_branch : String
  pub base_commit : String
  pub candidate_branch : String
  pub candidate_commit : String
  pub diff_digest : String
  pub patch_artifact_id : String
  pub status : ProposalStatus
  pub summary : String
  pub changed_paths : Items
  pub verdict_artifact_id : Option String
  pub validation_artifact_ids : List String
  pub merge_commit : Option String
  pub created_at : ℕ
  pub updated_at : ℕ
  pub decided_at : Option ℕ
  pub closed_at : Option ℕ

pub data ProposalEventType : Type 0 where
  created updated evaluation_completed ready_for_review : ProposalEventType
  merge_requested merge_failed merged rejected : ProposalEventType

pub record ProposalEvent : Type 0 where
  pub event_id : String
  pub improvement_id : String
  pub event_type : ProposalEventType
  pub occurred_at : ℕ
  pub actor : String
  pub payload_json : Dict
