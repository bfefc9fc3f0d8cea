-- ===== src/Improvement/Proposals.antt =====
-- backend/src/awf/improvement/proposals.py, from the tables up to `merge` and `reject`. Git, the
-- files and sha256 are parameters: a read is a function of the state of the disk, and an action
-- changes it. What `_serialize` adds to a row for display is left out, so an operation returns the
-- row that it shows.
pub mod Review
pub mod Merging
pub mod Draft
pub mod Operations
use Prim.Native.Nat.{Ordering}
use Prim.Native.String.{compare as compare_text}
use jarvis_awf.Prelude.{
  ℕ, String, ◌<>◌, Bool, true, false, not, ◌&&◌, ◌||◌, Option, none, some, List, [], ◌∷◌, ◌++◌,
  ◌==◌, ltb, nat_eq, if◌then◌else◌,
}
use jarvis_awf.Prelude.Table
use jarvis_awf.Json.{
  Value, null, bool, str, arr, obj, Items, Dict, end, field, get, get_truthy, text_items,
}
use jarvis_awf.Json.Convert.{dict_of}
use jarvis_awf.Exec.{
  Exn, Result, ok, err, plain, improvement_proposal_error, Exec, pure, raise, lift, gets, when,
  or_raise, attempt, ◌>>=◌, ◌>>◌,
}
use jarvis_awf.Database.{World, M, Step, Artifact, read_disk, uuid7, utc_now_rfc3339}
use jarvis_awf.Database.Proposals.{
  ProposalStatus, draft, ready_for_review, approved, merged, rejected, abandoned, Proposal,
  ProposalEventType, ProposalEvent,
}
use jarvis_awf.Database.Proposals

-- the file that an artifact names
pub data Content : Type 0 where
  absent not_json : Content
  holds : Value → Content

pub record Repository : Type 0 where
  -- `git branch --show-current` in the repository, and in the worktree of a run
  pub current_branch : ℕ → Result String
  pub worktree_branch : String → ℕ → Result String
  pub has_worktree : String → ℕ → Bool
  pub worktree_head : String → ℕ → Result String
  pub rev_parse : String → ℕ → Result String
  pub merge_base : String → String → ℕ → Result String
  pub diff : String → String → ℕ → Result String
  pub changed_paths : String → String → ℕ → Result Items
  -- `git status --porcelain`
  pub status : ℕ → Result String
  pub content : Artifact → ℕ → Content
  pub remove_worktree : String → Exec ℕ Unit
  pub sha256 : String → String
  -- the sha256 of the JSON text of a dict
  pub json_digest : Dict → String

abbrev pub refuse : {A : Type 0} → String → M A
refuse text = raise (plain improvement_proposal_error text)

abbrev pub append_event : ProposalEvent → M Unit
append_event e w = (ok tt, record w { proposal_events = w.proposal_events ++ e ∷ [] })

-- _event
unfoldable pub note : String → ProposalEventType → Dict → M Unit
note improvement_id event_type payload = do
  event_id ← uuid7
  now ← utc_now_rfc3339
  append_event (record {
    event_id = event_id;
    improvement_id = improvement_id;
    event_type = event_type;
    occurred_at = now;
    actor = "awf";
    payload_json = payload;
  })

-- _proposal_row
abbrev pub proposal_row : String → M Proposal
proposal_row k w =
    or_raise (plain improvement_proposal_error "no such improvement proposal")
      (Table.get k w.proposals) w

abbrev pub update_proposal : String → (Proposal → Proposal) → M Unit
update_proposal k f w = (ok tt, record w { proposals = Table.update k f w.proposals })

-- whether (started_at, step_id) of the first is the greater
abbrev is_later : String × Step → String × Step → Bool
is_later (j, s) (k, t) =
    ltb t.started_at s.started_at
    || nat_eq t.started_at s.started_at
      && elim (compare_text j k) [ Ordering.gt ↦ true | _ ↦ false ]

abbrev greater : String × Step → Option (String × Step) → Option (String × Step)
greater a none = some a
greater a (some b) = if is_later a b then some a else some b

greatest : String → List (String × Step) → Option (String × Step)
greatest run_id [] = none
greatest run_id ((k, s) ∷ rest) =
    let found = greatest run_id rest in if s.run_id == run_id then greater (k, s) found else found

abbrev key_of : Option (String × Step) → Option String
key_of none = none
key_of (some (k, s)) = some k

-- _latest_step_id
unfoldable pub latest_step_id : String → M String
unfolding greatest
latest_step_id run_id w =
    or_raise
      (plain improvement_proposal_error "the run has no steps to attach improvement artifacts")
      (key_of (greatest run_id (Table.rows w.steps))) w

abbrev pub merge_node_id : String
merge_node_id = "improvement.merge"

abbrev pub merge_step_id : String → String → String
merge_step_id run_id improvement_id = run_id <> (":improvement-merge:" <> improvement_id)

abbrev optional_text : Option String → Value
optional_text none = null
optional_text (some s) = str s

abbrev pub merge_action_payload : String → Proposal → Dict
merge_action_payload improvement_id row = field "kind" (str "improvement_merge") (
    field "improvement_id" (str improvement_id) (
      field "run_id" (str row.run_id) (
        field "target_branch" (str row.target_branch) (
          field "base_commit" (str row.base_commit) (
            field "candidate_branch" (str row.candidate_branch) (
              field "candidate_commit" (str row.candidate_commit) (
                field "diff_digest" (str row.diff_digest) (
                  field "verdict_artifact_id" (optional_text row.verdict_artifact_id) (
                    field "validation_artifact_ids" (arr (text_items row.validation_artifact_ids))
                      end)))))))))

-- the artifacts of a run of a type, the latest first; of two at one time the earlier row first
abbrev pub insert_latest : Artifact → List Artifact → List Artifact
insert_latest a [] = a ∷ []
insert_latest a (b ∷ bs) =
    let rest = insert_latest a bs in if ltb a.created_at b.created_at then b ∷ rest else a ∷ b ∷ bs

unfoldable pub latest_artifacts : String → String → List (String × Artifact) → List Artifact
latest_artifacts run_id type [] = []
latest_artifacts run_id type ((k, a) ∷ rest) =
    let found = latest_artifacts run_id type rest in
    if a.run_id == run_id && (a.artifact_type == type) then insert_latest a found else found

abbrev pub is_true : Option Value → Bool
is_true (some (bool b)) = b
is_true _ = false

abbrev pub is_text : String → Option Value → Bool
is_text s (some (str t)) = t == s
is_text s _ = false

-- `data.get("candidate_commit") == candidate_commit and data.get("passed") is True`
abbrev pub accepts : String → Dict → Bool
accepts candidate_commit d =
    is_text candidate_commit (get "candidate_commit" d) && is_true (get "passed" d)

abbrev pub is_closed : ProposalStatus → Bool
is_closed merged = true
is_closed rejected = true
is_closed abandoned = true
is_closed _ = false

abbrev pub may_be_ready : ProposalStatus → Bool
may_be_ready draft = true
may_be_ready ready_for_review = true
may_be_ready _ = false

abbrev pub is_ready : ProposalStatus → Bool
is_ready ready_for_review = true
is_ready _ = false
