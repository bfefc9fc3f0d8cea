-- ===== src/Database.antt =====
-- The tables of backend/src/awf/db/schema.py that the engine works on, and the statements that it
-- runs on them. A connection sees its own writes, so `commit` is no step of the model. Timestamps
-- are the readings of a clock, and `uuid7` takes the next identifier of a supply.
mod Rows
pub mod Proposals
pub use Rows.*
use jarvis_awf.Prelude.{ℕ, ◌+◌, String, ◌≡◌, Bool, Option, none, some, List, [], ◌∷◌, ◌++◌}
use jarvis_awf.Prelude.Table
use jarvis_awf.Prelude.Table.{Table}
use jarvis_awf.Json.{Dict}
use jarvis_awf.Json
use jarvis_awf.Database.Proposals.{Proposal, ProposalEvent}
use jarvis_awf.Exec.{Exec, Result, ok, plain, type_error, pure, or_raise, ◌>>=◌}

-- What the program reads from outside the database.
pub record Outside : Type 0 where
  pub uuid : ℕ → String
  pub clock : ℕ → ℕ
  -- `random.uniform(0.5 * d, 1.5 * d)`, at the n-th reading
  pub uniform : ℕ → ℕ → ℕ
  -- `str.isalnum` of the characters beyond ASCII
  pub alnum : ℕ → Bool

pub record World : Type 0 where
  pub runs : Table Run
  pub steps : Table Step
  pub events : List Event
  pub approvals : Table Approval
  pub artifacts : Table Artifact
  pub sessions : Table Session
  pub entries : List Entry
  pub proposals : Table Proposal
  pub proposal_events : List ProposalEvent
  pub registry_index : List IndexRow
  pub outside : Outside
  pub issued : ℕ
  pub readings : ℕ
  -- what the files and the repositories hold, as a number; the reads and writes of them are arguments
  pub disk : ℕ

abbrev pub M : Type 0 → Type 0
M A = Exec World A

-- clock.utc_now_rfc3339
abbrev pub utc_now_rfc3339 : M ℕ
utc_now_rfc3339 w = (ok (w.outside.clock w.readings), record w { readings = w.readings + 1 })

-- ids.uuid7
abbrev pub uuid7 : M String
uuid7 w = (ok (w.outside.uuid w.issued), record w { issued = w.issued + 1 })

-- a read of the files, and an action on them
abbrev pub on_disk : {A : Type 0} → Exec ℕ A → M A
on_disk m w = let (r, d) = m w.disk in (r, record w { disk = d })

abbrev pub read_disk : {A : Type 0} → (ℕ → Result A) → M A
read_disk f w = (f w.disk, w)

abbrev pub update_run : String → (Run → Run) → M Unit
update_run k f w = (ok tt, record w { runs = Table.update k f w.runs })

abbrev pub update_step : String → (Step → Step) → M Unit
update_step k f w = (ok tt, record w { steps = Table.update k f w.steps })

abbrev pub update_approval : String → (Approval → Approval) → M Unit
update_approval k f w = (ok tt, record w { approvals = Table.update k f w.approvals })

-- `row = SELECT ... FROM steps WHERE step_id = ?`, where `row["status"]` of a missing row raises
abbrev pub fetch_step : String → M Step
fetch_step k w =
    or_raise (plain type_error "'NoneType' object is not subscriptable") (Table.get k w.steps) w

-- `SELECT * FROM approvals WHERE step_id = ?`
abbrev pub approval_of_step : String → World → Option (String × Approval)
approval_of_step k w = Table.find (λ _ row. for_step k row) w.approvals

-- what a caller of events/writer.write_event passes
pub record EventArgs : Type 0 where
  pub run : String
  pub step : Option String
  pub prior : Option String
  pub status : String
  pub actor : String
  pub reason : String
  pub payload : Dict

-- events/writer.write_event
abbrev pub event_row : EventArgs → World → Event
event_row a w = record {
  event_id = w.outside.uuid w.issued;
  run_id = a.run;
  step_id = a.step;
  prior_status = a.prior;
  new_status = a.status;
  occurred_at = w.outside.clock w.readings;
  actor = a.actor;
  reason_code = a.reason;
  payload_json = a.payload;
}

-- events/writer.write_event: the identifier, the clock, then the INSERT
abbrev pub write_event : EventArgs → M String
write_event a w = (
  ok (w.outside.uuid w.issued),
  record w {
    events = w.events ++ event_row a w ∷ [];
    issued = w.issued + 1;
    readings = w.readings + 1;
  },
)
