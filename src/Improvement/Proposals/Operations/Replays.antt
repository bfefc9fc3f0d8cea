-- ===== src/Improvement/Proposals/Operations/Replays.antt =====
-- The rows of the proposals and their events agree.
use jarvis_awf.Prelude.{
  String, ◌≡◌, refl, sym, ap, ◌∙◌, Bool, true, false, Option, none, some, List, [], ◌∷◌, ◌++◌, ◌==◌,
  if◌then◌else◌,
}
use mathlib.Core.Option
use jarvis_awf.Prelude.Table
use jarvis_awf.Prelude.Table.{Table, get-update, get-insert_new}
use jarvis_awf.Database.{World}
use jarvis_awf.Database.Proposals.{Proposal, ProposalStatus, ProposalEvent}
use jarvis_awf.Improvement.Proposals.Operations.{status_after, replay}

-- the status of a row is the one that its events lead to
abbrev pub Agrees : Table Proposal → List ProposalEvent → Type 0
Agrees rows events =
    (k : String) (p : Proposal)
    → Table.get k rows ≡ some p
    → p.status ≡ replay k ProposalStatus.draft events

abbrev pub Replayed : World → Type 0
Replayed w = Agrees w.proposals w.proposal_events

replay-append :
    (k : String) (s : ProposalStatus) (es : List ProposalEvent) (e : ProposalEvent)
    → replay k s (es ++ e ∷ [])
      ≡ (if e.improvement_id == k then status_after (replay k s es) e.event_type else replay k s es)
replay-append k s [] e = refl
replay-append k s (d ∷ es) e =
    replay-append k (if d.improvement_id == k then status_after s d.event_type else s) es e

-- an event that changes no status
pub Agrees-note :
    (rows : Table Proposal) (events : List ProposalEvent) (e : ProposalEvent)
    → ((s : ProposalStatus) → status_after s e.event_type ≡ s)
    → Agrees rows events
    → Agrees rows (events ++ e ∷ [])
Agrees-note rows events e same h k p g =
    h k p g ∙ kept (e.improvement_id == k) ∙ sym (replay-append k ProposalStatus.draft events e)
  where
    s : ProposalStatus
    s = replay k ProposalStatus.draft events

    kept : (b : Bool) → s ≡ (if b then status_after s e.event_type else s)
    kept true = sym (same s)
    kept false = refl

-- an UPDATE of the status with its event
pub Agrees-update :
    (rows : Table Proposal) (events : List ProposalEvent) (f : Proposal → Proposal)
    (e : ProposalEvent)
    → ((p : Proposal) (s : ProposalStatus) → (f p).status ≡ status_after s e.event_type)
    → Agrees rows events
    → Agrees (Table.update e.improvement_id f rows) (events ++ e ∷ [])
Agrees-update rows events f e moved h k p g =
    from (e.improvement_id == k) (Table.get k rows) (sym (get-update e.improvement_id k f rows) ∙ g)
      (h k)
    ∙ sym (replay-append k ProposalStatus.draft events e)
  where
    s : ProposalStatus
    s = replay k ProposalStatus.draft events

    from :
        (b : Bool) (o : Option Proposal)
        → (if b then Option.map f o else o) ≡ some p
        → ((q : Proposal) → o ≡ some q → q.status ≡ s)
        → p.status ≡ (if b then status_after s e.event_type else s)
    from true none g h = absurd (cc g)
    from true (some q) g h = let same : f q ≡ p = cc g in ap (λ x. x.status) (sym same) ∙ moved q s
    from false o g h = h p g

-- an INSERT with its event
pub Agrees-insert :
    (rows : Table Proposal) (events : List ProposalEvent) (row : Proposal) (e : ProposalEvent)
    → Table.get e.improvement_id rows ≡ none
    → ((s : ProposalStatus) → row.status ≡ status_after s e.event_type)
    → Agrees rows events
    → Agrees (Table.insert_new e.improvement_id row rows) (events ++ e ∷ [])
Agrees-insert rows events row e fresh moved h k p g =
    from (e.improvement_id == k) (sym (get-insert_new e.improvement_id k row rows fresh) ∙ g)
    ∙ sym (replay-append k ProposalStatus.draft events e)
  where
    s : ProposalStatus
    s = replay k ProposalStatus.draft events

    from :
        (b : Bool)
        → (if b then some row else Table.get k rows) ≡ some p
        → p.status ≡ (if b then status_after s e.event_type else s)
    from true g = let same : row ≡ p = cc g in ap (λ x. x.status) (sym same) ∙ moved s
    from false g = h k p g
