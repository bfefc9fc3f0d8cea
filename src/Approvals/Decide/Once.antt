-- ===== src/Approvals/Decide/Once.antt =====
-- A decision is taken once.
use jarvis_awf.Prelude.{
  String, ◌≡◌, ◌≢◌, refl, ◌∙◌, true, false, Option, none, some, arith, eq_refl, Bool-cases, inl,
  inr,
}
use jarvis_awf.Prelude.Table
use jarvis_awf.Prelude.Table.{get-update}
use jarvis_awf.Json.{Dict}
use jarvis_awf.Exec.{ExnClass, Exn, ok, err, plain, ◌>>=◌, or_raise}
use jarvis_awf.Exec.Inversion.{>>=-step}
use jarvis_awf.Database.{World, Approval, ApprovalStatus, is_pending}
use jarvis_awf.Approvals.Decide.{decide, decide_row, fetch_approval, missing, decided}

module _ (k : String) where
  -- the row was pending, and now has this status and this reason
  pub record Decided (s : ApprovalStatus) (reason : Option String) (w v : World) : Type 0 where
    pub before : Approval
    pub after : Approval
    pub found : Table.get k w.approvals ≡ some before
    pub was_pending : is_pending before.status ≡ true
    pub kept : Table.get k v.approvals ≡ some after
    pub status : after.status ≡ s
    pub reason_given : after.reason ≡ reason
    pub risk : after.risk_class ≡ before.risk_class

  fetched :
      (e : Exn) (w : World) (row : Approval)
      → Table.get k w.approvals ≡ some row
      → fetch_approval e k w ≡ (ok row, w)
  fetched e w row h = rw h refl

  refused_again :
      (c : ExnClass) (s : ApprovalStatus) (reason : Option String) (w : World) (row : Approval)
      → Table.get k w.approvals ≡ some row
      → is_pending row.status ≡ false
      → decide c k s reason w ≡ (err (plain c "approval is not pending"), w)
  unfolding decide decide_row
  refused_again c s reason w row h p =
      >>=-step (fetch_approval (missing c) k) (decide_row c k s reason) w
        (fetched (missing c) w row h)
      ∙ rw p refl

  update_self :
      (f : Approval → Approval) (w : World) (row : Approval)
      → Table.get k w.approvals ≡ some row
      → Table.get k (Table.update k f w.approvals) ≡ some (f row)
  update_self f w row h = rw (get-update, eq_refl, h)

  decide_row-Decided :
      (c : ExnClass) (s : ApprovalStatus) (reason : Option String) (w : World) (row : Approval)
      {d : Dict}
      → Table.get k w.approvals ≡ some row
      → (decide_row c k s reason row w).0 ≡ ok d
      → Decided s reason w (decide_row c k s reason row w).1
  unfolding decide_row
  decide_row-Decided c s reason w row h g = elim (Bool-cases (is_pending row.status)) [
    | inl p ↦ rw p (record {
      before = row;
      after = decided s reason (w.outside.clock w.readings) row;
      found = h;
      was_pending = p;
      kept = update_self (decided s reason (w.outside.clock w.readings)) w row h;
      status = refl;
      reason_given = refl;
      risk = refl;
    })
    | inr p ↦ absurd (ground arith)
  ]

  decide-Decided :
      (c : ExnClass) (s : ApprovalStatus) (reason : Option String) (w : World) {d : Dict}
      → (decide c k s reason w).0 ≡ ok d
      → Decided s reason w (decide c k s reason w).1
  unfolding decide
  decide-Decided c s reason w {d} h = from (Table.get k w.approvals) refl h
    where
      from :
          (o : Option Approval)
          → Table.get k w.approvals ≡ o
          → ((or_raise (missing c) o >>= decide_row c k s reason) w).0 ≡ ok d
          → Decided s reason w ((or_raise (missing c) o >>= decide_row c k s reason) w).1
      from none e g = absurd (cc g)
      from (some row) e g = decide_row-Decided c s reason w row e g

  -- A decision that is taken closes the approval with its status and reason, and no other decision,
  -- of this operation or of another, changes it after that.
  pub decide-final :
      (c : ExnClass) (s : ApprovalStatus) (reason : Option String) (w : World) {d : Dict}
      → s ≢ ApprovalStatus.pending
      → (decide c k s reason w).0 ≡ ok d
      → Decided s reason w (decide c k s reason w).1
        × ((c' : ExnClass) (s' : ApprovalStatus) (reason' : Option String)
            → decide c' k s' reason' (decide c k s reason w).1
              ≡ (err (plain c' "approval is not pending"), (decide c k s reason w).1))
  decide-final c s reason w n h =
      let d = decide-Decided c s reason w h in
      (
        d,
        λ c' s' reason'.
            refused_again c' s' reason' (decide c k s reason w).1 d.after d.kept (closed d.status),
      )
    where
      closed : {t : ApprovalStatus} → t ≡ s → is_pending t ≡ false
      closed {t} e = ground arith
