-- ===== src/Approval/Stale.antt =====
-- internal/httpapi/slack.go over the SQLite backend: a click on an approval that has been decided
-- elsewhere.
use riskkernel.Base.{
  ◌≡◌, refl, ap, ◌∙◌, String, str_eq, true, false, ◌||◌, Option, none, some, Time,
}
use riskkernel.Storage.{
  ApprovalRecord, approval_approved, approval_denied, not_found, Result, ok, err,
}
use riskkernel.Storage.Sqlite.{
  Db, Engine, sqlite_approvals, found, is_pending_row, decided, affected, get_approval,
  resolve_approval,
}
use riskkernel.Storage.Tables.{update-unaffected}
use riskkernel.Storage.Lookups.{HasUniqueIds, pending_rows, affected-pending}
use riskkernel.Approval.Gate.{Gate, resolve}
use riskkernel.Approval.Slack.{
  SlackAction, slack_name, update_resolved, read_approval, act_on, act_parsed,
}

is_found : {A : Type 0} (o : Option A) (a : A) → found o ≡ ok a → o ≡ some a
is_found none a h = cc
is_found (some b) a h = cc

module _ {D : Type 0} ⦃E : Engine D⦄ where
  -- The update of a decision on a denied approval touches no row.
  none_affected :
      (aid : String) (a : ApprovalRecord) (change : ApprovalRecord → ApprovalRecord) (db : Db D)
      → get_approval aid db ≡ ok a
      → a.status ≡ approval_denied
      → HasUniqueIds db.approvals
      → affected (is_pending_row aid) db.approvals ≡ 0
  unfolding get_approval
  none_affected aid a change db there denied unique =
      affected-pending aid change db.approvals unique
      ∙ (ap (pending_rows aid change) (is_found _ a there) ∙ rw denied refl)

  -- So the decision is refused, and the database stays.
  refuses :
      (aid status reason by : String) (now : Time) (a : ApprovalRecord) (db : Db D)
      → get_approval aid db ≡ ok a
      → a.status ≡ approval_denied
      → HasUniqueIds db.approvals
      → resolve_approval aid status reason by now db ≡ (err not_found, db)
  unfolding resolve_approval
  refuses aid status reason by now a db there denied unique =
      let none_left = none_affected aid a (decided status reason by now) db there denied unique in
      rw none_left
        (rw (update-unaffected (is_pending_row aid) (decided status reason by now) _ none_left))

  gate_refuses :
      (aid reason by : String) (now : Time) (a : ApprovalRecord) (g : Gate (Db D)) (db : Db D)
      → g.store ≡ some db
      → get_approval aid db ≡ ok a
      → a.status ≡ approval_denied
      → HasUniqueIds db.approvals
      → resolve aid true reason by now g ≡ (g, err not_found)
  unfolding resolve
  gate_refuses aid reason by now a g db store there denied unique =
      rw store (rw (refuses aid approval_approved reason by now a db there denied unique) refl)

  -- A click on Approve for an approval that a SQLite store has as denied, where the ids of the approvals
  -- are distinct: the decision is refused, the gate and the store stay as they are, and yet the Slack message is
  -- rewritten to say that the call was approved.
  pub stale_click_claims_approval :
      (act : SlackAction) (a : ApprovalRecord) (stamp : Time) (g : Gate (Db D)) (db : Db D)
      → g.store ≡ some db
      → get_approval act.approval_id db ≡ ok a
      → a.status ≡ approval_denied
      → HasUniqueIds db.approvals
      → act.approve ≡ true
      → (str_eq act.channel "" || str_eq act.message_ts "") ≡ false
      → act_parsed (some act) stamp g ≡ (
        g,
        record { status = 200; update = some (record { says_approved = true; approval = a }) },
      )
  unfolding update_resolved
  stale_click_claims_approval act a stamp g db store there denied unique click shown =
      let read : read_approval g.store act.approval_id ≡ ok a =
        ap (λ (o : Option (Db D)). read_approval o act.approval_id) store ∙ there in
      let refused =
        gate_refuses act.approval_id "via Slack" (slack_name act.by) stamp a g db store there denied
          unique in
      ap (λ (o : Result ApprovalRecord). act_on act o stamp g) read
      ∙ rw click (rw refused (rw shown))
