-- ===== src/Approval/Lost.antt =====
-- internal/approval/gate.go over a SQLite store: a decision between the write of the pending row and
-- the registration of the channel.
use riskkernel.Base.{◌≡◌, refl, String, str_eq, Bool, true, false, none, some, Time, if◌then◌else◌}
use riskkernel.Storage.{
  ApprovalRecord, approval_pending, approval_approved, approval_denied, not_found, ok, err,
}
use riskkernel.Storage.Sqlite.{Engine, Db, sqlite_approvals}
use riskkernel.Storage.Tables.{resolve_approval_once}
use riskkernel.Approval.{Policy, requires}
use riskkernel.Approval.Gate.{
  Request, Gate, find_waiter, pending_record, still_waiting, open_request, register, await, resolve,
  write_decision, deliver,
}
use riskkernel.Approval.Decisions.{
  IsReady, open_ready, resolve_ready, register-store, register-waiter, with_row, decided_db,
}

module _ {D : Type 0} ⦃E : Engine D⦄ where
  -- A second decision on a row that is decided.
  resolve_again :
      (rec : ApprovalRecord) (a b : Bool) (why who why' who' : String) (now later : Time)
      (g : Gate (Db D)) (db : Db D)
      → g.store ≡ some (decided_db db rec a why who now)
      → resolve rec.id b why' who' later g
        ≡ (record g { store = some (decided_db db rec a why who now) }, err not_found)
  unfolding resolve decided_db
  resolve_again rec a b why who why' who' now later g db e =
      rw (e, write_decision)
        (rw (
          resolve_approval_once rec.id (if a then approval_approved else approval_denied) why who
            (if b then approval_approved else approval_denied) why' who' now later (with_row db rec)
            (decided_status a)))
    where
      decided_status :
          (a : Bool)
          → str_eq (if a then approval_approved else approval_denied) approval_pending ≡ false
      decided_status true = refl
      decided_status false = refl

  -- A decision that is taken after the pending row is written and before the channel is registered
  -- is lost: under the conditions of a new request (the run has its row, the minted id is unused
  -- in the SQLite store and among the waiters, and the policy asks for approval), Resolve reports
  -- success, the call then waits, and the next decision does not wake it, since it is answered
  -- `ErrNotFound`.
  pub early_decision_lost :
      (req : Request) (policy : Policy) (fresh why who why' who' : String) (a b : Bool)
      (now soon later : Time) (g : Gate (Db D)) (db : Db D)
      → IsReady g db req fresh
      → requires policy req.tool req.side_effect ≡ true
      → find_waiter fresh g.waiters ≡ none
      → let (g₁, o) = open_request req policy fresh now g in
        let (g₂, res) = resolve fresh a why who soon g₁ in
        let g₃ = register (pending_record req fresh now) g₂ in
        let (g₄, res') = resolve fresh b why' who' later g₃ in
        (res ≡ ok tt)
        × ((await fresh false true g₃).1 ≡ still_waiting)
        × (res' ≡ err not_found)
        × ((await fresh false true g₄).1 ≡ still_waiting)
  unfolding await
  early_decision_lost req policy fresh why who why' who' a b now soon later g db r need free =
      let rec = pending_record req fresh now in
      let g₁ = record g { store = some (with_row db rec) } in
      let g₂ = record g { store = some (decided_db db rec a why who soon) } in
      let g₃ = register rec g₂ in
      rw (open_ready req policy fresh now g db r need) (
        rw (resolve_ready rec a why who soon g₁ db refl refl) (
          rw (free, deliver)
            (rw (resolve_again rec a b why who why' who' soon later g₃ db (register-store rec g₂))
              (refl, rw (register-waiter rec g₂), refl, rw (register-waiter rec g₂)))))
