-- ===== src/Approval/Decisions.antt =====
-- internal/approval/gate.go over a SQLite store: how a decision meets the call that waits for it.
use riskkernel.Base.{
  ◌≡◌, refl, String, str_eq, str_eq_iff, Bool, true, false, Option, none, some, List, [], ◌∷◌, ◌++◌,
  arith, is_some, Time, if◌then◌else◌,
}
use riskkernel.Storage.{
  ApprovalRecord, approval_pending, approval_approved, approval_denied, ok, ApprovalStore,
}
use riskkernel.Storage.Sqlite.{
  Engine, Db, sqlite_approvals, select_one, affected, has_run, create_approval, resolve_approval,
  is_pending_row, resolution,
}
use riskkernel.Approval.{Policy, requires}
use riskkernel.Approval.Gate.{
  Decision, Request, Gate, find_waiter, put_waiter, delete_waiter, pending_record, opened, decided,
  open_request, register, await, resolve, write_decision, after_decision,
}

find_waiter-put_waiter :
    (k : String) (c : Option Decision) (m : List (String × Option Decision))
    → find_waiter k (put_waiter k c m) ≡ some c
find_waiter-put_waiter k c [] = rw ((str_eq_iff k k).1 refl)
find_waiter-put_waiter k c ((j, d) ∷ m) =
    ground (arith, str_eq_iff k k, str_eq_iff j k, find_waiter-put_waiter k c m)

find_waiter-delete_waiter :
    (k : String) (m : List (String × Option Decision)) → find_waiter k (delete_waiter k m) ≡ none
find_waiter-delete_waiter k [] = refl
find_waiter-delete_waiter k ((j, d) ∷ m) = ground (arith, find_waiter-delete_waiter k m)

-- An UPDATE that hits the row added last affects a row.
resolution-append :
    (hit : ApprovalRecord → Bool) (rows : List ApprovalRecord) (r : ApprovalRecord)
    → hit r ≡ true
    → resolution (affected hit (rows ++ r ∷ [])) ≡ ok tt
resolution-append hit [] r h = rw h
resolution-append hit (q ∷ rows) r h = ground (arith, resolution-append hit rows r h)

module _ {S : Type 0} ⦃B : ApprovalStore S⦄ where
  pub register-store : (rec : ApprovalRecord) (g : Gate S) → (register rec g).store ≡ g.store
  unfolding register
  register-store rec g = ground arith

  pub register-waiter :
      (rec : ApprovalRecord) (g : Gate S) → find_waiter rec.id (register rec g).waiters ≡ some none
  unfolding register
  register-waiter rec g = ground (arith, find_waiter-put_waiter rec.id none g.waiters)

pack3 : {A B C E : Type 0} → E → A × B × C → E × A × B × C
pack3 e (a, b, c) = (e, a, b, c)

module _ {D : Type 0} ⦃E : Engine D⦄ where
  -- A gate over a store in which the run has its row and no approval has the id that is minted.
  pub record IsReady (g : Gate (Db D)) (db : Db D) (req : Request) (fresh : String) : Type 0 where
    pub stored : g.store ≡ some db
    pub known_run : has_run req.run_id db ≡ true
    pub unused :
        is_some (select_one (λ (a : ApprovalRecord). str_eq a.id fresh) db.approvals) ≡ false

  unfoldable pub with_row : Db D → ApprovalRecord → Db D
  with_row db rec = record db { approvals = db.approvals ++ rec ∷ [] }

  pub open_ready :
      (req : Request) (policy : Policy) (fresh : String) (now : Time) (g : Gate (Db D)) (db : Db D)
      → IsReady g db req fresh
      → requires policy req.tool req.side_effect ≡ true
      → open_request req policy fresh now g ≡ (
        record g { store = some (with_row db (pending_record req fresh now)) },
        opened (pending_record req fresh now),
      )
  unfolding open_request create_approval with_row
  open_ready req policy fresh now g db r need = rw (need, r.stored, r.known_run, r.unused)

  -- The store after the decision on a row that was just added.
  unfoldable pub decided_db : Db D → ApprovalRecord → Bool → String → String → Time → Db D
  decided_db db rec approve why who now =
      (resolve_approval rec.id (if approve then approval_approved else approval_denied) why who now
        (with_row db rec)).1

  pub resolve_ready :
      (rec : ApprovalRecord) (approve : Bool) (why who : String) (now : Time) (g : Gate (Db D))
      (db : Db D)
      → g.store ≡ some (with_row db rec)
      → rec.status ≡ approval_pending
      → resolve rec.id approve why who now g
        ≡ after_decision
            (ok tt)
            rec.id
            (record { approved = approve; reason = why; by = who })
            (record g { store = some (decided_db db rec approve why who now) })
  unfolding resolve decided_db resolve_approval with_row
  resolve_ready rec approve why who now g db e p =
      rw (e, write_decision)
        (rw (resolution-append (is_pending_row rec.id) db.approvals rec (pending_hit rec p)))
    where
      pending_hit :
          (rec : ApprovalRecord) → rec.status ≡ approval_pending → is_pending_row rec.id rec ≡ true
      pending_hit rec p = rw (p, (str_eq_iff rec.id rec.id).1 refl)

  waited :
      (rec : ApprovalRecord) (approve : Bool) (why who : String) (now : Time) (g : Gate (Db D))
      (db : Db D)
      → g.store ≡ some (with_row db rec)
      → rec.status ≡ approval_pending
      → find_waiter rec.id g.waiters ≡ some none
      → let (g', res) = resolve rec.id approve why who now g in
        let (g₄, w) = await rec.id false true g' in
        (res ≡ ok tt)
        × (w ≡ decided (record { approved = approve; reason = why; by = who }))
        × (find_waiter rec.id g₄.waiters ≡ none)
  unfolding await
  waited rec approve why who now g db e p h =
      let d : Decision = record { approved = approve; reason = why; by = who } in
      rw (resolve_ready rec approve why who now g db e p) (
        rw h (
          refl,
          ground (arith, find_waiter-put_waiter rec.id (some d) g.waiters),
          ground (
            arith,
            find_waiter-put_waiter rec.id (some d) g.waiters,
            find_waiter-delete_waiter rec.id (put_waiter rec.id (some d) g.waiters),
          ),
        ))

  -- A decision that is taken while the call waits reaches it: over a SQLite store in which the run
  -- has its row and the minted id is unused, for a call that the policy puts before a human, and
  -- with the channel registered, Resolve succeeds, the waiting call is given exactly that
  -- decision, and no waiter is left under the id.
  pub decision_arrives :
      (req : Request) (policy : Policy) (fresh why who : String) (approve : Bool) (now later : Time)
      (g : Gate (Db D)) (db : Db D)
      → IsReady g db req fresh
      → requires policy req.tool req.side_effect ≡ true
      → let (g₁, o) = open_request req policy fresh now g in
        let g₂ = register (pending_record req fresh now) g₁ in
        let (g₃, res) = resolve fresh approve why who later g₂ in
        let (g₄, w) = await fresh false true g₃ in
        (o ≡ opened (pending_record req fresh now))
        × (res ≡ ok tt)
        × (w ≡ decided (record { approved = approve; reason = why; by = who }))
        × (find_waiter fresh g₄.waiters ≡ none)
  decision_arrives req policy fresh why who approve now later g db r need =
      let rec = pending_record req fresh now in
      let g₁ = record g { store = some (with_row db rec) } in
      rw (open_ready req policy fresh now g db r need) (
        pack3 refl (
          waited rec approve why who later (register rec g₁) db (register-store rec g₁) refl
            (register-waiter rec g₁)))
