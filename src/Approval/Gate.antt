-- ===== src/Approval/Gate.antt =====
-- internal/approval/gate.go: the approval queue. A blocked call is a waiter: a channel with room for
-- one decision, under the id of its approval. `RequestUnder` is three steps, between which other
-- callers run: it persists the pending row (`open_request`), it registers its channel and notifies
-- (`register`), and it waits (`await`). `fresh` is what `newID` mints.
use riskkernel.Base.{
  ℤ, String, str_eq, Bool, true, false, Option, none, some, List, [], ◌∷◌, ◌++◌, if◌then◌else◌,
  Time,
}
use riskkernel.Storage.{
  ApprovalRecord, approval_pending, approval_approved, approval_denied, StoreError, Result, ok, err,
  ApprovalStore,
}
use riskkernel.Approval.{Policy, requires}

pub record Decision : Type 0 where
  pub approved : Bool
  pub reason : String
  pub by : String

pub record Request : Type 0 where
  pub run_id : String
  pub step_index : ℤ
  pub tool : String
  pub side_effect : String
  pub arguments : String

-- A channel holds at most one decision. `notifier` says whether a push channel is configured, and
-- `notified` is what has been pushed to it.
pub record Gate (S : Type 0) : Type 0 where
  pub store : Option S
  pub policy : Policy
  pub notifier : Bool
  pub waiters : List (String × Option Decision)
  pub notified : List ApprovalRecord

abbrev pub find_waiter : String → List (String × Option Decision) → Option (Option Decision)
find_waiter k [] = none
find_waiter k ((j, c) ∷ m) = if str_eq j k then some c else find_waiter k m

abbrev pub put_waiter :
    String → Option Decision → List (String × Option Decision) → List (String × Option Decision)
put_waiter k c [] = (k, c) ∷ []
put_waiter k c ((j, d) ∷ m) = if str_eq j k then (k, c) ∷ m else (j, d) ∷ put_waiter k c m

abbrev pub delete_waiter :
    String → List (String × Option Decision) → List (String × Option Decision)
delete_waiter k [] = []
delete_waiter k ((j, d) ∷ m) =
    let rest = delete_waiter k m in if str_eq j k then rest else (j, d) ∷ rest

-- The row of a new request.
abbrev pub pending_record : Request → String → Time → ApprovalRecord
pending_record req fresh now = record {
  id = fresh;
  run_id = req.run_id;
  step_index = req.step_index;
  tool = req.tool;
  side_effect = req.side_effect;
  arguments = req.arguments;
  status = approval_pending;
  reason = "";
  decided_by = "";
  created_at = now;
  decided_at = none;
}

-- How the first step ends: no approval is needed, the row could not be written, or it is pending.
pub data Opening : Type 0 where
  allowed : Opening
  refused : StoreError → Opening
  opened : ApprovalRecord → Opening

-- What `select` gives: a decision, the context's error, or nothing yet.
pub data Waiting : Type 0 where
  decided : Decision → Waiting
  context_done : Waiting
  still_waiting : Waiting

abbrev pub opening : ApprovalRecord → Result (Unit {0}) → Opening
opening rec (ok u) = opened rec
opening rec (err e) = refused e

-- The `select`. A decision and a done context may both be ready, and Go takes either: `prefer`
-- says which. The deferred function removes the waiter.
abbrev pub selected : Option (Option Decision) → Bool → Bool → Waiting
selected (some (some d)) true true = context_done
selected (some (some d)) true false = decided d
selected (some (some d)) false prefer = decided d
selected _ true prefer = context_done
selected _ false prefer = still_waiting

-- What `RequestUnder` answers: a decision, or `none` for its error.
abbrev pub answer_of : Waiting → Option Decision
answer_of (decided d) = some d
answer_of _ = none

module _ {S : Type 0} ⦃B : ApprovalStore S⦄ where
  abbrev pub write_pending : ApprovalRecord → Option S → Result (Unit {0}) × Option S
  write_pending rec none = (ok tt, none)
  write_pending rec (some s) = let (res, s') = B.create_approval rec s in (res, some s')

  -- `RequestUnder` up to its waiter.
  unfoldable pub open_request : Request → Policy → String → Time → Gate S → Gate S × Opening
  open_request req policy fresh now g =
      let rec = pending_record req fresh now in
      let (res, s') = write_pending rec g.store in
      if requires policy req.tool req.side_effect
      then (record g { store = s' }, opening rec res)
      else (g, allowed)

  abbrev pub push : ApprovalRecord → Gate S → Gate S
  push rec g = if g.notifier then record g { notified = g.notified ++ rec ∷ [] } else g

  -- It registers the channel and notifies.
  unfoldable pub register : ApprovalRecord → Gate S → Gate S
  register rec g = push rec (record g { waiters = put_waiter rec.id none g.waiters })

  abbrev pub leave : Waiting → String → Gate S → Gate S
  leave still_waiting aid g = g
  leave _ aid g = record g { waiters = delete_waiter aid g.waiters }

  unfoldable pub await : String → Bool → Bool → Gate S → Gate S × Waiting
  await aid ctx_done prefer g =
      let w = selected (find_waiter aid g.waiters) ctx_done prefer in (leave w aid g, w)

  -- `Create` does not block: the caller polls the row.
  unfoldable pub create : Request → String → Time → Gate S → Gate S × Opening
  create req fresh now g =
      let rec = pending_record req fresh now in
      let (res, s') = write_pending rec g.store in
      if requires g.policy req.tool req.side_effect
      then elim res [
        | err e ↦ (record g { store = s' }, refused e)
        | ok u ↦ (push rec (record g { store = s' }), opened rec)
      ]
      else (g, allowed)

  -- `Resolve`. The send into a full channel would block: the decision that is there stays.
  abbrev pub deliver : Option (Option Decision) → String → Decision → Gate S → Gate S
  deliver (some none) aid d g = record g { waiters = put_waiter aid (some d) g.waiters }
  deliver _ aid d g = g

  abbrev pub write_decision :
      String → Bool → String → String → Time → Option S → Result (Unit {0}) × Option S
  write_decision aid approve reason by now none = (ok tt, none)
  write_decision aid approve reason by now (some s) =
      let status = if approve then approval_approved else approval_denied in
      let (res, s') = B.resolve_approval aid status reason by now s in (res, some s')

  abbrev pub after_decision :
      Result (Unit {0}) → String → Decision → Gate S → Gate S × Result (Unit {0})
  after_decision (ok u) aid d g = (deliver (find_waiter aid g.waiters) aid d g, ok tt)
  after_decision (err e) aid d g = (g, err e)

  unfoldable pub resolve :
      String → Bool → String → String → Time → Gate S → Gate S × Result (Unit {0})
  resolve aid approve reason by now g =
      let (res, s') = write_decision aid approve reason by now g.store in
      let d : Decision = record { approved = approve; reason = reason; by = by } in
      after_decision res aid d (record g { store = s' })

  -- `Pending`.
  unfoldable pub pending : Gate S → Result (List ApprovalRecord)
  pending g = elim g.store [ none ↦ ok [] | some s ↦ B.list_approvals approval_pending s ]

  abbrev pub after_opening : Opening → (Gate S → Gate S) → Bool → Gate S → Gate S × Option Decision
  after_opening allowed meanwhile prefer g =
      (g, some (record { approved = true; reason = ""; by = "" }))
  after_opening (refused e) meanwhile prefer g = (g, none)
  after_opening (opened rec) meanwhile prefer g =
      let (g', w) = await rec.id true prefer (meanwhile (register rec g)) in (g', answer_of w)

  -- `RequestUnder` with what other callers do to the gate until its context is done at the latest.
  unfoldable pub request_under :
      Request
      → Policy
      → String
      → Time
      → (Gate S → Gate S)
      → Bool
      → Gate S
      → Gate S × Option Decision
  request_under req policy fresh now meanwhile prefer g =
      let (g', o) = open_request req policy fresh now g in after_opening o meanwhile prefer g'
