-- ===== src/Http/Approvals.antt =====
-- internal/httpapi/approvals.go and runs.go: the handlers of approvals over the gate, from the decoded
-- body on. The gate and the run manager have one store.
use riskkernel.Base.{
  ℤ, String, str_eq, Bool, true, false, Option, none, some, List, [], ◌∷◌, if◌then◌else◌, Time,
}
use riskkernel.Storage.{
  ApprovalRecord, approval_pending, RunRecord, not_found, failed, Result, ok, err, Store,
  ApprovalStore,
}
use riskkernel.Approval.Gate
use riskkernel.Approval.Gate.{Gate, Request, Opening, allowed, refused, opened, resolve}
use riskkernel.Http.{
  Response, problem, approval_allowed, approval_required, approval_read, approvals_listed, run_read,
  resolved,
}

-- `approvalDecision`.
pub record ApprovalDecision : Type 0 where
  pub approval_id : String
  pub decision : String
  pub reason : String
  pub decided_by : String

-- `decisionToBool`, with `none` for not ok.
abbrev pub decision_to_bool : String → Option Bool
decision_to_bool d =
    if str_eq d "approve" then some true else if str_eq d "deny" then some false else none

-- The rows of one run.
abbrev pub rows_of_run : String → List ApprovalRecord → List ApprovalRecord
rows_of_run rid [] = []
rows_of_run rid (a ∷ rows) =
    let rest = rows_of_run rid rows in if str_eq a.run_id rid then a ∷ rest else rest

abbrev pub rows_of : String → Result (List ApprovalRecord) → Result (List ApprovalRecord)
rows_of rid (ok rows) = ok (rows_of_run rid rows)
rows_of rid (err e) = err e

-- The approval that a decision is about, or the response.
pub data Target (D : Type 0) : Type 0 where
  target : String → Target D
  no_target : Response D → Target D

module _ {D : Type 0} where
  -- The run's single pending approval.
  abbrev pub single_pending : Result (List ApprovalRecord) → Target D
  single_pending (err e) = no_target (problem 500 "internal_error")
  single_pending (ok []) = no_target (problem 409 "no_pending_approval")
  single_pending (ok (a ∷ [])) = target a.id
  single_pending (ok (a ∷ b ∷ rows)) = no_target (problem 409 "ambiguous_approval")

  -- The named approval, if it belongs to the run.
  abbrev pub named_approval : String → String → Result ApprovalRecord → Target D
  named_approval rid aid (err e) = no_target (problem 404 "not_found")
  named_approval rid aid (ok a) =
      if str_eq a.run_id rid then target aid else no_target (problem 400 "bad_request")

-- The overlay of `runViewBody`.
abbrev pub first_pending : Result (List ApprovalRecord) → Option ApprovalRecord
first_pending (ok (a ∷ rows)) = some a
first_pending _ = none

module _ {S : Type 0} ⦃A : ApprovalStore S⦄ where
  -- `pendingForRun`.
  unfoldable pub pending_for_run : String → Option S → Result (List ApprovalRecord)
  pending_for_run rid none = ok []
  pending_for_run rid (some s) = rows_of rid (A.list_approvals approval_pending s)

  -- `Gate.Get`; on a gate with no store it panics, which is answered like an error.
  abbrev pub read_approval : String → Option S → Result ApprovalRecord
  read_approval aid none = err failed
  read_approval aid (some s) = A.get_approval aid s

module _ {D S : Type 0} ⦃B : Store D S⦄ ⦃A : ApprovalStore S⦄ where
  abbrev pub row_of : String → S → Result (RunRecord D)
  row_of rid s = B.get_run rid s

  -- The run's state after a decision; where it cannot be read, the approval.
  abbrev pub view_row : Result (RunRecord D) → String → String → Option S → Response D
  view_row (ok rec) rid aid s = run_read rec (first_pending (pending_for_run rid s))
  view_row (err e) rid aid s = resolved (read_approval aid s)

  abbrev pub after_approve : String → String → Option S → Response D
  after_approve rid aid none = resolved (err failed)
  after_approve rid aid (some s) = view_row (row_of rid s) rid aid (some s)

  abbrev pub resolve_response : Result (Unit {0}) → String → String → Option S → Response D
  resolve_response (ok u) rid aid s = after_approve rid aid s
  resolve_response (err not_found) rid aid s = problem 409 "already_resolved"
  resolve_response (err failed) rid aid s = problem 500 "internal_error"

  unfoldable pub find_target : String → String → Option S → Target D
  find_target rid aid s =
      if str_eq aid ""
      then single_pending (pending_for_run rid s)
      else named_approval rid aid (read_approval aid s)

  abbrev pub decide_target :
      Target D → String → Bool → ApprovalDecision → Time → Gate S → Gate S × Response D
  decide_target (no_target r) rid approve dec stamp g = (g, r)
  decide_target (target aid) rid approve dec stamp g =
      let (g', res) = resolve aid approve dec.reason dec.decided_by stamp g in
      (g', resolve_response res rid aid g'.store)

  abbrev pub approve_decoded :
      Option Bool → String → ApprovalDecision → Time → Gate S → Gate S × Response D
  approve_decoded none rid dec stamp g = (g, problem 400 "bad_request")
  approve_decoded (some approve) rid dec stamp g =
      decide_target (find_target rid dec.approval_id g.store) rid approve dec stamp g

  -- `handleApprove`; `none` is a body that does not decode.
  unfoldable pub handle_approve :
      String → Option ApprovalDecision → Time → Gate S → Gate S × Response D
  handle_approve rid none stamp g = (g, problem 400 "bad_request")
  handle_approve rid (some dec) stamp g =
      approve_decoded (decision_to_bool dec.decision) rid dec stamp g

  -- `runViewBody` and `handleGetRun`.
  abbrev pub run_response : Result (RunRecord D) → String → S → Response D
  run_response (ok rec) rid s = run_read rec (first_pending (pending_for_run rid (some s)))
  run_response (err not_found) rid s = problem 404 "not_found"
  run_response (err failed) rid s = problem 500 "internal_error"

  unfoldable pub handle_get_run : String → Option S → Response D
  handle_get_run rid none = problem 503 "no_store"
  handle_get_run rid (some s) = run_response (row_of rid s) rid s

-- `toolApprovalBody`, as far as it is not the run's id.
pub record ApprovalBody : Type 0 where
  pub tool : String
  pub side_effect : String
  pub step_index : ℤ
  pub arguments : String

module _ {D : Type 0} where
  abbrev pub opening_response : Opening → Response D
  opening_response (refused e) = problem 500 "internal_error"
  opening_response allowed = approval_allowed
  opening_response (opened rec) = approval_required rec

  abbrev pub approval_response : Result ApprovalRecord → Response D
  approval_response (ok a) = approval_read a
  approval_response (err not_found) = problem 404 "not_found"
  approval_response (err failed) = problem 500 "internal_error"

  abbrev pub list_response : Result (List ApprovalRecord) → Response D
  list_response (ok rows) = approvals_listed rows
  list_response (err e) = problem 500 "internal_error"

module _ {D S : Type 0} ⦃A : ApprovalStore S⦄ where
  -- `handleRequestApproval`; `live` says whether the manager has the run, `fresh` is the minted id.
  unfoldable pub handle_request_approval :
      Bool → String → Option ApprovalBody → String → Time → Gate S → Gate S × Response D
  handle_request_approval false rid body fresh now g = (g, problem 404 "not_found")
  handle_request_approval true rid none fresh now g = (g, problem 400 "bad_request")
  handle_request_approval true rid (some body) fresh now g =
      let req : Request = record {
        run_id = rid;
        step_index = body.step_index;
        tool = body.tool;
        side_effect = body.side_effect;
        arguments = body.arguments;
      } in
      let (g', o) = Gate.create req fresh now g in
      if str_eq body.tool "" then (g, problem 400 "bad_request") else (g', opening_response o)

  -- `handleGetApproval` and `handleListApprovals`.
  unfoldable pub handle_get_approval : String → S → Response D
  handle_get_approval aid s = approval_response (A.get_approval aid s)

  unfoldable pub handle_list_approvals : String → Option S → Response D
  handle_list_approvals status none = approvals_listed []
  handle_list_approvals status (some s) = list_response (A.list_approvals status s)
