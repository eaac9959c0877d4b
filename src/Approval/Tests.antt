-- ===== src/Approval/Tests.antt =====
-- internal/approval: concrete requests at the gate.
use riskkernel.Base.{
  ℕ, str_eq, pos, ◌≡◌, refl, ◌≢◌, String, true, false, none, some, [], ◌∷◌, is_some, path_match,
  codes, Runes, ◌++◌, map, ap, arith, Option, List, trim_space, trim_left, trim_right, wrap64, ◌-ℤ◌,
}
use riskkernel.Storage.{ok, err, not_found, ApprovalRecord}
use riskkernel.Storage.Sqlite.{
  Db, select_one, sqlite_approvals, has_run, upsert_run, save_checkpoint, get_approval,
  resolve_approval,
}
use riskkernel.Runs.{record_of, view}
use riskkernel.Approval.{Policy, matches, any_matches, requires}
use riskkernel.Approval.Gate.{
  Request, Gate, opened, decided, still_waiting, find_waiter, pending_record, open_request,
  register, await, resolve,
}
use riskkernel.Approval.Decisions.{IsReady, decision_arrives}
use riskkernel.Approval.Lost.{early_decision_lost}
use riskkernel.Config.{digits_from, parse_int}
use riskkernel.Approval.Slack.{
  Mac, Interaction, SlackAction, Callback, verify_signature, parse_interaction, act_parsed,
  handle_slack,
}
use riskkernel.Approval.Signed.{IsSigned, slack_decides-IsSigned}
use riskkernel.Approval.Stale.{stale_click_claims_approval}
use riskkernel.Sample.{float, engine, db}

abbrev policy : Policy
policy = record {
  require_for =
      record { tool = "db_write"; side_effect = "" }
      ∷ record { tool = ""; side_effect = "*write*" }
      ∷ [];
  default_safe = false;
}

by_glob : requires policy "files" "fs_write_all" ≡ true
unfolding requires any_matches matches path_match
by_glob = refl

by_nothing : requires policy "files" "read" ≡ false
unfolding requires any_matches matches path_match
by_nothing = refl

abbrev effect : String
effect = "read"

abbrev request : Request
request = record {
  run_id = "run-1";
  step_index = pos 2;
  tool = "db_write";
  side_effect = "tool";
  arguments = "{}";
}

abbrev gate : Gate (Db ℕ)
gate = record { store = some db; policy = policy; notifier = true; waiters = []; notified = [] }

known_run : has_run "run-1" db ≡ true
unfolding save_checkpoint upsert_run record_of view
known_run = refl

unused_id : is_some (select_one (λ (a : ApprovalRecord). str_eq a.id "ap-1") db.approvals) ≡ false
unfolding save_checkpoint upsert_run record_of view
unused_id = refl

gate-IsReady : IsReady gate db request "ap-1"
gate-IsReady = record { stored = refl; known_run = known_run; unused = unused_id }

needed : requires policy "db_write" "tool" ≡ true
unfolding requires any_matches matches
needed = refl

decision_arrives_example :
    let (g₁, o) = open_request request policy "ap-1" (pos 30) gate in
    let g₂ = register (pending_record request "ap-1" (pos 30)) g₁ in
    let (g₃, res) = resolve "ap-1" true "fine" "ann" (pos 40) g₂ in
    let (g₄, w) = await "ap-1" false true g₃ in
    (o ≡ opened (pending_record request "ap-1" (pos 30)))
    × (res ≡ ok tt)
    × (w ≡ decided (record { approved = true; reason = "fine"; by = "ann" }))
    × (find_waiter "ap-1" g₄.waiters ≡ none)
decision_arrives_example =
    decision_arrives request policy "ap-1" "fine" "ann" true (pos 30) (pos 40) gate db gate-IsReady
      needed

early_decision_lost_example :
    let (g₁, o) = open_request request policy "ap-1" (pos 30) gate in
    let (g₂, res) = resolve "ap-1" true "fine" "ann" (pos 31) g₁ in
    let g₃ = register (pending_record request "ap-1" (pos 30)) g₂ in
    let (g₄, res') = resolve "ap-1" false "no" "bob" (pos 40) g₃ in
    (res ≡ ok tt)
    × ((await "ap-1" false true g₃).1 ≡ still_waiting)
    × (res' ≡ err not_found)
    × ((await "ap-1" false true g₄).1 ≡ still_waiting)
early_decision_lost_example =
    early_decision_lost request policy "ap-1" "fine" "ann" "no" "bob" true false (pos 30) (pos 31)
      (pos 40) gate db gate-IsReady needed refl

-- The digits of a text as its code, for a check of the shape.
instance abbrev mac : Mac
mac = record { hmac_hex = λ secret text. secret ++ text }

abbrev pending_row : ApprovalRecord
pending_row = pending_record request "ap-1" (pos 30)

abbrev denied_row : ApprovalRecord
denied_row = record pending_row {
  status = "denied";
  decided_by = "ann";
  decided_at = some (pos 31);
}

abbrev waiting_gate : Gate (Db ℕ)
waiting_gate = record gate { store = some (record db { approvals = pending_row ∷ [] }) }

abbrev closed_gate : Gate (Db ℕ)
closed_gate = record gate { store = some (record db { approvals = denied_row ∷ [] }) }

abbrev click : SlackAction
click = record {
  approval_id = "ap-1";
  approve = true;
  by = "bob";
  channel = "C1";
  message_ts = "1.2";
}

denied_read : get_approval "ap-1" (record db { approvals = denied_row ∷ [] }) ≡ ok denied_row
unfolding get_approval
denied_read = refl

stale_click_claims_approval_example : act_parsed (some click) (pos 40) closed_gate ≡ (
  closed_gate,
  record { status = 200; update = some (record { says_approved = true; approval = denied_row }) },
)
stale_click_claims_approval_example =
    stale_click_claims_approval click denied_row (pos 40) closed_gate
      (record db { approvals = denied_row ∷ [] }) refl denied_read refl (refl, tt) refl refl

abbrev callback : Callback
callback = record {
  timestamp = codes "1000";
  signature = codes "v0=" ++ (codes "key" ++ (codes "v0:1000:" ++ codes "x"));
  body = codes "x";
}

abbrev payload : Interaction
payload = record {
  kind = "block_actions";
  user_id = "U1";
  username = "bob";
  user_name = "";
  channel = "C1";
  message_ts = "1.2";
  actions = ("riskkernel_deny", "ap-1") ∷ [];
}

abbrev decode : Runes → Option (Option Interaction)
decode body = some (some payload)

abbrev waiting_rows : Gate (Db ℕ) → List String
waiting_rows g = elim g.store [
  | none ↦ []
  | some d ↦ map (λ (a : ApprovalRecord). a.status) d.approvals
]

decides :
    waiting_rows (handle_slack (codes "key") (pos 1200) (pos 40) decode callback waiting_gate).0
    ≡ "denied" ∷ []
unfolding handle_slack verify_signature parse_interaction resolve resolve_approval get_approval
    parse_int digits_from trim_space trim_left trim_right wrap64 ◌-ℤ◌ save_checkpoint upsert_run
    record_of view
decides = refl

changes :
    (handle_slack (codes "key") (pos 1200) (pos 40) decode callback waiting_gate).0 ≢ waiting_gate
changes e = cc (decides, ap (λ (g : Gate (Db ℕ)). waiting_rows g) e)

slack_decides-IsSigned_example : IsSigned (codes "key") (pos 1200) callback
slack_decides-IsSigned_example =
    slack_decides-IsSigned (codes "key") 1200 (pos 40) decode callback waiting_gate (omega arith)
      changes
