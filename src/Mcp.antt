-- ===== src/Mcp.antt =====
-- internal/mcp/gateway.go: the governed `tools/call` of the MCP gateway. The JSON-RPC message is what
-- the decoder yields, the upstream server and the spans are left out, and `meanwhile` is what other
-- callers do to the approval gate while the call waits there.
pub mod Allowed
pub mod Audit
pub mod Closed
mod Tests
use riskkernel.Base.{
  ℤ, pos, negsuc, String, codes, str_eq, Bool, true, false, not, ◌&&◌, ◌||◌, Option, none, some,
  List, [], ◌∷◌, map, is_nil, path_match, if◌then◌else◌, Float64, Time,
}
use riskkernel.Storage.{
  PolicyRecord, ApprovalRule, ToolCallRecord, Result, ok, err, Store, ApprovalStore,
}
use riskkernel.Approval
use riskkernel.Approval.{Policy, Rule, requires}
use riskkernel.Approval.Gate.{Decision, Request, Gate, request_under}
use riskkernel.Runs.{Run, try_write}
use riskkernel.Runs.Manager.{Manager, CreateOptions, create, get_or_create}

-- The configuration of the gateway: the global allowlist and the read-only tools.
pub record Gateway : Type 0 where
  pub allow : List String
  pub readonly : List String

-- `matchAllow`: an empty list allows all; a pattern is an exact name or a glob.
unfoldable pub match_pattern : List String → String → Bool
match_pattern [] tool = false
match_pattern (pat ∷ pats) tool =
    (str_eq pat tool || path_match (codes pat) (codes tool)) || match_pattern pats tool

unfoldable pub match_allow : List String → String → Bool
match_allow allow tool = is_nil allow || match_pattern allow tool

abbrev pub member : String → List String → Bool
member tool [] = false
member tool (t ∷ ts) = str_eq t tool || member tool ts

-- `sideEffect`.
unfoldable pub side_effect : Gateway → String → String
side_effect g tool = if member tool g.readonly then "" else "tool"

module _ {D : Type 0} where
  -- `allowedFor`.
  abbrev effective_allow : List String → Option (PolicyRecord D) → List String
  effective_allow allow none = allow
  effective_allow allow (some p) = if is_nil p.tool_allowlist then allow else p.tool_allowlist

  unfoldable pub allowed_for : Gateway → String → Option (PolicyRecord D) → Bool
  allowed_for g tool bundle = match_allow (effective_allow g.allow bundle) tool

  -- `bundlePolicy`: safe by default.
  unfoldable pub bundle_policy : PolicyRecord D → Policy
  bundle_policy p = record {
    require_for =
        map (λ (r : ApprovalRule). record { tool = r.tool; side_effect = r.side_effect })
          p.approval_rules;
    default_safe = true;
  }

  -- The policy that the gate is asked under, and whether it is asked.
  abbrev pub effective_policy : Policy → Option (PolicyRecord D) → Policy
  effective_policy global none = global
  effective_policy global (some p) = bundle_policy p

  unfoldable pub needs_approval : String → String → Option (PolicyRecord D) → Bool
  needs_approval tool se none = not (str_eq se "")
  needs_approval tool se (some p) = not (str_eq se "") || requires (bundle_policy p) tool se

-- A decoded message: a tools/call, or anything else.
pub data Message : Type 0 where
  other : Message
  tools_call : String → String → Message

-- How `handle` ends: passed on ungoverned, forwarded after governance, or a JSON-RPC error.
pub data Outcome : Type 0 where
  passed forwarded blocked timed_out denied : Outcome

abbrev pub error_code : Outcome → Option ℤ
error_code blocked = some (negsuc 32000)
error_code timed_out = some (negsuc 32001)
error_code denied = some (negsuc 32002)
error_code _ = none

-- What the environment brings to one call: the header, the ids that are minted, the times, what
-- others do at the gate, and which of two ready channels `select` takes.
pub record Call (S : Type 0) : Type 0 where
  pub header : String
  pub run_uuid : String
  pub approval_uuid : String
  pub record_uuid : String
  pub now : Time
  pub stamp : Time
  pub meanwhile : Gate S → Gate S
  pub prefer : Bool

abbrev found_policy : {D : Type 0} → Result (PolicyRecord D) → Option (PolicyRecord D)
found_policy (ok p) = some p
found_policy (err e) = none

module _ {D S : Type 0} ⦃F : Float64 D⦄ ⦃B : Store D S⦄ ⦃A : ApprovalStore S⦄ where
  -- `runPolicy`.
  unfoldable pub run_policy : Run D → Option S → Option (PolicyRecord D)
  run_policy r none = none
  run_policy r (some s) =
      if str_eq r.policy_ref "" then none else found_policy (B.get_policy r.policy_ref s)

  -- `resolveRun`.
  unfoldable pub resolve_run : Call S → Manager D S → Manager D S × Run D
  resolve_run c m =
      let fresh : CreateOptions D = record {
        id = "";
        name = "mcp";
        budget = none;
        policy_ref = "";
        metadata = [];
      } in
      if str_eq c.header "" then create fresh c.run_uuid c.now m else get_or_create c.header c.now m

  -- `recordToolCall`, without its span.
  abbrev pub tool_record : Call S → Run D → String → String → String → String → ToolCallRecord
  tool_record c r tool se args status = record {
    id = c.record_uuid;
    run_id = r.id;
    step_index = r.gov.usage.loops;
    tool = tool;
    side_effect = se;
    arguments = args;
    status = status;
    created_at = c.stamp;
  }

  -- The manager and the gate hold one store.
  abbrev pub recorded : ToolCallRecord → Manager D S × Gate S → Manager D S × Gate S
  recorded rec (m, g) =
      let s = try_write (B.append_tool_call rec) m.store in
      (record m { store = s }, record g { store = s })

  -- From the gate's answer on.
  abbrev pub after_answer :
      Option Decision
      → Call S
      → Run D
      → String
      → String
      → String
      → Manager D S × Gate S
      → Manager D S × Gate S × Outcome
  after_answer none c r tool se args st =
      let (m, g) = recorded (tool_record c r tool se args "timeout") st in (m, g, timed_out)
  after_answer (some d) c r tool se args st =
      if d.approved
      then (let (m, g) = recorded (tool_record c r tool se args "approved") st in (m, g, forwarded))
      else (let (m, g) = recorded (tool_record c r tool se args "denied") st in (m, g, denied))

  -- The approval step: the gate is asked if it is needed, over the store of the manager.
  unfoldable pub ask :
      Bool
      → Policy
      → Call S
      → Run D
      → String
      → String
      → String
      → Manager D S
      → Gate S
      → (Manager D S × Gate S) × Option Decision
  ask false policy c r tool se args m g =
      ((m, record g { store = m.store }), some (record { approved = true; reason = ""; by = "" }))
  ask true policy c r tool se args m g =
      let req : Request = record {
        run_id = r.id;
        step_index = r.gov.usage.loops;
        tool = tool;
        side_effect = se;
        arguments = args;
      } in
      let (g', answer) =
        request_under req policy c.approval_uuid c.now c.meanwhile c.prefer
          (record g { store = m.store }) in
      ((record m { store = g'.store }, g'), answer)

  -- The governed part of `handle`, for a run and its bundle.
  unfoldable pub govern :
      Gateway
      → Call S
      → String
      → String
      → Run D
      → Option (PolicyRecord D)
      → Manager D S
      → Gate S
      → Manager D S × Gate S × Outcome
  govern gw c tool args r bundle m g =
      let se = side_effect gw tool in
      let (st, answer) =
        ask (needs_approval tool se bundle) (effective_policy g.policy bundle) c r tool se args m
          g in
      if allowed_for gw tool bundle
      then after_answer answer c r tool se args st
      else (let (m', g') =
            recorded (tool_record c r tool "" args "blocked") (m, record g { store = m.store }) in
          (m', g', blocked))

  -- `handle`.
  unfoldable pub handle :
      Gateway → Call S → Message → Manager D S → Gate S → Manager D S × Gate S × Outcome
  handle gw c other m g = (m, g, passed)
  handle gw c (tools_call tool args) m g =
      let (m', r) = resolve_run c m in govern gw c tool args r (run_policy r m'.store) m' g
