-- ===== src/Mcp/Audit.antt =====
-- internal/mcp/gateway.go: every governed call is recorded with what became of it.
use riskkernel.Base.{
  ◌≡◌, ◌≢◌, ◌↔◌, refl, String, false, Option, none, some, arith, if◌then◌else◌, Float64, Bool-cases,
  inl, inr,
}
use riskkernel.Storage.{PolicyRecord, Store, ApprovalStore}
use riskkernel.Approval.Gate.{Decision, Gate}
use riskkernel.Runs.{Run, try_write}
use riskkernel.Runs.Manager.{Manager}
use riskkernel.Mcp.{
  Gateway, Call, Outcome, passed, forwarded, blocked, timed_out, denied, side_effect, allowed_for,
  needs_approval, effective_policy, after_answer, ask, govern,
}

-- The status that the audit trail has for an outcome.
abbrev pub audit_status : Outcome → String
audit_status passed = ""
audit_status forwarded = "approved"
audit_status blocked = "blocked"
audit_status timed_out = "timeout"
audit_status denied = "denied"

module _ {D S : Type 0} ⦃F : Float64 D⦄ ⦃B : Store D S⦄ ⦃A : ApprovalStore S⦄ (gw : Gateway)
    (c : Call S) (tool args : String) (r : Run D) (bundle : Option (PolicyRecord D)) where
  -- The last write of a call, over the store `s`.
  abbrev pub RecordedLast : Option S → String → Manager D S × Gate S × Outcome → Type 0
  RecordedLast s se (m, g, o) =
      (m.store
        ≡ try_write
            (B.append_tool_call (record {
              id = c.record_uuid;
              run_id = r.id;
              step_index = r.gov.usage.loops;
              tool = tool;
              side_effect = se;
              arguments = args;
              status = audit_status o;
              created_at = c.stamp;
            }))
            s)
      × (g.store ≡ m.store)

  -- The store when the gate has answered.
  abbrev pub asked_store : Manager D S → Gate S → Option S
  asked_store m g =
      (ask (needs_approval tool (side_effect gw tool) bundle) (effective_policy g.policy bundle) c r
        tool (side_effect gw tool) args m g).0.0.store

  answer_recorded :
      (answer : Option Decision) (se : String) (m : Manager D S) (g : Gate S)
      → RecordedLast m.store se (after_answer answer c r tool se args (m, g))
  answer_recorded none se m g = (refl, refl)
  answer_recorded (some d) se m g = elim (Bool-cases d.approved) [
    | inl e ↦ rw e (refl, refl)
    | inr e ↦ rw e (refl, refl)
  ]

  not_blocked :
      (answer : Option Decision) (se : String) (st : Manager D S × Gate S)
      → (after_answer answer c r tool se args st).2 ≢ blocked
  not_blocked none se st = λ h. cc
  not_blocked (some d) se st = λ h. ground arith

  -- Every governed call ends by handing the store, if there is one, one audit record: it has the run's
  -- id and loop count, the tool, its arguments and the time, and its status is the outcome: approved for
  -- a call that is forwarded, blocked, timeout or denied. Whether the store keeps it is the store's to
  -- say: a failed append changes no outcome. A call is blocked exactly for a tool outside the
  -- allowlist. The append goes to the store that the approval gate left; for a blocked call, which is
  -- not asked about, to the store as it was.
  pub call_is_recorded :
      (m : Manager D S) (g : Gate S)
      → RecordedLast
          (if allowed_for gw tool bundle then asked_store m g else m.store)
          (if allowed_for gw tool bundle then side_effect gw tool else "")
          (govern gw c tool args r bundle m g)
        × (((govern gw c tool args r bundle m g).2 ≡ blocked)
            ↔ (allowed_for gw tool bundle ≡ false))
  unfolding govern
  call_is_recorded m g =
      let se = side_effect gw tool in
      let (st, answer) =
        ask (needs_approval tool se bundle) (effective_policy g.policy bundle) c r tool se args m
          g in
      elim (Bool-cases (allowed_for gw tool bundle)) [
        | inl e ↦ rw e (
          answer_recorded answer se st.0 st.1,
          (λ h. absurd (not_blocked answer se st h), λ h. cc),
        )
        | inr e ↦ rw e ((refl, refl), (λ h. refl, λ h. refl))
      ]
